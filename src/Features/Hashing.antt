-- ===== src/Features/Hashing.antt =====
-- market_pipeline_lib/features/hashing.py: digests over canonical JSON and the grammar of
-- `feature_materialization_version`. The JSON text, SHA-256 and the two renderings of an instant are the
-- standard library's; an instant is a number.
use Prim.Native.Char.{Char, code}
use idea2strategy_data_pipel.Prelude.{
  ◌≡◌, refl, ℕ, zero, suc, String, Bool, true, false, ◌&&◌, ◌||◌, Option, none, some, if◌then◌else◌,
  leb, ◌==◌,
}
use idea2strategy_data_pipel.Prelude.Eq.{string_eq}
use idea2strategy_data_pipel.Prelude.Text.{append, text_length}
use idea2strategy_data_pipel.Prelude.Result.{Result, ok, err, ◌>>=◌, or_raise, guard}
use idea2strategy_data_pipel.RealtimeIngest.Json.{Json}

-- `json.dumps` with the arguments of `canonical_json`, `hashlib.sha256(...).hexdigest()`, `uuid.uuid5`
-- under the library's namespace, and the two renderings of an instant.
pub record Encoders (F D : Type 0) : Type 0 where
  pub dumps : Json F D → String
  pub sha256 : String → String
  pub uuid5 : String → String
  pub isoformat : ℕ → String
  pub strftime : ℕ → String

module _ {F D : Type 0} (encoders : Encoders F D) where
  unfoldable pub canonical_json : Json F D → String
  canonical_json payload = encoders.dumps payload

  unfoldable pub canonical_sha256 : Json F D → String
  canonical_sha256 payload = encoders.sha256 (canonical_json payload)

  abbrev pub iso_utc : ℕ → String
  iso_utc value = encoders.isoformat value

  abbrev pub compact_utc : ℕ → String
  compact_utc value = encoders.strftime value

-- `[0-9a-f]`.
abbrev pub is_hex : Char → Bool
is_hex c = (leb 48 (code c) && leb (code c) 57) || (leb 97 (code c) && leb (code c) 102)

abbrev pub all_hex : String → Bool
all_hex String.[] = true
all_hex (String.◌∷◌ c s) = is_hex c && all_hex s

unfoldable pub is_sha256_hex : String → Bool
is_sha256_hex value = all_hex value && (text_length value == 64)

abbrev pub scope_materialization : String
scope_materialization = "m"

abbrev pub scope_batch : String
scope_batch = "b"

-- `VERSION_PREFIX_LENGTH`.
abbrev pub version_prefix_length : ℕ
version_prefix_length = 16

-- `text[:n]`.
abbrev pub take_text : ℕ → String → String
take_text zero s = String.[]
take_text (suc n) String.[] = String.[]
take_text (suc n) (String.◌∷◌ c s) = String.◌∷◌ c (take_text n s)

abbrev pub prefix_of : String → String
prefix_of digest = take_text version_prefix_length digest

-- The rest of a text behind a prefix, where it has the prefix.
abbrev pub literal : String → String → Option String
literal String.[] s = some s
literal (String.◌∷◌ c p) String.[] = none
literal (String.◌∷◌ c p) (String.◌∷◌ d s) =
    let rest = literal p s in if code c == code d then rest else none

-- `text.removeprefix(prefix)`.
abbrev pub remove_prefix : String → String → String
remove_prefix p s = elim (literal p s) [ none ↦ s | some rest ↦ rest ]

pub data VersionError : Type 0 where
  not_a_digest not_a_version : VersionError

-- One digest of the loop of `_version`.
unfoldable pub normalized : String → Result VersionError String
normalized digest =
    let value = remove_prefix "sha256:" digest in
    if is_sha256_hex value then ok value else err not_a_digest

abbrev pub join_version : String → String → String → String → String
join_version scope identity inputs result =
    append "fmv1:"
      (append scope (append ":" (append identity (append ":" (append inputs (append ":" result))))))

unfoldable pub version : String → String → String → String → Result VersionError String
version scope identity inputs result = do
  i ← normalized identity
  n ← normalized inputs
  r ← normalized result
  ok (join_version scope (prefix_of i) (prefix_of n) (prefix_of r))

unfoldable pub materialization_version : String → String → String → Result VersionError String
materialization_version definition_hash input_dataset_set_hash result_hash =
    version scope_materialization definition_hash input_dataset_set_hash result_hash

unfoldable pub batch_version : String → String → String → Result VersionError String
batch_version feature_set_hash input_market_set_hash batch_hash =
    version scope_batch feature_set_hash input_market_set_hash batch_hash

pub record ParsedFeatureVersion : Type 0 where
  pub scope : String
  pub identity_prefix : String
  pub inputs_prefix : String
  pub result_prefix : String

unfoldable pub is_batch : ParsedFeatureVersion → Bool
is_batch parsed = string_eq.beq parsed.scope scope_batch

unfoldable pub matches : ParsedFeatureVersion → String → String → String → Bool
matches parsed identity inputs result =
    string_eq.beq parsed.identity_prefix (prefix_of identity)
    && string_eq.beq parsed.inputs_prefix (prefix_of inputs)
    && string_eq.beq parsed.result_prefix (prefix_of result)

-- `[0-9a-f]{n}` at the front of a text, with what stands behind it.
abbrev pub hex_run : ℕ → String → Option (String × String)
hex_run zero s = some (String.[], s)
hex_run (suc n) String.[] = none
hex_run (suc n) (String.◌∷◌ c s) =
    let run = hex_run n s in
    if is_hex c
    then elim run [ none ↦ none | some found ↦ some (String.◌∷◌ c found.0, found.1) ]
    else none

-- `[mb]`.
abbrev pub scope_at : String → Option (String × String)
scope_at s = elim (literal scope_materialization s) [
  | some rest ↦ some (scope_materialization, rest)
  | none ↦ elim (literal scope_batch s) [ some rest ↦ some (scope_batch, rest) | none ↦ none ]
]

abbrev at_end : String → Bool
at_end String.[] = true
at_end (String.◌∷◌ _ _) = false

-- `_VERSION.fullmatch`.
unfoldable pub parse_feature_materialization_version :
    String → Result VersionError ParsedFeatureVersion
parse_feature_materialization_version value = do
  rest ← or_raise (literal "fmv1:" value) not_a_version
  scope ← or_raise (scope_at rest) not_a_version
  rest ← or_raise (literal ":" scope.1) not_a_version
  identity ← or_raise (hex_run version_prefix_length rest) not_a_version
  rest ← or_raise (literal ":" identity.1) not_a_version
  inputs ← or_raise (hex_run version_prefix_length rest) not_a_version
  rest ← or_raise (literal ":" inputs.1) not_a_version
  result ← or_raise (hex_run version_prefix_length rest) not_a_version
  _ ← guard (at_end result.1) not_a_version
  ok record {
    scope = scope.0;
    identity_prefix = identity.0;
    inputs_prefix = inputs.0;
    result_prefix = result.0;
  }

parse_test :
    parse_feature_materialization_version
      (join_version "b" "0123456789abcdef" "0123456789abcdee" "0123456789abcded")
    ≡ ok record {
      scope = "b";
      identity_prefix = "0123456789abcdef";
      inputs_prefix = "0123456789abcdee";
      result_prefix = "0123456789abcded";
    }
unfolding parse_feature_materialization_version
parse_test = refl
