-- ===== src/Features/Version.antt =====
-- The version string and the digests that it names (market_pipeline_lib/features/hashing.py).
use idea2strategy_data_pipel.Prelude.{
  ℕ, zero, suc, ◌≤◌, String, true, ◌≡◌, ◌↔◌, refl, some, arith, ap, sym, ◌∙◌,
}
use idea2strategy_data_pipel.Prelude.Eq.{string_eq}
use idea2strategy_data_pipel.Prelude.Text.{append, text_length}
use idea2strategy_data_pipel.Prelude.Result.{ok}
use idea2strategy_data_pipel.Features.Hashing.{
  all_hex, is_sha256_hex, take_text, prefix_of, literal, normalized, join_version, version,
  batch_version, is_batch, matches, hex_run, parse_feature_materialization_version,
  ParsedFeatureVersion, scope_batch,
}

literal-append : (p s : String) → literal p (append p s) ≡ some s
literal-append String.[] s = refl
literal-append (String.◌∷◌ c p) s = ground (arith, literal-append p s)

hex_run-append :
    (n : ℕ) (h s : String)
    → all_hex h ≡ true
    → n ≤ text_length h
    → hex_run n (append (take_text n h) s) ≡ some (take_text n h, s)
hex_run-append zero h s hex long = refl
hex_run-append (suc n) String.[] s hex long = absurd ground arith
hex_run-append (suc n) (String.◌∷◌ c h) s hex long = ground (arith, hex_run-append n h s)

normalized-hex : (digest : String) → is_sha256_hex digest ≡ true → normalized digest ≡ ok digest
unfolding normalized is_sha256_hex
normalized-hex String.[] h = absurd ground arith
normalized-hex (String.◌∷◌ c s) h = ground arith

-- The batch version of three digests, and what it parses to.
abbrev pub version_of : String → String → String → String
version_of identity inputs result =
    join_version scope_batch (prefix_of identity) (prefix_of inputs) (prefix_of result)

abbrev pub parsed_of : String → String → String → ParsedFeatureVersion
parsed_of identity inputs result = record {
  scope = scope_batch;
  identity_prefix = prefix_of identity;
  inputs_prefix = prefix_of inputs;
  result_prefix = prefix_of result;
}

sha256-long : (h : String) → is_sha256_hex h ≡ true → (all_hex h ≡ true) × (16 ≤ text_length h)
unfolding is_sha256_hex
sha256-long h hex = ground arith

parse-run :
    (h s : String)
    → is_sha256_hex h ≡ true
    → hex_run 16 (append (prefix_of h) s) ≡ some (prefix_of h, s)
parse-run h s hex = let (a, b) = sha256-long h hex in hex_run-append 16 h s a b

append-nil : (s : String) → append s String.[] ≡ s
append-nil String.[] = refl
append-nil (String.◌∷◌ c s) = ap (String.◌∷◌ c) (append-nil s)

parse-last_run :
    (h : String) → is_sha256_hex h ≡ true → hex_run 16 (prefix_of h) ≡ some (prefix_of h, String.[])
parse-last_run h hex = ap (hex_run 16) (sym (append-nil (prefix_of h))) ∙ parse-run h String.[] hex

pub batch_version-hex :
    (identity inputs result : String)
    → is_sha256_hex identity ≡ true
    → is_sha256_hex inputs ≡ true
    → is_sha256_hex result ≡ true
    → batch_version identity inputs result ≡ ok (version_of identity inputs result)
unfolding batch_version version
batch_version-hex identity inputs result i n r =
    rw (normalized-hex identity i, normalized-hex inputs n, normalized-hex result r) refl

pub is_batch-parsed_of :
    (identity inputs result : String) → is_batch (parsed_of identity inputs result) ≡ true
unfolding is_batch
is_batch-parsed_of identity inputs result = refl

pub matches-parsed_of :
    (identity inputs result other_identity other_inputs other_result : String)
    → (matches (parsed_of identity inputs result) other_identity other_inputs other_result ≡ true)
      ↔ ((prefix_of identity ≡ prefix_of other_identity)
          × (prefix_of inputs ≡ prefix_of other_inputs)
          × (prefix_of result ≡ prefix_of other_result))
unfolding matches
matches-parsed_of identity inputs result other_identity other_inputs other_result = ground (
  arith,
  string_eq.beq_iff (prefix_of identity) (prefix_of other_identity),
  string_eq.beq_iff (prefix_of inputs) (prefix_of other_inputs),
  string_eq.beq_iff (prefix_of result) (prefix_of other_result),
)

pub parse-version_of :
    (identity inputs result : String)
    → is_sha256_hex identity ≡ true
    → is_sha256_hex inputs ≡ true
    → is_sha256_hex result ≡ true
    → parse_feature_materialization_version (version_of identity inputs result)
      ≡ ok (parsed_of identity inputs result)
unfolding parse_feature_materialization_version
parse-version_of identity inputs result i n r =
    rw
      (
        parse-run identity (append ":" (append (prefix_of inputs) (append ":" (prefix_of result))))
            i,
        parse-run inputs (append ":" (prefix_of result)) n,
        parse-last_run result r,
      )
      refl

-- Three SHA-256 digests have a batch version. It parses, as that of a batch, and it matches three texts
-- exactly when their first 16 characters are those of the digests that it was rendered from.
pub batch_version-parse :
    (identity inputs result : String)
    → is_sha256_hex identity ≡ true
    → is_sha256_hex inputs ≡ true
    → is_sha256_hex result ≡ true
    → (text : String) × (parsed : ParsedFeatureVersion) × (batch_version identity inputs result
        ≡ ok text)
      × (parse_feature_materialization_version text ≡ ok parsed)
      × (is_batch parsed ≡ true)
      × ((other_identity other_inputs other_result : String)
          → (matches parsed other_identity other_inputs other_result ≡ true) ↔ (
              (prefix_of identity ≡ prefix_of other_identity)
              × (prefix_of inputs ≡ prefix_of other_inputs)
              × (prefix_of result ≡ prefix_of other_result)))
batch_version-parse identity inputs result i n r = (
  version_of identity inputs result,
  parsed_of identity inputs result,
  batch_version-hex identity inputs result i n r,
  parse-version_of identity inputs result i n r,
  is_batch-parsed_of identity inputs result,
  matches-parsed_of identity inputs result,
)
