-- ===== src/ResumeVerification.antt =====
-- market_pipeline_lib/resume_verification.py: whether the objects that an interrupted run recorded may be
-- reused. The file system is the record of the three calls that the check makes.
pub mod Complete
pub mod FirstRejection
pub mod Examples
use idea2strategy_data_pipel.Prelude.{
  ℕ, suc, String, Bool, true, false, ◌||◌, Option, none, some, List, [], ◌∷◌, if◌then◌else◌, ltb,
  ◌&&◌, ◌==◌, not,
}
use idea2strategy_data_pipel.Prelude.Eq.{string_eq}
use idea2strategy_data_pipel.Prelude.Int.{ℤ, pos, ltb_ℤ, eqb_ℤ}
use idea2strategy_data_pipel.Prelude.Result.{Result, ok, err}
use idea2strategy_data_pipel.Prelude.Text.{strip, lower, is_blank}

-- `Path.is_file`, `Path.stat().st_size` and `contracts.sha256_file`; `none` is an `OSError`.
pub record FileSystem : Type 0 where
  pub is_file : String → Option Bool
  pub byte_size : String → Option ℕ
  pub sha256_file : String → Option String

-- The reason codes; `accepted` is the empty text.
pub data Reason : Type 0 where
  accepted missing empty too_small size_mismatch hash_mismatch no_expected_hash
        no_recorded_objects :
      Reason

pub record ResumeVerdict : Type 0 where
  pub resumable : Bool
  pub reason : Reason
  pub path : Option String
  pub expected_sha256 : String
  pub actual_sha256 : String
  pub expected_byte_size : Option ℤ
  pub actual_byte_size : ℕ

abbrev pub is_present : FileSystem → String → Bool
is_present fs path = elim (fs.is_file path) [ none ↦ false | some found ↦ found ]

abbrev pub differs : Option ℤ → ℕ → Bool
differs none actual = false
differs (some expected) actual = not (eqb_ℤ (pos actual) expected)

abbrev pub rejection : String → String → Option ℤ → ℕ → Reason → ResumeVerdict
rejection path expected size actual reason = record {
  resumable = false;
  reason = reason;
  path = some path;
  expected_sha256 = expected;
  actual_sha256 = "";
  expected_byte_size = size;
  actual_byte_size = actual;
}

-- The comparison of the digests.
unfoldable pub verify_digest : String → String → Option ℤ → ℕ → Option String → ResumeVerdict
verify_digest path expected size actual none = rejection path expected size actual missing
verify_digest path expected size actual (some digest) =
    if string_eq.beq digest expected
    then record {
      resumable = true;
      reason = accepted;
      path = some path;
      expected_sha256 = expected;
      actual_sha256 = digest;
      expected_byte_size = size;
      actual_byte_size = actual;
    }
    else record (rejection path expected size actual hash_mismatch) { actual_sha256 = digest }

-- The checks of the size, behind which the file is hashed.
unfoldable pub verify_size : FileSystem → String → String → Option ℤ → ℤ → Option ℕ → ResumeVerdict
verify_size fs path expected size minimum none = rejection path expected size 0 missing
verify_size fs path expected size minimum (some actual) =
    if actual == 0
    then rejection path expected size actual empty
    else if ltb_ℤ (pos 0) minimum && ltb_ℤ (pos actual) minimum
    then rejection path expected size actual too_small
    else if differs size actual
    then rejection path expected size actual size_mismatch
    else verify_digest path expected size actual (fs.sha256_file path)

abbrev pub verify_expected : FileSystem → String → String → Option ℤ → ℤ → ResumeVerdict
verify_expected fs path expected size minimum =
    if is_blank expected
    then rejection path "" size 0 no_expected_hash
    else if is_present fs path
    then verify_size fs path expected size minimum (fs.byte_size path)
    else rejection path expected size 0 missing

unfoldable pub verify_resumable_file : FileSystem → String → String → Option ℤ → ℤ → ResumeVerdict
verify_resumable_file fs path expected size minimum =
    verify_expected fs path (lower (strip expected)) size minimum

-- A recorded tuple by its length; `malformed` is one of neither two nor three members.
pub data ResumeEntry : Type 0 where
  hashed : String → String → ResumeEntry
  sized : String → String → Option ℤ → ResumeEntry
  malformed : ResumeEntry

pub data EntryError : Type 0 where
  not_an_entry : EntryError

-- One step of the loop: the verdict on an entry, or the `ValueError`.
unfoldable pub verify_entry : FileSystem → ℤ → ResumeEntry → Result EntryError ResumeVerdict
verify_entry fs minimum (hashed path sha) = ok (verify_resumable_file fs path sha none minimum)
verify_entry fs minimum (sized path sha size) = ok (verify_resumable_file fs path sha size minimum)
verify_entry fs minimum malformed = err not_an_entry

abbrev pub verdict_on_set : Bool → Reason → ResumeVerdict
verdict_on_set resumable reason = record {
  resumable = resumable;
  reason = reason;
  path = none;
  expected_sha256 = "";
  actual_sha256 = "";
  expected_byte_size = none;
  actual_byte_size = 0;
}

-- A rejection ends the loop, and so does the error.
unfoldable pub or_continue :
    Result EntryError ResumeVerdict
    → Result EntryError ResumeVerdict
    → Result EntryError ResumeVerdict
or_continue (err raised) rest = err raised
or_continue (ok verdict) rest = if verdict.resumable then rest else ok verdict

unfoldable pub verify_from : FileSystem → ℤ → ℕ → List ResumeEntry → Result EntryError ResumeVerdict
verify_from fs minimum checked [] = ok (
    if checked == 0 then verdict_on_set false no_recorded_objects else verdict_on_set true accepted)
verify_from fs minimum checked (entry ∷ entries) =
    or_continue (verify_entry fs minimum entry) (verify_from fs minimum (suc checked) entries)

unfoldable pub verify_resumable_files :
    FileSystem → ℤ → List ResumeEntry → Result EntryError ResumeVerdict
verify_resumable_files fs minimum entries = verify_from fs minimum 0 entries

pub data FingerprintError : Type 0 where
  fingerprint_mismatch : FingerprintError

unfoldable pub require_matching_fingerprint :
    Option String → String → Result FingerprintError (Unit {0})
require_matching_fingerprint none expected = err fingerprint_mismatch
require_matching_fingerprint (some recorded) expected =
    if string_eq.beq recorded expected then ok tt else err fingerprint_mismatch
