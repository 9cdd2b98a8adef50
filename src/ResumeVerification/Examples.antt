-- ===== src/ResumeVerification/Examples.antt =====
-- Two files, one of them cut short (market_pipeline_lib/resume_verification.py).
use idea2strategy_data_pipel.Prelude.{
  true, false, some, [], ◌∷◌, ◌≡◌, ◌↔◌, refl, is_empty, All, if◌then◌else◌, arith,
}
use idea2strategy_data_pipel.Prelude.Eq.{string_eq}
use idea2strategy_data_pipel.Prelude.Int.{pos}
use idea2strategy_data_pipel.Prelude.Result.{ok, err}
use idea2strategy_data_pipel.Prelude.Text.{lower, strip}
use idea2strategy_data_pipel.ResumeVerification.{
  FileSystem, sized, malformed, verify_size, verify_resumable_file, verify_entry, verify_from,
  verify_resumable_files, require_matching_fingerprint, rejection, no_recorded_objects,
  size_mismatch, verdict_on_set, fingerprint_mismatch,
}
use idea2strategy_data_pipel.ResumeVerification.Complete.{
  IsComplete, IsCompleteEntry, Accepts, verify_resumable_file-IsComplete,
}
use idea2strategy_data_pipel.ResumeVerification.FirstRejection.{
  verify_resumable_files_complete, verify_resumable_files-first_rejection,
}

abbrev disk : FileSystem
disk = record {
  is_file = λ path. some (if string_eq.beq path "gone" then false else true);
  byte_size = λ path. some (if string_eq.beq path "whole" then 7 else 3);
  sha256_file = λ path. some (if string_eq.beq path "whole" then "0fe" else "abc");
}

whole-IsComplete : IsComplete disk "whole" " 0FE " (some (pos 7)) (pos 1)
unfolding lower strip
whole-IsComplete = record {
  has_digest = refl;
  is_there = refl;
  actual = 7;
  actual_size = refl;
  is_positive = ground arith;
  is_large = ground arith;
  has_size = λ recorded e. ground arith;
  digest = refl;
}

cut_test :
    verify_resumable_file disk "cut" "0fe" (some (pos 7)) (pos 1)
    ≡ rejection "cut" "0fe" (some (pos 7)) 3 size_mismatch
unfolding verify_resumable_file verify_size lower strip
cut_test = refl

cut-incomplete : ¬ (IsComplete disk "cut" "0fe" (some (pos 7)) (pos 1))
cut-incomplete c =
    let accepts = (verify_resumable_file-IsComplete disk "cut" "0fe" (some (pos 7)) (pos 1)).1 c in
    absurd ground (arith, cut_test)

nothing_test :
    verify_resumable_files disk (pos 1) [] ≡ ok (verdict_on_set false no_recorded_objects)
unfolding verify_resumable_files verify_from
nothing_test = refl

fingerprint_test : require_matching_fingerprint (some "a") "b" ≡ err fingerprint_mismatch
unfolding require_matching_fingerprint
fingerprint_test = refl

-- The whole file alone is accepted, with its digest in capitals and blanks about it.
verify_resumable_files_complete_example :
    Accepts (verify_resumable_files disk (pos 1) (sized "whole" " 0FE " (some (pos 7)) ∷ [])) ↔ (
      (is_empty (sized "whole" " 0FE " (some (pos 7)) ∷ []) ≡ false)
      × All (IsCompleteEntry disk (pos 1)) (sized "whole" " 0FE " (some (pos 7)) ∷ []))
verify_resumable_files_complete_example =
    verify_resumable_files_complete disk (pos 1) (sized "whole" " 0FE " (some (pos 7)) ∷ [])

-- Behind the whole file the cut one is refused, and the tuple behind it is not looked at.
verify_resumable_files-first_rejection_example :
    verify_resumable_files disk
      (pos 1)
      (sized "whole" " 0FE " (some (pos 7)) ∷ sized "cut" "0fe" (some (pos 7)) ∷ malformed ∷ [])
    ≡ verify_entry disk (pos 1) (sized "cut" "0fe" (some (pos 7)))
verify_resumable_files-first_rejection_example =
    verify_resumable_files-first_rejection disk (pos 1) (sized "whole" " 0FE " (some (pos 7)) ∷ [])
      (sized "cut" "0fe" (some (pos 7))) (malformed ∷ []) (whole-IsComplete, tt) cut-incomplete
