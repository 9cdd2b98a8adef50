-- ===== src/ResumeVerification/FirstRejection.antt =====
-- The verdict on a set of recorded objects (market_pipeline_lib/resume_verification.py).
use idea2strategy_data_pipel.Prelude.{
  ℕ, suc, false, List, [], ◌∷◌, ◌++◌, ◌≡◌, ◌↔◌, arith, refl, is_empty, All, Bool-cases, inl, inr,
}
use idea2strategy_data_pipel.Prelude.Int.{ℤ}
use idea2strategy_data_pipel.Prelude.Result.{Result, ok, err}
use idea2strategy_data_pipel.ResumeVerification.{
  FileSystem, ResumeVerdict, ResumeEntry, EntryError, verify_entry, or_continue, verify_from,
  verify_resumable_files,
}
use idea2strategy_data_pipel.ResumeVerification.Complete.{
  IsCompleteEntry, Accepts, Accepts-verify_entry, Accepts-or_continue, Accepts-verify_from,
}

-- A recorded set is accepted exactly when it is not empty and every entry of it names a complete file.
pub verify_resumable_files_complete :
    (fs : FileSystem) (minimum : ℤ) (entries : List ResumeEntry)
    → Accepts (verify_resumable_files fs minimum entries)
      ↔ ((is_empty entries ≡ false) × All (IsCompleteEntry fs minimum) entries)
unfolding verify_resumable_files verify_from
verify_resumable_files_complete fs minimum [] =
    (λ (_, e, r). absurd ground arith, λ (h, _). absurd ground arith)
verify_resumable_files_complete fs minimum (entry ∷ entries) =
    let (first_to, first_from) = Accepts-verify_entry fs minimum entry in
    let (rest_to, rest_from) = Accepts-verify_from fs minimum 0 entries in
    let (to, from) =
      Accepts-or_continue (verify_entry fs minimum entry) (verify_from fs minimum 1 entries) in
    (
      λ h. let (a, b) = to h in (refl, (first_to a, rest_to b)),
      λ (_, (a, b)). from (first_from a, rest_from b),
    )

or_continue-accepted :
    (r rest : Result EntryError ResumeVerdict) → Accepts r → or_continue r rest ≡ rest
unfolding or_continue
or_continue-accepted (err raised) rest (verdict, e, h) = absurd ground arith
or_continue-accepted (ok first) rest (verdict, e, h) = ground arith

or_continue-refused :
    (r rest : Result EntryError ResumeVerdict) → ¬ (Accepts r) → or_continue r rest ≡ r
unfolding or_continue
or_continue-refused (err raised) rest h = refl
or_continue-refused (ok first) rest h = elim (Bool-cases first.resumable) [
  | inl accepts ↦ absurd (h (first, refl, accepts))
  | inr refuses ↦ ground arith
]

verify_from-first_rejection :
    (fs : FileSystem) (minimum : ℤ) (checked : ℕ) (front : List ResumeEntry) (entry : ResumeEntry)
    (rest : List ResumeEntry)
    → All (IsCompleteEntry fs minimum) front
    → ¬ (IsCompleteEntry fs minimum entry)
    → verify_from fs minimum checked (front ++ entry ∷ rest) ≡ verify_entry fs minimum entry
unfolding verify_from
verify_from-first_rejection fs minimum checked [] entry rest complete h =
    or_continue-refused (verify_entry fs minimum entry) (verify_from fs minimum (suc checked) rest)
      (λ a. h ((Accepts-verify_entry fs minimum entry).0 a))
verify_from-first_rejection fs minimum checked (e ∷ front) entry rest complete h =
    rw
      (or_continue-accepted (verify_entry fs minimum e)
        (verify_from fs minimum (suc checked) (front ++ entry ∷ rest))
        ((Accepts-verify_entry fs minimum e).1 complete.0))
      (verify_from-first_rejection fs minimum (suc checked) front entry rest complete.1 h)

-- The first entry that is not complete decides, whatever stands behind it: the call returns the
-- rejection of that entry, or raises on it where it has neither two nor three members.
pub verify_resumable_files-first_rejection :
    (fs : FileSystem) (minimum : ℤ) (front : List ResumeEntry) (entry : ResumeEntry)
    (rest : List ResumeEntry)
    → All (IsCompleteEntry fs minimum) front
    → ¬ (IsCompleteEntry fs minimum entry)
    → verify_resumable_files fs minimum (front ++ entry ∷ rest) ≡ verify_entry fs minimum entry
unfolding verify_resumable_files
verify_resumable_files-first_rejection fs minimum = verify_from-first_rejection fs minimum 0
