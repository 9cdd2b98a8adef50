-- ===== src/ResumeVerification/Complete.antt =====
-- What a file must be to be reused (market_pipeline_lib/resume_verification.py).
use idea2strategy_data_pipel.Prelude.{
  ℕ, suc, String, true, false, Option, none, some, List, [], ◌∷◌, ◌≡◌, ◌↔◌, ◌≢◌, arith, ◌&&◌, refl,
  Bool-cases, Option-cases, All, inl, inr,
}
use idea2strategy_data_pipel.Prelude.Eq.{string_eq}
use idea2strategy_data_pipel.Prelude.Int.{ℤ, pos, ltb_ℤ, eqb_ℤ_iff, ◌≤ℤ◌}
use idea2strategy_data_pipel.Prelude.Result.{Result, ok, err}
use idea2strategy_data_pipel.Prelude.Text.{strip, lower, is_blank}
use idea2strategy_data_pipel.ResumeVerification.{
  FileSystem, ResumeVerdict, accepted, is_present, differs, verify_digest, verify_size,
  verdict_on_set, verify_expected, verify_resumable_file, ResumeEntry, hashed, sized, malformed,
  verify_entry, or_continue, verify_from, EntryError,
}

-- The file is there with `actual` bytes, at least one of them, no fewer than the minimum and as many as
-- were recorded, and it hashes to the recorded digest.
pub record IsComplete (fs : FileSystem) (path expected : String) (size : Option ℤ) (minimum : ℤ)
    : Type 0 where
  pub has_digest : is_blank (lower (strip expected)) ≡ false
  pub is_there : fs.is_file path ≡ some true
  pub actual : ℕ
  pub actual_size : fs.byte_size path ≡ some actual
  pub is_positive : actual ≢ 0
  pub is_large : minimum ≤ℤ pos actual
  pub has_size : (recorded : ℤ) → size ≡ some recorded → pos actual ≡ recorded
  pub digest : fs.sha256_file path ≡ some (lower (strip expected))

verify_digest-accepts :
    (path expected : String) (size : Option ℤ) (actual : ℕ) (d : Option String)
    → ((verify_digest path expected size actual d).resumable ≡ true) ↔ (d ≡ some expected)
unfolding verify_digest
verify_digest-accepts path expected size actual none = ground arith
verify_digest-accepts path expected size actual (some d) =
    ground (arith, string_eq.beq_iff d expected)

differs_iff :
    (size : Option ℤ) (actual : ℕ)
    → (differs size actual ≡ false) ↔ ((r : ℤ) → size ≡ some r → pos actual ≡ r)
differs_iff none actual = (λ _ r e. absurd ground arith, λ _. refl)
differs_iff (some s) actual = (
  λ h r e. ground (arith, eqb_ℤ_iff (pos actual) s),
  λ h. ground (arith, eqb_ℤ_iff (pos actual) s, h s refl),
)

too_small_iff :
    (minimum : ℤ) (actual : ℕ)
    → ((ltb_ℤ (pos 0) minimum && ltb_ℤ (pos actual) minimum) ≡ false) ↔ (minimum ≤ℤ pos actual)
too_small_iff minimum actual = ground arith

verify_size-accepts :
    (fs : FileSystem) (path expected : String) (size : Option ℤ) (minimum : ℤ) (actual : ℕ)
    → ((verify_size fs path expected size minimum (some actual)).resumable ≡ true) ↔ (
        (actual ≢ 0)
        × (minimum ≤ℤ pos actual)
        × (differs size actual ≡ false)
        × (fs.sha256_file path ≡ some expected))
unfolding verify_size
verify_size-accepts fs path expected size minimum actual = ground (
  arith,
  too_small_iff minimum actual,
  verify_digest-accepts path expected size actual (fs.sha256_file path),
)

is_present_iff :
    (fs : FileSystem) (path : String) → (is_present fs path ≡ true) ↔ (fs.is_file path ≡ some true)
is_present_iff fs path = ground (arith, Option-cases (fs.is_file path))

accepted-found :
    (fs : FileSystem) (path expected : String) (size : Option ℤ) (minimum : ℤ)
    → (verify_expected fs path expected size minimum).resumable ≡ true
    → (is_blank expected ≡ false)
      × (is_present fs path ≡ true)
      × ((verify_size fs path expected size minimum (fs.byte_size path)).resumable ≡ true)
accepted-found fs path expected size minimum h =
    ground (arith, Bool-cases (is_blank expected), Bool-cases (is_present fs path))

accepted-measured :
    (fs : FileSystem) (path expected : String) (size : Option ℤ) (minimum : ℤ) (measured : Option ℕ)
    → (verify_size fs path expected size minimum measured).resumable ≡ true
    → (actual : ℕ) × (measured ≡ some actual)
      × ((verify_size fs path expected size minimum (some actual)).resumable ≡ true)
unfolding verify_size
accepted-measured fs path expected size minimum none h = absurd ground arith
accepted-measured fs path expected size minimum (some actual) h = (actual, refl, h)

accepted-IsComplete :
    (fs : FileSystem) (path expected : String) (size : Option ℤ) (minimum : ℤ)
    → (verify_expected fs path (lower (strip expected)) size minimum).resumable ≡ true
    → IsComplete fs path expected size minimum
accepted-IsComplete fs path expected size minimum h =
    let (has_digest, present, sized_well) =
      accepted-found fs path (lower (strip expected)) size minimum h in
    let (actual, measured, accepts) =
      accepted-measured fs path (lower (strip expected)) size minimum (fs.byte_size path)
        sized_well in
    let (positive, large, same, digest) =
      (verify_size-accepts fs path (lower (strip expected)) size minimum actual).0 accepts in
    record {
      has_digest = has_digest;
      is_there = (is_present_iff fs path).0 present;
      actual = actual;
      actual_size = measured;
      is_positive = positive;
      is_large = large;
      has_size = (differs_iff size actual).0 same;
      digest = digest;
    }

IsComplete-accepted :
    (fs : FileSystem) (path expected : String) (size : Option ℤ) (minimum : ℤ)
    → IsComplete fs path expected size minimum
    → (verify_expected fs path (lower (strip expected)) size minimum).resumable ≡ true
IsComplete-accepted fs path expected size minimum c =
    rw (c.has_digest, (is_present_iff fs path).1 c.is_there, c.actual_size)
      ((verify_size-accepts fs path (lower (strip expected)) size minimum c.actual).1
        (c.is_positive, c.is_large, (differs_iff size c.actual).1 c.has_size, c.digest))

-- A file is accepted exactly when it is complete: it is there, it has the recorded size and at least the
-- minimum and one byte, and its digest is the recorded one, trimmed and in lower case.
pub verify_resumable_file-IsComplete :
    (fs : FileSystem) (path expected : String) (size : Option ℤ) (minimum : ℤ)
    → ((verify_resumable_file fs path expected size minimum).resumable ≡ true)
      ↔ IsComplete fs path expected size minimum
unfolding verify_resumable_file
verify_resumable_file-IsComplete fs path expected size minimum = (
  accepted-IsComplete fs path expected size minimum,
  IsComplete-accepted fs path expected size minimum,
)

-- An entry of two or three members that names a complete file.
abbrev pub IsCompleteEntry : FileSystem → ℤ → ResumeEntry → Type 0
IsCompleteEntry fs minimum (hashed path sha) = IsComplete fs path sha none minimum
IsCompleteEntry fs minimum (sized path sha size) = IsComplete fs path sha size minimum
IsCompleteEntry fs minimum malformed = ⊥

-- A call that returned a verdict that accepts.
abbrev pub Accepts : Result EntryError ResumeVerdict → Type 0
Accepts r = (verdict : ResumeVerdict) × (r ≡ ok verdict) × (verdict.resumable ≡ true)

pub Accepts-verify_entry :
    (fs : FileSystem) (minimum : ℤ) (entry : ResumeEntry)
    → Accepts (verify_entry fs minimum entry) ↔ IsCompleteEntry fs minimum entry
unfolding verify_entry
Accepts-verify_entry fs minimum (hashed path sha) =
    let (to, from) = verify_resumable_file-IsComplete fs path sha none minimum in
    (
      λ (_, e, r). to (ground arith),
      λ c. (verify_resumable_file fs path sha none minimum, refl, from c),
    )
Accepts-verify_entry fs minimum (sized path sha size) =
    let (to, from) = verify_resumable_file-IsComplete fs path sha size minimum in
    (
      λ (_, e, r). to (ground arith),
      λ c. (verify_resumable_file fs path sha size minimum, refl, from c),
    )
Accepts-verify_entry fs minimum malformed = (λ (_, e, r). absurd ground arith, λ c. absurd c)

pub Accepts-or_continue :
    (r rest : Result EntryError ResumeVerdict)
    → Accepts (or_continue r rest) ↔ (Accepts r × Accepts rest)
unfolding or_continue
Accepts-or_continue (err raised) rest =
    (λ (_, e, r). absurd ground arith, λ ((_, e, r), _). absurd ground arith)
Accepts-or_continue (ok verdict) rest = (
  λ (final, e, r). elim (Bool-cases verdict.resumable) [
    | inl h ↦ ((verdict, refl, h), (final, rw h at e, r))
    | inr h ↦ absurd ground arith
  ],
  λ ((first, e, r), (final, e', r')). (final, ground arith, r'),
)

pub Accepts-verify_from :
    (fs : FileSystem) (minimum : ℤ) (checked : ℕ) (entries : List ResumeEntry)
    → Accepts (verify_from fs minimum (suc checked) entries)
      ↔ All (IsCompleteEntry fs minimum) entries
unfolding verify_from
Accepts-verify_from fs minimum checked [] =
    (λ _. tt, λ _. (verdict_on_set true accepted, ground arith, refl))
Accepts-verify_from fs minimum checked (entry ∷ entries) =
    let (first_to, first_from) = Accepts-verify_entry fs minimum entry in
    let (rest_to, rest_from) = Accepts-verify_from fs minimum (suc checked) entries in
    let (to, from) =
      Accepts-or_continue (verify_entry fs minimum entry)
        (verify_from fs minimum (suc (suc checked)) entries) in
    (λ h. let (a, b) = to h in (first_to a, rest_to b), λ (a, b). from (first_from a, rest_from b))
