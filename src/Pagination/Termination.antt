-- ===== src/Pagination/Termination.antt =====
-- The traversal of pages ends (market_pipeline_lib/alpaca/pagination.py).
use idea2strategy_data_pipel.Prelude.{
  ℕ, zero, suc, ◌≤◌, ◌<◌, String, true, false, not, ◌≡◌, ◌≢◌, refl, sym, ap, subst, List, [], ◌∷◌,
  Option, none, some, arith, length, count, Bool-cases, inl, inr,
}
use idea2strategy_data_pipel.Prelude.Eq.{contains, string_eq, beq_refl}
use idea2strategy_data_pipel.Prelude.Text.{is_blank}
use idea2strategy_data_pipel.Prelude.Result.{Result, ok, err}
use idea2strategy_data_pipel.Pagination.{
  NextToken, text, absent, not_text, Page, End, out_of_fuel, Step, ends, follows, next_step, yields,
  goes_on, received, pages_from, iter_pages,
}

-- How many of the tokens have not been seen.
abbrev unseen : List String → List String → ℕ
unseen seen tokens = count (λ t. not (contains seen t)) tokens

unseen_all : (tokens : List String) → unseen [] tokens ≡ length tokens
unseen_all [] = refl
unseen_all (token ∷ tokens) = omega (arith, unseen_all tokens)

unseen_mono :
    (t : String) (seen tokens : List String) → unseen (t ∷ seen) tokens ≤ unseen seen tokens
unseen_mono t seen [] = ground arith
unseen_mono t seen (x ∷ tokens) = ground (arith, unseen_mono t seen tokens)

unseen_decreases :
    (t : String) (seen tokens : List String)
    → contains tokens t ≡ true
    → contains seen t ≡ false
    → unseen (t ∷ seen) tokens < unseen seen tokens
unseen_decreases t seen [] there new = absurd ground arith
unseen_decreases t seen (x ∷ tokens) there new = elim (Bool-cases (string_eq.beq x t)) [
  | inl same ↦
      let e = sym ((string_eq.beq_iff x t).0 same) in
      ground (
        arith,
        subst (λ y. string_eq.beq t y ≡ true) e (beq_refl t),
        subst (λ y. contains seen y ≡ false) e new,
        unseen_mono t seen tokens,
      )
  | inr other ↦ ground (arith, other, unseen_decreases t seen tokens)
]

ends-injective : {E : Type 0} {a b : End E} → ◌≡◌ {A = Step E} (ends a) (ends b) → a ≡ b
ends-injective h = cc

ends-follows : {E : Type 0} {end : End E} {t : String} → ◌≡◌ {A = Step E} (ends end) (follows t) → ⊥
ends-follows h = cc

follows-injective : {E : Type 0} {s t : String} → ◌≡◌ {A = Step E} (follows s) (follows t) → s ≡ t
follows-injective h = cc

next_step-follows :
    {E : Type 0} (seen : List String) (next : NextToken) (t : String)
    → ◌≡◌ {A = Step E} (next_step seen next) (follows t)
    → (next ≡ text t) × (contains seen t ≡ false)
unfolding next_step
next_step-follows seen absent t h = absurd cc
next_step-follows seen not_text t h = absurd cc
next_step-follows seen (text token) t h = elim (Bool-cases (is_blank token)) [
  | inl blank ↦ absurd (ends-follows (rw blank at h))
  | inr there ↦ elim (Bool-cases (contains seen token)) [
    | inl again ↦ absurd (ends-follows (rw (there, again) at h))
    | inr new ↦
        let e = follows-injective (rw (there, new) at h) in
        (ap text e, subst (λ s. contains seen s ≡ false) e new)
  ]
]

next_step-ends :
    {E : Type 0} (seen : List String) (next : NextToken) (end : End E)
    → next_step seen next ≡ ends end
    → end ≢ out_of_fuel
unfolding next_step
next_step-ends seen absent end h = λ e. absurd cc
next_step-ends seen not_text end h = λ e. absurd cc
next_step-ends seen (text token) end h = elim (Bool-cases (is_blank token)) [
  | inl blank ↦ let e = ends-injective (rw blank at h) in λ f. absurd cc
  | inr there ↦ elim (Bool-cases (contains seen token)) [
    | inl again ↦ let e = ends-injective (rw (there, again) at h) in λ f. absurd cc
    | inr new ↦ absurd (ends-follows (sym (rw (there, new) at h)))
  ]
]

module _ {B E : Type 0} (fetch_page : ℕ → Option String → Result E (Page B))
    (tokens : List String) where
  -- Every token that the server hands out is one of the list.
  abbrev pub IsFinite : Type 0
  IsFinite =
      (n : ℕ) (token : Option String) (page : Page B) (next : String)
      → fetch_page n token ≡ ok page
      → page.next_page_token ≡ text next
      → contains tokens next ≡ true

yields-end : {B E : Type 0} (page : Page B) (r : List (Page B) × End E) → (yields page r).1 ≡ r.1
yields-end page (pages, end) = refl

goes_on-end :
    {B E : Type 0} (step : Step E) (request : String → List (Page B) × End E)
    → ((end : End E) → step ≡ ends end → end ≢ out_of_fuel)
    → ((next : String) → step ≡ follows next → (request next).1 ≢ out_of_fuel)
    → (goes_on step request).1 ≢ out_of_fuel
goes_on-end (ends end) request ended followed = ended end refl
goes_on-end (follows next) request ended followed = followed next refl

received-end :
    {B E : Type 0} (response : Result E (Page B)) (read : Page B → List (Page B) × End E)
    → ((page : Page B) → response ≡ ok page → (read page).1 ≢ out_of_fuel)
    → (received response read).1 ≢ out_of_fuel
received-end (err e) read is_read = λ f. absurd cc
received-end (ok page) read is_read =
    subst (λ end. end ≢ out_of_fuel) (sym (yields-end page (read page))) (is_read page refl)

module _ {B E : Type 0} (fetch_page : ℕ → Option String → Result E (Page B)) where
  pages_from-end :
      (tokens : List String) (known : IsFinite fetch_page tokens) (fuel n : ℕ)
      (token : Option String) (seen : List String)
      → unseen seen tokens < fuel
      → (pages_from fetch_page fuel n token seen).1 ≢ out_of_fuel
  unfolding pages_from
  pages_from-end tokens known zero n token seen enough = absurd ground arith
  pages_from-end tokens known (suc fuel) n token seen enough =
      received-end (fetch_page n token) _ (λ page fetched.
        goes_on-end (next_step {E = E} seen page.next_page_token) _
          (next_step-ends seen page.next_page_token)
          (λ next step.
            let (given, new) = next_step-follows seen page.next_page_token next step in
            let fewer =
              unseen_decreases next seen tokens (known n token page next fetched given) new in
            pages_from-end tokens known fuel (suc n) (some next) (next ∷ seen)
              (omega (arith, fewer, enough))))

  -- The traversal ends, by a return or by an exception: where the server hands out no other tokens than those of
  -- a finite list, one request more than there are tokens is enough.
  pub iter_pages-terminates :
      (tokens : List String)
      → IsFinite fetch_page tokens
      → (iter_pages fetch_page (suc (length tokens))).1 ≢ out_of_fuel
  unfolding iter_pages
  iter_pages-terminates tokens known =
      pages_from-end tokens known (suc (length tokens)) 0 none [] (omega (arith, unseen_all tokens))
