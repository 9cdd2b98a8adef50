-- ===== src/Pagination/Examples.antt =====
-- Tests of market_pipeline_lib/alpaca/pagination.py: a server that hands out two tokens in turn.
use idea2strategy_data_pipel.Prelude.{
  ℕ, zero, suc, String, true, ◌≡◌, ◌≢◌, refl, subst, [], ◌∷◌, Option,
}
use idea2strategy_data_pipel.Prelude.Eq.{contains, string_eq}
use idea2strategy_data_pipel.Prelude.Result.{Result, ok}
use idea2strategy_data_pipel.Pagination.{
  NextToken, text, Page, out_of_fuel, repeated, finished, next_step, pages_from, iter_pages,
}
use idea2strategy_data_pipel.Pagination.Termination.{IsFinite, iter_pages-terminates}

abbrev page_of : NextToken → Page ℕ
page_of token = record { next_page_token = token; body = 0 }

abbrev server : ℕ → Option String → Result ℕ (Page ℕ)
server zero token = ok (page_of (text "a"))
server (suc zero) token = ok (page_of (text "b"))
server (suc (suc n)) token = ok (page_of (text "a"))

handed_out :
    (page : Page ℕ) (token next : String)
    → ◌≡◌ {A = Result ℕ (Page ℕ)} (ok (page_of (text token))) (ok page)
    → page.next_page_token ≡ text next
    → token ≡ next
handed_out page token next fetched given = cc

server-IsFinite : IsFinite server ("a" ∷ "b" ∷ [])
server-IsFinite zero token page next fetched given =
    subst (λ t. contains ("a" ∷ "b" ∷ []) t ≡ true) (handed_out page "a" next fetched given) refl
server-IsFinite (suc zero) token page next fetched given =
    subst (λ t. contains ("a" ∷ "b" ∷ []) t ≡ true) (handed_out page "b" next fetched given) refl
server-IsFinite (suc (suc n)) token page next fetched given =
    subst (λ t. contains ("a" ∷ "b" ∷ []) t ≡ true) (handed_out page "a" next fetched given) refl

server-repeats : (iter_pages server 3).1 ≡ repeated
unfolding iter_pages pages_from next_step
server-repeats = refl

abbrev last_page : ℕ → Option String → Result ℕ (Page ℕ)
last_page n token = ok (page_of (text ""))

empty_token-finishes : iter_pages last_page 1 ≡ (page_of (text "") ∷ [], finished)
unfolding iter_pages pages_from next_step
empty_token-finishes = refl

iter_pages-terminates_example : (iter_pages server 3).1 ≢ out_of_fuel
iter_pages-terminates_example = iter_pages-terminates server ("a" ∷ "b" ∷ []) server-IsFinite
