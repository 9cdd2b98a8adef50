-- ===== src/Pagination.antt =====
-- `iter_pages` of market_pipeline_lib/alpaca/pagination.py: the pages that are yielded, and how the traversal
-- ends. The server may answer each request as it likes; the fuel bounds the requests, and `Termination`
-- says how much is enough.
pub mod Termination
pub mod Examples
use idea2strategy_data_pipel.Prelude.{
  ℕ, zero, suc, String, Bool, true, false, List, [], ◌∷◌, Option, none, some, if◌then◌else◌,
}
use idea2strategy_data_pipel.Prelude.Eq.{string_eq, contains}
use idea2strategy_data_pipel.Prelude.Text.{is_blank}
use idea2strategy_data_pipel.Prelude.Result.{Result, ok, err}

-- `page.get("next_page_token")`: missing or null, a text, or a value of another type.
pub data NextToken : Type 0 where
  absent not_text : NextToken
  text : String → NextToken

pub record Page (B : Type 0) : Type 0 where
  pub next_page_token : NextToken
  pub body : B

-- The end of the generator: its return, the two `PermanentAlpacaError`s, an exception of the fetcher, or more
-- requests than the fuel.
pub data End (E : Type 0) : Type 0 where
  finished wrong_type repeated out_of_fuel : End E
  failed : E → End E

-- What a page says: an end, or the token of the next request.
pub data Step (E : Type 0) : Type 0 where
  ends : End E → Step E
  follows : String → Step E

unfoldable pub next_step : {E : Type 0} → List String → NextToken → Step E
next_step seen absent = ends finished
next_step seen not_text = ends wrong_type
next_step seen (text token) =
    if is_blank token
    then ends finished
    else if contains seen token
    then ends repeated
    else follows token

abbrev pub yields : {B E : Type 0} → Page B → List (Page B) × End E → List (Page B) × End E
yields page (pages, end) = (page ∷ pages, end)

abbrev pub goes_on :
    {B E : Type 0} → Step E → (String → List (Page B) × End E) → List (Page B) × End E
goes_on (ends end) request = ([], end)
goes_on (follows next) request = request next

abbrev pub received :
    {B E : Type 0} → Result E (Page B) → (Page B → List (Page B) × End E) → List (Page B) × End E
received (err e) read = ([], failed e)
received (ok page) read = yields page (read page)

module _ {B E : Type 0} (fetch_page : ℕ → Option String → Result E (Page B)) where
  -- The loop, at the request of a number, with the tokens that were seen.
  unfoldable pub pages_from : ℕ → ℕ → Option String → List String → List (Page B) × End E
  pages_from zero n token seen = ([], out_of_fuel)
  pages_from (suc fuel) n token seen = received (fetch_page n token) (λ page.
      goes_on (next_step seen page.next_page_token)
        (λ next. pages_from fuel (suc n) (some next) (next ∷ seen)))

  unfoldable pub iter_pages : ℕ → List (Page B) × End E
  iter_pages fuel = pages_from fuel 0 none []
