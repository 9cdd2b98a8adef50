-- ===== src/ManifestWatermarks/Latest.antt =====
-- The loop of `advance_available_manifest_watermarks` over the manifests.
use idea2strategy_data_pipel.Prelude.{
  ℕ, ◌≤◌, String, ◌≡◌, refl, true, Option, none, some, List, [], ◌∷◌, ◌++◌, arith, if◌then◌else◌,
  Bool-cases, inl, inr, ◌⊎◌, subst, sym, ap, ◌∙◌, ltb,
}
use idea2strategy_data_pipel.Prelude.Eq.{string_eq, ◌==◌, contains, beq_refl}
use idea2strategy_data_pipel.Prelude.Dict.{Dict, lookup, keys, has, lookup-insert}
use idea2strategy_data_pipel.Prelude.Result.{ok, Result-cases, >>=-eq-ok}
use idea2strategy_data_pipel.Watermarks.Position.{DateTime, aware}
use idea2strategy_data_pipel.ManifestWatermarks.{
  ManifestRow, Candidate, instant, keep_latest, consider, latest_from,
}

-- The feed has a candidate that ends at `t` or later.
abbrev pub Reaches : Dict String Candidate → String → ℕ → Type 0
Reaches latest f t = (c : Candidate) × (lookup f latest ≡ some c) × (t ≤ c.period_end)

-- Every feed with a candidate is active.
abbrev pub AllActive : List String → Dict String Candidate → Type 0
AllActive active latest = (f : String) → has f latest ≡ true → contains active f ≡ true

-- The candidate of a feed after one more manifest.
abbrev later : Option Candidate → Candidate → Candidate
later none c = c
later (some current) c = if ltb current.period_end c.period_end then c else current

lookup-keep_latest :
    (latest : Dict String Candidate) (g : String) (c : Candidate) (f : String)
    → lookup f (keep_latest latest g c (lookup g latest))
      ≡ (if string_eq.beq g f then some (later (lookup g latest) c) else lookup f latest)
unfolding keep_latest
lookup-keep_latest latest g c f = ground (arith, lookup-insert g f c latest, string_eq.beq_iff g f)

keep_latest-keeps :
    (latest : Dict String Candidate) (g : String) (c : Candidate) (f : String) (t : ℕ)
    → Reaches latest f t
    → Reaches (keep_latest latest g c (lookup g latest)) f t
keep_latest-keeps latest g c f t (old, found, late) = elim (Bool-cases (string_eq.beq g f)) [
  | inl same ↦ (
    later (some old) c,
    ground (arith, lookup-keep_latest latest g c f, string_eq.beq_iff g f),
    ground arith,
  )
  | inr other ↦ (old, ground (arith, lookup-keep_latest latest g c f), late)
]

keep_latest-Reaches :
    (latest : Dict String Candidate) (g : String) (c : Candidate)
    → Reaches (keep_latest latest g c (lookup g latest)) g c.period_end
keep_latest-Reaches latest g c = (
  later (lookup g latest) c,
  ground (arith, lookup-keep_latest latest g c g, beq_refl g),
  ground arith,
)

-- The manifest is one that the projection reads.
abbrev pub IsEligible : List String → ManifestRow → Type 0
IsEligible active m = (contains active m.feed_id ≡ true) × ((m.status == "AVAILABLE") ≡ true)

instant-ok : (o : Option DateTime) (t : ℕ) → instant o ≡ ok t → o ≡ some (aware t)
unfolding instant
instant-ok o t h = ground arith

aware_injective : {t p : ℕ} → some (aware t) ≡ some (aware p) → t ≡ p
aware_injective e = cc

module _ (active : List String) where
  -- One round leaves the candidates alone, or takes in those of an eligible manifest.
  consider-cases :
      (latest : Dict String Candidate) (m : ManifestRow) (latest' : Dict String Candidate)
      → consider active latest m ≡ ok latest'
      → ((latest' ≡ latest) × ¬ (IsEligible active m))
        ⊎ ((t u : ℕ) × IsEligible active m
            × (m.period_end ≡ some (aware t))
            × (latest'
                ≡ keep_latest latest m.feed_id
                    (record { period_end = t; available_at = u })
                    (lookup m.feed_id latest)))
  unfolding consider
  consider-cases latest m latest' h = elim (Bool-cases (contains active m.feed_id)) [
    | inr inactive ↦ inl (ground arith, λ (a, s). cc (inactive, a))
    | inl is_active ↦ elim (Bool-cases (m.status == "AVAILABLE")) [
      | inr other ↦ inl (ground arith, λ (a, s). cc (other, s))
      | inl available ↦ elim (Result-cases (instant m.period_end)) [
        | inr (e, refused) ↦ absurd (ground arith)
        | inl (t, period) ↦ elim (Result-cases (instant m.available_at)) [
          | inr (e, refused) ↦ absurd (ground arith)
          | inl (u, at) ↦
              inr (t, u, (is_active, available), instant-ok m.period_end t period, ground arith)
        ]
      ]
    ]
  ]

  consider-keeps :
      (latest : Dict String Candidate) (m : ManifestRow) (latest' : Dict String Candidate)
      (f : String) (t : ℕ)
      → consider active latest m ≡ ok latest'
      → Reaches latest f t
      → Reaches latest' f t
  consider-keeps latest m latest' f t h old = elim (consider-cases latest m latest' h) [
    | inl (same, _) ↦ rw same old
    | inr (p, u, _, _, now) ↦
        rw now
          (keep_latest-keeps latest m.feed_id (record { period_end = p; available_at = u }) f t old)
  ]

  -- A candidate is only replaced by a later one.
  latest_from-keeps :
      (latest : Dict String Candidate) (ms : List ManifestRow) (latest' : Dict String Candidate)
      (f : String) (t : ℕ)
      → latest_from active latest ms ≡ ok latest'
      → Reaches latest f t
      → Reaches latest' f t
  unfolding latest_from
  latest_from-keeps latest [] latest' f t h old = subst (λ d. Reaches d f t) (ground arith) old
  latest_from-keeps latest (m ∷ ms) latest' f t h old =
      let (next, first, rest) =
        >>=-eq-ok (consider active latest m) (λ d. latest_from active d ms) h in
      latest_from-keeps next ms latest' f t rest (consider-keeps latest m next f t first old)

  -- Every eligible manifest is reached by its feed's candidate.
  pub latest_from-Reaches :
      (latest : Dict String Candidate) (before : List ManifestRow) (m : ManifestRow)
      (after : List ManifestRow) (latest' : Dict String Candidate) (t : ℕ)
      → latest_from active latest (before ++ m ∷ after) ≡ ok latest'
      → IsEligible active m
      → m.period_end ≡ some (aware t)
      → Reaches latest' m.feed_id t
  unfolding latest_from
  latest_from-Reaches latest [] m after latest' t h eligible ends =
      let (next, first, rest) =
        >>=-eq-ok (consider active latest m) (λ d. latest_from active d after) h in
      latest_from-keeps next after latest' m.feed_id t rest
        (elim (consider-cases latest m next first) [
          | inl (_, ineligible) ↦ absurd (ineligible eligible)
          | inr (p, u, _, period, now) ↦
              rw (now, aware_injective (sym ends ∙ period))
                (keep_latest-Reaches latest m.feed_id (record { period_end = p; available_at = u }))
        ])
  latest_from-Reaches latest (b ∷ before) m after latest' t h eligible ends =
      let (next, first, rest) =
        >>=-eq-ok (consider active latest b) (λ d. latest_from active d (before ++ m ∷ after)) h in
      latest_from-Reaches next before m after latest' t rest eligible ends

  consider-AllActive :
      (latest : Dict String Candidate) (m : ManifestRow) (latest' : Dict String Candidate)
      → consider active latest m ≡ ok latest'
      → AllActive active latest
      → AllActive active latest'
  consider-AllActive latest m latest' h a f present = elim (consider-cases latest m latest' h) [
    | inl (same, _) ↦ a f (rw same at present)
    | inr (p, u, (is_active, _), _, now) ↦ elim (Bool-cases (string_eq.beq m.feed_id f)) [
      | inl same ↦ rw (← (string_eq.beq_iff m.feed_id f).0 same) is_active
      | inr other ↦ a f (
          ground (
            arith,
            lookup-keep_latest latest m.feed_id (record { period_end = p; available_at = u }) f,
            ap (λ (d : Dict String Candidate). has f d) now,
          ))
    ]
  ]

  pub latest_from-AllActive :
      (latest : Dict String Candidate) (ms : List ManifestRow) (latest' : Dict String Candidate)
      → latest_from active latest ms ≡ ok latest'
      → AllActive active latest
      → AllActive active latest'
  unfolding latest_from
  latest_from-AllActive latest [] latest' h a = subst (AllActive active) (ground arith) a
  latest_from-AllActive latest (m ∷ ms) latest' h a =
      let (next, first, rest) =
        >>=-eq-ok (consider active latest m) (λ d. latest_from active d ms) h in
      latest_from-AllActive next ms latest' rest (consider-AllActive latest m next first a)

pub contains-keys : (d : Dict String Candidate) (f : String) → contains (keys d) f ≡ has f d
contains-keys [] f = refl
contains-keys ((k, c) ∷ d) f = ground (arith, contains-keys d f)
