-- ===== src/Watermarks/Restart.antt =====
-- A ledger over its repository through crashes: what a restart from the persisted row skips.
use idea2strategy_data_pipel.Prelude.{
  String, ◌≡◌, inl, inr, true, Option, none, some, List, [], ◌∷◌, sym, arith, Option-cases, ◌⊎◌,
  refl,
}
use idea2strategy_data_pipel.Prelude.Eq.{string_eq, contains}
use idea2strategy_data_pipel.Prelude.Dict.{has, lookup, insert, lookup-insert}
use idea2strategy_data_pipel.Prelude.Result.{ok, Result-cases}
use idea2strategy_data_pipel.Watermarks.Position.{DateTime, StreamPosition}
use idea2strategy_data_pipel.Watermarks.Row.{StreamWatermark, stream_watermark}
use idea2strategy_data_pipel.Watermarks.Repository.{WatermarkRepository}
use idea2strategy_data_pipel.Watermarks.Ledger.{
  advanced, WatermarkDecision, should_process, WatermarkLedger, watermark_ledger, from_keys,
  classify, observe, head_of, join, completion_floor, checkpoint, stored_position, resume,
}
use idea2strategy_data_pipel.Watermarks.Heads.{
  AtLeast, AtLeast-refl, AtLeast-trans, observe-shard_keys, observe-feed_id, observe-never_rewinds,
}
use idea2strategy_data_pipel.Watermarks.Floor.{
  IsDeclared, observe-IsDeclared, completion_floor-bounds,
}

-- The heads of a new ledger.
has-from_keys :
    (ks : List String) (p : Option StreamPosition) (k : String)
    → has k (from_keys ks p) ≡ contains ks k
has-from_keys [] p k = refl
has-from_keys (j ∷ ks) p k =
    ground (arith, lookup-insert j k p (from_keys ks p), has-from_keys ks p k)

head-from_keys :
    (ks : List String) (p : Option StreamPosition) (k : String)
    → contains ks k ≡ true
    → join (lookup k (from_keys ks p)) ≡ p
head-from_keys [] p k c = cc
head-from_keys (j ∷ ks) p k c =
    ground (arith, lookup-insert j k p (from_keys ks p), head-from_keys ks p k)

ledger_fields :
    (f : String) (ks : List String) (p : Option StreamPosition) (l : WatermarkLedger)
    → watermark_ledger f ks p ≡ ok l
    → l ≡ record { feed_id = f; shard_keys = ks; resumed_from = p; heads = from_keys ks p }
unfolding watermark_ledger
ledger_fields f ks p l h = ground arith

-- Every declared shard of a new ledger starts at the resume position.
pub head-watermark_ledger :
    (f : String) (ks : List String) (p : Option StreamPosition) (l : WatermarkLedger) (k : String)
    → watermark_ledger f ks p ≡ ok l
    → contains ks k ≡ true
    → head_of l k ≡ p
head-watermark_ledger f ks p l k h c = rw (ledger_fields f ks p l h) (head-from_keys ks p k c)

pub watermark_ledger-IsDeclared :
    (f : String) (ks : List String) (p : Option StreamPosition) (l : WatermarkLedger)
    → watermark_ledger f ks p ≡ ok l
    → IsDeclared l
watermark_ledger-IsDeclared f ks p l h = rw (ledger_fields f ks p l h) (record {
  keys = λ k. sym (has-from_keys ks p k);
  resumed = λ k c. rw (head-from_keys ks p k c) (AtLeast-refl p);
})

-- The ledger takes the message in and says that it is to be processed.
abbrev pub Processes : WatermarkLedger → String → StreamPosition → Type 0
Processes l k p =
    (d : WatermarkDecision) × (l' : WatermarkLedger) × (observe l k p ≡ ok (d, l'))
    × (should_process d ≡ true)

known-Processes :
    (l : WatermarkLedger) (k : String) (p : StreamPosition)
    → has k l.heads ≡ true
    → classify (head_of l k) p ≡ advanced
    → Processes l k p
unfolding observe
known-Processes l k p known new = (
  record { shard_key = k; outcome = advanced; position = p; head = p },
  record l { heads = insert k (some p) l.heads },
  ground arith,
  refl,
)

Processes-known :
    (l : WatermarkLedger) (k : String) (p : StreamPosition)
    → Processes l k p
    → (has k l.heads ≡ true) × (classify (head_of l k) p ≡ advanced)
unfolding observe
Processes-known l k p (d, l', e, s) = ground arith

-- What an older head would let through, a newer bound lets through too.
classify_older :
    (h b : Option StreamPosition) (p : StreamPosition)
    → AtLeast h b
    → classify h p ≡ advanced
    → classify b p ≡ advanced
classify_older h none p a c = refl
classify_older none (some b) p a c = absurd a
classify_older (some h) (some b) p a c = ground arith

stream_watermark_fields :
    (f : String) (p : StreamPosition) (t : DateTime) (w : StreamWatermark)
    → stream_watermark f p t none ≡ ok w
    → (w.feed_id ≡ f) × (w.position ≡ p)
unfolding stream_watermark
stream_watermark_fields f p t w h = ground arith

module _ {R : Type 0} (repo : WatermarkRepository R) where
  open repo use {load, advance, advance_returns, load-advance}

  -- One process: its ledger, and the store that survives it.
  pub record System : Type 0 where
    pub ledger : WatermarkLedger
    pub store : R

  -- What the process does: a message, a checkpoint, or a crash and a resume from the stored row.
  pub data Step : System → System → Type 0 where
    observed :
        (s : System) (k : String) (p : StreamPosition) {d : WatermarkDecision}
        {l' : WatermarkLedger}
        → observe s.ledger k p ≡ ok (d, l')
        → Step s (record s { ledger = l' })
    checkpointed :
        (s : System) (t : DateTime) {w : Option StreamWatermark} {r' : R}
        → checkpoint repo s.ledger s.store t ≡ ok (w, r')
        → Step s (record s { store = r' })
    restarted :
        (s : System) {l' : WatermarkLedger}
        → resume repo s.store s.ledger.feed_id s.ledger.shard_keys ≡ ok l'
        → Step s (record s { ledger = l' })

  pub data Reach (s : System) : System → Type 0 where
    here : Reach s s
    next : {t u : System} → Reach s t → Step t u → Reach s u

  abbrev stored : System → Option StreamPosition
  stored s = stored_position repo s.store s.ledger.feed_id

  -- The stored row is not ahead of any declared shard.
  record IsCaughtUp (s : System) : Type 0 where
    declared : IsDeclared s.ledger
    behind :
        (k : String)
        → contains s.ledger.shard_keys k ≡ true
        → AtLeast (head_of s.ledger k) (stored s)

  resume-IsCaughtUp :
      (r : R) (f : String) (ks : List String) (l : WatermarkLedger)
      → resume repo r f ks ≡ ok l
      → IsCaughtUp (record { ledger = l; store = r })
  unfolding resume
  resume-IsCaughtUp r f ks l h = record {
    declared = watermark_ledger-IsDeclared f ks (stored_position repo r f) l h;
    behind = λ k c. rw (ledger_fields f ks (stored_position repo r f) l h) (
        rw
          (head-from_keys ks (stored_position repo r f) k
            (rw (ledger_fields f ks (stored_position repo r f) l h) at c))
          (AtLeast-refl (stored_position repo r f)));
  }

  -- After an `advance` the feed's stored position is the old one or the written one.
  stored-advance :
      (r : R) (w : StreamWatermark)
      → (stored_position repo (advance r w).1 w.feed_id ≡ stored_position repo r w.feed_id)
        ⊎ (stored_position repo (advance r w).1 w.feed_id ≡ some w.position)
  stored-advance r w = ground (arith, load-advance r w, advance_returns r w)

  stored-checkpoint :
      (l : WatermarkLedger) (r : R) (t : DateTime) {w : Option StreamWatermark} {r' : R}
      → checkpoint repo l r t ≡ ok (w, r')
      → (stored_position repo r' l.feed_id ≡ stored_position repo r l.feed_id)
        ⊎ (stored_position repo r' l.feed_id ≡ completion_floor l)
  unfolding checkpoint
  stored-checkpoint l r t h = elim (Option-cases (completion_floor l)) [
    | inl nothing ↦ ground arith
    | inr (floor, e) ↦ elim (Result-cases (stream_watermark l.feed_id floor t none)) [
      | inl (w, made) ↦
          ground (arith, stored-advance r w, stream_watermark_fields l.feed_id floor t w made)
      | inr (x, refused) ↦ ground arith
    ]
  ]

  Step-IsCaughtUp : {s t : System} → Step s t → IsCaughtUp s → IsCaughtUp t
  Step-IsCaughtUp (observed s k p {l' = l'} h) c = record {
    declared = observe-IsDeclared s.ledger k p c.declared h;
    behind = λ j in_l. rw (observe-feed_id s.ledger k p h) (
        AtLeast-trans (head_of l' j) (head_of s.ledger j) (stored s)
          (observe-never_rewinds s.ledger k p h j)
          (c.behind j (rw (observe-shard_keys s.ledger k p h) at in_l)));
  }
  Step-IsCaughtUp (checkpointed s t h) c = record {
    declared = c.declared;
    behind = λ j in_l. elim (stored-checkpoint s.ledger s.store t h) [
      | inl kept ↦ rw kept (c.behind j in_l)
      | inr written ↦ rw written (completion_floor-bounds s.ledger j c.declared in_l)
    ];
  }
  Step-IsCaughtUp (restarted s {l' = l'} h) c =
      resume-IsCaughtUp s.store s.ledger.feed_id s.ledger.shard_keys l' h

  Reach-IsCaughtUp : {s t : System} → Reach s t → IsCaughtUp s → IsCaughtUp t
  Reach-IsCaughtUp here c = c
  Reach-IsCaughtUp (next r st) c = Step-IsCaughtUp st (Reach-IsCaughtUp r c)

  -- A process that started by a resume is at `t` after any messages, checkpoints and crashes. If it
  -- crashes there and resumes, then every message that the ledger at `t` would have processed is
  -- processed by the resumed ledger: a restart skips nothing.
  pub restart-skips_nothing :
      (r : R) (f : String) (ks : List String) (l : WatermarkLedger) (t : System)
      (l' : WatermarkLedger) (k : String) (p : StreamPosition)
      → resume repo r f ks ≡ ok l
      → Reach (record { ledger = l; store = r }) t
      → resume repo t.store t.ledger.feed_id t.ledger.shard_keys ≡ ok l'
      → Processes t.ledger k p
      → Processes l' k p
  unfolding resume
  restart-skips_nothing r f ks l t l' k p start reach again fresh =
      let caught_up = Reach-IsCaughtUp reach (resume-IsCaughtUp r f ks l start) in
      let (known, new) = Processes-known t.ledger k p fresh in
      let declared : contains t.ledger.shard_keys k ≡ true = rw (caught_up.declared.keys k) known in
      let fields = ledger_fields t.ledger.feed_id t.ledger.shard_keys (stored t) l' again in
      known-Processes l' k p (rw (fields, has-from_keys t.ledger.shard_keys (stored t) k) declared)
        (rw
          (head-watermark_ledger t.ledger.feed_id t.ledger.shard_keys (stored t) l' k again
            declared)
          (classify_older (head_of t.ledger k) (stored t) p (caught_up.behind k declared) new))
