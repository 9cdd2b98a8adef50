-- ===== src/Features/Sealing.antt =====
-- What a batch has when it is sealed (market_pipeline_lib/features/snapshots.py).
use idea2strategy_data_pipel.Prelude.{
  suc, ◌*◌, String, true, false, ◌≡◌, refl, ◌∙◌, ap, Option, none, some, List, [], ◌∷◌, arith, inl,
  inr, Option-cases, is_empty, length, length-append, All, is_some, subst,
}
use idea2strategy_data_pipel.Prelude.Eq.{string_eq, pair_eq}
use idea2strategy_data_pipel.Prelude.Dict.{Dict, lookup}
use idea2strategy_data_pipel.Prelude.Sort.{sorted, length-sorted}
use idea2strategy_data_pipel.Features.Hashing.{Encoders}
use idea2strategy_data_pipel.Features.Plan.{
  MarketInput, Member, SnapshotBatchPlan, beside, product, expected_members, expected_member_count,
  materialization_id, unique_definition_hashes, by_instrument,
}
use idea2strategy_data_pipel.Features.Builder.{
  Materialization, Usable, Gathered, usable_hash, gather_one, gather,
}

length-beside :
    (hash : String) (inputs : List MarketInput) → length (beside hash inputs) ≡ length inputs
length-beside hash [] = refl
length-beside hash (i ∷ inputs) = ap suc (length-beside hash inputs)

length-product :
    (hashes : List String) (inputs : List MarketInput)
    → length (product hashes inputs) ≡ length hashes * length inputs
length-product [] inputs = omega arith
length-product (hash ∷ hashes) inputs = omega (
  arith,
  length-append (beside hash inputs) (product hashes inputs),
  length-beside hash inputs,
  length-product hashes inputs,
)

-- The plan has as many members as `expected_member_count` says.
pub length-expected_members :
    (plan : SnapshotBatchPlan) → length (expected_members plan) ≡ expected_member_count plan
unfolding expected_members expected_member_count
length-expected_members plan =
    length-product (unique_definition_hashes plan) (sorted by_instrument plan.market_inputs)
    ∙ ap (λ n. length (unique_definition_hashes plan) * n)
        (length-sorted by_instrument plan.market_inputs)

-- The member has a materialization, SUCCEEDED and with the hash of its result.
pub record IsUsable {F D : Type 0} (encoders : Encoders F D) (plan : SnapshotBatchPlan)
    (stored : Dict String Materialization) (m : Member) : Type 0 where
  pub row : Materialization
  pub is_stored : lookup (materialization_id encoders plan m) stored ≡ some row
  pub has_succeeded : row.status ≡ "SUCCEEDED"
  pub has_hash : is_some row.result_hash ≡ true

abbrev pub members_of : List Usable → List Member
members_of [] = []
members_of ((m, _) ∷ members) = m ∷ members_of members

pub length-members_of : (members : List Usable) → length (members_of members) ≡ length members
length-members_of [] = refl
length-members_of (u ∷ members) = ap suc (length-members_of members)

usable_hash-some :
    (row : Materialization) (hash : String)
    → usable_hash row ≡ some hash
    → (row.status ≡ "SUCCEEDED") × (is_some row.result_hash ≡ true)
unfolding usable_hash
usable_hash-some row hash h = ground (arith, string_eq.beq_iff row.status "SUCCEEDED")

gather_one-absent :
    (m : Member) (rest : Gathered) → is_empty (gather_one m none rest).missing ≡ false
unfolding gather_one
gather_one-absent m rest = refl

gather_one-unusable :
    (m : Member) (row : Materialization) (rest : Gathered)
    → usable_hash row ≡ none
    → is_empty (gather_one m (some row) rest).missing ≡ false
unfolding gather_one
gather_one-unusable m row rest h = rw (gather_one, h) refl

gather_one-usable :
    (m : Member) (row : Materialization) (rest : Gathered) (hash : String)
    → usable_hash row ≡ some hash
    → gather_one m (some row) rest ≡ record rest { members = (m, hash) ∷ rest.members }
unfolding gather_one
gather_one-usable m row rest hash h = rw (gather_one, h) refl

gather_one_complete :
    (m : Member) (o : Option Materialization) (rest : Gathered)
    → is_empty (gather_one m o rest).missing ≡ true
    → (row : Materialization) × (o ≡ some row)
      × (row.status ≡ "SUCCEEDED")
      × (is_some row.result_hash ≡ true)
      × (is_empty rest.missing ≡ true)
      × (members_of (gather_one m o rest).members ≡ m ∷ members_of rest.members)
gather_one_complete m none rest h = absurd ground (arith, gather_one-absent m rest)
gather_one_complete m (some row) rest h = elim (Option-cases (usable_hash row)) [
  | inl unusable ↦ absurd ground (arith, gather_one-unusable m row rest unusable)
  | inr (hash, usable) ↦
      let (succeeded, hashed) = usable_hash-some row hash usable in
      (
        row,
        refl,
        succeeded,
        hashed,
        subst (λ (g : Gathered). is_empty g.missing ≡ true)
            (gather_one-usable m row rest hash usable) h,
        ap (λ (g : Gathered). members_of g.members) (gather_one-usable m row rest hash usable),
      )
]

module _ {F D : Type 0} (encoders : Encoders F D) (plan : SnapshotBatchPlan) where
  pub gather_complete :
      (stored : Dict String Materialization) (planned : List Member)
      → is_empty (gather encoders plan stored planned).missing ≡ true
      → All (IsUsable encoders plan stored) planned
        × (members_of (gather encoders plan stored planned).members ≡ planned)
  unfolding gather
  gather_complete stored [] h = (tt, refl)
  gather_complete stored (m ∷ planned) h =
      let rest = gather encoders plan stored planned in
      let o = lookup (materialization_id encoders plan m) stored in
      let (row, is_stored, has_succeeded, has_hash, rest_complete, count) =
        gather_one_complete m o rest h in
      let (usable, counts) = gather_complete stored planned rest_complete in
      (
        (
          record {
            row = row;
            is_stored = is_stored;
            has_succeeded = has_succeeded;
            has_hash = has_hash;
          },
          usable,
        ),
        count ∙ ap (◌∷◌ m) counts,
      )
