-- ===== src/Service/Tracker/Chains/Reserve.antt =====
-- What a reservation does to the chain of its user.
use Prim.Native.Nat.{max}
use gas_management.Base.{
  ℕ, ◌+◌, ◌≡◌, ◌≢◌, inl, inr, Bool, Option, none, some, Key, arith, lookup-insert_self,
  lookup-insert_ne, lookup-delete_ne, ◌∙◌,
}
use gas_management.Base.Int.{u64}
use gas_management.Service.Tracker.{Tracker, Chain}
use gas_management.Service.Tracker.Chains.{chain_locked, reserve_locked, bump_pending, pending_in}
use gas_management.Service.Tracker.Chains.Reads.{chain_locked-ReadsAs}

-- The next nonce of the chain in force, 0 if there is none.
abbrev pub next_or_zero : Option Chain → ℕ
next_or_zero none = 0
next_or_zero (some chain) = chain.next

-- The identity of the chain in force, or the fresh one.
abbrev pub id_or : Option Chain → ℕ → ℕ
id_or none fresh = fresh
id_or (some chain) fresh = chain.id

module _ (t : Tracker) (key : Key) (nonce : ℕ) (in_flight : Bool) (now : ℕ) where
  abbrev before : Option Chain
  before = (chain_locked t key now).0

  abbrev after : Tracker
  after = (reserve_locked t key nonce in_flight now).1

  abbrev chain : Chain
  chain = (reserve_locked t key nonce in_flight now).0

  chain_fields :
      (chain.next ≡ max (u64 (nonce + 1)) (next_or_zero before))
      × (chain.pending ≡ bump_pending in_flight (pending_in before))
      × (chain.id ≡ id_or before (chain_locked t key now).1.next_chain)
      × (chain.expiry ≡ none)
      × (chain.updated_at ≡ now)
  unfolding reserve_locked
  chain_fields = elim (chain_locked-ReadsAs t key now) [
    | inl e ↦ ground arith
    | inr (inl e) ↦ ground arith
    | inr (inr e) ↦ ground arith
  ]

  stored : after.senders key ≡ some chain
  unfolding reserve_locked
  stored = lookup-insert_self key _ _

  -- A reservation leaves the chain at the larger of the reserved nonce plus one and the next nonce
  -- of the chain in force, keeps that chain's identity, counts one more metatx in flight only where
  -- it is asked to, and cancels the deferred deletion.
  pub reserve_locked-max :
      (after.senders key ≡ some chain)
      × (chain.next ≡ max (u64 (nonce + 1)) (next_or_zero before))
      × (chain.pending ≡ bump_pending in_flight (pending_in before))
      × (chain.id ≡ id_or before (chain_locked t key now).1.next_chain)
      × (chain.expiry ≡ none)
      × (chain.updated_at ≡ now)
  reserve_locked-max = let (a, b, c, d, e) = chain_fields in (stored, a, b, c, d, e)

  pub reserve_others : (j : Key) → j ≢ key → after.senders j ≡ t.senders j
  unfolding reserve_locked
  reserve_others j h = lookup-insert_ne key j _ _ h ∙ elim (chain_locked-ReadsAs t key now) [
    | inl e ↦ ground arith
    | inr (inl e) ↦ ground arith
    | inr (inr e) ↦ ground (arith, lookup-delete_ne key j t.senders h)
  ]

  pub reserve_same : (after.held ≡ t.held) × (after.entries ≡ t.entries) × (after.config ≡ t.config)
  unfolding reserve_locked
  reserve_same = elim (chain_locked-ReadsAs t key now) [
    | inl e ↦ ground arith
    | inr (inl e) ↦ ground arith
    | inr (inr e) ↦ ground arith
  ]
