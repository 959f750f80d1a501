-- ===== src/Service/Tracker/Chains/Steady.antt =====
-- A property of the tracker that neither a write to the chains nor a wake-up ends is kept by every
-- operation on the chains.
use gas_management.Base.{
  ℕ, ◌-◌, sym, subst, inl, inr, Bool, ◌&&◌, Option, none, some, Key, Map, insert, delete, ltb, ◌==◌,
  Bool-cases,
}
use gas_management.Service.Tracker.{Tracker, Chain}
use gas_management.Service.Tracker.Registry.{notify_turn_locked}
use gas_management.Service.Tracker.Chains.{
  drop_locked, chain_locked, reserve_locked, schedule_expiry, release_current, release_if,
  release_chain, expire_if, expire_chain, forget_chain, grace_window,
}
use gas_management.Service.Tracker.Chains.Reads.{chain_locked-ReadsAs}

module _ (P : Tracker → Type 0)
    (write : (t : Tracker) (s : Map Chain) (n : ℕ)
      → P t
      → P (record t { senders = s; next_chain = n }))
    (wake : (t : Tracker) (key : Key) → P t → P (notify_turn_locked t key)) where
  pub drop-kept : (t : Tracker) (key : Key) → P t → P (drop_locked t key)
  unfolding drop_locked
  drop-kept t key p = write t (delete key t.senders) t.next_chain p

  pub chain_locked-kept : (t : Tracker) (key : Key) (now : ℕ) → P t → P (chain_locked t key now).1
  chain_locked-kept t key now p = elim (chain_locked-ReadsAs t key now) [
    | inl (_, e) ↦ subst (λ r. P r.1) (sym e) p
    | inr (inl (c, _, _, e)) ↦ subst (λ r. P r.1) (sym e) p
    | inr (inr (c, _, _, e)) ↦
        subst (λ r. P r.1) (sym e) (write t (delete key t.senders) t.next_chain p)
  ]

  pub reserve-kept :
      (t : Tracker) (key : Key) (nonce now : ℕ) (in_flight : Bool)
      → P t
      → P (reserve_locked t key nonce in_flight now).1
  unfolding reserve_locked
  reserve-kept t key nonce now in_flight p =
      write (chain_locked t key now).1 _ _ (chain_locked-kept t key now p)

  pub forget-kept : (t : Tracker) (key : Key) → P t → P (forget_chain t key)
  unfolding forget_chain
  forget-kept t key p = wake (drop_locked t key) key (drop-kept t key p)

  schedule-kept :
      (o : Option ℕ) (t : Tracker) (key : Key) (c : Chain) (now : ℕ)
      → P t
      → P (schedule_expiry o t key c now)
  unfolding schedule_expiry
  schedule-kept (some x) t key c now p = p
  schedule-kept none t key c now p = elim (Bool-cases (ltb 0 (grace_window t.config))) [
    | inl e ↦ rw e (write t (insert key _ t.senders) t.next_chain p)
    | inr e ↦ rw e (drop-kept t key p)
  ]

  release_current-kept :
      (t : Tracker) (key : Key) (c : Chain) (now : ℕ) → P t → P (release_current t key c now)
  unfolding release_current
  release_current-kept t key c now p =
      let c' : Chain = record c { pending = c.pending - 1 } in
      let t' : Tracker = record t { senders = insert key c' t.senders } in
      let p' = wake t' key (write t (insert key c' t.senders) t.next_chain p) in
      elim (Bool-cases (ltb 0 (c.pending - 1))) [
        | inl e ↦ rw e p'
        | inr e ↦ rw e (schedule-kept c.expiry (notify_turn_locked t' key) key c' now p')
      ]

  release_if-kept :
      (o : Option Chain) (t : Tracker) (key : Key) (id now : ℕ)
      → P t
      → P (release_if o t key id now)
  unfolding release_if
  release_if-kept none t key id now p = p
  release_if-kept (some c) t key id now p = elim (Bool-cases (c.id == id)) [
    | inl e ↦ rw e (release_current-kept t key c now p)
    | inr e ↦ rw e p
  ]

  pub release-kept :
      (t : Tracker) (key : Key) (id : Option ℕ) (now : ℕ) → P t → P (release_chain t key id now)
  unfolding release_chain
  release-kept t key none now p = p
  release-kept t key (some id) now p = release_if-kept (t.senders key) t key id now p

  expire_if-kept :
      (o : Option Chain) (t : Tracker) (key : Key) (id : ℕ) → P t → P (expire_if o t key id)
  unfolding expire_if
  expire_if-kept none t key id p = p
  expire_if-kept (some c) t key id p = elim (Bool-cases ((c.id == id) && (c.pending == 0))) [
    | inl e ↦ rw e (drop-kept t key p)
    | inr e ↦ rw e p
  ]

  pub expire-kept : (t : Tracker) (key : Key) (id : ℕ) → P t → P (expire_chain t key id)
  unfolding expire_chain
  expire-kept t key id p = expire_if-kept (t.senders key) t key id p
