-- ===== src/Service/Tracker/Chains/Identity.antt =====
-- The identities of the chains that are stored, and their timers.
use gas_management.Base.{
  ℕ, ◌+◌, ◌≤◌, ◌<◌, ◌≡◌, ◌≢◌, refl, sym, ap, subst, ◌∙◌, ◌⊎◌, inl, inr, Bool, Option, none, some,
  Key, Key-discrete, Map, insert, delete, lookup-insert_self, lookup-insert_ne, lookup-delete_self,
  lookup-delete_ne, arith,
}
use gas_management.Base.Int.{u64}
use gas_management.Config.{Config}
use gas_management.Service.Tracker.{Tracker, Chain, empty_tracker}
use gas_management.Service.Tracker.Registry.{notify_turn_locked}
use gas_management.Service.Tracker.Registry.Wake.{notify_turn-Woken}
use gas_management.Service.Tracker.Chains.{
  drop_locked, chain_locked, reserved, entry_for, fresh_after, reserve_locked, forget_chain,
}
use gas_management.Service.Tracker.Chains.Reads.{chain_locked-ReadsAs}

pub record IsChained (t : Tracker) : Type 0 where
  pub made : (key : Key) (c : Chain) → t.senders key ≡ some c → c.id < t.next_chain
  pub own :
      (k j : Key) (c d : Chain) → t.senders k ≡ some c → t.senders j ≡ some d → c.id ≡ d.id → k ≡ j
  pub timed : (key : Key) (c : Chain) → t.senders key ≡ some c → (c.expiry ≡ none) ⊎ (c.pending ≡ 0)

pub empty-IsChained : (config : Option Config) → IsChained (empty_tracker config)
empty-IsChained config = record {
  made = λ key c h. absurd (cc);
  own = λ k j c d h i e. absurd (cc);
  timed = λ key c h. absurd (cc);
}

pub IsChained-same :
    (t u : Tracker)
    → u.senders ≡ t.senders
    → u.next_chain ≡ t.next_chain
    → IsChained t
    → IsChained u
IsChained-same t u e n w = record {
  made = λ key c h. ground (arith, w.made key c (ap (λ s. s key) (sym e) ∙ h));
  own = λ k j c d h i. w.own k j c d (ap (λ s. s k) (sym e) ∙ h) (ap (λ s. s j) (sym e) ∙ i);
  timed = λ key c h. w.timed key c (ap (λ s. s key) (sym e) ∙ h);
}

-- An entry of the map with one key deleted is one of the map.
of_delete : (s : Map Chain) (key j : Key) (c : Chain) → delete key s j ≡ some c → s j ≡ some c
of_delete s key j c h = elim (Key-discrete j key) [
  | yes e ↦ absurd (ground (arith, lookup-delete_self key s, ap (λ k. delete key s k) e))
  | no n ↦ sym (lookup-delete_ne key j s n) ∙ h
]

pub drop-IsChained : (t : Tracker) (key : Key) → IsChained t → IsChained (drop_locked t key)
unfolding drop_locked
drop-IsChained t key w = record {
  made = λ j c h. w.made j c (of_delete t.senders key j c h);
  own =
      λ k j c d h i. w.own k j c d (of_delete t.senders key k c h) (of_delete t.senders key j d i);
  timed = λ j c h. w.timed j c (of_delete t.senders key j c h);
}

-- An entry of the map with one key written is the one written, or one of another key.
of_insert :
    (s : Map Chain) (key j : Key) (v c : Chain)
    → insert key v s j ≡ some c
    → ((j ≡ key) × (c ≡ v)) ⊎ ((j ≢ key) × (s j ≡ some c))
of_insert s key j v c h = elim (Key-discrete j key) [
  | yes e ↦
      let same : (some c ≡ some v) =
        sym h ∙ ap (λ k. insert key v s k) e ∙ lookup-insert_self key v s in
      inl (e, cc)
  | no n ↦ inr (n, sym (lookup-insert_ne key j v s n) ∙ h)
]

module _ (t : Tracker) (key : Key) (v : Chain) (n : ℕ) where
  abbrev written : Tracker
  written = record t { senders = insert key v t.senders; next_chain = n }

  -- The identity that is written is new, or the one that the key had.
  pub insert-IsChained :
      t.next_chain ≤ n
      → v.id < n
      → ((j : Key) (c : Chain) → j ≢ key → t.senders j ≡ some c → c.id ≢ v.id)
      → (v.expiry ≡ none) ⊎ (v.pending ≡ 0)
      → IsChained t
      → IsChained written
  insert-IsChained le lt apart timed w = record {
    made = λ j c h. elim (of_insert t.senders key j v c h) [
      | inl (_, e) ↦ subst (λ x. x.id < n) (sym e) lt
      | inr (_, i) ↦ let l = w.made j c i in omega arith
    ];
    own = λ k j c d h i e.
        insert_own (of_insert t.senders key k v c h) (of_insert t.senders key j v d i) e;
    timed = λ j c h. elim (of_insert t.senders key j v c h) [
      | inl (_, e) ↦ subst (λ x. (x.expiry ≡ none) ⊎ (x.pending ≡ 0)) (sym e) timed
      | inr (_, i) ↦ w.timed j c i
    ];
  }
    where
      insert_own :
          {k j : Key} {c d : Chain}
          → ((k ≡ key) × (c ≡ v)) ⊎ ((k ≢ key) × (t.senders k ≡ some c))
          → ((j ≡ key) × (d ≡ v)) ⊎ ((j ≢ key) × (t.senders j ≡ some d))
          → c.id ≡ d.id
          → k ≡ j
      insert_own (inl (p, _)) (inl (q, _)) e = p ∙ sym q
      insert_own (inl (_, p)) (inr (a, q)) e = absurd (apart _ _ a q (sym e ∙ ap (λ x. x.id) p))
      insert_own (inr (a, p)) (inl (_, q)) e = absurd (apart _ _ a p (e ∙ ap (λ x. x.id) q))
      insert_own (inr (_, p)) (inr (_, q)) e = w.own _ _ _ _ p q e

pub chain_locked-IsChained :
    (t : Tracker) (key : Key) (now : ℕ) → IsChained t → IsChained (chain_locked t key now).1
unfolding drop_locked
chain_locked-IsChained t key now w = elim (chain_locked-ReadsAs t key now) [
  | inl (_, e) ↦ subst (λ r. IsChained r.1) (sym e) w
  | inr (inl (c, _, _, e)) ↦ subst (λ r. IsChained r.1) (sym e) w
  | inr (inr (c, _, _, e)) ↦ subst (λ r. IsChained r.1) (sym e) (drop-IsChained t key w)
]

abbrev Stored : Tracker → Key → Option Chain → Type 0
Stored t key found = (c : Chain) → found ≡ some c → t.senders key ≡ some c

chain_locked-Stored :
    (t : Tracker) (key : Key) (now : ℕ)
    → Stored (chain_locked t key now).1 key (chain_locked t key now).0
chain_locked-Stored t key now = elim (chain_locked-ReadsAs t key now) [
  | inl (_, e) ↦ subst (λ r. Stored r.1 key r.0) (sym e) (λ c h. absurd (cc))
  | inr (inl (c, f, _, e)) ↦ subst (λ r. Stored r.1 key r.0) (sym e) (λ d h. f ∙ h)
  | inr (inr (c, _, _, e)) ↦ subst (λ r. Stored r.1 key r.0) (sym e) (λ d h. absurd (cc))
]

-- The reservation on what a read has found.
reserve_on-IsChained :
    (found : Option Chain) (t : Tracker) (key : Key) (next now : ℕ) (in_flight : Bool)
    → Stored t key found
    → IsChained t
    → IsChained (record t {
      senders =
          insert key (reserved (entry_for found t.next_chain next) next in_flight now) t.senders;
      next_chain = fresh_after found t.next_chain;
    })
reserve_on-IsChained none t key next now in_flight h w =
    insert-IsChained t key (reserved (entry_for none t.next_chain next) next in_flight now)
      (t.next_chain + 1) (omega arith) (omega arith)
      (λ j c _ i e. let l = w.made j c i in omega arith) (inl refl) w
reserve_on-IsChained (some chain) t key next now in_flight h w =
    insert-IsChained t key (reserved chain next in_flight now) t.next_chain (omega arith)
      (w.made key chain (h chain refl)) (λ j c a i e. a (w.own j key c chain i (h chain refl) e))
      (inl refl) w

pub reserve-IsChained :
    (t : Tracker) (key : Key) (nonce now : ℕ) (in_flight : Bool)
    → IsChained t
    → IsChained (reserve_locked t key nonce in_flight now).1
unfolding reserve_locked
reserve-IsChained t key nonce now in_flight w =
    reserve_on-IsChained (chain_locked t key now).0 (chain_locked t key now).1 key (u64 (nonce + 1))
      now in_flight (chain_locked-Stored t key now) (chain_locked-IsChained t key now w)

pub notify-IsChained :
    (t : Tracker) (key : Key) → IsChained t → IsChained (notify_turn_locked t key)
notify-IsChained t key w =
    let n = notify_turn-Woken t key in IsChained-same t _ n.senders n.next_chain w

pub forget-IsChained : (t : Tracker) (key : Key) → IsChained t → IsChained (forget_chain t key)
unfolding forget_chain
forget-IsChained t key w = notify-IsChained (drop_locked t key) key (drop-IsChained t key w)
