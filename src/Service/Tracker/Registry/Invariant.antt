-- ===== src/Service/Tracker/Registry/Invariant.antt =====
-- How the registry names the held metatx.
use gas_management.Base.{
  ℕ, ◌≤◌, ◌<◌, ◌≡◌, refl, sym, subst, ◌⊎◌, inl, inr, true, false, ◌||◌, Option, List, [], ◌∷◌, ◌++◌,
  Key, Key-discrete, arith, ◌==◌, Bool-cases,
}
use gas_management.Config.{Config}
use gas_management.Service.Tracker.{Tracker, empty_tracker}
use gas_management.Service.Tracker.Registry.{
  waiters, contains, remove, hold, unhold_locked, wait_turn_locked, stop_waiting_locked,
  notify_turn_locked, evict_held_locked,
}
use gas_management.Base.Ids.{Distinct, remove-Distinct, contains-remove_self, contains-remove_ne}
use gas_management.Service.Tracker.Registry.Waiters.{
  waiters-unhold_self, waiters-unhold_ne, waiters-hold_self, waiters-hold_ne,
}
use gas_management.Service.Tracker.Registry.Wake.{Woken, notify_turn-Woken, wake_locked-Woken}

pub record IsRegistry (t : Tracker) : Type 0 where
  pub distinct : (key : Key) → Distinct (waiters t.held key)
  pub made : (key : Key) (id : ℕ) → contains id (waiters t.held key) ≡ true → id < t.next_entry
  pub own :
      (k j : Key) (id : ℕ)
      → contains id (waiters t.held k) ≡ true
      → contains id (waiters t.held j) ≡ true
      → k ≡ j

pub empty-IsRegistry : (config : Option Config) → IsRegistry (empty_tracker config)
unfolding contains
empty-IsRegistry config = record {
  distinct = λ key. tt;
  made = λ key id h. absurd (cc);
  own = λ k j id h i. absurd (cc);
}

-- An operation that leaves the lists alone keeps the registry.
pub IsRegistry-same :
    (t u : Tracker) → u.held ≡ t.held → t.next_entry ≤ u.next_entry → IsRegistry t → IsRegistry u
IsRegistry-same t u e le r = record {
  distinct = λ key. subst (λ held. Distinct (waiters held key)) (sym e) (r.distinct key);
  made = λ key id h.
      let lt = r.made key id (subst (λ held. contains id (waiters held key) ≡ true) e h) in
      omega arith;
  own = λ k j id h i.
      r.own k j id (subst (λ held. contains id (waiters held k) ≡ true) e h)
        (subst (λ held. contains id (waiters held j) ≡ true) e i);
}

pub contains-append_last :
    (id x : ℕ) (xs : List ℕ) → contains id (xs ++ x ∷ []) ≡ (contains id xs || (x == id))
unfolding contains
contains-append_last id x [] = ground arith
contains-append_last id x (y ∷ xs) = ground (arith, contains-append_last id x xs)

append_last-Distinct :
    (x : ℕ) (xs : List ℕ) → contains x xs ≡ false → Distinct xs → Distinct (xs ++ x ∷ [])
unfolding contains
append_last-Distinct x [] h d = (refl, tt)
append_last-Distinct x (y ∷ xs) h d =
    ground (arith, append_last-Distinct x xs, contains-append_last y x xs)

contains_fresh :
    (t : Tracker) (key : Key) → IsRegistry t → contains t.next_entry (waiters t.held key) ≡ false
contains_fresh t key r = elim (Bool-cases (contains t.next_entry (waiters t.held key))) [
  | inl e ↦ let lt = r.made key t.next_entry e in absurd (omega arith)
  | inr e ↦ e
]

-- Every entry listed after a removal was listed before it.
contains-unhold :
    (t : Tracker) (key j : Key) (id x : ℕ)
    → IsRegistry t
    → contains x (waiters (unhold_locked t key id).held j) ≡ true
    → contains x (waiters t.held j) ≡ true
contains-unhold t key j id x r h = elim (Key-discrete j key) [
  | no n ↦ rw (← waiters-unhold_ne t key j id n) h
  | yes e ↦
      let h' : contains x (remove id (waiters t.held key)) ≡ true =
        rw (← waiters-unhold_self t key id)
          (subst (λ k. contains x (waiters (unhold_locked t key id).held k) ≡ true) e h) in
      rw e (elim (Bool-cases (x == id)) [
        | inl same ↦
            absurd (ground (arith, contains-remove_self id (waiters t.held key) (r.distinct key)))
        | inr other ↦ ground (arith, contains-remove_ne id x (waiters t.held key))
      ])
]

pub unhold-IsRegistry :
    (t : Tracker) (key : Key) (id : ℕ) → IsRegistry t → IsRegistry (unhold_locked t key id)
unhold-IsRegistry t key id r = record {
  distinct = λ j. elim (Key-discrete j key) [
    | no n ↦ rw (waiters-unhold_ne t key j id n) (r.distinct j)
    | yes e ↦
        rw (e, waiters-unhold_self t key id)
          (remove-Distinct id (waiters t.held key) (r.distinct key))
  ];
  made = λ j x h. unhold_made j x (r.made j x (contains-unhold t key j id x r h));
  own = λ k j x h i.
      r.own k j x (contains-unhold t key k id x r h) (contains-unhold t key j id x r i);
}
  where
    unhold_made : (j : Key) (x : ℕ) → x < t.next_entry → x < (unhold_locked t key id).next_entry
    unhold_made j x lt = unfold unhold_locked in lt

-- The entry that leaves is not listed any more.
pub unhold_gone :
    (t : Tracker) (key : Key) (id : ℕ)
    → IsRegistry t
    → contains id (waiters (unhold_locked t key id).held key) ≡ false
unhold_gone t key id r =
    rw (waiters-unhold_self t key id)
      (contains-remove_self id (waiters t.held key) (r.distinct key))

-- An entry listed after an arrival was listed before it, or is the one that arrived.
contains-hold :
    (t : Tracker) (key j : Key) (nonce x : ℕ)
    → contains x (waiters (hold t key nonce).1.held j) ≡ true
    → (contains x (waiters t.held j) ≡ true) ⊎ ((x ≡ t.next_entry) × (j ≡ key))
contains-hold t key j nonce x h = elim (Key-discrete j key) [
  | no n ↦ inl (rw (← waiters-hold_ne t key j nonce n) h)
  | yes e ↦
      let h' : contains x (waiters t.held key ++ t.next_entry ∷ []) ≡ true =
        rw (← waiters-hold_self t key nonce)
          (subst (λ k. contains x (waiters (hold t key nonce).1.held k) ≡ true) e h) in
      rw e (ground (arith, e, contains-append_last x t.next_entry (waiters t.held key)))
]

pub hold-IsRegistry :
    (t : Tracker) (key : Key) (nonce : ℕ) → IsRegistry t → IsRegistry (hold t key nonce).1
hold-IsRegistry t key nonce r = record {
  distinct = λ j. elim (Key-discrete j key) [
    | no n ↦ rw (waiters-hold_ne t key j nonce n) (r.distinct j)
    | yes e ↦
        rw (e, waiters-hold_self t key nonce)
          (append_last-Distinct t.next_entry (waiters t.held key) (contains_fresh t key r)
            (r.distinct key))
  ];
  made = λ j x h. hold_made j x (contains-hold t key j nonce x h);
  own = λ k j x h i.
      hold_own k j x (contains-hold t key k nonce x h) (contains-hold t key j nonce x i);
}
  where
    hold_made :
        (j : Key) (x : ℕ)
        → (contains x (waiters t.held j) ≡ true) ⊎ ((x ≡ t.next_entry) × (j ≡ key))
        → x < (hold t key nonce).1.next_entry
    hold_made j x (inl h) = let lt = r.made j x h in unfold hold in omega arith
    hold_made j x (inr (e, _)) = unfold hold in omega arith

    hold_own :
        (k j : Key) (x : ℕ)
        → (contains x (waiters t.held k) ≡ true) ⊎ ((x ≡ t.next_entry) × (k ≡ key))
        → (contains x (waiters t.held j) ≡ true) ⊎ ((x ≡ t.next_entry) × (j ≡ key))
        → k ≡ j
    hold_own k j x (inl h) (inl i) = r.own k j x h i
    hold_own k j x (inl h) (inr (e, _)) = let lt = r.made k x h in absurd (omega arith)
    hold_own k j x (inr (e, _)) (inl i) = let lt = r.made j x i in absurd (omega arith)
    hold_own k j x (inr (_, e)) (inr (_, f)) = cc

pub Woken-IsRegistry : (t u : Tracker) → Woken t u → IsRegistry t → IsRegistry u
Woken-IsRegistry t u w r = IsRegistry-same t u w.held (omega (arith, w.next_entry)) r

pub evict-IsRegistry :
    (t : Tracker) (key : Key) (id n : ℕ) → IsRegistry t → IsRegistry (evict_held_locked t key id n)
unfolding evict_held_locked
evict-IsRegistry t key id n r =
    Woken-IsRegistry _ _ (wake_locked-Woken _ id)
      (unhold-IsRegistry _ key id (record { distinct = r.distinct; made = r.made; own = r.own }))

pub notify_turn-IsRegistry :
    (t : Tracker) (key : Key) → IsRegistry t → IsRegistry (notify_turn_locked t key)
notify_turn-IsRegistry t key r = Woken-IsRegistry t _ (notify_turn-Woken t key) r

pub wait_turn-IsRegistry :
    (t : Tracker) (id : ℕ) → IsRegistry t → IsRegistry (wait_turn_locked t id).1
unfolding wait_turn_locked
wait_turn-IsRegistry t id r = record { distinct = r.distinct; made = r.made; own = r.own }

pub stop_waiting-IsRegistry :
    (t : Tracker) (id : ℕ) → IsRegistry t → IsRegistry (stop_waiting_locked t id)
unfolding stop_waiting_locked
stop_waiting-IsRegistry t id r = record { distinct = r.distinct; made = r.made; own = r.own }
