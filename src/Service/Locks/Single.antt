-- ===== src/Service/Locks/Single.antt =====
-- lockUser as requests come and go.
use gas_management.Base.{
  ℕ, ◌-◌, ◌≤◌, ◌≡◌, ◌≢◌, sym, ap, ◌∙◌, inl, inr, none, some, List, ◌∷◌, ◌++◌, Key, delete,
  lookup-insert_self, lookup-insert_ne, lookup-delete_ne, All, All-map, arith, ◌==◌, ==_refl,
  Bool-cases, Option-cases,
}
use gas_management.Service.Locks.{Locks, set_users, use_lock, lock_user, unlock_user}
use gas_management.Service.Locks.Uses.{
  Use, Reachable, idle, enters, leaves, count, count_without, All_without, count_zero, All-both,
  insert_inv, delete_inv, HasLock, IsLocks, count_new,
}

enters_found :
    (s : Locks) (uses : List Use) (key : Key) (id : ℕ)
    → s.locks key ≡ some id
    → IsLocks s uses
    → IsLocks (use_lock (some id) s key).1 (record { key = key; lock = id } ∷ uses)
enters_found s uses key id e h = record {
  held = (e, h.held);
  counted = λ k i p. let c = h.counted k i p in let d = h.counted key id e in ground (arith, c, d);
  used = λ k i p. let c = h.used k i p in omega (arith, c);
  older = h.older;
  distinct = h.distinct;
}

enters_new :
    (s : Locks) (uses : List Use) (key : Key)
    → s.locks key ≡ none
    → IsLocks s uses
    → IsLocks (use_lock none s key).1 (record { key = key; lock = s.next_lock } ∷ uses)
enters_new s uses key e h =
    let new_count = count_new s uses h.older h.held in
    record {
      held = (
        lookup-insert_self key s.next_lock s.locks,
        All-map
            (λ u p.
              lookup-insert_ne key u.key s.next_lock s.locks (λ q.
                let lost : (none ≡ some u.lock) = sym e ∙ ap s.locks (sym q) ∙ p in absurd (cc))
              ∙ p)
            uses h.held,
      );
      counted = λ k i p. elim (insert_inv k key s.next_lock i s.locks p) [
        | inl (same, is_new) ↦ ground (arith, is_new, new_count)
        | inr (different, old) ↦
            let c = h.counted k i old in let d = h.older k i old in ground (arith, c, d)
      ];
      used = λ k i p. elim (insert_inv k key s.next_lock i s.locks p) [
        | inl (same, is_new) ↦ ground (arith, is_new)
        | inr (different, old) ↦ let c = h.used k i old in omega (arith, c)
      ];
      older = λ k i p. elim (insert_inv k key s.next_lock i s.locks p) [
        | inl (same, is_new) ↦ omega (arith, is_new)
        | inr (different, old) ↦ let d = h.older k i old in omega (arith, d)
      ];
      distinct = λ k o i p q. elim (insert_inv k key s.next_lock i s.locks p) [
        | inl (same, is_new) ↦ elim (insert_inv o key s.next_lock i s.locks q) [
          | inl (same', is_new') ↦ same ∙ sym same'
          | inr (different', old') ↦ let d = h.older o i old' in absurd (omega (arith, d, is_new))
        ]
        | inr (different, old) ↦ elim (insert_inv o key s.next_lock i s.locks q) [
          | inl (same', is_new') ↦ let d = h.older k i old in absurd (omega (arith, d, is_new'))
          | inr (different', old') ↦ h.distinct k o i old old'
        ]
      ];
    }

leaves_used :
    (s : Locks) (before after : List Use) (key : Key) (id : ℕ)
    → 1 ≤ count id (before ++ after)
    → IsLocks s (before ++ (record { key = key; lock = id } ∷ after))
    → IsLocks (record s { users = set_users s.users id (s.users id - 1) }) (before ++ after)
leaves_used s before after key id n h =
    let held = All_without (HasLock s) (record { key = key; lock = id }) before after h.held in
    let mine = h.counted key id held.0 in
    let mine_without = count_without id id key before after in
    record {
      held = held.1;
      counted = λ k i p.
          let c = h.counted k i p in
          let w = count_without i id key before after in ground (arith, c, w, mine, mine_without);
      used = λ k i p.
          let c = h.used k i p in
          let w = count_without i id key before after in ground (arith, c, w, n);
      older = h.older;
      distinct = h.distinct;
    }

leaves_last :
    (s : Locks) (before after : List Use) (key : Key) (id : ℕ)
    → count id (before ++ after) ≡ 0
    → IsLocks s (before ++ (record { key = key; lock = id } ∷ after))
    → IsLocks
        (record s { users = set_users s.users id (s.users id - 1); locks = delete key s.locks })
        (before ++ after)
leaves_last s before after key id n h =
    let held = All_without (HasLock s) (record { key = key; lock = id }) before after h.held in
    let others = count_zero id (before ++ after) n in
    let not_mine : (k : Key) (i : ℕ) → k ≢ key → s.locks k ≡ some i → i ≢ id =
      λ k i d p e. d (h.distinct k key i p (held.0 ∙ ap some (sym e))) in
    record {
      held =
          All-both (HasLock s) (λ u. u.lock ≢ id) (λ u. delete key s.locks u.key ≡ some u.lock)
            (λ u p d.
              lookup-delete_ne key u.key s.locks
                (λ q. let same : (some u.lock ≡ some id) = sym p ∙ ap s.locks q ∙ held.0 in d (cc))
              ∙ p)
            (before ++ after) held.1 others;
      counted = λ k i p.
          let old = delete_inv k key i s.locks p in
          let c = h.counted k i old.1 in
          let w = count_without i id key before after in
          let d = not_mine k i old.0 old.1 in ground (arith, c, w, d);
      used = λ k i p.
          let old = delete_inv k key i s.locks p in
          let c = h.used k i old.1 in
          let w = count_without i id key before after in
          let d = not_mine k i old.0 old.1 in ground (arith, c, w, d);
      older = λ k i p. h.older k i (delete_inv k key i s.locks p).1;
      distinct = λ k o i p q.
          h.distinct k o i (delete_inv k key i s.locks p).1 (delete_inv o key i s.locks q).1;
    }

Reachable-IsLocks : (s : Locks) (uses : List Use) → Reachable s uses → IsLocks s uses
unfolding lock_user unlock_user
Reachable-IsLocks _ _ idle = record {
  held = tt;
  counted = λ k i p. absurd (cc);
  used = λ k i p. absurd (cc);
  older = λ k i p. absurd (cc);
  distinct = λ k o i p q. absurd (cc);
}
Reachable-IsLocks _ _ (enters s uses key h) =
    let before = Reachable-IsLocks s uses h in
    elim (Option-cases (s.locks key)) [
      | inl e ↦ rw e (enters_new s uses key e before)
      | inr (id, e) ↦ rw e (enters_found s uses key id e before)
    ]
Reachable-IsLocks _ _ (leaves s before after key id h) =
    let all = before ++ (record { key = key; lock = id } ∷ after) in
    let sound = Reachable-IsLocks s all h in
    let held = All_without (HasLock s) (record { key = key; lock = id }) before after sound.held in
    let mine = sound.counted key id held.0 in
    let without = count_without id id key before after in
    elim (Bool-cases ((s.users id - 1) == 0)) [
      | inl z ↦
          rw (==_refl id, z)
            (leaves_last s before after key id (ground (arith, mine, without, z)) sound)
      | inr z ↦
          rw (==_refl id, z)
            (leaves_used s before after key id (ground (arith, mine, without, z)) sound)
    ]

-- After requests have come and gone in any order: every request that uses a lock has the one of the
-- map for its user, so two of one user never have different locks; a lock of the map is used by as
-- many as its count says, and by one at least, so no lock is left of a user whom nobody serves.
pub locks_single :
    (s : Locks) (uses : List Use)
    → Reachable s uses
    → All (HasLock s) uses
      × ((key : Key) (id : ℕ)
          → s.locks key ≡ some id
          → (s.users id ≡ count id uses) × (1 ≤ count id uses))
locks_single s uses h =
    let i = Reachable-IsLocks s uses h in
    (i.held, λ key id p. (i.counted key id p, i.used key id p))
