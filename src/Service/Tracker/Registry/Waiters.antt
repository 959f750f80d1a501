-- ===== src/Service/Tracker/Registry/Waiters.antt =====
-- How the registry of held metatx changes.
use gas_management.Base.{
  ℕ, ◌≡◌, ◌≢◌, some, List, [], ◌∷◌, ◌++◌, Key, arith, ◌∙◌, ap, Key-discrete, Map,
  lookup-insert_self, lookup-insert_ne, lookup-delete_self, lookup-delete_ne,
}
use gas_management.Base.Ids.{Distinct, remove_absent, contains-remove_self}
use gas_management.Service.Tracker.{Tracker}
use gas_management.Service.Tracker.Registry.{
  or_empty, waiters, drop_empty, remove, hold, unhold_locked,
}

drop_empty_self :
    (key : Key) (held : Map (List ℕ)) → waiters (drop_empty key held) key ≡ waiters held key
unfolding drop_empty
drop_empty_self key held = ground (arith, lookup-delete_self key held)

drop_empty_ne :
    (key j : Key) (held : Map (List ℕ)) → j ≢ key → waiters (drop_empty key held) j ≡ waiters held j
unfolding drop_empty
drop_empty_ne key j held h = ground (arith, lookup-delete_ne key j held h)

pub waiters-unhold_self :
    (t : Tracker) (key : Key) (id : ℕ)
    → waiters (unhold_locked t key id).held key ≡ remove id (waiters t.held key)
unfolding unhold_locked
waiters-unhold_self t key id =
    drop_empty_self key _
    ∙ ground (
      arith,
      lookup-insert_self key (remove id (waiters t.held key)) t.held,
      remove_absent id (waiters t.held key),
    )

pub waiters-unhold_ne :
    (t : Tracker) (key j : Key) (id : ℕ)
    → j ≢ key
    → waiters (unhold_locked t key id).held j ≡ waiters t.held j
unfolding unhold_locked
waiters-unhold_ne t key j id h =
    drop_empty_ne key j _ h
    ∙ ground (arith, lookup-insert_ne key j (remove id (waiters t.held key)) t.held h)

drop_empty-ne-nil : (key : Key) (held : Map (List ℕ)) → drop_empty key held key ≢ some []
unfolding drop_empty
drop_empty-ne-nil key held = ground (arith, lookup-delete_self key held)

-- No empty list stays in the map.
pub unhold-ne-nil : (t : Tracker) (key : Key) (id : ℕ) → (unhold_locked t key id).held key ≢ some []
unfolding unhold_locked
unhold-ne-nil t key id = drop_empty-ne-nil key _

pub waiters-hold_self :
    (t : Tracker) (key : Key) (nonce : ℕ)
    → waiters (hold t key nonce).1.held key ≡ waiters t.held key ++ t.next_entry ∷ []
unfolding hold
waiters-hold_self t key nonce = rw (lookup-insert_self {V = List ℕ})

pub waiters-hold_ne :
    (t : Tracker) (key j : Key) (nonce : ℕ)
    → j ≢ key
    → waiters (hold t key nonce).1.held j ≡ waiters t.held j
unfolding hold
waiters-hold_ne t key j nonce h = ap or_empty (lookup-insert_ne key j _ t.held h)

-- To take a metatx out of the registry a second time changes nothing: its place is not counted
-- off twice.
pub unhold-unhold :
    (t : Tracker) (key j : Key) (id : ℕ)
    → Distinct (waiters t.held key)
    → waiters (unhold_locked (unhold_locked t key id) key id).held j
      ≡ waiters (unhold_locked t key id).held j
unhold-unhold t key j id d = elim (Key-discrete j key) [
  | yes e ↦
      rw (e, waiters-unhold_self (unhold_locked t key id) key id)
        (remove_absent id _
          (rw (waiters-unhold_self t key id) (contains-remove_self id (waiters t.held key) d)))
  | no h ↦ waiters-unhold_ne (unhold_locked t key id) key j id h
]
