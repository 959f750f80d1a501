-- ===== src/Service/Tracker/Registry/Evict.antt =====
-- What the eviction of a held metatx changes.
use gas_management.Base.{ℕ, ◌≡◌, ◌≢◌, refl, true, Option, none, some, Key, arith, ◌∙◌}
use gas_management.Service.Tracker.{Tracker}
use gas_management.Service.Tracker.Registry.{
  set_entry, waiters, remove, unhold_locked, wake_through, wake_locked, evict_held_locked,
}
use gas_management.Service.Tracker.Registry.Waiters.{waiters-unhold_self, waiters-unhold_ne}
use gas_management.Service.Tracker.Registry.Wake.{wake_locked-Woken}

-- `u` is `t` after `id` of `key` was evicted with the count `inflight`: it is out of the registry,
-- marked, and awake; every other entry, list and chain is as it was.
pub record Evicted (t u : Tracker) (key : Key) (id inflight : ℕ) : Type 0 where
  pub config : u.config ≡ t.config
  pub senders : u.senders ≡ t.senders
  pub removed : waiters u.held key ≡ remove id (waiters t.held key)
  pub others : (j : Key) → j ≢ key → waiters u.held j ≡ waiters t.held j
  pub marked : (u.entries id).evicted ≡ true
  pub counted : (u.entries id).evicted_inflight ≡ inflight
  pub nonce : (j : ℕ) → (u.entries j).nonce ≡ (t.entries j).nonce
  pub unmarked : (j : ℕ) → j ≢ id → (u.entries j).evicted ≡ (t.entries j).evicted
  pub awake : (u.entries id).wake ≡ none
  pub closed : (c : ℕ) → (t.entries id).wake ≡ some c → u.closed c ≡ true
  pub next_entry : u.next_entry ≡ t.next_entry

wake_through_awake :
    (o : Option ℕ) (t : Tracker) (id : ℕ)
    → (t.entries id).wake ≡ o
    → (wake_through o t id).entries id ≡ record (t.entries id) { wake = none }
unfolding wake_through
wake_through_awake none t id e = ground arith
wake_through_awake (some c) t id e = ground arith

wake_through_closed : (t : Tracker) (id c : ℕ) → (wake_through (some c) t id).closed c ≡ true
unfolding wake_through
wake_through_closed t id c = ground arith

pub wake_locked_awake : (t : Tracker) (id : ℕ) → ((wake_locked t id).entries id).wake ≡ none
unfolding wake_locked
wake_locked_awake t id = ground (arith, wake_through_awake (t.entries id).wake t id refl)

wake_locked_closed :
    (t : Tracker) (id c : ℕ) → (t.entries id).wake ≡ some c → (wake_locked t id).closed c ≡ true
unfolding wake_locked
wake_locked_closed t id c e = ground (arith, wake_through_closed t id c)

module _ (t : Tracker) (key : Key) (id inflight : ℕ) where
  -- The tracker with the mark, and with the place given back.
  abbrev marked_tracker : Tracker
  marked_tracker = record t {
    entries =
        set_entry id (record (t.entries id) { evicted = true; evicted_inflight = inflight })
          t.entries;
  }

  abbrev unheld_tracker : Tracker
  unheld_tracker = unhold_locked marked_tracker key id

  unheld_entries : unheld_tracker.entries ≡ marked_tracker.entries
  unfolding unhold_locked
  unheld_entries = refl

  unheld_closed : unheld_tracker.closed ≡ t.closed
  unfolding unhold_locked
  unheld_closed = refl

  unheld_same :
      (unheld_tracker.config ≡ t.config)
      × (unheld_tracker.senders ≡ t.senders)
      × (unheld_tracker.next_entry ≡ t.next_entry)
  unfolding unhold_locked
  unheld_same = (refl, refl, refl)

  pub evict_held_locked-Evicted : Evicted t (evict_held_locked t key id inflight) key id inflight
  unfolding evict_held_locked
  evict_held_locked-Evicted =
      let w = wake_locked-Woken unheld_tracker id in
      record {
        config = w.config ∙ unheld_same.0;
        senders = w.senders ∙ unheld_same.1;
        removed = rw w.held (waiters-unhold_self marked_tracker key id);
        others = λ j h. rw w.held (waiters-unhold_ne marked_tracker key j id h);
        marked = w.evicted id ∙ rw unheld_entries (ground arith);
        counted = w.inflight id ∙ rw unheld_entries (ground arith);
        nonce = λ j. w.nonce j ∙ rw unheld_entries (ground arith);
        unmarked = λ j h. w.evicted j ∙ rw unheld_entries (ground arith);
        awake = wake_locked_awake unheld_tracker id;
        closed = λ c e. wake_locked_closed unheld_tracker id c (rw unheld_entries (ground arith));
        next_entry = w.next_entry ∙ unheld_same.2;
      }
