-- ===== src/Service/Tracker/Registry/Safety.antt =====
-- The discipline of the wake channels.
use gas_management.Base.{
  ℕ, ◌≤◌, ◌<◌, ◌≡◌, refl, false, Option, none, some, List, [], ◌∷◌, Key, arith,
}
use gas_management.Config.{Config}
use gas_management.Service.Tracker.{Tracker, empty_tracker}
use gas_management.Service.Tracker.Registry.{
  waiters, hold, unhold_locked, wait_turn_locked, stop_waiting_locked, wake_through, wake_locked,
  wake_all, notify_turn_locked, evict_held_locked,
}

-- A channel that an entry sleeps on is open, and sleeps no other entry; one that is not made is
-- open; nothing was closed twice.
pub record WakeSafe (t : Tracker) : Type 0 where
  pub open_wake : (i c : ℕ) → (t.entries i).wake ≡ some c → t.closed c ≡ false
  pub made : (i c : ℕ) → (t.entries i).wake ≡ some c → c < t.next_wake
  pub own : (i j c : ℕ) → (t.entries i).wake ≡ some c → (t.entries j).wake ≡ some c → i ≡ j
  pub unmade : (c : ℕ) → t.next_wake ≤ c → t.closed c ≡ false
  pub calm : t.panicked ≡ false

pub empty-WakeSafe : (config : Option Config) → WakeSafe (empty_tracker config)
empty-WakeSafe config = record {
  open_wake = λ i c e. refl;
  made = λ i c e. absurd (cc);
  own = λ i j c e f. absurd (cc);
  unmade = λ c h. refl;
  calm = refl;
}

pub hold-WakeSafe : (t : Tracker) (key : Key) (n : ℕ) → WakeSafe t → WakeSafe (hold t key n).1
unfolding hold
hold-WakeSafe t key n s = record {
  open_wake = λ i c e. ground (arith, s.open_wake i c);
  made = λ i c e. ground (arith, s.made i c);
  own = λ i j c e f. ground (arith, s.own i j c);
  unmade = s.unmade;
  calm = s.calm;
}

pub unhold-WakeSafe :
    (t : Tracker) (key : Key) (id : ℕ) → WakeSafe t → WakeSafe (unhold_locked t key id)
unfolding unhold_locked
unhold-WakeSafe t key id s = record {
  open_wake = s.open_wake;
  made = s.made;
  own = s.own;
  unmade = s.unmade;
  calm = s.calm;
}

pub wait_turn-WakeSafe : (t : Tracker) (id : ℕ) → WakeSafe t → WakeSafe (wait_turn_locked t id).1
unfolding wait_turn_locked
wait_turn-WakeSafe t id s = record {
  open_wake = λ i c e. ground (arith, s.open_wake i c, s.unmade c);
  made = λ i c e. ground (arith, s.made i c);
  own = λ i j c e f. ground (arith, s.own i j c, s.made i c, s.made j c);
  unmade = λ c h. s.unmade c (omega arith);
  calm = s.calm;
}

pub stop_waiting-WakeSafe :
    (t : Tracker) (id : ℕ) → WakeSafe t → WakeSafe (stop_waiting_locked t id)
unfolding stop_waiting_locked
stop_waiting-WakeSafe t id s = record {
  open_wake = λ i c e. ground (arith, s.open_wake i c);
  made = λ i c e. ground (arith, s.made i c);
  own = λ i j c e f. ground (arith, s.own i j c);
  unmade = s.unmade;
  calm = s.calm;
}

wake_through-WakeSafe :
    (o : Option ℕ) (t : Tracker) (id : ℕ)
    → (t.entries id).wake ≡ o
    → WakeSafe t
    → WakeSafe (wake_through o t id)
unfolding wake_through
wake_through-WakeSafe none t id h s = s
wake_through-WakeSafe (some w) t id h s = record {
  open_wake = λ i c e. ground (arith, s.open_wake i c, s.own i id c);
  made = λ i c e. ground (arith, s.made i c);
  own = λ i j c e f. ground (arith, s.own i j c);
  unmade = λ c l. ground (arith, s.unmade c l, s.made id w h);
  calm = ground (arith, s.open_wake id w h, s.calm);
}

pub wake_locked-WakeSafe : (t : Tracker) (id : ℕ) → WakeSafe t → WakeSafe (wake_locked t id)
unfolding wake_locked
wake_locked-WakeSafe t id s = wake_through-WakeSafe (t.entries id).wake t id refl s

wake_all-WakeSafe : (ids : List ℕ) (t : Tracker) → WakeSafe t → WakeSafe (wake_all ids t)
unfolding wake_all
wake_all-WakeSafe [] t s = s
wake_all-WakeSafe (id ∷ ids) t s =
    wake_all-WakeSafe ids (wake_locked t id) (wake_locked-WakeSafe t id s)

pub notify_turn-WakeSafe :
    (t : Tracker) (key : Key) → WakeSafe t → WakeSafe (notify_turn_locked t key)
unfolding notify_turn_locked
notify_turn-WakeSafe t key s = wake_all-WakeSafe (waiters t.held key) t s

pub evict-WakeSafe :
    (t : Tracker) (key : Key) (id n : ℕ) → WakeSafe t → WakeSafe (evict_held_locked t key id n)
unfolding evict_held_locked
evict-WakeSafe t key id n s = wake_locked-WakeSafe _ id (
    unhold-WakeSafe _ key id (record {
      open_wake = λ i c e. ground (arith, s.open_wake i c);
      made = λ i c e. ground (arith, s.made i c);
      own = λ i j c e f. ground (arith, s.own i j c);
      unmade = s.unmade;
      calm = s.calm;
    }))
