-- ===== src/Service/Tracker/Chains/Release.antt =====
-- What the release of a metatx does to the chain of its user.
use gas_management.Base.{
  ℕ, ◌+◌, ◌-◌, ◌≡◌, ◌≢◌, refl, inl, inr, Option, none, some, Key, insert, arith, ltb,
  lookup-insert_self, lookup-insert_ne, lookup-delete_ne, lookup-delete_self, ◌∙◌, if◌then◌else◌,
  Bool-cases, subst,
}
use gas_management.Service.Tracker.{Tracker, Chain}
use gas_management.Service.Tracker.Chains.{
  release_chain, release_if, release_current, schedule_expiry, grace_window,
}
use gas_management.Service.Tracker.Registry.{notify_turn_locked}
use gas_management.Service.Tracker.Registry.Wake.{notify_turn-Woken}

-- The chain of the user is not the one that the metatx was sent on: it was dropped, or replaced.
abbrev pub IsStale : Tracker → Key → ℕ → Type 0
IsStale t key id = (chain : Chain) → t.senders key ≡ some chain → chain.id ≢ id

release_if_stale :
    (o : Option Chain) (t : Tracker) (key : Key) (id now : ℕ)
    → ((chain : Chain) → o ≡ some chain → chain.id ≢ id)
    → release_if o t key id now ≡ t
unfolding release_if
release_if_stale none t key id now h = refl
release_if_stale (some chain) t key id now h = ground (arith, h chain refl)

-- A late result that belongs to a chain already dropped changes nothing, whatever chain replaced
-- it.
pub release_chain_stale :
    (t : Tracker) (key : Key) (id now : ℕ)
    → IsStale t key id
    → release_chain t key (some id) now ≡ t
unfolding release_chain
release_chain_stale t key id now h = release_if_stale (t.senders key) t key id now h

abbrev pub one_less : Chain → Chain
one_less chain = record chain { pending = chain.pending - 1 }

-- A chain with nothing in flight: its deletion is scheduled already, or is scheduled now, or takes
-- place at once where there is no grace period.
abbrev pub idle_chain : ℕ → ℕ → Chain → Option ℕ → Option Chain
idle_chain grace now chain (some _) = some chain
idle_chain grace now chain none =
    if ltb 0 grace then some (record chain { expiry = some (now + grace) }) else none

-- The chain of the user after the release of one metatx.
abbrev pub after_release : ℕ → ℕ → Chain → Option Chain
after_release grace now chain =
    if ltb 0 (chain.pending - 1)
    then some (one_less chain)
    else idle_chain grace now (one_less chain) chain.expiry

-- The tracker changes in the chain of `key` alone, which becomes `o`.
pub record Replaces (t u : Tracker) (key : Key) (o : Option Chain) : Type 0 where
  pub here : u.senders key ≡ o
  pub elsewhere : (j : Key) → j ≢ key → u.senders j ≡ t.senders j
  pub held : u.held ≡ t.held
  pub config : u.config ≡ t.config

schedule_expiry-Replaces :
    (o : Option ℕ) (t : Tracker) (key : Key) (chain : Chain) (now : ℕ)
    → t.senders key ≡ some chain
    → Replaces t
        (schedule_expiry o t key chain now)
        key
        (idle_chain (grace_window t.config) now chain o)
unfolding schedule_expiry
schedule_expiry-Replaces (some _) t key chain now e = record {
  here = e;
  elsewhere = λ j h. refl;
  held = refl;
  config = refl;
}
schedule_expiry-Replaces none t key chain now e = record {
  here = ground (
    arith,
    lookup-delete_self key t.senders,
    lookup-insert_self key (record chain { expiry = some (now + grace_window t.config) }) t.senders,
  );
  elsewhere = λ j h. ground (
    arith,
    lookup-delete_ne key j t.senders h,
    lookup-insert_ne key j (record chain { expiry = some (now + grace_window t.config) }) t.senders
        h,
  );
  held = ground arith;
  config = ground arith;
}

Replaces-after :
    (t u v : Tracker) (key : Key) (a o : Option Chain)
    → Replaces t u key a
    → Replaces u v key o
    → Replaces t v key o
Replaces-after t u v key a o p q = record {
  here = q.here;
  elsewhere = λ j h. q.elsewhere j h ∙ p.elsewhere j h;
  held = q.held ∙ p.held;
  config = q.config ∙ p.config;
}

module _ (t : Tracker) (key : Key) (chain : Chain) (now : ℕ) where
  -- The tracker after the decrement and the wake-up.
  abbrev notified : Tracker
  notified = notify_turn_locked (record t { senders = insert key (one_less chain) t.senders }) key

  notified-Replaces : Replaces t notified key (some (one_less chain))
  notified-Replaces =
      let w =
        notify_turn-Woken (record t { senders = insert key (one_less chain) t.senders }) key in
      record {
        here = rw w.senders (lookup-insert_self key (one_less chain) t.senders);
        elsewhere = λ j h. rw w.senders (lookup-insert_ne key j (one_less chain) t.senders h);
        held = w.held;
        config = w.config;
      }

  notified-idle :
      Replaces t
        (schedule_expiry chain.expiry notified key (one_less chain) now)
        key
        (idle_chain (grace_window t.config) now (one_less chain) chain.expiry)
  notified-idle =
      subst
        (λ c.
          Replaces t (schedule_expiry chain.expiry notified key (one_less chain) now) key
            (idle_chain (grace_window c) now (one_less chain) chain.expiry))
        notified-Replaces.config
        (Replaces-after t notified _ key (some (one_less chain)) _ notified-Replaces (
          schedule_expiry-Replaces chain.expiry notified key (one_less chain) now
            notified-Replaces.here))

  release_current-Replaces :
      Replaces t
        (release_current t key chain now)
        key
        (after_release (grace_window t.config) now chain)
  unfolding release_current
  release_current-Replaces = elim (Bool-cases (ltb 0 (chain.pending - 1))) [
    | inl busy ↦ rw busy notified-Replaces
    | inr idle ↦ rw idle notified-idle
  ]

-- The release of a metatx on the chain in force counts one less in flight, and touches no other
-- user and no held metatx. With none left, the deletion of the chain waits for the grace period.
pub release_chain_current :
    (t : Tracker) (key : Key) (id now : ℕ) (chain : Chain)
    → t.senders key ≡ some chain
    → chain.id ≡ id
    → Replaces t
        (release_chain t key (some id) now)
        key
        (after_release (grace_window t.config) now chain)
unfolding release_chain release_if
release_chain_current t key id now chain e h =
    rw (e, release_if, h) (ground (arith, release_current-Replaces t key chain now))
