-- ===== src/Service/Tracker/Registry/Wake.antt =====
-- What a wake-up changes: channels only.
use gas_management.Base.{ℕ, ◌≡◌, refl, Option, none, some, List, [], ◌∷◌, Key, arith}
use gas_management.Service.Tracker.{Tracker}
use gas_management.Service.Tracker.Registry.{
  wake_through, wake_locked, wake_all, notify_turn_locked, waiters,
}

-- The registry, the chains and what the entries say are those of `t`.
pub record Woken (t u : Tracker) : Type 0 where
  pub config : u.config ≡ t.config
  pub senders : u.senders ≡ t.senders
  pub held : u.held ≡ t.held
  pub next_chain : u.next_chain ≡ t.next_chain
  pub next_entry : u.next_entry ≡ t.next_entry
  pub next_wake : u.next_wake ≡ t.next_wake
  pub nonce : (j : ℕ) → (u.entries j).nonce ≡ (t.entries j).nonce
  pub evicted : (j : ℕ) → (u.entries j).evicted ≡ (t.entries j).evicted
  pub inflight : (j : ℕ) → (u.entries j).evicted_inflight ≡ (t.entries j).evicted_inflight

pub Woken-refl : (t : Tracker) → Woken t t
Woken-refl t = record {
  config = refl;
  senders = refl;
  held = refl;
  next_chain = refl;
  next_entry = refl;
  next_wake = refl;
  nonce = λ j. refl;
  evicted = λ j. refl;
  inflight = λ j. refl;
}

pub Woken-trans : (t u v : Tracker) → Woken t u → Woken u v → Woken t v
Woken-trans t u v p q = record {
  config = cc;
  senders = cc;
  held = cc;
  next_chain = cc;
  next_entry = cc;
  next_wake = cc;
  nonce = λ j. cc (p.nonce j, q.nonce j);
  evicted = λ j. cc (p.evicted j, q.evicted j);
  inflight = λ j. cc (p.inflight j, q.inflight j);
}

wake_through-Woken : (o : Option ℕ) (t : Tracker) (id : ℕ) → Woken t (wake_through o t id)
unfolding wake_through
wake_through-Woken none t id = Woken-refl t
wake_through-Woken (some c) t id = record {
  config = refl;
  senders = refl;
  held = refl;
  next_chain = refl;
  next_entry = refl;
  next_wake = refl;
  nonce = λ j. ground arith;
  evicted = λ j. ground arith;
  inflight = λ j. ground arith;
}

pub wake_locked-Woken : (t : Tracker) (id : ℕ) → Woken t (wake_locked t id)
unfolding wake_locked
wake_locked-Woken t id = wake_through-Woken (t.entries id).wake t id

wake_all-Woken : (ids : List ℕ) (t : Tracker) → Woken t (wake_all ids t)
unfolding wake_all
wake_all-Woken [] t = Woken-refl t
wake_all-Woken (id ∷ ids) t =
    Woken-trans t (wake_locked t id) _ (wake_locked-Woken t id)
      (wake_all-Woken ids (wake_locked t id))

-- To wake the waiters of a user changes neither the registry, nor a chain, nor what an entry says.
pub notify_turn-Woken : (t : Tracker) (key : Key) → Woken t (notify_turn_locked t key)
unfolding notify_turn_locked
notify_turn-Woken t key = wake_all-Woken (waiters t.held key) t
