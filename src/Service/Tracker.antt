-- ===== src/Service/Tracker.antt =====
-- service/tracker.go: the state that `sendersLock` guards. A pointer that the code compares is an
-- identity: `Chain.id` for a *nonceEntry, an index of `entries` for a *heldMetaTx, a number for a
-- wake channel. Times are nanoseconds of one clock, and each operation takes the time of its call.
pub mod Registry
pub mod Chains
pub mod History
use gas_management.Base.{ℕ, Bool, false, Option, none, List, [], Key, Map, empty_map}
use gas_management.Config.{Config}

-- nonceEntry: the next nonce, how many metatx are in flight, and the time at which the deferred
-- deletion fires, if one is set. A nonce is a uint64.
pub record Chain : Type 0 where
  pub id : ℕ
  pub next : ℕ
  pub pending : ℕ
  pub updated_at : ℕ
  pub expiry : Option ℕ

-- heldMetaTx: `wake` is the channel of the turn in course.
pub record HeldMetaTx : Type 0 where
  pub nonce : ℕ
  pub wake : Option ℕ
  pub evicted : Bool
  pub evicted_inflight : ℕ

-- `closed` says which wake channels are closed; `panicked` records a close of a closed channel,
-- which would stop the process.
pub record Tracker : Type 0 where
  pub config : Option Config
  pub senders : Map Chain
  pub held : Map (List ℕ)
  pub entries : ℕ → HeldMetaTx
  pub closed : ℕ → Bool
  pub panicked : Bool
  pub next_chain : ℕ
  pub next_entry : ℕ
  pub next_wake : ℕ

abbrev pub new_entry : ℕ → HeldMetaTx
new_entry nonce = record { nonce = nonce; wake = none; evicted = false; evicted_inflight = 0 }

-- The tracker of a service that has just started.
abbrev pub empty_tracker : Option Config → Tracker
empty_tracker config = record {
  config = config;
  senders = empty_map;
  held = empty_map;
  entries = λ _. new_entry 0;
  closed = λ _. false;
  panicked = false;
  next_chain = 0;
  next_entry = 0;
  next_wake = 0;
}
