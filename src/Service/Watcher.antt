-- ===== src/Service/Watcher.antt =====
-- SettleInFlight of service/watcher.go: at each new block, what is in flight is settled by its receipt, or
-- by its deadline. A receipt of the node is its logs.
pub mod Calm
use gas_management.Base.{
  ℕ, Bool, true, false, Option, none, some, List, [], ◌∷◌, ◌++◌, if◌then◌else◌,
}
use gas_management.Service.Tracker.{Tracker}
use gas_management.Service.Reorder.{reorder_enabled}
use gas_management.Service.HubLog.{Log, Hub}
use gas_management.Service.Outcome.{MetaTxOutcome, Warning, read_hub_events}
use gas_management.Service.Settle.{Desk, recall_meta_tx, settle, expire_one, in_flight}

-- What the node answers for one hash: no receipt or an error, or the logs of the receipt.
pub data Receipt : Type 0 where
  missing : Receipt
  mined : List Log → Receipt

-- The desk, and the lines on what the hub refused.
pub record Watch : Type 0 where
  pub desk : Desk
  pub warnings : List Warning

abbrev with_tracker : Watch → Tracker → List Warning → Watch
with_tracker s tracker warnings = record {
  desk = record s.desk { tracker = tracker };
  warnings = s.warnings ++ warnings;
}

-- Whether readHubEvents has panicked, and the state; what is settled otherwise.
unfoldable pub settle_mined :
    Option MetaTxOutcome × Tracker × List Warning → Watch → ℕ → ℕ → Bool × Watch
settle_mined (none, tracker, warnings) s hash now = (true, with_tracker s tracker warnings)
settle_mined (some outcome, tracker, warnings) s hash now =
    let read = with_tracker s tracker warnings in
    (false, record read { desk = settle read.desk hash outcome.hub_rejected now })

unfoldable pub settle_by : Hub → Receipt → Watch → ℕ → ℕ → ℕ → Bool × Watch
settle_by hub missing s hash sent_at now =
    (false, record s { desk = expire_one s.desk hash sent_at now })
settle_by hub (mined logs) s hash sent_at now =
    settle_mined (read_hub_events hub hash (some logs) s.desk.tracker) s hash now

-- A panic ends the loop.
abbrev pub unless_panic : Bool × Watch → (Watch → Bool × Watch) → Bool × Watch
unless_panic (true, s) next = (true, s)
unless_panic (false, s) next = next s

abbrev pub recalled : Watch → ℕ → ℕ → Watch
recalled s hash now = record s {
  desk = record s.desk { memory = (recall_meta_tx hash now s.desk.memory).1 };
}

-- The loop of `SettleInFlight` over the list that was read; each metatx is recalled first, which
-- forgets it if it is too old.
unfoldable pub settle_all : Hub → List (ℕ × ℕ) → (ℕ → Receipt) → ℕ → Watch → Bool × Watch
settle_all hub [] receipts now s = (false, s)
settle_all hub ((hash, sent_at) ∷ pending) receipts now s =
    unless_panic (settle_by hub (receipts hash) (recalled s hash now) hash sent_at now)
      (settle_all hub pending receipts now)

-- `SettleInFlight`: whether it panics, and the state. With no connection to the node every receipt is
-- missing.
unfoldable pub settle_in_flight : Hub → (ℕ → Receipt) → ℕ → Watch → Bool × Watch
settle_in_flight hub receipts now s =
    if reorder_enabled s.desk.tracker.config
    then settle_all hub (in_flight s.desk.memory) receipts now s
    else (false, s)
