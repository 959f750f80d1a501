-- ===== src/Service/Watcher/Calm.antt =====
-- When the watcher does not panic.
use gas_management.Base.{
  ℕ, ◌≡◌, refl, ap, Bool, true, false, Option, none, some, List, [], ◌∷◌, arith,
}
use gas_management.Service.Tracker.{Tracker}
use gas_management.Service.HubLog.{Hub}
use gas_management.Service.Outcome.{MetaTxOutcome, Warning}
use gas_management.Service.Outcome.Panics.{Hostile, calm-panics, read_hub_events-calm}
use gas_management.Service.Settle.{in_flight}
use gas_management.Service.Watcher.{
  Receipt, missing, mined, Watch, settle_mined, settle_by, unless_panic, recalled, settle_all,
  settle_in_flight,
}

-- None of the logs makes readHubEvents panic.
abbrev pub IsCalm : Hub → Receipt → Type 0
IsCalm hub missing = Unit
IsCalm hub (mined logs) = ¬ Hostile hub logs

settle_mined-calm :
    (x : Option MetaTxOutcome × Tracker × List Warning) (o : MetaTxOutcome) (s : Watch)
    (hash now : ℕ)
    → x.0 ≡ some o
    → (settle_mined x s hash now).0 ≡ false
unfolding settle_mined
settle_mined-calm (none, tracker, warnings) o s hash now e = absurd (cc)
settle_mined-calm (some outcome, tracker, warnings) o s hash now e = refl

settle_by-calm :
    (hub : Hub) (receipt : Receipt) (s : Watch) (hash sent_at now : ℕ)
    → IsCalm hub receipt
    → (settle_by hub receipt s hash sent_at now).0 ≡ false
unfolding settle_by
settle_by-calm hub missing s hash sent_at now calm = refl
settle_by-calm hub (mined logs) s hash sent_at now calm =
    settle_mined-calm _ _ s hash now (
      ap (λ x. x.0) (read_hub_events-calm hub hash logs s.desk.tracker (calm-panics hub logs calm)))

unless_panic-calm :
    (x : Bool × Watch) (next : Watch → Bool × Watch)
    → x.0 ≡ false
    → ((s : Watch) → (next s).0 ≡ false)
    → (unless_panic x next).0 ≡ false
unless_panic-calm (true, s) next e h = absurd (cc)
unless_panic-calm (false, s) next e h = h s

settle_all-calm :
    (hub : Hub) (pending : List (ℕ × ℕ)) (receipts : ℕ → Receipt) (now : ℕ)
    → ((hash : ℕ) → IsCalm hub (receipts hash))
    → (s : Watch) → (settle_all hub pending receipts now s).0 ≡ false
unfolding settle_all
settle_all-calm hub [] receipts now calm s = refl
settle_all-calm hub ((hash, sent_at) ∷ pending) receipts now calm s =
    unless_panic-calm _ (settle_all hub pending receipts now)
      (settle_by-calm hub (receipts hash) (recalled s hash now) hash sent_at now (calm hash))
      (settle_all-calm hub pending receipts now calm)

-- SettleInFlight does not panic, if none of the receipts has a hostile log.
pub settle_in_flight-calm :
    (hub : Hub) (receipts : ℕ → Receipt) (now : ℕ) (s : Watch)
    → ((hash : ℕ) → IsCalm hub (receipts hash))
    → (settle_in_flight hub receipts now s).0 ≡ false
unfolding settle_in_flight
settle_in_flight-calm hub receipts now s calm =
    ground (arith, settle_all-calm hub (in_flight s.desk.memory) receipts now calm s)
