-- ===== src/Service/Blocks.antt =====
-- ProcessNewBlocks of service/relaySignerService.go, with nextBackoff, waitOrDone and isDone: the
-- subscription to new blocks, which is made again whenever it fails, after a wait. One cycle is a pass
-- of the outer loop, with what the node and the channel `done` do in it.
pub mod Course
pub mod Calm
pub mod Waits
use gas_management.Base.{ℕ, ◌*◌, Bool, true, false, not, List, [], ◌∷◌, ltb, if◌then◌else◌}
use gas_management.Config.{second}
use gas_management.Service.Send.{Office, decrement}
use gas_management.Service.Settle.{SettleEvent}
use gas_management.Service.HubLog.{Hub}
use gas_management.Service.Outcome.{Warning}
use gas_management.Service.Watcher.{Receipt, Watch, settle_in_flight}

-- A new block: what the node says of each receipt, and the clock of the watcher.
pub record Head : Type 0 where
  pub receipts : ℕ → Receipt
  pub now : ℕ

-- What a pass meets. `stopped`: `done` is closed. `not_connected`, `not_subscribed`: the node does not
-- take the connection or the subscription, and `done` closes in the wait after it or not. `served`: the
-- subscription gives its blocks until `done` closes. `lost`: it gives them until the socket fails, and
-- `done` closes in the wait after it or not.
pub data Cycle : Type 0 where
  stopped : Cycle
  not_connected not_subscribed : Bool → Cycle
  served : List Head → Cycle
  lost : List Head → Bool → Cycle

-- `panicked`: SettleInFlight has panicked, which ends the process, as nothing in this goroutine
-- recovers. What the library of the node reads of the hub does not change.
pub record Plant : Type 0 where
  pub hub : Hub
  pub office : Office
  pub log : List SettleEvent
  pub warnings : List Warning
  pub panicked : Bool

abbrev pub initial_backoff : ℕ
initial_backoff = 1 * second

abbrev pub max_backoff : ℕ
max_backoff = 30 * second

-- `nextBackoff`.
unfoldable pub next_backoff : ℕ → ℕ → ℕ
next_backoff current max = let next = current * 2 in if ltb max next then max else next

abbrev pub watched : Plant → Office → Bool × Watch → Plant
watched s office (panics, w) = record s {
  office = record office { memory = w.desk.memory; tracker = w.desk.tracker };
  log = w.desk.log;
  warnings = w.warnings;
  panicked = panics;
}

-- A block empties the window of gas, and the watcher settles what is mined.
unfoldable pub new_head : Head → Plant → Plant
new_head h s =
    let office = decrement s.office in
    watched s office (
      settle_in_flight s.hub h.receipts h.now (record {
        desk = record { memory = office.memory; tracker = office.tracker; log = s.log };
        warnings = s.warnings;
      }))

unfoldable pub new_heads : List Head → Plant → Plant
new_heads [] s = s
new_heads (h ∷ hs) s =
    let s' = new_head h s in let rest = new_heads hs s' in if s'.panicked then s' else rest

-- Whether the loop has returned, the waits that it made, and the state.
abbrev pub Run : Type 0
Run = (Bool × List ℕ) × Plant

-- After a wait that `done` cut short, the loop returns.
abbrev pub wait_or_done : Bool → ℕ → Plant → Run → Run
wait_or_done true d s rest = ((true, d ∷ []), s)
wait_or_done false d s ((returned, waits), s') = ((returned, d ∷ waits), s')

-- `ProcessNewBlocks`, with the backoff that it has come to.
unfoldable pub process_new_blocks : List Cycle → ℕ → Plant → Run
process_new_blocks [] backoff s = ((false, []), s)
process_new_blocks (stopped ∷ cs) backoff s = ((true, []), s)
process_new_blocks (not_connected done ∷ cs) backoff s =
    wait_or_done done backoff s (process_new_blocks cs (next_backoff backoff max_backoff) s)
process_new_blocks (not_subscribed done ∷ cs) backoff s =
    wait_or_done done backoff s (process_new_blocks cs (next_backoff backoff max_backoff) s)
process_new_blocks (served hs ∷ cs) backoff s =
    let s' = new_heads hs s in ((not s'.panicked, []), s')
process_new_blocks (lost hs done ∷ cs) backoff s =
    let s' = new_heads hs s in
    let rest =
      wait_or_done done initial_backoff s'
        (process_new_blocks cs (next_backoff initial_backoff max_backoff) s') in
    if s'.panicked then ((false, []), s') else rest
