-- ===== src/Service/Send.antt =====
-- The path from the turn to the send: sendReordered and noteSent of service/reorder.go,
-- reserveGasAndSend of service/prepare.go, VerifyGasLimit, increment, decrement and sendPrepared of
-- service/relaySignerService.go. The section from the nonce that is expected to the send runs under
-- the lock of the user, and the reservation of gas with the send under one lock for all.
pub mod Gas
pub mod Ends
pub mod Rejects
use gas_management.Base.{
  ℕ, ◌+◌, Bool, true, false, not, List, Option, none, some, Key, ltb, ◌==◌, if◌then◌else◌,
}
use gas_management.Base.Int.{u64}
use gas_management.Service.Rejection.{
  Rejection, Cause, Result, ok, err, reject, relay_error, send_failed, block_gas_exceeded,
}
use gas_management.Service.Tracker.{Tracker, Chain}
use gas_management.Service.Tracker.Registry.{notify_turn_locked}
use gas_management.Service.Tracker.Chains.{
  sender_key, reserve_locked, increment_transaction_count, forget_chain, pending_of,
}
use gas_management.Service.Reorder.{
  HubRead, reorder_enabled, expected_nonce, bad_nonce_rejection, make_room_for,
  too_many_inflight_rejection, max_inflight_per_user,
}
use gas_management.Service.Turn.{
  Round, Stepped, Progress, finished, sleeping, go_on, refused, start_turn, await_turn,
}
use gas_management.Service.Settle.{Memory, remember_meta_tx}
use gas_management.Service.Handout.{Tickets, close_open_ticket}

-- What of a prepared metatx the path reads, with the identities that the context carries.
pub record PreparedMetaTx : Type 0 where
  pub sender : Key
  pub nonce : ℕ
  pub meta_tx_gas_limit : ℕ
  pub req_id : Key
  pub meta_tx_id : Key

-- The tracker, the memory of what was sent, the tickets, and the gas used in the current block.
pub record Office : Type 0 where
  pub tracker : Tracker
  pub memory : Memory
  pub tickets : Tickets
  pub gas_used : ℕ

-- The gas limit that the hub gives to this node, as an uint64, and the broadcast of the transaction:
-- what the node answers.
pub data GasRead : Type 0 where
  gas_failed : Cause → GasRead
  gas_limit_is : ℕ → GasRead

pub data SendRead : Type 0 where
  not_sent : Cause → SendRead
  sent_as : ℕ → SendRead

pub data Outcome : Type 0 where
  sent : ℕ → Outcome
  turned_away : Rejection → Outcome

-- `increment` adds to the window, and wraps; `decrement` empties it with each new block.
unfoldable pub increment : ℕ → ℕ → ℕ
increment used gas_limit = u64 (used + gas_limit)

unfoldable pub decrement : Office → Office
decrement s = record s { gas_used = 0 }

-- The gas is counted before it is compared, also that of a metatx that does not fit.
unfoldable pub verify_gas_limit : ℕ → ℕ → GasRead → Result Bool × ℕ
verify_gas_limit used gas_limit (gas_failed cause) = (err cause, used)
verify_gas_limit used gas_limit (gas_limit_is limit) =
    (ok (not (ltb limit (increment used gas_limit))), increment used gas_limit)

-- The chain that the metatx counts on, where reordering is on.
unfoldable pub note_sent : Office → PreparedMetaTx → ℕ → Option ℕ × Office
note_sent s p now =
    let key = sender_key p.sender in
    let (chain, t) = reserve_locked s.tracker key p.nonce true now in
    if reorder_enabled s.tracker.config
    then (
      some chain.id,
      record s { tickets = close_open_ticket s.tickets key; tracker = notify_turn_locked t key },
    )
    else (none, record s { tracker = increment_transaction_count s.tracker p.sender p.nonce now })

unfoldable pub send_prepared : Office → PreparedMetaTx → SendRead → ℕ → Result ℕ × Office
send_prepared s p (not_sent cause) now = (err cause, s)
send_prepared s p (sent_as hash) now =
    let (chain, s') = note_sent s p now in
    (
      ok hash,
      record s' {
        memory =
            remember_meta_tx p.req_id p.meta_tx_id hash (sender_key p.sender) chain now s'.memory;
      },
    )

abbrev pub sent_or_failed : Result ℕ × Office → Outcome × Office
sent_or_failed (ok hash, s) = (sent hash, s)
sent_or_failed (err cause, s) = (turned_away (reject cause send_failed), s)

abbrev pub send_if : Result Bool → Office → PreparedMetaTx → SendRead → ℕ → Outcome × Office
send_if (err cause) s p answer now = (turned_away (reject cause send_failed), s)
send_if (ok false) s p answer now = (turned_away (reject block_gas_exceeded relay_error), s)
send_if (ok true) s p answer now = sent_or_failed (send_prepared s p answer now)

unfoldable pub reserve_gas_and_send :
    Office → PreparedMetaTx → GasRead → SendRead → ℕ → Outcome × Office
reserve_gas_and_send s p gas answer now =
    let (enough, used) = verify_gas_limit s.gas_used p.meta_tx_gas_limit gas in
    send_if enough (record s { gas_used = used }) p answer now

-- A send that failed drops the chain: its nonce was not consumed.
abbrev pub forget_unsent : Key → Outcome × Office → Outcome × Office
forget_unsent key (sent hash, s) = (sent hash, s)
forget_unsent key (turned_away r, s) =
    (turned_away r, record s { tracker = forget_chain s.tracker key })

abbrev pub send_expected :
    Result ℕ → Office → PreparedMetaTx → GasRead → SendRead → ℕ → Outcome × Office
send_expected (err cause) s p gas answer now = (turned_away (reject cause relay_error), s)
send_expected (ok expected) s p gas answer now =
    let (pending, t) = pending_of s.tracker p.sender now in
    if p.nonce == expected
    then forget_unsent (sender_key p.sender) (reserve_gas_and_send s p gas answer now)
    else (turned_away (bad_nonce_rejection expected p.nonce pending), record s { tracker = t })

-- `sendReordered`, from where the turn has come: the part under the lock of the user.
unfoldable pub send_in_turn :
    Office → PreparedMetaTx → HubRead → GasRead → SendRead → ℕ → Outcome × Office
send_in_turn s p hub gas answer now =
    let (expected, t) = expected_nonce s.tracker p.sender hub now in
    send_expected expected (record s { tracker = t }) p gas answer now

abbrev pub after_progress :
    Progress → Office → (Office → Outcome × Office) → Option (Outcome × Office)
after_progress (finished go_on entry) s rest = some (rest s)
after_progress (finished (refused r) entry) s rest = some (turned_away r, s)
after_progress (sleeping turn entry expected remaining) s rest = none

abbrev pub after_turn :
    Option Stepped → Office → (Office → Outcome × Office) → Option (Outcome × Office)
after_turn none s rest = none
after_turn (some x) s rest = after_progress x.progress (record s { tracker = x.tracker }) rest

-- What the environment does on the whole path: the rounds of the wait, what the other requests do
-- before it and between it and the lock of the user, and the answers of the node.
pub record Passage : Type 0 where
  pub arrives_at : ℕ
  pub before : Tracker → Tracker
  pub rounds : List Round
  pub between : Office → Office
  pub hub : HubRead
  pub gas : GasRead
  pub answer : SendRead
  pub sends_at : ℕ

-- `sendReordered`; none where the rounds do not reach the end of the wait.
unfoldable pub send_reordered : Office → PreparedMetaTx → Passage → Option (Outcome × Office)
send_reordered s p e =
    let ((inflight, admitted), t) =
      make_room_for s.tracker (sender_key p.sender) p.nonce e.arrives_at in
    let turn = start_turn (e.before t) p.sender p.nonce e.arrives_at in
    let waited =
      after_turn (await_turn (e.before t) turn e.rounds) s
        λ s'. send_in_turn (e.between s') p e.hub e.gas e.answer e.sends_at in
    if admitted
    then waited
    else some (
      turned_away (too_many_inflight_rejection inflight (max_inflight_per_user t.config)),
      record s { tracker = t },
    )
