-- ===== src/Service/Relay.antt =====
-- service/relay.go and ReserveGasAndSend of service/prepare.go: a metatx is sent, and its result is
-- waited for. The wait runs outside every lock, so other requests change the state meanwhile.
pub mod Waits
use gas_management.Base.{
  ℕ, ◌*◌, Bool, true, false, not, ◌&&◌, ◌||◌, Option, none, some, List, [], ◌∷◌, Key, ltb, leb,
  ◌==◌, if◌then◌else◌, is_empty_text, texts_eq,
}
use gas_management.Base.Int.{u64}
use gas_management.Config.{Config, millisecond}
use gas_management.Service.Rejection.{
  Rejection, Cause, Result, ok, err, reject, client_stopped_waiting, receipt_unknown,
  receipt_unknown_after, receipt_timeout,
}
use gas_management.Service.Tracker.{Tracker}
use gas_management.Service.Reorder.{reorder_enabled}
use gas_management.Service.Settle.{Desk, default_receipt_timeout, settle}
use gas_management.Service.HubLog.{Log, Hub, CodeName}
use gas_management.Service.Outcome.{
  MetaTxOutcome, no_outcome, EventName, Output, Warning, read_hub_events,
}
use gas_management.Service.Permissioning.{Permits}
use gas_management.Service.Send.{
  PreparedMetaTx, Office, Passage, Outcome, sent, turned_away, send_reordered, reserve_gas_and_send,
}
use gas_management.Service.Prepare.{
  Codec, Arrival, Prepared, Preparation, prepared, unprepared, prepare_meta_tx, digit_value,
}

-- The part of the service that a request changes.
pub record House : Type 0 where
  pub office : Office
  pub permits : Permits

-- `ReserveGasAndSend`; none where the rounds of a wait for the turn do not reach its end.
unfoldable pub reserve_gas_and_send_door :
    Office → PreparedMetaTx → Passage → Option (Outcome × Office)
reserve_gas_and_send_door s p e =
    if reorder_enabled s.tracker.config
    then send_reordered s p e
    else some (reserve_gas_and_send s p e.gas e.answer e.sends_at)

pub record MinedReceipt : Type 0 where
  pub gas_used : ℕ
  pub block_number : Option ℕ
  pub logs : List Log

-- What the select of a round takes.
pub data Wake : Type 0 where
  deadline_passed client_gone ticked : Wake

-- A round of the wait: what the node answers to the poll, and what wakes it then.
pub record Poll : Type 0 where
  pub answer : Result (Option MinedReceipt)
  pub wake : Wake

-- The error that the message of the deadline repeats.
unfoldable pub last_error : Option Cause → Result (Option MinedReceipt) → Option Cause
last_error before (ok receipt) = before
last_error before (err cause) = some cause

unfoldable pub deadline_error : ℕ → Option Cause → Cause
deadline_error timeout none = receipt_unknown timeout
deadline_error timeout (some cause) = receipt_unknown_after timeout cause

unfoldable pub select_wake :
    Wake → ℕ → Option Cause → Option (Result MinedReceipt) → Option (Result MinedReceipt)
select_wake deadline_passed timeout before rest = some (err (deadline_error timeout before))
select_wake client_gone timeout before rest = some (err client_stopped_waiting)
select_wake ticked timeout before rest = rest

unfoldable pub poll_or_select :
    Result (Option MinedReceipt)
    → Wake
    → ℕ
    → Option Cause
    → Option (Result MinedReceipt)
    → Option (Result MinedReceipt)
poll_or_select (ok (some receipt)) wake timeout before rest = some (ok receipt)
poll_or_select (ok none) wake timeout before rest = select_wake wake timeout before rest
poll_or_select (err cause) wake timeout before rest = select_wake wake timeout before rest

-- The loop; none where the rounds do not reach its end.
unfoldable pub poll_receipt : List Poll → ℕ → Option Cause → Option (Result MinedReceipt)
poll_receipt [] timeout before = none
poll_receipt (p ∷ ps) timeout before =
    let before' = last_error before p.answer in
    poll_or_select p.answer p.wake timeout before' (poll_receipt ps timeout before')

unfoldable pub wait_timeout : Config → ℕ
wait_timeout config =
    if ltb 0 config.reorder.receipt_timeout_ms
    then config.reorder.receipt_timeout_ms * millisecond
    else default_receipt_timeout

-- `waitForReceipt`.
unfoldable pub wait_for_receipt : Config → Result Bool → List Poll → Option (Result MinedReceipt)
wait_for_receipt config (err cause) polls = some (err cause)
wait_for_receipt config (ok _) polls = poll_receipt polls (wait_timeout config) none

-- `RelayResult`; the numbers that it writes as texts are numbers here.
pub record RelayResult : Type 0 where
  pub transaction_hash : ℕ
  pub is_deploy : Bool
  pub deployed_address : Option Key
  pub block_number : Option ℕ
  pub gas_used : ℕ
  pub error_code : Option ℕ
  pub error_code_name : Option CodeName
  pub executed : Option Bool
  pub output : Option Output
  pub from : ℕ
  pub to : Option ℕ
  pub nonce : ℕ
  pub meta_tx_gas_limit : ℕ
  pub events : List EventName
  pub simulated : Bool

abbrev pub block_of : Option ℕ → Option ℕ
block_of none = none
block_of (some number) = some (u64 number)

abbrev pub relay_result : ℕ → Prepared → MinedReceipt → MetaTxOutcome → RelayResult
relay_result hash p receipt outcome = record {
  transaction_hash = hash;
  is_deploy = p.is_deploy;
  deployed_address = outcome.deployed_address;
  block_number = block_of receipt.block_number;
  gas_used = receipt.gas_used;
  error_code = outcome.error_code;
  error_code_name = outcome.error_name;
  executed = outcome.executed;
  output = outcome.output;
  from = p.from;
  to = p.to;
  nonce = p.meta_tx.nonce;
  meta_tx_gas_limit = p.meta_tx.meta_tx_gas_limit;
  events = outcome.events;
  simulated = false;
}

unfoldable pub settle_read :
    Option MetaTxOutcome × Tracker × List Warning
    → ℕ
    → Prepared
    → MinedReceipt
    → ℕ
    → House
    → Option RelayResult × House
settle_read (none, tracker, warnings) hash p receipt now h =
    (none, record h { office = record h.office { tracker = tracker } })
settle_read (some outcome, tracker, warnings) hash p receipt now h =
    let d =
      settle (record { memory = h.office.memory; tracker = tracker; log = [] }) hash
        outcome.hub_rejected now in
    (
      some (relay_result hash p receipt outcome),
      record h { office = record h.office { memory = d.memory; tracker = d.tracker } },
    )

-- `decodeRelayResult`, of a receipt that was found, and `settle` in it; none is a panic of
-- readHubEvents, before anything is settled.
unfoldable pub decode_relay_result :
    Hub → ℕ → Prepared → MinedReceipt → ℕ → House → Option RelayResult × House
decode_relay_result hub hash p receipt now h =
    settle_read (read_hub_events hub hash (some receipt.logs) h.office.tracker) hash p receipt now h

-- What happens after the send: what other requests do, the polls, and the clock at the end.
pub record Aftermath : Type 0 where
  pub meanwhile : House → House
  pub connects : Result Bool
  pub polls : List Poll
  pub ends_at : ℕ

-- `relay_panics`: the goroutine of the request panics.
pub data Relayed : Type 0 where
  relayed : RelayResult → Relayed
  not_relayed : Rejection → Relayed
  relay_panics : Relayed

abbrev pub relayed_or_panics : Option RelayResult → Relayed
relayed_or_panics none = relay_panics
relayed_or_panics (some result) = relayed result

-- The metatx was sent: a wait that ends without a receipt is told as RECEIPT_TIMEOUT.
unfoldable pub after_wait :
    Option (Result MinedReceipt) → Hub → ℕ → Prepared → ℕ → House → Option (Relayed × House)
after_wait none hub hash p now h = none
after_wait (some (err cause)) hub hash p now h =
    some (not_relayed (reject cause receipt_timeout), h)
after_wait (some (ok receipt)) hub hash p now h =
    let (result, h') = decode_relay_result hub hash p receipt now h in
    some (relayed_or_panics result, h')

unfoldable pub after_send :
    Config → Hub → Aftermath → Prepared → ℕ → House → Option (Relayed × House)
after_send config hub a p hash h =
    after_wait (wait_for_receipt config a.connects a.polls) hub hash p a.ends_at (a.meanwhile h)

unfoldable pub relay_outcome :
    Option (Outcome × Office)
    → Config
    → Hub
    → Aftermath
    → Prepared
    → Permits
    → Option (Relayed × House)
relay_outcome none config hub a p permits = none
relay_outcome (some (turned_away r, office)) config hub a p permits =
    some (not_relayed r, record { office = office; permits = permits })
relay_outcome (some (sent hash, office)) config hub a p permits =
    after_send config hub a p hash (record { office = office; permits = permits })

unfoldable pub relay_preparation :
    Preparation × Permits → Config → Hub → Passage → Aftermath → Office → Option (Relayed × House)
relay_preparation (unprepared r, permits) config hub e a office =
    some (not_relayed r, record { office = office; permits = permits })
relay_preparation (prepared p, permits) config hub e a office =
    relay_outcome (reserve_gas_and_send_door office p.meta_tx e) config hub a p permits

-- `RelayAndWait`.
unfoldable pub relay_and_wait :
    Codec → Config → Hub → Arrival → Passage → Aftermath → Key → House → Option (Relayed × House)
relay_and_wait codec config hub arrival e a raw_tx h =
    relay_preparation (prepare_meta_tx codec config arrival raw_tx h.permits) config hub e a
      h.office

-- `strings.TrimPrefix` of "0x" and of "0X".
unfoldable pub trim_prefix : ℕ → Key → Key
trim_prefix x [] = []
trim_prefix x (c ∷ []) = c ∷ []
trim_prefix x (c ∷ d ∷ cs) = if (c == b'0') && (d == x) then cs else c ∷ d ∷ cs

abbrev is_some : Option ℕ → Bool
is_some none = false
is_some (some n) = true

unfoldable pub all_digits : Key → Bool
unfolding digit_value
all_digits [] = true
all_digits (c ∷ cs) = let rest = all_digits cs in if is_some (digit_value c) then rest else false

unfoldable pub hex_body : Key → Key
hex_body value = trim_prefix b'X' (trim_prefix b'x' value)

-- `IsHexData`: the shape of a signed transaction, with its prefix.
unfoldable pub is_hex_data : Key → Bool
is_hex_data value =
    let body = hex_body value in
    if is_empty_text body || texts_eq body value then false else all_digits body
