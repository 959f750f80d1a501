-- ===== src/Service/Nonce.antt =====
-- service/nonce.go, HandOutNonce of service/handout.go as one request sees it, and GetTransactionCount of
-- service/relaySignerService.go: the nonce that a client has to sign with. What other requests do
-- while one waits for its place is `meanwhile`. The key of the node is taken to be readable.
pub mod Agree
pub mod Ticket
use gas_management.Base.{
  ℕ, ◌-◌, ◌*◌, Bool, true, false, not, ◌||◌, Option, none, some, Key, ltb, if◌then◌else◌,
}
use gas_management.Base.Int.{u64}
use gas_management.Config.{Config, millisecond, default_reorder_auto_nonce_ticket_ms}
use gas_management.Service.Rejection.{Cause, Result, ok, err, hub_unresolved}
use gas_management.Service.Tracker.{Tracker}
use gas_management.Service.Tracker.Chains.{sender_key, inflight_of}
use gas_management.Service.Reorder.{HubRead, reorder_enabled, expected_nonce}
use gas_management.Service.Handout.{Tickets, close_ticket, open_ticket, take_place}
use gas_management.Service.Send.{Office}

abbrev pub auto_nonce_enabled : Option Config → Bool
auto_nonce_enabled none = false
auto_nonce_enabled (some config) = config.reorder.auto_nonce

-- After this time a ticket closes by itself.
unfoldable pub ticket_window : Option Config → ℕ
ticket_window none = default_reorder_auto_nonce_ticket_ms * millisecond
ticket_window (some config) =
    if ltb 0 config.reorder.auto_nonce_ticket_ms
    then config.reorder.auto_nonce_ticket_ms * millisecond
    else default_reorder_auto_nonce_ticket_ms * millisecond

-- What a request for a number meets.
pub record Asking : Type 0 where
  pub meanwhile : Office → Office
  pub hub : HubRead
  pub now : ℕ

unfoldable pub expected_in : Office → Key → Asking → Result ℕ × Office
expected_in s from e =
    let (answer, t) = expected_nonce s.tracker from e.hub e.now in
    (answer, record s { tracker = t })

-- Without a number the ticket is closed; with one it waits for its metatx.
unfoldable pub with_ticket : Key → ℕ → Result ℕ × Office → Result ℕ × Office
with_ticket key mine (err cause, s) =
    (err cause, record s { tickets = close_ticket s.tickets key mine })
with_ticket key mine (ok nonce, s) =
    (ok nonce, record s { tickets = open_ticket s.tickets key mine })

unfoldable pub take_and_read : Office → Key → Asking → Result ℕ × Office
take_and_read s from e =
    let key = sender_key from in
    let ((previous, mine), tickets) = take_place s.tickets key in
    with_ticket key mine (expected_in (e.meanwhile (record s { tickets = tickets })) from e)

-- `HandOutNonce`.
unfoldable pub hand_out_nonce : Office → Key → Bool → Asking → Result ℕ × Office
hand_out_nonce s from peek e =
    let reading = expected_in s from e in
    let taking = take_and_read s from e in
    if not (auto_nonce_enabled s.tracker.config) || peek then reading else taking

-- `NonceState` without the address.
pub record NonceState : Type 0 where
  pub on_chain : ℕ
  pub next : ℕ
  pub pending : ℕ

-- What NonceOf reads before the number: whether the hub is resolved, the address of the node, the
-- connection, and the count of the hub.
pub record CountReads : Type 0 where
  pub resolved : Bool
  pub mine : Result ℕ
  pub connect : Result Bool
  pub count : Result ℕ

unfoldable pub checked_count : Bool → Result ℕ → Result Bool → Result ℕ → Result ℕ
checked_count false mine connect count = err hub_unresolved
checked_count true (err cause) connect count = err cause
checked_count true (ok address) (err cause) count = err cause
checked_count true (ok address) (ok b) count = count

-- The number that was handed out counts where it is ahead of the hub.
unfoldable pub advanced_by : ℕ → Result ℕ → NonceState
advanced_by on_chain (err cause) = record { on_chain = on_chain; next = on_chain; pending = 0 }
advanced_by on_chain (ok handed) =
    if ltb on_chain handed
    then record { on_chain = on_chain; next = handed; pending = u64 (handed - on_chain) }
    else record { on_chain = on_chain; next = on_chain; pending = 0 }

-- With reordering on, what is in flight is what the tracker counts.
unfoldable pub with_inflight : Key → ℕ → NonceState × Office → NonceState × Office
with_inflight address later (state, s) =
    let (inflight, t) = inflight_of s.tracker address later in
    if reorder_enabled s.tracker.config
    then (record state { pending = u64 inflight }, record s { tracker = t })
    else (state, s)

unfoldable pub handed_to : Result ℕ → Office → Key → Bool → Asking → ℕ → Result NonceState × Office
handed_to (err cause) s address peek e later = (err cause, s)
handed_to (ok on_chain) s address peek e later =
    let (handed, s') = hand_out_nonce s address peek e in
    let (state, s'') = with_inflight address later (advanced_by on_chain handed, s') in
    (ok state, s'')

-- `NonceOf`: the address is a text, as `Hex` writes it.
unfoldable pub nonce_of : Office → Key → Bool → CountReads → Asking → ℕ → Result NonceState × Office
nonce_of s address peek r e later =
    handed_to (checked_count r.resolved r.mine r.connect r.count) s address peek e later

-- What GetTransactionCount answers. A count that the hub failed to give is the text "0x<nil>".
pub data CountAnswer : Type 0 where
  count_error : Cause → CountAnswer
  count_is : ℕ → CountAnswer
  count_nil : CountAnswer

unfoldable pub count_of_hub : Result Bool → Result ℕ → CountAnswer
count_of_hub (err cause) count = count_error cause
count_of_hub (ok b) (err cause) = count_nil
count_of_hub (ok b) (ok count) = count_is count

abbrev pub handed_or : Result ℕ → CountAnswer → CountAnswer
handed_or (err cause) rest = rest
handed_or (ok next) rest = count_is next

-- `GetTransactionCount`.
unfoldable pub get_transaction_count :
    Office → Key → Bool → CountReads → Asking → CountAnswer × Office
get_transaction_count s from false r e = (count_of_hub r.connect r.count, s)
get_transaction_count s from true r e =
    let (handed, s') = hand_out_nonce s from false e in
    (handed_or handed (count_of_hub r.connect r.count), s')
