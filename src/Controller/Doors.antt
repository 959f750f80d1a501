-- ===== src/Controller/Doors.antt =====
-- processRawTransaction of controller/processController.go and Relay of controller/endpoints.go: the
-- two doors through which a metatx comes in, `POST /` and `POST /relay`. What encoding/json reads of
-- a body is a parameter, and what it writes is taken to be written.
pub mod Agree
use gas_management.Base.{
  ℕ, Bool, true, false, Option, none, some, List, [], ◌∷◌, Key, if◌then◌else◌,
}
use gas_management.Config.{Config}
use gas_management.Service.Rejection.{
  Rejection, Cause, Code, Details, Failure, rejection, plain, Result, ok, err, code_of, details_of,
  receipt_timeout, invalid_params,
}
use gas_management.Service.HubLog.{Hub}
use gas_management.Service.Permissioning.{Permits}
use gas_management.Service.Send.{Passage, Outcome, sent, turned_away, Office}
use gas_management.Service.Prepare.{
  Codec, Arrival, Prepared, Preparation, prepared, unprepared, prepare_meta_tx,
}
use gas_management.Service.Relay.{
  House, Aftermath, RelayResult, Relayed, relayed, not_relayed, relay_panics,
  reserve_gas_and_send_door, relay_and_wait, is_hex_data,
}

-- What the JSON-RPC door answers: an error, which is also the line of the log, or the hash.
pub data RpcReply : Type 0 where
  rpc_error : Failure → RpcReply
  rpc_hash : ℕ → RpcReply

unfoldable pub reply_outcome : Option (Outcome × Office) → Permits → Option (RpcReply × House)
reply_outcome none permits = none
reply_outcome (some (turned_away r, office)) permits =
    some (rpc_error (rejection r), record { office = office; permits = permits })
reply_outcome (some (sent hash, office)) permits =
    some (rpc_hash hash, record { office = office; permits = permits })

unfoldable pub reply_preparation :
    Preparation × Permits → Passage → Office → Option (RpcReply × House)
reply_preparation (unprepared r, permits) e office =
    some (rpc_error (rejection r), record { office = office; permits = permits })
reply_preparation (prepared p, permits) e office =
    reply_outcome (reserve_gas_and_send_door office p.meta_tx e) permits

-- `processRawTransaction`: the params are what json.Unmarshal makes of them.
unfoldable pub process_raw_transaction :
    Codec → Config → Arrival → Passage → Result (List Key) → House → Option (RpcReply × House)
process_raw_transaction codec config arrival e (err cause) h = some (rpc_error (plain cause), h)
process_raw_transaction codec config arrival e (ok []) h =
    some (rpc_error (plain invalid_params), h)
process_raw_transaction codec config arrival e (ok (raw_tx ∷ rest)) h =
    reply_preparation (prepare_meta_tx codec config arrival raw_tx h.permits) e h.office

-- The body of `POST /relay`, with its alias.
pub record RelayRequest : Type 0 where
  pub raw_tx : Key
  pub signed_transaction : Key

abbrev pub text_or : Key → Key → Key
text_or [] other = other
text_or (c ∷ cs) other = c ∷ cs

unfoldable pub transaction : RelayRequest → Key
transaction request = text_or request.raw_tx request.signed_transaction

-- The detail of an error: that of the rejection, or that the metatx was sent.
pub data RestDetails : Type 0 where
  own_details : Details → RestDetails
  already_sent : RestDetails

abbrev pub is_timeout : Code → Bool
is_timeout receipt_timeout = true
is_timeout _ = false

abbrev pub or_sent : Option Details → Code → Option RestDetails
or_sent (some details) code = some (own_details details)
or_sent none code = if is_timeout code then some already_sent else none

-- `detailsOf`.
unfoldable pub rest_details : Failure → Option RestDetails
rest_details failure = or_sent (details_of failure) (code_of failure)

-- What the REST door answers: 400 for a body it cannot read, 400 with a code, 200, or nothing where the
-- request panics, which net/http recovers.
pub data RestReply : Type 0 where
  bad_request : RestReply
  rest_error : Rejection → Code → Option RestDetails → RestReply
  rest_result : RelayResult → RestReply
  no_answer : RestReply

unfoldable pub rest_status : RestReply → Option ℕ
rest_status bad_request = some 400
rest_status (rest_error r code details) = some 400
rest_status (rest_result result) = some 200
rest_status no_answer = none

unfoldable pub rest_reply : Option (Relayed × House) → Option (RestReply × House)
rest_reply none = none
rest_reply (some (not_relayed r, h)) =
    some (rest_error r (code_of (rejection r)) (rest_details (rejection r)), h)
rest_reply (some (relayed result, h)) = some (rest_result result, h)
rest_reply (some (relay_panics, h)) = some (no_answer, h)

-- `Relay`; none is a body that does not decode.
unfoldable pub relay :
    Codec
    → Config
    → Hub
    → Arrival
    → Passage
    → Aftermath
    → Option RelayRequest
    → House
    → Option (RestReply × House)
relay codec config hub arrival e a none h = some (bad_request, h)
relay codec config hub arrival e a (some request) h =
    let answered =
      rest_reply (relay_and_wait codec config hub arrival e a (transaction request) h) in
    if is_hex_data (transaction request) then answered else some (bad_request, h)
