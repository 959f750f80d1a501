-- ===== src/Controller/Doors/Agree.antt =====
-- processRawTransaction and Relay side by side.
use gas_management.Base.{
  ℕ, ◌≡◌, ◌≢◌, ◌↔◌, refl, sym, ◌∙◌, ◌⊎◌, inl, inr, true, Option, none, some, List, ◌∷◌, Key,
}
use gas_management.Config.{Config}
use gas_management.Service.Rejection.{
  Rejection, Cause, rejection, Result, ok, err, code_of, details_of, reject, receipt_timeout,
}
use gas_management.Service.Tracker.{Tracker}
use gas_management.Service.HubLog.{Hub}
use gas_management.Service.Outcome.{MetaTxOutcome, Warning, read_hub_events}
use gas_management.Service.Outcome.Panics.{Hostile}
use gas_management.Service.Outcome.Executed.{read_hub_events-executed}
use gas_management.Service.Permissioning.{Permits}
use gas_management.Service.Send.{Passage, Outcome, sent, turned_away, Office}
use gas_management.Service.Prepare.{
  Codec, Arrival, Prepared, Preparation, prepared, unprepared, prepare_meta_tx,
}
use gas_management.Service.Relay.{
  House, Aftermath, MinedReceipt, RelayResult, settle_read, relayed_or_panics, after_wait,
  after_send, wait_for_receipt, decode_relay_result, relay_outcome, relay_preparation,
  reserve_gas_and_send_door, relay_and_wait, is_hex_data,
}
use gas_management.Controller.Doors.{
  RpcReply, rpc_error, rpc_hash, reply_outcome, reply_preparation, process_raw_transaction,
  RelayRequest, transaction, RestReply, rest_error, rest_result, no_answer, already_sent,
  rest_details, rest_reply, relay,
}

settle_read-none :
    (x : Option MetaTxOutcome × Tracker × List Warning) (hash : ℕ) (p : Prepared)
    (receipt : MinedReceipt) (now : ℕ) (h : House)
    → ((settle_read x hash p receipt now h).0 ≡ none) ↔ (x.0 ≡ none)
unfolding settle_read
settle_read-none (none, tracker, warnings) hash p receipt now h = (λ e. refl, λ e. refl)
settle_read-none (some outcome, tracker, warnings) hash p receipt now h =
    (λ e. absurd (cc), λ e. absurd (cc))

none_is_not_some : {A : Type 0} {a : A} → none ≢ some a
none_is_not_some e = cc

module _ (config : Config) (hub : Hub) (a : Aftermath) where
  -- What is answered of a metatx that was sent, and the state then: its result, with the receipt that
  -- the wait found, that it was sent and its result is not known, or nothing, of a receipt with a hostile log.
  pub data Answered (hash : ℕ) (p : Prepared) (h : House) : RestReply → House → Type 0 where
    with_result :
        (receipt : MinedReceipt) (result : RelayResult)
        → wait_for_receipt config a.connects a.polls ≡ some (ok receipt)
        → (decode_relay_result hub hash p receipt a.ends_at (a.meanwhile h)).0 ≡ some result
        → ¬ Hostile hub receipt.logs
        → Answered hash p h
            (rest_result result)
            (decode_relay_result hub hash p receipt a.ends_at (a.meanwhile h)).1
    with_panic :
        (receipt : MinedReceipt)
        → wait_for_receipt config a.connects a.polls ≡ some (ok receipt)
        → Hostile hub receipt.logs
        → Answered hash p h no_answer
            (decode_relay_result hub hash p receipt a.ends_at (a.meanwhile h)).1
    without_result :
        (cause : Cause)
        → wait_for_receipt config a.connects a.polls ≡ some (err cause)
        → Answered hash p h
            (rest_error (reject cause receipt_timeout) receipt_timeout (some already_sent))
            (a.meanwhile h)

  -- How what `POST /relay` does stands to what `POST /` does, of a metatx prepared like this.
  abbrev pub Matches : Preparation → Option (RpcReply × House) → Option (RestReply × House) → Type 0
  Matches x none answered = answered ≡ none
  Matches x (some (rpc_error failure, h)) answered =
      (r : Rejection) × (failure ≡ rejection r)
      × (answered ≡ some (rest_error r (code_of failure) (rest_details failure), h))
  Matches x (some (rpc_hash hash, h)) answered =
      ((wait_for_receipt config a.connects a.polls ≡ none) × (answered ≡ none))
      ⊎ ((p : Prepared) × (x ≡ prepared p)
          × (reply : RestReply) × (h' : House) × (answered ≡ some (reply, h'))
          × Answered hash p h reply h')

  decoded-Hostile :
      (receipt : MinedReceipt) (hash : ℕ) (p : Prepared) (h : House)
      → ((decode_relay_result hub hash p receipt a.ends_at h).0 ≡ none) ↔ Hostile hub receipt.logs
  unfolding decode_relay_result
  decoded-Hostile receipt hash p h =
      let x = read_hub_events hub hash (some receipt.logs) h.office.tracker in
      let s = settle_read-none x hash p receipt a.ends_at h in
      let r = (read_hub_events-executed hub hash receipt.logs h.office.tracker).0 in
      (λ e. r.0 (s.0 e), λ e. s.1 (r.1 e))

  decoded-Matches :
      (o : Option RelayResult) (receipt : MinedReceipt) (hash : ℕ) (p : Prepared) (h : House)
      → wait_for_receipt config a.connects a.polls ≡ some (ok receipt)
      → (decode_relay_result hub hash p receipt a.ends_at (a.meanwhile h)).0 ≡ o
      → let h' = (decode_relay_result hub hash p receipt a.ends_at (a.meanwhile h)).1 in
        (reply : RestReply) × (h'' : House) × (rest_reply (some (relayed_or_panics o, h'))
          ≡ some (reply, h''))
        × Answered hash p h reply h''
  unfolding rest_reply
  decoded-Matches none receipt hash p h e d = (
    no_answer,
    _,
    refl,
    with_panic receipt e ((decoded-Hostile receipt hash p (a.meanwhile h)).0 d),
  )
  decoded-Matches (some result) receipt hash p h e d = (
    rest_result result,
    _,
    refl,
    with_result receipt result e d (λ hostile.
        absurd (
          none_is_not_some (sym ((decoded-Hostile receipt hash p (a.meanwhile h)).1 hostile) ∙ d))),
  )

  wait-Matches :
      (w : Option (Result MinedReceipt)) (hash : ℕ) (p : Prepared) (h : House)
      → wait_for_receipt config a.connects a.polls ≡ w
      → Matches
          (prepared p)
          (some (rpc_hash hash, h))
          (rest_reply (after_wait w hub hash p a.ends_at (a.meanwhile h)))
  unfolding rest_reply after_wait rest_details code_of details_of
  wait-Matches none hash p h e = inl (e, refl)
  wait-Matches (some (err cause)) hash p h e =
      inr (p, refl, rest_error _ _ _, a.meanwhile h, refl, without_result cause e)
  wait-Matches (some (ok receipt)) hash p h e =
      let d = decoded-Matches _ receipt hash p h e refl in inr (p, refl, d.0, d.1, d.2, d.3)

  outcome-Matches :
      (o : Option (Outcome × Office)) (p : Prepared) (permits : Permits)
      → Matches
          (prepared p)
          (reply_outcome o permits)
          (rest_reply (relay_outcome o config hub a p permits))
  unfolding reply_outcome relay_outcome after_send rest_reply
  outcome-Matches none p permits = refl
  outcome-Matches (some (turned_away r, office)) p permits = (r, refl, refl)
  outcome-Matches (some (sent hash, office)) p permits =
      wait-Matches (wait_for_receipt config a.connects a.polls) hash p
        (record { office = office; permits = permits }) refl

  preparation-Matches :
      (x : Preparation × Permits) (e : Passage) (office : Office)
      → Matches x.0
          (reply_preparation x e office)
          (rest_reply (relay_preparation x config hub e a office))
  unfolding reply_preparation relay_preparation rest_reply
  preparation-Matches (unprepared r, permits) e office = (r, refl, refl)
  preparation-Matches (prepared p, permits) e office =
      outcome-Matches (reserve_gas_and_send_door office p.meta_tx e) p permits

  -- A raw transaction that has the shape of one, under whichever of its two names, meets the same fate
  -- at both doors, in the same state and surroundings. If `POST /` turns it away, `POST /relay` does
  -- so for the same reason, with the code and the detail of that reason, and leaves the same state. If
  -- `POST /` answers with its hash, `POST /relay` has sent it too, and answers with the result of the
  -- receipt that its wait found, or with RECEIPT_TIMEOUT and that it was sent, and never with
  -- another rejection; it gives no answer exactly if that receipt has a TransactionRelayed of a call
  -- that failed with an output that decodeRevertReason panics on.
  pub doors_agree :
      (codec : Codec) (arrival : Arrival) (e : Passage) (request : RelayRequest) (rest : List Key)
      (h : House)
      → is_hex_data (transaction request) ≡ true
      → Matches
          (prepare_meta_tx codec config arrival (transaction request) h.permits).0
          (process_raw_transaction codec config arrival e (ok (transaction request ∷ rest)) h)
          (relay codec config hub arrival e a (some request) h)
  unfolding process_raw_transaction relay relay_and_wait
  doors_agree codec arrival e request rest h shaped = rw shaped (
      preparation-Matches (prepare_meta_tx codec config arrival (transaction request) h.permits) e
        h.office)
