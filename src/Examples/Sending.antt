-- ===== src/Examples/Sending.antt =====
-- A metatx of nonce 5 that is sent, and one of nonce 7 that is not.
use gas_management.Base.{ℕ, ◌-◌, ◌≡◌, refl, true, false, [], arith, empty_map}
use gas_management.Base.Int.{u64_mod}
use gas_management.Examples.{ann, idle}
use gas_management.Service.Rejection.{ok}
use gas_management.Service.Tracker.Chains.{cached_nonce, chain_locked, live_chain, pending_of}
use gas_management.Service.Reorder.{nonce_is, reorder_enabled, expected_nonce, bad_nonce_rejection}
use gas_management.Service.Send.{
  PreparedMetaTx, Office, gas_limit_is, sent_as, sent, turned_away, increment, verify_gas_limit,
  send_prepared, reserve_gas_and_send, send_in_turn,
}
use gas_management.Service.Send.Ends.{SentRightly, send_in_turn-SentRightly}
use gas_management.Service.Send.Rejects.{LeftAlone, send_in_turn-LeftAlone}
use gas_management.Service.Send.Gas.{verify_gas_limit_wraps}

abbrev office : Office
office = record {
  tracker = idle;
  memory = [];
  tickets = record {
    handouts = empty_map;
    open_tickets = empty_map;
    closed = λ _. false;
    next_ticket = 0;
  };
  gas_used = 100;
}

abbrev meta_tx : ℕ → PreparedMetaTx
meta_tx nonce = record {
  sender = ann;
  nonce = nonce;
  meta_tx_gas_limit = 50;
  req_id = [];
  meta_tx_id = ann;
}

on : reorder_enabled office.tracker.config ≡ true
unfolding reorder_enabled
on = refl

goes_out :
    (send_in_turn office (meta_tx 5) (nonce_is 5) (gas_limit_is 200) (sent_as 7) 0).0 ≡ sent 7
unfolding send_in_turn expected_nonce cached_nonce chain_locked live_chain reserve_gas_and_send
    verify_gas_limit increment send_prepared
goes_out = refl

send_in_turn-SentRightly_example :
    SentRightly
      (expected_nonce office.tracker ann (nonce_is 5) 0).0
      office
      (meta_tx 5)
      (gas_limit_is 200)
      (sent_as 7)
      7
      (send_in_turn office (meta_tx 5) (nonce_is 5) (gas_limit_is 200) (sent_as 7) 0).1
send_in_turn-SentRightly_example =
    send_in_turn-SentRightly office (meta_tx 5) (nonce_is 5) (gas_limit_is 200) (sent_as 7) 0 7 on
      goes_out

is_early :
    (send_in_turn office (meta_tx 7) (nonce_is 5) (gas_limit_is 200) (sent_as 7) 0).0
    ≡ turned_away (bad_nonce_rejection 5 7 0)
unfolding send_in_turn expected_nonce cached_nonce chain_locked live_chain pending_of
    bad_nonce_rejection
is_early = refl

send_in_turn-LeftAlone_example :
    LeftAlone
      (expected_nonce office.tracker ann (nonce_is 5) 0).0
      office
      (meta_tx 7)
      (send_in_turn office (meta_tx 7) (nonce_is 5) (gas_limit_is 200) (sent_as 7) 0).1
send_in_turn-LeftAlone_example =
    send_in_turn-LeftAlone office (meta_tx 7) (nonce_is 5) (gas_limit_is 200) (sent_as 7) 0
      (bad_nonce_rejection 5 7 0) is_early

verify_gas_limit_wraps_example :
    verify_gas_limit 100 (u64_mod - 100) (gas_limit_is 200) ≡ (ok true, 0)
verify_gas_limit_wraps_example = verify_gas_limit_wraps 200 100 (omega arith)
