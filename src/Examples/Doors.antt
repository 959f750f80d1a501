-- ===== src/Examples/Doors.antt =====
-- A raw transaction of nonce 5 at both doors, and the permission of its sender.
use gas_management.Base.{
  ℕ, ◌≡◌, refl, true, false, Option, none, some, [], ◌∷◌, ◌++◌, Key, empty_map,
}
use gas_management.Base.Int.{pos}
use gas_management.Config.{Config}
use gas_management.Examples.{ann, idle, small_config}
use gas_management.Examples.Receipts.{hub, refusal, first_byte}
use gas_management.Service.Rejection.{ok, err, client_closed}
use gas_management.Service.Permissioning.{
  Permits, AddressText, RulesNode, new_account_rules, rules_from_config, account_permitted, cached,
  cached_or_ask, ask_contract, remember, rules_cache_ttl, resolve_rules, resolve_with,
  resolve_connected, configured_rules_address, ingress_address,
}
use gas_management.Service.Permissioning.Fresh.{
  Reachable, resolves, asks, Grounds, account_permitted-Grounds,
}
use gas_management.Service.Prepare.{Transaction, Codec, Arrival, prepare_meta_tx}
use gas_management.Service.Reorder.{nonce_is}
use gas_management.Service.Send.{Passage, gas_limit_is, sent_as}
use gas_management.Service.Relay.{
  House, Poll, ticked, deadline_passed, Aftermath, wait_for_receipt, wait_timeout, is_hex_data,
  hex_body, trim_prefix, all_digits,
}
use gas_management.Service.Relay.Waits.{EndsBy, last_cause, wait_for_receipt-ends}
use gas_management.Controller.Doors.{RelayRequest, transaction, process_raw_transaction, relay}
use gas_management.Controller.Doors.Agree.{Matches, doors_agree}

abbrev pub tx : ℕ → Transaction
tx nonce = record {
  nonce = nonce;
  gas = 21000;
  gas_price = 0;
  value = 0;
  to = some 9;
  payload = [];
  v = some 27;
  r = some 1;
  s = some 2;
}

abbrev pub codec : Codec
codec = record {
  decode_rlp = λ bytes. tx (first_byte bytes);
  sender_of = λ t. ok 3;
  encode_rlp = λ d. ok (1 ∷ []);
  address_hex = λ address. ann;
}

abbrev pub arrival : Arrival
arrival = record {
  mine = ok 4;
  unix_now = pos 100;
  now = 0;
  later = 1;
  permitted = ok true;
  req_id = [];
  meta_tx_id = ann;
}

abbrev pub permits : Permits
permits = record { rules = some (new_account_rules 8 rules_from_config); node_permitted = none }

-- "0x05"
abbrev raw : Key
raw = 48 ∷ 120 ∷ 48 ∷ 53 ∷ []

abbrev poll : Poll
poll = record { answer = ok none; wake = ticked }

abbrev failing : Poll
failing = record { answer = err client_closed; wake = ticked }

abbrev last_poll : Poll
last_poll = record { answer = ok none; wake = deadline_passed }

wait_for_receipt-ends_example :
    (wait_for_receipt small_config (ok true) (poll ∷ failing ∷ []) ≡ none)
    × EndsBy
        (wait_timeout small_config)
        last_poll
        (last_cause ((poll ∷ failing ∷ []) ++ last_poll ∷ []))
        (wait_for_receipt small_config (ok true) ((poll ∷ failing ∷ []) ++ last_poll ∷ []))
wait_for_receipt-ends_example =
    wait_for_receipt-ends small_config true (poll ∷ failing ∷ []) last_poll []
      ((tt, refl), ((tt, refl), tt))

abbrev pub house : House
house = record {
  office = record {
    tracker = idle;
    memory = [];
    tickets = record {
      handouts = empty_map;
      open_tickets = empty_map;
      closed = λ _. false;
      next_ticket = 0;
    };
    gas_used = 0;
  };
  permits = permits;
}

abbrev pub passage : Passage
passage = record {
  arrives_at = 0;
  before = λ t. t;
  rounds = [];
  between = λ s. s;
  hub = nonce_is 5;
  gas = gas_limit_is 1000000;
  answer = sent_as 7;
  sends_at = 2;
}

abbrev aftermath : Aftermath
aftermath = record {
  meanwhile = λ h. h;
  connects = ok true;
  polls =
      poll
      ∷ record {
        answer = ok (some (record { gas_used = 1; block_number = some 2; logs = refusal }));
        wake = ticked;
      }
      ∷ [];
  ends_at = 3;
}

abbrev request : RelayRequest
request = record { raw_tx = []; signed_transaction = raw }

shaped : is_hex_data raw ≡ true
unfolding is_hex_data hex_body trim_prefix all_digits
shaped = refl

doors_agree_example :
    Matches small_config hub aftermath
      (prepare_meta_tx codec small_config arrival raw permits).0
      (process_raw_transaction codec small_config arrival passage (ok (raw ∷ [])) house)
      (relay codec small_config hub arrival passage aftermath (some request) house)
unfolding transaction
doors_agree_example =
    doors_agree small_config hub aftermath codec arrival passage request [] house shaped

abbrev permissioned : Option Config
permissioned = some (record small_config {
  security = record { permissions_enabled = true; account_contract_address = ann };
})

abbrev addresses : AddressText
addresses = record { is_hex_address = λ _. true; hex_to_address = λ _. 8 }

abbrev contracts : RulesNode
contracts = record {
  connect = ok true;
  has_code = λ _. ok true;
  resolve_account_rules = λ _. err client_closed;
}

-- Account 3 was asked for at time 1.
abbrev asked : Permits
asked = (account_permitted permissioned permits 3 0 1 (ok true)).1

resolved_rules : permits.rules ≡ (resolve_rules addresses permissioned contracts).0
unfolding resolve_rules resolve_with resolve_connected configured_rules_address ingress_address
resolved_rules = refl

asked_before : Reachable permissioned asked (record { account = 3; permitted = true; at = 1 } ∷ [])
unfolding cached
asked_before = asks permits [] 3 0 1 (ok true) (resolves permits addresses contracts resolved_rules)

known : (account_permitted permissioned asked 3 2 2 (err client_closed)).0 ≡ ok true
unfolding account_permitted cached_or_ask ask_contract cached remember rules_cache_ttl
known = refl

account_permitted-Grounds_example :
    Grounds permissioned asked.rules 3 2
      (err client_closed)
      (record { account = 3; permitted = true; at = 1 } ∷ [])
      (account_permitted permissioned asked 3 2 2 (err client_closed)).0
account_permitted-Grounds_example =
    account_permitted-Grounds permissioned asked
      (record { account = 3; permitted = true; at = 1 } ∷ []) 3 2 2 (err client_closed) asked_before
