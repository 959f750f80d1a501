-- ===== src/Examples/Asking.antt =====
-- A user who asks for a nonce at both doors, and a node that goes away twice.
use gas_management.Base.{
  ◌≡◌, ◌↔◌, refl, All, true, false, ◌&&◌, not, some, List, [], ◌∷◌, empty_map,
}
use gas_management.Config.{Config, second}
use gas_management.Examples.{ann, small_config}
use gas_management.Service.Rejection.{ok}
use gas_management.Service.Tracker.{empty_tracker}
use gas_management.Service.Tracker.Chains.{sender_key}
use gas_management.Service.Reorder.{nonce_is, no_value, reorder_enabled}
use gas_management.Service.Settle.{in_flight}
use gas_management.Service.Send.{Office, decrement}
use gas_management.Service.Watcher.{mined, settle_in_flight, settle_all}
use gas_management.Examples.Receipts.{hub, refusal, refusal-calm}
use gas_management.Service.Nonce.{
  Asking, CountReads, nonce_of, get_transaction_count, hand_out_nonce, auto_nonce_enabled,
}
use gas_management.Service.Nonce.Agree.{Agree, nonce_of-Agree}
use gas_management.Service.Nonce.Ticket.{Handed, hand_out_nonce-Handed}
use gas_management.Service.Blocks.{
  Head, Cycle, not_connected, not_subscribed, lost, stopped, Plant, initial_backoff, new_head,
  new_heads, process_new_blocks, next_backoff,
}
use gas_management.Service.Blocks.Course.{course, AnyStops, IsWait}
use gas_management.Service.Blocks.Waits.{process_new_blocks-goes_on}

abbrev handing_out : Config
handing_out = record small_config { reorder = record small_config.reorder { auto_nonce = true } }

abbrev office : Office
office = record {
  tracker = empty_tracker (some handing_out);
  memory = [];
  tickets = record {
    handouts = empty_map;
    open_tickets = empty_map;
    closed = λ _. false;
    next_ticket = 0;
  };
  gas_used = 0;
}

abbrev pub asking : Asking
asking = record { meanwhile = λ s. s; hub = nonce_is 6; now = 1 }

abbrev unanswered : Asking
unanswered = record { meanwhile = λ s. s; hub = no_value; now = 1 }

abbrev pub reads : CountReads
reads = record { resolved = true; mine = ok 4; connect = ok true; count = ok 5 }

nonce_of-Agree_example :
    Agree 5
      (nonce_of office ann false reads asking 2)
      (get_transaction_count office ann true reads asking)
nonce_of-Agree_example = nonce_of-Agree office ann 4 5 true asking 2

hand_out_nonce-Handed_example :
    Handed
      (auto_nonce_enabled (some handing_out) && not false)
      (sender_key ann)
      0
      office
      (hand_out_nonce office ann false unanswered)
hand_out_nonce-Handed_example = hand_out_nonce-Handed office ann false unanswered

abbrev head : Head
head = record { receipts = λ hash. mined refusal; now = 3 }

abbrev cycles : List Cycle
cycles =
    not_connected false
    ∷ not_subscribed false
    ∷ lost (head ∷ []) false
    ∷ not_connected false
    ∷ stopped
    ∷ []

abbrev plant : Plant
plant = record {
  hub = hub;
  office = record office { gas_used = 9 };
  log = [];
  warnings = [];
  panicked = false;
}

process_new_blocks-goes_on_example :
    let c = course cycles 0 in
    (process_new_blocks cycles initial_backoff plant
      ≡ ((c.returns, c.waits), new_heads c.heads plant))
    × ((process_new_blocks cycles initial_backoff plant).1.panicked ≡ false)
    × ((c.returns ≡ true) ↔ AnyStops cycles)
    × All IsWait c.waits
process_new_blocks-goes_on_example =
    process_new_blocks-goes_on hub cycles plant (refl, refl)
      (tt, (tt, (((λ hash. refusal-calm), tt), (tt, (tt, tt)))))

waits :
    (process_new_blocks cycles initial_backoff plant).0
    ≡ (true, second ∷ 2000000000 ∷ second ∷ 2000000000 ∷ [])
unfolding process_new_blocks next_backoff new_heads new_head settle_in_flight reorder_enabled
    decrement settle_all in_flight
waits = refl
