-- ===== src/Examples/Tickets.antt =====
-- A user asks for a nonce, gets it, and asks again.
use gas_management.Base.{◌<◌, ◌≡◌, refl, inl, inr, true, none, some, arith, insert, Key-discrete}
use gas_management.Examples.{ann}
use gas_management.Service.Handout.{take_place, open_ticket, close_open_ticket, close_ticket}
use gas_management.Service.Handout.Queue.{
  Queue, Reachable, starts, goes, asks, answered, empty_queue, asks_for, gets_number,
  metatx_arrives, arrived,
}
use gas_management.Service.Handout.Serial.{earlier_closed}

abbrev asked : Queue
asked = asks_for empty_queue ann

-- The metatx of the first number has come.
abbrev used : Queue
used = metatx_arrives (asks_for (gets_number asked 0) ann) ann

abbrev answered_twice : Queue
answered_twice = gets_number used 1

first_turn : (0 < asked.tickets.next_ticket) × (asked.previous 0 ≡ none)
unfolding asks_for take_place
first_turn = (omega arith, refl)

second_turn :
    (1 < used.tickets.next_ticket)
    × (used.previous 1 ≡ some 0)
    × (used.tickets.closed 0 ≡ true)
    × (used.owner 0 ≡ used.owner 1)
unfolding asks_for gets_number take_place open_ticket metatx_arrives close_open_ticket close_ticket
    insert Key-discrete
second_turn = (omega arith, refl, refl, refl)

answered_twice_is : Reachable answered_twice
answered_twice_is =
    goes
      (goes
        (goes
          (goes (goes starts (asks empty_queue ann))
            (answered asked 0 first_turn.0 (inl first_turn.1)))
          (asks (gets_number asked 0) ann))
        (arrived (asks_for (gets_number asked 0) ann) ann))
      (answered used 1 second_turn.0 (inr (0, second_turn.1, second_turn.2)))

delivered_one : answered_twice.delivered 1 ≡ true
unfolding gets_number
delivered_one = refl

same_owner : answered_twice.owner 0 ≡ answered_twice.owner 1
unfolding gets_number
same_owner = second_turn.3

earlier_closed_example : answered_twice.tickets.closed 0 ≡ true
earlier_closed_example =
    earlier_closed answered_twice 0 1 answered_twice_is same_owner (omega arith) delivered_one
