-- ===== src/Service/Nonce/Ticket.antt =====
-- What becomes of the ticket of a request for a number.
use gas_management.Base.{
  ℕ, ◌≡◌, refl, Bool, true, false, not, ◌&&◌, ◌||◌, Option, some, Key, arith, lookup-insert_self,
  lookup-delete_self, if◌then◌else◌, ==_refl,
}
use gas_management.Service.Rejection.{Result, ok, err}
use gas_management.Service.Tracker.Chains.{sender_key}
use gas_management.Service.Handout.{
  Tickets, close_ticket, delete_ticket, is_ticket, open_ticket, take_place,
}
use gas_management.Service.Send.{Office}
use gas_management.Service.Nonce.{
  Asking, auto_nonce_enabled, expected_in, with_ticket, take_and_read, hand_out_nonce,
}

-- The ticket is in neither map of the user.
abbrev pub IsGone : Key → ℕ → Tickets → Type 0
IsGone key ticket s =
    (is_ticket (s.handouts key) ticket ≡ false) × (is_ticket (s.open_tickets key) ticket ≡ false)

-- What is left of the ticket, by the answer: with a number it is the one that waits for its metatx, and
-- without one it is closed and gone.
abbrev pub Ticketed : Key → ℕ → Result ℕ × Office → Type 0
Ticketed key mine (ok nonce, s) = s.tickets.open_tickets key ≡ some mine
Ticketed key mine (err cause, s) = (s.tickets.closed mine ≡ true) × IsGone key mine s.tickets

delete_ticket-gone :
    (key : Key) (ticket : ℕ) (m : Key → Option ℕ)
    → is_ticket (delete_ticket key ticket m key) ticket ≡ false
delete_ticket-gone key ticket m = ground (arith, lookup-delete_self key m)

with_ticket-Ticketed :
    (key : Key) (mine : ℕ) (r : Result ℕ × Office) → Ticketed key mine (with_ticket key mine r)
unfolding with_ticket close_ticket open_ticket
with_ticket-Ticketed key mine (ok nonce, s) = lookup-insert_self key mine s.tickets.open_tickets
with_ticket-Ticketed key mine (err cause, s) = (
  rw (==_refl mine) refl,
  (
    delete_ticket-gone key mine s.tickets.handouts,
    delete_ticket-gone key mine s.tickets.open_tickets,
  ),
)

abbrev pub Handed : Bool → Key → ℕ → Office → Result ℕ × Office → Type 0
Handed true key mine s r = Ticketed key mine r
Handed false key mine s r = r.1.tickets ≡ s.tickets

Handed-if :
    (on peek : Bool) (key : Key) (mine : ℕ) (s : Office) (reading taking : Result ℕ × Office)
    → reading.1.tickets ≡ s.tickets
    → Ticketed key mine taking
    → Handed (on && not peek) key mine s (if not on || peek then reading else taking)
Handed-if true true key mine s reading taking h k = h
Handed-if true false key mine s reading taking h k = k
Handed-if false true key mine s reading taking h k = h
Handed-if false false key mine s reading taking h k = h

-- A request for a number takes a ticket exactly if the handing out is on and it does not only look:
-- whatever happens while it waits, with a number its ticket is the one that waits for the metatx of the
-- user, and without one the ticket is closed and in no map, so that nobody waits for it. Otherwise the
-- tickets stay as they are.
pub hand_out_nonce-Handed :
    (s : Office) (from : Key) (peek : Bool) (e : Asking)
    → Handed
        (auto_nonce_enabled s.tracker.config && not peek)
        (sender_key from)
        s.tickets.next_ticket
        s
        (hand_out_nonce s from peek e)
unfolding hand_out_nonce take_and_read take_place expected_in
hand_out_nonce-Handed s from peek e =
    Handed-if (auto_nonce_enabled s.tracker.config) peek (sender_key from) s.tickets.next_ticket s
      (expected_in s from e) (take_and_read s from e) refl
      (with_ticket-Ticketed (sender_key from) s.tickets.next_ticket _)
