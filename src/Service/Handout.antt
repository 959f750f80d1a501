-- ===== src/Service/Handout.antt =====
-- service/handout.go: the tickets of the nonces that were handed out. A ticket is a number; each
-- function is one section under `handoutsMutex`, after the close of the ticket's channel.
pub mod Queue
pub mod Alone
pub mod Serial
use gas_management.Base.{
  ℕ, ◌+◌, Bool, true, false, Option, none, some, Key, Map, insert, delete, ◌==◌, if◌then◌else◌,
}

pub record Tickets : Type 0 where
  pub handouts : Map ℕ
  pub open_tickets : Map ℕ
  pub closed : ℕ → Bool
  pub next_ticket : ℕ

abbrev pub is_ticket : Option ℕ → ℕ → Bool
is_ticket none ticket = false
is_ticket (some other) ticket = other == ticket

abbrev pub delete_ticket : Key → ℕ → Map ℕ → Map ℕ
delete_ticket key ticket m = if is_ticket (m key) ticket then delete key m else m

-- `close` closes the channel once, however often it is called.
unfoldable pub close_ticket : Tickets → Key → ℕ → Tickets
close_ticket s key ticket = record s {
  closed = λ j. if j == ticket then true else s.closed j;
  handouts = delete_ticket key ticket s.handouts;
  open_tickets = delete_ticket key ticket s.open_tickets;
}

abbrev pub close_found : Tickets → Key → Option ℕ → Tickets
close_found s key none = s
close_found s key (some ticket) = close_ticket s key ticket

unfoldable pub close_open_ticket : Tickets → Key → Tickets
close_open_ticket s key = close_found s key (s.open_tickets key)

-- A request takes its place in the queue of its user: the ticket that it has to wait for, and its
-- own.
unfoldable pub take_place : Tickets → Key → (Option ℕ × ℕ) × Tickets
take_place s key = (
  (s.handouts key, s.next_ticket),
  record s { handouts = insert key s.next_ticket s.handouts; next_ticket = s.next_ticket + 1 },
)

-- After the wait, with the expected nonce at hand: the ticket is the one that waits for its metatx.
unfoldable pub open_ticket : Tickets → Key → ℕ → Tickets
open_ticket s key ticket = record s { open_tickets = insert key ticket s.open_tickets }
