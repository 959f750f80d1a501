-- ===== src/Service/Handout/Queue.antt =====
-- The requests of nonces as steps: HandOutNonce, the timer of a ticket, and the path that sends.
use gas_management.Base.{
  ℕ, ◌<◌, ◌≡◌, ◌⊎◌, Bool, true, false, Option, none, some, Key, [], empty_map, ◌==◌, if◌then◌else◌,
}
use gas_management.Service.Handout.{
  Tickets, close_ticket, close_open_ticket, take_place, open_ticket,
}

-- The tickets with, for each request that took a place, its user, the ticket that it waits for, and
-- whether it got its number.
pub record Queue : Type 0 where
  pub tickets : Tickets
  pub owner : ℕ → Key
  pub previous : ℕ → Option ℕ
  pub delivered : ℕ → Bool

abbrev pub empty_queue : Queue
empty_queue = record {
  tickets = record {
    handouts = empty_map;
    open_tickets = empty_map;
    closed = λ _. false;
    next_ticket = 0;
  };
  owner = λ _. [];
  previous = λ _. none;
  delivered = λ _. false;
}

abbrev pub update {ℓ} : {A : Type ℓ} → ℕ → A → (ℕ → A) → ℕ → A
update t a f j = if j == t then a else f j

unfoldable pub asks_for : Queue → Key → Queue
asks_for q key =
    let ((previous, mine), s) = take_place q.tickets key in
    record q {
      tickets = s;
      owner = update mine key q.owner;
      previous = update mine previous q.previous;
    }

-- The ticket that the request waits for is closed, or there is none.
abbrev pub HasTurn : Queue → ℕ → Type 0
HasTurn q t =
    (q.previous t ≡ none) ⊎ ((p : ℕ) × (q.previous t ≡ some p) × (q.tickets.closed p ≡ true))

unfoldable pub gets_number : Queue → ℕ → Queue
gets_number q t = record q {
  tickets = open_ticket q.tickets (q.owner t) t;
  delivered = update t true q.delivered;
}

unfoldable pub closes : Queue → ℕ → Queue
closes q t = record q { tickets = close_ticket q.tickets (q.owner t) t }

unfoldable pub metatx_arrives : Queue → Key → Queue
metatx_arrives q key = record q { tickets = close_open_ticket q.tickets key }

-- Requests of any users, in any order: one asks; in its turn it gets a number, or fails and closes
-- its ticket; a ticket whose number was handed out expires; a metatx arrives.
pub data Step : Queue → Queue → Type 0 where
  asks : (q : Queue) (key : Key) → Step q (asks_for q key)
  answered :
      (q : Queue) (t : ℕ) → t < q.tickets.next_ticket → HasTurn q t → Step q (gets_number q t)
  failed : (q : Queue) (t : ℕ) → t < q.tickets.next_ticket → HasTurn q t → Step q (closes q t)
  expired : (q : Queue) (t : ℕ) → q.delivered t ≡ true → Step q (closes q t)
  arrived : (q : Queue) (key : Key) → Step q (metatx_arrives q key)

pub data Reachable : Queue → Type 0 where
  starts : Reachable empty_queue
  goes : {q r : Queue} → Reachable q → Step q r → Reachable r
