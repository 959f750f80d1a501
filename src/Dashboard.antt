-- ===== src/Dashboard.antt =====
-- dashboard/dashboard.go: the stream of events that the monitor shows. The look at the count and the
-- subscription are two sections of the bus, and other requests may come in between.
pub mod Watchers
use gas_management.Base.{
  ℕ, Bool, true, false, Option, none, some, List, [], ◌∷◌, ◌++◌, Key, length, ltb, leb,
  if◌then◌else◌, is_empty_text, unsigned_value,
}
use gas_management.Base.Int.{u64_mod}
use gas_management.Events.{
  Event, Line, Bus, subscriber_count, replay_and_subscribe, cancel, publish,
}

abbrev pub max_clients : ℕ
max_clients = 8

abbrev pub stream_buffer : ℕ
stream_buffer = 64

-- `strconv.ParseUint` in 64 bits, of a text without an underscore; 0 where it fails.
abbrev pub uint_or_zero : Option ℕ → ℕ
uint_or_zero none = 0
uint_or_zero (some n) = if ltb n u64_mod then n else 0

-- `startingPoint`, of "after" in the query and of the header Last-Event-ID.
unfoldable pub starting_point : Key → Key → ℕ
starting_point after last_event_id =
    uint_or_zero (unsigned_value (if is_empty_text after then last_event_id else after))

-- What is written to the browser. An event carries its number as its identity.
pub data Frame : Type 0 where
  hello : Frame
  event_frame : Option ℕ → Line → Frame
  heartbeat : Frame

-- `send`: a line that cannot be written is left out.
unfoldable pub send_line : (Line → Bool) → Line → ℕ → List Frame
send_line can_write line seq =
    if can_write line then event_frame (if ltb 0 seq then some seq else none) line ∷ [] else []

unfoldable pub send_events : (Line → Bool) → List Event → List Frame
send_events can_write [] = []
send_events can_write (e ∷ es) = send_line can_write e.line e.seq ++ send_events can_write es

-- How a request for the stream is taken: too many watch, the connection cannot stream, or it is open with
-- its subscription and the frames so far.
pub data Opening : Type 0 where
  full : Opening
  unsupported : Opening
  streaming : ℕ → List Frame → Opening

-- What happens beside: the line of the log where the deadline of the connection cannot be taken off, what
-- other requests do before the subscription, and the line that says that a stream is open and how many
-- watch, which nobody comes in before.
pub record Beside : Type 0 where
  pub no_deadline : Option Line
  pub meanwhile : Bus → Bus
  pub stream_open : ℕ → Line

abbrev pub publish_if : Option Line → Bus → Bus
publish_if none bus = bus
publish_if (some line) bus = publish bus line

-- The bus at the subscription.
abbrev pub at_subscription : Beside → Bus → Bus
at_subscription beside bus = beside.meanwhile (publish_if beside.no_deadline bus)

abbrev pub opened : (Line → Bool) → (ℕ → Line) → (List Event × ℕ) × Bus → Opening × Bus
opened can_write stream_open ((retained, id), bus) = (
  streaming id (hello ∷ send_events can_write retained),
  publish bus (stream_open (subscriber_count bus)),
)

-- `Stream`, up to its loop.
unfoldable pub open_stream : (Line → Bool) → Bool → Beside → ℕ → Bus → Opening × Bus
open_stream can_write flushes beside after bus =
    if leb max_clients (subscriber_count bus)
    then (full, bus)
    else (if flushes
        then opened can_write beside.stream_open
            (replay_and_subscribe (at_subscription beside bus) after)
        else (unsupported, bus))

-- The subscriber passes an event on, unless the stream is behind.
unfoldable pub notify : List Event → Event → List Event
notify stream e = if ltb (length stream) stream_buffer then stream ++ e ∷ [] else stream

-- What wakes the loop, and what it does: the frames that it writes, and the stream.
pub data StreamTurn : Type 0 where
  next_event beat : StreamTurn

unfoldable pub stream_turn : (Line → Bool) → StreamTurn → List Event → List Frame × List Event
stream_turn can_write next_event [] = ([], [])
stream_turn can_write next_event (e ∷ stream) = (send_line can_write e.line e.seq, stream)
stream_turn can_write beat stream = (heartbeat ∷ [], stream)

-- The client is gone: the deferred cancel, which runs once.
unfoldable pub close_stream : Bus → ℕ → Bus
close_stream bus id = cancel false bus id
