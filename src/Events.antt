-- ===== src/Events.antt =====
-- events/events.go: the bus that keeps the last events and hands them to who is watching. The mutex
-- makes each operation one step; the goroutine of a subscriber takes one event at a time.
pub mod Ring
pub mod Sends
pub mod Replay
pub mod Watch
pub mod History
pub mod Handover
use gas_management.Base.{
  ℕ, zero, suc, ◌+◌, ◌%◌, Bool, true, false, ◌&&◌, Option, none, some, List, [], ◌∷◌, ◌++◌, Key,
  Map, insert, empty_map, length, ltb, leb, ◌==◌, if◌then◌else◌,
}
use gas_management.Base.Int.{u64, u64_mod}
use gas_management.Base.Ids.{contains, remove}

-- What a field of a line of the log holds; `other` is a value that the bus never looks into.
pub data Value : Type 0 where
  text : Key → Value
  number : ℕ → Value
  other : ℕ → Value

abbrev pub Line : Type 0
Line = Map Value

-- "seq"
abbrev pub seq_key : Key
seq_key = 115 ∷ 101 ∷ 113 ∷ []

pub record Event : Type 0 where
  pub seq : ℕ
  pub line : Line

-- The channel of a subscriber, with the events that its goroutine has passed on to it.
pub record Channel : Type 0 where
  pub buffer : List Event
  pub closed : Bool
  pub notified : List Event

abbrev pub new_channel : Channel
new_channel = record { buffer = []; closed = false; notified = [] }

-- `panicked` records that an event was sent on a closed channel, or one was closed twice.
pub record Bus : Type 0 where
  pub enabled : Bool
  pub capacity : ℕ
  pub ring : ℕ → Event
  pub start : ℕ
  pub size : ℕ
  pub sequence : ℕ
  pub subscribers : List ℕ
  pub next_id : ℕ
  pub channels : ℕ → Channel
  pub panicked : Bool

abbrev pub subscriber_buffer : ℕ
subscriber_buffer = 256

abbrev pub no_event : Event
no_event = record { seq = 0; line = empty_map }

-- A negative capacity counts as 0.
unfoldable pub new_bus : Bool → ℕ → Bus
new_bus enabled capacity = record {
  enabled = enabled && ltb 0 capacity;
  capacity = capacity;
  ring = λ i. no_event;
  start = 0;
  size = 0;
  sequence = 0;
  subscribers = [];
  next_id = 0;
  channels = λ i. new_channel;
  panicked = false;
}

abbrev pub set_slot : ℕ → Event → (ℕ → Event) → ℕ → Event
set_slot i event ring j = if j == i then event else ring j

unfoldable pub retain : Bus → Event → Bus
retain bus event =
    let ring' = set_slot ((bus.start + bus.size) % bus.capacity) event bus.ring in
    if ltb bus.size bus.capacity
    then record bus { ring = ring'; size = bus.size + 1 }
    else record bus { ring = ring'; start = (bus.start + 1) % bus.capacity }

abbrev pub set_channel : ℕ → Channel → (ℕ → Channel) → ℕ → Channel
set_channel id channel channels j = if j == id then channel else channels j

-- The send that does not block: a full buffer drops the event.
abbrev pub offer : Event → Channel → Channel
offer event channel =
    if ltb (length channel.buffer) subscriber_buffer
    then record channel { buffer = channel.buffer ++ event ∷ [] }
    else channel

unfoldable pub send : Bus → Event → ℕ → Bus
send bus event id =
    if (bus.channels id).closed
    then record bus { panicked = true }
    else record bus { channels = set_channel id (offer event (bus.channels id)) bus.channels }

unfoldable pub send_all : List ℕ → Bus → Event → Bus
send_all [] bus event = bus
send_all (id ∷ ids) bus event = send_all ids (send bus event id) event

-- The line is copied, and the copy says its sequence number.
abbrev pub event_of : ℕ → Line → Event
event_of seq line = record { seq = seq; line = insert seq_key (number seq) line }

unfoldable pub publish_locked : Bus → Line → Bus
publish_locked bus line =
    let event = event_of (u64 (bus.sequence + 1)) line in
    send_all bus.subscribers (retain (record bus { sequence = u64 (bus.sequence + 1) }) event) event

unfoldable pub publish : Bus → Line → Bus
publish bus line = if bus.enabled then publish_locked bus line else bus

-- The loop of `replayLocked` with `n` rounds left, at one offset.
unfoldable pub replay_from : Bus → ℕ → ℕ → ℕ → List Event
replay_from bus after zero offset = []
replay_from bus after (suc n) offset =
    let rest = replay_from bus after n (offset + 1) in
    let event = bus.ring ((bus.start + offset) % bus.capacity) in
    if ltb after event.seq then event ∷ rest else rest

unfoldable pub replay : Bus → ℕ → List Event
replay bus after = replay_from bus after bus.size 0

-- ^uint64(0)
abbrev pub no_replay : ℕ
no_replay = 18446744073709551615

abbrev pub retained : Bus → ℕ → List Event
retained bus after = if after == no_replay then [] else replay bus after

-- What is retained, the identity of the subscription, and the bus. A map holds a key once.
unfoldable pub replay_and_subscribe : Bus → ℕ → (List Event × ℕ) × Bus
replay_and_subscribe bus after =
    let id = u64 (bus.next_id + 1) in
    (
      (retained bus after, id),
      record bus {
        next_id = id;
        subscribers =
            if contains id bus.subscribers then bus.subscribers else bus.subscribers ++ id ∷ [];
        channels = set_channel id new_channel bus.channels;
      },
    )

unfoldable pub subscribe : Bus → ℕ × Bus
subscribe bus = let ((_, id), bus') = replay_and_subscribe bus no_replay in (id, bus')

unfoldable pub close_channel : Bus → ℕ → Bus
close_channel bus id =
    if (bus.channels id).closed then record bus { panicked = true } else record bus {
      subscribers = remove id bus.subscribers;
      channels = set_channel id (record (bus.channels id) { closed = true }) bus.channels;
    }

-- The function that ends the subscription `id`; `once` says whether it was called before.
unfoldable pub cancel : Bool → Bus → ℕ → Bus
cancel true bus id = bus
cancel false bus id = if contains id bus.subscribers then close_channel bus id else bus

unfoldable pub subscriber_count : Bus → ℕ
subscriber_count bus = length bus.subscribers

-- The goroutine takes the next event of the buffer, also after the channel was closed. A panic of
-- the subscriber is recovered.
abbrev pub take_event : Channel → List Event → Channel
take_event channel [] = channel
take_event channel (event ∷ rest) = record channel {
  buffer = rest;
  notified = channel.notified ++ event ∷ [];
}

unfoldable pub deliver : Bus → ℕ → Bus
deliver bus id = record bus {
  channels = set_channel id (take_event (bus.channels id) (bus.channels id).buffer) bus.channels;
}

unfoldable pub publish_lines : Bus → List Line → Bus
publish_lines bus [] = bus
publish_lines bus (line ∷ lines) = publish_lines (publish bus line) lines
