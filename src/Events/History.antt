-- ===== src/Events/History.antt =====
-- Histories of the operations of a bus.
use gas_management.Base.{ℕ, ◌≡◌, Bool, false, List, [], ◌∷◌}
use gas_management.Events.{Line, Bus, new_bus, publish, replay_and_subscribe, cancel, deliver}
use gas_management.Events.Watch.{
  IsBus, new_bus-IsBus, publish-IsBus, replay_and_subscribe-IsBus, cancel-IsBus, deliver-IsBus,
}

-- The operations of the bus, in the order in which they take the mutex.
pub data Operation : Type 0 where
  publish_line : Line → Operation
  subscribe_after : ℕ → Operation
  cancel_id : Bool → ℕ → Operation
  deliver_to : ℕ → Operation

unfoldable pub apply : Bus → Operation → Bus
apply bus (publish_line line) = publish bus line
apply bus (subscribe_after after) = (replay_and_subscribe bus after).1
apply bus (cancel_id once id) = cancel once bus id
apply bus (deliver_to id) = deliver bus id

unfoldable pub apply_all : Bus → List Operation → Bus
apply_all bus [] = bus
apply_all bus (o ∷ os) = apply_all (apply bus o) os

apply-IsBus : (bus : Bus) (o : Operation) → IsBus bus → IsBus (apply bus o)
unfolding apply
apply-IsBus bus (publish_line line) w = publish-IsBus bus line w
apply-IsBus bus (subscribe_after after) w = replay_and_subscribe-IsBus bus after w
apply-IsBus bus (cancel_id once id) w = cancel-IsBus once bus id w
apply-IsBus bus (deliver_to id) w = deliver-IsBus bus id w

pub apply_all-IsBus : (bus : Bus) (os : List Operation) → IsBus bus → IsBus (apply_all bus os)
unfolding apply_all
apply_all-IsBus bus [] w = w
apply_all-IsBus bus (o ∷ os) w = apply_all-IsBus (apply bus o) os (apply-IsBus bus o w)

-- Whatever the operations on a new bus and their order, no event is sent on a closed channel and
-- none is closed twice.
pub apply_all-calm :
    (enabled : Bool) (capacity : ℕ) (os : List Operation)
    → (apply_all (new_bus enabled capacity) os).panicked ≡ false
apply_all-calm enabled capacity os =
    (apply_all-IsBus (new_bus enabled capacity) os (new_bus-IsBus enabled capacity)).calm
