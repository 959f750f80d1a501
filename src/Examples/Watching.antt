-- ===== src/Examples/Watching.antt =====
-- A browser opens the stream of a bus with nothing in it.
use gas_management.Base.{◌≡◌, refl, true, none, empty_map, [], ◌∷◌}
use gas_management.Events.{new_bus, replay_and_subscribe, subscriber_count, replay, replay_from}
use gas_management.Base.Ids.{contains}
use gas_management.Dashboard.{Beside, streaming, hello, open_stream, send_events, starting_point}
use gas_management.Dashboard.Watchers.{Opened, open_stream-Opened}

-- Nothing happens beside, and the lines are empty.
abbrev beside : Beside
beside = record { no_deadline = none; meanwhile = λ bus. bus; stream_open = λ count. empty_map }

open_stream-Opened_example :
    Opened
      (λ line. true)
      true
      beside
      0
      (new_bus true 2)
      (open_stream (λ line. true) true beside 0 (new_bus true 2))
open_stream-Opened_example = open_stream-Opened (λ line. true) true beside 0 (new_bus true 2)

greeted : (open_stream (λ line. true) true beside 0 (new_bus true 2)).0 ≡ streaming 1 (hello ∷ [])
unfolding open_stream subscriber_count new_bus replay_and_subscribe replay replay_from contains
    send_events
greeted = refl

-- "7"
from_header : starting_point [] (55 ∷ []) ≡ 7
unfolding starting_point
from_header = refl
