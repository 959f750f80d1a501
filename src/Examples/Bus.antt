-- ===== src/Examples/Bus.antt =====
-- A bus of two slots.
use gas_management.Base.{◌≡◌, refl, true, false, [], ◌∷◌, ◌++◌, length, arith, empty_map}
use gas_management.Events.{Line, Bus, new_bus, publish_lines, replay, replay_and_subscribe}
use gas_management.Events.Ring.{last, after_seq}
use gas_management.Events.Replay.{numbered, replay-publish_lines}
use gas_management.Events.History.{
  apply_all, publish_line, subscribe_after, cancel_id, deliver_to, apply_all-calm,
}
use gas_management.Events.Handover.{replay_and_subscribe-gapless}

abbrev blank : Line
blank = empty_map

replay-publish_lines_example :
    replay (publish_lines (new_bus true 2) (blank ∷ blank ∷ blank ∷ [])) 2
    ≡ after_seq 2 (last 2 (numbered 0 (blank ∷ blank ∷ blank ∷ [])))
replay-publish_lines_example =
    replay-publish_lines 2 2 (blank ∷ blank ∷ blank ∷ []) (omega arith) (omega arith)

replay_and_subscribe-gapless_example :
    let ((kept, id), bus) =
      replay_and_subscribe (publish_lines (new_bus true 2) (blank ∷ blank ∷ blank ∷ [])) 1 in
    kept ++ ((publish_lines bus (blank ∷ [])).channels id).buffer
    ≡ after_seq 1 (last 2 (numbered 0 (blank ∷ blank ∷ blank ∷ [])))
      ++ numbered (length (blank ∷ blank ∷ blank ∷ [])) (blank ∷ [])
replay_and_subscribe-gapless_example =
    replay_and_subscribe-gapless 2 1 (blank ∷ blank ∷ blank ∷ []) (blank ∷ []) (omega arith)
      (λ e. omega arith) (omega arith) (omega arith)

apply_all-calm_example :
    (apply_all (new_bus true 2) (
      subscribe_after 0
      ∷ publish_line blank
      ∷ cancel_id false 1
      ∷ deliver_to 1
      ∷ cancel_id false 1
      ∷ [])).panicked
    ≡ false
apply_all-calm_example = apply_all-calm true 2 (
    subscribe_after 0
    ∷ publish_line blank
    ∷ cancel_id false 1
    ∷ deliver_to 1
    ∷ cancel_id false 1
    ∷ [])

abbrev watched : Bus
watched = (replay_and_subscribe (new_bus true 2) 0).1

watched_on : watched.enabled ≡ true
unfolding replay_and_subscribe new_bus
watched_on = refl
