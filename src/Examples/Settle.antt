-- ===== src/Examples/Settle.antt =====
-- A metatx that was sent and is settled.
use gas_management.Base.{◌≡◌, refl, true, false, some, [], ◌∷◌, ◌++◌}
use gas_management.Examples.{ann, idle}
use gas_management.Service.Settle.{
  MetaTxEntry, Desk, find, settle, expire_one, release_for, relay_settled,
}
use gas_management.Service.Settle.Once.{settle-once}

abbrev sent : MetaTxEntry
sent = record {
  req_id = [];
  meta_tx_id = ann;
  remembered_at = 0;
  sender_key = ann;
  chain = some 0;
  settled = false;
}

abbrev desk : Desk
desk = record { memory = (7, sent) ∷ []; tracker = idle; log = [] }

settle-once_example :
    let u = settle desk 7 false 5 in
    (u.log ≡ desk.log ++ relay_settled 7 ∷ [])
    × (u.tracker ≡ release_for desk.tracker sent.sender_key sent.chain false 5)
    × (settle u 7 true 9 ≡ u)
    × (expire_one u 7 0 9 ≡ u)
unfolding find
settle-once_example = settle-once desk 7 false true 5 9 0 sent refl refl
