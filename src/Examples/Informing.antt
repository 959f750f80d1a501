-- ===== src/Examples/Informing.antt =====
-- What is said of the small configuration, with the node away.
use gas_management.Base.{◌≡◌, refl, true, none, []}
use gas_management.Examples.{small_config, ann}
use gas_management.Examples.Doors.{permits}
use gas_management.Service.Rejection.{ok, err, client_closed}
use gas_management.Service.Info.{Application, NodeReads, info, with_address, configured_info}
use gas_management.Service.Info.Effect.{InEffect, info-InEffect}

abbrev pub application : Application
application = record { node_url = ann; contract_address = []; relay_hub_contract_address = none }

abbrev away : NodeReads
away = record {
  mine = ok 4;
  connect = err client_closed;
  chain_id = ok none;
  balance = ok none;
  gas_limit = ok none;
  permitted = ok true;
}

info-InEffect_example : InEffect small_config (info application small_config permits away)
info-InEffect_example = info-InEffect application small_config permits away

said_window : (info application small_config permits away).reorder_window_ms ≡ 1000
unfolding info with_address configured_info
said_window = refl
