-- ===== src/Examples.antt =====
-- The theorems at concrete states of the service, and the states.
mod Reorder
mod Waiting
mod State
mod Settle
mod Bus
mod Suffix
mod Sending
mod Tickets
mod Receipts
mod Results
mod Doors
mod Routing
mod Loading
mod Asking
mod Watching
mod Informing
mod Starting
mod Users
mod Logging
mod Requests
use gas_management.Base.{ℕ, Bool, true, false, Option, some, [], ◌∷◌, Key}
use gas_management.Base.Int.{pos}
use gas_management.Config.{Config}
use gas_management.Service.Tracker.{Tracker, empty_tracker}
use gas_management.Service.Tracker.Registry.{hold}

-- At most two metatx of a user in flight, a window of a second, and both checks of the suffix.
abbrev pub small_config : Config
small_config = record {
  nonce_cache_ttl = pos 300;
  reorder = record {
    enabled = true;
    window_ms = 1000;
    max_inflight_per_user = 2;
    receipt_timeout_ms = 1;
    auto_nonce = false;
    auto_nonce_ticket_ms = 0;
  };
  validation = record {
    enforce_node_address = true;
    enforce_expiration = true;
    min_expiration_seconds = 300;
    expiration_tolerance_seconds = 2;
  };
  security = record { permissions_enabled = true; account_contract_address = [] };
  permissioning = record { account_ingress_address = []; account_rules_cache_ms = 1000 };
}

-- "an"
abbrev pub ann : Key
ann = 97 ∷ 110 ∷ []

abbrev pub idle : Tracker
idle = empty_tracker (some small_config)

-- Entry 0 of nonce 5 and entry 1 of nonce 6 wait.
abbrev pub one_held : Tracker
one_held = (hold idle ann 5).1

abbrev pub two_held : Tracker
two_held = (hold one_held ann 6).1
