-- ===== src/Service/Start.antt =====
-- Init of service/relaySignerService.go: what the service has before its first request, and when it does
-- not start. The public key of a key that crypto.HexToECDSA makes is always one of ECDSA, so the
-- branch for another has no counterpart here.
pub mod Rules
use gas_management.Base.{
  ℕ, ◌-◌, Bool, not, ◌&&◌, ◌||◌, Option, none, some, [], ◌∷◌, Key, length, take, drop, ltb,
  if◌then◌else◌, empty_map,
}
use gas_management.Base.Int.{ℤ, negsuc}
use gas_management.Config.{Config}
use gas_management.Errors.{GoError, new_error, failed_read_env, failed_key_config, invalid_address}
use gas_management.Service.Tracker.{Tracker}
use gas_management.Service.Settle.{Memory}
use gas_management.Service.Permissioning.{AddressText}
use gas_management.Service.Info.{Application}

-- What Init asks of its surroundings: the variable WRITER_KEY, whether crypto.HexToECDSA takes a key,
-- and the address of the hub that the proxy names, if it answers.
pub record Surroundings : Type 0 where
  pub writer_key : Option Key
  pub is_ecdsa_key : Key → Bool
  pub relay_hub_of : Key → Key → Option ℕ

-- What Init sets of the service. Its configuration is the one that the tracker reads.
pub record Starting : Type 0 where
  pub application : Application
  pub key : Key
  pub tracker : Tracker
  pub meta_tx : Memory

-- The texts of the errors.
-- "Environment variable WRITER_KEY not set"
abbrev not_set_text : Key
not_set_text =
    69 ∷ 110 ∷ 118 ∷ 105 ∷ 114 ∷ 111 ∷ 110 ∷ 109 ∷ 101 ∷ 110 ∷ 116 ∷ 32 ∷ 118 ∷ 97 ∷ 114 ∷ 105 ∷ 97
    ∷ 98 ∷ 108 ∷ 101 ∷ 32 ∷ 87 ∷ 82 ∷ 73 ∷ 84 ∷ 69 ∷ 82 ∷ 95 ∷ 75 ∷ 69 ∷ 89 ∷ 32 ∷ 110 ∷ 111 ∷ 116
    ∷ 32 ∷ 115 ∷ 101 ∷ 116 ∷ []

-- "Invalid ECDSA Key"
abbrev invalid_key_text : Key
invalid_key_text =
    73 ∷ 110 ∷ 118 ∷ 97 ∷ 108 ∷ 105 ∷ 100 ∷ 32 ∷ 69 ∷ 67 ∷ 68 ∷ 83 ∷ 65 ∷ 32 ∷ 75 ∷ 101 ∷ 121 ∷ []

-- "Invalid Account Smart Contract Address"
abbrev invalid_rules_text : Key
invalid_rules_text =
    73 ∷ 110 ∷ 118 ∷ 97 ∷ 108 ∷ 105 ∷ 100 ∷ 32 ∷ 65 ∷ 99 ∷ 99 ∷ 111 ∷ 117 ∷ 110 ∷ 116 ∷ 32 ∷ 83
    ∷ 109 ∷ 97 ∷ 114 ∷ 116 ∷ 32 ∷ 67 ∷ 111 ∷ 110 ∷ 116 ∷ 114 ∷ 97 ∷ 99 ∷ 116 ∷ 32 ∷ 65 ∷ 100 ∷ 100
    ∷ 114 ∷ 101 ∷ 115 ∷ 115 ∷ []

-- "Can't get relayHub smart contract address from Proxy"
abbrev no_relay_hub_text : Key
no_relay_hub_text =
    67 ∷ 97 ∷ 110 ∷ 39 ∷ 116 ∷ 32 ∷ 103 ∷ 101 ∷ 116 ∷ 32 ∷ 114 ∷ 101 ∷ 108 ∷ 97 ∷ 121 ∷ 72 ∷ 117
    ∷ 98 ∷ 32 ∷ 115 ∷ 109 ∷ 97 ∷ 114 ∷ 116 ∷ 32 ∷ 99 ∷ 111 ∷ 110 ∷ 116 ∷ 114 ∷ 97 ∷ 99 ∷ 116 ∷ 32
    ∷ 97 ∷ 100 ∷ 100 ∷ 114 ∷ 101 ∷ 115 ∷ 115 ∷ 32 ∷ 102 ∷ 114 ∷ 111 ∷ 109 ∷ 32 ∷ 80 ∷ 114 ∷ 111
    ∷ 120 ∷ 121 ∷ []

-- The error, or none when the service starts, with the service as Init leaves it.
abbrev pub Init : Type 0
Init = Option GoError × Starting

abbrev code_of : ℕ → ℤ
code_of n = negsuc (n - 1)

abbrev pub with_config : Config → Application → Starting → Starting
with_config config application s = record s {
  application = application;
  tracker = record s.tracker { config = some config };
}

-- The key, and the two maps.
abbrev pub with_key : Key → Starting → Starting
with_key key s = record s {
  key = key;
  tracker = record s.tracker { senders = empty_map };
  meta_tx = [];
}

-- `string(key[2:66])`, which panics on a shorter text.
unfoldable pub key_slice : Key → Option Key
key_slice text = if ltb (length text) 66 then none else some (take 64 (drop 2 text))

-- The permissions are asked for, and neither address is written.
unfoldable pub lacks_rules : AddressText → Config → Bool
lacks_rules lib config =
    config.security.permissions_enabled
    && not (lib.is_hex_address config.security.account_contract_address)
    && not (lib.is_hex_address config.permissioning.account_ingress_address)

unfoldable pub hub_answer : Option ℕ → Starting → Init
hub_answer none s = (some (new_error failed_key_config no_relay_hub_text (code_of 32610)), s)
hub_answer (some address) s = (none, s)

-- The field is written also when the proxy does not answer: it is then nil.
unfoldable pub with_relay_hub : Option ℕ → Starting → Init
with_relay_hub hub s =
    hub_answer hub
      (record s { application = record s.application { relay_hub_contract_address = hub } })

unfoldable pub init_key : AddressText → Surroundings → Config → Key → Starting → Init
init_key lib around config key s =
    if not (around.is_ecdsa_key key)
    then (some (new_error failed_key_config invalid_key_text (code_of 32602)), s)
    else (if lacks_rules lib config
        then (some (new_error invalid_address invalid_rules_text (code_of 32608)), with_key key s)
        else with_relay_hub
            (around.relay_hub_of s.application.node_url s.application.contract_address)
            (with_key key s))

unfoldable pub init_slice :
    AddressText → Surroundings → Config → Option Key → Starting → Option Init
init_slice lib around config none s = none
init_slice lib around config (some key) s = some (init_key lib around config key s)

unfoldable pub init_variable :
    AddressText → Surroundings → Config → Option Key → Starting → Option Init
init_variable lib around config none s =
    some (some (new_error failed_read_env not_set_text (code_of 32602)), s)
init_variable lib around config (some text) s = init_slice lib around config (key_slice text) s

-- `Init`. None is a panic.
unfoldable pub init : AddressText → Surroundings → Config → Application → Starting → Option Init
init lib around config application s =
    init_variable lib around config around.writer_key (with_config config application s)
