-- ===== src/Service/Permissioning.antt =====
-- service/permissioning.go, and VerifySender of service/relaySignerService.go: the contract of rules,
-- and what is known of each account. An address is the number that its bytes spell. The rules are
-- resolved once, before the first request.
pub mod Fresh
use gas_management.Base.{
  ℕ, ◌+◌, ◌*◌, Bool, true, false, not, ◌&&◌, Option, none, some, List, [], ◌∷◌, ◌++◌, Key, ltb, leb,
  ◌==◌, if◌then◌else◌,
}
use gas_management.Config.{Config, millisecond, default_account_rules_cache_ms}
use gas_management.Service.Rejection.{Cause, Result, ok, err, rules_unresolved}

pub data RulesSource : Type 0 where
  rules_from_config rules_from_ingress : RulesSource

pub record PermissionEntry : Type 0 where
  pub permitted : Bool
  pub expires_at : ℕ

pub record AccountRules : Type 0 where
  pub address : ℕ
  pub source : RulesSource
  pub cache : ℕ → Option PermissionEntry

-- What `rulesMutex` guards.
pub record Permits : Type 0 where
  pub rules : Option AccountRules
  pub node_permitted : Option Bool

-- How the library of the node reads an address from a text.
pub record AddressText : Type 0 where
  pub is_hex_address : Key → Bool
  pub hex_to_address : Key → ℕ

-- What the node answers at the start: the connection, whether an address has code, and the address
-- that the registry gives.
pub record RulesNode : Type 0 where
  pub connect : Result Bool
  pub has_code : ℕ → Result Bool
  pub resolve_account_rules : ℕ → Result ℕ

pub data PermissioningEvent : Type 0 where
  resolve_failed : Cause → PermissioningEvent
  no_code : ℕ → PermissioningEvent
  absent : PermissioningEvent
  resolved : ℕ → RulesSource → PermissioningEvent
  node_check_failed : Cause → PermissioningEvent
  node_not_permitted : ℕ → Option ℕ → PermissioningEvent

abbrev pub is_written : Key → Bool
is_written [] = false
is_written (c ∷ cs) = true

-- `configuredRulesAddress` and `ingressAddress`.
unfoldable pub configured_rules_address : AddressText → Option Config → Option ℕ
configured_rules_address lib none = none
configured_rules_address lib (some config) =
    let text = config.security.account_contract_address in
    if is_written text && lib.is_hex_address text then some (lib.hex_to_address text) else none

unfoldable pub ingress_address : AddressText → Option Config → Option ℕ
ingress_address lib none = none
ingress_address lib (some config) =
    let text = config.permissioning.account_ingress_address in
    if is_written text then some (lib.hex_to_address text) else none

abbrev pub new_account_rules : ℕ → RulesSource → AccountRules
new_account_rules address source = record { address = address; source = source; cache = λ _. none }

abbrev pub Resolved : Type 0
Resolved = Option AccountRules × List PermissioningEvent

-- A configured address without code is kept, with a warning.
unfoldable pub warn_no_code : ℕ → Result Bool → List PermissioningEvent
warn_no_code address (ok false) = no_code address ∷ []
warn_no_code address (ok true) = []
warn_no_code address (err cause) = []

unfoldable pub from_registry : Result ℕ → Resolved
from_registry (err cause) = (none, resolve_failed cause ∷ [])
from_registry (ok address) =
    if address == 0 then (none, []) else (some (new_account_rules address rules_from_ingress), [])

unfoldable pub from_ingress : Result Bool → Result ℕ → Resolved
from_ingress (err cause) registry = (none, resolve_failed cause ∷ [])
from_ingress (ok false) registry = (none, [])
from_ingress (ok true) registry = from_registry registry

-- The part of `resolveRules` after the connection: the configured address comes first.
unfoldable pub resolve_connected : Option ℕ → Option ℕ → RulesNode → Resolved
resolve_connected (some address) ingress node = (
  some (new_account_rules address rules_from_config),
  warn_no_code address (node.has_code address),
)
resolve_connected none (some ingress) node =
    from_ingress (node.has_code ingress) (node.resolve_account_rules ingress)
resolve_connected none none node = (none, [])

unfoldable pub keep_configured : Option ℕ → Option AccountRules
keep_configured none = none
keep_configured (some address) = some (new_account_rules address rules_from_config)

unfoldable pub resolve_with : Option ℕ → Option ℕ → Result Bool → RulesNode → Resolved
resolve_with none none connect node = (none, [])
resolve_with configured ingress (err cause) node =
    (keep_configured configured, resolve_failed cause ∷ [])
resolve_with configured ingress (ok _) node = resolve_connected configured ingress node

-- `resolveRules`.
unfoldable pub resolve_rules : AddressText → Option Config → RulesNode → Resolved
resolve_rules lib config node =
    resolve_with (configured_rules_address lib config) (ingress_address lib config) node.connect
      node

-- `rulesCacheTTL`.
unfoldable pub rules_cache_ttl : Option Config → ℕ
rules_cache_ttl none = default_account_rules_cache_ms * millisecond
rules_cache_ttl (some config) =
    if ltb 0 config.permissioning.account_rules_cache_ms
    then config.permissioning.account_rules_cache_ms * millisecond
    else default_account_rules_cache_ms * millisecond

abbrev pub entry_at : Option PermissionEntry → ℕ → Option Bool
entry_at none now = none
entry_at (some entry) now = if ltb now entry.expires_at then some entry.permitted else none

-- `cached`: what is known of an account, if it is still in force.
unfoldable pub cached : AccountRules → ℕ → ℕ → Option Bool
cached rules account now = entry_at (rules.cache account) now

unfoldable pub remember : AccountRules → ℕ → Bool → ℕ → AccountRules
remember rules account permitted expires_at = record rules {
  cache = λ other.
      if other == account
      then some (record { permitted = permitted; expires_at = expires_at })
      else rules.cache other;
}

abbrev pub permissions_enabled : Option Config → Bool
permissions_enabled none = false
permissions_enabled (some config) = config.security.permissions_enabled

unfoldable pub without_rules : Option Config → Result Bool
without_rules config = if permissions_enabled config then err rules_unresolved else ok true

unfoldable pub ask_contract :
    Option Config → Permits → AccountRules → ℕ → ℕ → Result Bool → Result Bool × Permits
ask_contract config s rules account later (err cause) = (err cause, s)
ask_contract config s rules account later (ok permitted) = (
  ok permitted,
  record s { rules = some (remember rules account permitted (later + rules_cache_ttl config)) },
)

unfoldable pub cached_or_ask :
    Option Bool
    → Option Config
    → Permits
    → AccountRules
    → ℕ
    → ℕ
    → Result Bool
    → Result Bool × Permits
cached_or_ask (some permitted) config s rules account later answer = (ok permitted, s)
cached_or_ask none config s rules account later answer =
    ask_contract config s rules account later answer

abbrev pub permitted_with :
    Option AccountRules → Option Config → Permits → ℕ → ℕ → ℕ → Result Bool → Result Bool × Permits
permitted_with none config s account now later answer = (without_rules config, s)
permitted_with (some rules) config s account now later answer =
    cached_or_ask (cached rules account now) config s rules account later answer

-- `AccountPermitted`: `now` is the clock at the look into the cache, `later` the one after the node
-- has answered, and `answer` what the connection and the contract give.
unfoldable pub account_permitted :
    Option Config → Permits → ℕ → ℕ → ℕ → Result Bool → Result Bool × Permits
account_permitted config s account now later answer =
    permitted_with s.rules config s account now later answer

abbrev pub rules_address : Option AccountRules → Option ℕ
rules_address none = none
rules_address (some rules) = some rules.address

unfoldable pub note_node : ℕ → Result Bool × Permits → Permits × List PermissioningEvent
note_node node (err cause, s) = (s, node_check_failed cause ∷ [])
note_node node (ok true, s) = (record s { node_permitted = some true }, [])
note_node node (ok false, s) =
    (record s { node_permitted = some false }, node_not_permitted node (rules_address s.rules) ∷ [])

-- `checkNodePermitted`.
unfoldable pub check_node_permitted :
    Option Config → Permits → Result ℕ → ℕ → ℕ → Result Bool → Permits × List PermissioningEvent
check_node_permitted config s (err cause) now later answer = (s, [])
check_node_permitted config s (ok node) now later answer =
    note_node node (account_permitted config s node now later answer)

abbrev pub after_resolve :
    Resolved
    → Option Config
    → Permits
    → Result ℕ
    → ℕ
    → ℕ
    → Result Bool
    → Permits × List PermissioningEvent
after_resolve (none, events) config s mine now later answer =
    (record s { rules = none }, events ++ absent ∷ [])
after_resolve (some rules, events) config s mine now later answer =
    let (s', checked) =
      check_node_permitted config (record s { rules = some rules }) mine now later answer in
    (s', events ++ (resolved rules.address rules.source ∷ checked))

-- `ResolveAccountRules`; with the check off nothing is resolved.
unfoldable pub resolve_account_rules :
    AddressText
    → Option Config
    → Permits
    → RulesNode
    → Result ℕ
    → ℕ
    → ℕ
    → Result Bool
    → Permits × List PermissioningEvent
resolve_account_rules lib config s node mine now later answer =
    let done = after_resolve (resolve_rules lib config node) config s mine now later answer in
    if permissions_enabled config then done else (s, [])
