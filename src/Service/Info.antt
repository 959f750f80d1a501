-- ===== src/Service/Info.antt =====
-- Info of service/info.go: what `GET /info` says of the configuration and of the node.
pub mod Effect
use gas_management.Base.{
  ℕ, Bool, true, false, Option, none, some, Key, if◌then◌else◌, is_empty_text,
}
use gas_management.Config.{ReorderConfig, Config}
use gas_management.Service.Rejection.{Cause, Result, ok, err}
use gas_management.Service.Permissioning.{RulesSource, AccountRules, Permits, rules_address}

-- The block [application], with the address of the hub that was resolved.
pub record Application : Type 0 where
  pub node_url : Key
  pub contract_address : Key
  pub relay_hub_contract_address : Option ℕ

-- What the node answers. A number that it gives may be missing.
pub record NodeReads : Type 0 where
  pub mine : Result ℕ
  pub connect : Result Bool
  pub chain_id : Result (Option ℕ)
  pub balance : Result (Option ℕ)
  pub gas_limit : Result (Option ℕ)
  pub permitted : Result Bool

-- Where the address of the hub is said to come from.
pub data HubSource : Type 0 where
  source_proxy source_config : HubSource

pub record ServiceInfo : Type 0 where
  pub node_address : Option ℕ
  pub relay_hub_address : Option ℕ
  pub relay_hub_source : HubSource
  pub relay_hub_proxy_address : Option Key
  pub chain_id : Option ℕ
  pub rpc_url : Key
  pub node_balance : Option ℕ
  pub current_gas_limit : Option ℕ
  pub account_rules_address : Option ℕ
  pub account_rules_source : Option RulesSource
  pub node_permitted : Option Bool
  pub enforce_account_rules : Bool
  pub min_expiration_seconds : ℕ
  pub expiration_tolerance_seconds : ℕ
  pub reorder_enabled : Bool
  pub reorder_window_ms : ℕ
  pub max_inflight_per_user : ℕ
  pub receipt_timeout_ms : ℕ
  pub auto_nonce : Bool
  pub auto_nonce_ticket_ms : ℕ

unfoldable pub ticket_ms_in_effect : ReorderConfig → ℕ
ticket_ms_in_effect reorder = if reorder.auto_nonce then reorder.auto_nonce_ticket_ms else 0

abbrev pub rules_source : Option AccountRules → Option RulesSource
rules_source none = none
rules_source (some rules) = some rules.source

abbrev pub written : Key → Option Key
written address = if is_empty_text address then none else some address

-- What does not come from the chain.
unfoldable pub configured_info : Application → Config → Permits → ServiceInfo
configured_info app config permits =
    let v = config.validation in
    record {
      node_address = none;
      relay_hub_address = app.relay_hub_contract_address;
      relay_hub_source = source_proxy;
      relay_hub_proxy_address = written app.contract_address;
      chain_id = none;
      rpc_url = app.node_url;
      node_balance = none;
      current_gas_limit = none;
      account_rules_address = rules_address permits.rules;
      account_rules_source = rules_source permits.rules;
      node_permitted = permits.node_permitted;
      enforce_account_rules = config.security.permissions_enabled;
      min_expiration_seconds = if v.enforce_expiration then v.min_expiration_seconds else 0;
      expiration_tolerance_seconds =
          if v.enforce_expiration then v.expiration_tolerance_seconds else 0;
      reorder_enabled = config.reorder.enabled;
      reorder_window_ms = config.reorder.window_ms;
      max_inflight_per_user = config.reorder.max_inflight_per_user;
      receipt_timeout_ms = config.reorder.receipt_timeout_ms;
      auto_nonce = config.reorder.auto_nonce;
      auto_nonce_ticket_ms = ticket_ms_in_effect config.reorder;
    }

abbrev pub number_of : Result (Option ℕ) → Option ℕ
number_of (err cause) = none
number_of (ok n) = n

abbrev pub if_known {ℓ} : {A B : Type ℓ} → Option A → Option B → Option B → Option B
if_known none known rest = rest
if_known (some a) known rest = known

abbrev pub permitted_or : Result Bool → Option Bool → Option Bool
permitted_or (err cause) before = before
permitted_or (ok permitted) before = some permitted

-- After the connection: each read by itself.
unfoldable pub chain_info : NodeReads → ServiceInfo → ServiceInfo
chain_info r i = record i {
  chain_id = number_of r.chain_id;
  node_balance = number_of r.balance;
  current_gas_limit = if_known i.relay_hub_address (number_of r.gas_limit) none;
  node_permitted =
      if_known i.account_rules_address (permitted_or r.permitted i.node_permitted) i.node_permitted;
}

unfoldable pub with_address : Result ℕ → Result Bool → NodeReads → ServiceInfo → ServiceInfo
with_address (err cause) connect r i = i
with_address (ok address) (err cause) r i = record i { node_address = some address }
with_address (ok address) (ok b) r i = chain_info r (record i { node_address = some address })

-- `Info`.
unfoldable pub info : Application → Config → Permits → NodeReads → ServiceInfo
info app config permits r = with_address r.mine r.connect r (configured_info app config permits)
