-- ===== src/Service/Info/Effect.antt =====
-- What Info says of the configuration, beside what the service applies.
use gas_management.Base.{ℕ, ◌*◌, ◌<◌, ◌≡◌, ◌↔◌, refl, Bool, true, false, some, arith, if◌then◌else◌}
use gas_management.Config.{ReorderConfig, Config, millisecond}
use gas_management.Service.Rejection.{Result, ok, err}
use gas_management.Service.Permissioning.{Permits}
use gas_management.Service.Reorder.{max_inflight_per_user, reorder_window}
use gas_management.Service.Settle.{receipt_timeout}
use gas_management.Service.Nonce.{ticket_window}
use gas_management.Service.Info.{
  Application, NodeReads, ServiceInfo, ticket_ms_in_effect, configured_info, chain_info,
  with_address, info,
}

-- What is said of a ticket, with the handing out on and off.
abbrev pub SaysTicket : Bool → ReorderConfig → ℕ → ℕ → Type 0
SaysTicket true reorder said applied =
    (said * millisecond ≡ applied) ↔ (0 < reorder.auto_nonce_ticket_ms)
SaysTicket false reorder said applied = said ≡ 0

-- The figures of the configuration are the ones that are applied, exactly where they are not 0.
abbrev pub InEffect : Config → ServiceInfo → Type 0
InEffect config i =
    let reorder = config.reorder in
    ((i.max_inflight_per_user ≡ max_inflight_per_user (some config))
      ↔ (0 < reorder.max_inflight_per_user))
    × ((i.reorder_window_ms * millisecond ≡ reorder_window (some config)) ↔ (0 < reorder.window_ms))
    × ((i.receipt_timeout_ms * millisecond ≡ receipt_timeout (some config))
        ↔ (0 < reorder.receipt_timeout_ms))
    × SaysTicket reorder.auto_nonce reorder i.auto_nonce_ticket_ms (ticket_window (some config))

ticket_window-SaysTicket :
    (auto : Bool) (config : Config)
    → SaysTicket auto config.reorder
        (if auto then config.reorder.auto_nonce_ticket_ms else 0)
        (ticket_window (some config))
unfolding ticket_window
ticket_window-SaysTicket true config = ground arith
ticket_window-SaysTicket false config = refl

configured_info-InEffect :
    (app : Application) (config : Config) (permits : Permits)
    → InEffect config (configured_info app config permits)
unfolding configured_info ticket_ms_in_effect max_inflight_per_user reorder_window receipt_timeout
configured_info-InEffect app config permits = (
  ground arith,
  ground arith,
  ground arith,
  ticket_window-SaysTicket config.reorder.auto_nonce config,
)

with_address-InEffect :
    (config : Config) (mine : Result ℕ) (connect : Result Bool) (r : NodeReads) (i : ServiceInfo)
    → InEffect config i
    → InEffect config (with_address mine connect r i)
unfolding with_address chain_info
with_address-InEffect config (err cause) connect r i h = h
with_address-InEffect config (ok address) (err cause) r i h = h
with_address-InEffect config (ok address) (ok b) r i h = h

-- Whatever the node answers, and also where it does not answer: the cap, the window, the deadline of a
-- receipt and, with the handing out of numbers on, the time of a ticket are said as they are applied
-- exactly if they are not configured as 0, where the default is applied and 0 is said; with the handing
-- out off, a time of 0 is said.
pub info-InEffect :
    (app : Application) (config : Config) (permits : Permits) (r : NodeReads)
    → InEffect config (info app config permits r)
unfolding info
info-InEffect app config permits r =
    with_address-InEffect config r.mine r.connect r (configured_info app config permits)
      (configured_info-InEffect app config permits)
