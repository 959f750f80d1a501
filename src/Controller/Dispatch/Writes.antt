-- ===== src/Controller/Dispatch/Writes.antt =====
-- How many answers a JSON-RPC request gets.
use gas_management.Base.{
  ℕ, ◌≤◌, ◌<◌, ◌≡◌, ◌↔◌, ◌⊎◌, Bool, true, false, List, [], ◌∷◌, Key, map, length, texts_eq,
  to_upper,
}
use gas_management.Config.{Config}
use gas_management.Service.Rejection.{Result, ok}
use gas_management.Service.Result.Panics.{HostileRead}
use gas_management.Service.Relay.{House}
use gas_management.Controller.Dispatch.{
  pending_text, latest_text, Method, raw_transaction, transaction_receipt, transaction_count,
  meta_tx_result, Written, Handled, panicked, waits_on, wrote, World,
}

-- The first of the params has no two bytes to cut off, or there is none.
abbrev pub IsShort : List Key → Type 0
IsShort [] = Unit
IsShort (p ∷ ps) = length p < 2

-- The params, and the receipts, with which the handler of a method panics.
abbrev pub Breaks : World → Method → Result (List Key) → Type 0
Breaks w transaction_receipt (ok ps) = IsShort ps ⊎ HostileRead w.hub w.receipt
Breaks w transaction_count (ok []) = Unit
Breaks w meta_tx_result (ok (p ∷ ps)) = (length p < 2) ⊎ HostileRead w.hub w.receipt
Breaks w m params = ⊥

-- The params that name a block, but neither "pending" nor "latest".
abbrev pub NamesNoBlock : Method → Result (List Key) → Type 0
NamesNoBlock transaction_count (ok (from ∷ block ∷ ps)) =
    (texts_eq (map to_upper block) pending_text ≡ false)
    × (texts_eq (map to_upper block) latest_text ≡ false)
NamesNoBlock m params = ⊥

abbrev pub is_panic : Handled → Bool
is_panic (panicked h) = true
is_panic waits_on = false
is_panic (wrote ws h) = false

-- When a request panics, when it writes two answers, and what waits on.
abbrev pub Answered : Type 0 → Type 0 → Type 0 → Handled → Type 0
Answered breaks twice may_wait r =
    ((is_panic r ≡ true) ↔ breaks)
    × ((r ≡ waits_on) → may_wait)
    × ((ws : List Written) (h : House)
        → r ≡ wrote ws h
        → ((length ws ≡ 2) ↔ twice) × (1 ≤ length ws) × (length ws ≤ 2))

abbrev count_of : Handled → ℕ
count_of (panicked h) = 0
count_of waits_on = 0
count_of (wrote ws h) = length ws

abbrev Says : World → Method → Result (List Key) → Handled → Type 0
Says w m params r = Answered (Breaks w m params) (NamesNoBlock m params) (m ≡ raw_transaction) r
