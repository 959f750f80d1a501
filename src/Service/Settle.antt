-- ===== src/Service/Settle.antt =====
-- service/correlation.go, service/settle.go, and inFlight and expireOne of service/watcher.go: what is remembered of a metatx
-- that was sent, and who gives its place in flight back. A hash is a number; the map is a list, in
-- the order in which it is ranged over. Each function is one or two sections under `metaTxLock`.
pub mod Once
pub mod Bound
use gas_management.Base.{
  ℕ, ◌+◌, ◌-◌, ◌*◌, Bool, true, false, not, ◌&&◌, Option, none, some, List, [], ◌∷◌, ◌++◌, Key,
  length, ltb, ◌==◌, if◌then◌else◌,
}
use gas_management.Config.{Config, second, millisecond}
use gas_management.Service.Tracker.{Tracker}
use gas_management.Service.Tracker.Chains.{release_chain}

-- 10 minutes, and the number of metatx that are remembered at most.
abbrev pub meta_tx_memory_ttl : ℕ
meta_tx_memory_ttl = 600 * second

abbrev pub meta_tx_memory_max : ℕ
meta_tx_memory_max = 4096

-- `chain` is the chain that the metatx counts on, until its place is given back.
pub record MetaTxEntry : Type 0 where
  pub req_id : Key
  pub meta_tx_id : Key
  pub remembered_at : ℕ
  pub sender_key : Key
  pub chain : Option ℕ
  pub settled : Bool

abbrev pub Memory : Type 0
Memory = List (ℕ × MetaTxEntry)

unfoldable pub find : ℕ → Memory → Option MetaTxEntry
find hash [] = none
find hash ((h, e) ∷ m) = if h == hash then some e else find hash m

unfoldable pub erase : ℕ → Memory → Memory
erase hash [] = []
erase hash ((h, e) ∷ m) = let rest = erase hash m in if h == hash then rest else (h, e) ∷ rest

-- A write through the pointer that the map holds.
unfoldable pub write_entry : ℕ → MetaTxEntry → Memory → Memory
write_entry hash e [] = []
write_entry hash e ((h, d) ∷ m) = (h, if h == hash then e else d) ∷ write_entry hash e m

abbrev pub is_old : ℕ → MetaTxEntry → Bool
is_old now e = ltb meta_tx_memory_ttl (now - e.remembered_at)

unfoldable pub drop_old : ℕ → Memory → Memory
drop_old now [] = []
drop_old now ((h, e) ∷ m) =
    let rest = drop_old now m in if is_old now e then rest else (h, e) ∷ rest

-- The loop that looks for the oldest: the first of the earliest time.
unfoldable pub oldest_from : ℕ → ℕ → Memory → ℕ
oldest_from hash at [] = hash
oldest_from hash at ((h, e) ∷ m) =
    let earlier = oldest_from h e.remembered_at m in
    let same = oldest_from hash at m in if ltb e.remembered_at at then earlier else same

unfoldable pub drop_oldest : Memory → Memory
drop_oldest [] = []
drop_oldest ((h, e) ∷ m) = erase (oldest_from h e.remembered_at m) ((h, e) ∷ m)

unfoldable pub evict_locked : ℕ → Memory → Memory
evict_locked now m =
    let live = drop_old now m in
    if ltb (length live) meta_tx_memory_max then live else drop_oldest live

abbrev pub is_empty : Key → Bool
is_empty [] = true
is_empty (x ∷ xs) = false

abbrev pub is_none : Option ℕ → Bool
is_none none = true
is_none (some id) = false

unfoldable pub remember_meta_tx : Key → Key → ℕ → Key → Option ℕ → ℕ → Memory → Memory
remember_meta_tx req_id meta_tx_id hash sender_key chain now m =
    let e : MetaTxEntry = record {
      req_id = req_id;
      meta_tx_id = meta_tx_id;
      remembered_at = now;
      sender_key = sender_key;
      chain = chain;
      settled = false;
    } in
    if is_empty meta_tx_id && is_none chain then m else (hash, e) ∷ erase hash (evict_locked now m)

recall_entry : Option MetaTxEntry → ℕ → ℕ → Memory → Option MetaTxEntry × Memory
recall_entry none hash now m = (none, m)
recall_entry (some e) hash now m = if is_old now e then (none, erase hash m) else (some e, m)

-- The identities that a line of the log about the metatx carries, if it is still remembered.
unfoldable pub recall_meta_tx : ℕ → ℕ → Memory → Option MetaTxEntry × Memory
unfolding recall_entry
recall_meta_tx hash now m = recall_entry (find hash m) hash now m

unfoldable pub forget_meta_tx : ℕ → Memory → Memory
forget_meta_tx hash m = erase hash m

-- The lines of the log that say how a metatx ended.
pub data SettleEvent : Type 0 where
  relay_settled : ℕ → SettleEvent
  relay_settle_failed : ℕ → SettleEvent

-- What the settling reads and writes.
pub record Desk : Type 0 where
  pub memory : Memory
  pub tracker : Tracker
  pub log : List SettleEvent

claim_entry : Option MetaTxEntry → ℕ → Memory → Bool × Memory
claim_entry none hash m = (true, m)
claim_entry (some e) hash m =
    if e.settled then (false, m) else (true, write_entry hash (record e { settled = true }) m)

unfoldable pub claim_settled : ℕ → Memory → Bool × Memory
unfolding claim_entry
claim_settled hash m = claim_entry (find hash m) hash m

unfoldable pub release_for : Tracker → Key → Option ℕ → Bool → ℕ → Tracker
release_for t key chain rejected now =
    if is_none chain
    then t
    else (if is_empty key then t else (if rejected then t else release_chain t key chain now))

release_found : Option MetaTxEntry → Desk → ℕ → Bool → ℕ → Desk
unfolding release_for
release_found none d hash rejected now = d
release_found (some e) d hash rejected now = record d {
  memory = write_entry hash (record e { chain = none }) d.memory;
  tracker = release_for d.tracker e.sender_key e.chain rejected now;
}

unfoldable pub release_sent : Desk → ℕ → Bool → ℕ → Desk
unfolding release_found
release_sent d hash rejected now = release_found (find hash d.memory) d hash rejected now

-- What follows the claim: the line of the log, and the place is given back.
abbrev pub settled_with : SettleEvent → Bool × Memory → Desk → ℕ → Bool → ℕ → Desk
settled_with line (false, m) d hash rejected now = record d { memory = m }
settled_with line (true, m) d hash rejected now =
    release_sent (record d { memory = m; log = d.log ++ line ∷ [] }) hash rejected now

-- `settle`, when the outcome is known; `rejected` says that the hub refused the metatx.
unfoldable pub settle : Desk → ℕ → Bool → ℕ → Desk
settle d hash rejected now =
    settled_with (relay_settled hash) (claim_settled hash d.memory) d hash rejected now

abbrev pub default_receipt_timeout : ℕ
default_receipt_timeout = 60 * second

unfoldable pub receipt_timeout : Option Config → ℕ
receipt_timeout none = default_receipt_timeout
receipt_timeout (some config) =
    if ltb 0 config.reorder.receipt_timeout_ms
    then config.reorder.receipt_timeout_ms * millisecond
    else default_receipt_timeout

-- `expireOne`: the deadline of one metatx without a result.
unfoldable pub expire_one : Desk → ℕ → ℕ → ℕ → Desk
expire_one d hash sent_at now =
    if ltb (now - sent_at) (receipt_timeout d.tracker.config)
    then d
    else settled_with (relay_settle_failed hash) (claim_settled hash d.memory) d hash false now

abbrev pub is_in_flight : MetaTxEntry → Bool
is_in_flight e = not e.settled && not (is_none e.chain)

-- The metatx that nobody has settled, with the time they were sent at.
unfoldable pub in_flight : Memory → List (ℕ × ℕ)
in_flight [] = []
in_flight ((h, e) ∷ m) =
    let rest = in_flight m in if is_in_flight e then (h, e.remembered_at) ∷ rest else rest
