-- ===== src/Service/Outcome/Seen.antt =====
-- Which kinds of logs a receipt has, and the variables of the loop that say so.
use gas_management.Base.{ℕ, ◌≡◌, refl, sym, ap, ◌∙◌, Bool, true, false, ◌||◌, List, [], ◌∷◌, Key}
use gas_management.Service.HubLog.{
  Log, Hub, Kind, deployed_log, transaction_log, bad_log, relayed_log, gas_log, other_log, kind_of,
}
use gas_management.Service.Outcome.{MetaTxOutcome, Reading, with_execution, read_kind, read_logs}

unfoldable pub seen : (Kind → Bool) → Hub → List Log → Bool
seen p hub [] = false
seen p hub (l ∷ logs) = p (kind_of hub l) || seen p hub logs

abbrev pub is_deployed : Kind → Bool
is_deployed deployed_log = true
is_deployed transaction_log = false
is_deployed bad_log = false
is_deployed relayed_log = false
is_deployed gas_log = false
is_deployed other_log = false

abbrev pub is_transaction : Kind → Bool
is_transaction deployed_log = false
is_transaction transaction_log = true
is_transaction bad_log = false
is_transaction relayed_log = false
is_transaction gas_log = false
is_transaction other_log = false

abbrev pub is_bad : Kind → Bool
is_bad deployed_log = false
is_bad transaction_log = false
is_bad bad_log = true
is_bad relayed_log = false
is_bad gas_log = false
is_bad other_log = false

abbrev pub is_relayed : Kind → Bool
is_relayed deployed_log = false
is_relayed transaction_log = false
is_relayed bad_log = false
is_relayed relayed_log = true
is_relayed gas_log = false
is_relayed other_log = false

pub or_assoc : (a b c : Bool) → (a || b) || c ≡ a || (b || c)
or_assoc true b c = refl
or_assoc false b c = refl

pub or_comm : (a b : Bool) → a || b ≡ b || a
or_comm true true = refl
or_comm true false = refl
or_comm false true = refl
or_comm false false = refl

pub or_true : (a : Bool) → a || true ≡ true
or_true true = refl
or_true false = refl

pub or_false : (a : Bool) → a || false ≡ a
or_false true = refl
or_false false = refl

-- A variable that one kind of log sets.
pub read_logs-flag :
    (flag : Reading → Bool) (p : Kind → Bool) (hub : Hub) (hash : ℕ)
    → ((k : Kind) (bytes : Key) (r : Reading) → flag (read_kind hub hash k bytes r) ≡ flag r || p k)
    → (logs : List Log) (r : Reading) → flag (read_logs hub hash logs r) ≡ flag r || seen p hub logs
unfolding read_logs seen
read_logs-flag flag p hub hash one [] r = sym (or_false (flag r))
read_logs-flag flag p hub hash one (l ∷ logs) r =
    read_logs-flag flag p hub hash one logs (read_kind hub hash (kind_of hub l) l.bytes r)
    ∙ ap (λ b. b || seen p hub logs) (one (kind_of hub l) l.bytes r)
    ∙ or_assoc (flag r) (p (kind_of hub l)) (seen p hub logs)

pub read_kind-deployed :
    (hub : Hub) (hash : ℕ) (k : Kind) (bytes : Key) (r : Reading)
    → (read_kind hub hash k bytes r).saw_contract_deployed
      ≡ r.saw_contract_deployed || is_deployed k
unfolding read_kind
read_kind-deployed hub hash deployed_log bytes r = sym (or_true _)
read_kind-deployed hub hash transaction_log bytes r = sym (or_false _)
read_kind-deployed hub hash bad_log bytes r = sym (or_false _)
read_kind-deployed hub hash relayed_log bytes r = sym (or_false _)
read_kind-deployed hub hash gas_log bytes r = sym (or_false _)
read_kind-deployed hub hash other_log bytes r = sym (or_false _)

pub read_kind-transaction :
    (hub : Hub) (hash : ℕ) (k : Kind) (bytes : Key) (r : Reading)
    → (read_kind hub hash k bytes r).saw_transaction_relayed
      ≡ r.saw_transaction_relayed || is_transaction k
unfolding read_kind
read_kind-transaction hub hash deployed_log bytes r = sym (or_false _)
read_kind-transaction hub hash transaction_log bytes r = sym (or_true _)
read_kind-transaction hub hash bad_log bytes r = sym (or_false _)
read_kind-transaction hub hash relayed_log bytes r = sym (or_false _)
read_kind-transaction hub hash gas_log bytes r = sym (or_false _)
read_kind-transaction hub hash other_log bytes r = sym (or_false _)

pub read_kind-bad :
    (hub : Hub) (hash : ℕ) (k : Kind) (bytes : Key) (r : Reading)
    → (read_kind hub hash k bytes r).saw_bad_transaction ≡ r.saw_bad_transaction || is_bad k
unfolding read_kind
read_kind-bad hub hash deployed_log bytes r = sym (or_false _)
read_kind-bad hub hash transaction_log bytes r = sym (or_false _)
read_kind-bad hub hash bad_log bytes r = sym (or_true _)
read_kind-bad hub hash relayed_log bytes r = sym (or_false _)
read_kind-bad hub hash gas_log bytes r = sym (or_false _)
read_kind-bad hub hash other_log bytes r = sym (or_false _)

pub read_kind-relayed :
    (hub : Hub) (hash : ℕ) (k : Kind) (bytes : Key) (r : Reading)
    → (read_kind hub hash k bytes r).saw_relayed ≡ r.saw_relayed || is_relayed k
unfolding read_kind
read_kind-relayed hub hash deployed_log bytes r = sym (or_false _)
read_kind-relayed hub hash transaction_log bytes r = sym (or_false _)
read_kind-relayed hub hash bad_log bytes r = sym (or_false _)
read_kind-relayed hub hash relayed_log bytes r = sym (or_true _)
read_kind-relayed hub hash gas_log bytes r = sym (or_false _)
read_kind-relayed hub hash other_log bytes r = sym (or_false _)

with_execution-hub_rejected :
    (v : Bool × Key) (o : MetaTxOutcome) → (with_execution v o).hub_rejected ≡ o.hub_rejected
with_execution-hub_rejected (true, output) o = refl
with_execution-hub_rejected (false, output) o = refl

pub read_kind-hub_rejected :
    (hub : Hub) (hash : ℕ) (k : Kind) (bytes : Key) (r : Reading)
    → (read_kind hub hash k bytes r).outcome.hub_rejected ≡ r.outcome.hub_rejected || is_bad k
unfolding read_kind
read_kind-hub_rejected hub hash deployed_log bytes r = sym (or_false _)
read_kind-hub_rejected hub hash transaction_log bytes r =
    with_execution-hub_rejected _ _ ∙ sym (or_false _)
read_kind-hub_rejected hub hash bad_log bytes r = sym (or_true _)
read_kind-hub_rejected hub hash relayed_log bytes r = sym (or_false _)
read_kind-hub_rejected hub hash gas_log bytes r = sym (or_false _)
read_kind-hub_rejected hub hash other_log bytes r = sym (or_false _)
