-- ===== src/Service/Outcome/Verdict.antt =====
-- The last log of the hub that says whether a metatx was executed.
use gas_management.Base.{
  ℕ, ◌≡◌, refl, sym, ap, ◌∙◌, Bool, true, false, ◌||◌, Option, none, some, List, [], ◌∷◌, Key,
}
use gas_management.Service.Outcome.Seen.{seen, is_transaction, is_bad, or_true, or_false}
use gas_management.Service.HubLog.{
  Log, Hub, Kind, deployed_log, transaction_log, bad_log, relayed_log, gas_log, other_log,
  transaction_relayed_failed, kind_of,
}
use gas_management.Service.Outcome.{MetaTxOutcome, Reading, with_execution, read_kind, read_logs}

abbrev pub or_else : Option Bool → Option Bool → Option Bool
or_else none o = o
or_else (some b) o = some b

-- Whether a log says that the metatx was executed: TransactionRelayed says what the hub says there,
-- BadTransactionSent that it was not, and the others say nothing.
abbrev verdict_of_kind : Hub → Kind → Key → Option Bool
verdict_of_kind hub deployed_log bytes = none
verdict_of_kind hub transaction_log bytes = some (transaction_relayed_failed hub bytes).0
verdict_of_kind hub bad_log bytes = some false
verdict_of_kind hub relayed_log bytes = none
verdict_of_kind hub gas_log bytes = none
verdict_of_kind hub other_log bytes = none

-- The last log that says it counts.
unfoldable pub last_verdict : Hub → List Log → Option Bool
last_verdict hub [] = none
last_verdict hub (l ∷ logs) =
    or_else (last_verdict hub logs) (verdict_of_kind hub (kind_of hub l) l.bytes)

with_execution-executed :
    (v : Bool × Key) (o : MetaTxOutcome) → (with_execution v o).executed ≡ some v.0
with_execution-executed (true, output) o = refl
with_execution-executed (false, output) o = refl

read_kind-executed :
    (hub : Hub) (hash : ℕ) (k : Kind) (bytes : Key) (r : Reading)
    → (read_kind hub hash k bytes r).outcome.executed
      ≡ or_else (verdict_of_kind hub k bytes) r.outcome.executed
unfolding read_kind
read_kind-executed hub hash deployed_log bytes r = refl
read_kind-executed hub hash transaction_log bytes r = with_execution-executed _ _
read_kind-executed hub hash bad_log bytes r = refl
read_kind-executed hub hash relayed_log bytes r = refl
read_kind-executed hub hash gas_log bytes r = refl
read_kind-executed hub hash other_log bytes r = refl

or_else-or_else : (a b c : Option Bool) → or_else a (or_else b c) ≡ or_else (or_else a b) c
or_else-or_else none b c = refl
or_else-or_else (some x) b c = refl

pub read_logs-executed :
    (hub : Hub) (hash : ℕ) (logs : List Log) (r : Reading)
    → (read_logs hub hash logs r).outcome.executed
      ≡ or_else (last_verdict hub logs) r.outcome.executed
unfolding read_logs last_verdict
read_logs-executed hub hash [] r = refl
read_logs-executed hub hash (l ∷ logs) r =
    read_logs-executed hub hash logs (read_kind hub hash (kind_of hub l) l.bytes r)
    ∙ ap (or_else (last_verdict hub logs)) (read_kind-executed hub hash (kind_of hub l) l.bytes r)
    ∙ or_else-or_else (last_verdict hub logs) (verdict_of_kind hub (kind_of hub l) l.bytes)
        r.outcome.executed

abbrev pub said : Option Bool → Bool
said none = false
said (some b) = true

said-or_else : (a b : Option Bool) → said (or_else a b) ≡ said b || said a
said-or_else none b = sym (or_false (said b))
said-or_else (some x) b = sym (or_true (said b))

said-verdict_of_kind :
    (hub : Hub) (k : Kind) (bytes : Key)
    → said (verdict_of_kind hub k bytes) ≡ is_transaction k || is_bad k
said-verdict_of_kind hub deployed_log bytes = refl
said-verdict_of_kind hub transaction_log bytes = refl
said-verdict_of_kind hub bad_log bytes = refl
said-verdict_of_kind hub relayed_log bytes = refl
said-verdict_of_kind hub gas_log bytes = refl
said-verdict_of_kind hub other_log bytes = refl

or_swap : (x y u v : Bool) → (x || y) || (u || v) ≡ (x || u) || (y || v)
or_swap true y u v = refl
or_swap false true true v = refl
or_swap false true false v = refl
or_swap false false u v = refl

pub said-last_verdict :
    (hub : Hub) (logs : List Log)
    → said (last_verdict hub logs) ≡ seen is_transaction hub logs || seen is_bad hub logs
unfolding last_verdict seen
said-last_verdict hub [] = refl
said-last_verdict hub (l ∷ logs) =
    let k = kind_of hub l in
    said-or_else (last_verdict hub logs) (verdict_of_kind hub k l.bytes)
    ∙ ap (λ b. b || said (last_verdict hub logs)) (said-verdict_of_kind hub k l.bytes)
    ∙ ap (λ b. (is_transaction k || is_bad k) || b) (said-last_verdict hub logs)
    ∙ or_swap (is_transaction k) (is_bad k) (seen is_transaction hub logs) (seen is_bad hub logs)
