-- ===== src/Examples/Receipts.antt =====
-- Receipts of a metatx that the hub refused, and of a deployment that failed in silence.
use gas_management.Base.{
  ℕ, ◌≡◌, ◌↔◌, refl, sym, ◌∙◌, Bool, true, false, Option, none, some, List, [], ◌∷◌, ◌++◌, Key,
  ◌==◌,
}
use gas_management.Examples.{ann, idle}
use gas_management.Service.Tracker.{Tracker}
use gas_management.Service.Tracker.Chains.{reserve_locked, sender_key, to_lower}
use gas_management.Service.HubLog.{
  Log, Hub, loop, log_panics, kind_panics, execution_panics, transaction_relayed_failed,
  bad_transaction_error_code, kind_of,
}
use gas_management.Service.Outcome.{
  MetaTxOutcome, read_hub_events, outcome_of, read_kind, finish, silent_failure,
}
use gas_management.Service.Outcome.Seen.{seen, is_deployed, is_relayed, is_bad}
use gas_management.Service.Outcome.Verdict.{or_else, last_verdict}
use gas_management.Service.Outcome.Executed.{by_default, read_hub_events-executed}
use gas_management.Service.Outcome.Panics.{Hostile, panics, panics_iff, before_panic}
use gas_management.Service.MetaTx.{set_bytes}
use gas_management.Service.MetaTx.Suffix.{word}
use gas_management.Service.Revert.{
  decode_revert_reason, decode_selector, decode_error_string, slice,
}
use gas_management.Service.Outcome.Refused.{
  Refused, refused_here, refused_later, read_hub_events-Refused,
}

pub first_byte : Key → ℕ
first_byte [] = 0
first_byte (b ∷ bytes) = b

pub other_bytes : Key → Key
other_bytes [] = []
other_bytes (b ∷ bytes) = bytes

abbrev pub hub : Hub
hub = record {
  contract_deployed = 1;
  transaction_relay = 2;
  bad_transaction = 3;
  relayed = 4;
  gas_used_by_relay_hub = 5;
  bytes_to_address = λ bytes. bytes;
  address_hex = λ bytes. bytes;
  unpack_transaction_relayed = λ bytes. some (first_byte bytes == 1, other_bytes bytes);
  unpack_bad_transaction = λ bytes. some (first_byte bytes, other_bytes bytes);
}

-- A Relayed, and a BadTransactionSent with code 2 that writes the user as "An".
abbrev pub refusal : List Log
refusal =
    record { topics = 4 ∷ []; bytes = [] }
    ∷ record { topics = 3 ∷ []; bytes = 2 ∷ 65 ∷ 110 ∷ [] }
    ∷ []

abbrev silence : List Log
silence =
    record { topics = []; bytes = [] }
    ∷ record { topics = 4 ∷ []; bytes = [] }
    ∷ record { topics = 5 ∷ []; bytes = [] }
    ∷ []

abbrev pub counted : Tracker
counted = (reserve_locked idle ann 5 true 100).1

read_hub_events-executed_example :
    let outcome = (read_hub_events hub 7 (some refusal) counted).0 in
    ((outcome ≡ none) ↔ Hostile hub refusal)
    × (¬ Hostile hub refusal
        → (o : MetaTxOutcome) × (outcome ≡ some o)
          × (o.executed
              ≡ or_else
                  (last_verdict hub refusal)
                  (by_default (seen is_deployed hub refusal) (seen is_relayed hub refusal)))
          × (o.hub_rejected ≡ seen is_bad hub refusal))
read_hub_events-executed_example = read_hub_events-executed hub 7 refusal counted

read_hub_events-Refused_example :
    let u = (read_hub_events hub 7 (some refusal) counted).1 in
    (Refused hub ann (before_panic hub refusal) → u.senders ann ≡ none)
    × (¬ Refused hub ann (before_panic hub refusal) → u.senders ann ≡ counted.senders ann)
read_hub_events-Refused_example = read_hub_events-Refused hub 7 refusal counted ann

refusal-panics : panics hub refusal ≡ false
unfolding panics log_panics kind_panics kind_of
refusal-panics = refl

pub refusal-calm : ¬ Hostile hub refusal
refusal-calm h =
    let e : (false ≡ true) = sym refusal-panics ∙ (panics_iff hub refusal).1 h in absurd (cc)

refusal-Refused : Refused hub ann refusal
unfolding kind_of bad_transaction_error_code sender_key to_lower first_byte other_bytes
refusal-Refused = refused_later _ _ (refused_here _ _ refl refl)

verdict_refusal : last_verdict hub refusal ≡ some false
unfolding last_verdict kind_of
verdict_refusal = refl

abbrev map_executed : Option MetaTxOutcome → Option (Option Bool)
map_executed none = none
map_executed (some o) = some o.executed

executed_silence : map_executed (read_hub_events hub 7 (some silence) counted).0 ≡ some (some false)
unfolding read_hub_events outcome_of loop log_panics kind_panics read_kind kind_of finish
    silent_failure
executed_silence = refl

-- A TransactionRelayed of a call that failed, whose output is Error(string) with 2^64 - 1 as the length,
-- before the refusal: readHubEvents panics, and the user keeps the chain.
abbrev pub hostile_output : Key
hostile_output = 8 ∷ 195 ∷ 121 ∷ 160 ∷ (word 32 32 ++ word 32 18446744073709551615)

abbrev pub hostile_log : Log
hostile_log = record { topics = 2 ∷ []; bytes = 0 ∷ hostile_output }

hostile_outcome : (read_hub_events hub 7 (some (hostile_log ∷ refusal)) counted).0 ≡ none
unfolding read_hub_events outcome_of loop log_panics kind_panics execution_panics kind_of
    transaction_relayed_failed decode_revert_reason decode_selector decode_error_string slice
    set_bytes word first_byte other_bytes
hostile_outcome = refl

hostile_keeps : before_panic hub (hostile_log ∷ refusal) ≡ []
unfolding before_panic log_panics kind_panics execution_panics kind_of transaction_relayed_failed
    decode_revert_reason decode_selector decode_error_string slice set_bytes word first_byte
    other_bytes
hostile_keeps = refl
