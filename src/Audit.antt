-- ===== src/Audit.antt =====
-- audit/structured.go: one line for each event, which goes to the bus, and to the console by its level.
-- Whether encoding/json can write a line is a parameter; the text of its error is not modelled.
pub mod Flatten
pub mod OneLine
use gas_management.Base.{
  ℕ, Bool, true, false, Option, none, some, List, [], ◌∷◌, ◌++◌, Key, empty_map, insert, map, ltb,
  if◌then◌else◌, is_empty_text, texts_eq, trim_space,
}
use gas_management.Config.{LogLevel, debug_level, info_level, warn_level, error_level}
use gas_management.Loader.{level_of}
use gas_management.Service.Tracker.Chains.{to_lower}
use gas_management.Events.{Value, text, other, Line, Bus, publish}

abbrev pub ts_key : Key
ts_key = b't' ∷ b's' ∷ []

abbrev pub level_key : Key
level_key = b'l' ∷ b'e' ∷ b'v' ∷ b'e' ∷ b'l' ∷ []

abbrev pub event_key : Key
event_key = b'e' ∷ b'v' ∷ b'e' ∷ b'n' ∷ b't' ∷ []

abbrev pub instance_key : Key
instance_key = b'i' ∷ b'n' ∷ b's' ∷ b't' ∷ b'a' ∷ b'n' ∷ b'c' ∷ b'e' ∷ b'I' ∷ b'd' ∷ []

abbrev pub req_id_key : Key
req_id_key = b'r' ∷ b'e' ∷ b'q' ∷ b'I' ∷ b'd' ∷ []

abbrev pub meta_tx_id_key : Key
meta_tx_id_key = b'm' ∷ b'e' ∷ b't' ∷ b'a' ∷ b'T' ∷ b'x' ∷ b'I' ∷ b'd' ∷ []

abbrev pub log_error_key : Key
log_error_key = b'l' ∷ b'o' ∷ b'g' ∷ b'E' ∷ b'r' ∷ b'r' ∷ b'o' ∷ b'r' ∷ []

abbrev pub severity : LogLevel → ℕ
severity debug_level = 10
severity info_level = 20
severity warn_level = 30
severity error_level = 40

abbrev pub level_text : LogLevel → Key
level_text debug_level = b'd' ∷ b'e' ∷ b'b' ∷ b'u' ∷ b'g' ∷ []
level_text info_level = b'i' ∷ b'n' ∷ b'f' ∷ b'o' ∷ []
level_text warn_level = b'w' ∷ b'a' ∷ b'r' ∷ b'n' ∷ []
level_text error_level = b'e' ∷ b'r' ∷ b'r' ∷ b'o' ∷ b'r' ∷ []

abbrev pub severity_or : Option LogLevel → ℕ → ℕ
severity_or none configured = configured
severity_or (some level) configured = severity level

-- `InitStructured`: a level that is not known leaves the one before.
unfoldable pub init_structured : Key → ℕ → ℕ
init_structured level configured =
    severity_or (level_of (map to_lower (trim_space level))) configured

-- A call of emit, with what the clock and the context give. An identity that the context does not
-- carry is the empty text.
pub record Emission : Type 0 where
  pub level : LogLevel
  pub event : Key
  pub ts : Key
  pub req_id : Key
  pub meta_tx_id : Key
  pub fields : Line

abbrev pub with_id : Key → Key → Line → Line
with_id key id line = if is_empty_text id then line else insert key (text id) line

abbrev pub field_or : Option Value → Option Value → Option Value
field_or none value = value
field_or (some field) value = some field

-- The fields of the call come last, over all others.
unfoldable pub line_of : Key → Emission → Line
line_of instance_id e key =
    let base = insert ts_key (text e.ts) (
      insert level_key (text (level_text e.level))
        (insert event_key (text e.event) (insert instance_key (text instance_id) empty_map))) in
    field_or (e.fields key)
      (with_id meta_tx_id_key e.meta_tx_id (with_id req_id_key e.req_id base) key)

-- What is left of a line that cannot be written.
unfoldable pub reduced : Line → Line
reduced line key =
    if texts_eq key log_error_key
    then some (other 0)
    else (if texts_eq key ts_key
        then line key
        else (if texts_eq key level_key
            then line key
            else (if texts_eq key event_key then line key else none)))

unfoldable pub writable : (Line → Bool) → Line → List Line
writable can_write line =
    if can_write line
    then line ∷ []
    else (if can_write (reduced line) then reduced line ∷ [] else [])

-- The bus, and what the two writers of the process have got.
pub record Outputs : Type 0 where
  pub bus : Bus
  pub stdout : List Line
  pub stderr : List Line

abbrev pub is_complaint : LogLevel → Bool
is_complaint debug_level = false
is_complaint info_level = false
is_complaint warn_level = true
is_complaint error_level = true

unfoldable pub write : (Line → Bool) → LogLevel → Line → Outputs → Outputs
write can_write level line s =
    let lines = writable can_write line in
    if is_complaint level
    then record s { stderr = s.stderr ++ lines }
    else record s { stdout = s.stdout ++ lines }

-- `emit`: the bus gets the line whatever its level.
unfoldable pub emit : (Line → Bool) → Key → ℕ → Emission → Outputs → Outputs
emit can_write instance_id configured e s =
    let line = line_of instance_id e in
    let published = record s { bus = publish s.bus line } in
    if ltb (severity e.level) configured then published else write can_write e.level line published
