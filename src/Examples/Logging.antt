-- ===== src/Examples/Logging.antt =====
-- Two events, one too quiet for the console, and a trace of two lines.
use gas_management.Base.{◌≡◌, refl, true, [], ◌∷◌, Key, empty_map, trim_space}
use gas_management.Config.{debug_level, warn_level}
use gas_management.Examples.{ann}
use gas_management.Events.{new_bus, publish}
use gas_management.Audit.{Emission, Outputs, line_of, writable, write, emit}
use gas_management.Audit.Flatten.{flatten, fragments_of, split_lines, join}

abbrev quiet : Emission
quiet = record {
  level = debug_level;
  event = ann;
  ts = ann;
  req_id = [];
  meta_tx_id = ann;
  fields = empty_map;
}

abbrev loud : Emission
loud = record quiet { level = warn_level }

abbrev outputs : Outputs
outputs = record { bus = new_bus true 2; stdout = []; stderr = [] }

quiet_is_published :
    (emit (λ line. true) ann 20 quiet outputs).bus ≡ publish outputs.bus (line_of ann quiet)
unfolding emit write
quiet_is_published = refl

quiet_is_not_shown : (emit (λ line. true) ann 20 quiet outputs).stdout ≡ []
unfolding emit write
quiet_is_not_shown = refl

loud_is_shown : (emit (λ line. true) ann 20 loud outputs).stderr ≡ line_of ann loud ∷ []
unfolding emit write writable
loud_is_shown = refl

-- "an", a newline, a space, "an"
abbrev trace : Key
trace = 97 ∷ 110 ∷ 10 ∷ 32 ∷ 97 ∷ 110 ∷ []

one_line : flatten trace ≡ 97 ∷ 110 ∷ 32 ∷ 124 ∷ 32 ∷ 97 ∷ 110 ∷ []
unfolding flatten fragments_of split_lines join trim_space
one_line = refl
