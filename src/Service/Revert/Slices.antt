-- ===== src/Service/Revert/Slices.antt =====
-- Which outputs of a contract stop the decoding.
use gas_management.Base.{ℕ, ◌-◌, ◌≤◌, ◌≡◌, ◌↔◌, none, Key, length, take, drop, arith}
use gas_management.Base.Int.{u64, u64_mod}
use gas_management.Service.MetaTx.{set_bytes}
use gas_management.Service.Revert.{
  decode_revert_reason, decode_selector, decode_error_string, slice, text_or_panic,
  error_string_selector,
}

-- The number that the output gives as the length of its text.
abbrev pub said_length : Key → ℕ
said_length output = u64 (set_bytes 0 (take 32 (drop 36 output)))

decode_error_string-panics_iff :
    (output : Key)
    → (decode_error_string output ≡ none)
      ↔ ((68 ≤ length output) × (u64_mod - 68 ≤ said_length output))
unfolding decode_error_string slice text_or_panic
decode_error_string-panics_iff output = ground arith

-- The decoding of the output of a call that reverted panics exactly if the output has the selector of
-- Error(string), 68 bytes or more, and a length of its text, in the low 64 bits, of at least
-- 2^64 - 68: the end of the text wraps to a place before its beginning.
pub decode_revert_reason-panics_iff :
    (output : Key)
    → (decode_revert_reason output ≡ none) ↔ (
        (set_bytes 0 (take 4 output) ≡ error_string_selector)
        × (68 ≤ length output)
        × (u64_mod - 68 ≤ said_length output))
unfolding decode_revert_reason decode_selector
decode_revert_reason-panics_iff output = ground (arith, decode_error_string-panics_iff output)
