-- ===== src/Service/Revert/ErrorString.antt =====
-- decodeRevertReason on what Solidity writes for `revert("...")`.
use gas_management.Base.{
  ℕ, ◌+◌, ◌-◌, ◌^◌, ◌≤◌, ◌<◌, ◌≡◌, refl, sym, ap, ◌∙◌, true, false, some, ◌∷◌, ◌++◌, Key, length,
  length-append, take, drop, take-append, drop-append, append-append, arith, ltb, leb,
  if◌then◌else◌,
}
use gas_management.Base.Int.{u64, u64_mod}
use gas_management.Service.MetaTx.{set_bytes}
use gas_management.Service.MetaTx.Suffix.{word, length-word, set_bytes-word}
use gas_management.Service.Revert.{
  error_text, decode_revert_reason, decode_selector, decode_error_string, slice, text_or_panic,
  error_string_selector, text_end, decode_custom_error,
}

-- The selector of Error(string), the offset 32 and the length as words, the text, and what pads it.
unfoldable pub encode_error : Key → Key → Key
encode_error text padding =
    8 ∷ 195 ∷ 121 ∷ 160 ∷ (word 32 32 ++ (word 32 (length text) ++ (text ++ padding)))

length-encode_error :
    (text padding : Key) → length (encode_error text padding) ≡ 68 + length text + length padding
unfolding encode_error
length-encode_error text padding = omega (
  arith,
  length-append (word 32 32) (word 32 (length text) ++ (text ++ padding)),
  length-append (word 32 (length text)) (text ++ padding),
  length-append text padding,
  length-word 32 32,
  length-word 32 (length text),
)

after_offset :
    (text padding : Key)
    → drop 36 (encode_error text padding) ≡ word 32 (length text) ++ (text ++ padding)
unfolding encode_error
after_offset text padding =
    drop-append 32 (word 32 32) (word 32 (length text) ++ (text ++ padding))
      (sym (length-word 32 32))

after_length : (text padding : Key) → drop 68 (encode_error text padding) ≡ text ++ padding
unfolding encode_error
after_length text padding =
    let words = word 32 32 ++ word 32 (length text) in
    ap (drop 64) (sym (append-append (word 32 32) (word 32 (length text)) (text ++ padding)))
    ∙ drop-append 64 words (text ++ padding) (
        omega (
          arith,
          length-append (word 32 32) (word 32 (length text)),
          length-word 32 32,
          length-word 32 (length text),
        ))

said_length-encode_error :
    (text padding : Key)
    → length text < 256 ^ 32
    → set_bytes 0 (take 32 (drop 36 (encode_error text padding))) ≡ length text
said_length-encode_error text padding h =
    ap (λ s. set_bytes 0 (take 32 s)) (after_offset text padding)
    ∙ ap (set_bytes 0) (
        take-append 32 (word 32 (length text)) (text ++ padding)
          (sym (length-word 32 (length text))))
    ∙ set_bytes-word 32 (length text) h

slice_from : (xs : Key) (lo n : ℕ) → slice xs lo (lo + n) ≡ some (take n (drop lo xs))
unfolding slice
slice_from xs lo n =
    let size : (lo + n - lo ≡ n) = omega arith in
    let forward : (ltb (lo + n) lo ≡ false) = ground arith in
    rw forward (ap (λ k. some (take k (drop lo xs))) size)

within : (a b : ℕ) → a ≤ b → leb a b ≡ true
within a b h = ground arith

-- With the end of the text where it is, the text is what is read.
decode_error_string-text :
    (output text : Key)
    → text_end output ≡ 68 + length text
    → 68 + length text ≤ length output
    → take (length text) (drop 68 output) ≡ text
    → decode_error_string output ≡ some (error_text text)
unfolding decode_error_string text_or_panic
decode_error_string-text output text e long read =
    let otherwise = some (decode_custom_error error_string_selector output) in
    ap
      (λ b.
        if b
        then (if leb (text_end output) (length output)
            then text_or_panic (slice output 68 (text_end output))
            else otherwise)
        else otherwise)
      (within 68 (length output) (omega arith))
    ∙ ap (λ hi. if leb hi (length output) then text_or_panic (slice output 68 hi) else otherwise) e
    ∙ ap (λ b. if b then text_or_panic (slice output 68 (68 + length text)) else otherwise)
        (within (68 + length text) (length output) long)
    ∙ ap text_or_panic (slice_from output 68 (length text))
    ∙ ap (λ t. some (error_text t)) read

text_end-encode_error :
    (text padding : Key)
    → length text < u64_mod - 68
    → text_end (encode_error text padding) ≡ 68 + length text
text_end-encode_error text padding h =
    ap (λ n. u64 (68 + u64 n)) (said_length-encode_error text padding (omega arith)) ∙ omega arith

selector-encode_error :
    (text padding : Key) → set_bytes 0 (take 4 (encode_error text padding)) ≡ error_string_selector
unfolding encode_error set_bytes
selector-encode_error text padding = refl

-- The decoding of what Solidity writes for a revert with a text of less than 2^64 - 68 bytes, whatever
-- it is padded with, is that text.
pub decode_revert_reason-encode_error :
    (text padding : Key)
    → length text < u64_mod - 68
    → decode_revert_reason (encode_error text padding) ≡ some (error_text text)
unfolding decode_revert_reason decode_selector
decode_revert_reason-encode_error text padding h =
    let output = encode_error text padding in
    let size = length-encode_error text padding in
    let read =
      decode_error_string-text output text (text_end-encode_error text padding h)
        (omega (arith, size))
        (ap (take (length text)) (after_length text padding)
          ∙ take-append (length text) text padding refl) in
    ground (arith, size, selector-encode_error text padding, read)
