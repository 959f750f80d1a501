-- ===== src/Base/Texts.antt =====
-- Texts as bytes: the functions of Go's packages strings and strconv that the code calls, for ASCII.
use Prim.Native.Nat.{ℕ, ◌+◌, ◌-◌, ◌*◌}
use mathlib.Core.Bool.{Bool, true, false, ◌&&◌, ◌||◌}
use mathlib.Core.Option.{Option, none, some}
use mathlib.Core.List.{List, [], ◌∷◌}
use gas_management.Base.Tests.{ltb, leb, ◌==◌, if◌then◌else◌}
use gas_management.Base.Int.{ℤ, pos, negsuc, i64_half}
use gas_management.Base.Keys.{Key}

abbrev pub is_empty_text : Key → Bool
is_empty_text [] = true
is_empty_text (c ∷ cs) = false

abbrev pub texts_eq : Key → Key → Bool
texts_eq [] [] = true
texts_eq [] (d ∷ ds) = false
texts_eq (c ∷ cs) [] = false
texts_eq (c ∷ cs) (d ∷ ds) = (c == d) && texts_eq cs ds

-- `strings.HasSuffix`: the text, or what is left after some of its first bytes, is the suffix.
abbrev pub has_suffix : Key → Key → Bool
has_suffix suffix [] = texts_eq suffix []
has_suffix suffix (c ∷ cs) = texts_eq suffix (c ∷ cs) || has_suffix suffix cs

-- `strings.ToUpper` of one byte.
abbrev pub to_upper : ℕ → ℕ
to_upper c = if leb b'a' c && leb c b'z' then c - 32 else c

-- The text is one of these.
abbrev pub one_of : Key → List Key → Bool
one_of text [] = false
one_of text (t ∷ ts) = texts_eq text t || one_of text ts

abbrev pub is_space : ℕ → Bool
is_space c = (leb 9 c && leb c 13) || (c == 32)

abbrev pub trim_left : Key → Key
trim_left [] = []
trim_left (c ∷ cs) = let rest = trim_left cs in if is_space c then rest else c ∷ cs

-- `c` before what is left of the text after it.
abbrev pub cons_unless_space : ℕ → Key → Key
cons_unless_space c [] = if is_space c then [] else c ∷ []
cons_unless_space c (d ∷ ds) = c ∷ d ∷ ds

abbrev pub trim_right : Key → Key
trim_right [] = []
trim_right (c ∷ cs) = cons_unless_space c (trim_right cs)

-- `strings.TrimSpace`.
unfoldable pub trim_space : Key → Key
trim_space text = trim_right (trim_left text)

-- The number that decimal digits spell after `n`.
abbrev pub digits_value : ℕ → Key → Option ℕ
digits_value n [] = some n
digits_value n (c ∷ cs) =
    let rest = digits_value (n * 10 + (c - b'0')) cs in
    if leb b'0' c && leb c b'9' then rest else none

abbrev pub unsigned_value : Key → Option ℕ
unsigned_value [] = none
unsigned_value (c ∷ cs) = digits_value 0 (c ∷ cs)

abbrev pub int_of_magnitude : Bool → Option ℕ → Option ℤ
int_of_magnitude negative none = none
int_of_magnitude false (some n) = if ltb n i64_half then some (pos n) else none
int_of_magnitude true (some n) =
    if leb n i64_half then some (if n == 0 then pos 0 else negsuc (n - 1)) else none

-- `strconv.Atoi` with an int of 64 bits.
unfoldable pub atoi : Key → Option ℤ
atoi [] = none
atoi (c ∷ cs) =
    if c == b'-'
    then int_of_magnitude true (unsigned_value cs)
    else int_of_magnitude false (unsigned_value (if c == b'+' then cs else c ∷ cs))

-- "1", "t", "T", "TRUE", "true", "True", and their opposites.
abbrev pub true_texts : List Key
true_texts =
    (b'1' ∷ [])
    ∷ (b't' ∷ [])
    ∷ (b'T' ∷ [])
    ∷ (b'T' ∷ b'R' ∷ b'U' ∷ b'E' ∷ [])
    ∷ (b't' ∷ b'r' ∷ b'u' ∷ b'e' ∷ [])
    ∷ (b'T' ∷ b'r' ∷ b'u' ∷ b'e' ∷ [])
    ∷ []

abbrev pub false_texts : List Key
false_texts =
    (b'0' ∷ [])
    ∷ (b'f' ∷ [])
    ∷ (b'F' ∷ [])
    ∷ (b'F' ∷ b'A' ∷ b'L' ∷ b'S' ∷ b'E' ∷ [])
    ∷ (b'f' ∷ b'a' ∷ b'l' ∷ b's' ∷ b'e' ∷ [])
    ∷ (b'F' ∷ b'a' ∷ b'l' ∷ b's' ∷ b'e' ∷ [])
    ∷ []

-- `strconv.ParseBool`.
unfoldable pub parse_bool : Key → Option Bool
parse_bool text =
    if one_of text true_texts
    then some true
    else (if one_of text false_texts then some false else none)
