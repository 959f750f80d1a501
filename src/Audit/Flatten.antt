-- ===== src/Audit/Flatten.antt =====
-- `flatten` of audit/structured.go: a text of several lines as one, of a few fragments.
use gas_management.Base.{
  ℕ, zero, suc, Bool, true, false, List, [], ◌∷◌, ◌++◌, Key, ◌==◌, if◌then◌else◌, is_empty_text,
  trim_space,
}

abbrev pub newline : ℕ
newline = 10

abbrev pub max_stack_frames : ℕ
max_stack_frames = 6

abbrev pub cons_first : ℕ → List Key → List Key
cons_first c [] = (c ∷ []) ∷ []
cons_first c (line ∷ lines) = (c ∷ line) ∷ lines

-- `strings.Split` at each newline.
unfoldable pub split_lines : Key → List Key
split_lines [] = [] ∷ []
split_lines (c ∷ cs) =
    let rest = split_lines cs in if c == newline then [] ∷ rest else cons_first c rest

-- The loop, with the room that is left: the fragments, and whether there were more.
abbrev pub keep_fragment : Key → List Key × Bool → List Key × Bool
keep_fragment fragment (fragments, truncated) = (fragment ∷ fragments, truncated)

unfoldable pub fragments_of : ℕ → List Key → List Key × Bool
fragments_of room [] = ([], false)
fragments_of zero (raw ∷ lines) =
    let rest = fragments_of zero lines in
    if is_empty_text (trim_space raw) then rest else ([], true)
fragments_of (suc room) (raw ∷ lines) =
    let skipped = fragments_of (suc room) lines in
    let kept = keep_fragment (trim_space raw) (fragments_of room lines) in
    if is_empty_text (trim_space raw) then skipped else kept

-- " | " and " | ...".
abbrev pub separator : Key
separator = 32 ∷ 124 ∷ 32 ∷ []

abbrev pub ellipsis : Key
ellipsis = 32 ∷ 124 ∷ 32 ∷ 46 ∷ 46 ∷ 46 ∷ []

unfoldable pub join : List Key → Key
join [] = []
join (fragment ∷ []) = fragment
join (fragment ∷ next ∷ fragments) = fragment ++ (separator ++ join (next ∷ fragments))

abbrev pub joined : List Key × Bool → Key
joined (fragments, true) = join fragments ++ ellipsis
joined (fragments, false) = join fragments

-- `flatten`.
unfoldable pub flatten : Key → Key
flatten text = joined (fragments_of max_stack_frames (split_lines text))
