-- ===== src/Audit/OneLine.antt =====
-- What `flatten` makes of any text.
use gas_management.Base.{
  ◌++◌, ℕ, zero, suc, ◌≤◌, ◌≡◌, refl, Bool, true, false, List, [], ◌∷◌, Key, All, All-append,
  length, arith, ◌==◌, is_empty_text, trim_space, trim_left, trim_right, cons_unless_space,
  is_space, Bool-cases, inl, inr,
}
use gas_management.Audit.Flatten.{
  newline, max_stack_frames, cons_first, split_lines, keep_fragment, fragments_of, separator,
  ellipsis, join, joined, flatten,
}

-- The byte is no newline.
abbrev pub IsInLine : ℕ → Type 0
IsInLine c = (c == newline) ≡ false

abbrev Lines : List Key → Type 0
Lines lines = All (All IsInLine) lines

cons_first-Lines :
    (c : ℕ) (lines : List Key) → IsInLine c → Lines lines → Lines (cons_first c lines)
cons_first-Lines c [] h hs = ((h, tt), tt)
cons_first-Lines c (line ∷ lines) h hs = ((h, hs.0), hs.1)

split_lines-Lines : (text : Key) → Lines (split_lines text)
unfolding split_lines
split_lines-Lines [] = (tt, tt)
split_lines-Lines (c ∷ cs) = elim (Bool-cases (c == newline)) [
  | inl e ↦ rw e (tt, split_lines-Lines cs)
  | inr e ↦ rw e (cons_first-Lines c (split_lines cs) e (split_lines-Lines cs))
]

trim_left-IsInLine : (text : Key) → All IsInLine text → All IsInLine (trim_left text)
trim_left-IsInLine [] h = tt
trim_left-IsInLine (c ∷ cs) h = elim (Bool-cases (is_space c)) [
  | inl e ↦ rw e (trim_left-IsInLine cs h.1)
  | inr e ↦ rw e h
]

cons_unless_space-IsInLine :
    (c : ℕ) (cs : Key) → IsInLine c → All IsInLine cs → All IsInLine (cons_unless_space c cs)
cons_unless_space-IsInLine c [] h hs = elim (Bool-cases (is_space c)) [
  | inl e ↦ rw e tt
  | inr e ↦ rw e (h, tt)
]
cons_unless_space-IsInLine c (d ∷ ds) h hs = (h, hs)

trim_right-IsInLine : (text : Key) → All IsInLine text → All IsInLine (trim_right text)
trim_right-IsInLine [] h = tt
trim_right-IsInLine (c ∷ cs) h =
    cons_unless_space-IsInLine c (trim_right cs) h.0 (trim_right-IsInLine cs h.1)

trim_space-IsInLine : (text : Key) → All IsInLine text → All IsInLine (trim_space text)
unfolding trim_space
trim_space-IsInLine text h = trim_right-IsInLine (trim_left text) (trim_left-IsInLine text h)

-- The fragments are in line, and as many as there is room for at most.
abbrev Fits : ℕ → List Key × Bool → Type 0
Fits room r = Lines r.0 × (length r.0 ≤ room)

keep_fragment-Fits :
    (room : ℕ) (fragment : Key) (r : List Key × Bool)
    → All IsInLine fragment
    → Fits room r
    → Fits (suc room) (keep_fragment fragment r)
keep_fragment-Fits room fragment (fragments, truncated) h (hs, n) = ((h, hs), omega (arith, n))

fragments_of-Fits :
    (room : ℕ) (lines : List Key) → Lines lines → Fits room (fragments_of room lines)
unfolding fragments_of
fragments_of-Fits zero [] h = (tt, omega arith)
fragments_of-Fits (suc room) [] h = (tt, omega arith)
fragments_of-Fits zero (raw ∷ lines) h = elim (Bool-cases (is_empty_text (trim_space raw))) [
  | inl e ↦ rw e (fragments_of-Fits zero lines h.1)
  | inr e ↦ rw e (tt, omega arith)
]
fragments_of-Fits (suc room) (raw ∷ lines) h = elim (Bool-cases (is_empty_text (trim_space raw))) [
  | inl e ↦ rw e (fragments_of-Fits (suc room) lines h.1)
  | inr e ↦ rw e (
      keep_fragment-Fits room (trim_space raw) (fragments_of room lines)
        (trim_space-IsInLine raw h.0) (fragments_of-Fits room lines h.1))
]

join-IsInLine : (fragments : List Key) → Lines fragments → All IsInLine (join fragments)
unfolding join
join-IsInLine [] h = tt
join-IsInLine (fragment ∷ []) h = h.0
join-IsInLine (fragment ∷ next ∷ fragments) h =
    let rest = join (next ∷ fragments) in
    All-append IsInLine fragment (separator ++ rest) h.0 (
      All-append IsInLine separator rest (refl, (refl, (refl, tt)))
        (join-IsInLine (next ∷ fragments) h.1))

joined-IsInLine : (r : List Key × Bool) → Lines r.0 → All IsInLine (joined r)
joined-IsInLine (fragments, false) h = join-IsInLine fragments h
joined-IsInLine (fragments, true) h =
    All-append IsInLine (join fragments) ellipsis (join-IsInLine fragments h)
      (refl, (refl, (refl, (refl, (refl, (refl, tt))))))

-- Whatever the text: it is flattened to a text without a newline, of at most 6 fragments.
pub flatten-IsInLine :
    (text : Key)
    → All IsInLine (flatten text)
      × (length (fragments_of max_stack_frames (split_lines text)).0 ≤ max_stack_frames)
unfolding flatten
flatten-IsInLine text =
    let fits = fragments_of-Fits max_stack_frames (split_lines text) (split_lines-Lines text) in
    (joined-IsInLine (fragments_of max_stack_frames (split_lines text)) fits.0, fits.1)
