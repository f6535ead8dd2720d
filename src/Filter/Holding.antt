-- ===== src/Filter/Holding.antt =====
-- What the lines of a filter file hold, against the tests of load_filter_file.
use personal_test_resolver.Common.{
  ℕ, ◌<◌, ◌≡◌, ◌≢◌, refl, List, [], ◌∷◌, ◌++◌, Bytes, arith, Bool-cases, inl, inr, ◌⊎◌, All,
  All-append, append_assoc, append-nil, ◌==◌, ◌||◌, if◌then◌else◌, ap, sym, ◌∙◌, true, ==_iff, ◌↔◌,
}
use personal_test_resolver.Domain.{skip_spaces, is_space}
use personal_test_resolver.Message.{c_string}
use personal_test_resolver.Filter.File.{
  strip_ends, Line, blank, comment, entry, line_kind, read_line,
}
use personal_test_resolver.Filter.Counting.{kinds}

-- The whitespace of isspace in the C locale.
abbrev pub IsBlank : ℕ → Type 0
IsBlank c = (c ≡ b' ') ⊎ ((8 < c) × (c < 14))

abbrev pub IsEnd : ℕ → Type 0
IsEnd c = (c ≡ b'\n') ⊎ (c ≡ b'\r')

-- Not empty, and its last byte is no line end.
abbrev pub EndsWell : Bytes → Type 0
EndsWell [] = ⊥
EndsWell (c ∷ []) = ¬ (IsEnd c)
EndsWell (c ∷ d ∷ ds) = EndsWell (d ∷ ds)

-- What the text of a line, up to a NUL, holds: whitespace alone; or behind whitespace a comment, from a
-- '#' on; or behind whitespace a text that begins with neither, up to the line ends at its end.
pub data Holds (text : Bytes) : Line → Type 0 where
  is_blank : All IsBlank text → Holds text blank
  is_comment :
      (spaces rest : Bytes)
      → All IsBlank spaces
      → text ≡ spaces ++ (b'#' ∷ rest)
      → Holds text comment
  is_entry :
      {domain : Bytes} (spaces : Bytes) (first : ℕ) (rest ends : Bytes)
      → All IsBlank spaces
      → ¬ (IsBlank first)
      → first ≢ b'#'
      → domain ≡ first ∷ rest
      → EndsWell domain
      → All IsEnd ends
      → text ≡ spaces ++ (domain ++ ends)
      → Holds text (entry domain)

-- What each of the lines holds.
abbrev pub Hold : List Bytes → List Line → Type 0
Hold [] [] = Unit
Hold [] (kind ∷ kinds) = ⊥
Hold (line ∷ lines) [] = ⊥
Hold (line ∷ lines) (kind ∷ kinds) = Holds (c_string line) kind × Hold lines kinds

-- What is left of a text without the line ends at its end.
abbrev Stripped : Bytes → Bytes → Type 0
Stripped text kept =
    (ends : Bytes) × All IsEnd ends × (text ≡ kept ++ ends) × ((kept ≡ []) ⊎ EndsWell kept)

abbrev put : ℕ → Bytes → Bytes
put c [] = if c == b'\n' || c == b'\r' then [] else c ∷ []
put c (d ∷ ds) = c ∷ d ∷ ds

strip_ends-put : (c : ℕ) (cs : Bytes) → strip_ends (c ∷ cs) ≡ put c (strip_ends cs)
unfolding strip_ends
strip_ends-put c cs = ground arith

put-Stripped : (c : ℕ) (cs kept : Bytes) → Stripped cs kept → Stripped (c ∷ cs) (put c kept)
put-Stripped c cs [] (ends, h, text, well) = elim (Bool-cases (c == b'\n' || c == b'\r')) [
  | inl is_end ↦
      let ending : IsEnd c = elim (Bool-cases (c == b'\n')) [
        | inl lf ↦ inl (ground (arith, ==_iff c b'\n'))
        | inr other ↦ inr (ground (arith, ==_iff c b'\r'))
      ] in
      rw is_end (c ∷ ends, (ending, h), ap (◌∷◌ c) text, inl refl)
  | inr kept ↦ rw kept (
    ends,
    h,
    ap (◌∷◌ c) text,
    inr (λ e. elim e [
      | inl lf ↦ absurd (ground (arith, ==_iff c b'\n'))
      | inr cr ↦ absurd (ground (arith, ==_iff c b'\r'))
    ]),
  )
]
put-Stripped c cs (d ∷ ds) (ends, h, text, inl e) = cc
put-Stripped c cs (d ∷ ds) (ends, h, text, inr well) = (ends, h, ap (◌∷◌ c) text, inr well)

strip_ends-Stripped : (text : Bytes) → Stripped text (strip_ends text)
strip_ends-Stripped [] = unfold strip_ends in ([], tt, refl, inl refl)
strip_ends-Stripped (c ∷ cs) =
    rw (strip_ends-put c cs) (put-Stripped c cs (strip_ends cs) (strip_ends-Stripped cs))

is_space_iff : (c : ℕ) → (is_space c ≡ true) ↔ IsBlank c
unfolding is_space
is_space_iff c = (
  λ e. elim (Bool-cases (c == b' ')) [
    | inl space ↦ inl (ground (arith, ==_iff c b' '))
    | inr other ↦ inr (ground arith)
  ],
  λ h. elim h [ inl space ↦ ground (arith, ==_iff c b' ') | inr control ↦ ground arith ],
)

-- What is behind the whitespace that a text begins with.
abbrev Skipped : Bytes → Bytes → Type 0
Skipped text rest =
    (spaces : Bytes) × All IsBlank spaces
    × (text ≡ spaces ++ rest)
    × ((c : ℕ) (cs : Bytes) → rest ≡ c ∷ cs → ¬ (IsBlank c))

skip_spaces-Skipped : (text : Bytes) → Skipped text (skip_spaces text)
unfolding skip_spaces
skip_spaces-Skipped [] = ([], tt, refl, λ c cs e. absurd (ground arith))
skip_spaces-Skipped (c ∷ cs) = elim (Bool-cases (is_space c)) [
  | inl space ↦
      let (spaces, h, text, first) = skip_spaces-Skipped cs in
      rw space (c ∷ spaces, ((is_space_iff c).0 space, h), ap (◌∷◌ c) text, first)
  | inr other ↦
      rw other ([], tt, refl, λ d ds e b. absurd (ground (arith, (is_space_iff c).1, e, b)))
]

EndsWell-behind :
    (spaces : Bytes) (c : ℕ) (cs : Bytes) → EndsWell (spaces ++ (c ∷ cs)) → EndsWell (c ∷ cs)
EndsWell-behind [] c cs h = h
EndsWell-behind (x ∷ []) c cs h = h
EndsWell-behind (x ∷ y ∷ spaces) c cs h = EndsWell-behind (y ∷ spaces) c cs h

IsEnd-IsBlank : (ends : Bytes) → All IsEnd ends → All IsBlank ends
IsEnd-IsBlank [] h = tt
IsEnd-IsBlank (c ∷ ends) (inl lf, h) = (inr (omega arith), IsEnd-IsBlank ends h)
IsEnd-IsBlank (c ∷ ends) (inr cr, h) = (inr (omega arith), IsEnd-IsBlank ends h)

something : (spaces : Bytes) (c : ℕ) (cs : Bytes) → spaces ++ (c ∷ cs) ≢ []
something [] c cs = λ e. cc
something (x ∷ spaces) c cs = λ e. cc

line_kind-Holds :
    (text kept rest : Bytes) → Stripped text kept → Skipped kept rest → Holds text (line_kind rest)
unfolding line_kind
line_kind-Holds text kept [] (ends, h, whole, well) (spaces, b, inner, first) =
    is_blank (
      rw (whole, inner, append-nil spaces)
        (All-append IsBlank spaces ends b (IsEnd-IsBlank ends h)))
line_kind-Holds text kept (c ∷ cs) (ends, h, whole, well) (spaces, b, inner, first) =
    let parts : text ≡ spaces ++ ((c ∷ cs) ++ ends) =
      whole ∙ ap (λ (k : Bytes). k ++ ends) inner ∙ append_assoc spaces (c ∷ cs) ends in
    elim (Bool-cases (c == b'#')) [
      | inl hash ↦
          let is : c ≡ b'#' = ground (arith, ==_iff c b'#') in
          rw hash (is_comment spaces (cs ++ ends) b (parts ∙ rw is refl))
      | inr other ↦ rw other (
          is_entry spaces c cs ends b (first c cs refl)
            (λ e. absurd (ground (arith, ==_iff c b'#'))) refl
            (EndsWell-behind spaces c cs (kept_well well)) h parts)
    ]
  where
    kept_well : (kept ≡ []) ⊎ EndsWell kept → EndsWell (spaces ++ (c ∷ cs))
    kept_well (inl e) = absurd (something spaces c cs (sym inner ∙ e))
    kept_well (inr w) = rw inner at w

read_line-Holds : (line : Bytes) → Holds (c_string line) (read_line line)
unfolding read_line
read_line-Holds line =
    line_kind-Holds (c_string line) (strip_ends (c_string line)) _
      (strip_ends-Stripped (c_string line)) (skip_spaces-Skipped (strip_ends (c_string line)))

pub kinds-Hold : (lines : List Bytes) → Hold lines (kinds lines)
kinds-Hold [] = tt
kinds-Hold (line ∷ lines) = (read_line-Holds line, kinds-Hold lines)

-- The texts of the lines that hold one, in order.
abbrev pub texts : List Line → List Bytes
texts [] = []
texts (blank ∷ kinds) = texts kinds
texts (comment ∷ kinds) = texts kinds
texts (entry domain ∷ kinds) = domain ∷ texts kinds
