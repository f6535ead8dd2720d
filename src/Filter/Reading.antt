-- ===== src/Filter/Reading.antt =====
-- The lines that `fgets` gives.
use personal_test_resolver.Common.{
  ℕ, ◌≡◌, refl, List, [], ◌∷◌, Bytes, if◌then◌else◌, ◌==◌, arith, Bool-cases, inl, inr, length,
  ◌++◌, ◌≤◌, All, ◌||◌, length-append, append_assoc,
}
use personal_test_resolver.Filter.File.{read_lines}

-- The text that lines make up.
abbrev pub pasted : List Bytes → Bytes
pasted [] = []
pasted (line ∷ lines) = line ++ pasted lines

-- The length of a line.
abbrev pub IsLine : Bytes → Type 0
IsLine line = (1 ≤ length line) × (length line ≤ 509)

pub read_lines-step :
    (line cs : Bytes) (c : ℕ)
    → read_lines line (c ∷ cs) ≡ (
        if c == b'\n' || length (line ++ c ∷ []) == 509
        then (line ++ c ∷ []) ∷ read_lines [] cs
        else read_lines (line ++ c ∷ []) cs)
unfolding read_lines
read_lines-step [] cs c = refl
read_lines-step (x ∷ line) cs c = refl

pasted-read_lines : (text line : Bytes) → pasted (read_lines line text) ≡ line ++ text
pasted-read_lines [] [] = unfold read_lines in refl
pasted-read_lines [] (x ∷ line) = unfold read_lines in refl
pasted-read_lines (c ∷ cs) line = ground (
  arith,
  read_lines-step line cs c,
  pasted-read_lines cs [],
  pasted-read_lines cs (line ++ c ∷ []),
  append_assoc line (c ∷ []) cs,
)

read_lines-IsLine : (text line : Bytes) → length line ≤ 508 → All IsLine (read_lines line text)
read_lines-IsLine [] [] room = unfold read_lines in tt
read_lines-IsLine [] (x ∷ line) room = unfold read_lines in omega arith
read_lines-IsLine (c ∷ cs) line room =
    rw (read_lines-step line cs c)
      (elim (Bool-cases (c == b'\n' || length (line ++ c ∷ []) == 509)) [
        | inl ends ↦ rw ends (
          (omega (arith, length-append line (c ∷ [])), omega (arith, length-append line (c ∷ []))),
          read_lines-IsLine cs [] (omega arith),
        )
        | inr goes_on ↦
            rw goes_on
              (read_lines-IsLine cs (line ++ c ∷ []) (ground (arith, length-append line (c ∷ []))))
      ])

-- A file is read in lines of 1 to 509 bytes, and nothing of it is lost or read twice.
pub read_lines_whole :
    (text : Bytes) → (pasted (read_lines [] text) ≡ text) × All IsLine (read_lines [] text)
read_lines_whole text = (pasted-read_lines text [], read_lines-IsLine text [] (omega arith))
