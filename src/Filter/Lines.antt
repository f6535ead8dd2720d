-- ===== src/Filter/Lines.antt =====
-- The lines of a filter file, against fgets.
use personal_test_resolver.Common.{
  ℕ, ◌<◌, ◌≡◌, ◌≢◌, refl, List, [], ◌∷◌, ◌++◌, Bytes, arith, Bool-cases, inl, inr, All, All-append,
  length, length-append, append_assoc, append-nil, ◌==◌, sym, ==_iff,
}
use personal_test_resolver.Filter.Reading.{read_lines-step}
use personal_test_resolver.Filter.File.{read_lines}

-- A text cut into lines: each ends behind its newline, or behind 509 bytes, or with the text. A carriage
-- return does not end a line.
pub data AreLines : Bytes → List Bytes → Type 0 where
  nothing : {text : Bytes} → text ≡ [] → AreLines text []
  last :
      {text : Bytes}
      → text ≢ []
      → All (λ c. c ≢ b'\n') text
      → length text < 509
      → AreLines text (text ∷ [])
  ended :
      {text rest : Bytes} {lines : List Bytes} (line : Bytes)
      → All (λ c. c ≢ b'\n') line
      → length line < 509
      → text ≡ line ++ (b'\n' ∷ rest)
      → AreLines rest lines
      → AreLines text ((line ++ b'\n' ∷ []) ∷ lines)
  full :
      {text rest : Bytes} {lines : List Bytes} (line : Bytes)
      → All (λ c. c ≢ b'\n') line
      → length line ≡ 509
      → text ≡ line ++ rest
      → AreLines rest lines
      → AreLines text (line ∷ lines)

no_newline :
    (line : Bytes) (c : ℕ)
    → All (λ c. c ≢ b'\n') line
    → c ≢ b'\n'
    → All (λ c. c ≢ b'\n') (line ++ c ∷ [])
no_newline line c h other = All-append (λ c. c ≢ b'\n') line (c ∷ []) h (other, tt)

pub read_lines-AreLines :
    (text line : Bytes)
    → All (λ c. c ≢ b'\n') line
    → length line < 509
    → AreLines (line ++ text) (read_lines line text)
read_lines-AreLines [] [] h short = unfold read_lines in (nothing refl)
read_lines-AreLines [] (x ∷ line) h short =
    unfold read_lines in (rw (append-nil line) (last (λ e. cc) h short))
read_lines-AreLines (c ∷ cs) line h short =
    rw (read_lines-step line cs c) (elim (Bool-cases (c == b'\n')) [
      | inl newline ↦
          let is : c ≡ b'\n' = ground (arith, ==_iff c b'\n') in
          rw is (ended line h short refl (read_lines-AreLines cs [] tt (omega arith)))
      | inr other ↦
          let differs : c ≢ b'\n' = λ e. absurd (ground (arith, ==_iff c b'\n')) in
          let fuller = no_newline line c h differs in
          let whole : line ++ (c ∷ cs) ≡ (line ++ c ∷ []) ++ cs =
            sym (append_assoc line (c ∷ []) cs) in
          elim (Bool-cases (length (line ++ c ∷ []) == 509)) [
            | inl room ↦
                rw (other, room)
                  (full (line ++ c ∷ []) fuller
                    (ground (arith, ==_iff (length (line ++ c ∷ [])) 509)) whole
                    (read_lines-AreLines cs [] tt (omega arith)))
            | inr more ↦
                rw (other, more, whole)
                  (read_lines-AreLines cs (line ++ c ∷ []) fuller
                    (ground (arith, length-append line (c ∷ []))))
          ]
    ])
