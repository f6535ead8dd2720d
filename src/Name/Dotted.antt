-- ===== src/Name/Dotted.antt =====
-- The text of a list of labels: with a dot behind each, as the loop writes it, and between them.
use personal_test_resolver.Common.{
  ℕ, ◌+◌, ◌-◌, List, [], ◌∷◌, ◌++◌, ◌≡◌, refl, arith, Bytes, length, length-append, ap, ◌∙◌,
}
use personal_test_resolver.Name.{strip_dot}

abbrev pub dotted : List Bytes → Bytes
dotted [] = []
dotted (l ∷ ls) = l ++ (b'.' ∷ dotted ls)

abbrev pub joined : List Bytes → Bytes
joined [] = []
joined (l ∷ []) = l
joined (l ∷ m ∷ ls) = l ++ (b'.' ∷ joined (m ∷ ls))

-- The bytes that the labels take with a dot, or a length, for each.
abbrev pub size : List Bytes → ℕ
size [] = 0
size (l ∷ ls) = length l + 1 + size ls

pub length-dotted : (ls : List Bytes) → length (dotted ls) ≡ size ls
length-dotted [] = refl
length-dotted (l ∷ ls) = omega (arith, length-append l (b'.' ∷ dotted ls), length-dotted ls)

pub length-joined : (ls : List Bytes) → length (joined ls) ≡ size ls - 1
length-joined [] = refl
length-joined (l ∷ []) = omega arith
length-joined (l ∷ m ∷ ls) =
    omega (arith, length-append l (b'.' ∷ joined (m ∷ ls)), length-joined (m ∷ ls))

-- A dot at the very end goes; what stands before the last byte stays.
strip_dot-last : (l : Bytes) → strip_dot (l ++ b'.' ∷ []) ≡ l
unfolding strip_dot
strip_dot-last [] = refl
strip_dot-last (x ∷ []) = refl
strip_dot-last (x ∷ y ∷ l) = ap (◌∷◌ x) (strip_dot-last (y ∷ l))

strip_dot-append :
    (l : Bytes) (x y : ℕ) (ys : Bytes)
    → strip_dot (l ++ (x ∷ y ∷ ys)) ≡ l ++ (x ∷ strip_dot (y ∷ ys))
unfolding strip_dot
strip_dot-append [] x y ys = refl
strip_dot-append (a ∷ []) x y ys = refl
strip_dot-append (a ∷ b ∷ l) x y ys = ap (◌∷◌ a) (strip_dot-append (b ∷ l) x y ys)

pub strip_dot-dotted : (ls : List Bytes) → strip_dot (dotted ls) ≡ joined ls
unfolding strip_dot
strip_dot-dotted [] = refl
strip_dot-dotted (l ∷ []) = strip_dot-last l
strip_dot-dotted (l ∷ [] ∷ ls) =
    strip_dot-append l b'.' b'.' (dotted ls)
    ∙ ap (λ (t : Bytes). l ++ (b'.' ∷ t)) (strip_dot-dotted ([] ∷ ls))
strip_dot-dotted (l ∷ (x ∷ m) ∷ ls) =
    strip_dot-append l b'.' x (m ++ (b'.' ∷ dotted ls))
    ∙ ap (λ (t : Bytes). l ++ (b'.' ∷ t)) (strip_dot-dotted ((x ∷ m) ∷ ls))
