-- ===== src/Domain.antt =====
-- `normalize_domain` of filter.c, in the C locale.
pub mod Normal
pub mod Shape
pub mod Lowered
pub mod Case
use personal_test_resolver.Common.{
  ℕ, ◌+◌, ◌-◌, Bool, true, false, ◌&&◌, ◌||◌, Option, none, some, List, [], ◌∷◌, ◌++◌, Bytes,
  length, ltb, leb, ◌==◌, if◌then◌else◌,
}

-- `isspace` and `tolower`
unfoldable pub is_space : ℕ → Bool
is_space c = c == b' ' || (leb 9 c && leb c 13)

unfoldable pub to_lower : ℕ → ℕ
to_lower c = if leb b'A' c && leb c b'Z' then c + 32 else c

-- The loop over leading whitespace.
unfoldable pub skip_spaces : Bytes → Bytes
skip_spaces [] = []
skip_spaces (c ∷ cs) = if is_space c then skip_spaces cs else c ∷ cs

-- The copying loop: what has been written and what is left of the domain when it stops, at the end
-- of the domain or before a byte with the buffer full.
unfoldable pub copy_lower : Bytes → ℕ → Bytes → Bytes × Bytes
copy_lower [] len out = (out, [])
copy_lower (c ∷ cs) len out =
    let next = copy_lower cs len (if is_space c then out else out ++ to_lower c ∷ []) in
    if ltb (length out) (len - 1) then next else (out, c ∷ cs)

-- Without the dots at the end.
unfoldable pub strip_dots : Bytes → Bytes
strip_dots [] = []
strip_dots (c ∷ cs) = elim (strip_dots cs) [
  | [] ↦ if c == b'.' then [] else c ∷ []
  | d ∷ ds ↦ c ∷ d ∷ ds
]

abbrev pub starts_with_dot : Bytes → Bool
starts_with_dot [] = false
starts_with_dot (c ∷ cs) = c == b'.'

-- The last loop: a dot at the start, or before another one. The flag is `j == 0`.
unfoldable pub bad_dots : Bool → Bytes → Bool
bad_dots first [] = false
bad_dots first (c ∷ cs) = (c == b'.' && (first || starts_with_dot cs)) || bad_dots false cs

-- The tests behind the copying loop.
unfoldable pub finish_text : Bytes → Option Bytes
finish_text out = elim (strip_dots out) [
  | [] ↦ none
  | c ∷ cs ↦ if bad_dots true (c ∷ cs) then none else some (c ∷ cs)
]

-- The domain did not fit if some of it is left and the buffer is full.
unfoldable pub finish_domain : ℕ → Bytes × Bytes → Option Bytes
finish_domain len (out, []) = finish_text out
finish_domain len (out, c ∷ rest) = if leb (len - 1) (length out) then none else finish_text out

-- The domain behind its leading whitespace: if nothing is left of it, an error.
unfoldable pub normalize_text : ℕ → Bytes → Option Bytes
normalize_text len [] = none
normalize_text len (c ∷ cs) = finish_domain len (copy_lower (c ∷ cs) len [])

-- `domain` is a C string, `len` the size of the output buffer.
unfoldable pub normalize_domain : Option Bytes → ℕ → Option Bytes
normalize_domain none len = none
normalize_domain (some domain) len =
    if len == 0 then none else normalize_text len (skip_spaces domain)
