-- ===== src/Name/Decodes.antt =====
-- The name that stands at a position of a message, by RFC 1035 (4.1.4), with no buffers or bounds.
use personal_test_resolver.Common.{
  ℕ, zero, suc, ◌+◌, ◌*◌, ◌%◌, ◌≤◌, ◌<◌, List, [], ◌∷◌, ◌≡◌, Bytes, length, get_or, take, drop,
}

-- `Decodes buffer pos labels end jumps`: the labels read from `pos` on, through `jumps` pointers;
-- `end` is the position behind the name where it started, a pointer being its last two bytes.
pub data Decodes (buffer : Bytes) : ℕ → List Bytes → ℕ → ℕ → Type 0 where
  root :
      {pos end : ℕ}
      → pos < length buffer
      → get_or buffer pos 0 ≡ 0
      → end ≡ pos + 1
      → Decodes buffer pos [] end zero
  label :
      {pos n next end jumps : ℕ} {l : Bytes} {ls : List Bytes}
      → get_or buffer pos 0 ≡ n
      → 1 ≤ n
      → n ≤ 63
      → next ≡ pos + 1 + n
      → next ≤ length buffer
      → l ≡ take n (drop (pos + 1) buffer)
      → Decodes buffer next ls end jumps
      → Decodes buffer pos (l ∷ ls) end jumps
  pointer :
      {pos target end behind jumps : ℕ} {ls : List Bytes}
      → 192 ≤ get_or buffer pos 0
      → pos + 1 < length buffer
      → target ≡ get_or buffer pos 0 % 64 * 256 + get_or buffer (pos + 1) 0
      → target < pos
      → end ≡ pos + 2
      → Decodes buffer target ls behind jumps
      → Decodes buffer pos ls end (suc jumps)
