-- ===== src/Common/Memory.antt =====
-- The C heap as far as the program can see it: whether an allocation is granted, and how many
-- blocks are live. `grants` is what `malloc`, `calloc`, `strdup` and a growing `realloc` will answer
-- next, `false` for NULL; past its end every request is granted.
use Prim.Native.Nat.{ℕ, ◌+◌, ◌-◌}
use mathlib.Core.Path.{◌≡◌}
use mathlib.Core.Bool.{Bool, true, false}
use mathlib.Core.List.{List, [], ◌∷◌}
use native.Mathlib.Omega.{arith}
use personal_test_resolver.Common.Tests.{if◌then◌else◌}

pub record Mem : Type 0 where
  pub grants : List Bool
  pub live : ℕ

answer : List Bool → Mem → Bool × Mem
answer [] m = (true, record m { live = m.live + 1 })
answer (true ∷ later) m = (true, record { grants = later; live = m.live + 1 })
answer (false ∷ later) m = (false, record m { grants = later })

-- A request for a fresh block.
unfoldable pub malloc : Mem → Bool × Mem
unfolding answer
malloc m = answer m.grants m

-- A request to grow a block that is already there: the number of live blocks stays.
unfoldable pub regrow : Mem → Bool × Mem
unfolding malloc
regrow m = let (granted, m') = malloc m in (granted, record m' { live = m.live })

-- `free` of `n` blocks.
abbrev pub release : ℕ → Mem → Mem
release n m = record m { live = m.live - n }

-- Memory does not run out.
abbrev pub Plentiful : Mem → Type 0
Plentiful m = m.grants ≡ []

pub malloc_live : (m : Mem) → (malloc m).1.live ≡ m.live + (if (malloc m).0 then 1 else 0)
unfolding malloc
malloc_live m = ground arith

pub malloc-Plentiful : (m : Mem) → Plentiful m → malloc m ≡ (true, record m { live = m.live + 1 })
unfolding malloc
malloc-Plentiful m h = rw (h, answer)

pub regrow-Plentiful : (m : Mem) → Plentiful m → regrow m ≡ (true, m)
unfolding regrow
regrow-Plentiful m h = rw (h, answer)

pub regrow_live : (m : Mem) → (regrow m).1.live ≡ m.live
unfolding regrow
regrow_live m = omega arith

pub malloc_keeps : (m : Mem) → Plentiful m → Plentiful (malloc m).1
unfolding malloc
malloc_keeps m h = ground (arith, h)
