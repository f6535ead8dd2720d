-- ===== src/Filter/Order.antt =====
-- A filter is a set of domains: their order and their repetitions do not matter.
use mathlib.Core.Logic.{∥∥₁_elim}
use mathlib.Core.Bool.{So-prop}
use mathlib.Core.List.{Mem as Among, Memᴰ, mem-cons_self, mem-cons_of_mem}
use personal_test_resolver.Common.{
  ◌≡◌, true, List, [], ◌∷◌, Bytes, ◌↔◌, arith, none, Bool-cases, inl, inr, ◌∙◌, sym,
}
use personal_test_resolver.Common.Memory.{Plentiful, Mem}
use personal_test_resolver.Filter.Lists.{any_covers, add_domains, domain_blocked-add_domains}
use personal_test_resolver.Filter.Blocking.{covers}
use personal_test_resolver.Filter.{domain_blocked}
use personal_test_resolver.Trie.{empty_node}

covers_there :
    {d : Bytes} (ds : List Bytes) (asked : Bytes)
    → Memᴰ d ds
    → covers d asked ≡ true
    → any_covers ds asked ≡ true
covers_there [] asked there c = elim there [ ]
covers_there (d' ∷ ds) asked (Memᴰ.head e) c =
    let same : covers d' asked ≡ true = rw (← e) c in ground (arith, same)
covers_there (d' ∷ ds) asked (Memᴰ.tail there) c = ground (arith, covers_there ds asked there c)

any_covers_mono :
    (ds ds' : List Bytes) (asked : Bytes)
    → ((d : Bytes) → Among d ds → Among d ds')
    → any_covers ds asked ≡ true
    → any_covers ds' asked ≡ true
any_covers_mono [] ds' asked sub c = absurd (cc)
any_covers_mono (d ∷ ds) ds' asked sub c = elim (Bool-cases (covers d asked)) [
  | inl this ↦
      ∥∥₁_elim (sub d mem-cons_self) (So-prop _) (λ there. covers_there ds' asked there this)
  | inr other ↦ any_covers_mono ds ds' asked (λ e m. sub e (mem-cons_of_mem d m)) (ground arith)
]

any_covers_same :
    (ds ds' : List Bytes) (asked : Bytes)
    → ((d : Bytes) → Among d ds ↔ Among d ds')
    → any_covers ds asked ≡ any_covers ds' asked
any_covers_same ds ds' asked same = ground (
  arith,
  any_covers_mono ds ds' asked (λ d. (same d).0),
  any_covers_mono ds' ds asked (λ d. (same d).1),
)

-- With memory to spare, two filters that are filled from lists with the same members answer every
-- question alike: neither the order of the domains nor their repetitions matter.
pub domain_blocked_same :
    (ds ds' : List Bytes) (asked : Bytes) (m m' n : Mem)
    → Plentiful m
    → Plentiful m'
    → Plentiful n
    → ((d : Bytes) → Among d ds ↔ Among d ds')
    → (domain_blocked (add_domains (empty_node none) ds m).0 asked n).0
      ≡ (domain_blocked (add_domains (empty_node none) ds' m').0 asked n).0
domain_blocked_same ds ds' asked m m' n plenty plenty' spare same =
    domain_blocked-add_domains ds asked m n plenty spare
    ∙ any_covers_same ds ds' asked same
    ∙ sym (domain_blocked-add_domains ds' asked m' n plenty' spare)
