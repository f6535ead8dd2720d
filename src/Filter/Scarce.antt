-- ===== src/Filter/Scarce.antt =====
-- The filter with any amount of memory, and without regard to case.
use personal_test_resolver.Common.{
  ◌≡◌, Bytes, arith, Option-cases, inl, inr, true, refl, Option, some, none,
}
use personal_test_resolver.Common.Memory.{Mem, Plentiful}
use personal_test_resolver.Filter.{domain_labels, domain_blocked, add_domain, is_domain_blocked}
use personal_test_resolver.Domain.Case.{lower, normalize_domain-lower}
use personal_test_resolver.Trie.{Node}
use personal_test_resolver.Filter.Names.{domain_labels-some, domain_labels_keeps}

-- Whatever memory there is, a domain that is reported as blocked is blocked with memory to spare: for
-- want of memory the answer can only be that it is not.
pub domain_blocked_spare :
    (t : Node) (asked : Bytes) (m n : Mem)
    → Plentiful n
    → (domain_blocked t asked m).0 ≡ true
    → (domain_blocked t asked n).0 ≡ true
unfolding domain_blocked
domain_blocked_spare t asked m n plenty e = elim (Option-cases (domain_labels asked m).0) [
  | inl fails ↦ absurd (ground arith)
  | inr (r, splits) ↦ ground (arith, domain_labels-some asked m n {r = r} plenty splits)
]

domain_labels-lower :
    (domain : Bytes) (m : Mem) → domain_labels (lower domain) m ≡ domain_labels domain m
unfolding domain_labels
domain_labels-lower domain m = rw (domain_labels, normalize_domain-lower domain 256) refl

-- Letter case does not matter: neither in the domain that is asked for, nor in one that is added.
pub domain_blocked-lower :
    (t : Node) (domain asked : Bytes) (m : Mem)
    → (domain_blocked t (lower asked) m ≡ domain_blocked t asked m)
      × (add_domain t (lower domain) m ≡ add_domain t domain m)
unfolding domain_blocked add_domain
domain_blocked-lower t domain asked m =
    (ground (arith, domain_labels-lower asked m), ground (arith, domain_labels-lower domain m))

pub domain_blocked_keeps :
    (t : Node) (asked : Bytes) (m : Mem) → Plentiful m → Plentiful (domain_blocked t asked m).1
unfolding domain_blocked
domain_blocked_keeps t asked m plenty = ground (arith, domain_labels_keeps asked m plenty)

pub is_domain_blocked_keeps :
    (root : Option Node) (asked : Option Bytes) (m : Mem)
    → Plentiful m
    → Plentiful (is_domain_blocked root asked m).1
unfolding is_domain_blocked
is_domain_blocked_keeps none asked m plenty = plenty
is_domain_blocked_keeps (some t) none m plenty = plenty
is_domain_blocked_keeps (some t) (some asked) m plenty = domain_blocked_keeps t asked m plenty
