-- ===== src/Filter/Within.antt =====
-- What a filter blocks, by the text of the domains: add_domain and domain_blocked of filter.c.
use personal_test_resolver.Common.{
  ◌≡◌, none, some, List, [], ◌∷◌, Bytes, arith, Bool-cases, Option-cases, inl, inr, ◌⊎◌, ◌↔◌, true,
  false, ◌∙◌, refl,
}
use personal_test_resolver.Common.Memory.{Mem, Plentiful}
use personal_test_resolver.Domain.Lowered.{IsBareOf, normalize_domain-IsBareOf}
use personal_test_resolver.Domain.{normalize_domain}
use personal_test_resolver.Encode.{strtok}
use personal_test_resolver.Labels.Order.{short_labels}
use personal_test_resolver.Trie.{empty_node}
use personal_test_resolver.Filter.{domain_blocked}
use personal_test_resolver.Filter.Blocking.{covers}
use personal_test_resolver.Filter.Lists.{add_domains, any_covers, domain_blocked-add_domains}
use personal_test_resolver.Filter.Names.{name_labels, name_labels-checked}
use personal_test_resolver.Filter.Text.{IsWithin, covers-IsWithin}

-- The text is a domain with labels of at most 63 bytes, and in lower case, without whitespace and without
-- dots at its end it is `name`, or what `name` ends in behind a dot.
abbrev pub Blocks : Bytes → Bytes → Type 0
Blocks domain name =
    (n : Bytes) × (normalize_domain (some domain) 256 ≡ some n)
    × IsBareOf n domain
    × (short_labels (strtok [] n) ≡ true)
    × IsWithin n name

-- One of the texts does.
abbrev pub AnyBlocks : List Bytes → Bytes → Type 0
AnyBlocks [] name = ⊥
AnyBlocks (d ∷ ds) name = Blocks d name ⊎ AnyBlocks ds name

covers-none : (domain asked : Bytes) → name_labels domain ≡ none → covers domain asked ≡ false
covers-none domain asked e = rw e refl

unnamed : (domain : Bytes) → normalize_domain (some domain) 256 ≡ none → name_labels domain ≡ none
unfolding name_labels
unnamed domain e = ground arith

module _ (asked : Bytes) {name : Bytes} (normal : normalize_domain (some asked) 256 ≡ some name)
    (short : short_labels (strtok [] name) ≡ true) where
  covers-Blocks : (domain : Bytes) → (covers domain asked ≡ true) ↔ Blocks domain name
  covers-Blocks domain = (
    λ e. elim (Option-cases (normalize_domain (some domain) 256)) [
      | inl fails ↦ absurd (ground (arith, e, covers-none domain asked (unnamed domain fails)))
      | inr (n, there) ↦ elim (Bool-cases (short_labels (strtok [] n))) [
        | inl fits ↦ (
          n,
          there,
          normalize_domain-IsBareOf domain 256 there,
          fits,
          (covers-IsWithin domain asked there normal fits short).0 e,
        )
        | inr long ↦
            let unfit : name_labels domain ≡ none =
              name_labels-checked domain there ∙ rw long refl in
            absurd (ground (arith, e, covers-none domain asked unfit))
      ]
    ],
    λ (n, there, bare_text, fits, within).
        (covers-IsWithin domain asked there normal fits short).1 within,
  )

  any_covers-AnyBlocks : (ds : List Bytes) → (any_covers ds asked ≡ true) ↔ AnyBlocks ds name
  any_covers-AnyBlocks [] = (λ e. absurd (ground arith), λ h. absurd h)
  any_covers-AnyBlocks (d ∷ ds) = (
    λ e. elim (Bool-cases (covers d asked)) [
      | inl here ↦ inl ((covers-Blocks d).0 here)
      | inr other ↦ inr ((any_covers-AnyBlocks ds).0 (ground arith))
    ],
    λ h. elim h [
      | inl here ↦ ground (arith, (covers-Blocks d).1 here)
      | inr later ↦ ground (arith, (any_covers-AnyBlocks ds).1 later)
    ],
  )

-- With memory to spare, and a filter that starts empty and to which the texts of a list are added: a
-- domain that is asked for and accepted by `normalize_domain`, with labels of at most 63 bytes, is
-- blocked exactly when the same holds of one of the texts, and the domain is that text or ends in a dot
-- and that text. Both are compared in lower case, without whitespace and without dots at the end.
pub domain_blocked-AnyBlocks :
    (asked : Bytes) {name : Bytes}
    → normalize_domain (some asked) 256 ≡ some name
    → short_labels (strtok [] name) ≡ true
    → (ds : List Bytes) (m n : Mem) → Plentiful m
    → Plentiful n
    → IsBareOf name asked
      × (((domain_blocked (add_domains (empty_node none) ds m).0 asked n).0 ≡ true)
          ↔ AnyBlocks ds name)
domain_blocked-AnyBlocks asked normal short ds m n plenty spare = (
  normalize_domain-IsBareOf asked 256 normal,
  rw (domain_blocked-add_domains ds asked m n plenty spare)
      (any_covers-AnyBlocks asked normal short ds),
)
