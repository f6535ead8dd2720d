-- ===== src/Filter/Blocking.antt =====
-- What `is_domain_blocked` answers after `filter_add_domain`.
use mathlib.Core.List.{reverse-reverse}
use personal_test_resolver.Common.{
  ℕ, ◌≡◌, refl, Bool, none, some, List, [], ◌∷◌, Bytes, arith, Option-cases, inl, inr, Option,
  reverse, false, ◌≢◌, true, sym, ◌||◌, ◌&&◌, ◌∙◌, ap,
}
use personal_test_resolver.Common.Memory.{Mem, Plentiful}
use personal_test_resolver.Trie.Cover.{is_prefix, insert-walk}
use personal_test_resolver.Filter.{domain_labels, domain_blocked, add_domain, add_labels}
use personal_test_resolver.Trie.{Node, insert, walk}
use personal_test_resolver.Filter.Names.{
  name_labels, domain_labels-some, domain_labels-name_labels, name_labels-ne-nil,
}

-- Whether one list of labels is the other, or the end of it.
abbrev pub ends_in : Option (List Bytes) → Option (List Bytes) → Bool
ends_in none q = false
ends_in (some p) none = false
ends_in (some p) (some q) = is_prefix (reverse p) (reverse q)

-- Whether a domain of the filter covers a domain that is asked for: itself, or a domain above it.
abbrev pub covers : Bytes → Bytes → Bool
covers domain asked = ends_in (name_labels domain) (name_labels asked)

abbrev pub is_some {ℓ} : {A : Type ℓ} → Option A → Bool
is_some none = false
is_some (some a) = true

-- The walk over the labels of a domain, as `is_domain_blocked` does it with memory to spare.
abbrev pub walk_labels : Node → Option (List Bytes) → Bool
walk_labels t none = false
walk_labels t (some labels) = walk t (reverse labels)

domain_blocked-walk_labels :
    (t : Node) (asked : Bytes) (n : Mem)
    → Plentiful n
    → (domain_blocked t asked n).0 ≡ walk_labels t (name_labels asked)
unfolding domain_blocked
domain_blocked-walk_labels t asked n plenty = elim (Option-cases (name_labels asked)) [
  | inl fails ↦ ground (arith, domain_labels-name_labels asked n plenty)
  | inr (labels, named) ↦ ground (arith, domain_labels-name_labels asked n plenty)
]

reverse-ne-nil : (xs : List Bytes) → xs ≢ [] → reverse xs ≢ []
reverse-ne-nil xs ne e = ne (sym (reverse-reverse xs) ∙ ap reverse e)

insert-walk_path :
    (t : Node) (p : List Bytes) (m : Mem) (q : List Bytes)
    → p ≢ []
    → walk (insert t p m).0.0 q ≡ (walk t q || ((insert t p m).0.1 && is_prefix p q))
insert-walk_path t [] m q ne = absurd (ne refl)
insert-walk_path t (l ∷ ls) m q ne = insert-walk t l ls m q

-- The trie behind `add_domain`, by the labels that the domain has.
add_domain-none :
    (t : Node) (domain : Bytes) (m : Mem)
    → (domain_labels domain m).0 ≡ none
    → (add_domain t domain m).0 ≡ (t, false)
unfolding add_domain
add_domain-none t domain m e = ground arith

add_domain-some :
    (t : Node) (domain : Bytes) (m : Mem) {ls : List Bytes} {count : ℕ}
    → (domain_labels domain m).0 ≡ some (ls, count)
    → (add_domain t domain m).0 ≡ (insert t ls (domain_labels domain m).1).0
unfolding add_domain add_labels
add_domain-some t domain m e = ground arith

-- What the domain labels are, if there are any.
labels_of :
    (domain : Bytes) (m : Mem) {ls : List Bytes} {count : ℕ}
    → (domain_labels domain m).0 ≡ some (ls, count)
    → (labels : List Bytes) × (name_labels domain ≡ some labels) × (ls ≡ reverse labels)
labels_of domain m {ls} {count} e =
    let spare : Mem = record m { grants = [] } in
    let all = domain_labels-some domain m spare {r = (ls, count)} refl e in
    elim (Option-cases (name_labels domain)) [
      | inl fails ↦ absurd (ground (arith, domain_labels-name_labels domain spare refl))
      | inr (labels, named) ↦
          (labels, named, ground (arith, domain_labels-name_labels domain spare refl))
    ]

walk_labels-insert :
    (t : Node) (p : List Bytes) (m : Mem) (asked : Option (List Bytes))
    → p ≢ []
    → walk_labels (insert t (reverse p) m).0.0 asked
      ≡ (walk_labels t asked || ((insert t (reverse p) m).0.1 && ends_in (some p) asked))
walk_labels-insert t p m none ne = ground arith
walk_labels-insert t p m (some q) ne =
    insert-walk_path t (reverse p) m (reverse q) (reverse-ne-nil p ne)

-- Adding a domain, whatever memory there is for it, changes what is blocked by exactly that domain
-- and the domains below it if it succeeds, and by nothing if it fails; asked with memory to spare.
pub domain_blocked-add_domain :
    (t : Node) (domain asked : Bytes) (m n : Mem)
    → Plentiful n
    → (domain_blocked (add_domain t domain m).0.0 asked n).0
      ≡ ((domain_blocked t asked n).0 || ((add_domain t domain m).0.1 && covers domain asked))
domain_blocked-add_domain t domain asked m n plenty =
    rw (domain_blocked-walk_labels _ asked n plenty, domain_blocked-walk_labels t asked n plenty)
      (elim (Option-cases (domain_labels domain m).0) [
        | inl fails ↦ rw (add_domain-none t domain m fails) (ground arith)
        | inr ((ls, count), splits) ↦
            let (labels, named, back) = labels_of domain m splits in
            rw (add_domain-some t domain m splits, back, named)
              (walk_labels-insert t labels (domain_labels domain m).1 (name_labels asked)
                (name_labels-ne-nil domain named))
      ])
