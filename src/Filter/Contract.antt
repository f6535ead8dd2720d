-- ===== src/Filter/Contract.antt =====
-- The wrapper `filter_t` against what it promises: a list of domains that calls add to and ask about.
use personal_test_resolver.Common.{
  ℕ, ◌+◌, ◌≡◌, refl, Bool, none, some, List, [], ◌∷◌, Bytes, arith, ◌-◌, Option-cases, inl, inr,
}
use personal_test_resolver.Filter.{
  filter_lookup, filter_init, filter_insert, Filter, is_domain_blocked, filter_add_domain,
  add_domain, domain_blocked, filter_free,
}
use personal_test_resolver.Trie.{Node, filter_node_create, empty_node}
use personal_test_resolver.Filter.Blocking.{is_some, domain_blocked-add_domain}
use personal_test_resolver.Common.Memory.{Mem, Plentiful, malloc_live, malloc-Plentiful, malloc}
use personal_test_resolver.Filter.Names.{name_labels}
use personal_test_resolver.Trie.Blocks.{trie_blocks, filter_node_free_live}
use personal_test_resolver.Filter.Lists.{
  any_covers, add_domain-is_some, covers_named, empty-blocks-none,
}
use personal_test_resolver.Filter.Scarce.{domain_blocked_keeps}
use personal_test_resolver.Filter.Blocks.{add_domain_live, domain_blocked_live}

-- A call of `filter_insert` or `filter_lookup` with a domain.
pub data Call : Type 0 where
  insert_call : Bytes → Call
  lookup_call : Bytes → Call

-- The calls one after the other: what each returns, the filter and the heap at the end.
unfoldable pub run : List Call → Filter → Mem → List Bool × Filter × Mem
run [] f m = ([], f, m)
run (insert_call domain ∷ calls) f m =
    let ((f', added), m1) = filter_insert (some f) (some domain) m in
    let (results, last, m2) = run calls (elim f' [ none ↦ f | some g ↦ g ]) m1 in
    (added ∷ results, last, m2)
run (lookup_call domain ∷ calls) f m =
    let (blocked, m1) = filter_lookup (some f) (some domain) m in
    let (results, last, m2) = run calls f m1 in (blocked ∷ results, last, m2)

-- What the calls should return, for the domains that were given to `filter_insert` so far.
unfoldable pub promised : List Call → List Bytes → List Bool
promised [] ds = []
promised (insert_call domain ∷ calls) ds =
    is_some (name_labels domain) ∷ promised calls (domain ∷ ds)
promised (lookup_call domain ∷ calls) ds = any_covers ds domain ∷ promised calls ds

-- The trie blocks what the domains cover.
abbrev Blocks : Node → List Bytes → Type 0
Blocks t ds =
    (asked : Bytes) (n : Mem) → Plentiful n → (domain_blocked t asked n).0 ≡ any_covers ds asked

abbrev with_trie : Node → Filter
with_trie t = record { root = some t }

run-insert :
    (domain : Bytes) (calls : List Call) (t : Node) (m : Mem)
    → run (insert_call domain ∷ calls) (with_trie t) m ≡ (
      (add_domain t domain m).0.1
          ∷ (run calls (with_trie (add_domain t domain m).0.0) (add_domain t domain m).1).0,
      (run calls (with_trie (add_domain t domain m).0.0) (add_domain t domain m).1).1,
      (run calls (with_trie (add_domain t domain m).0.0) (add_domain t domain m).1).2,
    )
unfolding run filter_insert filter_add_domain
run-insert domain calls t m = refl

run-lookup :
    (domain : Bytes) (calls : List Call) (t : Node) (m : Mem)
    → run (lookup_call domain ∷ calls) (with_trie t) m ≡ (
      (domain_blocked t domain m).0 ∷ (run calls (with_trie t) (domain_blocked t domain m).1).0,
      (run calls (with_trie t) (domain_blocked t domain m).1).1,
      (run calls (with_trie t) (domain_blocked t domain m).1).2,
    )
unfolding run filter_lookup is_domain_blocked
run-lookup domain calls t m = refl

add_domain-Blocks :
    (t : Node) (ds : List Bytes) (domain : Bytes) (m : Mem)
    → Plentiful m
    → Blocks t ds
    → Blocks (add_domain t domain m).0.0 (domain ∷ ds)
add_domain-Blocks t ds domain m plenty b asked n spare =
    rw
      (
        domain_blocked-add_domain t domain asked m n spare,
        (add_domain-is_some t domain m plenty).0,
        covers_named domain asked,
        b asked n spare,
      )
      (ground arith)

run-promised :
    (calls : List Call) (t : Node) (ds : List Bytes) (m : Mem)
    → Plentiful m
    → Blocks t ds
    → (run calls (with_trie t) m).0 ≡ promised calls ds
run-promised [] t ds m plenty b = unfold run promised in refl
run-promised (insert_call domain ∷ calls) t ds m plenty b =
    let (added, keeps) = add_domain-is_some t domain m plenty in
    rw
      (
        run-insert domain calls t m,
        added,
        run-promised calls (add_domain t domain m).0.0 (domain ∷ ds) (add_domain t domain m).1 keeps
            (add_domain-Blocks t ds domain m plenty b),
      )
      (unfold promised in refl)
run-promised (lookup_call domain ∷ calls) t ds m plenty b =
    rw
      (
        run-lookup domain calls t m,
        b domain m plenty,
        run-promised calls t ds (domain_blocked t domain m).1
            (domain_blocked_keeps t domain m plenty) b,
      )
      (unfold promised in refl)

-- With memory to spare `filter_init` makes a filter, on which any calls of `filter_insert` and
-- `filter_lookup` return what they would on a plain list of domains: an insertion succeeds if its text
-- is a domain, and a lookup finds what one of the domains inserted before it covers.
pub filter_init-promised :
    (calls : List Call) (m : Mem)
    → Plentiful m
    → (f : Filter) × (m1 : Mem) × (filter_init m ≡ (some f, m1))
      × ((run calls f m1).0 ≡ promised calls [])
unfolding filter_init filter_node_create
filter_init-promised calls m plenty =
    let m1 : Mem = record m { live = m.live + 2 } in
    (
      with_trie (empty_node none),
      m1,
      ground (
        arith,
        malloc-Plentiful m plenty,
        malloc-Plentiful (record m { live = m.live + 1 }) plenty,
      ),
      run-promised calls (empty_node none) [] m1 plenty
          (λ asked n spare. empty-blocks-none asked n),
    )

-- The blocks of a filter.
abbrev owned : Filter → ℕ
owned f = elim f.root [ none ↦ 1 | some t ↦ 1 + trie_blocks t ]

run_live :
    (calls : List Call) (t : Node) (m : Mem)
    → (run calls (with_trie t) m).2.live + 1 + trie_blocks t
      ≡ m.live + owned (run calls (with_trie t) m).1
run_live [] t m = unfold run in omega arith
run_live (insert_call domain ∷ calls) t m =
    let t' = (add_domain t domain m).0.0 in
    let m' = (add_domain t domain m).1 in
    rw (run-insert domain calls t m)
      (omega (arith, add_domain_live t domain m, run_live calls t' m'))
run_live (lookup_call domain ∷ calls) t m =
    rw (run-lookup domain calls t m) (
      omega (arith, domain_blocked_live t domain m, run_live calls t (domain_blocked t domain m).1))

filter_init_live :
    (m m1 : Mem) {f : Filter}
    → filter_init m ≡ (some f, m1)
    → (t : Node) × (f ≡ with_trie t) × (m1.live ≡ m.live + 1 + trie_blocks t)
unfolding filter_init filter_node_create trie_blocks
filter_init_live m m1 {f} e =
    (empty_node none, ground arith, ground (arith, malloc_live m, malloc_live (malloc m).1))

filter_free_live : (f : Filter) (m : Mem) → (filter_free (some f) m).live ≡ m.live - owned f
unfolding filter_free
filter_free_live f m = elim (Option-cases f.root) [
  | inl null ↦ ground arith
  | inr (t, there) ↦ ground (arith, filter_node_free_live t m)
]

-- A filter that `filter_init` made, on which any calls of `filter_insert` and `filter_lookup` were
-- made, whichever requests for memory were refused on the way: `filter_free` gives back all that was
-- taken.
pub filter_free-run :
    (calls : List Call) (m m1 : Mem) {f : Filter}
    → filter_init m ≡ (some f, m1)
    → (filter_free (some (run calls f m1).1) (run calls f m1).2).live ≡ m.live
filter_free-run calls m m1 {f} made =
    let (t, is, taken) = filter_init_live m m1 made in
    rw is (
      omega (
        arith,
        run_live calls t m1,
        taken,
        filter_free_live (run calls (with_trie t) m1).1 (run calls (with_trie t) m1).2,
      ))
