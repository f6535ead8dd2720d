-- ===== src/Resolver/Address.antt =====
-- The address that resolver.c takes for the upstream server.
use personal_test_resolver.Common.{
  ◌≡◌, refl, none, some, List, [], ◌∷◌, ◌++◌, Bytes, arith, true, false, ◌⊎◌, inl, inr, take, All,
  ap, Bool-cases, Option-cases,
}
use personal_test_resolver.Resolver.{
  resolve_upstream_address, first_ipv4, Network, AddressInfo, World,
}

-- An entry that the loop over the address list passes over.
abbrev pub IsPassed : AddressInfo → Type 0
IsPassed info = (info.is_inet ≡ false) ⊎ (info.text ≡ none)

-- The first IPv4 address of a list that has a text is `ip`.
pub record IsFirst (infos : List AddressInfo) (ip : Bytes) : Type 0 where
  pub front : List AddressInfo
  pub info : AddressInfo
  pub back : List AddressInfo
  pub whole : infos ≡ front ++ info ∷ back
  pub passed : All IsPassed front
  pub is_inet : info.is_inet ≡ true
  pub text : info.text ≡ some ip

-- The text of the upstream server's address: a numeric one stands for itself, a name for the first
-- that it is known by.
pub data Resolves (net : Network) (host : Bytes) : Bytes → Type 0 where
  numeric : {ip : Bytes} → net.is_ipv4 host ≡ true → ip ≡ take 15 host → Resolves net host ip
  named :
      {ip : Bytes} {infos : List AddressInfo}
      → net.is_ipv4 host ≡ false
      → net.getaddrinfo host ≡ some infos
      → IsFirst infos ip
      → Resolves net host ip

first_ipv4-IsFirst :
    (infos : List AddressInfo) {ip : Bytes} → first_ipv4 infos ≡ some ip → IsFirst infos ip
unfolding first_ipv4
first_ipv4-IsFirst [] e = absurd (ground arith)
first_ipv4-IsFirst (info ∷ infos) {ip} e = elim (Bool-cases info.is_inet) [
  | inl inet ↦ elim (Option-cases info.text) [
    | inl null ↦ pass info infos (inr null) (first_ipv4-IsFirst infos (ground arith))
    | inr (found, there) ↦ record {
      front = [];
      info = info;
      back = infos;
      whole = refl;
      passed = tt;
      is_inet = inet;
      text = ground arith;
    }
  ]
  | inr other ↦ pass info infos (inl other) (first_ipv4-IsFirst infos (ground arith))
]
  where
    pass :
        {ip : Bytes} (info : AddressInfo) (infos : List AddressInfo)
        → IsPassed info
        → IsFirst infos ip
        → IsFirst (info ∷ infos) ip
    pass info infos p v = record {
      front = info ∷ v.front;
      info = v.info;
      back = v.back;
      whole = ap (◌∷◌ info) v.whole;
      passed = (p, v.passed);
      is_inet = v.is_inet;
      text = v.text;
    }

first_ipv4-found :
    (front : List AddressInfo) (info : AddressInfo) (back : List AddressInfo) {ip : Bytes}
    → All IsPassed front
    → info.is_inet ≡ true
    → info.text ≡ some ip
    → first_ipv4 (front ++ info ∷ back) ≡ some ip
unfolding first_ipv4
first_ipv4-found [] info back passed inet there = ground arith
first_ipv4-found (other ∷ front) info back (inl skipped, passed) inet there =
    ground (arith, first_ipv4-found front info back passed inet there)
first_ipv4-found (other ∷ front) info back (inr skipped, passed) inet there =
    ground (arith, first_ipv4-found front info back passed inet there)

pub resolve-Resolves :
    (net : Network) (host : Bytes) (w : World) {ip : Bytes}
    → (resolve_upstream_address net (some host) w).0 ≡ some ip
    → Resolves net host ip
unfolding resolve_upstream_address
resolve-Resolves net host w e = elim (Bool-cases (net.is_ipv4 host)) [
  | inl number ↦ numeric number (ground arith)
  | inr name ↦ elim (Option-cases (net.getaddrinfo host)) [
    | inl fails ↦ absurd (ground arith)
    | inr (infos, known) ↦ named name known (first_ipv4-IsFirst infos (ground arith))
  ]
]

pub Resolves-resolve :
    (net : Network) (host : Bytes) (w : World) {ip : Bytes}
    → Resolves net host ip
    → ((resolve_upstream_address net (some host) w).0 ≡ some ip)
      × ((resolve_upstream_address net (some host) w).1.mem ≡ w.mem)
unfolding resolve_upstream_address
Resolves-resolve net host w (numeric number is) = ground arith
Resolves-resolve net host w (named name known v) =
    ground (arith, v.whole, first_ipv4-found v.front v.info v.back v.passed v.is_inet v.text)
