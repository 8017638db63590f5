-- ===== src/Interfaces/Choice.antt =====
-- The address that EasyTier is bound to.
use qomicex_connector_rust.Base.{
  ℕ, ◌≤◌, ◌≡◌, refl, ◌⊎◌, Text, false, List, [], ◌∷◌, map, Option, none, some, arith, All,
  All-append, Bool-cases, inl, inr, Option-cases, to_ascii_lowercase, ipv4_text, is_loopback,
  is_link_local,
}
use qomicex_connector_rust.Interfaces.{
  Addr, v4, v6, NetworkInterface, Candidate, is_virtual_interface, score, sort_candidates, usable,
  addresses_of, candidates_of, physical_ipv4_candidates, head, resolve_bind_ip,
}
use qomicex_connector_rust.Interfaces.Order.{
  IsSorted, sort_candidates-IsSorted, sort_candidates-All, All-sort_candidates, first_is_best,
}

abbrev pub IsOneOf : Candidate → List Candidate → Type 0
IsOneOf c [] = ⊥
IsOneOf c (d ∷ ds) = (c ≡ d) ⊎ IsOneOf c ds

All-IsOneOf :
    (ds cs : List Candidate)
    → ((c : Candidate) → IsOneOf c ds → IsOneOf c cs)
    → All (λ c. IsOneOf c cs) ds
All-IsOneOf [] cs f = tt
All-IsOneOf (d ∷ ds) cs f = (f d (inl refl), All-IsOneOf ds cs (λ c m. f c (inr m)))

-- An address of version 4 on an interface that is not virtual, neither a loopback nor a link-local one.
pub record IsPhysical (c : Candidate) : Type 0 where
  pub real : is_virtual_interface c.0 ≡ false
  pub address : ℕ
  pub text : c.1 ≡ ipv4_text address
  pub outward : (is_loopback address ≡ false) × (is_link_local address ≡ false)

usable_sound :
    (a : Addr) (ip : Text)
    → usable a ≡ some ip
    → (n : ℕ) × (ip ≡ ipv4_text n) × (is_loopback n ≡ false) × (is_link_local n ≡ false)
unfolding usable
usable_sound v6 ip e = cc
usable_sound (v4 n) ip e = elim (Bool-cases (is_loopback n)) [
  | inl l ↦ ground arith
  | inr l ↦ elim (Bool-cases (is_link_local n)) [
    | inl k ↦ ground arith
    | inr k ↦ (n, ground arith, l, k)
  ]
]

addresses_of-IsPhysical :
    (lower : Text) (addrs : List Addr)
    → is_virtual_interface lower ≡ false
    → All IsPhysical (addresses_of lower addrs)
unfolding addresses_of
addresses_of-IsPhysical lower [] v = tt
addresses_of-IsPhysical lower (a ∷ rest) v =
    let later = addresses_of-IsPhysical lower rest v in
    elim (Option-cases (usable a)) [
      | inl e ↦ rw e later
      | inr (ip, e) ↦
          let (n, t, l, k) = usable_sound a ip e in
          rw e (record { real = v; address = n; text = t; outward = (l, k) }, later)
    ]

candidates_of-IsPhysical : (ifaces : List NetworkInterface) → All IsPhysical (candidates_of ifaces)
unfolding candidates_of
candidates_of-IsPhysical [] = tt
candidates_of-IsPhysical (iface ∷ ifaces) =
    let later = candidates_of-IsPhysical ifaces in
    elim (Bool-cases (is_virtual_interface (to_ascii_lowercase iface.name))) [
      | inl v ↦ rw v later
      | inr v ↦ rw v (
          All-append IsPhysical (addresses_of (to_ascii_lowercase iface.name) iface.addr)
            (candidates_of ifaces)
            (addresses_of-IsPhysical (to_ascii_lowercase iface.name) iface.addr v) later)
    ]

-- The candidate that is chosen among some.
pub record IsBest (cs : List Candidate) (ip : Text) : Type 0 where
  pub chosen : Candidate
  pub its_address : chosen.1 ≡ ip
  pub one_of : IsOneOf chosen cs
  pub physical : IsPhysical chosen
  pub least : All (λ d. score chosen.0 ≤ score d.0) cs

-- Without a candidate nothing is chosen, and otherwise the best.
abbrev pub IsChoice : List Candidate → Option Text → Type 0
IsChoice cs none = cs ≡ []
IsChoice cs (some ip) = IsBest cs ip

empty_of_none : (cs : List Candidate) → All (λ c. ⊥) cs → cs ≡ []
empty_of_none [] h = refl
empty_of_none (c ∷ cs) h = absurd h.0

first-IsChoice :
    (cs sorted : List Candidate)
    → All IsPhysical sorted
    → All (λ c. IsOneOf c cs) sorted
    → IsSorted sorted
    → ((P : Candidate → Type 0) → All P sorted → All P cs)
    → IsChoice cs (head (map (λ c. c.1) sorted))
unfolding head
first-IsChoice cs [] p m s back = empty_of_none cs (back (λ c. ⊥) tt)
first-IsChoice cs (c ∷ rest) p m s back = record {
  chosen = c;
  its_address = refl;
  one_of = m.0;
  physical = p.0;
  least = back (λ d. score c.0 ≤ score d.0) (first_is_best c rest s);
}

-- The address that is chosen is that of a physical candidate of the best class, wired before wireless
-- before all else; none is chosen exactly where there is no candidate.
pub resolve_bind_ip-IsChoice :
    (ifaces : List NetworkInterface)
    → IsChoice (candidates_of ifaces) (resolve_bind_ip (some ifaces))
unfolding resolve_bind_ip physical_ipv4_candidates
resolve_bind_ip-IsChoice ifaces =
    let cs = candidates_of ifaces in
    first-IsChoice cs (sort_candidates cs)
      (sort_candidates-All IsPhysical cs (candidates_of-IsPhysical ifaces))
      (sort_candidates-All (λ c. IsOneOf c cs) cs (All-IsOneOf cs cs (λ c m. m)))
      (sort_candidates-IsSorted cs) (λ P. All-sort_candidates P cs)
