-- ===== src/Interfaces.antt =====
-- The network addresses of crates/qomicex-connector/src/util.rs: the physical interfaces, and the
-- address that EasyTier is bound to. What the operating system lists is a parameter.
pub mod Order
pub mod Choice
use qomicex_connector_rust.Base.{
  ℕ, Text, codes, Bool, true, false, ◌&&◌, ◌||◌, List, [], ◌∷◌, ◌++◌, map, Option, none, some, any,
  ltb, ◌==◌, if◌then◌else◌, strip_prefix, to_ascii_lowercase, ipv4_text, is_loopback, is_link_local,
}

-- `network_interface::Addr`
pub data Addr : Type 0 where
  v4 : ℕ → Addr
  v6 : Addr

pub record NetworkInterface : Type 0 where
  pub name : Text
  pub addr : List Addr

begins : Option Text → Bool
begins none = false
begins (some rest) = true

-- `n.contains(k)` of a text in a text
unfoldable pub has_text : Text → Text → Bool
unfolding begins
has_text n [] = true
has_text [] (k ∷ ks) = false
has_text (c ∷ n) (k ∷ ks) = begins (strip_prefix (k ∷ ks) (c ∷ n)) || has_text n (k ∷ ks)

abbrev pub virtual_keywords : List Text
virtual_keywords =
    codes "radmin"
    ∷ codes "hamachi"
    ∷ codes "zerotier"
    ∷ codes "wintun"
    ∷ codes "tailscale"
    ∷ codes "wireguard"
    ∷ codes "openvpn"
    ∷ codes "nordvpn"
    ∷ codes "surfshark"
    ∷ codes "vmware"
    ∷ codes "virtualbox"
    ∷ codes "virtual"
    ∷ codes "loopback"
    ∷ codes "easytier"
    ∷ codes "vpn"
    ∷ codes "tun"
    ∷ codes "tap"
    ∷ []

unfoldable pub is_virtual_interface : Text → Bool
is_virtual_interface lower = any (has_text lower) virtual_keywords

-- A name and an address.
abbrev pub Candidate : Type 0
Candidate = Text × Text

unfoldable pub score : Text → ℕ
score n =
    if has_text n (codes "ethernet") || has_text n (codes "以太网")
    then 0
    else if has_text n (codes "wlan")
        || has_text n (codes "wi-fi")
        || has_text n (codes "wifi")
        || has_text n (codes "无线")
    then 1
    else 2

-- `a <= b` on strings
unfoldable pub text_leb : Text → Text → Bool
text_leb [] t = true
text_leb (c ∷ s) [] = false
text_leb (c ∷ s) (d ∷ t) = ltb c d || c == d && text_leb s t

-- `<=` on the keys `(score(n), n.clone())`
unfoldable pub key_leb : Candidate → Candidate → Bool
key_leb a b = ltb (score a.0) (score b.0) || score a.0 == score b.0 && text_leb a.0 b.0

unfoldable pub insert_candidate : Candidate → List Candidate → List Candidate
insert_candidate c [] = c ∷ []
insert_candidate c (d ∷ ds) =
    let rest = insert_candidate c ds in if key_leb c d then c ∷ d ∷ ds else d ∷ rest

-- A stable sort by the key.
unfoldable pub sort_candidates : List Candidate → List Candidate
sort_candidates [] = []
sort_candidates (c ∷ cs) = insert_candidate c (sort_candidates cs)

unfoldable pub usable : Addr → Option Text
usable v6 = none
usable (v4 a) = if is_loopback a || is_link_local a then none else some (ipv4_text a)

pushed : Text → Option Text → List Candidate → List Candidate
pushed lower none cs = cs
pushed lower (some ip) cs = (lower, ip) ∷ cs

unfoldable pub addresses_of : Text → List Addr → List Candidate
unfolding pushed
addresses_of lower [] = []
addresses_of lower (a ∷ as_) = pushed lower (usable a) (addresses_of lower as_)

unfoldable pub candidates_of : List NetworkInterface → List Candidate
candidates_of [] = []
candidates_of (iface ∷ ifaces) =
    let rest = candidates_of ifaces in
    let lower = to_ascii_lowercase iface.name in
    if is_virtual_interface lower then rest else addresses_of lower iface.addr ++ rest

-- `none` where the system does not list its interfaces.
unfoldable pub physical_ipv4_candidates : Option (List NetworkInterface) → List Text
physical_ipv4_candidates none = []
physical_ipv4_candidates (some ifaces) = map (λ c. c.1) (sort_candidates (candidates_of ifaces))

unfoldable pub head : List Text → Option Text
head [] = none
head (t ∷ ts) = some t

unfoldable pub resolve_bind_ip : Option (List NetworkInterface) → Option Text
resolve_bind_ip ifaces = head (physical_ipv4_candidates ifaces)
