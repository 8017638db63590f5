-- ===== src/EasyTier/Config/Built.antt =====
-- What the configuration of an instance contains, and when it can be built.
use qomicex_connector_rust.Base.{
  ◌≡◌, refl, ap, sym, subst, ◌∙◌, Text, codes, Bool, true, false, List, [], ◌∷◌, map, Option, none,
  some,
}
use qomicex_connector_rust.Base.Result.{ok, ok_or, >>=-eq-ok}
use qomicex_connector_rust.Error.{Outcome, ScaffoldingError}
use qomicex_connector_rust.Models.Network.{NetworkConfig}
use qomicex_connector_rust.EasyTier.Config.{
  Addresses, TomlConfig, parse_port_forward, parse_listener, parse_peer, addressed, listening,
  set_address, set_listeners, set_flags, build_toml_config, collect, with_prefix, listener_uris,
  peer_uris,
}

ok-inj : {A : Type 0} (a b : A) → ◌≡◌ {A = Outcome A} (ok a) (ok b) → a ≡ b
ok-inj a b e = cc e

ok_or-ok :
    {A : Type 0} (o : Option A) (why : ScaffoldingError) {a : A} → ok_or o why ≡ ok a → o ≡ some a
ok_or-ok none why e = cc e
ok_or-ok (some b) why e = cc e

collect-ok :
    {A B : Type 0} (f : A → Outcome B) (xs : List A) (ys : List B)
    → collect f xs ≡ ok ys
    → map f xs ≡ map ok ys
unfolding collect
collect-ok f [] ys e = ap (map ok) (ok-inj [] ys e)
collect-ok f (x ∷ xs) ys e =
    let (y, fx, e1) = >>=-eq-ok (f x) _ e in
    let (zs, fxs, e2) = >>=-eq-ok (collect f xs) _ e1 in
    let rest : map f xs ≡ map ok zs = collect-ok f xs zs fxs in
    let front : map f (x ∷ xs) ≡ map ok (y ∷ zs) = cc (fx, rest) in
    front ∙ ap (map ok) (ok-inj (y ∷ zs) ys e2)

module _ (api : Addresses) where
  -- A fixed address is set with its mask, and otherwise dhcp as configured.
  abbrev pub IsAddressed : TomlConfig api → NetworkConfig → Option Text → TomlConfig api → Type 0
  IsAddressed default config none cfg = (cfg.dhcp ≡ config.dhcp) × (cfg.ipv4 ≡ default.ipv4)
  IsAddressed default config (some ip) cfg =
      (cfg.dhcp ≡ default.dhcp) × (cfg.ipv4 ≡ api.ipv4_inet (with_prefix ip))

  -- Two random ports on the address to bind to, or the library's default.
  abbrev pub IsListening : TomlConfig api → NetworkConfig → Bool → TomlConfig api → Type 0
  IsListening default config false cfg = cfg.listeners ≡ default.listeners
  IsListening default config true cfg =
      map (parse_listener api) (listener_uris config.bind_ip) ≡ map ok cfg.listeners

  pub record IsBuilt (default : TomlConfig api) (config : NetworkConfig) (cfg : TomlConfig api)
      : Type 0 where
    pub identity : cfg.network_identity ≡ (config.network_name, config.network_secret)
    pub hostname : cfg.hostname ≡ some config.hostname
    pub address : IsAddressed default config config.ipv4 cfg
    pub listening : IsListening default config config.listen_random_ports cfg
    pub tun : (cfg.flags.no_tun ≡ config.no_tun) × (cfg.flags.use_smoltcp ≡ config.use_smoltcp)
    pub tcp : cfg.tcp_whitelist ≡ codes "0" ∷ config.tcp_whitelist
    pub udp : cfg.udp_whitelist ≡ codes "0" ∷ []
    pub peers : map (parse_peer api) (peer_uris config.relay_nodes) ≡ map ok cfg.peers
    pub forwards : map (parse_port_forward api) config.port_forwards ≡ map ok cfg.port_forwards

  addressed-IsAddressed :
      (config : NetworkConfig) (cfg cfg' : TomlConfig api) (o : Option Text)
      → addressed api config cfg o ≡ ok cfg'
      → IsAddressed cfg config o cfg' × (cfg' ≡ record cfg { dhcp = cfg'.dhcp; ipv4 = cfg'.ipv4 })
  unfolding addressed
  addressed-IsAddressed config cfg cfg' none e =
      let q = ok-inj (record cfg { dhcp = config.dhcp }) cfg' e in
      subst (λ c. IsAddressed cfg config none c × (c ≡ record cfg { dhcp = c.dhcp; ipv4 = c.ipv4 }))
        q ((refl, refl), refl)
  addressed-IsAddressed config cfg cfg' (some ip) e =
      let (a, n, e1) = >>=-eq-ok (ok_or (api.ipv4_inet (with_prefix ip)) _) _ e in
      subst
        (λ c.
          IsAddressed cfg config (some ip) c × (c ≡ record cfg { dhcp = c.dhcp; ipv4 = c.ipv4 }))
        (ok-inj (record cfg { ipv4 = some a }) cfg' e1)
        ((refl, sym (ok_or-ok (api.ipv4_inet (with_prefix ip)) _ n)), refl)

  IsAddressed-kept :
      (default : TomlConfig api) (config : NetworkConfig) (o : Option Text)
      (cfg cfg' : TomlConfig api)
      → cfg'.dhcp ≡ cfg.dhcp
      → cfg'.ipv4 ≡ cfg.ipv4
      → IsAddressed default config o cfg
      → IsAddressed default config o cfg'
  IsAddressed-kept default config none cfg cfg' d i h = (d ∙ h.0, i ∙ h.1)
  IsAddressed-kept default config (some ip) cfg cfg' d i h = (d ∙ h.0, i ∙ h.1)

  IsListening-kept :
      (before default : TomlConfig api) (config : NetworkConfig) (b : Bool)
      (cfg cfg' : TomlConfig api)
      → before.listeners ≡ default.listeners
      → cfg'.listeners ≡ cfg.listeners
      → IsListening before config b cfg
      → IsListening default config b cfg'
  IsListening-kept before default config false cfg cfg' d l h = l ∙ h ∙ d
  IsListening-kept before default config true cfg cfg' d l h = h ∙ ap (map ok) (sym l)

  listening-IsListening :
      (config : NetworkConfig) (cfg cfg' : TomlConfig api) (b : Bool)
      → listening api config cfg b ≡ ok cfg'
      → IsListening cfg config b cfg' × (cfg' ≡ record cfg { listeners = cfg'.listeners })
  unfolding listening
  listening-IsListening config cfg cfg' false e =
      subst (λ c. IsListening cfg config false c × (c ≡ record cfg { listeners = c.listeners }))
        (ok-inj cfg cfg' e) (refl, refl)
  listening-IsListening config cfg cfg' true e =
      let (urls, all, e1) =
        >>=-eq-ok (collect (parse_listener api) (listener_uris config.bind_ip)) _ e in
      subst (λ c. IsListening cfg config true c × (c ≡ record cfg { listeners = c.listeners }))
        (ok-inj (record cfg { listeners = urls }) cfg' e1)
        (collect-ok (parse_listener api) (listener_uris config.bind_ip) urls all, refl)

  -- A configuration that is built names the network and the node, has the address or dhcp, the ports to
  -- listen on, the switches and the whitelists of the one that it is built of, and all of its relay
  -- nodes and forwarding rules could be read and are in it, in order.
  pub build_toml_config-IsBuilt :
      (default : TomlConfig api) (config : NetworkConfig) (cfg : TomlConfig api)
      → build_toml_config api default config ≡ ok cfg
      → IsBuilt default config cfg
  unfolding build_toml_config set_address set_listeners set_flags
  build_toml_config-IsBuilt default config cfg e =
      let named = record default {
        network_identity = (config.network_name, config.network_secret);
        hostname = some config.hostname;
      } in
      let (at, a, e1) = >>=-eq-ok (addressed api config named config.ipv4) _ e in
      let (on, l, e2) = >>=-eq-ok (listening api config at config.listen_random_ports) _ e1 in
      let (peers, p, e3) =
        >>=-eq-ok (collect (parse_peer api) (peer_uris config.relay_nodes)) _ e2 in
      let (fs, f, e4) = >>=-eq-ok (collect (parse_port_forward api) config.port_forwards) _ e3 in
      let (address, sa) = addressed-IsAddressed config named at config.ipv4 a in
      let (ports, sl) = listening-IsListening config at on config.listen_random_ports l in
      let switched = set_flags api config on in
      let built = record switched {
        tcp_whitelist = codes "0" ∷ config.tcp_whitelist;
        udp_whitelist = codes "0" ∷ [];
        peers = peers;
        port_forwards = fs;
      } in
      subst (IsBuilt default config) (ok-inj built cfg e4) (record {
        identity = ap (λ c. c.network_identity) sl ∙ ap (λ c. c.network_identity) sa;
        hostname = ap (λ c. c.hostname) sl ∙ ap (λ c. c.hostname) sa;
        address =
            IsAddressed-kept default config config.ipv4 at built (ap (λ c. c.dhcp) sl)
              (ap (λ c. c.ipv4) sl) address;
        listening =
            IsListening-kept at default config config.listen_random_ports on built
              (ap (λ c. c.listeners) sa) refl ports;
        tun = (refl, refl);
        tcp = refl;
        udp = refl;
        peers = collect-ok (parse_peer api) (peer_uris config.relay_nodes) peers p;
        forwards = collect-ok (parse_port_forward api) config.port_forwards fs f;
      })
