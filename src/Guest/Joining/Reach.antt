-- ===== src/Guest/Joining/Reach.antt =====
-- When a guest is connected.
use qomicex_connector_rust.Base.{
  ℕ, zero, suc, ◌≡◌, refl, ◌⊎◌, inl, inr, ap, sym, subst, Text, Bool, true, false, Option, none,
  some, arith, if◌then◌else◌, codes, Bytes,
}
use qomicex_connector_rust.Base.Result.{Result, ok, err, is_ok}
use qomicex_connector_rust.Error.{Outcome}
use qomicex_connector_rust.Json.{JsonApi}
use qomicex_connector_rust.Models.Protocol.{ProtocolRequest}
use qomicex_connector_rust.Models.RoomCode.{RoomCode}
use qomicex_connector_rust.Core.Discovery.{CenterDiscoveryResult, discover}
use qomicex_connector_rust.Guest.Tcp.{Exchange, is_connected, send, connect, disconnect}
use qomicex_connector_rust.Guest.Session.{Profile, Guest, Act, lift, request, and_then}
use qomicex_connector_rust.Guest.Requests.{
  agree, center_request, as_protocol, profile_entry, negotiate_protocols, send_player_ping,
}
use qomicex_connector_rust.Guest.Joining.{
  Attempt, settled, greeted, reached, try_connect_once, try_connect_with_retry, through_forward,
  end_of_retries, apply_port_forward_patch, guest_config, connect_room, Way, forward_rule,
  push_forward, endpoint, local_host,
}

abbrev pub IsConnected : Guest → Type 0
IsConnected g = is_connected g.tcp ≡ true

-- A request does not end the connection, whatever it is answered.
pub request-IsConnected :
    (req : ProtocolRequest) (ex : Exchange) (g : Guest)
    → IsConnected g
    → IsConnected (request req ex g).1
unfolding send is_connected
request-IsConnected req ex g h = ground arith

and_then-IsConnected :
    {A B : Type 0} (m : Outcome A × Guest) (f : A → Act B)
    → IsConnected m.1
    → ((a : A) (g : Guest) → IsConnected g → IsConnected (f a g).1)
    → IsConnected (and_then m f).1
and_then-IsConnected (ok a, g) f h keep = keep a g h
and_then-IsConnected (err e, g) f h keep = h

-- What holds behind an action that went through.
and_then_ensures :
    {A B : Type 0} (Q : Guest → Type 0) (m : Outcome A × Guest) (f : A → Act B) {b : B}
    → ((a : A) (g : Guest) → m ≡ (ok a, g) → (f a g).0 ≡ ok b → Q (f a g).1)
    → (and_then m f).0 ≡ ok b
    → Q (and_then m f).1
and_then_ensures Q (ok a, g) f keep h = keep a g refl h
and_then_ensures Q (err e, g) f keep h = cc

negotiate_protocols-IsConnected :
    (p : Profile) (ex : Exchange) (g : Guest)
    → IsConnected g
    → IsConnected (negotiate_protocols p ex g).1
unfolding negotiate_protocols agree
negotiate_protocols-IsConnected p ex g h =
    and_then-IsConnected _ (agree p) (request-IsConnected _ ex g h) (λ r g' k. ground arith)

-- The answer says whether the guest is connected.
abbrev pub Decided : Outcome Bool × Guest → Type 0
Decided (outcome, g) = outcome ≡ ok (is_connected g.tcp)

-- Connected, or given up.
abbrev pub Tried : Outcome Bool × Guest → Type 0
Tried (outcome, g) = ((outcome ≡ ok true) × IsConnected g) ⊎ (outcome ≡ ok false)

module _ (J : JsonApi) (p : Profile) (node_id : Option Text) where
  send_player_ping-IsConnected :
      (ex : Exchange) (g : Guest)
      → IsConnected g
      → IsConnected (send_player_ping J p node_id ex g).1
  unfolding send_player_ping
  send_player_ping-IsConnected ex g h =
      rw h (sent (J.entry_to_vec (profile_entry p g.negotiated node_id)))
    where
      sent :
          (r : Result Text Bytes)
          → IsConnected
              (and_then {B = Unit {0}}
                (as_protocol r, g)
                (λ body g'.
                  and_then {B = Unit {0}}
                    (request (center_request (codes "player_ping") body) ex g')
                    (λ response g''. (ok tt, g'')))).1
      sent (err e) = h
      sent (ok body) =
          and_then-IsConnected {B = Unit {0}}
            (request (center_request (codes "player_ping") body) ex g) (λ response g'. (ok tt, g'))
            (request-IsConnected (center_request (codes "player_ping") body) ex g h)
            (λ response g' k. k)

  greeted-IsConnected :
      (a : Attempt) (g : Guest) → IsConnected g → IsConnected (greeted J p node_id a g).1
  unfolding greeted
  greeted-IsConnected a g h =
      let pinged = send_player_ping-IsConnected a.ping_exchange g h in
      let (outcome, g') = send_player_ping J p node_id a.ping_exchange g in
      ground (arith, pinged, negotiate_protocols-IsConnected p a.negotiation g')

  settled-Decided : (b : Bool) (g : Guest) → IsConnected g → Decided (settled J p node_id b g)
  unfolding settled disconnect is_connected
  settled-Decided true g h = ap ok (sym h)
  settled-Decided false g h = refl

  reached-Decided :
      (address : Text) (a : Attempt) (c : Option (Result Text (Unit {0}))) (g : Guest)
      → Decided (reached J p node_id address a c g)
  unfolding reached
  reached-Decided address a none g = unfold disconnect is_connected in refl
  reached-Decided address a (some (err e)) g = unfold disconnect is_connected in refl
  reached-Decided address a (some (ok u)) g =
      let start = record g { tcp = (connect address (ok u) g.tcp).1 } in
      let (joined, end) = greeted J p node_id a start in
      settled-Decided joined end (greeted-IsConnected a start (unfold connect is_connected in refl))

  -- An attempt returns no error; its answer says whether the guest is connected after it.
  pub try_connect_once-Decided :
      (address : Text) (a : Attempt) (g : Guest)
      → Decided (try_connect_once J p node_id address a g)
  unfolding try_connect_once
  try_connect_once-Decided address a g = reached-Decided address a a.connected g

  Tried-true : (b : Bool) (g : Guest) → Tried (ok b, g) → b ≡ true → IsConnected g
  Tried-true b g (inl (e, h)) t = h
  Tried-true b g (inr e) t = cc

  branch-Tried :
      (stop b : Bool) (g g' : Guest) (rest : Outcome Bool × Guest)
      → b ≡ is_connected g'.tcp
      → Tried rest
      → Tried (if stop then (ok false, g) else if b then (ok true, g') else rest)
  branch-Tried true b g g' rest e h = inr refl
  branch-Tried false true g g' rest e h = inl (refl, sym e)
  branch-Tried false false g g' rest e h = h

  pub retry_step :
      (address : Text) (attempts : ℕ → Attempt) (cancelled : ℕ → Bool) (left i : ℕ) (g : Guest)
      → (let (outcome, g') = try_connect_once J p node_id address (attempts i) g in
          try_connect_with_retry J p node_id address attempts cancelled (suc left) i g ≡ (
            if cancelled i
            then (ok false, g)
            else if is_connected g'.tcp
            then (ok true, g')
            else try_connect_with_retry J p node_id address attempts cancelled left (suc i) g'))
  unfolding try_connect_with_retry
  retry_step address attempts cancelled left i g =
      ground (arith, try_connect_once-Decided address (attempts i) g)

  try_connect_with_retry-Tried :
      (address : Text) (attempts : ℕ → Attempt) (cancelled : ℕ → Bool) (left i : ℕ) (g : Guest)
      → Tried (try_connect_with_retry J p node_id address attempts cancelled left i g)
  try_connect_with_retry-Tried address attempts cancelled zero i g =
      unfold try_connect_with_retry in inr refl
  try_connect_with_retry-Tried address attempts cancelled (suc left) i g =
      let g' = (try_connect_once J p node_id address (attempts i) g).1 in
      subst Tried (sym (retry_step address attempts cancelled left i g)) (
        branch-Tried (cancelled i) (is_connected g'.tcp) g g' _ refl
          (try_connect_with_retry-Tried address attempts cancelled left (suc i) g'))

  module _ {Addr : Type 0} (socket_addr : Text → Option Addr)
      (patch : Addr × Addr → Outcome (Unit {0})) where
    end_of_retries-IsConnected :
        (b : Bool) (g : Guest)
        → (b ≡ true → IsConnected g)
        → (end_of_retries J p node_id socket_addr patch b g).0 ≡ ok tt
        → IsConnected (end_of_retries J p node_id socket_addr patch b g).1
    unfolding end_of_retries
    end_of_retries-IsConnected true g h e = h refl
    end_of_retries-IsConnected false g h e = cc

    through_forward-IsConnected :
        (way : Way) (center : CenterDiscoveryResult) (direct : Bool) (g : Guest)
        → is_connected g.tcp ≡ direct
        → (through_forward J p node_id socket_addr patch way center direct g).0 ≡ ok tt
        → IsConnected (through_forward J p node_id socket_addr patch way center direct g).1
    unfolding through_forward
    through_forward-IsConnected way center true g h e = h
    through_forward-IsConnected way center false g h e =
        let forward = forward_rule way.local_port center.virtual_ip center.port in
        let ready = record g { config = push_forward forward g.config } in
        and_then_ensures IsConnected
          (apply_port_forward_patch J p node_id socket_addr patch forward ready) _
          (λ u g1 e1 h1.
            and_then_ensures IsConnected
              (try_connect_with_retry J p node_id (endpoint local_host way.local_port) way.attempts
                way.cancelled 10 1 g1)
              _
              (λ b g2 e2 h2.
                end_of_retries-IsConnected b g2
                  (Tried-true b g2 (
                    subst Tried e2 (
                      try_connect_with_retry-Tried (endpoint local_host way.local_port) way.attempts
                        way.cancelled 10 1 g1)))
                  h2)
              h1)
          e

    forwarded :
        (way : Way) (center : CenterDiscoveryResult) (direct : Bool) (g g' : Guest)
        → Decided (ok direct, g)
        → through_forward J p node_id socket_addr patch way center direct g ≡ (ok tt, g')
        → IsConnected g'
    forwarded way center direct g g' h e =
        subst (λ x. IsConnected x.1) e
          (through_forward-IsConnected way center direct g (cc h) (ap (λ x. x.0) e))

    -- If joining a room reports success, the network was started, a center was discovered, the guest
    -- is connected, over the virtual network or a forwarded port, and its heartbeat runs.
    pub connect_room-IsConnected :
        (way : Way) (code : RoomCode) (g : Guest)
        → (connect_room J p node_id socket_addr patch way code g).0 ≡ ok tt
        → IsConnected (connect_room J p node_id socket_addr patch way code g).1
          × ((connect_room J p node_id socket_addr patch way code g).1.heartbeat ≡ true)
          × (is_ok (discover way.other_digit way.nodes way.wait_cancelled) ≡ true)
          × (is_ok (way.easy_tier_start (guest_config J p node_id socket_addr patch way code))
              ≡ true)
    unfolding connect_room
    connect_room-IsConnected way code g e =
        let config = guest_config J p node_id socket_addr patch way code in
        let Q : Guest → Type 0 = λ g'.
          IsConnected g'
          × (g'.heartbeat ≡ true)
          × (is_ok (discover way.other_digit way.nodes way.wait_cancelled) ≡ true)
          × (is_ok (way.easy_tier_start config) ≡ true) in
        and_then_ensures Q (lift (way.easy_tier_start config) g) _
          (λ u g1 e1 h1.
            and_then_ensures Q (lift (discover way.other_digit way.nodes way.wait_cancelled) g1) _
              (λ center g2 e2 h2.
                let known = record g2 { center = some center; config = some config } in
                and_then_ensures Q
                  (try_connect_once J p node_id (endpoint center.virtual_ip center.port) way.direct
                    known)
                  _
                  (λ direct g3 e3 h3.
                    and_then_ensures Q
                      (through_forward J p node_id socket_addr patch way center direct g3) _
                      (λ v g4 e4 h4. (
                        forwarded way center direct g3 g4
                            (subst Decided e3 (try_connect_once-Decided _ way.direct known)) e4,
                        refl,
                        ap (λ x. is_ok x.0) e2,
                        ap (λ x. is_ok x.0) e1,
                      ))
                      h3)
                  h2)
              h1)
          e
