-- ===== src/Guest/Joining/Mapped.antt =====
-- Attempts at the center keep the address of the Minecraft server that a guest has mapped before.
use qomicex_connector_rust.Base.{
  ℕ, zero, suc, ◌≡◌, ◌≢◌, sym, subst, Text, codes, Bool, true, false, Bool-cases, inl, inr, Option,
  none, some, arith, utf8, join, if◌then◌else◌,
}
use qomicex_connector_rust.Base.Result.{Result, ok, err}
use qomicex_connector_rust.Error.{Outcome}
use qomicex_connector_rust.Json.{JsonApi}
use qomicex_connector_rust.Models.Protocol.{ProtocolRequest}
use qomicex_connector_rust.Protocols.{nul}
use qomicex_connector_rust.Guest.Tcp.{Exchange, is_connected, connect}
use qomicex_connector_rust.Guest.Session.{Profile, Guest, Act, request, and_then}
use qomicex_connector_rust.Guest.Requests.{
  agree, center_request, my_protocols, as_protocol, profile_entry, negotiate_protocols,
  send_player_ping,
}
use qomicex_connector_rust.Guest.Joining.Reach.{retry_step}
use qomicex_connector_rust.Guest.Joining.{
  Attempt, settled, greeted, reached, try_connect_once, try_connect_with_retry,
}

-- The guest has joined a room and has mapped this address.
abbrev pub IsMapped : Text → ℕ → Guest → Type 0
IsMapped h port g =
    (g.minecraft_host ≡ some h)
    × (g.minecraft_port ≡ some port)
    × (g.config ≢ none)
    × (g.center ≢ none)

pub some-ne-none : {A : Type 0} (a : A) → some a ≢ none
some-ne-none a e = cc

module _ (h : Text) (port : ℕ) where
  pub and_then-IsMapped :
      {A B : Type 0} (m : Outcome A × Guest) (f : A → Act B)
      → IsMapped h port m.1
      → ((a : A) (g : Guest) → IsMapped h port g → IsMapped h port (f a g).1)
      → IsMapped h port (and_then m f).1
  and_then-IsMapped (ok a, g) f k keep = keep a g k
  and_then-IsMapped (err e, g) f k keep = k

  request-IsMapped :
      (req : ProtocolRequest) (ex : Exchange) (g : Guest)
      → IsMapped h port g
      → IsMapped h port (request req ex g).1
  request-IsMapped req ex g k = k

  negotiate_protocols-IsMapped :
      (p : Profile) (ex : Exchange) (g : Guest)
      → IsMapped h port g
      → IsMapped h port (negotiate_protocols p ex g).1
  unfolding negotiate_protocols agree
  negotiate_protocols-IsMapped p ex g k =
      let req = center_request (codes "protocols") (utf8 (join nul (my_protocols p))) in
      and_then-IsMapped (request req ex g) (agree p) (request-IsMapped req ex g k)
        (λ r g' k'. ground arith)

  module _ (J : JsonApi) (p : Profile) (node_id : Option Text) where
    send_player_ping-IsMapped :
        (ex : Exchange) (g : Guest)
        → IsMapped h port g
        → IsMapped h port (send_player_ping J p node_id ex g).1
    unfolding send_player_ping
    send_player_ping-IsMapped ex g k = elim (Bool-cases (is_connected g.tcp)) [
      | inr c ↦ rw c k
      | inl c ↦ rw c (
          and_then-IsMapped {B = Unit {0}}
            (as_protocol (J.entry_to_vec (profile_entry p g.negotiated node_id)), g) _ k
            (λ body g' k'.
              and_then-IsMapped {B = Unit {0}}
                (request (center_request (codes "player_ping") body) ex g') _
                (request-IsMapped (center_request (codes "player_ping") body) ex g' k')
                (λ r g'' k''. k'')))
    ]

    greeted-IsMapped :
        (a : Attempt) (g : Guest) → IsMapped h port g → IsMapped h port (greeted J p node_id a g).1
    unfolding greeted
    greeted-IsMapped a g k =
        let pinged = send_player_ping-IsMapped a.ping_exchange g k in
        let (outcome, g') = send_player_ping J p node_id a.ping_exchange g in
        ground (arith, pinged, negotiate_protocols-IsMapped p a.negotiation g')

    settled-IsMapped :
        (b : Bool) (g : Guest) → IsMapped h port g → IsMapped h port (settled J p node_id b g).1
    unfolding settled
    settled-IsMapped true g k = k
    settled-IsMapped false g k = k

    reached-IsMapped :
        (address : Text) (a : Attempt) (c : Option (Result Text (Unit {0}))) (g : Guest)
        → IsMapped h port g
        → IsMapped h port (reached J p node_id address a c g).1
    unfolding reached
    reached-IsMapped address a none g k = k
    reached-IsMapped address a (some (err e)) g k = k
    reached-IsMapped address a (some (ok u)) g k =
        let start = record g { tcp = (connect address (ok u) g.tcp).1 } in
        let (joined, end) = greeted J p node_id a start in
        settled-IsMapped joined end (greeted-IsMapped a start k)

    pub try_connect_once-IsMapped :
        (address : Text) (a : Attempt) (g : Guest)
        → IsMapped h port g
        → IsMapped h port (try_connect_once J p node_id address a g).1
    unfolding try_connect_once
    try_connect_once-IsMapped address a g k = reached-IsMapped address a a.connected g k

    branch-IsMapped :
        (stop b : Bool) (g g' : Guest) (rest : Outcome Bool × Guest)
        → IsMapped h port g
        → IsMapped h port g'
        → IsMapped h port rest.1
        → IsMapped h port (if stop then (ok false, g) else if b then (ok true, g') else rest).1
    branch-IsMapped true b g g' rest k k' l = k
    branch-IsMapped false true g g' rest k k' l = k'
    branch-IsMapped false false g g' rest k k' l = l

    pub try_connect_with_retry-IsMapped :
        (address : Text) (attempts : ℕ → Attempt) (cancelled : ℕ → Bool) (left i : ℕ) (g : Guest)
        → IsMapped h port g
        → IsMapped h port (try_connect_with_retry J p node_id address attempts cancelled left i g).1
    try_connect_with_retry-IsMapped address attempts cancelled zero i g k =
        unfold try_connect_with_retry in k
    try_connect_with_retry-IsMapped address attempts cancelled (suc left) i g k =
        let once = try_connect_once-IsMapped address (attempts i) g k in
        let g' = (try_connect_once J p node_id address (attempts i) g).1 in
        subst (λ x. IsMapped h port x.1)
          (sym (retry_step J p node_id address attempts cancelled left i g))
          (branch-IsMapped (cancelled i) (is_connected g'.tcp) g g' _ k once
            (try_connect_with_retry-IsMapped address attempts cancelled left (suc i) g' once))
