-- ===== src/Center/Accept/Interleaving.antt =====
-- However the connections of a server interleave, its tables have entries of open connections only.
use qomicex_connector_rust.Base.{
  ℕ, ◌≡◌, refl, Text, Bool, true, false, ◌&&◌, List, [], ◌∷◌, Option, none, some, arith, contains,
  text_eq, text_eq_iff, if◌then◌else◌, Map, lookup, remove, Bool-cases, inl, inr, codes,
}
use qomicex_connector_rust.Json.{JsonApi}
use qomicex_connector_rust.Models.Protocol.{ProtocolRequest, ProtocolResponse, is_success}
use qomicex_connector_rust.Core.Serializer.{type_text}
use qomicex_connector_rust.Protocols.{ProtocolHandler}
use qomicex_connector_rust.Center.Registry.{
  ClientRegistry, record_heartbeat, client_of, disconnect_machine, disconnect_client, timed_out,
  heartbeat_check,
}
use qomicex_connector_rust.Center.Connection.{
  Room, Round, after_response, machine_id_of, serve_request, respond,
}
use qomicex_connector_rust.Center.Connection.Isolation.{Absent}
use qomicex_connector_rust.Center.Accept.Tables.{
  register-Absent, record_heartbeat-Absent, cleanup-Absent, cleanup_own-Absent, expire_all-Absent,
  remove-none, cancel_found-Absent,
}
use qomicex_connector_rust.Center.Accept.{
  Serving, without_client, with_registry, accept, finish, check, kick, answer, Step, accepts,
  answers, finishes, checks, kicks, stops, Served, begin, next,
}

contains-without_client :
    (id c : Text) (cs : List Text)
    → contains (without_client c cs) id ≡ (if text_eq c id then false else contains cs id)
unfolding contains without_client
contains-without_client id c [] = ground arith
contains-without_client id c (d ∷ cs) =
    ground
      (arith, contains-without_client id c cs, text_eq_iff d c, text_eq_iff d id, text_eq_iff c id)

still_out :
    (cs : List Text) (c id : Text)
    → text_eq c id ≡ false
    → contains (without_client c cs) id ≡ false
    → contains cs id ≡ false
still_out cs c id e n = ground (arith, contains-without_client id c cs)

open_apart :
    (cs : List Text) (c id : Text)
    → contains cs c ≡ true
    → contains cs id ≡ false
    → text_eq c id ≡ false
unfolding contains
open_apart [] c id h n = cc
open_apart (d ∷ cs) c id h n =
    ground (arith, open_apart cs c id, text_eq_iff d c, text_eq_iff d id, text_eq_iff c id)

-- A client that is not open has no entry.
abbrev pub IsOpenOnly : {S : Type 0} → Serving S → Type 0
IsOpenOnly s = (id : Text) → contains s.clients id ≡ false → Absent id s.room.registry

disconnect_client-Absent :
    (id : Text) (o : Option Text) (r : ClientRegistry)
    → Absent id r
    → Absent id (disconnect_client o r).1
unfolding disconnect_client
disconnect_client-Absent id none r h = h
disconnect_client-Absent id (some c) r h =
    cancel_found-Absent id (lookup c r.active_clients)
      (record r { active_clients = remove c r.active_clients })
      (record {
        heartbeat = h.heartbeat;
        active = remove-none c id r.active_clients h.active;
        machine = h.machine;
        ip = h.ip;
      })

not_among :
    (c id : Text) (cs : List Text)
    → contains (c ∷ cs) id ≡ false
    → (text_eq c id ≡ false) × (contains cs id ≡ false)
unfolding contains
not_among c id cs n = ground arith

module _ {S : Type 0} (J : JsonApi) (protocols : Map (ProtocolHandler S)) where
  after_response-Absent :
      (id c : Text) (now : ℕ) (req : ProtocolRequest) (resp : ProtocolResponse) (r : ClientRegistry)
      → text_eq c id ≡ false
      → Absent id r
      → Absent id (after_response S J c now req resp r)
  unfolding after_response
  after_response-Absent id c now req resp r n h =
      either (text_eq (type_text req) (codes "c:player_ping") && is_success resp)
    where
      either :
          (b : Bool)
          → Absent id (if b then record_heartbeat c now (machine_id_of S J req.body) r else r)
      either true = record_heartbeat-Absent id c now (machine_id_of S J req.body) r n h
      either false = h

  serve_request-Absent :
      (id c : Text) (round : Round) (req : ProtocolRequest) (room : Room S)
      → text_eq c id ≡ false
      → Absent id room.registry
      → Absent id (serve_request S J protocols c round req room).registry
  unfolding serve_request
  serve_request-Absent id c round req room n h = either round.written
    where
      either :
          (b : Bool)
          → Absent id (
              if b
              then after_response S J c round.now req
                  (respond S protocols req room.shared).0
                  room.registry
              else room.registry)
      either true =
          after_response-Absent id c round.now req (respond S protocols req room.shared).0
            room.registry n h
      either false = h

  Step-IsOpenOnly : {s s' : Serving S} → Step J protocols s s' → IsOpenOnly s → IsOpenOnly s'
  unfolding accept finish check kick answer with_registry heartbeat_check disconnect_machine
  Step-IsOpenOnly {s} (accepts c ip ct l f) k id n =
      let (apart, out) = not_among c id s.clients n in
      register-Absent id c ip ct s.room.registry apart (k id out)
  Step-IsOpenOnly {s} (answers c round req m) k id n =
      serve_request-Absent id c round req s.room (open_apart s.clients c id m n) (k id n)
  Step-IsOpenOnly {s} (finishes c m) k id n = elim (Bool-cases (text_eq c id)) [
    | inl e ↦ cleanup_own-Absent id c s.room.registry e
    | inr e ↦ cleanup-Absent id c s.room.registry (k id (still_out s.clients c id e n))
  ]
  Step-IsOpenOnly {s} (checks now) k id n =
      expire_all-Absent id (timed_out now s.room.registry.last_heartbeat) s.room.registry (k id n)
  Step-IsOpenOnly {s} (kicks machine_id) k id n =
      disconnect_client-Absent id (client_of machine_id s.room.registry.client_machine)
        s.room.registry (k id n)
  Step-IsOpenOnly stops k id n = k id n

  -- However accepts, answers, ends of connections, heartbeat checks and disconnections interleave, a
  -- client without an open connection has no entry in any table of the server.
  pub Served-IsOpenOnly : (shared : S) (s : Serving S) → Served J protocols shared s → IsOpenOnly s
  unfolding lookup
  Served-IsOpenOnly shared _ begin id n = record {
    heartbeat = refl;
    active = refl;
    machine = refl;
    ip = refl;
  }
  Served-IsOpenOnly shared _ (next {s} r st) id n =
      Step-IsOpenOnly st (Served-IsOpenOnly shared s r) id n
