-- ===== src/Center/Registry.antt =====
-- The connection tables of crates/qomicex-connector/src/center/client_conn.rs, and the heartbeat
-- check over them. A cancellation token is a number; `cancelled` says which of them are cancelled.
-- Times are milliseconds.
pub mod Timeouts
pub mod Kick
use qomicex_connector_rust.Base.{
  ℕ, ◌+◌, ◌-◌, ◌*◌, Text, Bool, true, false, ◌||◌, List, [], ◌∷◌, Option, none, some, ltb, ◌==◌,
  if◌then◌else◌, text_eq, Map, lookup, insert, remove,
}
use qomicex_connector_rust.Base.Maybe.{◌>>=◌}

pub record ClientRegistry : Type 0 where
  pub last_heartbeat : Map ℕ
  pub active_clients : Map ℕ
  pub client_machine : Map Text
  pub client_ip : Map Text
  pub cancelled : ℕ → Bool

abbrev pub empty_registry : ClientRegistry
empty_registry = record {
  last_heartbeat = [];
  active_clients = [];
  client_machine = [];
  client_ip = [];
  cancelled = λ t. false;
}

-- `CancellationToken::cancel`
unfoldable pub cancel : ℕ → (ℕ → Bool) → ℕ → Bool
cancel token cancelled t = token == t || cancelled t

-- `cancel` of a token that was found, if any.
unfoldable pub cancel_found : Option ℕ → ClientRegistry → ClientRegistry
cancel_found none r = r
cancel_found (some token) r = record r { cancelled = cancel token r.cancelled }

-- The first client in the map's order that has reported the machine id.
unfoldable pub client_of : Text → Map Text → Option Text
client_of machine_id [] = none
client_of machine_id ((client_id, mid) ∷ m) =
    if text_eq mid machine_id then some client_id else client_of machine_id m

unfoldable pub disconnect_client : Option Text → ClientRegistry → Bool × ClientRegistry
disconnect_client none r = (false, r)
disconnect_client (some client_id) r =
    let token = lookup client_id r.active_clients in
    let found : Bool = elim token [ none ↦ false | some t ↦ true ] in
    (found, cancel_found token (record r { active_clients = remove client_id r.active_clients }))

-- Whether a connection was found, and the tables after it.
unfoldable pub disconnect_machine : Text → ClientRegistry → Bool × ClientRegistry
unfolding disconnect_client cancel_found
disconnect_machine machine_id r = disconnect_client (client_of machine_id r.client_machine) r

unfoldable pub machine_source_ip : Text → ClientRegistry → Option Text
machine_source_ip machine_id r = do
  client_id ← client_of machine_id r.client_machine
  lookup client_id r.client_ip

-- The start of `handle_client`.
unfoldable pub register : Text → Text → ℕ → ClientRegistry → ClientRegistry
register client_id ip conn_ct r = record r {
  active_clients = insert client_id conn_ct r.active_clients;
  client_ip = insert client_id ip r.client_ip;
}

-- A ping that the room accepted, from a client whose body had a machine id or not.
unfoldable pub record_heartbeat : Text → ℕ → Option Text → ClientRegistry → ClientRegistry
record_heartbeat client_id now none r = record r {
  last_heartbeat = insert client_id now r.last_heartbeat;
}
record_heartbeat client_id now (some machine_id) r = record r {
  last_heartbeat = insert client_id now r.last_heartbeat;
  client_machine = insert client_id machine_id r.client_machine;
}

-- The end of `handle_client`: the text of the disconnect event, and the tables after it.
unfoldable pub cleanup : Text → ClientRegistry → Text × ClientRegistry
cleanup client_id r =
    let message : Text = elim (lookup client_id r.client_machine) [ none ↦ [] | some mid ↦ mid ] in
    (
      message,
      record r {
        active_clients = remove client_id r.active_clients;
        last_heartbeat = remove client_id r.last_heartbeat;
        client_ip = remove client_id r.client_ip;
        client_machine = remove client_id r.client_machine;
      },
    )

abbrev pub heartbeat_timeout : ℕ
heartbeat_timeout = 15000

-- The clients whose last heartbeat is older than the limit.
unfoldable pub timed_out : ℕ → Map ℕ → List Text
timed_out now [] = []
timed_out now ((id, last) ∷ m) =
    let rest = timed_out now m in if ltb heartbeat_timeout (now - last) then id ∷ rest else rest

unfoldable pub expire : Text → ClientRegistry → ClientRegistry
unfolding cancel_found
expire id r = cancel_found (lookup id r.active_clients) (record r {
  last_heartbeat = remove id r.last_heartbeat;
  active_clients = remove id r.active_clients;
})

unfoldable pub expire_all : List Text → ClientRegistry → ClientRegistry
unfolding expire
expire_all [] r = r
expire_all (id ∷ ids) r = expire_all ids (expire id r)

-- One round of `heartbeat_timeout_loop`.
unfoldable pub heartbeat_check : ℕ → ClientRegistry → ClientRegistry
unfolding timed_out expire_all
heartbeat_check now r = expire_all (timed_out now r.last_heartbeat) r
