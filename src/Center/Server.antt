-- ===== src/Center/Server.antt =====
-- The slot in which center/scaffolding_center.rs of crates/qomicex-connector/src keeps its TCP server,
-- and the task that `start` spawns: it takes the server out of the slot, runs it, and puts it back.
-- What the connections and the listener do to the server that runs is left open.
pub mod Reach
use qomicex_connector_rust.Base.{
  ℕ, Text, Bool, true, false, Option, none, some, ◌≡◌, ◌++◌, codes, decimal,
}
use qomicex_connector_rust.Base.Result.{Result, ok, err}
use qomicex_connector_rust.Error.{Outcome, protocol}
use qomicex_connector_rust.Center.Registry.{
  ClientRegistry, empty_registry, cancel, disconnect_machine, machine_source_ip,
}

-- The connection tables, and whether the listener is bound.
pub record TcpServer : Type 0 where
  pub registry : ClientRegistry
  pub listening : Bool

-- `TcpServer::new`
abbrev pub fresh_server : TcpServer
fresh_server = record { registry = empty_registry; listening = false }

-- The task before it takes the server, while it runs what it has taken, and after it.
pub data Task : Type 0 where
  waiting : Task
  running : Option TcpServer → Task
  done : Task

-- The fields `tcp_server` and `server_ct`, the task, and which tokens are cancelled: tokens are shared
-- with the caller and with other rooms, which may have cancelled them before and may do so at any step.
pub record Slot : Type 0 where
  pub tcp_server : Option TcpServer
  pub server_ct : Option ℕ
  pub task : Task
  pub cancelled : ℕ → Bool

-- The slot that `start` has filled, at the moment it spawns the task, with the tokens that are cancelled
-- then.
abbrev pub opened : ℕ → (ℕ → Bool) → Slot
opened ct cancelled = record {
  tcp_server = some fresh_server;
  server_ct = some ct;
  task = waiting;
  cancelled = cancelled;
}

bind_result : ℕ → Result Text (Unit {0}) → TcpServer → Outcome (Unit {0}) × TcpServer
bind_result port (err e) s =
    (err (protocol (codes "TCP 端口 " ++ decimal port ++ codes " 绑定失败: " ++ e)), s)
bind_result port (ok u) s = (ok tt, record s { listening = true })

-- `TcpServer::start` up to its accept loop, where the result of the bind is a parameter.
unfoldable pub start_listening :
    ℕ → Result Text (Unit {0}) → TcpServer → Outcome (Unit {0}) × TcpServer
unfolding bind_result
start_listening port bound s = elim s.listening [
  | true ↦ (err (protocol (codes "TCP 服务已启动")), s)
  | false ↦ bind_result port bound s
]

-- `TcpServer::stop`, without the cancellation of its token.
unfoldable pub stop : TcpServer → TcpServer
stop s = record s { listening = false }

unfoldable pub stopped : Option TcpServer → Option TcpServer
unfolding stop
stopped none = none
stopped (some s) = some (stop s)

unfoldable pub cancel_token : Option ℕ → (ℕ → Bool) → ℕ → Bool
cancel_token none cancelled = cancelled
cancel_token (some ct) cancelled = cancel ct cancelled

-- The cancellation in `stop`, where there is a server to stop.
unfoldable pub cancel_server : ℕ → Option TcpServer → (ℕ → Bool) → ℕ → Bool
cancel_server ct none cancelled = cancelled
cancel_server ct (some s) cancelled = cancel ct cancelled

-- `ScaffoldingCenter::disconnect_machine`: whether a connection was found, and the slot after it.
unfoldable pub center_disconnect : Text → Slot → Bool × Slot
center_disconnect machine_id slot = elim slot.tcp_server [
  | none ↦ (false, slot)
  | some s ↦
      let (found, registry) = disconnect_machine machine_id s.registry in
      (found, record slot { tcp_server = some (record s { registry = registry }) })
]

-- `ScaffoldingCenter::machine_source_ip`
unfoldable pub center_source_ip : Text → Slot → Option Text
center_source_ip machine_id slot = elim slot.tcp_server [
  | none ↦ none
  | some s ↦ machine_source_ip machine_id s.registry
]

-- `ScaffoldingCenter::close`, as far as it is about the server.
unfoldable pub close : Slot → Slot
close slot = record slot {
  tcp_server = none;
  server_ct = none;
  cancelled = cancel_token slot.server_ct slot.cancelled;
}

-- The steps of a room under the token `ct`: the task takes what is in the slot; the server that runs
-- changes; the task stops the server and puts it back; a connection is asked for; the room
-- is closed; the caller or another room cancels a token.
pub data Step (ct : ℕ) : Slot → Slot → Type 0 where
  take_server :
      {slot : Slot}
      → slot.task ≡ waiting
      → Step ct slot (record slot { tcp_server = none; task = running slot.tcp_server })
  serve :
      {slot : Slot} (s s' : TcpServer)
      → slot.task ≡ running (some s)
      → Step ct slot (record slot { task = running (some s') })
  put_back :
      {slot : Slot} (held : Option TcpServer)
      → slot.task ≡ running held
      → Step ct slot (record slot {
        tcp_server = stopped held;
        task = done;
        cancelled = cancel_server ct held slot.cancelled;
      })
  kick : {slot : Slot} (machine_id : Text) → Step ct slot (center_disconnect machine_id slot).1
  shut : {slot : Slot} → Step ct slot (close slot)
  cancelled_elsewhere :
      {slot : Slot} (t : ℕ) → Step ct slot (record slot { cancelled = cancel t slot.cancelled })

-- What a room comes to after it was opened.
pub data Reachable (ct : ℕ) : Slot → Type 0 where
  begin : (cancelled : ℕ → Bool) → Reachable ct (opened ct cancelled)
  next : {slot slot' : Slot} → Reachable ct slot → Step ct slot slot' → Reachable ct slot'
