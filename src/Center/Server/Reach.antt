-- ===== src/Center/Server/Reach.antt =====
-- Where the server is while it runs.
use qomicex_connector_rust.Base.{ℕ, Text, false, Option, none, some, arith, ◌≡◌, refl}
use qomicex_connector_rust.Center.Server.{
  TcpServer, running, Slot, Step, take_server, serve, put_back, kick, shut, cancelled_elsewhere,
  Reachable, begin, next, center_disconnect, center_source_ip, close,
}

-- While the task runs a server, the slot is empty.
abbrev TakenOut : Slot → Type 0
TakenOut slot = (held : Option TcpServer) → slot.task ≡ running held → slot.tcp_server ≡ none

kick-TakenOut :
    (slot : Slot) (machine_id : Text)
    → TakenOut slot
    → TakenOut (center_disconnect machine_id slot).1
unfolding center_disconnect
kick-TakenOut slot machine_id h held r = let empty = h held (ground arith) in ground arith

Step-TakenOut : (ct : ℕ) {slot slot' : Slot} → Step ct slot slot' → TakenOut slot → TakenOut slot'
Step-TakenOut ct (take_server e) h held r = refl
Step-TakenOut ct (serve s s' e) h held r = h (some s) e
Step-TakenOut ct (put_back m e) h held r = cc
Step-TakenOut ct {slot = slot} (kick machine_id) h held r = kick-TakenOut slot machine_id h held r
Step-TakenOut ct shut h held r = unfold close in refl
Step-TakenOut ct (cancelled_elsewhere t) h held r = h held r

Reachable-TakenOut : (ct : ℕ) {slot : Slot} → Reachable ct slot → TakenOut slot
Reachable-TakenOut ct (begin cancelled) held r = cc
Reachable-TakenOut ct (next path s) held r = Step-TakenOut ct s (Reachable-TakenOut ct path) held r

-- While the task of a room runs the server, however the room has come there, no machine is found:
-- asking to disconnect one answers that there was no connection and changes nothing, and asking for
-- a source address answers none.
pub Reachable-running :
    (ct : ℕ) (slot : Slot) (held : Option TcpServer) (machine_id : Text)
    → Reachable ct slot
    → slot.task ≡ running held
    → (center_disconnect machine_id slot ≡ (false, slot))
      × (center_source_ip machine_id slot ≡ none)
unfolding center_disconnect center_source_ip
Reachable-running ct slot held machine_id path r =
    let empty = Reachable-TakenOut ct path held r in (ground arith, ground arith)
