-- ===== src/Guest/Beating.antt =====
-- The heartbeat of a guest: `start_heartbeat` of crates/qomicex-connector/src/guest/scaffolding_guest.rs
-- gives `HeartbeatService` this callback. How the JSON of a ping is printed is a parameter.
pub mod Laws
use qomicex_connector_rust.Base.{
  Text, Bytes, codes, Bool, true, false, List, [], ◌∷◌, Option, none, some, if◌then◌else◌,
}
use qomicex_connector_rust.Base.Result.{Result, ok, err, is_ok}
use qomicex_connector_rust.Error.{Outcome}
use qomicex_connector_rust.Models.Protocol.{ProtocolResponse}
use qomicex_connector_rust.Guest.Tcp.{Exchange, is_connected}
use qomicex_connector_rust.Guest.Session.{Profile, Guest, request}
use qomicex_connector_rust.Guest.Requests.{center_request, pinged_id}

-- What the `select!` of the service meets: an interval that ends, with EasyTier's answer and what the
-- network does with a ping, or the cancellation of the token.
pub data Tick : Type 0 where
  interval : (node_id : Option Text) → Exchange → Tick
  cancelled : Tick

-- How the service stands: it waits for the next tick, or was cancelled, or has failed.
pub data Service : Type 0 where
  waiting : Service
  ended : Service
  broken : Service

-- `to_vec` prints the object with the keys `name`, `machine_id`, `vendor`, `easytier_id` and a `kind`
-- that is null.
module _ (to_vec : (name machine_id vendor : Text) → Option Text → Result Text Bytes)
    (p : Profile) where
  answered : Outcome ProtocolResponse × Guest → Bool × Guest
  answered (r, g) = (is_ok r, g)

  sent : Exchange → Result Text Bytes → Guest → Bool × Guest
  unfolding answered
  sent ex (err e) g = (false, g)
  sent ex (ok body) g = answered (request (center_request (codes "player_ping") body) ex g)

  -- Whether the callback succeeds. Without a connection it reports the loss and succeeds.
  unfoldable pub callback : Option Text → Exchange → Guest → Bool × Guest
  unfolding sent
  callback node_id ex g = elim (is_connected g.tcp) [
    | false ↦ (true, record g { connection_lost = true })
    | true ↦ sent ex (to_vec p.player_name p.machine_id p.vendor (pinged_id g.negotiated node_id)) g
  ]

  -- `on_failed`
  unfoldable pub on_failed : Guest → Guest
  on_failed g = record g { connection_lost = true }

  -- `HeartbeatService::run` with this callback, over the ticks that have come.
  unfoldable pub beat : List Tick → Guest → Service × Guest
  unfolding on_failed
  beat [] g = (waiting, g)
  beat (cancelled ∷ ticks) g = (ended, g)
  beat (interval node_id ex ∷ ticks) g =
      let (went, g') = callback node_id ex g in
      let rest = beat ticks g' in if went then rest else (broken, on_failed g')
