-- ===== src/Guest/Beating/Laws.antt =====
-- When a guest reports that its connection is lost.
use qomicex_connector_rust.Base.{
  ◌≡◌, refl, subst, ap, ◌∙◌, Text, Bytes, codes, Bool, true, false, ◌||◌, List, [], ◌∷◌, ◌++◌,
  Option, arith, if◌then◌else◌,
}
use qomicex_connector_rust.Base.Result.{Result, ok, err}
use qomicex_connector_rust.Error.{Outcome, ScaffoldingError}
use qomicex_connector_rust.Models.Protocol.{ProtocolResponse}
use qomicex_connector_rust.Guest.Tcp.{Exchange, is_connected}
use qomicex_connector_rust.Guest.Session.{Profile, Guest, request}
use qomicex_connector_rust.Guest.Requests.{center_request, pinged_id}
use qomicex_connector_rust.Guest.Joining.Reach.{IsConnected, request-IsConnected}
use qomicex_connector_rust.Guest.Beating.{
  Tick, interval, cancelled, Service, waiting, ended, broken, answered, sent, callback, on_failed,
  beat,
}

abbrev pub is_broken : Service → Bool
is_broken waiting = false
is_broken ended = false
is_broken broken = true

-- Whether an interval has ended before a cancellation.
abbrev pub has_interval : List Tick → Bool
has_interval [] = false
has_interval (interval node_id ex ∷ ticks) = true
has_interval (cancelled ∷ ticks) = false

module _ (to_vec : (name machine_id vendor : Text) → Option Text → Result Text Bytes)
    (p : Profile) where
  callback_connected :
      (node_id : Option Text) (ex : Exchange) (g : Guest)
      → IsConnected g
      → callback to_vec p node_id ex g
        ≡ sent to_vec p ex
            (to_vec p.player_name p.machine_id p.vendor (pinged_id g.negotiated node_id))
            g
  unfolding callback
  callback_connected node_id ex g c = ground arith

  callback_disconnected :
      (node_id : Option Text) (ex : Exchange) (g : Guest)
      → is_connected g.tcp ≡ false
      → callback to_vec p node_id ex g ≡ (true, record g { connection_lost = true })
  unfolding callback
  callback_disconnected node_id ex g c = ground arith

  -- The ping of an interval: a request for `player_ping`.
  abbrev pub pings : Bytes → Exchange → Guest → Outcome ProtocolResponse × Guest
  pings body ex g = request (center_request (codes "player_ping") body) ex g

  abbrev pub printed : Option Text → Guest → Result Text Bytes
  printed node_id g = to_vec p.player_name p.machine_id p.vendor (pinged_id g.negotiated node_id)

  -- Intervals whose pings are all printed, sent and answered, from a guest to the guest behind them.
  pub data Answered : List Tick → Guest → Guest → Type 0 where
    no_more : {g : Guest} → Answered [] g g
    one_more :
        {ticks : List Tick} {g g1 g' : Guest} (node_id : Option Text) (ex : Exchange) (body : Bytes)
        (r : ProtocolResponse)
        → printed node_id g ≡ ok body
        → pings body ex g ≡ (ok r, g1)
        → Answered ticks g1 g'
        → Answered (interval node_id ex ∷ ticks) g g'

  -- An interval whose ping is not printed, or not sent or not answered.
  pub data Fails (node_id : Option Text) (ex : Exchange) : Guest → Guest → Type 0 where
    unprinted : {g : Guest} (e : Text) → printed node_id g ≡ err e → Fails node_id ex g g
    unanswered :
        {g g' : Guest} (body : Bytes) (e : ScaffoldingError)
        → printed node_id g ≡ ok body
        → pings body ex g ≡ (err e, g')
        → Fails node_id ex g g'

  callback_answered :
      (node_id : Option Text) (ex : Exchange) (body : Bytes) (r : ProtocolResponse) (g g' : Guest)
      → IsConnected g
      → printed node_id g ≡ ok body
      → pings body ex g ≡ (ok r, g')
      → callback to_vec p node_id ex g ≡ (true, g')
  unfolding sent answered
  callback_answered node_id ex body r g g' c e q =
      callback_connected node_id ex g c
      ∙ ap (λ b. sent to_vec p ex b g) e
      ∙ ap (λ (a : Outcome ProtocolResponse × Guest). answered to_vec p a) q

  callback-Fails :
      (node_id : Option Text) (ex : Exchange) (g g' : Guest)
      → IsConnected g
      → Fails node_id ex g g'
      → callback to_vec p node_id ex g ≡ (false, g')
  unfolding sent answered
  callback-Fails node_id ex g _ c (unprinted e q) =
      callback_connected node_id ex g c ∙ ap (λ b. sent to_vec p ex b g) q
  callback-Fails node_id ex g g' c (unanswered body e q a) =
      callback_connected node_id ex g c
      ∙ ap (λ b. sent to_vec p ex b g) q
      ∙ ap (λ (x : Outcome ProtocolResponse × Guest). answered to_vec p x) a

  beat_next :
      (node_id : Option Text) (ex : Exchange) (ticks : List Tick) (g g' : Guest)
      → callback to_vec p node_id ex g ≡ (true, g')
      → beat to_vec p (interval node_id ex ∷ ticks) g ≡ beat to_vec p ticks g'
  unfolding beat
  beat_next node_id ex ticks g g' e =
      ap (λ r. if r.0 then beat to_vec p ticks r.1 else (broken, on_failed to_vec p r.1)) e

  beat_last :
      (node_id : Option Text) (ex : Exchange) (ticks : List Tick) (g g' : Guest)
      → callback to_vec p node_id ex g ≡ (false, g')
      → beat to_vec p (interval node_id ex ∷ ticks) g
        ≡ (broken, record g' { connection_lost = true })
  unfolding beat on_failed
  beat_last node_id ex ticks g g' e =
      ap (λ r. if r.0 then beat to_vec p ticks r.1 else (broken, on_failed to_vec p r.1)) e

  Answered-IsConnected :
      (node_id : Option Text) (ex : Exchange) (body : Bytes) (r : ProtocolResponse) (g g' : Guest)
      → IsConnected g
      → pings body ex g ≡ (ok r, g')
      → IsConnected g'
  Answered-IsConnected node_id ex body r g g' c q =
      subst (λ a. IsConnected a.1) q
        (request-IsConnected (center_request (codes "player_ping") body) ex g c)

  -- On a connected guest, the heartbeat goes on as long as each ping is printed, sent and answered; a
  -- cancellation ends it there without a report, and the first ping that is not printed, not sent or not
  -- answered ends it there with the report that the connection is lost, whatever would come later.
  pub beat_lem :
      (ticks later : List Tick) (node_id : Option Text) (ex : Exchange) (g g' g'' : Guest)
      → IsConnected g
      → Answered ticks g g'
      → Fails node_id ex g' g''
      → (beat to_vec p ticks g ≡ (waiting, g'))
        × (beat to_vec p (ticks ++ cancelled ∷ later) g ≡ (ended, g'))
        × (beat to_vec p (ticks ++ interval node_id ex ∷ later) g
            ≡ (broken, record g'' { connection_lost = true }))
  beat_lem [] later node_id ex g _ g'' c no_more f = (
    unfold beat in refl,
    unfold beat in refl,
    beat_last node_id ex later g g'' (callback-Fails node_id ex g g'' c f),
  )
  beat_lem _ later node_id ex g g' g'' c (one_more {ticks} {g1 = g1} first ex1 body r q a rest) f =
      let step = callback_answered first ex1 body r g g1 c q a in
      let (x, y, z) =
        beat_lem ticks later node_id ex g1 g' g'' (Answered-IsConnected first ex1 body r g g1 c a)
          rest f in
      (
        beat_next first ex1 ticks g g1 step ∙ x,
        beat_next first ex1 (ticks ++ cancelled ∷ later) g g1 step ∙ y,
        beat_next first ex1 (ticks ++ interval node_id ex ∷ later) g g1 step ∙ z,
      )

  beat_once :
      (node_id : Option Text) (ex : Exchange) (ticks : List Tick) (g : Guest)
      → is_connected g.tcp ≡ false
      → beat to_vec p (interval node_id ex ∷ ticks) g
        ≡ beat to_vec p ticks (record g { connection_lost = true })
  unfolding beat
  beat_once node_id ex ticks g c =
      ap (λ r. if r.0 then beat to_vec p ticks r.1 else (broken, on_failed to_vec p r.1))
        (callback_disconnected node_id ex g c)

  lost_again : (b : Bool) → (b || true) ≡ true
  lost_again true = refl
  lost_again false = refl

  -- On a guest without a connection, the first interval reports the loss, and the heartbeat goes on
  -- until it is cancelled.
  pub beat_disconnected :
      (ticks : List Tick) (g : Guest)
      → is_connected g.tcp ≡ false
      → (is_broken (beat to_vec p ticks g).0 ≡ false)
        × ((beat to_vec p ticks g).1.connection_lost ≡ (has_interval ticks || g.connection_lost))
        × ((beat to_vec p ticks g).1.tcp ≡ g.tcp)
  beat_disconnected [] g c = unfold beat in (refl, refl, refl)
  beat_disconnected (cancelled ∷ ticks) g c = unfold beat in (refl, refl, refl)
  beat_disconnected (interval node_id ex ∷ ticks) g c =
      let (b, l, t) = beat_disconnected ticks (record g { connection_lost = true }) c in
      rw (beat_once node_id ex ticks g c) (b, l ∙ lost_again (has_interval ticks), t)
