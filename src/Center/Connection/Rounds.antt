-- ===== src/Center/Connection/Rounds.antt =====
-- The loop of a connection ends, and answers the requests on its stream one by one.
use qomicex_connector_rust.Base.{
  ℕ, zero, suc, ◌<◌, ◌≡◌, ◌≢◌, inl, inr, Text, Bytes, true, false, List, [], ◌∷◌, ◌++◌, Option,
  none, some, length, arith, All, if◌then◌else◌, Map, codes, decimal,
}
use qomicex_connector_rust.Base.Result.{ok, err, Result-cases}
use qomicex_connector_rust.Error.{ScaffoldingError, fmt}
use qomicex_connector_rust.Models.Protocol.{ProtocolRequest}
use qomicex_connector_rust.Json.{JsonApi}
use qomicex_connector_rust.Protocols.{ProtocolHandler}
use qomicex_connector_rust.Core.Serializer.{serialize_request, serialize_response}
use qomicex_connector_rust.Core.Serializer.Stream.{
  Stream, Ending, eof, read_exact_async, deserialize_request_async,
}
use qomicex_connector_rust.Core.Serializer.Frames.{
  stream, IsSendable, deserialize_request_async-serialize_request,
}
use qomicex_connector_rust.Core.Serializer.Consumption.{length-deserialize_request_async}
use qomicex_connector_rust.Center.Connection.{
  Room, Round, Closing, by_token, by_error, waits, has_left, respond, serve_request, serve_loop,
}

module _ (S : Type 0) (J : JsonApi) (protocols : Map (ProtocolHandler S)) (client_id : Text)
    (rounds : ℕ → Round) (write_error : Text) where
  abbrev loop : ℕ → ℕ → Stream → Room S → Bytes × Room S × Option Closing
  loop fuel i st room = serve_loop S J protocols client_id rounds write_error fuel i st room

  abbrev next : ℕ → ProtocolRequest → Room S → Room S
  next i req room = serve_request S J protocols client_id (rounds i) req room

  closing_step :
      (fuel i : ℕ) (st : Stream) (room : Room S) (req : ProtocolRequest) (st' : Stream)
      → deserialize_request_async st ≡ ok (req, st')
      → (loop (suc fuel) i st room).2 ≡ (
          if (rounds i).cancelled
          then some by_token
          else if (rounds i).silent
          then some waits
          else if (rounds i).written
          then (loop fuel (suc i) st' (next i req room)).2
          else some (by_error write_error))
  unfolding serve_loop
  closing_step fuel i st room req st' e = ground arith

  closing_error :
      (fuel i : ℕ) (st : Stream) (room : Room S) (e : ScaffoldingError)
      → deserialize_request_async st ≡ err e
      → (loop (suc fuel) i st room).2 ≡ (
          if (rounds i).cancelled
          then some by_token
          else if (rounds i).silent
          then some waits
          else some (by_error (fmt e)))
  unfolding serve_loop
  closing_error fuel i st room e h = ground arith

  -- With more fuel than bytes to come the loop ends, whatever the bytes and the environment.
  pub serve_loop_ends :
      (fuel i : ℕ) (st : Stream) (room : Room S)
      → length st.pending < fuel
      → (loop fuel i st room).2 ≢ none
  serve_loop_ends zero i st room h = absurd (omega arith)
  serve_loop_ends (suc fuel) i st room h = elim (Result-cases (deserialize_request_async st)) [
    | inr (e, p) ↦ ground (arith, closing_error fuel i st room e p)
    | inl ((req, st'), p) ↦
        let shorter = length-deserialize_request_async st req st' p in
        ground (
          arith,
          closing_step fuel i st room req st' p,
          serve_loop_ends fuel (suc i) st' (next i req room),
        )
  ]

  -- If the client never stays silent on an open connection, the loop is left.
  pub serve_loop-has_left :
      (fuel i : ℕ) (st : Stream) (room : Room S)
      → ((k : ℕ) → (rounds k).silent ≡ false)
      → length st.pending < fuel
      → has_left (loop fuel i st room).2 ≡ true
  unfolding has_left
  serve_loop-has_left zero i st room q h = absurd (omega arith)
  serve_loop-has_left (suc fuel) i st room q h =
      elim (Result-cases (deserialize_request_async st)) [
        | inr (e, p) ↦ ground (arith, closing_error fuel i st room e p, q i)
        | inl ((req, st'), p) ↦
            let shorter = length-deserialize_request_async st req st' p in
            ground (
              arith,
              closing_step fuel i st room req st' p,
              q i,
              serve_loop-has_left fuel (suc i) st' (next i req room) q (omega arith),
            )
      ]

  -- What the requests are answered, and the room behind them.
  pub answers : ℕ → List ProtocolRequest → Room S → Bytes × Room S
  answers i [] room = ([], room)
  answers i (req ∷ reqs) room =
      let frame = serialize_response (respond S protocols req room.shared).0 in
      let (out, end) = answers (suc i) reqs (next i req room) in (frame ++ out, end)

  -- The frames of the requests, one behind the other.
  pub frames : List ProtocolRequest → Bytes
  frames [] = []
  frames (req ∷ reqs) = serialize_request req ++ frames reqs

  -- The rounds from `i` on in which nothing goes wrong.
  abbrev pub IsCalm : ℕ → List ProtocolRequest → Type 0
  IsCalm i [] = ((rounds i).cancelled ≡ false) × ((rounds i).silent ≡ false)
  IsCalm i (req ∷ reqs) =
      ((rounds i).cancelled ≡ false)
      × ((rounds i).silent ≡ false)
      × ((rounds i).written ≡ true)
      × IsCalm (suc i) reqs

  frame_step :
      (fuel i : ℕ) (req : ProtocolRequest) (rest : Bytes) (e : Ending) (room : Room S)
      → IsSendable req
      → (rounds i).cancelled ≡ false
      → (rounds i).silent ≡ false
      → (rounds i).written ≡ true
      → loop (suc fuel) i (stream (serialize_request req ++ rest) e) room ≡ (
          let after = loop fuel (suc i) (stream rest e) (next i req room) in
          (serialize_response (respond S protocols req room.shared).0 ++ after.0, after.1, after.2))
  unfolding serve_loop
  frame_step fuel i req rest e room s c q w =
      ground (arith, deserialize_request_async-serialize_request req rest e s)

  at_eof :
      (fuel i : ℕ) (room : Room S)
      → (rounds i).cancelled ≡ false
      → (rounds i).silent ≡ false
      → loop (suc fuel) i (stream [] eof) room
        ≡ ([], room, some (by_error (codes "流提前结束: 期望读取 1 字节")))
  unfolding serve_loop deserialize_request_async read_exact_async decimal fmt
  at_eof fuel i room c q = ground arith

  -- A client that sends sendable requests and then closes its side is answered each of them in
  -- turn, and then the connection ends with the error of a stream that is cut short, if no token
  -- is cancelled and no byte held back on the way, every answer can be written, and the fuel is more than the number of
  -- requests.
  pub serve_loop-frames :
      (reqs : List ProtocolRequest) (fuel i : ℕ) (room : Room S)
      → All IsSendable reqs
      → IsCalm i reqs
      → length reqs < fuel
      → loop fuel i (stream (frames reqs) eof) room ≡ (
        (answers i reqs room).0,
        (answers i reqs room).1,
        some (by_error (codes "流提前结束: 期望读取 1 字节")),
      )
  unfolding frames answers
  serve_loop-frames reqs zero i room s c h = absurd (omega arith)
  serve_loop-frames [] (suc fuel) i room s c h = at_eof fuel i room c.0 c.1
  serve_loop-frames (req ∷ reqs) (suc fuel) i room s c h = rw (
    frame_step fuel i req (frames reqs) eof room s.0 c.0 c.1 c.2,
    serve_loop-frames reqs fuel (suc i) (next i req room) s.1 c.3 (omega arith),
  )
