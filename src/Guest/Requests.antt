-- ===== src/Guest/Requests.antt =====
-- The requests of `ScaffoldingGuest` to the center. `node_id` is EasyTier's answer, `J` the JSON
-- library, and an `Exchange` what the network does with a request.
use qomicex_connector_rust.Base.{
  ℕ, Text, Bytes, codes, Bool, true, false, ◌&&◌, List, [], ◌∷◌, ◌++◌, Option, none, some, contains,
  join, utf8, utf8_lossy, split, decimal, ltb, leb, if◌then◌else◌, length, text_eq, from_be16,
}
use qomicex_connector_rust.Base.Result.{Result, ok, err}
use qomicex_connector_rust.Error.{Outcome, protocol}
use qomicex_connector_rust.Json.{JsonApi}
use qomicex_connector_rust.Models.Protocol.{ProtocolRequest, ProtocolResponse, is_success}
use qomicex_connector_rust.Models.Player.{PlayerInfo, PlayerProfileEntry, host, guest}
use qomicex_connector_rust.Core.Negotiator.{negotiate}
use qomicex_connector_rust.Protocols.{nul, str_or, text_field}
use qomicex_connector_rust.Guest.Tcp.{Exchange, is_connected}
use qomicex_connector_rust.Guest.Keys.{standard_protocols, split_key, ensure_negotiated}
use qomicex_connector_rust.Guest.Session.{Profile, Act, ◌>>=◌, ◌>>◌, lift, pure, read, request}

abbrev pub center_request : Text → Bytes → ProtocolRequest
center_request request_type body = record {
  namespace = codes "c";
  request_type = request_type;
  body = body;
}

-- The protocols that a guest offers.
abbrev pub my_protocols : Profile → List Text
my_protocols p = standard_protocols ++ p.custom_protocol_keys

-- The easytier id of a ping: none unless it was negotiated, and then the empty text for no id.
unfoldable pub pinged_id : List Text → Option Text → Option Text
pinged_id negotiated node_id =
    if contains negotiated (codes "c:player_easytier_id")
    then some (elim node_id [ none ↦ [] | some id ↦ id ])
    else none

unfoldable pub profile_entry : Profile → List Text → Option Text → PlayerProfileEntry
unfolding pinged_id
profile_entry p negotiated node_id = record {
  name = p.player_name;
  machine_id = p.machine_id;
  easytier_id = pinged_id negotiated node_id;
  vendor = p.vendor;
  kind = none;
}

-- An error of the JSON library as one of the protocol.
abbrev pub as_protocol {ℓ} : {A : Type ℓ} → Result Text A → Outcome A
as_protocol (ok a) = ok a
as_protocol (err e) = err (protocol e)

-- What a response to the negotiation changes.
unfoldable pub agree : Profile → ProtocolResponse → Act (Unit {0})
agree p r g =
    if is_success r
    then (ok tt, record g { negotiated = negotiate (my_protocols p) (split 0 (utf8_lossy r.body)) })
    else (ok tt, g)

unfoldable pub negotiate_protocols : Profile → Exchange → Act (Unit {0})
negotiate_protocols p ex = do
  response ← request (center_request (codes "protocols") (utf8 (join nul (my_protocols p)))) ex
  agree p response

unfoldable pub ping : Exchange → Act Bool
ping ex = do
  response ← request (center_request (codes "ping") (66 ∷ [])) ex
  pure (is_success response)

length_error : Bytes → Outcome ℕ
length_error body = err (protocol (codes "服务器端口响应长度非法: " ++ decimal (length body) ++ codes " 字节"))

port_body : Bytes → Outcome ℕ
unfolding length_error
port_body [] = length_error []
port_body (a ∷ []) = length_error (a ∷ [])
port_body (a ∷ b ∷ []) = ok (from_be16 a b)
port_body (a ∷ b ∷ c ∷ rest) = length_error (a ∷ b ∷ c ∷ rest)

-- The port in a response.
unfoldable pub port_of : ProtocolResponse → Outcome ℕ
unfolding port_body
port_of r =
    if leb 32 r.status && ltb r.status 64
    then err (protocol (codes "MC 服务器未启动 (状态码: " ++ decimal r.status ++ codes ")"))
    else if is_success r
    then port_body r.body
    else err (protocol (codes "获取服务器端口失败 (状态码: " ++ decimal r.status ++ codes ")"))

unfoldable pub get_server_port : Exchange → Act ℕ
get_server_port ex = do
  response ← request (center_request (codes "server_port") []) ex
  lift (port_of response)

-- The answer to a JSON request.
unfoldable pub json_answer :
    {Resp : Type 0} → (Bytes → Result Text Resp) → Text → ProtocolResponse → Outcome Resp
json_answer from_slice key r =
    if is_success r
    then as_protocol (from_slice r.body)
    else err (protocol (codes "协议 " ++ key ++ codes " 返回错误状态: " ++ decimal r.status))

unfoldable pub send_json : {Resp : Type 0} → (Bytes → Result Text Resp) → Text → Exchange → Act Resp
send_json from_slice key ex = do
  negotiated ← read (λ g. g.negotiated)
  lift (ensure_negotiated negotiated key)
  (namespace, request_type) ← lift (split_key key)
  response ← request (record { namespace = namespace; request_type = request_type; body = [] }) ex
  lift (json_answer from_slice key response)

unfoldable pub send_json_req :
    {Resp : Type 0}
    → (Bytes → Result Text Resp)
    → Text
    → (payload : Result Text Bytes) → Exchange
    → Act Resp
send_json_req from_slice key payload ex = do
  negotiated ← read (λ g. g.negotiated)
  lift (ensure_negotiated negotiated key)
  (namespace, request_type) ← lift (split_key key)
  body ← lift (as_protocol payload)
  response ← request (record { namespace = namespace; request_type = request_type; body = body }) ex
  lift (json_answer from_slice key response)

module _ (J : JsonApi) where
  ping_connected : Profile → Option Text → Exchange → Act (Unit {0})
  ping_connected p node_id ex = do
    negotiated ← read (λ g. g.negotiated)
    body ← lift (as_protocol (J.entry_to_vec (profile_entry p negotiated node_id)))
    response ← request (center_request (codes "player_ping") body) ex
    pure tt

  -- Without a connection its loss is reported, and nothing is sent.
  unfoldable pub send_player_ping : Profile → (node_id : Option Text) → Exchange → Act (Unit {0})
  unfolding ping_connected
  send_player_ping p node_id ex g =
      if is_connected g.tcp
      then ping_connected p node_id ex g
      else (ok tt, record g { connection_lost = true })

  unfoldable pub is_host_kind : Option J.Value → Bool
  is_host_kind none = false
  is_host_kind (some v) = elim (J.as_str v) [ none ↦ false | some t ↦ text_eq t (codes "HOST") ]

  unfoldable pub player_of : J.Value → PlayerInfo
  unfolding is_host_kind
  player_of obj = record {
    name = str_or J obj (codes "name");
    machine_id = str_or J obj (codes "machine_id");
    easytier_id = text_field J obj (codes "easytier_id");
    vendor = str_or J obj (codes "vendor");
    kind = (if is_host_kind (J.get obj (codes "kind")) then host else guest);
  }

  -- Items that are no objects are passed over.
  unfoldable pub players_of : List J.Value → List PlayerInfo
  players_of [] = []
  players_of (item ∷ items) =
      let rest = players_of items in if J.is_object item then player_of item ∷ rest else rest

  items_of : Option (List J.Value) → List PlayerInfo
  items_of none = []
  items_of (some items) = players_of items

  unfoldable pub get_player_list : Exchange → Act (List PlayerInfo)
  unfolding items_of
  get_player_list ex = do
    response ← request (center_request (codes "player_profiles_list") []) ex
    value ← lift (as_protocol (J.from_slice response.body))
    pure (items_of (J.as_array value))
