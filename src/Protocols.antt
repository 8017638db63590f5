-- ===== src/Protocols.antt =====
-- crates/qomicex-connector/src/protocols/mod.rs: the handlers of the standard protocols and of custom
-- ones. `S` is the state that handlers share; a handler returns its response and the new state.
use qomicex_connector_rust.Base.{
  ℕ, Text, Bytes, codes, Bool, true, false, List, [], ◌∷◌, ◌++◌, map, Option, none, some, is_empty,
  if◌then◌else◌, utf8, join, be16, decimal,
}
use qomicex_connector_rust.Base.Result.{Result, ok, err}
use qomicex_connector_rust.Models.Protocol.{ProtocolRequest, ProtocolResponse}
use qomicex_connector_rust.Models.Player.{PlayerInfo, PlayerProfileEntry, host, guest}
use qomicex_connector_rust.Json.{JsonApi, int_text}

pub record ProtocolHandler (S : Type 0) : Type 0 where
  pub key : Text
  pub handle : ProtocolRequest → S → ProtocolResponse × S

abbrev pub response : ℕ → Bytes → ProtocolResponse
response status body = record { status = status; body = body }

unfoldable pub error_response : Text → ProtocolResponse
error_response message = response 255 (utf8 message)

-- A handler that answers without the state.
abbrev pub answering :
    (S : Type 0) → Text → (ProtocolRequest → ProtocolResponse) → ProtocolHandler S
answering S key f = record { key = key; handle = λ req s. (f req, s) }

-- The keys are joined by NUL.
abbrev pub nul : Text
nul = 0 ∷ []

unfoldable pub player_to_entry : PlayerInfo → PlayerProfileEntry
player_to_entry p = record {
  name = p.name;
  machine_id = p.machine_id;
  easytier_id = p.easytier_id;
  vendor = p.vendor;
  kind = (elim p.kind [ host ↦ some (codes "HOST") | guest ↦ some (codes "GUEST") ]);
}

-- `Ok(body)` becomes status 0, an error status 255 with its message behind `what`.
unfoldable pub encoded : Text → Result Text Bytes → ProtocolResponse
unfolding error_response
encoded what (ok body) = response 0 body
encoded what (err e) = error_response (what ++ e)

module _ (S : Type 0) where
  unfoldable pub ping_protocol : ProtocolHandler S
  ping_protocol = answering S (codes "c:ping") (λ req. response 0 req.body)

  unfoldable pub protocols_protocol : List Text → ProtocolHandler S
  protocols_protocol supported =
      answering S (codes "c:protocols") (λ req. response 0 (utf8 (join nul supported)))

  unfoldable pub server_port_protocol : ℕ → ProtocolHandler S
  server_port_protocol port = answering S (codes "c:server_port") (λ req. response 0 (be16 port))

  -- `DelegateProtocol::new_raw`: the handler's closure may read and change the shared state.
  unfoldable pub new_raw : Text → (Bytes → S → Bytes × S) → ProtocolHandler S
  new_raw key handler = record {
    key = key;
    handle = λ req s. let (body, s') = handler req.body s in (response 0 body, s');
  }

  -- `DelegateProtocol::new`
  unfoldable pub new_delegate :
      Text → (ProtocolRequest → S → ProtocolResponse × S) → ProtocolHandler S
  new_delegate key handler = record { key = key; handle = handler }

  -- `new_json`: `to_vec` encodes the type of the answers.
  unfoldable pub new_json :
      {Resp : Type 0} → (Resp → Result Text Bytes) → Text → (S → Resp × S) → ProtocolHandler S
  unfolding encoded
  new_json to_vec key handler = record {
    key = key;
    handle =
        λ req s. let (answer, s') = handler s in (encoded (codes "响应序列化失败: ") (to_vec answer), s');
  }

  unfoldable pub json_req :
      {Req Resp : Type 0}
      → (Resp → Result Text Bytes)
      → (Req → S → Resp × S)
      → Result Text Req
      → S
      → ProtocolResponse × S
  unfolding encoded error_response
  json_req to_vec handler (ok arg) s =
      let (answer, s') = handler arg s in (encoded (codes "响应序列化失败: ") (to_vec answer), s')
  json_req to_vec handler (err e) s = (error_response (codes "请求反序列化失败: " ++ e), s)

  -- `new_json_req`: an empty body is the default request.
  unfoldable pub new_json_req :
      {Req Resp : Type 0}
      → Req
      → (Bytes → Result Text Req)
      → (Resp → Result Text Bytes)
      → Text
      → (Req → S → Resp × S)
      → ProtocolHandler S
  unfolding json_req
  new_json_req default from_slice to_vec key handler = record {
    key = key;
    handle = λ req s.
        json_req to_vec handler (if is_empty req.body then ok default else from_slice req.body) s;
  }

module _ (J : JsonApi) where
  open J use {Value}

  abbrev or_else : Option Text → Option Text → Option Text
  or_else none later = later
  or_else (some t) later = some t

  abbrev mapped {ℓ} : {A : Type ℓ} → (A → Text) → Option A → Option Text
  mapped f none = none
  mapped f (some a) = some (f a)

  -- A string as it is, a number as its text.
  unfoldable pub value_to_string : Value → Option Text
  value_to_string v = or_else (J.as_str v) (
      or_else (mapped int_text (J.as_i64 v))
        (or_else (mapped decimal (J.as_u64 v)) (J.as_f64_text v)))

  -- `root.get(key).and_then(value_to_string)`
  unfoldable pub text_field : Value → Text → Option Text
  unfolding value_to_string
  text_field root key = elim (J.get root key) [ none ↦ none | some v ↦ value_to_string v ]

  -- `unwrap_or_default` of it
  unfoldable pub str_or : Value → Text → Text
  unfolding text_field
  str_or root key = elim (text_field root key) [ none ↦ [] | some t ↦ t ]

  unfoldable pub info_of : Result Text Value → Result Text PlayerInfo
  info_of (err e) = err e
  info_of (ok root) = ok (record {
    name = str_or root (codes "name");
    machine_id = str_or root (codes "machine_id");
    vendor = str_or root (codes "vendor");
    easytier_id = text_field root (codes "easytier_id");
    kind = host;
  })

  unfoldable pub parse_player_info : Bytes → Result Text PlayerInfo
  unfolding info_of
  parse_player_info body = info_of (J.from_slice body)

  verdict : Bool → ProtocolResponse
  verdict true = response 0 []
  verdict false = response 255 (utf8 (codes "玩家已被房主踢出"))

  unfoldable pub player_ping_response :
      {S : Type 0} → (PlayerInfo → S → Bool × S) → Result Text PlayerInfo → S → ProtocolResponse × S
  unfolding verdict error_response
  player_ping_response on_player_ping (ok info) s =
      let (accepted, s') = on_player_ping info s in (verdict accepted, s')
  player_ping_response on_player_ping (err e) s = (error_response (codes "玩家心跳解析失败: " ++ e), s)

  unfoldable pub player_ping_protocol :
      (S : Type 0) → (PlayerInfo → S → Bool × S) → ProtocolHandler S
  unfolding player_ping_response
  player_ping_protocol S on_player_ping = record {
    key = codes "c:player_ping";
    handle = λ req s. player_ping_response on_player_ping (parse_player_info req.body) s;
  }

  unfoldable pub player_profiles_list_protocol :
      (S : Type 0) → (S → List PlayerInfo) → ProtocolHandler S
  unfolding encoded
  player_profiles_list_protocol S get_players = record {
    key = codes "c:player_profiles_list";
    handle = λ req s.
        (encoded (codes "玩家列表序列化失败: ") (J.entries_to_vec (map player_to_entry (get_players s))), s);
  }
