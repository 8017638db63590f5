-- ===== src/Guest/Keys.antt =====
-- The texts of crates/qomicex-connector/src/guest/scaffolding_guest.rs: protocol keys and forwarding
-- rules. How a socket address is read is a parameter.
use qomicex_connector_rust.Base.{
  Text, codes, List, [], ◌∷◌, ◌++◌, Option, contains, join, is_empty, if◌then◌else◌, split_char,
  split_once,
}
use qomicex_connector_rust.Base.Result.{ok, err, ok_or, ◌>>=◌}
use qomicex_connector_rust.Error.{Outcome, protocol, protocol_not_negotiated}

abbrev pub standard_protocols : List Text
standard_protocols =
    codes "c:ping"
    ∷ codes "c:protocols"
    ∷ codes "c:server_port"
    ∷ codes "c:player_ping"
    ∷ codes "c:player_profiles_list"
    ∷ codes "c:player_easytier_id"
    ∷ []

-- The namespace and the type of a key: the texts around its first `:`.
unfoldable pub split_key : Text → Outcome (Text × Text)
split_key key = ok_or (split_char b':' key) (protocol (codes "无效的协议键格式: " ++ key))

unfoldable pub ensure_negotiated : List Text → Text → Outcome (Unit {0})
ensure_negotiated negotiated key =
    if contains negotiated key
    then ok tt
    else err (
        protocol_not_negotiated (
          codes "房主不支持协议 "
          ++ key
          ++ codes "（协商结果: "
          ++ (if is_empty negotiated then codes "空" else join (codes ", ") negotiated)
          ++ codes "）"))

-- The addresses of a rule `tcp://BIND/DST`.
unfoldable pub parse_forward_addrs :
    {Addr : Type 0} → (Text → Option Addr) → Text → Outcome (Addr × Addr)
parse_forward_addrs socket_addr forward = do
  (scheme, rest) ←
      ok_or (split_once (codes "://") forward) (protocol (codes "无效的端口转发格式: " ++ forward))
  (bind, dst) ← ok_or (split_char b'/' rest) (protocol (codes "无效的端口转发格式: " ++ forward))
  bind_addr ← ok_or (socket_addr bind) (protocol (codes "无效的端口转发绑定地址: " ++ bind))
  dst_addr ← ok_or (socket_addr dst) (protocol (codes "无效的端口转发目标地址: " ++ dst))
  ok (bind_addr, dst_addr)
