-- ===== src/EasyTier/Peers.antt =====
-- The operations of easytier/manager.rs of crates/qomicex-connector/src on the peers and the
-- configuration of a running instance. `PeerId::from_str` and what the library answers are parameters.
pub mod Tidy
use qomicex_connector_rust.Base.{ℕ, Text, codes, ◌++◌, Option, none, some}
use qomicex_connector_rust.Base.Result.{Result, ok, err}
use qomicex_connector_rust.Error.{Outcome, easy_tier_start}
use qomicex_connector_rust.EasyTier.Instance.{
  EasyTierManager, Instance, Call, call, disconnected, denied, allowed,
}

-- The library is asked, and answers.
abbrev asking :
    Outcome (Unit {0})
    → (ℕ → ℕ → Call)
    → (instance_id peer_id : ℕ) → EasyTierManager
    → Outcome (Unit {0}) × EasyTierManager
asking answer question id p m = (answer, call (question id p) m)

module _ (instance : ℕ → Option Instance) where
  -- The instance that the library still has.
  unfoldable pub current : EasyTierManager → Option ℕ
  current m = elim m.instance_id [
    | none ↦ none
    | some id ↦ elim (instance id) [ none ↦ none | some i ↦ some id ]
  ]

  module _ (peer_id : Text → Result Text ℕ) where
    invalid : Text → Text → Outcome (Unit {0})
    invalid peer e = err (easy_tier_start (codes "无效的 peer id: " ++ peer ++ codes ": " ++ e))

    said : Text → Result Text (Unit {0}) → Outcome (Unit {0})
    said what (ok u) = ok tt
    said what (err e) = err (easy_tier_start (what ++ e))

    parsed :
        Text
        → (ℕ → EasyTierManager → Outcome (Unit {0}) × EasyTierManager)
        → EasyTierManager
        → Result Text ℕ
        → Outcome (Unit {0}) × EasyTierManager
    unfolding invalid
    parsed peer act m (err e) = (invalid peer e, m)
    parsed peer act m (ok p) = act p m

    addressed :
        Text
        → (ℕ → ℕ → EasyTierManager → Outcome (Unit {0}) × EasyTierManager)
        → EasyTierManager
        → Option ℕ
        → Outcome (Unit {0}) × EasyTierManager
    unfolding parsed
    addressed peer act m none = (ok tt, m)
    addressed peer act m (some id) = parsed peer (act id) m (peer_id peer)

    -- Without an instance that the library still has, nothing is done.
    with_peer :
        Text
        → (ℕ → ℕ → EasyTierManager → Outcome (Unit {0}) × EasyTierManager)
        → EasyTierManager
        → Outcome (Unit {0}) × EasyTierManager
    unfolding addressed
    with_peer peer act m = addressed peer act m (current m)

    unfoldable pub disconnect_peer :
        Result Text (Unit {0}) → Text → EasyTierManager → Outcome (Unit {0}) × EasyTierManager
    unfolding with_peer said
    disconnect_peer answer peer =
        with_peer peer (asking (said (codes "断开 peer 失败: ") answer) disconnected)

    unfoldable pub deny_peer :
        Result Text (Unit {0}) → Text → EasyTierManager → Outcome (Unit {0}) × EasyTierManager
    unfolding with_peer said
    deny_peer answer peer = with_peer peer (asking (said (codes "deny peer 失败: ") answer) denied)

    unfoldable pub allow_peer : Text → EasyTierManager → Outcome (Unit {0}) × EasyTierManager
    unfolding with_peer
    allow_peer peer = with_peer peer (asking (ok tt) allowed)

  applied : Option Instance → Result Text (Unit {0}) → Outcome (Unit {0})
  applied none answer = err (easy_tier_start (codes "实例不存在"))
  applied (some i) (ok u) = ok tt
  applied (some i) (err e) = err (easy_tier_start (codes "动态修改配置失败: " ++ e))

  -- The answer of the library's `apply_config_patch`, where it is reached.
  unfoldable pub apply_config_patch : Result Text (Unit {0}) → EasyTierManager → Outcome (Unit {0})
  unfolding applied
  apply_config_patch answer m = elim m.instance_id [
    | none ↦ err (easy_tier_start (codes "EasyTier 未启动"))
    | some id ↦ applied (instance id) answer
  ]
