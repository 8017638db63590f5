-- ===== src/Cli/Relaying.antt =====
-- `run_relay` of crates/qomicex-connector-cli/src/main.rs: a relay node of one's own. The answers of
-- EasyTier and of the system are a record; the calls of EasyTier are recorded.
pub mod Laws
use qomicex_connector_rust.Base.{
  ℕ, zero, suc, ◌+◌, ltb, Text, codes, Bool, true, false, List, [], ◌∷◌, ◌++◌, none, some,
  if◌then◌else◌,
}
use qomicex_connector_rust.Base.Result.{Result, ok, err, ok_or}
use qomicex_connector_rust.EasyTier.Config.{Addresses, TomlConfig}
use qomicex_connector_rust.EasyTier.Instance.{Call, ran, deleted}
use qomicex_connector_rust.Cli.{Failure, foreign, Fallible}
use qomicex_connector_rust.Cli.Session.{Act, ◌>>=◌, ◌>>◌, lift, foreigner}

-- The printed lines, the calls of the library, and how often the command slept 500 ms.
pub record Relay : Type 0 where
  pub console : List Text
  pub calls : List Call
  pub sleeps : ℕ

abbrev pub new_relay : Relay
new_relay = record { console = []; calls = []; sleeps = 0 }

-- What the library and the system answer; `ready` is asked by the number of the question.
pub record Library (Toml : Type 0) : Type 0 where
  pub run_network_instance : Toml → Result Text ℕ
  pub ready : ℕ → Bool
  pub ctrl_c : Result Text (Unit {0})
  pub delete_network_instances : Result Text (Unit {0})

unfoldable pub print : Text → Act Relay (Unit {0})
print line r = (ok tt, record r { console = r.console ++ line ∷ [] })

-- The sleeps before the instance is ready, of `left` questions that are left, from number `i` on.
unfoldable pub polls : (ℕ → Bool) → (left i : ℕ) → ℕ
polls ready zero i = 0
polls ready (suc left) i = elim (ready i) [ true ↦ 0 | false ↦ suc (polls ready left (suc i)) ]

module _ (api : Addresses) (default : TomlConfig api) (url_error : Text → Text) where
  unfoldable pub listener : Text → Fallible api.Url
  listener uri = ok_or (api.url uri) (foreign (url_error uri))

  unfoldable pub configured : api.Url → api.Url → TomlConfig api
  configured tcp udp = record default {
    network_identity = (codes "qomicex-local-relay", codes "qomicex-relay-secret");
    hostname = some (codes "qomicex-local-relay");
    dhcp = true;
    listeners = tcp ∷ udp ∷ [];
    flags = record default.flags {
      no_tun = true;
      use_smoltcp = true;
      multi_thread = true;
      latency_first = true;
    };
  }

  module _ (lib : Library (TomlConfig api)) where
    unfoldable pub launched : Result Text ℕ → Act Relay ℕ
    launched (err why) r = (err (foreign why), r)
    launched (ok id) r = (ok id, record r { calls = r.calls ++ ran id ∷ [] })

    -- 60 questions at most; that no answer was `true` is not looked at.
    poll_ready : Act Relay (Unit {0})
    poll_ready r = (ok tt, record r { sleeps = r.sleeps + polls lib.ready 60 0 })

    -- The running time, or Ctrl+C.
    unfoldable pub until_stopped : ℕ → Fallible (Unit {0})
    until_stopped seconds = if ltb 0 seconds then ok tt else foreigner lib.ctrl_c

    delete : ℕ → Act Relay (Unit {0})
    delete id r =
        (foreigner lib.delete_network_instances, record r { calls = r.calls ++ deleted id ∷ [] })

    unfoldable pub run_relay : (listen : Text) (seconds : ℕ) → Act Relay (Unit {0})
    unfolding print launched poll_ready delete
    run_relay listen seconds = do
      print (codes "启动本地中继，监听 " ++ listen ++ codes "...")
      tcp ← lift (listener (codes "tcp://" ++ listen))
      udp ← lift (listener (codes "udp://" ++ listen))
      id ← launched (lib.run_network_instance (configured tcp udp))
      poll_ready
      print (codes "中继已就绪，按 Ctrl+C 退出")
      lift (until_stopped seconds)
      delete id
      print (codes "中继已停止")
