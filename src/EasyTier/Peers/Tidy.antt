-- ===== src/EasyTier/Peers/Tidy.antt =====
-- The operations on peers start and stop nothing.
use qomicex_connector_rust.Base.{
  ℕ, Bool, false, All, ◌⊎◌, ◌≡◌, refl, sym, subst, ◌∙◌, Text, codes, List, [], ◌∷◌, Option, none,
  some,
}
use qomicex_connector_rust.Base.Result.{Result, ok, err}
use qomicex_connector_rust.Error.{Outcome}
use qomicex_connector_rust.EasyTier.Instance.{
  EasyTierManager, Instance, Call, disconnected, denied, allowed, call,
}
use qomicex_connector_rust.EasyTier.Instance.Lifecycle.{after_calls, after_calls-append, IsTidy}
use qomicex_connector_rust.EasyTier.Peers.{
  asking, said, current, parsed, addressed, with_peer, disconnect_peer, deny_peer, allow_peer,
}

-- A call about a peer starts and stops nothing.
data IsPeerCall : Call → Type 0 where
  disconnects : (id peer : ℕ) → IsPeerCall (disconnected id peer)
  denies : (id peer : ℕ) → IsPeerCall (denied id peer)
  allows : (id peer : ℕ) → IsPeerCall (allowed id peer)

module _ (deletes : ℕ → Bool) where
  after_peer_call :
      (c : Call)
      → IsPeerCall c
      → (running : List ℕ) → after_calls deletes (c ∷ []) running ≡ running
  unfolding after_calls
  after_peer_call _ (disconnects id peer) running = refl
  after_peer_call _ (denies id peer) running = refl
  after_peer_call _ (allows id peer) running = refl

  call-IsTidy :
      (c : Call) (m : EasyTierManager) → IsPeerCall c → IsTidy deletes m → IsTidy deletes (call c m)
  unfolding call
  call-IsTidy c m p t =
      subst (All (λ i. (m.instance_id ≡ some i) ⊎ (deletes i ≡ false)))
        (sym (
          after_calls-append deletes m.calls (c ∷ []) []
          ∙ after_peer_call c p (after_calls deletes m.calls [])))
        t

  module _ (instance : ℕ → Option Instance) (peer_id : Text → Result Text ℕ) (peer : Text) where
    parsed-IsTidy :
        (act : ℕ → EasyTierManager → Outcome (Unit {0}) × EasyTierManager)
        → ((p : ℕ) (m : EasyTierManager) → IsTidy deletes m → IsTidy deletes (act p m).1)
        → (m : EasyTierManager) (r : Result Text ℕ) → IsTidy deletes m
        → IsTidy deletes (parsed instance peer_id peer act m r).1
    unfolding parsed
    parsed-IsTidy act k m (err e) t = t
    parsed-IsTidy act k m (ok p) t = k p m t

    addressed-IsTidy :
        (act : ℕ → ℕ → EasyTierManager → Outcome (Unit {0}) × EasyTierManager)
        → ((id p : ℕ) (m : EasyTierManager) → IsTidy deletes m → IsTidy deletes (act id p m).1)
        → (m : EasyTierManager) (o : Option ℕ) → IsTidy deletes m
        → IsTidy deletes (addressed instance peer_id peer act m o).1
    unfolding addressed
    addressed-IsTidy act k m none t = t
    addressed-IsTidy act k m (some id) t = parsed-IsTidy (act id) (k id) m (peer_id peer) t

    -- An operation that asks the library one question about a peer.
    with_peer-IsTidy :
        (answer : Outcome (Unit {0})) (question : ℕ → ℕ → Call) (m : EasyTierManager)
        → ((id p : ℕ) → IsPeerCall (question id p))
        → IsTidy deletes m
        → IsTidy deletes (with_peer instance peer_id peer (asking answer question) m).1
    unfolding with_peer
    with_peer-IsTidy answer question m q t =
        addressed-IsTidy (asking answer question) (λ id p m. call-IsTidy (question id p) m (q id p))
          m (current instance m) t

    pub disconnect_peer-IsTidy :
        (answer : Result Text (Unit {0})) (m : EasyTierManager)
        → IsTidy deletes m
        → IsTidy deletes (disconnect_peer instance peer_id answer peer m).1
    unfolding disconnect_peer
    disconnect_peer-IsTidy answer m =
        with_peer-IsTidy (said instance peer_id (codes "断开 peer 失败: ") answer) disconnected m
          disconnects

    pub deny_peer-IsTidy :
        (answer : Result Text (Unit {0})) (m : EasyTierManager)
        → IsTidy deletes m
        → IsTidy deletes (deny_peer instance peer_id answer peer m).1
    unfolding deny_peer
    deny_peer-IsTidy answer m =
        with_peer-IsTidy (said instance peer_id (codes "deny peer 失败: ") answer) denied m denies

    pub allow_peer-IsTidy :
        (m : EasyTierManager)
        → IsTidy deletes m
        → IsTidy deletes (allow_peer instance peer_id peer m).1
    unfolding allow_peer
    allow_peer-IsTidy m = with_peer-IsTidy (ok tt) allowed m allows
