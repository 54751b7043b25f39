-- ===== src/Interop/Contract/Deployment.antt =====
-- A deployment leaves a proxy whose storage is initialised.
use money_interoperability.Prelude.{
  ℕ, ◌≡◌, ◌≢◌, refl, List, [], ◌∷◌, true, false, not, ◌==◌, arith, Option, some, none,
}
use money_interoperability.World.{
  Address, Reply, ok, err, operator_updated, relayer_updated, price_oracle_updated,
}
use money_interoperability.Action.{done}
use money_interoperability.Interop.Contract.{
  InitializeCall, Creation, price_oracle, om_interop, erc1967_proxy, Provider, deploy_uups_like,
  deploy_then,
}
use money_interoperability.Contracts.Mapping.{revert_if, ◌>>=◌}
use money_interoperability.Contracts.OmInterop.Admin.{initialize}
use money_interoperability.Contracts.OmInterop.Checkpoints.{get_latest_completed_checkpoint}
use money_interoperability.Contracts.OmInterop.State.{Layout, Env, Error, blank, external}

-- The storage after the constructor of the proxy, which calls `initialize` with what the bytes decode
-- to.
abbrev pub construct : Env → Option InitializeCall → Reply Error Layout
construct env none = err external
construct env (some i) = initialize env i.owner i.operator i.relayer i.price_oracle blank

-- Three deployments that succeed.
pub record Succeeds (provider : Provider) (before : List Creation) (call : InitializeCall)
    (impl proxy : Address) : Type 0 where
  pub first : provider.deploy before (price_oracle call.owner call.operator) ≡ ok call.price_oracle
  pub second : provider.deploy (price_oracle call.owner call.operator ∷ before) om_interop ≡ ok impl
  pub third :
      provider.deploy
        (om_interop ∷ price_oracle call.owner call.operator ∷ before)
        (erc1967_proxy impl (provider.abi_encode call))
      ≡ ok proxy

-- The storage that `initialize` leaves.
abbrev ready : InitializeCall → Layout
ready call = record blank {
  operator = call.operator;
  relayer = call.relayer;
  price_oracle = call.price_oracle;
  earliest_incompleted_checkpoint = 1;
  events =
      operator_updated call.operator
      ∷ relayer_updated call.relayer
      ∷ price_oracle_updated call.price_oracle
      ∷ [];
}

initialized :
    (env : Env) (call : InitializeCall)
    → env.may_initialize ≡ true
    → call.owner ≢ 0
    → call.operator ≢ 0
    → call.relayer ≢ 0
    → call.price_oracle ≢ 0
    → (s : Layout) × (construct env (some call) ≡ ok s)
      × (s.operator ≡ call.operator)
      × (s.relayer ≡ call.relayer)
      × (s.price_oracle ≡ call.price_oracle)
      × (get_latest_completed_checkpoint s ≡ 0)
unfolding initialize revert_if get_latest_completed_checkpoint
initialized env call may a b c d =
    let may' : not env.may_initialize ≡ false = ground arith in
    let a' : (call.owner == 0) ≡ false = ground arith in
    let b' : (call.operator == 0) ≡ false = ground arith in
    let c' : (call.relayer == 0) ≡ false = ground arith in
    let d' : (call.price_oracle == 0) ≡ false = ground arith in
    (ready call, rw (may', a', b', c', d', ◌>>=◌) refl, refl, refl, refl, refl)

-- If the three deployments succeed, the encoding of the call of `initialize` decodes to it, the proxy
-- is new, and no address is 0, then the deployment returns the proxy's address twice, it has made the
-- oracle, the implementation and the proxy in this order, and the proxy's storage has the given
-- operator, relayer and oracle, with 0 as its latest completed checkpoint.
pub deploy_uups_like-initialized :
    (provider : Provider) (before : List Creation) (call : InitializeCall) (impl proxy : Address)
    (env : Env) (decode : List ℕ → Option InitializeCall)
    → Succeeds provider before call impl proxy
    → decode (provider.abi_encode call) ≡ some call
    → env.may_initialize ≡ true
    → call.owner ≢ 0
    → call.operator ≢ 0
    → call.relayer ≢ 0
    → call.price_oracle ≢ 0
    → (deploy_uups_like provider call.owner call.operator call.relayer before ≡ (
      done (proxy, proxy),
      erc1967_proxy impl (provider.abi_encode call)
          ∷ om_interop
          ∷ price_oracle call.owner call.operator
          ∷ before,
    ))
      × ((s : Layout) × (construct env (decode (provider.abi_encode call)) ≡ ok s)
          × (s.operator ≡ call.operator)
          × (s.relayer ≡ call.relayer)
          × (s.price_oracle ≡ call.price_oracle)
          × (get_latest_completed_checkpoint s ≡ 0))
unfolding deploy_uups_like deploy_then
deploy_uups_like-initialized provider before call impl proxy env decode ok_all decodes may a b c d =
    (
      rw (ok_all.first, ok_all.second, ok_all.third) refl,
      rw decodes (initialized env call may a b c d),
    )
