-- ===== src/Interop/Contract.antt =====
-- code/crates/onemoney_interop/src/contract.rs: the deployment of OMInterop behind a proxy. The
-- bindings that `sol!` generates are not code of the repository.
pub mod Deployment
use money_interoperability.Prelude.{ℕ, List, [], ◌∷◌}
use money_interoperability.World.{Address, Fault, Reply, ok, err}
use money_interoperability.Action.{Exit, done, panic}
use money_interoperability.Interop.Error.{InteropError}

-- `OMInterop::initializeCall`.
pub record InitializeCall : Type 0 where
  pub owner : Address
  pub operator : Address
  pub relayer : Address
  pub price_oracle : Address

-- A deployment with its arguments.
pub data Creation : Type 0 where
  price_oracle : (owner operator : Address) → Creation
  om_interop : Creation
  erc1967_proxy : (implementation : Address) (init : List ℕ) → Creation

-- A provider: the address of a new contract, after the deployments before it, and the ABI encoding.
pub record Provider : Type 0 where
  pub deploy : List Creation → Creation → Reply Fault Address
  pub abi_encode : InitializeCall → List ℕ

-- The proxy's address, and the instance that is bound to it.
abbrev pub Deployed : Type 0
Deployed = Exit InteropError (Address × Address) × List Creation

abbrev unwrap : Reply Fault Address → (Address → Deployed) → Deployed → Deployed
unwrap (ok address) next stopped = next address
unwrap (err e) next stopped = stopped

-- `deploy(..).await.unwrap()`, with the deployments so far, the newest first.
unfoldable pub deploy_then :
    Provider → Creation → (Address → List Creation → Deployed) → List Creation → Deployed
deploy_then provider c next before =
    unwrap (provider.deploy before c) (λ a. next a (c ∷ before)) (panic, before)

unfoldable pub deploy_uups_like : Provider → Address → Address → Address → List Creation → Deployed
unfolding deploy_then
deploy_uups_like provider owner operator relayer =
    deploy_then provider (price_oracle owner operator) λ oracle.
      deploy_then provider om_interop λ impl_addr.
        deploy_then provider
          (erc1967_proxy impl_addr (
            provider.abi_encode (record {
              owner = owner;
              operator = operator;
              relayer = relayer;
              price_oracle = oracle;
            })))
          λ proxy_addr made. (done (proxy_addr, proxy_addr), made)
