-- ===== src/Contracts/OmInterop/Admin.antt =====
-- initialize, the setters of roles and tokens, the calls as a data type, and sequences of them.
use money_interoperability.Prelude.{ℕ, not, true, List, [], ◌∷◌, ◌++◌}
use money_interoperability.World.{
  Address, Hash, Reply, ok, BridgeTo, operator_updated, relayer_updated, price_oracle_updated,
}
use money_interoperability.Contracts.Mapping.{put, revert_if, ◌>>◌}
use money_interoperability.Contracts.OmInterop.Bridge.{bridge_from, bridge_to}
use money_interoperability.Contracts.OmInterop.Checkpoints.{update_checkpoint_info}
use money_interoperability.Contracts.OmInterop.RateLimits.{set_rate_limit}
use money_interoperability.Contracts.OmInterop.State.{
  Layout, Env, Error, TokenBinding, InteropProtocol, only_owner, only_operator, non_zero_address,
  not_a_contract, not_a_price_oracle, external, settle,
}

unfoldable pub initialize :
    Env → Address → Address → Address → Address → Layout → Reply Error Layout
initialize env owner operator relayer price_oracle s = do
  revert_if (not env.may_initialize) external
  non_zero_address owner
  non_zero_address operator
  non_zero_address relayer
  non_zero_address price_oracle
  ok (record s {
    operator = operator;
    relayer = relayer;
    price_oracle = price_oracle;
    earliest_incompleted_checkpoint = 1;
    events =
        s.events
        ++ operator_updated operator
          ∷ relayer_updated relayer
          ∷ price_oracle_updated price_oracle
          ∷ [];
  })

unfoldable pub set_operator : Env → Address → Layout → Reply Error Layout
set_operator env new s = do
  only_owner env
  non_zero_address new
  ok (record s { operator = new; events = s.events ++ operator_updated new ∷ [] })

unfoldable pub set_relayer : Env → Address → Layout → Reply Error Layout
set_relayer env new s = do
  only_owner env
  non_zero_address new
  ok (record s { relayer = new; events = s.events ++ relayer_updated new ∷ [] })

unfoldable pub set_price_oracle : Env → Address → Layout → Reply Error Layout
set_price_oracle env new s = do
  only_owner env
  non_zero_address new
  revert_if (not (env.has_code new)) not_a_contract
  revert_if (not (env.supports_price_oracle new)) not_a_price_oracle
  ok (record s { price_oracle = new; events = s.events ++ price_oracle_updated new ∷ [] })

unfoldable pub map_token_addresses :
    Env → Address → Address → InteropProtocol → Layout → Reply Error Layout
map_token_addresses env om_token sc_token protocol s = do
  only_operator env s
  non_zero_address om_token
  non_zero_address sc_token
  let binding : TokenBinding = record {
    om_token = om_token;
    sc_token = sc_token;
    interop_proto_id = protocol;
    exists = true;
  }
  ok (record s {
    tokens_by_sidechain = put s.tokens_by_sidechain sc_token binding;
    tokens_by_om = put s.tokens_by_om om_token binding;
  })

-- A call of a method that changes the storage.
pub data Method : Type 0 where
  initializing : Address → Address → Address → Address → Method
  setting_operator : Address → Method
  setting_relayer : Address → Method
  setting_price_oracle : Address → Method
  mapping_tokens : Address → Address → InteropProtocol → Method
  setting_rate_limit : Address → ℕ → ℕ → Method
  bridging_from : Address → ℕ → Method
  bridging_to : BridgeTo → Method
  updating_checkpoint : ℕ → List Hash → Method

unfoldable pub execute : Env → Method → Layout → Reply Error Layout
execute env (initializing owner operator relayer oracle) =
    initialize env owner operator relayer oracle
execute env (setting_operator new) = set_operator env new
execute env (setting_relayer new) = set_relayer env new
execute env (setting_price_oracle new) = set_price_oracle env new
execute env (mapping_tokens om sc protocol) = map_token_addresses env om sc protocol
execute env (setting_rate_limit token limit window) = set_rate_limit env token limit window
execute env (bridging_from to amount) = bridge_from env to amount
execute env (bridging_to req) = bridge_to env req
execute env (updating_checkpoint id hs) = update_checkpoint_info env id hs

unfoldable pub history : List (Env × Method) → Layout → Layout
unfolding execute
history [] s = s
history ((env, method) ∷ rest) s = history rest (settle s (execute env method s))
