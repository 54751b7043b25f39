-- ===== src/Contracts/OmInterop/State.antt =====
-- The storage of OMInterop, its errors, and what surrounds a call of it.
use money_interoperability.Prelude.{ℕ, Bool, false, not, Option, none, some, List, [], ◌==◌}
use money_interoperability.World.{Address, Hash, Reply, ok, err, BridgeTo, OmInteropEvents}
use money_interoperability.Contracts.Mapping.{revert_if}

pub data InteropProtocol : Type 0 where
  layer_zero : InteropProtocol
  mock : InteropProtocol

pub record TokenBinding : Type 0 where
  pub om_token : Address
  pub sc_token : Address
  pub interop_proto_id : InteropProtocol
  pub exists : Bool

pub record CheckpointTally : Type 0 where
  pub certified : ℕ
  pub completed : ℕ

pub record RateLimitParam : Type 0 where
  pub limit : ℕ
  pub window : ℕ

pub record RateLimitData : Type 0 where
  pub amount_in_flight : ℕ
  pub last_epoch : ℕ

-- The defaults of a mapping.
abbrev pub no_tally : CheckpointTally
no_tally = record { certified = 0; completed = 0 }

abbrev pub no_param : RateLimitParam
no_param = record { limit = 0; window = 0 }

abbrev pub no_data : RateLimitData
no_data = record { amount_in_flight = 0; last_epoch = 0 }

abbrev pub no_binding : TokenBinding
no_binding = record { om_token = 0; sc_token = 0; interop_proto_id = layer_zero; exists = false }

-- `OMInteropStorage.Layout`, with the variable `priceOracle` of the contract itself, which is another
-- one than that of the layout, and the events emitted so far; the field `version` is never used.
pub record Layout : Type 0 where
  pub operator : Address
  pub relayer : Address
  pub next_inbound_nonce : ℕ
  pub earliest_incompleted_checkpoint : ℕ
  pub tokens_by_om : Address → TokenBinding
  pub tokens_by_sidechain : Address → TokenBinding
  pub latest_bb_nonce : Address → ℕ
  pub checkpoint_ids_by_source_hash : Hash → ℕ
  pub processed_bridges : Hash → Bool
  pub checkpoint_tallies : ℕ → CheckpointTally
  pub rate_limits_param : Address → RateLimitParam
  pub rate_limits_data : Address → RateLimitData
  pub price_oracle : Address
  pub public_price_oracle : Address
  pub events : List OmInteropEvents

-- The storage of a proxy before `initialize`.
abbrev pub blank : Layout
blank = record {
  operator = 0;
  relayer = 0;
  next_inbound_nonce = 0;
  earliest_incompleted_checkpoint = 0;
  tokens_by_om = λ _. no_binding;
  tokens_by_sidechain = λ _. no_binding;
  latest_bb_nonce = λ _. 0;
  checkpoint_ids_by_source_hash = λ _. 0;
  processed_bridges = λ _. false;
  checkpoint_tallies = λ _. no_tally;
  rate_limits_param = λ _. no_param;
  rate_limits_data = λ _. no_data;
  price_oracle = 0;
  public_price_oracle = 0;
  events = [];
}

-- The errors that the contract raises, a panic of checked arithmetic, and a revert of another
-- contract (OpenZeppelin's modifiers, LayerZero, the price oracle) or for want of gas.
pub data Error : Type 0 where
  unauthorized : Error
  invalid_address : Error
  invalid_amount : Error
  unknown_token : Address → Error
  invalid_nonce : ℕ → ℕ → Error
  inbound_nonce_overflow : Error
  checkpoint_completed_and_pruned : ℕ → Error
  invalid_chain_id : Error
  checkpoint_completed : ℕ → Error
  checkpoint_already_registered : ℕ → Error
  inbound_nonce_unavailable : Error
  rate_limit_exceeded : Error
  not_a_contract : Error
  not_a_price_oracle : Error
  panicked : Error
  out_of_gas : Error
  external : Error

-- A call's sender and time, the verdicts of OpenZeppelin's `onlyOwner` and `initializer`, the rounds
-- that its gas allows a loop, and the answers of other contracts: whether an address has code and
-- supports IPriceOracle, the native fee of a transfer that LayerZero accepts, and the conversion of
-- the oracle. These contracts are taken not to call back.
pub record Env : Type 0 where
  pub sender : Address
  pub timestamp : ℕ
  pub is_owner : Bool
  pub may_initialize : Bool
  pub gas : ℕ
  pub has_code : Address → Bool
  pub supports_price_oracle : Address → Bool
  pub bridge_with_layer_zero : Address → BridgeTo → Option ℕ
  pub convert_native_token_to_token : Address → Address → ℕ → Option ℕ

-- The answer of another contract, or its revert.
unfoldable pub answered : {A : Type 0} → Option A → Reply Error A
answered none = err external
answered (some a) = ok a

abbrev pub only_operator : Env → Layout → Reply Error (Unit {0})
only_operator env s = revert_if (not (s.operator == env.sender)) unauthorized

abbrev pub only_relayer : Env → Layout → Reply Error (Unit {0})
only_relayer env s = revert_if (not (s.relayer == env.sender)) unauthorized

abbrev pub only_owner : Env → Reply Error (Unit {0})
only_owner env = revert_if (not env.is_owner) external

abbrev pub non_zero_address : Address → Reply Error (Unit {0})
non_zero_address account = revert_if (account == 0) invalid_address

abbrev pub positive_amount : ℕ → Reply Error (Unit {0})
positive_amount amount = revert_if (amount == 0) invalid_amount

-- A transaction that reverts leaves the storage as it was.
abbrev pub settle : Layout → Reply Error Layout → Layout
settle s (ok s') = s'
settle s (err e) = s
