-- ===== src/Contracts/PriceOracle.antt =====
-- code/solidity/src/PriceOracle.sol: the prices of tokens in the native token. OpenZeppelin's Ownable
-- is not modelled: a message says whether its sender is the owner, and ERC-165 is left out.
pub mod Methods
pub mod Prices
pub mod Bulk
use money_interoperability.Prelude.{
  ℕ, ◌*◌, ◌/◌, ◌^◌, Bool, not, ◌&&◌, List, [], ◌∷◌, ◌++◌, length, ltb, ◌==◌,
}
use money_interoperability.World.{Address, Reply, ok, err}
use money_interoperability.Contracts.Mapping.{u256_max, put, revert_if, ◌>>=◌, ◌>>◌}

pub data Error : Type 0 where
  unauthorized : Error
  invalid_address : Error
  unset_token : Address → Error
  length_mismatch : ℕ → ℕ → Error
  ownable panicked : Error

pub data Event : Type 0 where
  operator_updated : Address → Address → Event
  price_updated : Address → ℕ → ℕ → Event

-- The storage, and the events emitted so far.
pub record PriceOracle : Type 0 where
  pub operator : Address
  pub price_mapping : Address → ℕ
  pub last_update_mapping : Address → ℕ
  pub events : List Event

-- `msg`, with whether its sender is `owner()`, and `block.timestamp`.
pub record Msg : Type 0 where
  pub sender : Address
  pub is_owner : Bool
  pub timestamp : ℕ

abbrev pub price_decimals : ℕ
price_decimals = 10 ^ 18

abbrev pub only_operator_or_owner : Msg → PriceOracle → Reply Error (Unit {0})
only_operator_or_owner msg m =
    revert_if (not (msg.sender == m.operator) && not msg.is_owner) unauthorized

abbrev pub non_zero_address : Address → Reply Error (Unit {0})
non_zero_address account = revert_if (account == 0) invalid_address

-- The constructor; `refused` says whether the constructor of Ownable reverts.
unfoldable pub create : Bool → Address → Address → Reply Error PriceOracle
create refused owner operator = do
  revert_if refused ownable
  non_zero_address owner
  non_zero_address operator
  ok (record {
    operator = operator;
    price_mapping = λ _. 0;
    last_update_mapping = λ _. 0;
    events = operator_updated 0 operator ∷ [];
  })

unfoldable pub set_operator : Msg → Address → PriceOracle → Reply Error PriceOracle
set_operator msg new m = do
  revert_if (not msg.is_owner) ownable
  non_zero_address new
  ok (record m { events = m.events ++ operator_updated m.operator new ∷ []; operator = new })

-- `_updatePrice`.
unfoldable pub priced : ℕ → Address → ℕ → PriceOracle → PriceOracle
priced timestamp token value m = record m {
  events = m.events ++ price_updated token (m.price_mapping token) value ∷ [];
  price_mapping = put m.price_mapping token value;
  last_update_mapping = put m.last_update_mapping token timestamp;
}

unfoldable pub update_price : Msg → Address → ℕ → PriceOracle → Reply Error PriceOracle
update_price msg token value m = do
  non_zero_address token
  only_operator_or_owner msg m
  ok (priced msg.timestamp token value m)

-- The loop over the two arrays; a read out of bounds would panic.
unfoldable pub bulk_loop : ℕ → List Address → List ℕ → PriceOracle → Reply Error PriceOracle
bulk_loop timestamp [] values m = ok m
bulk_loop timestamp (token ∷ tokens) [] m = err panicked
bulk_loop timestamp (token ∷ tokens) (value ∷ values) m = do
  non_zero_address token
  bulk_loop timestamp tokens values (priced timestamp token value m)

unfoldable pub bulk_update_prices :
    Msg → List Address → List ℕ → PriceOracle → Reply Error PriceOracle
bulk_update_prices msg tokens values m = do
  only_operator_or_owner msg m
  revert_if (not (length tokens == length values)) (length_mismatch (length tokens) (length values))
  bulk_loop msg.timestamp tokens values m

-- The amount of `token`, rounded down, and the time of its price; the product is checked.
unfoldable pub convert_native_token_to_token : Address → ℕ → PriceOracle → Reply Error (ℕ × ℕ)
convert_native_token_to_token token native_amount m = do
  revert_if (m.last_update_mapping token == 0) (unset_token token)
  revert_if (ltb u256_max (native_amount * m.price_mapping token)) panicked
  ok (native_amount * m.price_mapping token / price_decimals, m.last_update_mapping token)
