-- ===== src/Contracts/PriceOracle/Methods.antt =====
-- The methods of PriceOracle as calls, and the storage after a sequence of transactions.
use money_interoperability.Prelude.{ℕ, List, [], ◌∷◌}
use money_interoperability.World.{Address, Reply, ok, err}
use money_interoperability.Contracts.PriceOracle.{
  PriceOracle, Msg, Error, set_operator, update_price, bulk_update_prices,
}

pub data Method : Type 0 where
  setting_operator : Address → Method
  updating_price : Address → ℕ → Method
  updating_prices : List Address → List ℕ → Method

unfoldable pub execute : Msg → Method → PriceOracle → Reply Error PriceOracle
execute msg (setting_operator new) = set_operator msg new
execute msg (updating_price token value) = update_price msg token value
execute msg (updating_prices tokens values) = bulk_update_prices msg tokens values

-- A transaction that reverts leaves the storage as it was.
abbrev pub settle : PriceOracle → Reply Error PriceOracle → PriceOracle
settle m (ok m') = m'
settle m (err e) = m

unfoldable pub history : List (Msg × Method) → PriceOracle → PriceOracle
unfolding execute
history [] m = m
history ((msg, method) ∷ rest) m = history rest (settle m (execute msg method m))
