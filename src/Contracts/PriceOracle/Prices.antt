-- ===== src/Contracts/PriceOracle/Prices.antt =====
-- A conversion uses the price of the last update that the events tell of.
use money_interoperability.Prelude.{
  ltb→ge, ltb→lt, sym, ◌/◌, ℕ, ◌+◌, ◌*◌, ◌<◌, ◌≤◌, ◌≡◌, ◌≢◌, refl, arith, Bool, Option, none, some,
  List, [], ◌∷◌, ◌++◌, ◌==◌, if◌then◌else◌,
}
use money_interoperability.World.{Address, Reply, ok, err}
use money_interoperability.Contracts.Mapping.{u256_max}
use money_interoperability.Contracts.Outcome.{
  Ends, accepted, refused, returned, revert_if-Ends, revert_when-Ends,
}
use money_interoperability.Contracts.PriceOracle.{
  PriceOracle, Msg, Error, Event, operator_updated, price_updated, unset_token, panicked,
  price_decimals, create, set_operator, priced, update_price, bulk_loop, bulk_update_prices,
  convert_native_token_to_token,
}
use money_interoperability.Contracts.PriceOracle.Methods.{
  Method, setting_operator, updating_price, updating_prices, execute, settle, history,
}

-- The price that the events so far leave a token with.
abbrev pub after_event : Address → Option ℕ → Event → Option ℕ
after_event token price (price_updated t old new) = if t == token then some new else price
after_event token price (operator_updated old new) = price

abbrev pub price_after : Address → Option ℕ → List Event → Option ℕ
price_after token price [] = price
price_after token price (e ∷ es) = price_after token (after_event token price e) es

abbrev pub last_price : Address → List Event → Option ℕ
last_price token es = price_after token none es

price_after-append :
    (token : Address) (price : Option ℕ) (es : List Event) (e : Event)
    → price_after token price (es ++ e ∷ []) ≡ after_event token (price_after token price es) e
price_after-append token price [] e = refl
price_after-append token price (x ∷ es) e =
    price_after-append token (after_event token price x) es e

-- The price of a token in the storage: a token that was never updated has none.
abbrev pub stored_price : Address → PriceOracle → Option ℕ
stored_price token m =
    if m.last_update_mapping token == 0 then none else some (m.price_mapping token)

pub record IsPriced (m : PriceOracle) : Type 0 where
  pub agrees : (token : Address) → stored_price token m ≡ last_price token m.events

abbrev Kept : Reply Error PriceOracle → Type 0
Kept = Ends IsPriced (λ _. Unit)

priced-IsPriced :
    (time : ℕ) (token : Address) (value : ℕ) {m : PriceOracle}
    → time ≢ 0
    → IsPriced m
    → IsPriced (priced time token value m)
unfolding priced
priced-IsPriced time token value {m} nz p = record {
  agrees = λ j.
      rw (price_after-append j none m.events (price_updated token (m.price_mapping token) value))
        (ground (arith, p.agrees j));
}

bulk_loop-Kept :
    (time : ℕ) (tokens : List Address) (values : List ℕ) {m : PriceOracle}
    → time ≢ 0
    → IsPriced m
    → Kept (bulk_loop time tokens values m)
unfolding bulk_loop
bulk_loop-Kept time [] values nz p = accepted p
bulk_loop-Kept time (token ∷ tokens) [] nz p = refused tt
bulk_loop-Kept time (token ∷ tokens) (value ∷ values) nz p =
    revert_if-Ends _ _ _ tt
      λ _. bulk_loop-Kept time tokens values nz (priced-IsPriced time token value nz p)

execute-Kept :
    (msg : Msg) (method : Method) {m : PriceOracle}
    → msg.timestamp ≢ 0
    → IsPriced m
    → Kept (execute msg method m)
unfolding execute set_operator update_price bulk_update_prices
execute-Kept msg (setting_operator new) {m} nz p = revert_if-Ends _ _ _ tt λ _.
    revert_if-Ends _ _ _ tt λ _. accepted (record {
      agrees = λ j.
          rw (price_after-append j none m.events (operator_updated m.operator new)) (p.agrees j);
    })
execute-Kept msg (updating_price token value) nz p =
    revert_if-Ends _ _ _ tt
      λ _. revert_if-Ends _ _ _ tt λ _. accepted (priced-IsPriced msg.timestamp token value nz p)
execute-Kept msg (updating_prices tokens values) nz p =
    revert_if-Ends _ _ _ tt
      λ _. revert_if-Ends _ _ _ tt λ _. bulk_loop-Kept msg.timestamp tokens values nz p

settle-IsPriced :
    {m : PriceOracle} (r : Reply Error PriceOracle) → IsPriced m → Kept r → IsPriced (settle m r)
settle-IsPriced (ok m') p (accepted q) = q
settle-IsPriced (err e) p (refused q) = p

-- No block has the timestamp 0.
abbrev pub IsStamped : List (Msg × Method) → Type 0
IsStamped [] = Unit
IsStamped ((msg, method) ∷ rest) = (msg.timestamp ≢ 0) × IsStamped rest

pub history-IsPriced :
    (calls : List (Msg × Method)) {m : PriceOracle}
    → IsStamped calls
    → IsPriced m
    → IsPriced (history calls m)
unfolding history
history-IsPriced [] t p = p
history-IsPriced ((msg, method) ∷ rest) (nz, t) p =
    history-IsPriced rest t (settle-IsPriced _ p (execute-Kept msg method nz p))

create-Kept : (refused : Bool) (owner operator : Address) → Kept (create refused owner operator)
unfolding create
create-Kept b owner operator = revert_if-Ends _ _ _ tt λ _.
    revert_if-Ends _ _ _ tt
      λ _. revert_if-Ends _ _ _ tt λ _. accepted (record { agrees = λ j. refl })

pub create-IsPriced :
    (refused : Bool) (owner operator : Address) (m : PriceOracle)
    → create refused owner operator ≡ ok m
    → IsPriced m
create-IsPriced b owner operator m e = returned _ m (create-Kept b owner operator) e

-- `amount` is what `native` is worth at a price for 10^18, rounded down.
pub record Worth (native price amount : ℕ) : Type 0 where
  pub fits : native * price ≤ u256_max
  pub lower : amount * price_decimals ≤ native * price
  pub upper : native * price < (amount + 1) * price_decimals

pub data Refusal (native : ℕ) (token : Address) (last : Option ℕ) : Error → Type 0 where
  unset : last ≡ none → Refusal native token last (unset_token token)
  overflows :
      {price : ℕ}
      → last ≡ some price
      → u256_max < native * price
      → Refusal native token last panicked

rounds_down : (n : ℕ) → n / price_decimals * price_decimals ≤ n
rounds_down n = omega arith

rounds_up : (n : ℕ) → n < (n / price_decimals + 1) * price_decimals
rounds_up n = omega arith

quotient-Worth :
    (native price : ℕ)
    → native * price ≤ u256_max
    → Worth native price (native * price / price_decimals)
quotient-Worth native price fits = record {
  fits = fits;
  lower = rounds_down (native * price);
  upper = rounds_up (native * price);
}

abbrev pub Converts : Address → ℕ → PriceOracle → Type 0
Converts token native m =
    Ends
      (λ (amount, _).
        (price : ℕ) × (last_price token m.events ≡ some price) × Worth native price amount)
      (Refusal native token (last_price token m.events))
      (convert_native_token_to_token token native m)

pub convert-Converts :
    (token : Address) (native : ℕ) (m : PriceOracle) → IsPriced m → Converts token native m
unfolding convert_native_token_to_token
convert-Converts token native m p =
    let agrees = p.agrees token in
    revert_when-Ends _ _ _ (λ is_zero. unset (ground arith))
      λ set.
        let last : some (m.price_mapping token) ≡ last_price token m.events = ground arith in
        revert_when-Ends _ _ _ (λ big. overflows (sym last) (ltb→lt _ _ big))
          λ fits. accepted (
            m.price_mapping token,
            sym last,
            quotient-Worth native (m.price_mapping token) (ltb→ge _ _ fits),
          )

module _ (refused : Bool) (owner operator : Address) (m₀ : PriceOracle)
    (created : create refused owner operator ≡ ok m₀) (calls : List (Msg × Method)) where
  -- After any transactions on a new oracle, none of them in a block of timestamp 0, a conversion gives
  -- the worth at the price of the token's last event, rounded down; it reverts with UnsetToken
  -- if the token has no event, and panics if the product with the price exceeds 256 bits.
  pub history-Converts :
      (token : Address) (native : ℕ) → IsStamped calls → Converts token native (history calls m₀)
  history-Converts token native stamped =
      convert-Converts token native (history calls m₀)
        (history-IsPriced calls stamped (create-IsPriced refused owner operator m₀ created))
