-- ===== src/Contracts/PriceOracle/Bulk.antt =====
-- bulkUpdatePrices against the calls of updatePrice for each token.
use money_interoperability.Prelude.{
  ℕ, ◌≡◌, refl, Bool, true, false, not, ◌&&◌, List, [], ◌∷◌, length, ◌==◌, ◌∙◌, ==_refl,
}
use money_interoperability.World.{Address, Reply, ok, err}
use money_interoperability.Contracts.Mapping.{revert_if, ◌>>=◌, ◌>>◌}
use money_interoperability.Contracts.PriceOracle.{
  PriceOracle, Msg, Error, invalid_address, panicked, priced, update_price, bulk_loop,
  bulk_update_prices,
}

-- The calls of updatePrice one by one, up to the first that reverts.
unfoldable pub one_by_one : Msg → List Address → List ℕ → PriceOracle → Reply Error PriceOracle
one_by_one msg [] values m = ok m
one_by_one msg (token ∷ tokens) [] m = err panicked
one_by_one msg (token ∷ tokens) (value ∷ values) m =
    update_price msg token value m >>= one_by_one msg tokens values

-- The guard of both methods: the sender is neither the operator nor the owner.
abbrev pub stranger : Msg → PriceOracle → Bool
stranger msg m = not (msg.sender == m.operator) && not msg.is_owner

guarded_ok :
    {E A B : Type 0} (b : Bool) (e : E) (a : A) (f : A → Reply E B)
    → ((revert_if b e >> ok a) >>= f) ≡ (revert_if b e >> f a)
unfolding revert_if
guarded_ok true e a f = refl
guarded_ok false e a f = refl

priced-stranger :
    (msg : Msg) (time : ℕ) (token : Address) (value : ℕ) (m : PriceOracle)
    → stranger msg (priced time token value m) ≡ stranger msg m
unfolding priced
priced-stranger msg time token value m = refl

update_price_lem :
    (msg : Msg) (token : Address) (value : ℕ) (m : PriceOracle)
    → stranger msg m ≡ false
    → update_price msg token value m
      ≡ (revert_if (token == 0) invalid_address >> ok (priced msg.timestamp token value m))
unfolding update_price revert_if
update_price_lem msg token value m known = rw known refl

bulk_loop-one_by_one :
    (msg : Msg) (tokens : List Address) (values : List ℕ) (m : PriceOracle)
    → stranger msg m ≡ false
    → bulk_loop msg.timestamp tokens values m ≡ one_by_one msg tokens values m
unfolding bulk_loop one_by_one
bulk_loop-one_by_one msg [] values m known = refl
bulk_loop-one_by_one msg (token ∷ tokens) [] m known = refl
bulk_loop-one_by_one msg (token ∷ tokens) (value ∷ values) m known =
    let next = priced msg.timestamp token value m in
    rw
      (
        update_price_lem msg token value m known,
        guarded_ok (token == 0) invalid_address next (one_by_one msg tokens values),
        bulk_loop-one_by_one msg tokens values next
            (priced-stranger msg msg.timestamp token value m ∙ known),
      )
      refl

-- If the sender is the operator or the owner and the two lists have one length, then
-- `bulkUpdatePrices` gives what the calls of `updatePrice` give one by one, or the error of
-- the first one that reverts.
pub bulk_update_prices-one_by_one :
    (msg : Msg) (tokens : List Address) (values : List ℕ) (m : PriceOracle)
    → stranger msg m ≡ false
    → length tokens ≡ length values
    → bulk_update_prices msg tokens values m ≡ one_by_one msg tokens values m
unfolding bulk_update_prices revert_if
bulk_update_prices-one_by_one msg tokens values m known same =
    rw (known, same, ==_refl (length values)) (bulk_loop-one_by_one msg tokens values m known)
