-- ===== src/Contracts/OmInterop/Refunds.antt =====
-- The refund of a burn that LayerZero transfers, by the prices of PriceOracle.
use money_interoperability.Prelude.{
  min, subst, ℕ, ◌+◌, ◌≡◌, refl, sym, ap, ◌∙◌, arith, Option, none, some, [], ◌∷◌, ◌++◌,
}
use money_interoperability.World.{Address, Reply, ok, err, BridgeTo, om_interop_sent}
use money_interoperability.Contracts.OmInterop.Bridge.{
  increase_inbound_nonce, enforce_sequential_nonce, bridge_to, bridge_validated,
  quote_bridge_to_validated, dispatch_by, refund_after,
}
use money_interoperability.Contracts.OmInterop.Invariant.{record_processed_bridge-Kept}
use money_interoperability.Contracts.OmInterop.State.{
  TokenBinding, Layout, Env, Error, layer_zero, answered,
}
use money_interoperability.Contracts.OmInterop.Steps.{latest_lem}
use money_interoperability.Contracts.Outcome.{
  Ends, accepted, refused, returned, revert_if-Ends, bind-Ends, any-Ends,
}
use money_interoperability.Contracts.PriceOracle as Oracle
use money_interoperability.Contracts.PriceOracle.{PriceOracle, convert_native_token_to_token}
use money_interoperability.Contracts.PriceOracle.Prices.{
  IsPriced, convert-Converts, Worth, last_price,
}

-- The first result of a conversion that returns.
abbrev pub amount_of : Reply Oracle.Error (ℕ × ℕ) → Option ℕ
amount_of (ok (amount, _)) = some amount
amount_of (err e) = none

converted :
    {P : ℕ × ℕ → Type 0} {Q : Oracle.Error → Type 0} (r : Reply Oracle.Error (ℕ × ℕ)) (paid : ℕ)
    → Ends P Q r
    → amount_of r ≡ some paid
    → (time : ℕ) × P (paid, time)
converted {P} (ok (amount, time)) paid (accepted p) e = (time, subst P (ground arith) p)
converted (err x) paid (refused q) e = absurd (ground arith)

answered-Ends : {A : Type 0} (o : Option A) → Ends (λ a. o ≡ some a) (λ _. Unit {0}) (answered o)
unfolding answered
answered-Ends none = refused tt
answered-Ends (some a) = accepted refl

splits : (escrow paid : ℕ) → refund_after escrow paid + min paid escrow ≡ escrow
splits escrow paid = ground arith

module _ (oracle : PriceOracle) (env : Env) (req : BridgeTo) (s : Layout) where
  -- The oracle of the storage is the contract `oracle`.
  abbrev pub Asks : Type 0
  Asks =
      (token : Address) (native : ℕ)
      → env.convert_native_token_to_token s.price_oracle token native
        ≡ amount_of (convert_native_token_to_token token native oracle)

  -- A refund: LayerZero took a fee, the oracle has a price of the token, and the worth of the fee and
  -- the refund make up the escrowed fee, of which no more is taken than it holds.
  pub record Refunded (refund : ℕ) : Type 0 where
    pub fee : ℕ
    pub price : ℕ
    pub paid : ℕ
    pub taken : env.bridge_with_layer_zero (s.tokens_by_om req.om_token).sc_token req ≡ some fee
    pub known : last_price (s.tokens_by_om req.om_token).om_token oracle.events ≡ some price
    pub worth : Worth fee price paid
    pub settled : refund + min paid req.escrow_fee ≡ req.escrow_fee

  -- The parts of the storage that the dispatch reads, and the events.
  record Unchanged (s₁ s₂ : Layout) : Type 0 where
    tokens : s₂.tokens_by_om ≡ s₁.tokens_by_om
    oracle_at : s₂.price_oracle ≡ s₁.price_oracle
    emitted : s₂.events ≡ s₁.events

  increase-Unchanged :
      (s₁ : Layout)
      → Ends {E = Error}
          (λ s₂. Unchanged s₁ s₂ × (s₂.next_inbound_nonce ≡ s₁.next_inbound_nonce + 1))
          (λ _. Unit {0})
          (increase_inbound_nonce s₁)
  unfolding increase_inbound_nonce
  increase-Unchanged s₁ =
      revert_if-Ends _ _ _ tt
        λ _. accepted (record { tokens = refl; oracle_at = refl; emitted = refl }, refl)

  enforce-Unchanged :
      Ends {E = Error}
        (λ s₁. Unchanged s s₁ × (s₁.next_inbound_nonce ≡ s.next_inbound_nonce))
        (λ _. Unit {0})
        (enforce_sequential_nonce req.from req.bbnonce s)
  unfolding enforce_sequential_nonce
  enforce-Unchanged = revert_if-Ends _ _ _ tt λ _.
      revert_if-Ends _ _ _ tt
        λ _. accepted (record { tokens = refl; oracle_at = refl; emitted = refl }, refl)

  module _ (priced : IsPriced oracle) (asks : Asks) where
    refund_lem :
        (fee paid : ℕ)
        → env.bridge_with_layer_zero (s.tokens_by_om req.om_token).sc_token req ≡ some fee
        → amount_of
            (convert_native_token_to_token (s.tokens_by_om req.om_token).om_token fee oracle)
          ≡ some paid
        → Refunded (refund_after req.escrow_fee paid)
    refund_lem fee paid taken conversion =
        let (_, found) = converted _ paid (convert-Converts _ fee oracle priced) conversion in
        let (price, known, worth) = found in
        record {
          fee = fee;
          price = price;
          paid = paid;
          taken = taken;
          known = known;
          worth = worth;
          settled = splits req.escrow_fee paid;
        }

    dispatch-Refunded :
        (binding : TokenBinding) (s₁ : Layout)
        → binding ≡ s.tokens_by_om req.om_token
        → s₁.price_oracle ≡ s.price_oracle
        → (s.tokens_by_om req.om_token).interop_proto_id ≡ layer_zero
        → Ends Refunded (λ _. Unit {0}) (dispatch_by binding.interop_proto_id env binding req s₁)
    unfolding dispatch_by
    dispatch-Refunded binding s₁ bound same by_layer_zero =
        rw (bound, by_layer_zero, same)
          (bind-Ends _ _ (answered-Ends _) λ fee taken.
            bind-Ends _ _ (answered-Ends _) λ paid conversion.
              accepted (refund_lem fee paid taken (sym (asks _ fee) ∙ conversion)))

    -- The storage after an accepted call has one event more, with a refund.
    abbrev Sends : Layout → Type 0
    Sends s' =
        (refund : ℕ) × Refunded refund
        × (s'.events
            ≡ s.events
              ++ om_interop_sent (record {
                nonce = s.next_inbound_nonce;
                from = req.from;
                refund_amount = refund;
                om_token = req.om_token;
                dst_chain_id = req.dst_chain_id;
                source_hash = req.source_hash;
              })
                ∷ [])

    validated-Sends :
        (s₁ : Layout)
        → Unchanged s s₁
        → s₁.next_inbound_nonce ≡ s.next_inbound_nonce
        → (s.tokens_by_om req.om_token).interop_proto_id ≡ layer_zero
        → Ends Sends (λ _. Unit) (bridge_validated env req s₁)
    unfolding bridge_validated
    validated-Sends s₁ same at by_layer_zero =
        bind-Ends _ _ (increase-Unchanged s₁) λ s₂ (up, next).
          bind-Ends _ _
            (dispatch-Refunded (s₂.tokens_by_om req.om_token) s₂
              (ap (λ (t : Address → TokenBinding). t req.om_token) (up.tokens ∙ same.tokens))
              (up.oracle_at ∙ same.oracle_at) by_layer_zero)
            λ refund r.
              bind-Ends _ _
                (record_processed_bridge-Kept env.gas req.source_hash req.checkpoint_id s₂)
                λ s₃ kept. bind-Ends _ _ (latest_lem s₃) λ n latest.
                  let now : n ≡ s.next_inbound_nonce =
                    omega (arith, latest, kept.inbound, next, at) in
                  accepted (refund, r, rw (kept.emitted, up.emitted, same.emitted, now) refl)

    -- If the oracle's prices are those of its events, the storage's oracle answers by its conversion, and
    -- LayerZero transfers the token, then an accepted `bridgeTo` emits one event with
    -- the next inbound nonce, whose refund is what the worth of LayerZero's fee, at the last price of
    -- the token and rounded down, leaves of the escrowed fee, 0 if the worth exceeds it.
    pub bridge_to-Refunded :
        (s' : Layout)
        → (s.tokens_by_om req.om_token).interop_proto_id ≡ layer_zero
        → bridge_to env req s ≡ ok s'
        → Sends s'
    unfolding bridge_to
    bridge_to-Refunded s' by_layer_zero e =
        returned _ s'
          (revert_if-Ends _ _ _ tt λ _. revert_if-Ends _ _ _ tt λ _.
            bind-Ends _ _ (any-Ends (quote_bridge_to_validated req s)) λ _ _.
              bind-Ends _ _ enforce-Unchanged
                λ s₁ (same, at). validated-Sends s₁ same at by_layer_zero)
          e
