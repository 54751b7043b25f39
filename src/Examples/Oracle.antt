-- ===== src/Examples/Oracle.antt =====
-- An oracle with the prices of two tokens, and a burn of one of them that LayerZero transfers.
use money_interoperability.Prelude.{ℕ, ◌*◌, ◌≡◌, refl, false, List, [], ◌∷◌, ◌++◌, arith}
use money_interoperability.World.{Address, ok, BridgeTo, om_interop_sent}
use money_interoperability.Contracts.Mapping.{revert_if}
use money_interoperability.Contracts.OmInterop.Admin.{
  mapping_tokens, initializing, history, execute, initialize, map_token_addresses,
}
use money_interoperability.Contracts.OmInterop.Bridge.{
  bridge_to, bridge_validated, quote_bridge_to_validated, enforce_sequential_nonce,
  increase_inbound_nonce, latest_inbound_nonce, dispatch_by,
}
use money_interoperability.Contracts.OmInterop.Checkpoints.{record_processed_bridge}
use money_interoperability.Contracts.OmInterop.Refunds.{amount_of, Refunded, bridge_to-Refunded}
use money_interoperability.Contracts.OmInterop.State.{
  Layout, Env, blank, layer_zero, settle, answered,
}
use money_interoperability.Contracts.PriceOracle.{
  PriceOracle, Msg, price_decimals, create, priced, update_price, bulk_loop, bulk_update_prices,
  convert_native_token_to_token, operator_updated,
}
use money_interoperability.Contracts.PriceOracle.Bulk.{one_by_one, bulk_update_prices-one_by_one}
use money_interoperability.Contracts.PriceOracle.Methods as Prices
use money_interoperability.Contracts.PriceOracle.Prices.{
  IsPriced, IsStamped, Converts, history-Converts, history-IsPriced, create-IsPriced,
}
use money_interoperability.Examples.Interop.{by, withdrawal}

abbrev by_operator : Msg
by_operator = record { sender = 2; is_owner = false; timestamp = 100 }

abbrev new_oracle : PriceOracle
new_oracle = record {
  operator = 2;
  price_mapping = λ _. 0;
  last_update_mapping = λ _. 0;
  events = operator_updated 0 2 ∷ [];
}

oracle_created : create false 1 2 ≡ ok new_oracle
unfolding create revert_if
oracle_created = refl

abbrev updates : List (Msg × Prices.Method)
updates =
    (by_operator, Prices.updating_prices (41 ∷ 43 ∷ []) (price_decimals ∷ 5 ∷ []))
    ∷ (by_operator, Prices.updating_price 41 (2 * price_decimals))
    ∷ []

abbrev oracle : PriceOracle
oracle = Prices.history updates new_oracle

stamped : IsStamped updates
stamped = (omega arith, (omega arith, tt))

history-Converts_example : Converts 41 3 oracle
history-Converts_example = history-Converts false 1 2 new_oracle oracle_created updates 41 3 stamped

-- 3 of the native token are 6 of the token 41.
converts_to : convert_native_token_to_token 41 3 oracle ≡ ok (6, 100)
unfolding convert_native_token_to_token Prices.history Prices.execute update_price
    bulk_update_prices bulk_loop priced revert_if
converts_to = refl

bulk_update_prices-one_by_one_example :
    bulk_update_prices by_operator (41 ∷ 0 ∷ 43 ∷ []) (7 ∷ 8 ∷ 9 ∷ []) new_oracle
    ≡ one_by_one by_operator (41 ∷ 0 ∷ 43 ∷ []) (7 ∷ 8 ∷ 9 ∷ []) new_oracle
bulk_update_prices-one_by_one_example =
    bulk_update_prices-one_by_one by_operator (41 ∷ 0 ∷ 43 ∷ []) (7 ∷ 8 ∷ 9 ∷ []) new_oracle refl
      refl

oracle-IsPriced : IsPriced oracle
oracle-IsPriced =
    history-IsPriced updates stamped (create-IsPriced false 1 2 new_oracle oracle_created)

-- The services of the example, with the oracle's own answers.
abbrev with_oracle : Address → Env
with_oracle sender = record (by sender) {
  convert_native_token_to_token =
      λ at token native. amount_of (convert_native_token_to_token token native oracle);
}

abbrev interop : Layout
interop =
    history ((by 1, initializing 1 2 3 4) ∷ (by 2, mapping_tokens 41 42 layer_zero) ∷ []) blank

abbrev burn : BridgeTo
burn = record (withdrawal 0 0 800) { escrow_fee = 10 }

abbrev bridged : Layout
bridged = settle interop (bridge_to (with_oracle 3) burn interop)

accepted_burn : bridge_to (with_oracle 3) burn interop ≡ ok bridged
unfolding history execute initialize map_token_addresses increase_inbound_nonce latest_inbound_nonce
    revert_if bridge_to bridge_validated quote_bridge_to_validated enforce_sequential_nonce
    dispatch_by record_processed_bridge answered convert_native_token_to_token Prices.history
    Prices.execute update_price bulk_update_prices bulk_loop priced
accepted_burn = refl

by_layer_zero : (interop.tokens_by_om 41).interop_proto_id ≡ layer_zero
unfolding history execute initialize map_token_addresses revert_if
by_layer_zero = refl

bridge_to-Refunded_example :
    (refund : ℕ) × Refunded oracle (with_oracle 3) burn interop refund
    × (bridged.events
        ≡ interop.events
          ++ om_interop_sent (record {
            nonce = interop.next_inbound_nonce;
            from = 31;
            refund_amount = refund;
            om_token = 41;
            dst_chain_id = 2;
            source_hash = 800;
          })
            ∷ [])
bridge_to-Refunded_example =
    bridge_to-Refunded oracle (with_oracle 3) burn interop oracle-IsPriced (λ token native. refl)
      bridged by_layer_zero accepted_burn

-- The worth of the fee is 6, which leaves 4 of the escrowed 10.
refunded_four :
    bridged.events
    ≡ interop.events
      ++ om_interop_sent (record {
        nonce = 0;
        from = 31;
        refund_amount = 4;
        om_token = 41;
        dst_chain_id = 2;
        source_hash = 800;
      })
        ∷ []
unfolding history execute initialize map_token_addresses increase_inbound_nonce latest_inbound_nonce
    revert_if bridge_to bridge_validated quote_bridge_to_validated enforce_sequential_nonce
    dispatch_by record_processed_bridge answered convert_native_token_to_token Prices.history
    Prices.execute update_price bulk_update_prices bulk_loop priced
refunded_four = refl
