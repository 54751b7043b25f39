-- ===== src/Contracts/OmInterop/Bridge.antt =====
-- bridgeFrom, bridgeTo and quoteBridgeTo: the nonces, the dispatch to a protocol, and the events.
use money_interoperability.Prelude.{
  ℕ, ◌+◌, ◌-◌, not, [], ◌∷◌, ◌++◌, leb, ◌==◌, if◌then◌else◌, u64_max,
}
use money_interoperability.World.{
  Address, Reply, ok, BridgeTo, om_interop_received, om_interop_sent,
}
use money_interoperability.Contracts.Mapping.{put, revert_if, ◌>>=◌, ◌>>◌}
use money_interoperability.Contracts.OmInterop.Checkpoints.{
  ensure_checkpoint_not_completed, revert_if_checkpoint_complete, record_processed_bridge,
}
use money_interoperability.Contracts.OmInterop.RateLimits.{check_and_update_rate_limit}
use money_interoperability.Contracts.OmInterop.State.{
  Layout, Env, Error, TokenBinding, InteropProtocol, layer_zero, mock, answered, only_relayer,
  non_zero_address, positive_amount, unknown_token, invalid_nonce, inbound_nonce_overflow,
  inbound_nonce_unavailable, invalid_chain_id, panicked,
}

-- `SRC_CHAIN_ID`.
abbrev pub source_chain : ℕ
source_chain = 1

-- The addition is unchecked, behind the test.
unfoldable pub increase_inbound_nonce : Layout → Reply Error Layout
increase_inbound_nonce s = do
  revert_if (s.next_inbound_nonce == u64_max) inbound_nonce_overflow
  ok (record s { next_inbound_nonce = s.next_inbound_nonce + 1 })

unfoldable pub latest_inbound_nonce : Layout → Reply Error ℕ
latest_inbound_nonce s = do
  revert_if (s.next_inbound_nonce == 0) inbound_nonce_unavailable
  ok (s.next_inbound_nonce - 1)

unfoldable pub bridge_from : Env → Address → ℕ → Layout → Reply Error Layout
bridge_from env to amount s = do
  non_zero_address to
  positive_amount amount
  revert_if (not (s.tokens_by_sidechain env.sender).exists) (unknown_token env.sender)
  s₁ ← increase_inbound_nonce s
  let token = (s₁.tokens_by_sidechain env.sender).om_token
  s₂ ← check_and_update_rate_limit env.timestamp token amount s₁
  nonce ← latest_inbound_nonce s₂
  ok (record s₂ {
    events =
        s₂.events
        ++ om_interop_received (record {
          nonce = nonce;
          to = to;
          amount = amount;
          om_token = token;
          src_chain_id = source_chain;
        })
          ∷ [];
  })

-- `_computeFee`, by the oracle of the layout.
abbrev pub compute_fee : Env → Layout → Address → ℕ → Reply Error ℕ
compute_fee env s token paid =
    answered (env.convert_native_token_to_token s.price_oracle token paid)

-- What is left of an escrowed fee.
abbrev pub refund_after : ℕ → ℕ → ℕ
refund_after escrow paid = if leb paid escrow then escrow - paid else 0

-- `_dispatchBridge` by the protocol of the binding.
unfoldable pub dispatch_by :
    InteropProtocol → Env → TokenBinding → BridgeTo → Layout → Reply Error ℕ
dispatch_by layer_zero env binding req s = do
  raw_fee ← answered (env.bridge_with_layer_zero binding.sc_token req)
  paid_fee ← compute_fee env s binding.om_token raw_fee
  ok (refund_after req.escrow_fee paid_fee)
dispatch_by mock env binding req s = ok req.escrow_fee

abbrev pub dispatch_bridge : Env → TokenBinding → BridgeTo → Layout → Reply Error ℕ
dispatch_bridge env binding = dispatch_by binding.interop_proto_id env binding

-- `_quoteBridgeToValidated`.
unfoldable pub quote_bridge_to_validated : BridgeTo → Layout → Reply Error (Unit {0})
quote_bridge_to_validated req s = do
  ensure_checkpoint_not_completed req.checkpoint_id s
  non_zero_address req.from
  non_zero_address req.to
  non_zero_address req.om_token
  positive_amount req.amount
  revert_if (req.dst_chain_id == 0) invalid_chain_id
  revert_if (not (s.tokens_by_om req.om_token).exists) (unknown_token req.om_token)
  revert_if_checkpoint_complete req.checkpoint_id s

-- `bbNonce + 1` is checked.
unfoldable pub enforce_sequential_nonce : Address → ℕ → Layout → Reply Error Layout
enforce_sequential_nonce account bbnonce s = do
  revert_if (not (bbnonce == s.latest_bb_nonce account))
      (invalid_nonce bbnonce (s.latest_bb_nonce account))
  revert_if (leb u64_max bbnonce) panicked
  ok (record s { latest_bb_nonce = put s.latest_bb_nonce account (bbnonce + 1) })

-- `_bridgeTo`, after its validation.
unfoldable pub bridge_validated : Env → BridgeTo → Layout → Reply Error Layout
bridge_validated env req s = do
  s₁ ← increase_inbound_nonce s
  refund ← dispatch_bridge env (s₁.tokens_by_om req.om_token) req s₁
  s₂ ← record_processed_bridge env.gas req.source_hash req.checkpoint_id s₁
  nonce ← latest_inbound_nonce s₂
  ok (record s₂ {
    events =
        s₂.events
        ++ om_interop_sent (record {
          nonce = nonce;
          from = req.from;
          refund_amount = refund;
          om_token = req.om_token;
          dst_chain_id = req.dst_chain_id;
          source_hash = req.source_hash;
        })
          ∷ [];
  })

unfoldable pub bridge_to : Env → BridgeTo → Layout → Reply Error Layout
bridge_to env req s = do
  only_relayer env s
  ensure_checkpoint_not_completed req.checkpoint_id s
  quote_bridge_to_validated req s
  s₁ ← enforce_sequential_nonce req.from req.bbnonce s
  bridge_validated env req s₁
