-- ===== src/Incoming/Handlers.antt =====
-- code/crates/relayer/src/incoming/handlers.rs: one event of the sidechain contract becomes one
-- transaction on 1Money, and the hashes of the two are linked.
pub mod Delivery
pub mod Due
use text.Mathlib.Text.{find?}
use money_interoperability.Prelude.{
  ℕ, zero, suc, Bool, true, false, Option, none, some, String, ltb, ◌==◌, if◌then◌else◌,
}
use money_interoperability.World.{
  World, Address, Hash, OmInteropReceived, OmInteropSent, TokenBridgeAndMintPayload, PaymentPayload,
  OnemoneyError, business_logic, other_error, Reply, ok, err, fetch_chain_id, get_account_nonce,
  bridge_and_mint, send_payment, sleep, register_deposit, link_deposit_hashes, link_refund_hashes,
}
use money_interoperability.Action.{Action, pure, raise, still_waiting, or_raise, ◌>>=◌, ◌>>◌, ask}
use money_interoperability.Submit.{send_mapping}
use money_interoperability.Config.{Config}
use money_interoperability.Incoming.Error.{Error, onemoney, contract}

pub record Relayer1MoneyContext : Type 0 where
  pub relayer_address : Address
  pub private_key_hex : String
  pub chain_id : ℕ

-- `str::contains`.
abbrev str_contains : String → String → Bool
str_contains s t = elim (find? s t) [ some _ ↦ true | none ↦ false ]

unfoldable pub is_error_transaction_already_exists : OnemoneyError → Bool
is_error_transaction_already_exists (business_logic operation reason) =
    if str_contains reason "transaction already exists" then true else false
is_error_transaction_already_exists (other_error _) = false

module _ (w : World) where
  -- `Relayer1MoneyContext::new`
  unfoldable pub new_context : Config → Action Error Relayer1MoneyContext
  new_context config = do
    reply ← ask w fetch_chain_id
    chain_id ← or_raise onemoney reply
    pure (record {
      relayer_address = config.relayer_private_key.address;
      private_key_hex = config.relayer_private_key.key_hex;
      chain_id = chain_id;
    })

  unfoldable pub account_nonce : Relayer1MoneyContext → Action Error ℕ
  account_nonce ctx = do
    reply ← ask w (get_account_nonce ctx.relayer_address)
    or_raise onemoney reply

  -- The loop of `should_process_nonce`, for at most so many rounds: it ends when the account's
  -- nonce is the event's.
  unfoldable pub poll_nonce : ℕ → Relayer1MoneyContext → ℕ → Action Error Bool
  poll_nonce zero ctx sidechain_nonce = still_waiting
  poll_nonce (suc rounds) ctx sidechain_nonce = account_nonce ctx >>= λ current_nonce.
      if current_nonce == sidechain_nonce
      then pure true
      else (ask w sleep >> poll_nonce rounds ctx sidechain_nonce)

  unfoldable pub should_process_nonce : ℕ → Relayer1MoneyContext → ℕ → Action Error Bool
  should_process_nonce rounds ctx sidechain_nonce = do
    om_nonce ← account_nonce ctx
    if ltb sidechain_nonce om_nonce
        then pure false
        else if ltb om_nonce sidechain_nonce
        then poll_nonce rounds ctx sidechain_nonce
        else pure true

  -- The reply of 1Money to a signed transaction: its hash, nothing if it was there before, or the
  -- error.
  unfoldable pub unless_exists :
      Reply OnemoneyError Hash → (Hash → Action Error (Option Hash)) → Action Error (Option Hash)
  unless_exists (ok hash) next = next hash
  unless_exists (err e) next =
      if is_error_transaction_already_exists e then pure none else raise (onemoney e)

  unfoldable pub mint_payload :
      Relayer1MoneyContext → OmInteropReceived → Hash → TokenBridgeAndMintPayload
  mint_payload ctx event source_tx_hash = record {
    chain_id = ctx.chain_id;
    nonce = event.nonce;
    recipient = event.to;
    value = event.amount;
    token = event.om_token;
    source_chain_id = event.src_chain_id;
    source_tx_hash = w.encode_hex source_tx_hash;
    bridge_metadata = none;
  }

  unfoldable pub handle_om_interop_received :
      Relayer1MoneyContext → OmInteropReceived → Hash → Action Error (Option Hash)
  handle_om_interop_received ctx event source_tx_hash = do
    send_mapping w contract (register_deposit source_tx_hash)
    reply ← ask w (bridge_and_mint (mint_payload ctx event source_tx_hash))
    unless_exists reply (λ hash.
        send_mapping w contract (link_deposit_hashes source_tx_hash hash) >> pure (some hash))

  unfoldable pub refund_payload : Relayer1MoneyContext → OmInteropSent → PaymentPayload
  refund_payload ctx event = record {
    chain_id = ctx.chain_id;
    nonce = event.nonce;
    recipient = event.from;
    value = event.refund_amount;
    token = event.om_token;
  }

  unfoldable pub handle_om_interop_sent :
      Relayer1MoneyContext → OmInteropSent → Action Error (Option Hash)
  handle_om_interop_sent ctx event = do
    reply ← ask w (send_payment (refund_payload ctx event))
    unless_exists reply (λ hash.
        send_mapping w contract (link_refund_hashes event.source_hash hash) >> pure (some hash))
