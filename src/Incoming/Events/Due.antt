-- ===== src/Incoming/Events/Due.antt =====
-- An event whose nonce is the relayer's on 1Money is handled, and one with a lower nonce is not.
use money_interoperability.Prelude.{
  Option, ℕ, ◌≡◌, refl, false, some, List, ◌++◌, ◌<◌, ltb, lt→ltb, ge→ltb, arith,
}
use money_interoperability.World.{
  World, Hash, OmInteropReceived, OmInteropSent, OmInteropLog, OmInteropEvents, om_interop_received,
  om_interop_sent, ok, History, client_custom, fetch_chain_id, get_account_nonce,
  link_refund_hashes,
}
use money_interoperability.Action.{State, Exit, done, pure, ◌>>=◌, ask}
use money_interoperability.Action.Writes.{Write, writes, paid}
use money_interoperability.Action.Writes.Rules.{bind_Silent-Within, pure-Silent}
use money_interoperability.Config.{Config}
use money_interoperability.Incoming.Error.{Error}
use money_interoperability.Incoming.Events.{dispatch, process_event}
use money_interoperability.Incoming.Handlers.{
  Relayer1MoneyContext, new_context, account_nonce, should_process_nonce,
  handle_om_interop_received, handle_om_interop_sent, refund_payload,
}
use money_interoperability.Incoming.Handlers.Delivery.{
  Received, Delivered, handle-Received, handle_sent,
}

-- What 1Money answers: it serves the chain `chain`, and the relayer's next nonce is `nonce`.
pub record Serves (w : World) (config : Config) (chain nonce : ℕ) : Type 0 where
  pub client : (h : History) → w.respond h client_custom ≡ ok tt
  pub chain_id : (h : History) → w.respond h fetch_chain_id ≡ ok chain
  pub account :
      (h : History) → w.respond h (get_account_nonce config.relayer_private_key.address) ≡ ok nonce

-- A log that is in the chain, with its transaction's hash.
pub record IsLogged (log : OmInteropLog) (event : OmInteropEvents) (hash : Hash) : Type 0 where
  pub block : ℕ
  pub index : ℕ
  pub at_block : log.block_number ≡ some block
  pub at_index : log.log_index ≡ some index
  pub in_transaction : log.transaction_hash ≡ some hash
  pub kept : log.removed ≡ false
  pub is_event : log.inner ≡ event

abbrev pub context : Config → ℕ → Relayer1MoneyContext
context config chain = record {
  relayer_address = config.relayer_private_key.address;
  private_key_hex = config.relayer_private_key.key_hex;
  chain_id = chain;
}

ltb_irrefl : (n : ℕ) → ltb n n ≡ false
ltb_irrefl n = ge→ltb n n (omega arith)

module _ (w : World) (rounds : ℕ) (config : Config) (chain : ℕ) (log : OmInteropLog) (hash : Hash)
    (s : State) where
  -- If 1Money serves a client, a chain id and the relayer's nonce, and a log of the chain is a deposit
  -- with that nonce, then its processing writes exactly what the handler of deposits may write, which is
  -- never nothing.
  pub due_deposit_handled :
      (inner : OmInteropReceived)
      → Serves w config chain inner.nonce
      → IsLogged log (om_interop_received inner) hash
      → (exit : Exit Error (Option Hash)) × (ws : List Write) × Received w
          (context config chain)
          inner
          hash
          exit
          ws
        × (writes (process_event w rounds config log s).1.history ≡ ws ++ writes s.history)
  unfolding process_event new_context should_process_nonce account_nonce dispatch ◌>>=◌ ask
  due_deposit_handled inner serves logged =
      rw
        (
          serves.client, serves.chain_id, logged.at_block, logged.at_index, logged.in_transaction,
          logged.kept, logged.is_event, serves.account, ltb_irrefl,
        )
        (let (ws, (exit, r), e) =
            (bind_Silent-Within
                {P = λ ws.
                  (exit : Exit Error (Option Hash)) × Received w (context config chain) inner hash
                    exit ws}
                (handle_om_interop_received w (context config chain) inner hash) (λ _. pure tt)
                (record {
                  at = λ t.
                      let (ws, r, e) = handle-Received w (context config chain) inner hash t in
                      (ws, (_, r), e);
                })
                (λ _. pure-Silent tt)).at
              _ in
          (exit, ws, r, e))

  -- If 1Money serves a client, a chain id and the relayer's nonce, and a log of the chain is a refund
  -- with that nonce, of any amount, 0 included, then its processing writes exactly what the handler of
  -- refunds may write, which is never nothing: the payment first.
  pub due_refund_handled :
      (inner : OmInteropSent)
      → Serves w config chain inner.nonce
      → IsLogged log (om_interop_sent inner) hash
      → (exit : Exit Error (Option Hash)) × (ws : List Write) × Delivered
          (paid (refund_payload w (context config chain) inner))
          (link_refund_hashes inner.source_hash)
          exit
          ws
        × (writes (process_event w rounds config log s).1.history ≡ ws ++ writes s.history)
  unfolding process_event new_context should_process_nonce account_nonce dispatch ◌>>=◌ ask
  due_refund_handled inner serves logged =
      rw
        (
          serves.client, serves.chain_id, logged.at_block, logged.at_index, logged.in_transaction,
          logged.kept, logged.is_event, serves.account, ltb_irrefl,
        )
        (let (ws, (exit, r), e) =
            (bind_Silent-Within
                {P = λ ws.
                  (exit : Exit Error (Option Hash)) × Delivered
                    (paid (refund_payload w (context config chain) inner))
                    (link_refund_hashes inner.source_hash) exit ws}
                (handle_om_interop_sent w (context config chain) inner) (λ _. pure tt)
                (record {
                  at = λ t.
                      let (ws, r, e) = handle_sent w (context config chain) inner t in
                      (ws, (_, r), e);
                })
                (λ _. pure-Silent tt)).at
              _ in
          (exit, ws, r, e))

  -- If 1Money serves a client, a chain id and the relayer's nonce, and a log of the chain is a deposit
  -- with a lower nonce, then its processing returns and writes nothing.
  pub passed_deposit_skipped :
      (inner : OmInteropReceived) (nonce : ℕ)
      → Serves w config chain nonce
      → IsLogged log (om_interop_received inner) hash
      → inner.nonce < nonce
      → let (exit, s') = process_event w rounds config log s in
        (exit ≡ done tt) × (writes s'.history ≡ writes s.history)
  unfolding process_event new_context should_process_nonce account_nonce dispatch ◌>>=◌ ask
  passed_deposit_skipped inner nonce serves logged passed =
      rw
        (
          serves.client,
          serves.chain_id,
          logged.at_block,
          logged.at_index,
          logged.in_transaction,
          logged.kept,
          logged.is_event,
          serves.account,
          lt→ltb inner.nonce nonce passed,
        )
        (refl, refl)
