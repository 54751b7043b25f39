-- ===== src/Outgoing/Relay/Replay.antt =====
-- A burn is bridged once: the relay bridges one whose nonce the contract has not processed, and only
-- registers one that it has.
use money_interoperability.Prelude.{
  ℕ, ◌≤◌, ◌<◌, ◌≡◌, refl, Option, some, String, [], ◌∷◌, wrapping_sub, lt→ltb, ge→ltb,
}
use money_interoperability.World.{
  World, Address, Hash, Tx, BridgeTo, token_burn_and_bridge, ok, pending, History, client_custom,
  send, get_receipt, get_transaction_receipt_by_hash, get_latest_processed_nonce,
  register_withdrawal, bridge_to, link_withdrawal_hashes,
}
use money_interoperability.Action.{Exit, State, done, ◌>>=◌, ask, fetch_add}
use money_interoperability.Action.Writes.{writes, sent}
use money_interoperability.Submit.{send_mapping, settle_mapping, send_required, settle_required}
use money_interoperability.Outgoing.Error.{Error}
use money_interoperability.Outgoing.Relay.{
  try_into_u32, bbnonce_of_receipt, bridge_to_args, bridge_and_link,
  process_burn_and_bridge_transactions,
}

-- The services while a burn is relayed: every transaction is accepted, with the hash `hash_of`, and
-- the receipt of the burn holds the account's next nonce.
pub record Accepts (w : World) (sender : Address) (hash : Hash) (next processed : ℕ)
    (hash_of : Tx → Hash) : Type 0 where
  pub client : (h : History) → w.respond h client_custom ≡ ok tt
  pub accepted : (h : History) (tx : Tx) (n : ℕ) → w.respond h (send tx n) ≡ pending (hash_of tx)
  pub mined : (h : History) (x : Hash) → w.respond h (get_receipt x) ≡ ok x
  pub burnt :
      (h : History)
      → w.respond h (get_transaction_receipt_by_hash hash)
        ≡ ok (record {
          from = sender;
          success_info = some (record { bridge_info = some (record { bbnonce = next }) });
        })
  pub latest : (h : History) → w.respond h (get_latest_processed_nonce sender) ≡ ok processed

module _ (w : World) (value : String) (sender : Address) (chain : ℕ) (destination fee : String)
    (metadata : Option String) (token : Address) (hash : Hash) (checkpoint next processed : ℕ)
    (hash_of : Tx → Hash) (services : Accepts w sender hash next processed hash_of)
    (s : State) where
  abbrev relayed : Exit Error (Unit {0}) × State
  relayed =
      process_burn_and_bridge_transactions w
        (token_burn_and_bridge value sender chain destination fee metadata token) hash checkpoint s

  -- If every transaction is accepted and the receipt of the burn holds a nonce whose predecessor the
  -- contract has passed, the relay returns, and writes the registration of the burn only.
  pub process_burn_and_bridge-replayed :
      wrapping_sub next 1 < processed
      → (relayed.0 ≡ done tt)
        × (writes relayed.1.history
            ≡ sent (register_withdrawal hash) (pending (hash_of (register_withdrawal hash)))
              ∷ writes s.history)
  unfolding process_burn_and_bridge_transactions bbnonce_of_receipt send_mapping settle_mapping
      ◌>>=◌ ask fetch_add
  process_burn_and_bridge-replayed old =
      rw
        (
          services.client,
          services.accepted,
          services.burnt,
          services.latest,
          lt→ltb (wrapping_sub next 1) processed old,
        )
        (refl, refl)

  -- If every transaction is accepted, the predecessor of the nonce in the receipt of the burn is at
  -- least the contract's, and the fields of the burn parse, the relay returns, and writes the
  -- registration of the burn, `bridgeTo` with the fields of the burn and with that predecessor as its
  -- nonce, and the link to the hash of that call, in this order.
  pub process_burn_and_bridge-bridged :
      (to amount dst_chain_id escrow_fee : ℕ)
      → processed ≤ wrapping_sub next 1
      → w.parse_address destination ≡ some to
      → w.parse_u256 value ≡ some amount
      → try_into_u32 chain ≡ some dst_chain_id
      → w.parse_u256 fee ≡ some escrow_fee
      → let args : BridgeTo = record {
        from = sender;
        bbnonce = wrapping_sub next 1;
        to = to;
        amount = amount;
        dst_chain_id = dst_chain_id;
        escrow_fee = escrow_fee;
        om_token = token;
        checkpoint_id = checkpoint;
        bridge_data = [];
        source_hash = hash;
      } in
        let linked : Tx = link_withdrawal_hashes hash (hash_of (bridge_to args)) in
        (relayed.0 ≡ done tt)
        × (writes relayed.1.history
            ≡ sent linked (pending (hash_of linked))
              ∷ sent (bridge_to args) (pending (hash_of (bridge_to args)))
              ∷ sent (register_withdrawal hash) (pending (hash_of (register_withdrawal hash)))
              ∷ writes s.history)
  unfolding process_burn_and_bridge_transactions bbnonce_of_receipt bridge_to_args bridge_and_link
      send_mapping settle_mapping send_required settle_required ◌>>=◌ ask fetch_add
  process_burn_and_bridge-bridged to amount dst_chain_id escrow_fee new at_to at_amount at_chain
        at_fee =
      rw
        (
          services.client,
          services.accepted,
          services.burnt,
          services.latest,
          ge→ltb (wrapping_sub next 1) processed new,
          at_to,
          at_amount,
          at_chain,
          at_fee,
          services.accepted,
          services.mined,
          services.accepted,
        )
        (refl, refl)
