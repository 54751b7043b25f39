-- ===== src/Submit.antt =====
-- The two ways in which the relayer sends a transaction to a contract of the sidechain
-- (code/crates/relayer/src/incoming/handlers.rs, outgoing/relay.rs, sidechain/mod.rs): the
-- bookkeeping calls of TxHashMapping put the nonce back when the contract reverts and go on, the
-- other calls fail with the revert and keep the nonce.
pub mod Discipline
pub mod Writes
pub mod Searches
use money_interoperability.World.{
  World, Fault, Hash, Tx, SendReply, pending, reverted, failed, send, get_receipt, Reply, ok, err,
}
use money_interoperability.Action.{
  Action, pure, raise, or_raise, ◌>>=◌, ◌>>◌, ask, fetch_add, fetch_sub,
}

module _ (w : World) {E : Type 0} where
  -- A receipt that cannot be fetched is logged; a revert gives the nonce back and is logged; any
  -- other error of the send is returned.
  unfoldable pub settle_mapping : (Fault → E) → SendReply → Action E (Unit {0})
  settle_mapping contract (pending h) = do ask w (get_receipt h); pure tt
  settle_mapping contract (reverted e) = do fetch_sub; pure tt
  settle_mapping contract (failed e) = raise (contract e)

  unfoldable pub send_mapping : (Fault → E) → Tx → Action E (Unit {0})
  send_mapping contract tx = do
    nonce ← fetch_add
    sent ← ask w (send tx nonce)
    settle_mapping contract sent

  unfoldable pub settle_required :
      (Fault → E) → (Fault → E) → (Fault → E) → SendReply → Action E Hash
  settle_required contract revert receipt (pending h) = do
    got ← ask w (get_receipt h)
    or_raise receipt got
  settle_required contract revert receipt (reverted e) = raise (revert e)
  settle_required contract revert receipt (failed e) = raise (contract e)

  -- `.send().await…?.map_err(revert)?.get_receipt().await?`: the hash of the receipt.
  unfoldable pub send_required : (Fault → E) → (Fault → E) → (Fault → E) → Tx → Action E Hash
  send_required contract revert receipt tx = do
    nonce ← fetch_add
    sent ← ask w (send tx nonce)
    settle_required contract revert receipt sent
