-- ===== src/Outgoing/Recovery/Nonces.antt =====
-- The recovery of withdrawals keeps the discipline of the shared nonce.
use money_interoperability.Prelude.{ℕ, refl, Option, none, some}
use money_interoperability.World.{
  World, Hash, Transaction, CheckpointTransactions, WithdrawalHashes, OmReceipt, OnemoneyError,
  Reply, ok, err, get_checkpoint_by_number,
}
use money_interoperability.Action.{Flow, next, stop}
use money_interoperability.Action.Nonces.{Disciplined, discipline, ask_bind-Disciplined}
use money_interoperability.Submit.Discipline.{send_mapping-Disciplined}
use money_interoperability.Config.{Config}
use money_interoperability.Outgoing.Recovery.{
  Found, get_earliest_incomplete_checkpoint_number, search_window, found_or_fail, link_bridge_to,
  link_found_refund, look_in_checkpoint, recover_in_checkpoint, link_refund, recover_from_receipt,
  recover_from_reply, recover_withdrawal, recover_incomplete_withdrawals_hash_mapping,
}

ruleset rules = (discipline, send_mapping-Disciplined)

module _ {base : ℕ} (w : World) where
  pub get_earliest_incomplete_checkpoint_number-Disciplined :
      Disciplined base (get_earliest_incomplete_checkpoint_number w)
  unfolding get_earliest_incomplete_checkpoint_number
  get_earliest_incomplete_checkpoint_number-Disciplined = search rules

  search_window-Disciplined :
      (config : Config) (hash sender a b : ℕ) (u : Unit {0})
      → Disciplined base (search_window w config hash sender a b u)
  unfolding search_window
  search_window-Disciplined config hash sender a b u = search rules

  found_or_fail-Disciplined : (o : Flow (Unit {0}) Found) → Disciplined base (found_or_fail w o)
  found_or_fail-Disciplined (next u) = search rules
  found_or_fail-Disciplined (stop found) = search rules

  link_bridge_to-Disciplined :
      (hash : Hash) (found : Found) (entry : WithdrawalHashes)
      → Disciplined base (link_bridge_to w hash found entry)
  unfolding link_bridge_to
  link_bridge_to-Disciplined hash found entry = search rules

  link_found_refund-Disciplined :
      (hash : Hash) (o : Option Transaction) → Disciplined base (link_found_refund w hash o)
  link_found_refund-Disciplined hash none = search rules
  link_found_refund-Disciplined hash (some tx) = search rules

  look_in_checkpoint-Disciplined :
      (hash : Hash) (found : Found) (r : Reply OnemoneyError CheckpointTransactions)
      → Disciplined base (look_in_checkpoint w hash found r)
  look_in_checkpoint-Disciplined hash found (err e) = search rules
  look_in_checkpoint-Disciplined hash found (ok txs) = link_found_refund-Disciplined hash _

  recover_in_checkpoint-Disciplined :
      (hash : Hash) (found : Found) (i : ℕ) (u : Unit {0})
      → Disciplined base (recover_in_checkpoint w hash found i u)
  unfolding recover_in_checkpoint
  recover_in_checkpoint-Disciplined hash found i u =
      ask_bind-Disciplined w (get_checkpoint_by_number i) _ (λ _. refl)
        (look_in_checkpoint-Disciplined hash found)

  link_refund-Disciplined :
      (start last : ℕ) (hash : Hash) (found : Found) (entry : WithdrawalHashes)
      → Disciplined base (link_refund w start last hash found entry)
  unfolding link_refund
  link_refund-Disciplined start last hash found entry =
      search (rules, recover_in_checkpoint-Disciplined)

  recover_from_receipt-Disciplined :
      (fuel : ℕ) (config : Config) (start last block hash : ℕ) (entry : WithdrawalHashes)
      (r : OmReceipt)
      → Disciplined base (recover_from_receipt w fuel config start last block hash entry r)
  unfolding recover_from_receipt
  recover_from_receipt-Disciplined fuel config start last block hash entry r =
      search
        (
          rules, search_window-Disciplined, found_or_fail-Disciplined, link_bridge_to-Disciplined,
          link_refund-Disciplined,
        )
        depth 12

  recover_from_reply-Disciplined :
      (fuel : ℕ) (config : Config) (start last block hash : ℕ) (entry : WithdrawalHashes)
      (r : Reply OnemoneyError OmReceipt)
      → Disciplined base (recover_from_reply w fuel config start last block hash entry r)
  recover_from_reply-Disciplined fuel config start last block hash entry (err e) = search rules
  recover_from_reply-Disciplined fuel config start last block hash entry (ok r) =
      recover_from_receipt-Disciplined fuel config start last block hash entry r

  recover_withdrawal-Disciplined :
      (fuel : ℕ) (config : Config) (start last block hash : ℕ)
      → Disciplined base (recover_withdrawal w fuel config start last block hash)
  unfolding recover_withdrawal
  recover_withdrawal-Disciplined fuel config start last block hash =
      search (rules, recover_from_reply-Disciplined) depth 10

  pub recover_incomplete_withdrawals_hash_mapping-Disciplined :
      (fuel : ℕ) (config : Config) (start block : Option ℕ)
      → Disciplined base (recover_incomplete_withdrawals_hash_mapping w fuel config start block)
  unfolding recover_incomplete_withdrawals_hash_mapping
  recover_incomplete_withdrawals_hash_mapping-Disciplined fuel config start block =
      search (rules, recover_withdrawal-Disciplined) depth 15
