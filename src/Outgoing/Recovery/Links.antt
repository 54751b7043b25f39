-- ===== src/Outgoing/Recovery/Links.antt =====
-- What the recovery of one withdrawal writes: the links that its entry lacks.
use money_interoperability.Prelude.{
  ℕ, ◌≡◌, refl, true, Option, none, some, List, [], ◌∷◌, ◌++◌, find-some, ◌==◌, ◌+◌, ◌-◌, arith,
}
use money_interoperability.World.{
  World, Hash, Transaction, CheckpointTransactions, full, hashes, SendReply, Reply, ok, err,
  OnemoneyError, WithdrawalHashes, link_withdrawal_hashes, link_refund_hashes,
}
use money_interoperability.Action.{Exit, State, ◌>>=◌, ◌>>◌, ask, Flow}
use money_interoperability.Action.Writes.{Write, writes, sent}
use money_interoperability.Action.Writes.Rules.{
  Within, if_cases-Within, bind-Within, bind_Silent-Within, Within-Silent, pure-Silent,
}
use money_interoperability.Action.Writes.Searches.{
  Searched, Searches, passed, over, failed_at, for_range-Searches,
}
use money_interoperability.Submit.Searches.{send_mapping-Searches}
use money_interoperability.Submit.Writes.{Just, just, send_mapping-Within}
use money_interoperability.Outgoing.Error.{Error, contract_call}
use money_interoperability.Outgoing.Recovery.{
  Found, matches_refund, find_refund, link_found_refund, look_in_checkpoint, recover_in_checkpoint,
  link_bridge_to, link_refund,
}

module _ (w : World) (found : Found) where
  -- What is found in a checkpoint is the refund of the withdrawal.
  find_refund-matches :
      (txs : CheckpointTransactions) (tx : Transaction)
      → find_refund w found txs ≡ some tx
      → matches_refund w found tx ≡ true
  unfolding find_refund
  find_refund-matches (full txs) tx e = find-some (matches_refund w found) txs tx e
  find_refund-matches (hashes _) tx e = absurd (ground arith)

  module _ (hash : Hash) (entry : WithdrawalHashes) where
    -- The link to the refund, of an entry without one.
    pub data RefundLink : List Write → Type 0 where
      unrefunded : RefundLink []
      refunded :
          (tx : Transaction) (r : SendReply)
          → entry.refund ≡ 0
          → matches_refund w found tx ≡ true
          → RefundLink (sent (link_refund_hashes hash tx.hash) r ∷ [])

    -- The link to the call of `bridgeTo`, of an entry without one.
    pub data BridgeLink : List Write → Type 0 where
      unlinked : BridgeLink []
      linked :
          (r : SendReply)
          → entry.bridge_to ≡ 0
          → BridgeLink (sent (link_withdrawal_hashes hash found.bridge_to_tx_hash) r ∷ [])

    link_found_refund-Searches :
        (candidate : Option Transaction)
        → entry.refund ≡ 0
        → ((tx : Transaction) → candidate ≡ some tx → matches_refund w found tx ≡ true)
        → Searches RefundLink (link_found_refund w hash candidate)
    link_found_refund-Searches none missing match s = ([], passed, refl)
    link_found_refund-Searches (some tx) missing match s =
        send_mapping-Searches {P = RefundLink} w contract_call (link_refund_hashes hash tx.hash)
          (λ r. refunded tx r missing (match tx refl)) s

    look_in_checkpoint-Searches :
        (reply : Reply OnemoneyError CheckpointTransactions)
        → entry.refund ≡ 0
        → Searches RefundLink (look_in_checkpoint w hash found reply)
    look_in_checkpoint-Searches (err e) missing s = ([], passed, refl)
    look_in_checkpoint-Searches (ok txs) missing s =
        link_found_refund-Searches _ missing (find_refund-matches txs) s

    recover_in_checkpoint-Searches :
        (i : ℕ) → entry.refund ≡ 0 → Searches RefundLink (recover_in_checkpoint w hash found i tt)
    unfolding recover_in_checkpoint ◌>>=◌ ask
    recover_in_checkpoint-Searches i missing s = look_in_checkpoint-Searches _ missing _

    Searched-RefundLink :
        (exit : Exit Error (Flow (Unit {0}) (Unit {0}))) (ws : List Write)
        → Searched RefundLink exit ws
        → RefundLink ws
    Searched-RefundLink _ _ passed = unrefunded
    Searched-RefundLink _ ws (over _ l) = l
    Searched-RefundLink _ ws (failed_at _ _ l) = l

    link_refund-Within :
        (start last : ℕ) → Within RefundLink (link_refund w start last hash found entry)
    unfolding link_refund
    link_refund-Within start last =
        if_cases-Within (entry.refund == 0) _ _
          (λ zero_refund.
            bind_Silent-Within _ _
              (record {
                at = λ s.
                    let missing : entry.refund ≡ 0 = ground arith in
                    let (ws, o, e) =
                      for_range-Searches {E = Error} {P = RefundLink}
                        (recover_in_checkpoint w hash found)
                        (λ i. recover_in_checkpoint-Searches i missing) (last + 1 - start) start
                        s in
                    (ws, Searched-RefundLink _ ws o, e);
              })
              (λ _. pure-Silent tt))
          (λ _. Within-Silent _ (pure-Silent tt) unrefunded)

    link_bridge_to-Within : Within BridgeLink (link_bridge_to w hash found entry)
    unfolding link_bridge_to
    link_bridge_to-Within =
        if_cases-Within (entry.bridge_to == 0) _ _
          (λ zero_hash. record {
            at = λ s.
                let missing : entry.bridge_to ≡ 0 = ground arith in
                let (ws, j, e) =
                  (send_mapping-Within w contract_call
                      (link_withdrawal_hashes hash found.bridge_to_tx_hash)).at
                    s in
                (ws, by_just missing ws j, e);
          })
          (λ _. Within-Silent _ (pure-Silent tt) unlinked)
      where
        by_just :
            entry.bridge_to ≡ 0
            → (ws : List Write)
            → Just w contract_call (link_withdrawal_hashes hash found.bridge_to_tx_hash) ws
            → BridgeLink ws
        by_just missing _ (just r) = linked r missing

    -- Both links: that of the refund comes after that of the call.
    pub data Relinked : List Write → Type 0 where
      relinked : (ws vs : List Write) → BridgeLink ws → RefundLink vs → Relinked (vs ++ ws)

    pub link_refund-Relinked :
        (start last : ℕ) (s : State)
        → (ws : List Write) × Relinked ws
          × (writes
                ((link_bridge_to w hash found entry >> link_refund w start last hash found entry)
                  s).1.history
              ≡ ws ++ writes s.history)
    link_refund-Relinked start last s =
        (bind-Within {P = Relinked} {Q = BridgeLink} {R = RefundLink}
            (λ ws b. relinked ws [] b unrefunded) (λ ws vs b r. relinked ws vs b r) _ _
            link_bridge_to-Within (λ _. link_refund-Within start last)).at
          s
