-- ===== src/Incoming/Recovery/Links.antt =====
-- What the recovery of deposits writes: for each incomplete deposit at most one link, to a mint of
-- that deposit.
use money_interoperability.Prelude.{
  ◌-◌, find-some, true, ℕ, ◌+◌, ◌≡◌, refl, ap, ◌∙◌, Bool, ◌&&◌, Option, none, some, String, List,
  [], ◌∷◌, ◌++◌, arith, ◌==◌,
}
use money_interoperability.World.{
  History, OmInteropReceived, get_transaction_receipt, LogData, World, Address, Hash, Transaction,
  TxPayload, token_bridge_and_mint, token_burn_and_bridge, token_transfer, other_payload,
  CheckpointTransactions, full, hashes, SendReply, Reply, ok, err, OnemoneyError,
  link_deposit_hashes,
}
use money_interoperability.Action.{for_each, Exit, ◌>>=◌, ask, Flow}
use money_interoperability.Action.Writes.{Write, sent}
use money_interoperability.Action.Writes.Rules.{
  bind_Silent-Within, bind-Within, pure-Silent, some_or_bind-Within, Within-Silent, Within,
}
use money_interoperability.Action.Writes.Searches.{
  Searched, Searches, passed, over, failed_at, for_range-Searches,
}
use money_interoperability.Submit.Searches.{send_mapping-Searches}
use money_interoperability.Incoming.Error.{generic, Error, contract}
use money_interoperability.Incoming.Recovery.{
  first_received, recover_from_reply, recover_from_receipt, recover_deposit,
  matches_deposit_payload, matches_deposit, find_deposit, link_found_deposit, look_in_checkpoint,
  recover_in_checkpoint,
}
use money_interoperability.Incoming.Recovery.Receipts.{IsDeposit, found-IsDeposit}

-- The transaction mints for the account, with the nonce.
pub record IsMint (nonce : ℕ) (to : Address) (tx : Transaction) : Type 0 where
  pub value : String
  pub token : Address
  pub at_nonce : tx.nonce ≡ nonce
  pub mints : tx.payload ≡ token_bridge_and_mint to value token

module _ (w : World) (nonce : ℕ) (to : Address) where
  payload-IsMint :
      (tx : Transaction) (payload : TxPayload)
      → tx.payload ≡ payload
      → tx.nonce ≡ nonce
      → matches_deposit_payload w to payload ≡ true
      → IsMint nonce to tx
  payload-IsMint tx (token_bridge_and_mint recipient value token) e n m =
      let same : recipient ≡ to = ground arith in
      record {
        value = value;
        token = token;
        at_nonce = n;
        mints = e ∙ ap (λ r. token_bridge_and_mint r value token) same;
      }
  payload-IsMint tx (token_burn_and_bridge _ _ _ _ _ _ _) e n m = absurd (ground arith)
  payload-IsMint tx (token_transfer _ _ _) e n m = absurd (ground arith)
  payload-IsMint tx (other_payload _) e n m = absurd (ground arith)

  -- What is found in a checkpoint is a mint.
  pub find_deposit-IsMint :
      (txs : CheckpointTransactions) (tx : Transaction)
      → find_deposit w nonce to txs ≡ some tx
      → IsMint nonce to tx
  unfolding find_deposit
  find_deposit-IsMint (full txs) tx e =
      let passes : matches_deposit w nonce to tx ≡ true =
        find-some (matches_deposit w nonce to) txs tx e in
      payload-IsMint tx tx.payload refl (nonce_matches _ _ passes) (payload_matches _ _ passes)
    where
      nonce_matches : (n : ℕ) (b : Bool) → ((n == nonce) && b) ≡ true → n ≡ nonce
      nonce_matches n b h = ground arith

      payload_matches : (a b : Bool) → (a && b) ≡ true → b ≡ true
      payload_matches a b h = ground arith
  find_deposit-IsMint (hashes _) tx e = absurd (ground arith)

-- What one incomplete deposit writes: nothing, or a link to a mint for its account with its nonce.
pub data Link (hash : Hash) (nonce : ℕ) (to : Address) : List Write → Type 0 where
  unlinked : Link hash nonce to []
  linked :
      (tx : Transaction) (r : SendReply)
      → IsMint nonce to tx
      → Link hash nonce to (sent (link_deposit_hashes hash tx.hash) r ∷ [])

module _ (w : World) (hash : Hash) (nonce : ℕ) (to : Address) where
  link_found_deposit-Searches :
      (found : Option Transaction)
      → ((tx : Transaction) → found ≡ some tx → IsMint nonce to tx)
      → Searches (Link hash nonce to) (link_found_deposit w hash found)
  unfolding ◌>>=◌
  link_found_deposit-Searches none mint s = ([], passed, refl)
  link_found_deposit-Searches (some tx) mint s =
      send_mapping-Searches {P = Link hash nonce to} w contract (link_deposit_hashes hash tx.hash)
        (λ r. linked tx r (mint tx refl)) s

  look_in_checkpoint-Searches :
      (reply : Reply OnemoneyError CheckpointTransactions)
      → Searches (Link hash nonce to) (look_in_checkpoint w hash nonce to reply)
  look_in_checkpoint-Searches (err e) s = ([], passed, refl)
  look_in_checkpoint-Searches (ok txs) s =
      link_found_deposit-Searches _ (find_deposit-IsMint w nonce to txs) s

  recover_in_checkpoint-Searches :
      (i : ℕ) → Searches (Link hash nonce to) (recover_in_checkpoint w hash nonce to i tt)
  unfolding recover_in_checkpoint ◌>>=◌ ask
  recover_in_checkpoint-Searches i s = look_in_checkpoint-Searches _ _

module _ (w : World) where
  -- The link of one deposit, to a mint of the event in its receipt, or nothing.
  pub data Recovered (hash : Hash) : List Write → Type 0 where
    unrecovered : Recovered hash []
    recovered :
        (event : OmInteropReceived) (ws : List Write)
        → IsDeposit w hash event
        → Link hash event.nonce event.to ws
        → Recovered hash ws

  -- The links of a list of incomplete deposits, in its order: at most one for each.
  pub data Links : List Hash → List Write → Type 0 where
    none_left : (hs : List Hash) → Links hs []
    next_deposit :
        (hash : Hash) (hs : List Hash) (ws vs : List Write)
        → Recovered hash ws
        → Links hs vs
        → Links (hash ∷ hs) (vs ++ ws)

  Searched-Link :
      (hash : Hash) (event : OmInteropReceived) (exit : Exit Error (Flow (Unit {0}) (Unit {0})))
      (ws : List Write)
      → IsDeposit w hash event
      → Searched (Link hash event.nonce event.to) exit ws
      → Recovered hash ws
  Searched-Link hash event _ _ deposit passed = unrecovered
  Searched-Link hash event _ ws deposit (over _ l) = recovered event ws deposit l
  Searched-Link hash event _ ws deposit (failed_at _ _ l) = recovered event ws deposit l

  recover_from_receipt-Within :
      (start last : ℕ) (hash : Hash) (before : History) (receipt : Option (List LogData))
      → w.respond before (get_transaction_receipt hash) ≡ ok receipt
      → Within (Recovered hash) (recover_from_receipt w start last hash receipt)
  recover_from_receipt-Within start last hash before receipt given =
      some_or_bind-Within generic receipt _ unrecovered (λ logs e.
        some_or_bind-Within generic (first_received w logs) _ unrecovered (λ event e'.
          let deposit = found-IsDeposit w hash before logs event (given ∙ ap (λ o. ok o) e) e' in
          bind_Silent-Within _ _
            (record {
              at = λ s.
                  let (ws, o, h) =
                    for_range-Searches {E = Error} {P = Link hash event.nonce event.to}
                      (recover_in_checkpoint w hash event.nonce event.to)
                      (recover_in_checkpoint-Searches w hash event.nonce event.to)
                      (last + 1 - start) start s in
                  (ws, Searched-Link hash event _ ws deposit o, h);
            })
            (λ _. pure-Silent tt)))

  recover_from_reply-Within :
      (start last : ℕ) (hash : Hash) (before : History) (reply : Reply ℕ (Option (List LogData)))
      → w.respond before (get_transaction_receipt hash) ≡ reply
      → Within (Recovered hash) (recover_from_reply w start last hash reply)
  recover_from_reply-Within start last hash before (err e) given =
      Within-Silent _ (pure-Silent tt) unrecovered
  recover_from_reply-Within start last hash before (ok receipt) given =
      recover_from_receipt-Within start last hash before receipt given

  recover_deposit-Within :
      (start last : ℕ) (hash : Hash) → Within (Recovered hash) (recover_deposit w start last hash)
  unfolding recover_deposit ◌>>=◌ ask
  recover_deposit-Within start last hash = record {
    at = λ s. (recover_from_reply-Within start last hash s.history _ refl).at _;
  }

  pub recover_deposits-Within :
      (start last : ℕ) (hs : List Hash)
      → Within (Links hs) (for_each hs (recover_deposit w start last))
  unfolding for_each
  recover_deposits-Within start last [] = Within-Silent _ (pure-Silent tt) (none_left [])
  recover_deposits-Within start last (hash ∷ hs) =
      let later : Within (Links hs) (for_each hs (recover_deposit w start last)) =
        recover_deposits-Within start last hs in
      bind-Within {P = Links (hash ∷ hs)} {Q = Recovered hash} {R = Links hs}
        (λ ws r. next_deposit hash hs ws [] r (none_left hs))
        (λ ws vs r k. next_deposit hash hs ws vs r k) _ _ (recover_deposit-Within start last hash)
        (λ _. later)
