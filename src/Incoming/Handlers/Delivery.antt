-- ===== src/Incoming/Handlers/Delivery.antt =====
-- What the two handlers write: at most one transaction on 1Money, with the event's data and nonce,
-- and the link of its hash to the event's.
use mathlib.Core.List.{append_assoc}
use money_interoperability.Prelude.{
  ◌∙◌, ◌≡◌, refl, sym, ap, true, false, Bool-cases, Option, none, some, List, [], ◌∷◌, ◌++◌, inl,
  inr,
}
use money_interoperability.World.{
  World, Hash, Fault, Reply, ok, err, OnemoneyError, SendReply, pending, reverted, failed,
  bridge_and_mint, OmInteropReceived, OmInteropSent, register_deposit, link_deposit_hashes,
  link_refund_hashes, Tx,
}
use money_interoperability.Action.{Exit, done, fail, State, Action, pure, ◌>>=◌, ask, continue}
use money_interoperability.Action.Writes.{Write, writes, sent, minted, paid}
use money_interoperability.Submit.{send_mapping}
use money_interoperability.Submit.Writes.{Mapped, mapping_exit, send_mapping-Mapped}
use money_interoperability.Incoming.Error.{Error, onemoney, contract}
use money_interoperability.Incoming.Handlers.{
  Relayer1MoneyContext, is_error_transaction_already_exists, unless_exists, mint_payload,
  refund_payload, handle_om_interop_received, handle_om_interop_sent,
}

-- How a transaction on 1Money (a write that depends on its reply) and the link of its hash end, with
-- what they wrote, the newest first.
pub data Delivered (write : Reply OnemoneyError Hash → Write) (link : Hash → Tx)
    : Exit Error (Option Hash) → List Write → Type 0 where
  -- submitted, and the link sent, whether or not the contract takes it
  linked :
      (hash : Hash) (r : SendReply)
      → mapping_exit contract r ≡ done tt
      → Delivered write link (done (some hash)) (sent (link hash) r ∷ write (ok hash) ∷ [])
  -- submitted, but the send of the link failed
  unlinked :
      (hash : Hash) (e : Fault)
      → Delivered write link
          (fail (contract e))
          (sent (link hash) (failed e) ∷ write (ok hash) ∷ [])
  -- 1Money has the transaction already
  existed :
      (e : OnemoneyError)
      → is_error_transaction_already_exists e ≡ true
      → Delivered write link (done none) (write (err e) ∷ [])
  -- 1Money refused the transaction
  refused :
      (e : OnemoneyError)
      → is_error_transaction_already_exists e ≡ false
      → Delivered write link (fail (onemoney e)) (write (err e) ∷ [])

module _ (w : World) (write : Reply OnemoneyError Hash → Write) (link : Hash → Tx) where
  -- The steps after the reply of 1Money.
  abbrev after_reply : Reply OnemoneyError Hash → Action Error (Option Hash)
  after_reply r =
      unless_exists w r (λ hash. send_mapping w contract (link hash) >>= λ _. pure (some hash))

  linked_by :
      (hash : Hash) (s : State) (exit : Exit Error (Unit {0})) (s' : State)
      → Mapped contract (link hash) s exit s'
      → (before : List Write) → writes s.history ≡ write (ok hash) ∷ before
      → let (r, s'') = continue exit (λ _. pure (some hash)) s' in
        (ws : List Write) × Delivered write link r ws × (writes s''.history ≡ ws ++ before)
  linked_by hash s exit s' m before e =
      rw m.ended (linked_with m.reply (m.wrote ∙ ap (λ ws. sent (link hash) m.reply ∷ ws) e))
    where
      linked_with :
          (r : SendReply)
          → writes s'.history ≡ sent (link hash) r ∷ write (ok hash) ∷ before
          → let (x, s'') = continue (mapping_exit contract r) (λ _. pure (some hash)) s' in
            (ws : List Write) × Delivered write link x ws × (writes s''.history ≡ ws ++ before)
      linked_with (pending h) q =
          (sent (link hash) (pending h) ∷ write (ok hash) ∷ [], linked hash (pending h) refl, q)
      linked_with (reverted x) q =
          (sent (link hash) (reverted x) ∷ write (ok hash) ∷ [], linked hash (reverted x) refl, q)
      linked_with (failed x) q =
          (sent (link hash) (failed x) ∷ write (ok hash) ∷ [], unlinked hash x, q)

  after_reply_delivers :
      (r : Reply OnemoneyError Hash) (s : State) (before : List Write)
      → writes s.history ≡ write r ∷ before
      → let (exit, s') = after_reply r s in
        (ws : List Write) × Delivered write link exit ws × (writes s'.history ≡ ws ++ before)
  unfolding unless_exists ◌>>=◌
  after_reply_delivers (ok hash) s before e =
      linked_by hash s _ _ (send_mapping-Mapped w contract (link hash) s) before e
  after_reply_delivers (err x) s before e =
      elim (Bool-cases (is_error_transaction_already_exists x)) [
        | inl there ↦ rw there (write (err x) ∷ [], existed x there, e)
        | inr other ↦ rw other (write (err x) ∷ [], refused x other, e)
      ]

-- How the handler of a deposit ends, with what it wrote: the registration of the event's hash first.
pub data Received (w : World) (ctx : Relayer1MoneyContext) (event : OmInteropReceived)
    (source : Hash) (exit : Exit Error (Option Hash)) (ws : List Write) : Type 0 where
  unregistered :
      (e : Fault)
      → exit ≡ fail (contract e)
      → ws ≡ sent (register_deposit source) (failed e) ∷ []
      → Received w ctx event source exit ws
  delivered :
      (r : SendReply) (rest : List Write)
      → mapping_exit contract r ≡ done tt
      → Delivered (minted (mint_payload w ctx event source)) (link_deposit_hashes source) exit rest
      → ws ≡ rest ++ sent (register_deposit source) r ∷ []
      → Received w ctx event source exit ws

module _ (w : World) (ctx : Relayer1MoneyContext) where
  module _ (event : OmInteropReceived) (source : Hash) where
    -- The steps after the registration.
    abbrev after_register : Action Error (Option Hash)
    after_register =
        ask w (bridge_and_mint (mint_payload w ctx event source))
        >>= after_reply w (minted (mint_payload w ctx event source)) (link_deposit_hashes source)

    after_register_delivers :
        (s : State)
        → let (exit, s') = after_register s in
          (ws : List Write) × Delivered
            (minted (mint_payload w ctx event source))
            (link_deposit_hashes source)
            exit
            ws
          × (writes s'.history ≡ ws ++ writes s.history)
    unfolding ◌>>=◌ ask
    after_register_delivers s =
        after_reply_delivers w (minted (mint_payload w ctx event source))
          (link_deposit_hashes source) _ _ (writes s.history) refl

    Received-by :
        (s : State) (exit : Exit Error (Unit {0})) (s' : State)
        → Mapped contract (register_deposit source) s exit s'
        → let (x, s'') = continue exit (λ _. after_register) s' in
          (ws : List Write) × Received w ctx event source x ws
          × (writes s''.history ≡ ws ++ writes s.history)
    Received-by s exit s' m = rw m.ended (by_reply m.reply m.wrote)
      where
        accepted_by :
            (r : SendReply)
            → mapping_exit contract r ≡ done tt
            → writes s'.history ≡ sent (register_deposit source) r ∷ writes s.history
            → (ws : List Write) × Received w ctx event source (after_register s').0 ws
              × (writes (after_register s').1.history ≡ ws ++ writes s.history)
        accepted_by r good q =
            let (rest, d, e) = after_register_delivers s' in
            (
              rest ++ sent (register_deposit source) r ∷ [],
              delivered r rest good d refl,
              e
                  ∙ ap (λ before. rest ++ before) q
                  ∙ sym (
                      append_assoc rest (sent (register_deposit source) r ∷ []) (writes s.history)),
            )

        by_reply :
            (r : SendReply)
            → writes s'.history ≡ sent (register_deposit source) r ∷ writes s.history
            → let (x, s'') = continue (mapping_exit contract r) (λ _. after_register) s' in
              (ws : List Write) × Received w ctx event source x ws
              × (writes s''.history ≡ ws ++ writes s.history)
        by_reply (pending h) q = accepted_by (pending h) refl q
        by_reply (reverted e) q = accepted_by (reverted e) refl q
        by_reply (failed e) q = (_, unregistered e refl refl, q)

    -- From every state the handler of a deposit sends the registration of the event's hash; if that
    -- send fails it ends with the failure, and otherwise it asks 1Money once to mint by the event, and
    -- by the reply it sends the link to the new hash, or returns nothing for a transaction that exists,
    -- or ends with the error; it writes nothing else.
    pub handle-Received :
        (s : State)
        → let (exit, s') = handle_om_interop_received w ctx event source s in
          (ws : List Write) × Received w ctx event source exit ws
          × (writes s'.history ≡ ws ++ writes s.history)
    unfolding handle_om_interop_received ◌>>=◌
    handle-Received s =
        Received-by s _ _ (send_mapping-Mapped w contract (register_deposit source) s)

  -- From every state the handler of a refund asks 1Money once to pay by the event, and by the reply it
  -- sends the link to the new hash, or returns nothing for a transaction that exists, or ends with the
  -- error; it writes nothing else.
  pub handle_sent :
      (event : OmInteropSent) (s : State)
      → let (exit, s') = handle_om_interop_sent w ctx event s in
        (ws : List Write) × Delivered
          (paid (refund_payload w ctx event))
          (link_refund_hashes event.source_hash)
          exit
          ws
        × (writes s'.history ≡ ws ++ writes s.history)
  unfolding handle_om_interop_sent ◌>>=◌ ask
  handle_sent event s =
      after_reply_delivers w (paid (refund_payload w ctx event))
        (link_refund_hashes event.source_hash) _ _ (writes s.history) refl
