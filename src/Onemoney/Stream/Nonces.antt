-- ===== src/Onemoney/Stream/Nonces.antt =====
-- The streams of 1Money keep the discipline of the shared nonce if their consumers do.
use money_interoperability.Prelude.{
  ℕ, zero, suc, Bool, refl, Option, none, some, String, List, wrapping_add,
}
use money_interoperability.World.{
  World, Hash, Fault, Transaction, TxPayload, Reply, ok, err, WsMessage, text, close, other_frame,
  next_message, tick,
}
use money_interoperability.Action.{Action, State, Exit, done, fail, panic, waiting}
use money_interoperability.Action.Nonces.{
  Disciplined, IsAligned, Settled, discipline, bind-Disciplined, ask_bind-Disciplined,
}
use money_interoperability.Action.Nonces.Quiet.{Quiet, quiet_rules}
use money_interoperability.Onemoney.Error.{Error}
use money_interoperability.Onemoney.Stream.{
  get_transactions_from_checkpoint, attempt, checkpoint_step, checkpoint_loop, consume_certified,
  message_step, message_loop, unwrap, certified_transaction_stream, is_burn_and_bridge,
}
use money_interoperability.Onemoney.Types.{CertifiedTransaction}

attempted-Settled :
    {E A : Type 0} (F : Type 0) (w : World) (base : ℕ) (r : Exit E A) (s : State)
    → IsAligned base s
    → Settled base (attempt w {F = F} (λ _. (r, s)) s).0 (attempt w {F = F} (λ _. (r, s)) s).1
unfolding attempt
attempted-Settled F w base (done a) s h = h
attempted-Settled F w base (fail e) s h = h
attempted-Settled F w base panic s h = h
attempted-Settled F w base waiting s h = h

-- The error of an action that draws no nonce can be handled.
pub attempt-Disciplined :
    {base : ℕ} {E F A : Type 0} (w : World) (m : Action E A)
    → Quiet base m
    → Disciplined base (attempt w {F = F} m)
unfolding attempt
attempt-Disciplined {base} {F = F} w m km = record {
  at = λ s h. attempted-Settled F w base (m s).0 (m s).1 (km.at s h);
}

module _ {base : ℕ} (w : World) where
  get_transactions_from_checkpoint-Quiet :
      (n : ℕ) (test : Transaction → Bool) → Quiet base (get_transactions_from_checkpoint w n test)
  unfolding get_transactions_from_checkpoint
  get_transactions_from_checkpoint-Quiet n test = search quiet_rules depth 8

  module _ {E : Type 0} (consume : ℕ → List Transaction → Action E (Unit {0}))
      (kc : (n : ℕ) (txs : List Transaction) → Disciplined base (consume n txs)) where
    checkpoint_step-Disciplined :
        (n : ℕ) (rest : ℕ → Action E (Unit {0})) (r : Reply Error (List Transaction))
        → ((m : ℕ) → Disciplined base (rest m))
        → Disciplined base (checkpoint_step w n consume rest r)
    unfolding checkpoint_step
    checkpoint_step-Disciplined n rest (ok txs) kr =
        bind-Disciplined _ _ (kc n txs) (λ _. kr (wrapping_add n 1))
    checkpoint_step-Disciplined n rest (err e) kr = kr n

    pub checkpoint_loop-Disciplined :
        (ticks n : ℕ) → Disciplined base (checkpoint_loop w ticks consume n)
    unfolding checkpoint_loop
    checkpoint_loop-Disciplined zero n = search discipline
    checkpoint_loop-Disciplined (suc ticks) n =
        ask_bind-Disciplined w tick _ (λ _. refl)
          (λ _.
            bind-Disciplined _ _
              (attempt-Disciplined w _
                (get_transactions_from_checkpoint-Quiet n is_burn_and_bridge))
              (λ r. checkpoint_step-Disciplined n _ r (checkpoint_loop-Disciplined ticks)))

  module _ {E : Type 0} (parse : String → Option CertifiedTransaction)
      (consume : TxPayload → Hash → Action E (Unit {0}))
      (kc : (payload : TxPayload) (hash : Hash) → Disciplined base (consume payload hash)) where
    consume_certified-Disciplined :
        (c : Option CertifiedTransaction) → Disciplined base (consume_certified w parse consume c)
    consume_certified-Disciplined none = search discipline
    consume_certified-Disciplined (some c) = search (discipline, kc)

    message_step-Disciplined :
        (rest : Action E (Unit {0})) (m : Option (Reply Fault WsMessage))
        → Disciplined base rest
        → Disciplined base (message_step w parse consume rest m)
    unfolding message_step
    message_step-Disciplined rest none kr = search discipline
    message_step-Disciplined rest (some (err e)) kr = search discipline
    message_step-Disciplined rest (some (ok (text raw))) kr =
        bind-Disciplined _ _ (consume_certified-Disciplined (parse raw)) (λ _. kr)
    message_step-Disciplined rest (some (ok close)) kr = search discipline
    message_step-Disciplined rest (some (ok other_frame)) kr = kr

    message_loop-Disciplined :
        (messages : ℕ) → Disciplined base (message_loop w parse consume messages)
    unfolding message_loop
    message_loop-Disciplined zero = search discipline
    message_loop-Disciplined (suc messages) =
        ask_bind-Disciplined w next_message _ (λ _. refl)
          (λ m. message_step-Disciplined _ m (message_loop-Disciplined messages))

    unwrap-Disciplined : (r : Reply Fault (Unit {0})) → Disciplined base (unwrap w parse consume r)
    unwrap-Disciplined (ok u) = search discipline
    unwrap-Disciplined (err e) = search discipline

    pub certified_transaction_stream-Disciplined :
        (messages : ℕ) → Disciplined base (certified_transaction_stream w parse consume messages)
    unfolding certified_transaction_stream
    certified_transaction_stream-Disciplined messages =
        search (discipline, unwrap-Disciplined, message_loop-Disciplined) depth 10
