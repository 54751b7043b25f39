-- ===== src/Submit/Discipline.antt =====
-- Both ways of sending keep the discipline of the nonce.
use money_interoperability.Prelude.{ℕ, ◌≡◌, refl, ◌∷◌, inr, arith, wrapping_add, wrapping_sub}
use money_interoperability.World.{
  World, Fault, Tx, SendReply, pending, reverted, failed, send, get_receipt,
}
use money_interoperability.Action.{◌>>=◌, fetch_sub, fetch_add, State, ask}
use money_interoperability.Action.Nonces.{
  IsAligned, IsAhead, Settled, Disciplined, ask-Disciplined, or_raise-Disciplined, pure-Disciplined,
  bind-Disciplined,
}
use money_interoperability.Submit.{settle_mapping, send_mapping, settle_required, send_required}

-- The state after a transaction with the counter's nonce, with its reply.
abbrev after_send : State → Tx → SendReply → State
after_send s tx r = record {
  relayer_nonce = wrapping_add s.relayer_nonce 1;
  history = record { call = send tx s.relayer_nonce; reply = r } ∷ s.history;
}

module _ {base : ℕ} (s : State) (h : IsAligned base s) where
  after_accepted : (tx : Tx) (hash : ℕ) → IsAligned base (after_send s tx (pending hash))
  after_accepted tx hash = record {
    bounded = omega arith;
    consecutive = (h.bounded, refl, h.consecutive);
  }

  after_reverted : (tx : Tx) (e : Fault) → IsAhead base (after_send s tx (reverted e))
  after_reverted tx e = record {
    due = s.relayer_nonce;
    bounded = h.bounded;
    skipped = refl;
    consecutive = h.consecutive;
  }

  after_failed : (tx : Tx) (e : Fault) → IsAhead base (after_send s tx (failed e))
  after_failed tx e = record {
    due = s.relayer_nonce;
    bounded = h.bounded;
    skipped = refl;
    consecutive = h.consecutive;
  }

  rolled_back :
      (tx : Tx) (e : Fault)
      → IsAligned base (record (after_send s tx (reverted e)) {
        relayer_nonce = wrapping_sub (wrapping_add s.relayer_nonce 1) 1;
      })
  rolled_back tx e =
      let bounded = h.bounded in
      let back : wrapping_sub (wrapping_add s.relayer_nonce 1) 1 ≡ s.relayer_nonce = omega arith in
      rw back (record { bounded = h.bounded; consecutive = h.consecutive })

module _ {base : ℕ} (w : World) {E : Type 0} where
  get_receipt-Disciplined : (hash : ℕ) → Disciplined base {E = E} (ask w (get_receipt hash))
  get_receipt-Disciplined hash = ask-Disciplined w (get_receipt hash) (λ r. refl)

  settle_mapping-Settled :
      (contract : Fault → E) (s : State) (h : IsAligned base s) (tx : Tx) (r : SendReply)
      → Settled base
          (settle_mapping w contract r (after_send s tx r)).0
          (settle_mapping w contract r (after_send s tx r)).1
  unfolding settle_mapping ◌>>=◌ fetch_sub
  settle_mapping-Settled contract s h tx (pending hash) =
      (bind-Disciplined _ _ (get_receipt-Disciplined hash) (λ _. pure-Disciplined tt)).at _
        (after_accepted s h tx hash)
  settle_mapping-Settled contract s h tx (reverted e) = rolled_back s h tx e
  settle_mapping-Settled contract s h tx (failed e) = inr (after_failed s h tx e)

  pub send_mapping-Disciplined :
      (contract : Fault → E) (tx : Tx) → Disciplined base (send_mapping w contract tx)
  unfolding send_mapping ◌>>=◌ ask fetch_add
  send_mapping-Disciplined contract tx = record {
    at = λ s h. settle_mapping-Settled contract s h tx _;
  }

  settle_required-Settled :
      (contract revert receipt : Fault → E) (s : State) (h : IsAligned base s) (tx : Tx)
      (r : SendReply)
      → Settled base
          (settle_required w contract revert receipt r (after_send s tx r)).0
          (settle_required w contract revert receipt r (after_send s tx r)).1
  unfolding settle_required
  settle_required-Settled contract revert receipt s h tx (pending hash) =
      (bind-Disciplined _ _ (get_receipt-Disciplined hash) (λ r. or_raise-Disciplined receipt r)).at
        _ (after_accepted s h tx hash)
  settle_required-Settled contract revert receipt s h tx (reverted e) =
      inr (after_reverted s h tx e)
  settle_required-Settled contract revert receipt s h tx (failed e) = inr (after_failed s h tx e)

  pub send_required-Disciplined :
      (contract revert receipt : Fault → E) (tx : Tx)
      → Disciplined base (send_required w contract revert receipt tx)
  unfolding send_required ◌>>=◌ ask fetch_add
  send_required-Disciplined contract revert receipt tx = record {
    at = λ s h. settle_required-Settled contract revert receipt s h tx _;
  }
