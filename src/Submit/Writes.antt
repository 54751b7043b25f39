-- ===== src/Submit/Writes.antt =====
-- What the two ways of sending write, and how they end.
use money_interoperability.Prelude.{[], ◌≡◌, refl, List, ◌∷◌}
use money_interoperability.World.{
  World, Fault, Tx, SendReply, pending, reverted, failed, send, get_receipt,
}
use money_interoperability.Action.{Exit, done, fail, State, ◌>>=◌, ask, fetch_add, fetch_sub}
use money_interoperability.Action.Writes.{Write, writes, sent}
use money_interoperability.Action.Writes.Rules.{Within, or_raise-Silent}
use money_interoperability.Submit.{settle_mapping, send_mapping, settle_required, send_required}

module _ {E : Type 0} where
  -- A mapping call goes on unless the send itself fails.
  abbrev pub mapping_exit : (Fault → E) → SendReply → Exit E (Unit {0})
  mapping_exit contract (pending hash) = done tt
  mapping_exit contract (reverted e) = done tt
  mapping_exit contract (failed e) = fail (contract e)

  -- From `s` one transaction was written, and the call ended as its reply says.
  pub record Mapped (contract : Fault → E) (tx : Tx) (s : State) (exit : Exit E (Unit {0}))
      (s' : State) : Type 0 where
    pub reply : SendReply
    pub wrote : writes s'.history ≡ sent tx reply ∷ writes s.history
    pub ended : exit ≡ mapping_exit contract reply

module _ (w : World) {E : Type 0} (contract : Fault → E) (tx : Tx) where
  -- The state after the transaction of `tx` has been sent from `s`.
  abbrev pub sent_state : State → SendReply → State
  sent_state s r = record {
    relayer_nonce = (fetch_add {E = E} s).1.relayer_nonce;
    history = record { call = send tx s.relayer_nonce; reply = r } ∷ s.history;
  }

  settle_mapping-Mapped :
      (s : State) (r : SendReply)
      → let (exit, s') = settle_mapping w contract r (sent_state s r) in
        Mapped contract tx s exit s'
  unfolding settle_mapping ◌>>=◌ ask fetch_sub
  settle_mapping-Mapped s (pending hash) = record {
    reply = pending hash;
    wrote = refl;
    ended = refl;
  }
  settle_mapping-Mapped s (reverted e) = record { reply = reverted e; wrote = refl; ended = refl }
  settle_mapping-Mapped s (failed e) = record { reply = failed e; wrote = refl; ended = refl }

  pub send_mapping-Mapped :
      (s : State) → let (exit, s') = send_mapping w contract tx s in Mapped contract tx s exit s'
  unfolding send_mapping ◌>>=◌ ask fetch_add
  send_mapping-Mapped s = settle_mapping-Mapped s _

  -- The transaction, with some reply, is all that a call writes.
  pub data Just : List Write → Type 0 where
    just : (r : SendReply) → Just (sent tx r ∷ [])

  pub send_mapping-Within : Within Just (send_mapping w contract tx)
  send_mapping-Within = record {
    at = λ s. let m = send_mapping-Mapped s in (sent tx m.reply ∷ [], just m.reply, m.wrote);
  }

  module _ (revert receipt : Fault → E) where
    writes-settle_required :
        (s : State) (r : SendReply)
        → writes (settle_required w contract revert receipt r (sent_state s r)).1.history
          ≡ sent tx r ∷ writes s.history
    unfolding settle_required ◌>>=◌ ask
    writes-settle_required s (pending hash) =
        let asked : State = record {
          relayer_nonce = (sent_state s (pending hash)).relayer_nonce;
          history =
              record {
                call = get_receipt hash;
                reply = w.respond (sent_state s (pending hash)).history (get_receipt hash);
              }
              ∷ (sent_state s (pending hash)).history;
        } in
        (or_raise-Silent receipt
            (w.respond (sent_state s (pending hash)).history (get_receipt hash))).at
          asked
    writes-settle_required s (reverted e) = refl
    writes-settle_required s (failed e) = refl

    pub send_required-Within : Within Just (send_required w contract revert receipt tx)
    unfolding send_required ◌>>=◌ ask fetch_add
    send_required-Within = record { at = λ s. (_, just _, writes-settle_required s _) }
