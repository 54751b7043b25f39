-- ===== src/Submit/Searches.antt =====
-- A search that sends one transaction and stops.
use money_interoperability.Prelude.{◌≡◌, List, [], ◌∷◌, ◌++◌}
use money_interoperability.World.{World, Fault, Tx, SendReply, pending, reverted, failed}
use money_interoperability.Action.{Exit, State, continue, ◌>>=◌, pure, stop}
use money_interoperability.Action.Writes.{Write, writes, sent}
use money_interoperability.Action.Writes.Searches.{Searched, Searches, over, failed_at}
use money_interoperability.Submit.{send_mapping}
use money_interoperability.Submit.Writes.{Mapped, mapping_exit, send_mapping-Mapped}

module _ {E : Type 0} {P : List Write → Type 0} (w : World) (contract : Fault → E) (tx : Tx)
    (written : (r : SendReply) → P (sent tx r ∷ [])) where
  by_reply :
      (r : SendReply) (s t : State)
      → writes t.history ≡ sent tx r ∷ writes s.history
      → let (exit, t') = continue (mapping_exit contract r) (λ _. pure (stop tt)) t in
        (ws : List Write) × Searched P exit ws × (writes t'.history ≡ ws ++ writes s.history)
  by_reply (pending h) s t e = (_, over _ (written (pending h)), e)
  by_reply (reverted x) s t e = (_, over _ (written (reverted x)), e)
  by_reply (failed x) s t e = (_, failed_at _ (contract x) (written (failed x)), e)

  by-Mapped :
      (exit : Exit E (Unit {0})) (s t : State)
      → Mapped contract tx s exit t
      → let (exit', t') = continue exit (λ _. pure (stop tt)) t in
        (ws : List Write) × Searched P exit' ws × (writes t'.history ≡ ws ++ writes s.history)
  by-Mapped exit s t m = rw m.ended (by_reply m.reply s t m.wrote)

  pub send_mapping-Searches : Searches P (send_mapping w contract tx >>= λ _. pure (stop tt))
  unfolding ◌>>=◌
  send_mapping-Searches s = by-Mapped _ s _ (send_mapping-Mapped w contract tx s)
