-- ===== src/Incoming/Recovery/Deposits.antt =====
-- The recovery of the deposits that the mapping contract lists as incomplete.
use money_interoperability.Prelude.{ℕ, ◌≡◌, refl, Option, List, ◌++◌, ltb, if◌then◌else◌}
use money_interoperability.World.{
  World, Hash, ok, incomplete_deposits, client_custom, get_checkpoint_number,
}
use money_interoperability.Action.{State, Action, ◌>>=◌, ◌>>◌, ask, pure, or_raise, for_each}
use money_interoperability.Action.Writes.{Write, writes}
use money_interoperability.Action.Writes.Rules.{
  Within, ask_bind-Within, Silent-bind-Within, if-Within, Within-Silent, pure-Silent,
  or_raise-Silent,
}
use money_interoperability.Incoming.Error.{Error, onemoney}
use money_interoperability.Incoming.Recovery.{
  or_zero, recover_deposit, recover_incomplete_deposit_hash_mapping,
}
use money_interoperability.Incoming.Recovery.Links.{Links, none_left, recover_deposits-Within}

module _ (w : World) (start : ℕ) (hs : List Hash) where
  -- The recovery once the incomplete deposits are known.
  abbrev recover_listed : Action Error (Unit {0})
  recover_listed = do
    client ← ask w client_custom
    or_raise onemoney client
    number ← ask w get_checkpoint_number
    last_checkpoint ← or_raise onemoney number
    if ltb last_checkpoint start
        then pure tt
        else for_each hs (recover_deposit w start last_checkpoint)

  recover_listed-Within : Within (Links w hs) recover_listed
  recover_listed-Within =
      ask_bind-Within w client_custom _ (λ _. refl) (none_left hs)
        (λ client. Silent-bind-Within _ _ (or_raise-Silent onemoney client) (none_left hs) (λ _.
          ask_bind-Within w get_checkpoint_number _ (λ _. refl) (none_left hs)
            (λ number.
              Silent-bind-Within _ _ (or_raise-Silent onemoney number) (none_left hs) (λ last.
                if-Within (ltb last start) _ _ (Within-Silent _ (pure-Silent tt) (none_left hs))
                  (recover_deposits-Within w start last hs)))))

pub recover_incomplete_deposit_hash_mapping-writes :
    (w : World) (start_checkpoint : Option ℕ) (hs : List Hash) (s : State)
    → w.respond s.history incomplete_deposits ≡ ok hs
    → (ws : List Write) × Links w hs ws
      × (writes (recover_incomplete_deposit_hash_mapping w start_checkpoint s).1.history
          ≡ ws ++ writes s.history)
unfolding recover_incomplete_deposit_hash_mapping ◌>>=◌ ask
recover_incomplete_deposit_hash_mapping-writes w start_checkpoint hs s listed =
    rw listed ((recover_listed-Within w (or_zero w start_checkpoint) hs).at _)
