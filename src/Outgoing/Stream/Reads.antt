-- ===== src/Outgoing/Stream/Reads.antt =====
-- What the relay of checkpoints reads of a checkpoint.
use money_interoperability.Prelude.{ℕ, ◌≡◌, refl, List, ◌∷◌, keep}
use money_interoperability.World.{
  World, History, Transaction, Reply, ok, err, CheckpointTransactions, full, hashes, OnemoneyError,
  get_checkpoint_by_number, client_custom,
}
use money_interoperability.Action.{
  Exit, done, fail, panic, waiting, State, Action, or_raise, ◌>>=◌, ask,
}
use money_interoperability.Action.Writes.{writes}
use money_interoperability.Action.Writes.Results.{
  Returns, returned, ended_by_error, ended_by_panic, not_ended, Yields,
}
use money_interoperability.Action.Writes.Rules.{Silent, silent_rules}
use money_interoperability.Onemoney.Error.{Error, failed_query}
use money_interoperability.Onemoney.Stream.{
  get_transactions_from_checkpoint, attempt, is_burn_and_bridge, full_transactions,
}

module _ (w : World) (n : ℕ) where
  -- The transactions are those of the checkpoint that burn and bridge, as 1Money has served it.
  pub record AreRead (txs : List Transaction) : Type 0 where
    pub before : History
    pub served : List Transaction
    pub reply : w.respond before (get_checkpoint_by_number n) ≡ ok (full served)
    pub burns : txs ≡ keep is_burn_and_bridge served

  read_reply :
      (h : History) (s : State) (reply : Reply OnemoneyError CheckpointTransactions)
      → w.respond h (get_checkpoint_by_number n) ≡ reply
      → Returns AreRead
          ((or_raise failed_query reply >>= λ checkpoint.
              or_raise (λ e. e) (full_transactions is_burn_and_bridge checkpoint))
            s).0
  unfolding ◌>>=◌
  read_reply h s (err e) at = ended_by_error _
  read_reply h s (ok (hashes _)) at = ended_by_error _
  read_reply h s (ok (full served)) at =
      returned _ (record { before = h; served = served; reply = at; burns = refl })

  read_by_client :
      (s : State) (client : Reply OnemoneyError (Unit {0}))
      → Returns AreRead
          ((or_raise failed_query client >>= λ _. ask w (get_checkpoint_by_number n) >>= λ reply.
              or_raise failed_query reply >>= λ checkpoint.
              or_raise (λ e. e) (full_transactions is_burn_and_bridge checkpoint))
            s).0
  unfolding ◌>>=◌ ask
  read_by_client s (err e) = ended_by_error _
  read_by_client s (ok _) = read_reply s.history _ _ refl

  get_transactions-Returns :
      (s : State) → Returns AreRead (get_transactions_from_checkpoint w n is_burn_and_bridge s).0
  unfolding get_transactions_from_checkpoint ◌>>=◌ ask
  get_transactions-Returns s =
      let reply = w.respond s.history client_custom in
      read_by_client
        (record s { history = record { call = client_custom; reply = reply } ∷ s.history }) reply

  get_transactions_from_checkpoint-Silent :
      Silent (get_transactions_from_checkpoint w n is_burn_and_bridge)
  unfolding get_transactions_from_checkpoint
  get_transactions_from_checkpoint-Silent = search silent_rules depth 8

  attempted-Silent :
      {E A : Type 0} (F : Type 0) (r : Exit E A) (s t : State)
      → writes s.history ≡ writes t.history
      → writes (attempt w {F = F} (λ _. (r, s)) t).1.history ≡ writes t.history
  unfolding attempt
  attempted-Silent F (done a) s t e = e
  attempted-Silent F (fail x) s t e = e
  attempted-Silent F panic s t e = e
  attempted-Silent F waiting s t e = e

  attempt-Silent : {E F A : Type 0} (m : Action E A) → Silent m → Silent (attempt w {F = F} m)
  unfolding attempt
  attempt-Silent {F = F} m quiet = record {
    at = λ s. attempted-Silent F (m s).0 (m s).1 s (quiet.at s);
  }

  -- The reply of an attempt: what was read, or an error.
  abbrev pub Attempted : Reply Error (List Transaction) → Type 0
  Attempted (ok txs) = AreRead txs
  Attempted (err e) = Unit

  Attempted-Returns :
      {F : Type 0} (r : Exit Error (List Transaction)) (t : State)
      → Returns AreRead r
      → Returns Attempted (attempt w {F = F} (λ _. (r, t)) t).0
  unfolding attempt
  Attempted-Returns r t (returned a q) = returned (ok a) q
  Attempted-Returns r t (ended_by_error e) = returned (err e) tt
  Attempted-Returns r t ended_by_panic = ended_by_panic
  Attempted-Returns r t not_ended = not_ended

  pub attempt-Yields :
      {F : Type 0}
      → Yields {E = F} Attempted
          (attempt w (get_transactions_from_checkpoint w n is_burn_and_bridge))
  unfolding attempt
  attempt-Yields = record {
    returns = λ s. Attempted-Returns _ _ (get_transactions-Returns s);
    silent = (attempt-Silent _ get_transactions_from_checkpoint-Silent).at;
  }
