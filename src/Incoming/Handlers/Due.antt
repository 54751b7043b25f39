-- ===== src/Incoming/Handlers/Due.antt =====
-- When an event is due: `should_process_nonce` answers by the last nonce that it has seen.
use money_interoperability.Prelude.{
  [], ◌++◌, ap, ge→ltb, lt→ltb, ℕ, zero, suc, ◌<◌, ◌≡◌, refl, Bool, true, false, Bool-cases, ◌∷◌,
  ltb, ◌==◌, arith, tests, ltb→lt, if◌then◌else◌, inl, inr, ==_iff,
}
use money_interoperability.World.{
  World, History, Exchange, Reply, ok, err, OnemoneyError, get_account_nonce, sleep,
}
use money_interoperability.Action.{
  pure, Exit, done, fail, panic, waiting, State, Action, ◌>>=◌, ask, or_raise,
}
use money_interoperability.Incoming.Error.{Error, onemoney}
use money_interoperability.Incoming.Handlers.{
  Relayer1MoneyContext, account_nonce, poll_nonce, should_process_nonce,
}

module _ (w : World) (ctx : Relayer1MoneyContext) (n : ℕ) where
  abbrev asked : Reply OnemoneyError ℕ → Exchange
  asked r = record { call = get_account_nonce ctx.relayer_address; reply = r }

  -- The newest exchange of the history is the relayer's nonce on 1Money, with this reply.
  abbrev pub LastSeen : Reply OnemoneyError ℕ → History → Type 0
  LastSeen r h = (before : History) × (h ≡ asked r ∷ before)

  -- The event is handled if the last nonce seen is its own, and skipped if that is higher; an error
  -- is that of the query.
  abbrev pub Verdict : Exit Error Bool → State → Type 0
  Verdict (done true) s = LastSeen (ok n) s.history
  Verdict (done false) s = (m : ℕ) × (n < m) × LastSeen (ok m) s.history
  Verdict (fail e) s = (x : OnemoneyError) × (e ≡ onemoney x) × LastSeen (err x) s.history
  Verdict panic s = ⊥
  Verdict waiting s = Unit

  -- The state after the nonce has been asked from `s`, and answered with `r`.
  abbrev seen_state : State → Reply OnemoneyError ℕ → State
  seen_state s r = record s { history = asked r ∷ s.history }

  abbrev HasVerdict : Exit Error Bool × State → Type 0
  HasVerdict (exit, s) = Verdict exit s

  -- A round of the polling, from the reply on.
  poll_step_verdict :
      (rest : Action Error Bool)
      → ((t : State) → HasVerdict (rest t))
      → (r : Reply OnemoneyError ℕ) (s : State)
      → HasVerdict
          ((or_raise onemoney r >>= λ m. if m == n then pure true else rest) (seen_state s r))
  unfolding ◌>>=◌
  poll_step_verdict rest kr (err x) s = (x, refl, (s.history, refl))
  poll_step_verdict rest kr (ok m) s = elim (Bool-cases (m == n)) [
    | inl same ↦ rw same (s.history, ap (λ (k : ℕ). asked (ok k) ∷ s.history) ((==_iff m n).0 same))
    | inr other ↦ rw other (kr (seen_state s (ok m)))
  ]

  poll_nonce_verdict : (rounds : ℕ) (s : State) → HasVerdict (poll_nonce w rounds ctx n s)
  unfolding poll_nonce account_nonce ◌>>=◌ ask
  poll_nonce_verdict zero s = tt
  poll_nonce_verdict (suc rounds) s =
      poll_step_verdict (ask w sleep >>= λ _. poll_nonce w rounds ctx n)
        (λ t. poll_nonce_verdict rounds _) _ s

  -- The first query, from the reply on.
  due_step_verdict :
      (rounds : ℕ) (r : Reply OnemoneyError ℕ) (s : State)
      → HasVerdict (
          (or_raise onemoney r >>= λ m.
          if ltb n m then pure false else if ltb m n then poll_nonce w rounds ctx n else pure true)
            (seen_state s r))
  unfolding ◌>>=◌
  due_step_verdict rounds (err x) s = (x, refl, (s.history, refl))
  due_step_verdict rounds (ok m) s = elim (Bool-cases (ltb n m)) [
    | inl past ↦ rw past (m, ltb→lt n m past, (s.history, refl))
    | inr not_past ↦ rw not_past (elim (Bool-cases (ltb m n)) [
      | inl early ↦ rw early (poll_nonce_verdict rounds _)
      | inr level ↦
          let same : m ≡ n = omega tests in
          rw level (s.history, ap (λ (k : ℕ). asked (ok k) ∷ s.history) same)
    ])
  ]

  -- Whatever 1Money answers, if `should_process_nonce` returns, its last exchange was the relayer's
  -- nonce on 1Money: true if that was the event's nonce, false if it was higher, and the error of the
  -- query if that failed; it never panics.
  pub should_process_nonce-Verdict :
      (rounds : ℕ) (s : State)
      → let (exit, s') = should_process_nonce w rounds ctx n s in Verdict exit s'
  unfolding should_process_nonce account_nonce ◌>>=◌ ask
  should_process_nonce-Verdict rounds s = due_step_verdict rounds _ s

  -- Whenever 1Money is asked for the nonce after `start`, it is past the event's; it may rise further.
  pub record Overtaken (start : History) : Type 0 where
    pub answered :
        (e : Exchange) (es : History)
        → (m : ℕ) × (n < m)
          × (w.respond (e ∷ es ++ start) (get_account_nonce ctx.relayer_address) ≡ ok m)

  poll_nonce_waits :
      (start : History)
      → Overtaken start
      → (rounds : ℕ) (e : Exchange) (es : History) (k : ℕ)
      → (poll_nonce w rounds ctx n (record { relayer_nonce = k; history = e ∷ es ++ start })).0
        ≡ waiting
  unfolding poll_nonce account_nonce ◌>>=◌ ask
  poll_nonce_waits start o zero e es k = refl
  poll_nonce_waits start o (suc rounds) e es k =
      let (m, past, reply) = o.answered e es in
      let other : (m == n) ≡ false = ground (arith, past) in
      rw (reply, other) (poll_nonce_waits start o rounds _ (_ ∷ e ∷ es) k)

  -- If 1Money's nonce is below the event's at the first query of a call, and above it at every query
  -- after that one, then the call is still waiting after any number of rounds.
  pub should_process_nonce_waits :
      (first rounds : ℕ) (s : State)
      → w.respond s.history (get_account_nonce ctx.relayer_address) ≡ ok first
      → first < n
      → Overtaken s.history
      → (should_process_nonce w rounds ctx n s).0 ≡ waiting
  unfolding should_process_nonce account_nonce ◌>>=◌ ask
  should_process_nonce_waits first rounds s seen early o =
      let early' : ltb first n ≡ true = lt→ltb first n early in
      let late : ltb n first ≡ false = ge→ltb n first (omega (arith, early)) in
      rw (seen, late, early') (poll_nonce_waits s.history o rounds _ [] s.relayer_nonce)
