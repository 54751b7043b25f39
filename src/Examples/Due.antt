-- ===== src/Examples/Due.antt =====
-- The polling for an event's nonce on the example 1Money node.
use money_interoperability.Prelude.{◌+◌, ◌<◌, ◌++◌, length, ap, refl, [], ◌∷◌, ℕ, arith, ◌≡◌}
use money_interoperability.World.{
  Exchange, client_custom, fetch_chain_id, ok, get_account_nonce, Response, Call, World, History,
}
use money_interoperability.Action.{waiting, State}
use money_interoperability.Incoming.Events.Due.{context}
use money_interoperability.Incoming.Handlers.{should_process_nonce}
use money_interoperability.Incoming.Handlers.Due.{
  should_process_nonce_waits, Overtaken, should_process_nonce-Verdict, Verdict,
}
use money_interoperability.Examples.{respond, crates, world, config, fresh}

should_process_nonce-Verdict_example :
    let (exit, s') = should_process_nonce world 3 (context config 1) 7 fresh in
    Verdict world (context config 1) 7 exit s'
should_process_nonce-Verdict_example =
    should_process_nonce-Verdict world (context config 1) 7 3 fresh

-- The context of the relay has been made, from a client and the chain id.
abbrev begun : State
begun = record fresh {
  history =
      record { call = fetch_chain_id; reply = ok 1 }
      ∷ record { call = client_custom; reply = ok tt }
      ∷ [];
}

-- 1Money's nonce is 5 up to then, and rises by one with each exchange that follows, from 8 on.
abbrev count : History → ℕ
count (_ ∷ _ ∷ _ ∷ h) = 8 + length h
count _ = 5

abbrev overtaken_respond : History → (c : Call) → Response c
overtaken_respond h (get_account_nonce _) = ok (count h)
overtaken_respond h c = respond h c

abbrev overtaken_world : World
overtaken_world = record { crates = crates; respond = overtaken_respond }

counted : (e : Exchange) (es : History) → (m : ℕ) × (7 < m) × (count (e ∷ es ++ begun.history) ≡ m)
counted e [] = (8, omega arith, refl)
counted e (x ∷ []) = (9, omega arith, refl)
counted e (x ∷ y ∷ es) = (8 + length (es ++ begun.history), omega arith, refl)

overtaken_world-Overtaken : Overtaken overtaken_world (context config 1) 7 begun.history
overtaken_world-Overtaken = record {
  answered = λ e es. let (m, past, at) = counted e es in (m, past, ap (λ (k : ℕ). ok k) at);
}

should_process_nonce_waits_example :
    (should_process_nonce overtaken_world 30 (context config 1) 7 begun).0 ≡ waiting
should_process_nonce_waits_example =
    should_process_nonce_waits overtaken_world (context config 1) 7 5 30 begun refl (omega arith)
      overtaken_world-Overtaken
