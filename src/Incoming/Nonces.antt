-- ===== src/Incoming/Nonces.antt =====
-- The incoming relays keep the discipline of the shared nonce, on every path.
use money_interoperability.Prelude.{ℕ, zero, suc, ◌==◌, refl, none, some, Option}
use money_interoperability.World.{
  World, Hash, OnemoneyError, Reply, ok, err, OmInteropLog, OmInteropEvents, om_interop_received,
  om_interop_sent, OmInteropReceived, OmInteropSent, RpcLog, next_log,
}
use money_interoperability.Action.{Action}
use money_interoperability.Action.Nonces.{
  ask_bind-Disciplined, bind-Disciplined, if-Disciplined, Disciplined, discipline,
}
use money_interoperability.Submit.Discipline.{send_mapping-Disciplined}
use money_interoperability.Config.{Config}
use money_interoperability.Interop.Error.{InteropError}
use money_interoperability.Interop.Event.{
  live_step, emit_logged, emit_window, emit_live, live_loop, event_stream,
}
use money_interoperability.Incoming.Error.{Error}
use money_interoperability.Incoming.Events.{dispatch, process_event, relay_incoming_events}
use money_interoperability.Incoming.Handlers.{
  Relayer1MoneyContext, new_context, account_nonce, poll_nonce, should_process_nonce, unless_exists,
  handle_om_interop_received, handle_om_interop_sent,
}

ruleset rules = (discipline, send_mapping-Disciplined)

module _ {base : ℕ} (w : World) where
  new_context-Disciplined : (config : Config) → Disciplined base (new_context w config)
  unfolding new_context
  new_context-Disciplined config = search rules

  account_nonce-Disciplined : (ctx : Relayer1MoneyContext) → Disciplined base (account_nonce w ctx)
  unfolding account_nonce
  account_nonce-Disciplined ctx = search rules

  poll_nonce-Disciplined :
      (rounds : ℕ) (ctx : Relayer1MoneyContext) (n : ℕ)
      → Disciplined base (poll_nonce w rounds ctx n)
  unfolding poll_nonce
  poll_nonce-Disciplined zero ctx n = search rules
  poll_nonce-Disciplined (suc rounds) ctx n =
      let later : Disciplined base (poll_nonce w rounds ctx n) =
        poll_nonce-Disciplined rounds ctx n in
      bind-Disciplined _ _ (account_nonce-Disciplined ctx)
        (λ r. if-Disciplined (r == n) _ _ (search rules) (search (rules, later)))

  should_process_nonce-Disciplined :
      (rounds : ℕ) (ctx : Relayer1MoneyContext) (n : ℕ)
      → Disciplined base (should_process_nonce w rounds ctx n)
  unfolding should_process_nonce
  should_process_nonce-Disciplined rounds ctx n =
      search (rules, account_nonce-Disciplined, poll_nonce-Disciplined)

  unless_exists-Disciplined :
      (r : Reply OnemoneyError Hash) (next : Hash → Action Error (Option Hash))
      → ((hash : Hash) → Disciplined base (next hash))
      → Disciplined base (unless_exists w r next)
  unfolding unless_exists
  unless_exists-Disciplined (ok hash) next kn = kn hash
  unless_exists-Disciplined (err e) next kn = search rules

  handle_om_interop_received-Disciplined :
      (ctx : Relayer1MoneyContext) (event : OmInteropReceived) (hash : Hash)
      → Disciplined base (handle_om_interop_received w ctx event hash)
  unfolding handle_om_interop_received
  handle_om_interop_received-Disciplined ctx event hash = search (rules, unless_exists-Disciplined)

  handle_om_interop_sent-Disciplined :
      (ctx : Relayer1MoneyContext) (event : OmInteropSent)
      → Disciplined base (handle_om_interop_sent w ctx event)
  unfolding handle_om_interop_sent
  handle_om_interop_sent-Disciplined ctx event = search (rules, unless_exists-Disciplined)

  dispatch-Disciplined :
      (rounds : ℕ) (ctx : Relayer1MoneyContext) (hash : Hash) (event : OmInteropEvents)
      → Disciplined base (dispatch w rounds ctx hash event)
  unfolding dispatch
  dispatch-Disciplined rounds ctx hash (om_interop_received inner) =
      search (rules, should_process_nonce-Disciplined, handle_om_interop_received-Disciplined)
  dispatch-Disciplined rounds ctx hash (om_interop_sent inner) =
      search (rules, should_process_nonce-Disciplined, handle_om_interop_sent-Disciplined)
  dispatch-Disciplined rounds ctx hash _ = search rules

  pub process_event-Disciplined :
      (rounds : ℕ) (config : Config) (event : OmInteropLog)
      → Disciplined base (process_event w rounds config event)
  unfolding process_event
  process_event-Disciplined rounds config event =
      search (rules, new_context-Disciplined, dispatch-Disciplined) depth 12

module _ {base : ℕ} (w : World) {E : Type 0} (from : InteropError → E)
    (consume : OmInteropLog → Action E (Unit {0}))
    (kc : (log : OmInteropLog) → Disciplined base (consume log)) where
  emit_logged-Disciplined :
      (log : OmInteropLog) (last : Option (ℕ × ℕ))
      → Disciplined base (emit_logged w from consume log last)
  unfolding emit_logged
  emit_logged-Disciplined log last = search (rules, kc)

  emit_window-Disciplined :
      (contract start end : ℕ) (last : Option (ℕ × ℕ))
      → Disciplined base (emit_window w from consume contract start end last)
  unfolding emit_window
  emit_window-Disciplined contract start end last = search (rules, emit_logged-Disciplined) depth 8

  emit_live-Disciplined :
      (log : OmInteropLog) (last : Option (ℕ × ℕ))
      → Disciplined base (emit_live w from consume log last)
  unfolding emit_live
  emit_live-Disciplined log last = search (rules, kc)

  live_step-Disciplined :
      (log : Option RpcLog) (last : Option (ℕ × ℕ)) (rest : Option (ℕ × ℕ) → Action E (Unit {0}))
      → ((p : Option (ℕ × ℕ)) → Disciplined base (rest p))
      → Disciplined base (live_step w from consume log last rest)
  unfolding live_step
  live_step-Disciplined none last rest kr = search rules
  live_step-Disciplined (some log) last rest kr = search (rules, emit_live-Disciplined, kr)

  live_loop-Disciplined :
      (rounds : ℕ) (last : Option (ℕ × ℕ)) → Disciplined base (live_loop w from consume rounds last)
  unfolding live_loop
  live_loop-Disciplined zero last = search rules
  live_loop-Disciplined (suc rounds) last =
      ask_bind-Disciplined w next_log _ (λ _. refl)
        (λ log. live_step-Disciplined log last _ (live_loop-Disciplined rounds))

  pub event_stream-Disciplined :
      (fuel rounds contract from_block : ℕ)
      → Disciplined base (event_stream w from consume fuel rounds contract from_block)
  unfolding event_stream
  event_stream-Disciplined fuel rounds contract from_block =
      search (rules, emit_window-Disciplined, live_loop-Disciplined) depth 15

module _ {base : ℕ} (w : World) where
  pub relay_incoming_events-Disciplined :
      (fuel events rounds : ℕ) (config : Config) (from_block : ℕ)
      → Disciplined base (relay_incoming_events w fuel events rounds config from_block)
  unfolding relay_incoming_events
  relay_incoming_events-Disciplined fuel events rounds config from_block =
      event_stream-Disciplined w _ _ (process_event-Disciplined w rounds config) fuel events _
        from_block
