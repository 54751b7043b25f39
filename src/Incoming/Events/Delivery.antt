-- ===== src/Incoming/Events/Delivery.antt =====
-- What the processing of one event writes: nothing, or the delivery of the event.
use money_interoperability.Prelude.{
  if◌then◌else◌, ◌++◌, ℕ, zero, suc, ◌≡◌, refl, false, Option, some, List, [], ◌==◌,
}
use money_interoperability.World.{
  client_custom, World, Hash, OmInteropLog, OmInteropEvents, om_interop_received, om_interop_sent,
  OmInteropReceived, OmInteropSent, link_refund_hashes,
}
use money_interoperability.Action.{pure, State, Exit}
use money_interoperability.Action.Writes.{Write, writes, paid}
use money_interoperability.Action.Writes.Rules.{
  if_cases-Within, some_or_bind-Within, or_raise-Silent, if-Silent, bind-Silent, Silent, Within,
  silent_rules, Silent-bind-Within, bind_Silent-Within, Within-Silent, if-Within, ask_bind-Within,
  pure-Silent,
}
use money_interoperability.Config.{Config}
use money_interoperability.Incoming.Error.{Error, onemoney}
use money_interoperability.Incoming.Events.{dispatch, process_event}
use money_interoperability.Incoming.Handlers.{
  Relayer1MoneyContext, new_context, account_nonce, poll_nonce, should_process_nonce,
  refund_payload,
}
use money_interoperability.Incoming.Handlers.Delivery.{
  Received, Delivered, handle-Received, handle_sent,
}

-- What an event with this transaction hash may write: nothing, the delivery of the deposit that it
-- announces, or the refund that it announces.
pub data Announced (w : World) (hash : Hash) : OmInteropEvents → List Write → Type 0 where
  nothing : {event : OmInteropEvents} → Announced w hash event []
  deposit :
      {inner : OmInteropReceived} {ws : List Write} (ctx : Relayer1MoneyContext)
      (exit : Exit Error (Option Hash))
      → Received w ctx inner hash exit ws
      → Announced w hash (om_interop_received inner) ws
  refund :
      {inner : OmInteropSent} {ws : List Write} (ctx : Relayer1MoneyContext)
      (exit : Exit Error (Option Hash))
      → Delivered (paid (refund_payload w ctx inner)) (link_refund_hashes inner.source_hash) exit ws
      → Announced w hash (om_interop_sent inner) ws

-- A log that is removed, or that lacks its position or its hash, writes nothing.
pub data Processed (w : World) (log : OmInteropLog) (ws : List Write) : Type 0 where
  skipped : ws ≡ [] → Processed w log ws
  handled :
      (block index hash : ℕ)
      → log.removed ≡ false
      → log.block_number ≡ some block
      → log.log_index ≡ some index
      → log.transaction_hash ≡ some hash
      → Announced w hash log.inner ws
      → Processed w log ws

module _ (w : World) where
  new_context-Silent : (config : Config) → Silent (new_context w config)
  unfolding new_context
  new_context-Silent config = search silent_rules

  account_nonce-Silent : (ctx : Relayer1MoneyContext) → Silent (account_nonce w ctx)
  unfolding account_nonce
  account_nonce-Silent ctx = search silent_rules

  poll_nonce-Silent :
      (rounds : ℕ) (ctx : Relayer1MoneyContext) (n : ℕ) → Silent (poll_nonce w rounds ctx n)
  unfolding poll_nonce
  poll_nonce-Silent zero ctx n = search silent_rules
  poll_nonce-Silent (suc rounds) ctx n =
      let later : Silent (poll_nonce w rounds ctx n) = poll_nonce-Silent rounds ctx n in
      bind-Silent _ _ (account_nonce-Silent ctx)
        (λ m. if-Silent (m == n) _ _ (search silent_rules) (search (silent_rules, later)))

  should_process_nonce-Silent :
      (rounds : ℕ) (ctx : Relayer1MoneyContext) (n : ℕ)
      → Silent (should_process_nonce w rounds ctx n)
  unfolding should_process_nonce
  should_process_nonce-Silent rounds ctx n =
      search (silent_rules, account_nonce-Silent, poll_nonce-Silent)

  dispatch-Within :
      (rounds : ℕ) (ctx : Relayer1MoneyContext) (hash : Hash) (event : OmInteropEvents)
      → Within (Announced w hash event) (dispatch w rounds ctx hash event)
  unfolding dispatch
  dispatch-Within rounds ctx hash (om_interop_received inner) =
      Silent-bind-Within _ _ (should_process_nonce-Silent rounds ctx inner.nonce) nothing (λ due.
        if-Within due _ _
          (bind_Silent-Within _ _
            (record {
              at = λ s.
                  let (ws, r, e) = handle-Received w ctx inner hash s in (ws, deposit ctx _ r, e);
            })
            (λ _. pure-Silent tt))
          (Within-Silent _ (pure-Silent tt) nothing))
  dispatch-Within rounds ctx hash (om_interop_sent inner) =
      Silent-bind-Within _ _ (should_process_nonce-Silent rounds ctx inner.nonce) nothing (λ due.
        if-Within due _ _
          (bind_Silent-Within _ _
            (record {
              at = λ s. let (ws, r, e) = handle_sent w ctx inner s in (ws, refund ctx _ r, e);
            })
            (λ _. pure-Silent tt))
          (Within-Silent _ (pure-Silent tt) nothing))
  dispatch-Within rounds ctx hash _ = Within-Silent _ (pure-Silent tt) nothing

  -- The end of `process_event`, once the log's position and hash are there.
  pub process_event-Within :
      (rounds : ℕ) (config : Config) (log : OmInteropLog)
      → Within (Processed w log) (process_event w rounds config log)
  unfolding process_event
  process_event-Within rounds config log =
      ask_bind-Within w client_custom _ (λ _. refl) (skipped refl)
        (λ client. Silent-bind-Within _ _ (or_raise-Silent onemoney client) (skipped refl) (λ _.
          Silent-bind-Within _ _ (new_context-Silent config) (skipped refl) (λ ctx.
            some_or_bind-Within _ log.block_number _ (skipped refl) (λ block eb.
              some_or_bind-Within _ log.log_index _ (skipped refl) (λ index ei.
                some_or_bind-Within _ log.transaction_hash _ (skipped refl)
                  (λ hash eh. located ctx block index hash eb ei eh))))))
    where
      located :
          (ctx : Relayer1MoneyContext) (block index hash : ℕ)
          → log.block_number ≡ some block
          → log.log_index ≡ some index
          → log.transaction_hash ≡ some hash
          → Within
              (Processed w log)
              (if log.removed then pure tt else dispatch w rounds ctx hash log.inner)
      located ctx block index hash eb ei eh =
          if_cases-Within log.removed _ _ (λ _. Within-Silent _ (pure-Silent tt) (skipped refl))
            (λ kept. record {
              at = λ s.
                  let (ws, a, e) = (dispatch-Within rounds ctx hash log.inner).at s in
                  (ws, handled block index hash kept eb ei eh a, e);
            })

-- From every state, `process_event` writes nothing, or, for a log that is not removed and that has its
-- block, its index and its transaction's hash, nothing or what the delivery of the deposit or the
-- refund that it announces writes.
pub process_event-writes :
    (w : World) (rounds : ℕ) (config : Config) (log : OmInteropLog) (s : State)
    → (ws : List Write) × Processed w log ws
      × (writes (process_event w rounds config log s).1.history ≡ ws ++ writes s.history)
process_event-writes w rounds config log s = (process_event-Within w rounds config log).at s
