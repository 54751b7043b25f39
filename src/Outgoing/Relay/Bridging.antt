-- ===== src/Outgoing/Relay/Bridging.antt =====
-- What the relay of one burn-and-bridge transaction writes.
use money_interoperability.Prelude.{
  true, false, Bool, ltb, ℕ, ◌≡◌, refl, Option, some, none, String, List, [], ◌∷◌, ◌++◌,
  wrapping_sub,
}
use money_interoperability.World.{
  get_latest_processed_nonce, get_transaction_receipt_by_hash, token_bridge_and_mint,
  token_transfer, other_payload, client_custom, World, Address, Hash, BridgeTo, TxPayload,
  token_burn_and_bridge, SendReply, register_withdrawal, bridge_to, link_withdrawal_hashes,
  OmReceipt, SuccessInfo,
}
use money_interoperability.Action.{raise, or_raise, ask, State, ◌>>=◌}
use money_interoperability.Action.Writes.{Write, writes, sent}
use money_interoperability.Action.Writes.Endings.{
  Traced, Traced-Within, Within-Traced, raise-Traced, bind-Traced, Silent-bind-Traced,
  ask_bind-Traced,
}
use money_interoperability.Action.Writes.Results.{
  pure-Yields, some_or_bind-Yields, Yields-bind-Within, Yields,
}
use money_interoperability.Action.Writes.Rules.{
  or_raise-Silent, bind-Silent, raise-Silent, Silent, Within, silent_rules, Silent-bind-Within,
  bind-Within, Within-Silent, if-Within, ask_bind-Within, pure-Silent,
}
use money_interoperability.Submit.Writes.{Just, just, send_mapping-Within, send_required-Within}
use money_interoperability.Outgoing.Error.{
  Error, onemoney, generic, contract_call, contract_reverted, pending_transaction,
}
use money_interoperability.Outgoing.Relay.{
  info_of_success, bbnonce_of_receipt, bridge_to_args, bridge_and_link,
  process_burn_and_bridge_transactions, try_into_u32,
}

module _ (w : World) (payload : TxPayload) (hash : Hash) (checkpoint : ℕ) where
  -- The arguments of `bridgeTo` are those of the burn: its fields, with the texts parsed.
  pub data Carries (args : BridgeTo) : Type 0 where
    carries :
        (value : String) (chain : ℕ) (destination fee : String) (metadata : Option String)
        → payload
          ≡ token_burn_and_bridge value args.from chain destination fee metadata args.om_token
        → w.parse_address destination ≡ some args.to
        → w.parse_u256 value ≡ some args.amount
        → try_into_u32 chain ≡ some args.dst_chain_id
        → w.parse_u256 fee ≡ some args.escrow_fee
        → args.checkpoint_id ≡ checkpoint
        → args.bridge_data ≡ []
        → args.source_hash ≡ hash
        → Carries args

  -- What the relay may write: nothing, the registration of the burn, then one `bridgeTo` for it, then
  -- one link.
  pub data Bridged : List Write → Type 0 where
    unregistered : Bridged []
    registered : (r : SendReply) → Bridged (sent (register_withdrawal hash) r ∷ [])
    bridged :
        (r₁ r₂ : SendReply) (args : BridgeTo)
        → Carries args
        → Bridged (sent (bridge_to args) r₂ ∷ sent (register_withdrawal hash) r₁ ∷ [])
    linked :
        (r₁ r₂ r₃ : SendReply) (args : BridgeTo) (bridge_to_hash : Hash)
        → Carries args
        → Bridged (
            sent (link_withdrawal_hashes hash bridge_to_hash) r₃
            ∷ sent (bridge_to args) r₂
            ∷ sent (register_withdrawal hash) r₁
            ∷ [])

  -- The part after the registration.
  data Continued : List Write → Type 0 where
    stopped : Continued []
    called :
        (r : SendReply) (args : BridgeTo) → Carries args → Continued (sent (bridge_to args) r ∷ [])
    finished :
        (r₂ r₃ : SendReply) (args : BridgeTo) (bridge_to_hash : Hash)
        → Carries args
        → Continued
            (sent (link_withdrawal_hashes hash bridge_to_hash) r₃ ∷ sent (bridge_to args) r₂ ∷ [])

  data Linked : List Write → Type 0 where
    link : (r : SendReply) (h : Hash) → Linked (sent (link_withdrawal_hashes hash h) r ∷ [])

  Bridged-registered :
      (ws : List Write) → Just w contract_call (register_withdrawal hash) ws → Bridged ws
  Bridged-registered _ (just r) = registered r

  Bridged-joined :
      (ws vs : List Write)
      → Just w contract_call (register_withdrawal hash) ws
      → Continued vs
      → Bridged (vs ++ ws)
  Bridged-joined _ _ (just r) stopped = registered r
  Bridged-joined _ _ (just r) (called r₂ args c) = bridged r r₂ args c
  Bridged-joined _ _ (just r) (finished r₂ r₃ args h c) = linked r r₂ r₃ args h c

  bridge_and_link-Within :
      (args : BridgeTo) → Carries args → Within Continued (bridge_and_link w hash args)
  unfolding bridge_and_link
  bridge_and_link-Within args c =
      bind-Within {R = Linked} only_called with_link _ _
        (send_required-Within w contract_call (bridge_to args) contract_reverted
          pending_transaction)
        (λ h. record {
          at = λ s.
              let (ws, j, e) =
                (send_mapping-Within w contract_call (link_withdrawal_hashes hash h)).at s in
              (ws, linked_by h ws j, e);
        })
    where
      only_called : (ws : List Write) → Just w contract_call (bridge_to args) ws → Continued ws
      only_called _ (just r) = called r args c

      with_link :
          (ws vs : List Write)
          → Just w contract_call (bridge_to args) ws
          → Linked vs
          → Continued (vs ++ ws)
      with_link _ _ (just r) (link r₃ h) = finished r r₃ args h c

      linked_by :
          (h : Hash) (ws : List Write)
          → Just w contract_call (link_withdrawal_hashes hash h) ws
          → Linked ws
      linked_by h _ (just r) = link r h

  bridge_to_args-Yields :
      (value : String) (sender : Address) (chain : ℕ) (destination fee : String)
      (metadata : Option String) (token : Address) (bbnonce : ℕ)
      → payload ≡ token_burn_and_bridge value sender chain destination fee metadata token
      → Yields Carries
          (bridge_to_args w sender bbnonce destination value chain fee token checkpoint hash)
  unfolding bridge_to_args
  bridge_to_args-Yields value sender chain destination fee metadata token bbnonce e =
      some_or_bind-Yields _ _ _ (λ to e₁. some_or_bind-Yields _ _ _ (λ amount e₂.
        some_or_bind-Yields _ _ _ (λ dst e₃. some_or_bind-Yields _ _ _ (λ escrow e₄.
          pure-Yields _
            (carries value chain destination fee metadata e e₁ e₂ e₃ e₄ refl refl refl)))))

  bridge_new_burn-Within :
      (value : String) (sender : Address) (chain : ℕ) (destination fee : String)
      (metadata : Option String) (token : Address) (bbnonce : ℕ)
      → payload ≡ token_burn_and_bridge value sender chain destination fee metadata token
      → Within Continued (
          bridge_to_args w sender bbnonce destination value chain fee token checkpoint hash
          >>= λ args. bridge_and_link w hash args)
  bridge_new_burn-Within value sender chain destination fee metadata token bbnonce e =
      Yields-bind-Within _ _
        (bridge_to_args-Yields value sender chain destination fee metadata token bbnonce e) stopped
        bridge_and_link-Within

pub info_of_success-Silent :
    (w : World) (info : Option SuccessInfo) → Silent (info_of_success w info)
info_of_success-Silent w none = raise-Silent generic
info_of_success-Silent w (some info) = search silent_rules

pub bbnonce_of_receipt-Silent :
    (w : World) (receipt : OmReceipt) → Silent (bbnonce_of_receipt w receipt)
unfolding bbnonce_of_receipt
bbnonce_of_receipt-Silent w receipt =
    bind-Silent _ _ (info_of_success-Silent w receipt.success_info)
      (λ next. pure-Silent (wrapping_sub next 1))

module _ (w : World) where
  -- What a relay that returns, or one that stops, writes for a burn: one that returns has registered it.
  pub data Burned (payload : TxPayload) (hash : Hash) (checkpoint : ℕ)
      : Bool → List Write → Type 0 where
    stops :
        (ws : List Write)
        → Bridged w payload hash checkpoint ws
        → Burned payload hash checkpoint false ws
    returned :
        (r : SendReply) (vs : List Write)
        → Bridged w payload hash checkpoint (vs ++ sent (register_withdrawal hash) r ∷ [])
        → Burned payload hash checkpoint true (vs ++ sent (register_withdrawal hash) r ∷ [])

  module _ (payload : TxPayload) (hash : Hash) (checkpoint : ℕ) where
    Burned-Bridged :
        (b : Bool) (ws : List Write)
        → Burned payload hash checkpoint b ws
        → Bridged w payload hash checkpoint ws
    Burned-Bridged _ ws (stops _ p) = p
    Burned-Bridged _ _ (returned r vs p) = p

    Burned-joined :
        (b : Bool) (ws vs : List Write)
        → Just w contract_call (register_withdrawal hash) ws
        → Continued w payload hash checkpoint vs
        → Burned payload hash checkpoint b (vs ++ ws)
    Burned-joined true _ vs (just r) c =
        returned r vs (Bridged-joined w payload hash checkpoint _ vs (just r) c)
    Burned-joined false _ vs (just r) c =
        stops _ (Bridged-joined w payload hash checkpoint _ vs (just r) c)

  -- A transaction of another kind is an error, after the client is made.
  refused :
      {payload : TxPayload} {hash : Hash} {checkpoint : ℕ}
      → Traced {E = Error} {A = Unit {0}}
          (Burned payload hash checkpoint)
          (ask w client_custom >>= λ client. or_raise onemoney client >>= λ _. raise generic)
  refused =
      ask_bind-Traced w client_custom _ (λ r. refl) (stops [] unregistered)
        (λ client.
          Silent-bind-Traced _ _ (or_raise-Silent onemoney client) (stops [] unregistered)
            (λ ready. raise-Traced generic (stops [] unregistered)))

  pub process_burn_and_bridge-Traced :
      (payload : TxPayload) (hash : Hash) (checkpoint : ℕ)
      → Traced
          (Burned payload hash checkpoint)
          (process_burn_and_bridge_transactions w payload hash checkpoint)
  unfolding process_burn_and_bridge_transactions
  process_burn_and_bridge-Traced
        (token_burn_and_bridge value sender chain destination fee metadata token) hash checkpoint =
      let burn = token_burn_and_bridge value sender chain destination fee metadata token in
      ask_bind-Traced w client_custom _ (λ r. refl) (stops [] unregistered)
        (λ client.
          Silent-bind-Traced _ _ (or_raise-Silent onemoney client) (stops [] unregistered) (λ ready.
            bind-Traced (Burned burn hash checkpoint)
              (λ _. Just w contract_call (register_withdrawal hash))
              (λ _. Continued w burn hash checkpoint)
              (λ ws j. stops ws (Bridged-registered w burn hash checkpoint ws j))
              (Burned-joined burn hash checkpoint) _ _
              (Traced-Within _ (send_mapping-Within w contract_call (register_withdrawal hash)))
              (λ done. Traced-Within _ (
                ask_bind-Within w (get_transaction_receipt_by_hash hash) _ (λ r. refl) stopped
                  (λ receipt.
                    Silent-bind-Within _ _ (or_raise-Silent onemoney receipt) stopped (λ r.
                      Silent-bind-Within _ _ (bbnonce_of_receipt-Silent w r) stopped (λ bbnonce.
                        ask_bind-Within w (get_latest_processed_nonce sender) _ (λ r. refl) stopped
                          (λ processed.
                            Silent-bind-Within _ _ (or_raise-Silent contract_call processed) stopped
                              (λ latest.
                                if-Within (ltb bbnonce latest) _ _
                                  (Within-Silent _ (pure-Silent tt) stopped)
                                  (bridge_new_burn-Within w burn hash checkpoint value sender chain
                                    destination fee metadata token bbnonce refl))))))))))
  process_burn_and_bridge-Traced (token_bridge_and_mint recipient value token) hash checkpoint =
      refused
  process_burn_and_bridge-Traced (token_transfer value recipient token) hash checkpoint = refused
  process_burn_and_bridge-Traced (other_payload n) hash checkpoint = refused

  pub process_burn_and_bridge-Within :
      (payload : TxPayload) (hash : Hash) (checkpoint : ℕ)
      → Within
          (Bridged w payload hash checkpoint)
          (process_burn_and_bridge_transactions w payload hash checkpoint)
  process_burn_and_bridge-Within payload hash checkpoint =
      Within-Traced _ (Burned-Bridged payload hash checkpoint)
        (process_burn_and_bridge-Traced payload hash checkpoint)

  -- From every state, the relay of one transaction writes nothing, or the registration of its hash,
  -- then at most one `bridgeTo`, whose arguments other than the nonce are the burn's fields with their
  -- texts parsed, the checkpoint and the hash, and after it at most one link of the hash.
  pub process_burn_and_bridge-writes :
      (payload : TxPayload) (hash : Hash) (checkpoint : ℕ) (s : State)
      → (ws : List Write) × Bridged w payload hash checkpoint ws
        × (writes (process_burn_and_bridge_transactions w payload hash checkpoint s).1.history
            ≡ ws ++ writes s.history)
  process_burn_and_bridge-writes payload hash checkpoint s =
      (process_burn_and_bridge-Within payload hash checkpoint).at s
