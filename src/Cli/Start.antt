-- ===== src/Cli/Start.antt =====
-- The nonce of the relayer across a command: `run` starts it at the sidechain's count, and every
-- relay but that of validator sets keeps its discipline.
use money_interoperability.Prelude.{
  arith, true, Bool, false, subst, sym, ℕ, ◌<◌, ◌≡◌, refl, Option, none, some, String, List, [],
  u64_mod, ◌∷◌,
}
use money_interoperability.World.{World, Fault, Reply, ok, get_transaction_count}
use money_interoperability.Action.{or_raise, State, Exit, ◌>>=◌, ask, map_error}
use money_interoperability.Action.Nonces.{
  IsAligned, Disciplined, Settled, discipline, map_error-Disciplined,
}
use money_interoperability.Config.{relayer_nonce, Config, sidechain_relayer_nonce}
use money_interoperability.Onemoney.Types.{CertifiedTransaction}
use money_interoperability.Incoming.Nonces.{relay_incoming_events-Disciplined}
use money_interoperability.Incoming.Recovery.Nonces.{
  get_latest_incomplete_block_number-Disciplined, relay_incoming_events_from_blocks-Disciplined,
  recover_incomplete_deposit_hash_mapping-Disciplined,
}
use money_interoperability.Outgoing.Nonces.{
  relay_outgoing_events-Disciplined, relay_outgoing_events_from_checkpoints-Disciplined,
}
use money_interoperability.Outgoing.Recovery.Nonces.{
  get_earliest_incomplete_checkpoint_number-Disciplined,
  recover_incomplete_withdrawals_hash_mapping-Disciplined,
}
use money_interoperability.Cli.{
  Error, Commands, proof_of_authority_command, sidechain_command, onemoney_command, all_command,
  Relay, poa_events, incoming_events, incoming_events_from_blocks, outgoing_events,
  outgoing_events_from_checkpoints, Rounds, recover_deposits, recover_withdrawals, first_block,
  first_checkpoint, start, set_nonce, run, relay, config,
}

abbrev pub is_poa_events : Relay → Bool
is_poa_events (poa_events _) = true
is_poa_events _ = false

module _ {base : ℕ} (w : World) (rounds : Rounds) (conf : Config) where
  recover_deposits-Disciplined :
      (start : Option ℕ) → Disciplined base (recover_deposits w rounds conf start)
  unfolding recover_deposits
  recover_deposits-Disciplined start =
      map_error-Disciplined _ _ (recover_incomplete_deposit_hash_mapping-Disciplined w start)

  recover_withdrawals-Disciplined :
      (start block : Option ℕ) → Disciplined base (recover_withdrawals w rounds conf start block)
  unfolding recover_withdrawals
  recover_withdrawals-Disciplined start block =
      map_error-Disciplined _ _
        (recover_incomplete_withdrawals_hash_mapping-Disciplined w _ conf start block)

  first_block-Disciplined : (block : Option ℕ) → Disciplined base (first_block w rounds conf block)
  unfolding first_block
  first_block-Disciplined (some block) = search discipline
  first_block-Disciplined none =
      map_error-Disciplined _ _ (get_latest_incomplete_block_number-Disciplined w _ conf)

  first_checkpoint-Disciplined :
      (n : Option ℕ) → Disciplined base (first_checkpoint w rounds conf n)
  unfolding first_checkpoint
  first_checkpoint-Disciplined (some n) = search discipline
  first_checkpoint-Disciplined none =
      map_error-Disciplined _ _ (get_earliest_incomplete_checkpoint_number-Disciplined w)

  ruleset start_rules = (
    discipline, recover_deposits-Disciplined, recover_withdrawals-Disciplined,
    first_block-Disciplined, first_checkpoint-Disciplined,
  )

  start-Disciplined : (command : Commands) → Disciplined base (start w rounds conf command)
  unfolding start
  start-Disciplined (proof_of_authority_command _) = search discipline
  start-Disciplined (sidechain_command _ _ _) = search start_rules
  start-Disciplined (onemoney_command _ _ _ _) = search start_rules
  start-Disciplined (all_command _ _ _ _ _ _ _) = search start_rules depth 8

  -- Every relay but that of the validator sets.
  pub relay-Disciplined :
      (from_str : String → Option CertifiedTransaction) (r : Relay)
      → is_poa_events r ≡ false
      → Disciplined base (relay w rounds conf from_str r)
  unfolding relay
  relay-Disciplined from_str (poa_events poll) other = absurd (ground arith)
  relay-Disciplined from_str (incoming_events from) other =
      map_error-Disciplined _ _ (relay_incoming_events-Disciplined w _ _ _ conf from)
  relay-Disciplined from_str (incoming_events_from_blocks from _) other =
      map_error-Disciplined _ _ (relay_incoming_events_from_blocks-Disciplined w _ _ _ conf from)
  relay-Disciplined from_str outgoing_events other =
      map_error-Disciplined _ _ (relay_outgoing_events-Disciplined w from_str _)
  relay-Disciplined from_str (outgoing_events_from_checkpoints n _) other =
      map_error-Disciplined _ _ (relay_outgoing_events_from_checkpoints-Disciplined w _ n)

-- From a fresh state, where the node reports a count of `count` transactions: if the command reaches
-- its relays, the transactions accepted on the way carry the nonces from `count` on, and the shared
-- nonce is the next one; if it fails, the shared nonce is at most one ahead.
pub run_aligned :
    (w : World) (rounds : Rounds) (conf : Config) (command : Commands) (count : ℕ)
    → w.respond [] (get_transaction_count conf.relayer_private_key.address) ≡ ok count
    → count < u64_mod
    → let (r, s) = run w rounds conf command (record { relayer_nonce = 0; history = [] }) in
      Settled count r s
unfolding run sidechain_relayer_nonce set_nonce ◌>>=◌ ask map_error
run_aligned w rounds conf command count replied bounded =
    subst (λ r. Settled count (from_count r).0 (from_count r).1) (sym replied)
      ((start-Disciplined w rounds conf command).at _
        (record { bounded = bounded; consecutive = refl }))
  where
    -- The run from the reply to its first call on.
    from_count : Reply Fault ℕ → Exit Error (List Relay) × State
    from_count r =
        (map_error config (or_raise relayer_nonce r) >>= λ nonce.
        set_nonce w rounds conf nonce >>= λ _. start w rounds conf command)
          (record {
            relayer_nonce = 0;
            history =
                record { call = get_transaction_count conf.relayer_private_key.address; reply = r }
                ∷ [];
          })

-- A relay that runs alone, so that no other draws from the shared nonce meanwhile, and starts from an
-- aligned nonce ends or waits with an aligned one; if it fails, the nonce is at most one ahead. The
-- relay of validator sets is left out.
pub relay_settles :
    (base : ℕ) (w : World) (rounds : Rounds) (conf : Config)
    (from_str : String → Option CertifiedTransaction) (r : Relay) (s : State)
    → is_poa_events r ≡ false
    → IsAligned base s
    → Settled base (relay w rounds conf from_str r s).0 (relay w rounds conf from_str r s).1
relay_settles base w rounds conf from_str r s other aligned =
    (relay-Disciplined w rounds conf from_str r other).at s aligned
