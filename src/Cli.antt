-- ===== src/Cli.antt =====
-- code/crates/relayer/src/cli.rs: the commands of the relayer. A command first fixes the shared
-- nonce, completes the hash mappings and finds where to start, then runs its relays concurrently on
-- that nonce; the model gives the relays to run, and `relay` is what each of them does. Durations
-- are milliseconds.
pub mod Start
use money_interoperability.Prelude.{ℕ, Option, none, some, String, List, [], ◌∷◌}
use money_interoperability.World.{World}
use money_interoperability.Action.{State, Exit, Action, pure, ◌>>=◌, ◌>>◌, map_error, done}
use money_interoperability.Config as ConfigErrors
use money_interoperability.Config.{Config, sidechain_relayer_nonce}
use money_interoperability.Onemoney.Error as OnemoneyErrors
use money_interoperability.Onemoney.Types.{CertifiedTransaction}
use money_interoperability.Incoming.Error as IncomingErrors
use money_interoperability.Incoming.Events.{relay_incoming_events}
use money_interoperability.Incoming.Recovery.{
  get_latest_incomplete_block_number, recover_incomplete_deposit_hash_mapping,
  relay_incoming_events_from_blocks,
}
use money_interoperability.Outgoing.Error as OutgoingErrors
use money_interoperability.Outgoing.Recovery.{
  get_earliest_incomplete_checkpoint_number, recover_incomplete_withdrawals_hash_mapping,
}
use money_interoperability.Outgoing.Stream.{
  relay_outgoing_events, relay_outgoing_events_from_checkpoints,
}
use money_interoperability.Sidechain.Error as SidechainErrors
use money_interoperability.Poa as PoaErrors
use money_interoperability.Poa.{relay_poa_events}

abbrev Duration : Type 0
Duration = ℕ

-- code/crates/relayer/src/error.rs
pub data Error : Type 0 where
  config : ConfigErrors.Error → Error
  sidechain : SidechainErrors.Error → Error
  onemoney : OnemoneyErrors.Error → Error
  poa : PoaErrors.Error → Error
  incoming : IncomingErrors.Error → Error
  outgoing : OutgoingErrors.Error → Error

pub data Commands : Type 0 where
  proof_of_authority_command : (poll_interval : Duration) → Commands
  sidechain_command :
      (from_block start_checkpoint_hash_mapping_recovery : Option ℕ)
      (clearing_poll_interval : Duration)
      → Commands
  onemoney_command :
      (start_checkpoint : Option ℕ) (clearing_poll_interval : Duration)
      (start_checkpoint_hash_mapping_recovery start_block_hash_mapping_recovery : Option ℕ)
      → Commands
  all_command :
      (poa_poll_interval : Duration) (from_block start_checkpoint : Option ℕ)
      (one_money_clearing_poll_interval : Duration)
      (start_checkpoint_hash_mapping_recovery start_block_hash_mapping_recovery : Option ℕ)
      (sidechain_clearing_poll_interval : Duration)
      → Commands

-- The concurrent parts of a command, with what they are started with.
pub data Relay : Type 0 where
  poa_events : Duration → Relay
  incoming_events : ℕ → Relay
  incoming_events_from_blocks : ℕ → Duration → Relay
  outgoing_events : Relay
  outgoing_events_from_checkpoints : ℕ → Duration → Relay

-- The bounds that the loops of a run are given.
pub record Rounds : Type 0 where
  pub windows : ℕ
  pub halvings : ℕ
  pub polls : ℕ
  pub items : ℕ

module _ (w : World) (rounds : Rounds) (conf : Config) where
  unfoldable pub recover_deposits : Option ℕ → Action Error (Unit {0})
  recover_deposits start_checkpoint =
      map_error incoming (recover_incomplete_deposit_hash_mapping w start_checkpoint)

  unfoldable pub recover_withdrawals : Option ℕ → Option ℕ → Action Error (Unit {0})
  recover_withdrawals start_checkpoint start_block = map_error outgoing (
      recover_incomplete_withdrawals_hash_mapping w rounds.windows conf start_checkpoint
        start_block)

  unfoldable pub first_block : Option ℕ → Action Error ℕ
  first_block (some block_number) = pure block_number
  first_block none = map_error incoming (get_latest_incomplete_block_number w rounds.halvings conf)

  unfoldable pub first_checkpoint : Option ℕ → Action Error ℕ
  first_checkpoint (some start_checkpoint) = pure start_checkpoint
  first_checkpoint none = map_error outgoing (get_earliest_incomplete_checkpoint_number w)

  -- What a command does before its relays run, and the relays.
  unfoldable pub start : Commands → Action Error (List Relay)
  start (proof_of_authority_command poll_interval) = pure (poa_events poll_interval ∷ [])
  start (sidechain_command from_block start_checkpoint_recovery clearing) = do
    recover_deposits start_checkpoint_recovery
    block ← first_block from_block
    pure (incoming_events block ∷ incoming_events_from_blocks block clearing ∷ [])
  start
        (onemoney_command start_checkpoint clearing start_checkpoint_recovery
          start_block_recovery) =
      do
        recover_withdrawals start_checkpoint_recovery start_block_recovery
        checkpoint ← first_checkpoint start_checkpoint
        pure (outgoing_events ∷ outgoing_events_from_checkpoints checkpoint clearing ∷ [])
  start
        (all_command poa_poll from_block start_checkpoint om_clearing start_checkpoint_recovery
          start_block_recovery sc_clearing) =
      do
        recover_deposits start_checkpoint_recovery
        recover_withdrawals start_checkpoint_recovery start_block_recovery
        checkpoint ← first_checkpoint start_checkpoint
        block ← first_block from_block
        pure (
            poa_events poa_poll
            ∷ incoming_events block
            ∷ incoming_events_from_blocks block sc_clearing
            ∷ outgoing_events
            ∷ outgoing_events_from_checkpoints checkpoint om_clearing
            ∷ [])

  -- `Arc::new(AtomicU64::new(nonce))`
  unfoldable pub set_nonce : ℕ → Action Error (Unit {0})
  set_nonce nonce s = (done tt, record s { relayer_nonce = nonce })

  -- `Cli::run` up to the `try_join` of the relays.
  unfoldable pub run : Commands → Action Error (List Relay)
  run command = do
    nonce ← map_error config (sidechain_relayer_nonce w conf)
    set_nonce nonce
    start command

  unfoldable pub relay : (String → Option CertifiedTransaction) → Relay → Action Error (Unit {0})
  relay from_str (poa_events _) = map_error poa (relay_poa_events w rounds.items conf)
  relay from_str (incoming_events from_block) =
      map_error incoming
        (relay_incoming_events w rounds.windows rounds.items rounds.polls conf from_block)
  relay from_str (incoming_events_from_blocks from_block _) =
      map_error incoming (
        relay_incoming_events_from_blocks w rounds.items rounds.windows rounds.polls conf
          from_block)
  relay from_str outgoing_events =
      map_error outgoing (relay_outgoing_events w from_str rounds.items)
  relay from_str (outgoing_events_from_checkpoints start_checkpoint _) =
      map_error outgoing (relay_outgoing_events_from_checkpoints w rounds.items start_checkpoint)
