-- ===== src/Incoming/Events/Linked.antt =====
-- A due deposit against the mapping contract: after its relay the contract holds the link of the two
-- transactions, and the deposit is no longer among the incomplete ones.
use money_interoperability.Prelude.{
  ℕ, ◌≡◌, ◌≢◌, refl, sym, ◌∙◌, false, List, [], ◌∷◌, ◌++◌, ge→ltb, arith, ◌==◌, if◌then◌else◌,
  ==_refl,
}
use money_interoperability.World.{
  World, Hash, Tx, OmInteropReceived, OmInteropLog, om_interop_received, ok, History, send, pending,
  bridge_and_mint, register_deposit, link_deposit_hashes,
}
use money_interoperability.Action.{pure, State, done, ◌>>=◌, ask, fetch_add}
use money_interoperability.Action.Writes.{Write, writes, sent, minted}
use money_interoperability.Submit.{send_mapping, settle_mapping}
use money_interoperability.Config.{Config}
use money_interoperability.Incoming.Events.{dispatch, process_event}
use money_interoperability.Incoming.Events.Due.{Serves, IsLogged, context}
use money_interoperability.Incoming.Handlers.{
  new_context, account_nonce, should_process_nonce, handle_om_interop_received, unless_exists,
  mint_payload,
}
use money_interoperability.Contracts.Pending.{listed}
use money_interoperability.Contracts.TxHashMapping
use money_interoperability.Contracts.TxHashMapping.{TxHashMapping, Msg}
use money_interoperability.Contracts.TxHashMapping.Consistency.{IsConsistent}
use money_interoperability.Contracts.TxHashMapping.Deposits.{
  registered, linked, status, MayRegister, MayLink, register_deposit-Status,
  link_deposit_hashes-Status,
}
use money_interoperability.Contracts.TxHashMapping.Histories.{settle-IsConsistent, execute-Kept}
use money_interoperability.Contracts.TxHashMapping.Methods as Methods
use money_interoperability.Contracts.TxHashMapping.Methods.{execute}
use money_interoperability.Contracts.TxHashMapping.Written.{written, accepted_where, settle-relayer}

-- The services accept every transaction, and 1Money mints the deposit in the transaction `mint`.
pub record Mints (w : World) (config : Config) (chain : ℕ) (inner : OmInteropReceived)
    (hash mint : Hash) (hash_of : Tx → Hash) : Type 0 where
  pub accepted : (h : History) (tx : Tx) (n : ℕ) → w.respond h (send tx n) ≡ pending (hash_of tx)
  pub mints :
      (h : History)
      → w.respond h (bridge_and_mint (mint_payload w (context config chain) inner hash)) ≡ ok mint

module _ (w : World) (rounds : ℕ) (config : Config) (chain : ℕ) (log : OmInteropLog)
    (hash mint : Hash) (hash_of : Tx → Hash) (inner : OmInteropReceived)
    (serves : Serves w config chain inner.nonce)
    (mints : Mints w config chain inner hash mint hash_of)
    (logged : IsLogged log (om_interop_received inner) hash) where
  -- What the relay of the deposit writes, the newest first.
  abbrev written_for : List Write
  written_for =
      sent (link_deposit_hashes hash mint) (pending (hash_of (link_deposit_hashes hash mint)))
      ∷ minted (mint_payload w (context config chain) inner hash) (ok mint)
      ∷ sent (register_deposit hash) (pending (hash_of (register_deposit hash)))
      ∷ []

  handled :
      (s : State)
      → let (exit, t) =
          (handle_om_interop_received w (context config chain) inner hash >>= λ _. pure tt) s in
        (exit ≡ done tt) × (writes t.history ≡ written_for ++ writes s.history)
  unfolding handle_om_interop_received unless_exists send_mapping settle_mapping ◌>>=◌ ask fetch_add
  handled s = rw (mints.accepted, mints.mints, mints.accepted) (refl, refl)

  processed :
      (s : State)
      → let (exit, t) = process_event w rounds config log s in
        (exit ≡ done tt) × (writes t.history ≡ written_for ++ writes s.history)
  unfolding process_event new_context should_process_nonce account_nonce dispatch ◌>>=◌ ask
  processed s =
      rw
        (
          serves.client,
          serves.chain_id,
          logged.at_block,
          logged.at_index,
          logged.in_transaction,
          logged.kept,
          logged.is_event,
          serves.account,
          ge→ltb inner.nonce inner.nonce (omega arith),
        )
        (handled _)

  module _ (msg : Msg) (m : TxHashMapping) (c : IsConsistent m) where
    -- The storage after the registration, and after the link.
    abbrev first : TxHashMapping
    first = Methods.settle m (execute msg (Methods.register_deposit hash) m)

    abbrev last : TxHashMapping
    last = Methods.settle first (execute msg (Methods.link_deposit_hashes hash mint) first)

    first-IsConsistent : IsConsistent first
    first-IsConsistent = settle-IsConsistent c (execute-Kept msg (Methods.register_deposit hash) c)

    last-IsConsistent : IsConsistent last
    last-IsConsistent =
        settle-IsConsistent first-IsConsistent
          (execute-Kept msg (Methods.link_deposit_hashes hash mint) first-IsConsistent)

    first-Status :
        MayRegister msg hash m
        → (j : Hash) → status first j ≡ (if hash == j then registered else status m j)
    unfolding execute TxHashMapping.register_deposit
    first-Status may = (accepted_where m _ (register_deposit-Status msg m c hash) may).1

    last-Status :
        MayLink msg hash mint first
        → (j : Hash) → status last j ≡ (if hash == j then linked mint else status first j)
    unfolding execute TxHashMapping.link_deposit_hashes
    last-Status may =
        (accepted_where first _ (link_deposit_hashes-Status msg first first-IsConsistent hash mint)
          may).1

    first-relayer : first.relayer ≡ m.relayer
    unfolding execute
    first-relayer = settle-relayer msg hash m

    first-MayLink :
        MayRegister msg hash m
        → mint ≢ 0
        → ((j : Hash) → status m j ≢ linked mint)
        → MayLink msg hash mint first
    first-MayLink may nz unused = record {
      authorized = may.authorized ∙ sym first-relayer;
      nonzero = may.nonzero;
      target = nz;
      waiting = rw (first-Status may, ==_refl hash) refl;
      unused = λ j. ground (arith, first-Status may j, unused j);
    }

    last_linked :
        MayRegister msg hash m
        → mint ≢ 0
        → ((j : Hash) → status m j ≢ linked mint)
        → (status last hash ≡ linked mint) × (listed last.incomplete_deposits hash ≡ false)
    last_linked may nz unused =
        let here = last-Status (first-MayLink may nz unused) hash in
        let is_linked : status last hash ≡ linked mint = rw (==_refl hash) at here in
        (is_linked, ground (arith, last-IsConsistent.deposits.tracks hash))

    -- If 1Money serves the nonce of a deposit of the chain, every transaction of its relay is accepted,
    -- and 1Money mints it in a transaction other than 0, and if TxHashMapping, in a consistent state, lets
    -- the relayer register the deposit and has no deposit linked to the mint, then the processing
    -- returns, and the contract that gets what it writes ends with the deposit linked to the mint and
    -- not listed as incomplete.
    pub due_deposit_linked :
        (s : State)
        → MayRegister msg hash m
        → mint ≢ 0
        → ((j : Hash) → status m j ≢ linked mint)
        → let (exit, t) = process_event w rounds config log s in
          (exit ≡ done tt)
          × (ws : List Write) × (writes t.history ≡ ws ++ writes s.history)
          × (status (written msg ws m) hash ≡ linked mint)
          × (listed (written msg ws m).incomplete_deposits hash ≡ false)
    due_deposit_linked s may nz unused =
        let (exits, wrote) = processed s in
        let (is_linked, complete) = last_linked may nz unused in
        (exits, written_for, wrote, is_linked, complete)
