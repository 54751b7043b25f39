-- ===== src/Contracts/TxHashMapping/Consistency.antt =====
-- The invariant of TxHashMapping, and that every method keeps it.
use money_interoperability.Prelude.{Bool, false, ◌≡◌, ◌≢◌, arith, refl}
use money_interoperability.World.{Address, Hash, Reply}
use money_interoperability.Contracts.Mapping.{◌>>=◌, ◌>>◌}
use money_interoperability.Contracts.Outcome.{Ends, accepted, revert_if-Ends}
use money_interoperability.Contracts.Pending.{Pending}
use money_interoperability.Contracts.Pending.Places.{IsIndexed, Removed, remove-Removed}
use money_interoperability.Contracts.TxHashMapping.{
  TxHashMapping, Msg, Error, panicked, create, set_relayer, register_deposit, register_withdrawal,
  link_deposit_hashes, link_withdrawal_hashes, link_refund_hashes, removed, only_relayer,
  non_zero_hash,
}
use money_interoperability.Contracts.TxHashMapping.Tracking.{
  IsTracked, kept-IsTracked, registered-IsTracked, linked-IsTracked, new-IsTracked,
}

-- Each array lists what is known and not linked, the source of the hash that a deposit is linked to
-- is the deposit, and the hash 0 is not known.
pub record IsConsistent (m : TxHashMapping) : Type 0 where
  pub deposits :
      IsTracked
        (λ h. (m.deposit_mapping h).exists)
        (λ h. (m.deposit_mapping h).bridge_and_mint_tx_hash)
        m.incomplete_deposits
  pub withdrawals :
      IsTracked
        (λ h. (m.withdrawal_mapping h).exists)
        (λ h. (m.withdrawal_mapping h).bridge_to_tx_hash)
        m.incomplete_withdrawals
  pub refunds :
      IsTracked
        (λ h. (m.withdrawal_mapping h).exists)
        (λ h. (m.withdrawal_mapping h).refund_tx_hash)
        m.incomplete_refunds
  pub sources :
      (h : Hash)
      → (m.deposit_mapping h).bridge_and_mint_tx_hash ≢ 0
      → m.deposit_reverse_mapping (m.deposit_mapping h).bridge_and_mint_tx_hash ≡ h
  pub targets :
      (x : Hash)
      → m.deposit_reverse_mapping x ≢ 0
      → ((m.deposit_mapping (m.deposit_reverse_mapping x)).bridge_and_mint_tx_hash ≡ x) × (x ≢ 0)
  pub zero_unknown : (m.deposit_mapping 0).exists ≡ false

-- A call that returns leaves a consistent storage, and no call panics.
abbrev pub Kept : Reply Error TxHashMapping → Type 0
Kept = Ends IsConsistent (λ e. e ≢ panicked)

removed-Ends :
    {p : Pending} (h : Hash) (k : Pending → Reply Error TxHashMapping)
    → IsIndexed p
    → ((q : Pending) → Removed p h q → Kept (k q))
    → Kept (removed h p >>= k)
unfolding removed
removed-Ends h k ix next = let (q, e, r) = remove-Removed ix h in rw (e, ◌>>=◌) (next q r)

only_relayer-Kept :
    (msg : Msg) (m : TxHashMapping) (h : Hash) (k : Reply Error TxHashMapping)
    → (h ≢ 0 → Kept k)
    → Kept (only_relayer msg m >> (non_zero_hash h >> k))
only_relayer-Kept msg m h k next =
    revert_if-Ends _ _ _ (cc) λ _. revert_if-Ends _ _ _ (cc) λ nz. next (ground arith)

module _ (msg : Msg) {m : TxHashMapping} (c : IsConsistent m) (h : Hash) where
  pub register_deposit-Kept : Kept (register_deposit msg h m)
  unfolding register_deposit
  register_deposit-Kept = only_relayer-Kept msg m h _ λ nz. revert_if-Ends _ _ _ (cc) λ new.
      accepted (record {
        deposits =
            registered-IsTracked c.deposits h _ _ new (λ j. ground arith) (λ j. ground arith);
        withdrawals = c.withdrawals;
        refunds = c.refunds;
        sources = λ j. ground (arith, c.sources j);
        targets = λ x nz'. ground (arith, c.targets x nz');
        zero_unknown = ground (arith, c.zero_unknown);
      })

  pub register_withdrawal-Kept : Kept (register_withdrawal msg h m)
  unfolding register_withdrawal
  register_withdrawal-Kept = only_relayer-Kept msg m h _ λ nz. revert_if-Ends _ _ _ (cc) λ new.
      accepted (record {
        deposits = c.deposits;
        withdrawals =
            registered-IsTracked c.withdrawals h _ _ new (λ j. ground arith) (λ j. ground arith);
        refunds = registered-IsTracked c.refunds h _ _ new (λ j. ground arith) (λ j. ground arith);
        sources = c.sources;
        targets = c.targets;
        zero_unknown = c.zero_unknown;
      })

  pub link_deposit_hashes-Kept : (x : Hash) → Kept (link_deposit_hashes msg h x m)
  unfolding link_deposit_hashes
  link_deposit_hashes-Kept x = only_relayer-Kept msg m h _ λ nz. revert_if-Ends _ _ _ (cc) λ nx.
      revert_if-Ends _ _ _ (cc) λ old. revert_if-Ends _ _ _ (cc) λ unlinked.
        revert_if-Ends _ _ _ (cc) λ free. removed-Ends h _ c.deposits.indexed λ q r.
          accepted (record {
            deposits =
                linked-IsTracked c.deposits h _ _ x q r (ground arith) (ground arith)
                  (λ j. ground arith) (λ j. ground arith);
            withdrawals = c.withdrawals;
            refunds = c.refunds;
            sources = λ j. ground (arith, c.sources j, c.zero_unknown, c.deposits.blank 0);
            targets = λ y ny. ground (arith, c.targets y);
            zero_unknown = ground (arith, c.zero_unknown);
          })

  pub link_withdrawal_hashes-Kept : (x : Hash) → Kept (link_withdrawal_hashes msg h x m)
  unfolding link_withdrawal_hashes
  link_withdrawal_hashes-Kept x = only_relayer-Kept msg m h _ λ nz. revert_if-Ends _ _ _ (cc) λ nx.
      revert_if-Ends _ _ _ (cc) λ old. revert_if-Ends _ _ _ (cc) λ unlinked.
        removed-Ends h _ c.withdrawals.indexed λ q r. accepted (record {
          deposits = c.deposits;
          withdrawals =
              linked-IsTracked c.withdrawals h _ _ x q r (ground arith) (ground arith)
                (λ j. ground arith) (λ j. ground arith);
          refunds = kept-IsTracked c.refunds h _ _ (λ j. ground arith) (λ j. ground arith);
          sources = c.sources;
          targets = c.targets;
          zero_unknown = c.zero_unknown;
        })

  pub link_refund_hashes-Kept : (x : Hash) → Kept (link_refund_hashes msg h x m)
  unfolding link_refund_hashes
  link_refund_hashes-Kept x = only_relayer-Kept msg m h _ λ nz. revert_if-Ends _ _ _ (cc) λ nx.
      revert_if-Ends _ _ _ (cc) λ old. revert_if-Ends _ _ _ (cc) λ unlinked.
        removed-Ends h _ c.refunds.indexed λ q r. accepted (record {
          deposits = c.deposits;
          withdrawals = kept-IsTracked c.withdrawals h _ _ (λ j. ground arith) (λ j. ground arith);
          refunds =
              linked-IsTracked c.refunds h _ _ x q r (ground arith) (ground arith)
                (λ j. ground arith) (λ j. ground arith);
          sources = c.sources;
          targets = c.targets;
          zero_unknown = c.zero_unknown;
        })

pub create-Kept : (refused : Bool) (owner relayer : Address) → Kept (create refused owner relayer)
unfolding create
create-Kept b owner relayer = revert_if-Ends _ _ _ (cc) λ _. revert_if-Ends _ _ _ (cc) λ _.
    revert_if-Ends _ _ _ (cc) λ _. accepted (record {
      deposits = new-IsTracked;
      withdrawals = new-IsTracked;
      refunds = new-IsTracked;
      sources = λ h nz. absurd (nz refl);
      targets = λ x nz. absurd (nz refl);
      zero_unknown = refl;
    })

pub set_relayer-Kept :
    (msg : Msg) (new : Address) {m : TxHashMapping} → IsConsistent m → Kept (set_relayer msg new m)
unfolding set_relayer
set_relayer-Kept msg new c = revert_if-Ends _ _ _ (cc) λ _. revert_if-Ends _ _ _ (cc) λ _.
    accepted (record {
      deposits = c.deposits;
      withdrawals = c.withdrawals;
      refunds = c.refunds;
      sources = c.sources;
      targets = c.targets;
      zero_unknown = c.zero_unknown;
    })
