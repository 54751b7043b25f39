-- ===== src/Contracts/TxHashMapping/Deposits.antt =====
-- The deposits of TxHashMapping as a machine with three states for each hash.
use money_interoperability.Prelude.{true, false, ◌≡◌, ◌≢◌, arith, ◌==◌, if◌then◌else◌}
use money_interoperability.World.{Hash}
use money_interoperability.Contracts.Mapping.{◌>>=◌}
use money_interoperability.Contracts.Outcome.{Ends, accepted, revert_when-Ends}
use money_interoperability.Contracts.Pending.Places.{remove-Removed}
use money_interoperability.Contracts.TxHashMapping.{
  TxHashMapping, DepositEntry, Msg, removed, register_deposit, link_deposit_hashes, taken,
}
use money_interoperability.Contracts.TxHashMapping.Consistency.{IsConsistent}

pub data Status : Type 0 where
  unknown : Status
  registered : Status
  linked : Hash → Status

abbrev pub status_of : DepositEntry → Status
status_of e =
    if e.exists
    then (if e.bridge_and_mint_tx_hash == 0 then registered else linked e.bridge_and_mint_tx_hash)
    else unknown

abbrev pub status : TxHashMapping → Hash → Status
status m h = status_of (m.deposit_mapping h)

pub record MayRegister (msg : Msg) (h : Hash) (m : TxHashMapping) : Type 0 where
  pub authorized : msg.sender ≡ m.relayer
  pub nonzero : h ≢ 0
  pub new : status m h ≡ unknown

pub record MayLink (msg : Msg) (h x : Hash) (m : TxHashMapping) : Type 0 where
  pub authorized : msg.sender ≡ m.relayer
  pub nonzero : h ≢ 0
  pub target : x ≢ 0
  pub waiting : status m h ≡ registered
  pub unused : (j : Hash) → status m j ≢ linked x

module _ (msg : Msg) (m : TxHashMapping) (c : IsConsistent m) (h : Hash) where
  -- On a consistent storage, `registerDeposit` returns exactly if the relayer sends a hash other than 0
  -- that is unknown; the hash is then registered, and no other changes its state.
  pub register_deposit-Status :
      Ends
        (λ m'.
          MayRegister msg h m
          × ((j : Hash) → status m' j ≡ (if h == j then registered else status m j)))
        (λ _. ¬ MayRegister msg h m)
        (register_deposit msg h m)
  unfolding register_deposit
  register_deposit-Status =
      revert_when-Ends _ _ _ (λ e r. ground (arith, r.authorized))
        λ a.
          revert_when-Ends _ _ _ (λ e r. ground (arith, r.nonzero))
            λ nz.
              revert_when-Ends _ _ _ (λ e r. ground (arith, r.new))
                λ new. accepted (
                  record { authorized = ground arith; nonzero = ground arith; new = ground arith },
                  λ j. ground (arith, c.deposits.blank h),
                )

  -- The deposit that holds the reverse link of `x` is linked to it.
  taken_linked :
      (x : Hash)
      → taken (m.deposit_reverse_mapping x) h ≡ true
      → (j : Hash) × (status m j ≡ linked x)
  taken_linked x e = (
    m.deposit_reverse_mapping x,
    ground (arith, c.targets x, c.deposits.blank (m.deposit_reverse_mapping x)),
  )

  free_unused :
      (x : Hash)
      → x ≢ 0
      → taken (m.deposit_reverse_mapping x) h ≡ false
      → status m h ≡ registered
      → (j : Hash) → status m j ≢ linked x
  free_unused x nx free waits j e = ground (arith, c.sources j, c.zero_unknown)

  -- On a consistent storage, `linkDepositHashes` returns exactly if the relayer sends a registered
  -- hash without a link and a target other than 0 that no deposit is linked to; the hash is then linked
  -- to the target, and no other changes its state.
  pub link_deposit_hashes-Status :
      (x : Hash)
      → Ends
          (λ m'.
            MayLink msg h x m
            × ((j : Hash) → status m' j ≡ (if h == j then linked x else status m j)))
          (λ _. ¬ MayLink msg h x m)
          (link_deposit_hashes msg h x m)
  unfolding link_deposit_hashes removed
  link_deposit_hashes-Status x =
      revert_when-Ends _ _ _ (λ e r. ground (arith, r.authorized))
        λ a.
          revert_when-Ends _ _ _ (λ e r. ground (arith, r.nonzero))
            λ nz.
              revert_when-Ends _ _ _ (λ e r. ground (arith, r.target))
                λ nx.
                  revert_when-Ends _ _ _ (λ e r. ground (arith, r.waiting))
                    λ old.
                      revert_when-Ends _ _ _ (λ e r. ground (arith, r.waiting))
                        λ unlinked.
                          revert_when-Ends _ _ _
                            (λ e r. let (j, l) = taken_linked x e in r.unused j l)
                            λ free.
                              let (q, removes, _) = remove-Removed c.deposits.indexed h in
                              rw (removes, ◌>>=◌)
                                (accepted (
                                  record {
                                    authorized = ground arith;
                                    nonzero = ground arith;
                                    target = ground arith;
                                    waiting = ground arith;
                                    unused = free_unused x (ground arith) free (ground arith);
                                  },
                                  λ j. ground arith,
                                ))
