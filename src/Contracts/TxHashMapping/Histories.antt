-- ===== src/Contracts/TxHashMapping/Histories.antt =====
-- What holds of TxHashMapping after any sequence of transactions on a new contract.
use money_interoperability.Prelude.{
  ℕ, Bool, true, ◌&&◌, ◌≡◌, ◌≢◌, some, arith, ◌==◌, refl, List, [], ◌∷◌,
}
use money_interoperability.World.{Address, Hash, Reply, ok, err}
use money_interoperability.Contracts.Mapping.{get_elem?}
use money_interoperability.Contracts.Outcome.{accepted, refused, returned, reverted_with}
use money_interoperability.Contracts.Pending.Places.{
  StandsOnce, listed_iff, HoldsIff, listed-HoldsIff,
}
use money_interoperability.Contracts.TxHashMapping.{TxHashMapping, Msg, Error, panicked, create}
use money_interoperability.Contracts.TxHashMapping.Consistency.{
  IsConsistent, Kept, create-Kept, set_relayer-Kept, register_deposit-Kept,
  register_withdrawal-Kept, link_deposit_hashes-Kept, link_withdrawal_hashes-Kept,
  link_refund_hashes-Kept,
}
use money_interoperability.Contracts.TxHashMapping.Methods.{
  Method, set_relayer, register_deposit, register_withdrawal, link_deposit_hashes,
  link_withdrawal_hashes, link_refund_hashes, execute, settle, history,
}

pub execute-Kept :
    (msg : Msg) (method : Method) {m : TxHashMapping} → IsConsistent m → Kept (execute msg method m)
unfolding execute
execute-Kept msg (set_relayer new) c = set_relayer-Kept msg new c
execute-Kept msg (register_deposit h) c = register_deposit-Kept msg c h
execute-Kept msg (register_withdrawal h) c = register_withdrawal-Kept msg c h
execute-Kept msg (link_deposit_hashes h x) c = link_deposit_hashes-Kept msg c h x
execute-Kept msg (link_withdrawal_hashes h x) c = link_withdrawal_hashes-Kept msg c h x
execute-Kept msg (link_refund_hashes h x) c = link_refund_hashes-Kept msg c h x

pub settle-IsConsistent :
    {m : TxHashMapping} {r : Reply Error TxHashMapping}
    → IsConsistent m
    → Kept r
    → IsConsistent (settle m r)
settle-IsConsistent c (accepted p) = p
settle-IsConsistent c (refused q) = c

pub history-IsConsistent :
    (calls : List (Msg × Method)) {m : TxHashMapping}
    → IsConsistent m
    → IsConsistent (history calls m)
unfolding history
history-IsConsistent [] c = c
history-IsConsistent ((msg, method) ∷ rest) c =
    history-IsConsistent rest (settle-IsConsistent c (execute-Kept msg method c))

pub create-IsConsistent :
    (refused : Bool) (owner relayer : Address) (m : TxHashMapping)
    → create refused owner relayer ≡ ok m
    → IsConsistent m
create-IsConsistent b owner relayer m e = returned _ m (create-Kept b owner relayer) e

module _ (refused : Bool) (owner relayer : Address) (m₀ : TxHashMapping)
    (created : create refused owner relayer ≡ ok m₀) (calls : List (Msg × Method)) where
  abbrev now : TxHashMapping
  now = history calls m₀

  consistent : IsConsistent now
  consistent = history-IsConsistent calls (create-IsConsistent refused owner relayer m₀ created)

  -- After any transactions on a new contract, each of the three arrays of incomplete hashes holds
  -- exactly the hashes that are registered and have no link of its kind: each of these at one place
  -- and no other hash at any place.
  pub history-incomplete :
      (h : Hash)
      → HoldsIff now.incomplete_deposits.hashes h
          ((now.deposit_mapping h).exists && (now.deposit_mapping h).bridge_and_mint_tx_hash == 0)
        × HoldsIff now.incomplete_withdrawals.hashes h
            ((now.withdrawal_mapping h).exists && (now.withdrawal_mapping h).bridge_to_tx_hash == 0)
        × HoldsIff now.incomplete_refunds.hashes h
            ((now.withdrawal_mapping h).exists && (now.withdrawal_mapping h).refund_tx_hash == 0)
  history-incomplete h =
      let c = consistent in
      (
        listed-HoldsIff _ h _ c.deposits.indexed (c.deposits.tracks h),
        listed-HoldsIff _ h _ c.withdrawals.indexed (c.withdrawals.tracks h),
        listed-HoldsIff _ h _ c.refunds.indexed (c.refunds.tracks h),
      )

  -- After any transactions on a new contract no further call panics.
  pub execute-ne-panicked : (msg : Msg) (method : Method) → execute msg method now ≢ err panicked
  execute-ne-panicked msg method e =
      reverted_with _ panicked (execute-Kept msg method consistent) e refl

  -- After any transactions on a new contract, a withdrawal whose call is linked and whose refund is
  -- not stands at no place of `incompleteWithdrawals` and at one place of `incompleteRefunds`.
  pub refund_only_incomplete :
      (h : Hash)
      → (now.withdrawal_mapping h).exists ≡ true
      → (now.withdrawal_mapping h).bridge_to_tx_hash ≢ 0
      → (now.withdrawal_mapping h).refund_tx_hash ≡ 0
      → ((i : ℕ) → get_elem? now.incomplete_withdrawals.hashes i ≢ some h)
        × StandsOnce now.incomplete_refunds.hashes h
  refund_only_incomplete h known bridged unrefunded =
      let c = consistent in
      let out = c.withdrawals.tracks h in
      (
        λ i here. ground (arith, out, c.withdrawals.indexed.found h i here),
        (listed_iff _ h c.refunds.indexed).1 (ground (arith, c.refunds.tracks h)),
      )
