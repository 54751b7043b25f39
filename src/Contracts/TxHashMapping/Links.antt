-- ===== src/Contracts/TxHashMapping/Links.antt =====
-- Links of TxHashMapping are permanent, those of deposits are injective, and when a deposit can be
-- linked.
use money_interoperability.Prelude.{
  Option, none, Bool, false, ◌≡◌, ◌≢◌, some, arith, refl, List, [], ◌∷◌,
}
use money_interoperability.World.{Hash, Reply, ok, err}
use money_interoperability.Contracts.Mapping.{◌>>=◌, ◌>>◌, revert_if}
use money_interoperability.Contracts.Outcome.{Ends, accepted, refused, revert_if-Ends}
use money_interoperability.Contracts.Pending.{Pending, remove}
use money_interoperability.Contracts.TxHashMapping
use money_interoperability.Contracts.TxHashMapping.{
  TxHashMapping, Msg, Error, panicked, create, removed,
}
use money_interoperability.Contracts.TxHashMapping.Consistency.{IsConsistent}
use money_interoperability.Contracts.TxHashMapping.Methods.{
  Method, set_relayer, register_deposit, register_withdrawal, link_deposit_hashes,
  link_withdrawal_hashes, link_refund_hashes, execute, settle, history,
}

-- Every link of `m` is one of `m'`.
pub record Extends (m m' : TxHashMapping) : Type 0 where
  pub deposits :
      (h : Hash)
      → (m.deposit_mapping h).bridge_and_mint_tx_hash ≢ 0
      → (m'.deposit_mapping h).bridge_and_mint_tx_hash
        ≡ (m.deposit_mapping h).bridge_and_mint_tx_hash
  pub withdrawals :
      (h : Hash)
      → (m.withdrawal_mapping h).bridge_to_tx_hash ≢ 0
      → (m'.withdrawal_mapping h).bridge_to_tx_hash ≡ (m.withdrawal_mapping h).bridge_to_tx_hash
  pub refunds :
      (h : Hash)
      → (m.withdrawal_mapping h).refund_tx_hash ≢ 0
      → (m'.withdrawal_mapping h).refund_tx_hash ≡ (m.withdrawal_mapping h).refund_tx_hash

abbrev Grown : TxHashMapping → Reply Error TxHashMapping → Type 0
Grown m = Ends (Extends m) (λ _. Unit)

guarded :
    {m : TxHashMapping} (b : Bool) (e : Error) (k : Reply Error TxHashMapping)
    → (b ≡ false → Grown m k)
    → Grown m (revert_if b e >> k)
guarded b e k next = revert_if-Ends b e k tt next

panics_or :
    {m : TxHashMapping} (o : Option Pending) (k : Pending → Reply Error TxHashMapping)
    → ((q : Pending) → Grown m (k q))
    → Grown m ((elim o [ none ↦ err panicked | some q ↦ ok q ]) >>= k)
panics_or none k next = refused tt
panics_or (some q) k next = next q

removed-Grown :
    {m : TxHashMapping} (h : Hash) (p : Pending) (k : Pending → Reply Error TxHashMapping)
    → ((q : Pending) → Grown m (k q))
    → Grown m (removed h p >>= k)
unfolding removed
removed-Grown h p k next = panics_or (remove h p) k next

execute-Grown : (msg : Msg) (method : Method) (m : TxHashMapping) → Grown m (execute msg method m)
unfolding execute TxHashMapping.set_relayer TxHashMapping.register_deposit
    TxHashMapping.register_withdrawal TxHashMapping.link_deposit_hashes
    TxHashMapping.link_withdrawal_hashes TxHashMapping.link_refund_hashes
execute-Grown msg (set_relayer new) m = guarded _ _ _ λ _. guarded _ _ _ λ _.
    accepted
      (record { deposits = λ j nz. refl; withdrawals = λ j nz. refl; refunds = λ j nz. refl })
execute-Grown msg (register_deposit h) m = guarded _ _ _ λ _. guarded _ _ _ λ _. guarded _ _ _ λ _.
    accepted (record {
      deposits = λ j nz. ground arith;
      withdrawals = λ j nz. refl;
      refunds = λ j nz. refl;
    })
execute-Grown msg (register_withdrawal h) m = guarded _ _ _ λ _. guarded _ _ _ λ _.
    guarded _ _ _ λ _. accepted (record {
      deposits = λ j nz. refl;
      withdrawals = λ j nz. ground arith;
      refunds = λ j nz. ground arith;
    })
execute-Grown msg (link_deposit_hashes h x) m = guarded _ _ _ λ _. guarded _ _ _ λ _.
    guarded _ _ _ λ _. guarded _ _ _ λ _. guarded _ _ _ λ unlinked. guarded _ _ _ λ _.
      removed-Grown h _ _ λ q. accepted (record {
        deposits = λ j nz. ground arith;
        withdrawals = λ j nz. refl;
        refunds = λ j nz. refl;
      })
execute-Grown msg (link_withdrawal_hashes h x) m = guarded _ _ _ λ _. guarded _ _ _ λ _.
    guarded _ _ _ λ _. guarded _ _ _ λ _. guarded _ _ _ λ unlinked. removed-Grown h _ _ λ q.
      accepted (record {
        deposits = λ j nz. refl;
        withdrawals = λ j nz. ground arith;
        refunds = λ j nz. ground arith;
      })
execute-Grown msg (link_refund_hashes h x) m = guarded _ _ _ λ _. guarded _ _ _ λ _.
    guarded _ _ _ λ _. guarded _ _ _ λ _. guarded _ _ _ λ unlinked. removed-Grown h _ _ λ q.
      accepted (record {
        deposits = λ j nz. refl;
        withdrawals = λ j nz. ground arith;
        refunds = λ j nz. ground arith;
      })

settle-Extends :
    (m : TxHashMapping) (r : Reply Error TxHashMapping) → Grown m r → Extends m (settle m r)
settle-Extends m (ok m') (accepted x) = x
settle-Extends m (err e) (refused q) = record {
  deposits = λ h nz. refl;
  withdrawals = λ h nz. refl;
  refunds = λ h nz. refl;
}

Extends-trans : {a b c : TxHashMapping} → Extends a b → Extends b c → Extends a c
Extends-trans x y = record {
  deposits = λ h nz. ground (arith, x.deposits h, y.deposits h);
  withdrawals = λ h nz. ground (arith, x.withdrawals h, y.withdrawals h);
  refunds = λ h nz. ground (arith, x.refunds h, y.refunds h);
}

-- Whatever transactions follow, the links of the three kinds that a storage has stay as they are.
pub history-Extends :
    (calls : List (Msg × Method)) (m : TxHashMapping) → Extends m (history calls m)
unfolding history
history-Extends [] m = record {
  deposits = λ h nz. refl;
  withdrawals = λ h nz. refl;
  refunds = λ h nz. refl;
}
history-Extends ((msg, method) ∷ rest) m =
    Extends-trans (settle-Extends m _ (execute-Grown msg method m)) (history-Extends rest _)

-- In a consistent storage no two deposits are linked to one transaction.
pub linked_injective :
    (m : TxHashMapping) (a b : Hash)
    → IsConsistent m
    → (m.deposit_mapping a).bridge_and_mint_tx_hash ≢ 0
    → (m.deposit_mapping a).bridge_and_mint_tx_hash ≡ (m.deposit_mapping b).bridge_and_mint_tx_hash
    → a ≡ b
linked_injective m a b c nz e = ground (arith, c.sources a, c.sources b)
