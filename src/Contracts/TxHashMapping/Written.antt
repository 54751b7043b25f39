-- ===== src/Contracts/TxHashMapping/Written.antt =====
-- The transactions that the relayer sends to TxHashMapping, applied to its storage.
use money_interoperability.Prelude.{refl, ◌≡◌, Option, none, some, List, [], ◌∷◌}
use money_interoperability.World.{
  Hash, Reply, ok, err, Tx, register_deposit, register_withdrawal, link_deposit_hashes,
  link_withdrawal_hashes, link_refund_hashes,
}
use money_interoperability.Action.Writes.{Write, sent, minted, paid}
use money_interoperability.Contracts.Outcome.{Ends, accepted, refused, revert_if-Ends}
use money_interoperability.Contracts.TxHashMapping
use money_interoperability.Contracts.TxHashMapping.{TxHashMapping, Msg, Error}
use money_interoperability.Contracts.TxHashMapping.Methods as Methods
use money_interoperability.Contracts.TxHashMapping.Methods.{Method, execute, settle}

-- The method that a transaction calls, if it is one of TxHashMapping.
abbrev pub method_of : Tx → Option Method
method_of (register_deposit h) = some (Methods.register_deposit h)
method_of (register_withdrawal h) = some (Methods.register_withdrawal h)
method_of (link_deposit_hashes h x) = some (Methods.link_deposit_hashes h x)
method_of (link_withdrawal_hashes h x) = some (Methods.link_withdrawal_hashes h x)
method_of (link_refund_hashes h x) = some (Methods.link_refund_hashes h x)
method_of _ = none

abbrev pub called : Msg → Option Method → TxHashMapping → TxHashMapping
called msg none m = m
called msg (some method) m = settle m (execute msg method m)

-- The storage after the writes, of which the newest stands first.
abbrev pub written : Msg → List Write → TxHashMapping → TxHashMapping
written msg [] m = m
written msg (sent tx r ∷ ws) m = called msg (method_of tx) (written msg ws m)
written msg (minted payload r ∷ ws) m = written msg ws m
written msg (paid payload r ∷ ws) m = written msg ws m

-- A call that is refused only if a condition fails is accepted where it holds.
pub accepted_where :
    {P : TxHashMapping → Type 0} {C : Type 0} (m : TxHashMapping) (r : Reply Error TxHashMapping)
    → Ends P (λ _. ¬ C) r
    → C
    → P (settle m r)
accepted_where m (ok m') (accepted p) c = p
accepted_where m (err e) (refused q) c = absurd (q c)

settled_relayer :
    (m : TxHashMapping) (r : Reply Error TxHashMapping)
    → Ends (λ m'. m'.relayer ≡ m.relayer) (λ _. Unit) r
    → (settle m r).relayer ≡ m.relayer
settled_relayer m (ok m') (accepted p) = p
settled_relayer m (err e) (refused q) = refl

register_deposit-relayer :
    (msg : Msg) (h : Hash) (m : TxHashMapping)
    → Ends (λ m'. m'.relayer ≡ m.relayer) (λ _. Unit) (TxHashMapping.register_deposit msg h m)
unfolding TxHashMapping.register_deposit
register_deposit-relayer msg h m =
    revert_if-Ends _ _ _ tt
      λ _. revert_if-Ends _ _ _ tt λ _. revert_if-Ends _ _ _ tt λ _. accepted refl

pub settle-relayer :
    (msg : Msg) (h : Hash) (m : TxHashMapping)
    → (settle m (TxHashMapping.register_deposit msg h m)).relayer ≡ m.relayer
settle-relayer msg h m = settled_relayer m _ (register_deposit-relayer msg h m)
