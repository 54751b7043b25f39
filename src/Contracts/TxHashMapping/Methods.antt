-- ===== src/Contracts/TxHashMapping/Methods.antt =====
-- The methods of TxHashMapping as calls, and the storage after a sequence of transactions.
use money_interoperability.Prelude.{List, [], ◌∷◌}
use money_interoperability.World.{Address, Hash, Reply, ok, err}
use money_interoperability.Contracts.TxHashMapping
use money_interoperability.Contracts.TxHashMapping.{TxHashMapping, Msg, Error}

pub data Method : Type 0 where
  set_relayer : Address → Method
  register_deposit : Hash → Method
  register_withdrawal : Hash → Method
  link_deposit_hashes : Hash → Hash → Method
  link_withdrawal_hashes : Hash → Hash → Method
  link_refund_hashes : Hash → Hash → Method

unfoldable pub execute : Msg → Method → TxHashMapping → Reply Error TxHashMapping
execute msg (set_relayer new) = TxHashMapping.set_relayer msg new
execute msg (register_deposit h) = TxHashMapping.register_deposit msg h
execute msg (register_withdrawal h) = TxHashMapping.register_withdrawal msg h
execute msg (link_deposit_hashes h x) = TxHashMapping.link_deposit_hashes msg h x
execute msg (link_withdrawal_hashes h x) = TxHashMapping.link_withdrawal_hashes msg h x
execute msg (link_refund_hashes h x) = TxHashMapping.link_refund_hashes msg h x

-- A transaction that reverts leaves the storage as it was.
abbrev pub settle : TxHashMapping → Reply Error TxHashMapping → TxHashMapping
settle m (ok m') = m'
settle m (err e) = m

unfoldable pub history : List (Msg × Method) → TxHashMapping → TxHashMapping
unfolding execute
history [] m = m
history ((msg, method) ∷ rest) m = history rest (settle m (execute msg method m))
