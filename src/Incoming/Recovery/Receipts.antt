-- ===== src/Incoming/Recovery/Receipts.antt =====
-- The deposit event in the receipt of an incomplete deposit.
use money_interoperability.Prelude.{
  All, ◌≡◌, refl, ap, ◌∙◌, Option, none, some, List, [], ◌∷◌, ◌++◌, arith,
}
use money_interoperability.World.{
  History, OmInteropReceived, get_transaction_receipt, LogData, World, Hash, ok,
}
use money_interoperability.Incoming.Recovery.{first_received}

module _ (w : World) where
  -- The deposit is the first event of the receipt that the sidechain has given for the hash.
  pub record IsDeposit (hash : Hash) (event : OmInteropReceived) : Type 0 where
    pub before : History
    pub skipped : List LogData
    pub log : LogData
    pub rest : List LogData
    pub receipt :
        w.respond before (get_transaction_receipt hash) ≡ ok (some (skipped ++ log ∷ rest))
    pub others : All (λ l. w.decode_received l ≡ none) skipped
    pub decodes : w.decode_received log ≡ some event

  -- Where the first event of a receipt stands.
  First : List LogData → OmInteropReceived → Type 0
  First logs event =
      (skipped : List LogData) × (log : LogData) × (rest : List LogData) × (logs
        ≡ skipped ++ log ∷ rest)
      × All (λ l. w.decode_received l ≡ none) skipped
      × (w.decode_received log ≡ some event)

  first_received-First :
      (logs : List LogData) (event : OmInteropReceived)
      → first_received w logs ≡ some event
      → First logs event
  unfolding first_received First
  first_received-First [] event e = absurd (ground arith)
  first_received-First (log ∷ logs) event e =
      by_decoding (w.decode_received log) refl e (λ e'. first_received-First logs event e')
    where
      by_decoding :
          (o : Option OmInteropReceived)
          → w.decode_received log ≡ o
          → (elim o [ some found ↦ some found | none ↦ first_received w logs ]) ≡ some event
          → (first_received w logs ≡ some event → First logs event)
          → First (log ∷ logs) event
      by_decoding (some found) at e' later = ([], log, logs, refl, tt, at ∙ e')
      by_decoding none at e' later =
          let (skipped, found, rest, splits, others, decodes) = later e' in
          (log ∷ skipped, found, rest, ap (λ l. log ∷ l) splits, (at, others), decodes)

  pub found-IsDeposit :
      (hash : Hash) (before : History) (logs : List LogData) (event : OmInteropReceived)
      → w.respond before (get_transaction_receipt hash) ≡ ok (some logs)
      → first_received w logs ≡ some event
      → IsDeposit hash event
  unfolding First
  found-IsDeposit hash before logs event receipt e =
      let (skipped, log, rest, splits, others, decodes) = first_received-First logs event e in
      record {
        before = before;
        skipped = skipped;
        log = log;
        rest = rest;
        receipt = receipt ∙ ap (λ l. ok (some l)) splits;
        others = others;
        decodes = decodes;
      }
