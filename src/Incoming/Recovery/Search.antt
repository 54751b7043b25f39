-- ===== src/Incoming/Recovery/Search.antt =====
-- The binary search of `get_latest_incomplete_block_number` finds the last block whose inbound nonce
-- 1Money has reached.
use money_interoperability.Prelude.{
  ◌==◌, ge→ltb, ℕ, zero, suc, ◌+◌, ◌≤◌, ◌<◌, ◌≡◌, refl, ◌∷◌, arith, tests, ◌-◌, ltb, leb, ltb→lt,
  ltb→ge, leb→le, leb→gt, Bool-cases, inl, inr, u64_mod, wrapping_sub,
}
use money_interoperability.World.{
  get_account_nonce, client_custom, ok, get_block_number, World, History, value,
  get_latest_inbound_nonce,
}
use money_interoperability.Action.{State, Exit, done, ◌>>=◌, ask}
use money_interoperability.Config.{Config}
use money_interoperability.Incoming.Error.{Error}
use money_interoperability.Incoming.Recovery.{
  get_latest_incomplete_block_number, resume_block, sc_inbound_nonce_at, middle, search_block,
}

-- The contract's inbound nonce at each block, as the node answers it at any time: it never falls.
pub record InboundNonces (w : World) (nonce_at : ℕ → ℕ) : Type 0 where
  pub answered :
      (h : History) (b : ℕ) → w.respond h (get_latest_inbound_nonce b) ≡ value (nonce_at b)
  pub rises : (a b : ℕ) → a ≤ b → nonce_at a ≤ nonce_at b

-- `r` is the last block up to `high` whose nonce is at most `om_nonce`.
pub record IsLastReached (nonce_at : ℕ → ℕ) (om_nonce high r : ℕ) : Type 0 where
  pub in_range : r ≤ high
  pub reached : nonce_at r ≤ om_nonce
  pub last : (b : ℕ) → r < b → b ≤ high → om_nonce < nonce_at b

-- A block from which to read events: what is logged up to it 1Money has reached, and every block
-- whose nonce 1Money has not reached lies at it or after it.
pub record IsResumePoint (nonce_at : ℕ → ℕ) (om_nonce latest r : ℕ) : Type 0 where
  pub in_range : r ≤ latest
  pub reached : nonce_at r ≤ om_nonce
  pub covers : (b : ℕ) → b ≤ latest → om_nonce < nonce_at b → r ≤ b

-- The call returns such a block.
abbrev Finds : (ℕ → ℕ) → ℕ → ℕ → Exit Error ℕ → Type 0
Finds nonce_at om_nonce high exit =
    (r : ℕ) × (exit ≡ done r) × IsLastReached nonce_at om_nonce high r

abbrev pub Resumes : (ℕ → ℕ) → ℕ → ℕ → Exit Error ℕ → Type 0
Resumes nonce_at om_nonce latest exit =
    (r : ℕ) × (exit ≡ done r) × IsResumePoint nonce_at om_nonce latest r

module _ (w : World) (nonce_at : ℕ → ℕ) (nonces : InboundNonces w nonce_at) (om_nonce : ℕ) where
  -- The state after the nonce at a block has been asked.
  abbrev asked : State → ℕ → State
  asked s b = record s {
    history = record { call = get_latest_inbound_nonce b; reply = value (nonce_at b) } ∷ s.history;
  }

  sc_inbound_nonce_at-eq :
      (s : State) (b : ℕ) → sc_inbound_nonce_at w b s ≡ (done (nonce_at b), asked s b)
  unfolding sc_inbound_nonce_at ◌>>=◌ ask
  sc_inbound_nonce_at-eq s b = rw (nonces.answered s.history b)

  -- What a search in the lower half finds holds of the whole range.
  widen :
      (mid high : ℕ) (exit : Exit Error ℕ)
      → om_nonce < nonce_at mid
      → Finds nonce_at om_nonce (mid - 1) exit
      → mid ≤ high
      → 0 < mid
      → Finds nonce_at om_nonce high exit
  widen mid high exit beyond (r, e, found) le pos = (
    r,
    e,
    record {
      in_range = omega (arith, found.in_range);
      reached = found.reached;
      last = λ b p q. elim (Bool-cases (ltb b mid)) [
        | inl below ↦ found.last b p (omega tests)
        | inr above ↦ omega (tests, nonces.rises mid b)
      ];
    },
  )

  search_block_last :
      (fuel low high : ℕ) (s : State)
      → low ≤ high
      → high + high + 1 < u64_mod
      → high < low + fuel
      → nonce_at low ≤ om_nonce
      → Finds nonce_at om_nonce high (search_block w fuel om_nonce low high s).0
  unfolding search_block ◌>>=◌
  search_block_last zero low high s le small enough h = absurd (omega arith)
  search_block_last (suc fuel) low high s le small enough h = elim (Bool-cases (ltb low high)) [
    | inr over ↦
        let eq : high ≤ low = ltb→ge low high over in
        rw over
          (low, refl, record { in_range = le; reached = h; last = λ b p q. absurd (omega arith) })
    | inl more ↦
        let lt : low < high = ltb→lt low high more in
        let mid : ℕ = middle low high in
        rw (more, sc_inbound_nonce_at-eq s (middle low high))
          (elim (Bool-cases (leb (nonce_at mid) om_nonce)) [
            | inl reached ↦ rw reached (
                search_block_last fuel mid high (asked s mid) (omega arith) small (omega arith)
                  (leb→le _ _ reached))
            | inr beyond ↦
                let back : wrapping_sub mid 1 ≡ mid - 1 = omega arith in
                let below : om_nonce < nonce_at mid = leb→gt _ _ beyond in
                rw (beyond, back)
                  (widen mid high _ below
                    (search_block_last fuel low (mid - 1) (asked s mid) (omega arith) (omega arith)
                      (omega arith) h)
                    (omega arith) (omega arith))
          ])
  ]

  last-Resumes :
      (latest : ℕ) (exit : Exit Error ℕ)
      → Finds nonce_at om_nonce latest exit
      → Resumes nonce_at om_nonce latest exit
  last-Resumes latest exit (r, e, found) = (
    r,
    e,
    record {
      in_range = found.in_range;
      reached = found.reached;
      covers = λ b p q. elim (Bool-cases (ltb b r)) [
        | inl below ↦ absurd (omega (tests, nonces.rises b r, found.reached))
        | inr above ↦ omega tests
      ];
    },
  )

  resume_block-Resumes :
      (fuel latest : ℕ) (s : State)
      → nonce_at 0 ≡ 0
      → om_nonce ≤ nonce_at latest
      → latest + latest + 1 < u64_mod
      → latest < fuel
      → Resumes nonce_at om_nonce latest (resume_block w fuel latest om_nonce (nonce_at latest) s).0
  unfolding resume_block
  resume_block-Resumes fuel latest s start le small enough =
      rw (ge→ltb _ _ le) (elim (Bool-cases (om_nonce == 0)) [
        | inl zeroth ↦ rw zeroth (
          0,
          refl,
          record { in_range = omega arith; reached = omega arith; covers = λ b p q. omega arith },
        )
        | inr some_nonce ↦ rw some_nonce (elim (Bool-cases (om_nonce == nonce_at latest)) [
          | inl level ↦ rw level (
            latest,
            refl,
            record {
              in_range = omega arith;
              reached = ground arith;
              covers = λ b p q. absurd (ground (arith, nonces.rises b latest p));
            },
          )
          | inr lower ↦ rw lower (
              last-Resumes latest _
                (search_block_last fuel 0 latest s (omega arith) small (omega arith) (omega arith)))
        ])
      ])

-- What the services answer during the call: the latest block, and the relayer's nonce on 1Money.
pub record Answers (w : World) (config : Config) (latest om_nonce : ℕ) : Type 0 where
  pub block : (h : History) → w.respond h get_block_number ≡ ok latest
  pub client : (h : History) → w.respond h client_custom ≡ ok tt
  pub account :
      (h : History)
      → w.respond h (get_account_nonce config.relayer_private_key.address) ≡ ok om_nonce

-- If the contract's inbound nonce starts at 0 and never falls, the services answer with the latest
-- block and with a 1Money nonce that is not ahead of the contract's, the block numbers leave room in
-- 64 bits, and the rounds are more than the latest block, then `get_latest_incomplete_block_number`
-- returns a block up to the latest whose nonce 1Money has reached, at or before every block whose
-- nonce it has not reached.
pub resume_point :
    (w : World) (config : Config) (nonce_at : ℕ → ℕ) (latest om_nonce fuel : ℕ) (s : State)
    → InboundNonces w nonce_at
    → Answers w config latest om_nonce
    → nonce_at 0 ≡ 0
    → om_nonce ≤ nonce_at latest
    → latest + latest + 1 < u64_mod
    → latest < fuel
    → Resumes nonce_at om_nonce latest (get_latest_incomplete_block_number w fuel config s).0
unfolding get_latest_incomplete_block_number ◌>>=◌ ask
resume_point w config nonce_at latest om_nonce fuel s nonces answers start le small enough =
    rw
      (
        answers.block,
        answers.client,
        answers.account,
        sc_inbound_nonce_at-eq w nonce_at nonces om_nonce,
      )
      (resume_block-Resumes w nonce_at nonces om_nonce fuel latest _ start le small enough)
