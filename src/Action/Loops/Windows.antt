-- ===== src/Action/Loops/Windows.antt =====
-- The windows of a block range: the loop `scan_blocks` ends, and runs its body on windows that
-- partition the range.
use money_interoperability.Prelude.{
  ap, fun_ext, ℕ, zero, suc, ◌+◌, ◌*◌, ◌≤◌, ◌<◌, ◌≡◌, refl, List, [], ◌∷◌, arith, leb, gt→leb,
  leb→le, leb→gt, u64_max, Bool-cases, inl, inr, if◌then◌else◌, wrapping_add,
}
use money_interoperability.Action.Loops.{
  max_block_range, window_end, Flow, and_then, scan_blocks, for_windows,
}
use money_interoperability.Action.Monad.{Action, ◌>>=◌}

-- The windows, in order, cover every block from `start` to `to` once, each with at most
-- `max_block_range` blocks.
abbrev pub IsPartition : ℕ → ℕ → List (ℕ × ℕ) → Type 0
IsPartition start to [] = to < start
IsPartition start to ((a, b) ∷ ws) =
    (a ≡ start) × (a ≤ b) × (b ≤ to) × (b < a + max_block_range) × IsPartition (b + 1) to ws

windows : ℕ → ℕ → ℕ → List (ℕ × ℕ)
windows zero start to = []
windows (suc f) start to =
    let end = window_end start to in
    let rest = windows f (end + 1) to in if leb start to then (start, end) ∷ rest else []

windows-IsPartition :
    (f start to : ℕ)
    → to + max_block_range ≤ u64_max
    → to < start + f * max_block_range
    → IsPartition start to (windows f start to)
unfolding windows
windows-IsPartition zero start to fits enough = omega arith
windows-IsPartition (suc f) start to fits enough = elim (Bool-cases (leb start to)) [
  | inl more ↦
      let le : start ≤ to = leb→le start to more in
      rw more (
        refl,
        omega arith,
        omega arith,
        omega arith,
        windows-IsPartition f (window_end start to + 1) to fits (omega arith),
      )
  | inr over ↦ rw over (leb→gt start to over)
]

module _ {E S B : Type 0} (body : ℕ → ℕ → S → Action E (Flow S B)) where
  scan_blocks-eq :
      (f start to : ℕ) (acc : S)
      → to + max_block_range ≤ u64_max
      → to < start + f * max_block_range
      → scan_blocks (suc f) start to acc body ≡ for_windows (windows f start to) acc body
  unfolding windows scan_blocks for_windows
  scan_blocks-eq zero start to acc fits enough = rw (gt→leb start to (omega arith))
  scan_blocks-eq (suc f) start to acc fits enough = elim (Bool-cases (leb start to)) [
    | inl more ↦
        let le : start ≤ to = leb→le start to more in
        let after : wrapping_add (window_end start to) 1 ≡ window_end start to + 1 = omega arith in
        rw (more, after)
          (ap (λ k. body start (window_end start to) acc >>= λ found. and_then found k)
            (fun_ext
              (λ acc'. scan_blocks-eq f (window_end start to + 1) to acc' fits (omega arith))))
    | inr over ↦ rw over
  ]

  -- If the range leaves room in 64 bits and the rounds are one more than what covers it in steps of
  -- 100,000 blocks, the loop over a block range does what its body does on a list of windows, which
  -- partition the range in order, each with at most 100,000 blocks.
  pub scan_blocks_windows :
      (f start to : ℕ)
      → to + max_block_range ≤ u64_max
      → to < start + f * max_block_range
      → (ws : List (ℕ × ℕ)) × IsPartition start to ws
        × ((acc : S) → scan_blocks (suc f) start to acc body ≡ for_windows ws acc body)
  scan_blocks_windows f start to fits enough = (
    windows f start to,
    windows-IsPartition f start to fits enough,
    λ acc. scan_blocks-eq f start to acc fits enough,
  )
