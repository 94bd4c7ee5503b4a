-- ===== src/Adaptive/Step.antt =====
-- One step of the split.
use opc_stack.Base.{ℕ, ◌+◌, ◌-◌, ◌*◌, ◌≤◌, ◌<◌, ◌≡◌, some, ltb, arith, Bool-cases, inl, inr}
use opc_stack.Base.Int.{pos}
use opc_stack.Adaptive.{Share, decide, is_tolerated, split_at}

-- A split that a step may choose.
abbrev pub IsStep : (current : ℕ) → Share → (step core lab : ℕ) → Type 0
IsStep current share step core lab =
    (0 < core)
    × (0 < lab)
    × (core + lab ≡ 100)
    × (current * share.whole < 100 * share.part → core + step ≡ current)
    × (100 * share.part ≤ current * share.whole → core ≡ current + step)

split_at-sum :
    (n core lab : ℕ)
    → split_at n ≡ some (core, lab)
    → (core ≡ n) × (0 < n) × (lab ≡ 100 - n) × (n < 100)
split_at-sum n core lab h = ground arith

-- A step leaves both tracks a share and moves Core by one step, away from the measured share: down
-- when more than the intended share of the work was Core's, up when it was less.
pub decide_steps :
    (current : ℕ) (share : Share) (drift_points step core lab : ℕ)
    → decide (pos current) share drift_points step ≡ some (core, lab)
    → IsStep current share step core lab
unfolding decide
decide_steps current share drift_points step core lab h =
    elim (Bool-cases (is_tolerated current share drift_points)) [
      | inl e ↦ let q = rw e at h in cc
      | inr e ↦ elim (Bool-cases (ltb (current * share.whole) (100 * share.part))) [
        | inl f ↦
            let q = split_at-sum (current - step) core lab (rw f at (rw e at h)) in
            (ground arith, ground arith, ground arith, (λ k. ground arith), λ k. ground arith)
        | inr f ↦
            let q = split_at-sum (current + step) core lab (rw f at (rw e at h)) in
            (ground arith, ground arith, ground arith, (λ k. ground arith), λ k. ground arith)
      ]
    ]
