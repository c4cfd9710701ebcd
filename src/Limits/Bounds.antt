-- ===== src/Limits/Bounds.antt =====
-- The limits of a flashblock lie within those of the job.
use rblib_world_chain.Prelude.{
  ℕ, ◌-◌, ◌/◌, ◌%◌, ◌≤◌, ◌<◌, ◌≡◌, ◌≢◌, ◌↔◌, ◌⊎◌, refl, none, some, arith,
}
use native.Mathlib.Decide.{ℕ_discrete}
use native.Mathlib.Nat.{le-div_iff_mul-le, div-le_self, mul-div-le}
use rblib_world_chain.Limits.{FlashblockLimits, Limits, as_millis, share_out, create, u64_mod}

-- With two intervals left, one interval fits into the remaining time.
interval_fits :
    (interval time n : ℕ)
    → as_millis interval ≢ 0
    → n ≡ (as_millis time / as_millis interval) % u64_mod
    → 1 < n
    → interval ≤ time
interval_fits interval time n pos e h =
    let two : 2 ≤ as_millis time / as_millis interval = omega arith in
    omega (arith, (le-div_iff_mul-le {k = as_millis interval} (omega arith)).0 two)

-- The limits have a deadline, no later than `time`.
abbrev pub EndsBy : Limits → ℕ → Type 0
EndsBy l time = elim l.deadline [ none ↦ ⊥ | some d ↦ d ≤ time ]

share_out_within :
    (fl : FlashblockLimits) (gas_used time n : ℕ) (enclosing : Limits)
    → as_millis fl.interval ≢ 0
    → n ≡ (as_millis time / as_millis fl.interval) % u64_mod
    → let l = share_out fl gas_used enclosing time n in
      (l.gas_limit ≤ enclosing.gas_limit) × EndsBy l time
unfolding share_out
share_out_within fl gas_used time n enclosing pos e =
    ground (
      arith,
      interval_fits fl.interval time n pos e,
      div-le_self (enclosing.gas_limit - gas_used) n,
    )

-- Where the job has a deadline and create returns limits, their gas limit is no higher than the
-- job's, and their deadline no later than what is left of the job's.
pub create_within :
    (fl : FlashblockLimits) (elapsed gas_used : ℕ) (enclosing l : Limits) (deadline : ℕ)
    → enclosing.deadline ≡ some deadline
    → create fl elapsed gas_used enclosing ≡ some l
    → (l.gas_limit ≤ enclosing.gas_limit) × EndsBy l (deadline - elapsed)
unfolding create
create_within fl elapsed gas_used enclosing l deadline e h =
    let time = deadline - elapsed in
    let n = (as_millis time / as_millis fl.interval) % u64_mod in
    elim (ℕ_discrete (as_millis fl.interval) 0) [
      | yes zero_interval ↦ absurd (ground arith)
      | no pos ↦ rw (← l_eq pos) (share_out_within fl gas_used time n enclosing pos refl)
    ]
  where
    l_eq :
        as_millis fl.interval ≢ 0
        → share_out fl gas_used enclosing
            (deadline - elapsed)
            ((as_millis (deadline - elapsed) / as_millis fl.interval) % u64_mod)
          ≡ l
    l_eq pos = ground arith

-- The call of create panics exactly where the job has no deadline or the interval is below a
-- millisecond.
pub create_panics :
    (fl : FlashblockLimits) (elapsed gas_used : ℕ) (enclosing : Limits)
    → (create fl elapsed gas_used enclosing ≡ none)
      ↔ ((enclosing.deadline ≡ none) ⊎ (fl.interval < 1000000))
unfolding create
create_panics fl elapsed gas_used enclosing = (λ h. ground arith, λ h. ground arith)

share_keeps : (left n used : ℕ) → 1 < n → used ≤ left / n → left / n ≤ (left - used) / (n - 1)
share_keeps left n used h le =
    (le-div_iff_mul-le {k = n - 1} (omega arith)).1 (grind (arith, mul-div-le left n))

-- With more than two intervals left and gas limits below 2^64, a flashblock that stays within its
-- limit, and below the job's, leaves the next one, with one interval less to go, a share of the gas
-- that is no smaller.
pub share_out_fair :
    (fl : FlashblockLimits) (enclosing : Limits) (gas_used gas_used' time time' n : ℕ)
    → enclosing.gas_limit < u64_mod
    → 2 < n
    → gas_used ≤ gas_used'
    → gas_used' < enclosing.gas_limit
    → gas_used' ≤ (share_out fl gas_used enclosing time n).gas_limit
    → (share_out fl gas_used enclosing time n).gas_limit - gas_used
      ≤ (share_out fl gas_used' enclosing time' (n - 1)).gas_limit - gas_used'
unfolding share_out
share_out_fair fl enclosing gas_used gas_used' time time' n bounded two le below used = ground (
  arith,
  share_keeps (enclosing.gas_limit - gas_used) n (gas_used' - gas_used),
  div-le_self (enclosing.gas_limit - gas_used) n,
  div-le_self (enclosing.gas_limit - gas_used') (n - 1),
)
