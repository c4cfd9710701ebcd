-- ===== src/Limits.antt =====
-- src/limits.rs: the limits of the next flashblock, from the time and gas that are left of the job.
-- A `Duration` is its number of nanoseconds. The elapsed time and the gas used so far are arguments.
-- `none` is a panic: no deadline on the enclosing scope, or an interval below a millisecond.
pub mod Bounds
mod Tests
use rblib_world_chain.Prelude.{
  u64_mod, ℕ, ◌+◌, ◌-◌, ◌/◌, ◌%◌, ◌^◌, min, Option, none, some, ◌==◌, leb, if◌then◌else◌,
}

pub record Limits : Type 0 where
  pub deadline : Option ℕ
  pub gas_limit : ℕ

-- `FlashblockLimits`
pub record FlashblockLimits : Type 0 where
  pub interval : ℕ

abbrev pub with_interval : ℕ → FlashblockLimits
with_interval interval = record { interval = interval }

abbrev pub as_millis : ℕ → ℕ
as_millis nanos = nanos / 1000000

abbrev pub saturating_add : ℕ → ℕ → ℕ
saturating_add a b = min (a + b) (u64_mod - 1)

abbrev pub with_deadline : Limits → ℕ → Limits
with_deadline l d = record l { deadline = some d }

abbrev pub with_gas_limit : Limits → ℕ → Limits
with_gas_limit l g = record l { gas_limit = g }

-- From the remaining time and the number of flashblocks that fit it.
unfoldable pub share_out : FlashblockLimits → ℕ → Limits → ℕ → ℕ → Limits
share_out fl gas_used enclosing remaining_time remaining_blocks =
    if leb remaining_blocks 1
    then with_deadline enclosing remaining_time
    else (let remaining_gas = enclosing.gas_limit - gas_used in
        if remaining_gas == 0
        then with_deadline enclosing remaining_time
        else (let gas_per_block = remaining_gas / remaining_blocks in
            with_gas_limit (with_deadline enclosing fl.interval)
              (saturating_add gas_used gas_per_block)))

unfoldable pub create : FlashblockLimits → (elapsed gas_used : ℕ) → Limits → Option Limits
create fl elapsed gas_used enclosing = elim enclosing.deadline [
  | none ↦ none
  | some payload_deadline ↦
      let remaining_time = payload_deadline - elapsed in
      if as_millis fl.interval == 0
      then none
      else some (
          share_out fl gas_used enclosing remaining_time
            ((as_millis remaining_time / as_millis fl.interval) % u64_mod))
]
