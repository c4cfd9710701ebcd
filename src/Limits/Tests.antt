-- ===== src/Limits/Tests.antt =====
-- Runs of the limits on a job of one second with intervals of a quarter.
use rblib_world_chain.Prelude.{◌-◌, ◌≡◌, ◌≤◌, refl, arith, some}
use rblib_world_chain.Limits.{Limits, FlashblockLimits, with_interval, share_out, create}
use rblib_world_chain.Limits.Bounds.{share_out_fair}

abbrev quarter : FlashblockLimits
quarter = with_interval 250000000

abbrev job_limits : Limits
job_limits = record { deadline = some 1000000000; gas_limit = 1000 }

-- After one tenth of a second there is room for three flashblocks.
abbrev first_limits : Limits
first_limits = record { deadline = some 250000000; gas_limit = 400 }

creates : create quarter 100000000 100 job_limits ≡ some first_limits
unfolding create share_out
creates = refl

share_out_fair_example :
    (share_out quarter 100 job_limits 900000000 3).gas_limit - 100
    ≤ (share_out quarter 350 job_limits 650000000 (3 - 1)).gas_limit - 350
unfolding share_out
share_out_fair_example =
    share_out_fair quarter job_limits 100 350 900000000 650000000 3 (omega arith) (omega arith)
      (omega arith) (omega arith) (omega arith)
