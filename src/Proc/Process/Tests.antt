-- ===== src/Proc/Process/Tests.antt =====
-- The theorems on the calls at the sample table.
use zwei_os.Base.{◌-◌, ◌^◌, ◌≡◌, refl, true, negsuc, arith}
use zwei_os.Proc.Process.{process_kill, wait_round}
use zwei_os.Proc.Process.Pids.{HasUniquePids}
use zwei_os.Proc.Process.Wait.{WaitOutcome, wait_round_lem}
use zwei_os.Proc.Process.Calls.{RunsInTable}
use zwei_os.Proc.Process.Create.{fork, after, after-HasUniquePids}
use zwei_os.Proc.Process.Lookup.{Ended, process_kill_lem}
use zwei_os.Proc.Sample.{three, three-HasUniquePids}

three-RunsInTable : RunsInTable (three 0)
three-RunsInTable c e = (ground (arith, e), ground (arith, e))

after-HasUniquePids_example : HasUniquePids (after (three 0) fork)
after-HasUniquePids_example =
    after-HasUniquePids (three 0) fork three-RunsInTable (omega arith) (three-HasUniquePids 0)

wait_round_lem_example : WaitOutcome (three 0) (negsuc 0) 0 (wait_round (three 0) (negsuc 0) 0)
wait_round_lem_example = wait_round_lem (three 0) (negsuc 0) 0 refl

process_kill_lem_example :
    ((process_kill (three 0) 2).0 ≡ true)
    × Ended (three 0) 2 (2 ^ 64 - 9) (process_kill (three 0) 2).1
process_kill_lem_example =
    process_kill_lem (three 0) 2 (three-HasUniquePids 0) (omega arith) (omega arith) refl
