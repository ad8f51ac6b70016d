-- ===== src/Threads/Counter/Tests.antt =====
-- The theorems on the counters of scheduler.c at concrete numbers.
use samuel_basnet_240512_st.Prelude.{◌≤◌, ◌≡◌, arith}
use samuel_basnet_240512_st.Threads.Counter.{
  State, Reach, created, Returned, increments_per_thread, num_processes,
}
use samuel_basnet_240512_st.Threads.Counter.Safe.{returned-exact}
use samuel_basnet_240512_st.Threads.Counter.Lost.{updates-lost}

updates-lost_example :
    (s : State) × Reach increments_per_thread (created num_processes) s
    × Returned num_processes increments_per_thread s
    × (s.unsafe ≡ 2000)
    × (s.safe ≡ 8000)
updates-lost_example = updates-lost num_processes increments_per_thread (omega arith)

lost_run : (s : State) × Reach 1 (created 2) s × Returned 2 1 s × (s.unsafe ≡ 1) × (s.safe ≡ 2)
lost_run = updates-lost 2 1 (omega arith)

returned-exact_example : (lost_run.0.safe ≡ 2) × (lost_run.0.unsafe ≤ 2)
returned-exact_example = returned-exact 2 1 lost_run.1 lost_run.2
