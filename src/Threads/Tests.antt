-- ===== src/Threads/Tests.antt =====
-- Runs of the threads of task1_process_threading, and the theorems at concrete inputs.
use samuel_basnet_240512_st.Prelude.{
  arith, List, ℕ, ◌+◌, ◌≤◌, ◌<◌, true, false, ◌≡◌, ◌⊎◌, refl, some, ◌∷◌, [],
}
use samuel_basnet_240512_st.Threads.Scheduler.{Pcb, new_process, run_round_robin}
use samuel_basnet_240512_st.Threads.Scheduler.RoundRobin.{AllWf, work, Ended, round_robin-Ended}
use samuel_basnet_240512_st.Threads.Deadlock.{
  thread_a, thread_b, resource_1, resource_2, lock, unlock, calls, State, start, step, Reach, begin,
  next, Stuck,
}
use samuel_basnet_240512_st.Threads.Deadlock.Phases.{IsAt, Reach-IsAt}
use samuel_basnet_240512_st.Threads.Deadlock.Progress.{
  finished, deadlocked, CanStep, ordered-progress, opposite-deadlock,
}

-- The processes of `main`.
abbrev samples : List Pcb
samples = new_process 1 6 ∷ new_process 2 4 ∷ new_process 3 8 ∷ new_process 4 2 ∷ []

abbrev passes : ℕ
passes = 26

samples-work : work samples + 2 ≤ passes
unfolding work
samples-work = omega arith

samples-AllWf : AllWf samples
samples-AllWf = ((λ h. cc), ((λ h. cc), ((λ h. cc), ((λ h. cc), tt))))

round_robin-Ended_example : Ended samples (run_round_robin passes samples)
round_robin-Ended_example = round_robin-Ended passes samples samples-AllWf samples-work

-- Thread B goes first and holds its mutex, in both variants.
abbrev after_b : State
after_b = record (start false) {
  owner_1 = some thread_b;
  rest_b = lock resource_2 ∷ unlock resource_2 ∷ unlock resource_1 ∷ [];
}

b_first : Reach false 1 after_b
unfolding step calls
b_first = next thread_b begin refl

b_then_a : Reach true 2 deadlocked
unfolding step calls
b_then_a = next thread_a (next thread_b begin refl) refl

b_then_a-Stuck : Stuck deadlocked
unfolding step
b_then_a-Stuck = (refl, refl)

Reach-IsAt_example : IsAt false 1 after_b
Reach-IsAt_example = Reach-IsAt false 1 after_b b_first

abbrev one_call : ℕ
one_call = 1

abbrev two_calls : ℕ
two_calls = 2

ordered-progress_example :
    ((one_call ≡ 8) × (after_b ≡ finished)) ⊎ ((one_call < 8) × CanStep after_b)
ordered-progress_example = ordered-progress 1 after_b b_first

opposite-deadlock_example :
    Reach true 2 deadlocked
    × Stuck deadlocked
    × (((two_calls ≡ 8) × (deadlocked ≡ finished)) ⊎ ((two_calls ≡ 2) × (deadlocked ≡ deadlocked)))
opposite-deadlock_example = opposite-deadlock 2 deadlocked b_then_a b_then_a-Stuck
