-- ===== src/Threads/Scheduler.antt =====
-- The round-robin dispatcher of task1_process_threading/scheduler.c. It posts the semaphore of one
-- process and waits for `done_sem`, which that process posts at the end of its slice, and all other
-- processes wait for their own semaphores: so a slice is one step, and the state RUNNING is over
-- when the dispatcher looks at the array again.
pub mod RoundRobin
pub mod Handoff
mod Tests
use samuel_basnet_240512_st.Prelude.{
  ℕ, zero, suc, ◌+◌, ◌-◌, Bool, true, false, Option, none, some, List, [], ◌∷◌, ◌++◌, ◌==◌, ltb,
  if◌then◌else◌, length,
}

abbrev pub time_quantum : ℕ
time_quantum = 2

pub data ProcessState : Type 0 where
  ready running done : ProcessState

pub record Pcb : Type 0 where
  pub pid : ℕ
  pub burst_time : ℕ
  pub remaining_time : ℕ
  pub state : ProcessState

-- What a process prints when it runs: its `pid` and its `run_time`.
abbrev pub Ran : Type 0
Ran = ℕ × ℕ

abbrev pub run_time : Pcb → ℕ
run_time p = if ltb p.remaining_time time_quantum then p.remaining_time else time_quantum

-- One turn of `process_thread`.
unfoldable pub slice : Pcb → Pcb
slice p =
    let left = p.remaining_time - run_time p in
    record p { remaining_time = left; state = if left == 0 then done else ready }

abbrev pub is_done : ProcessState → Bool
is_done ready = false
is_done running = false
is_done done = true

-- What the `for` loop over the processes leaves: the count of those it found DONE, the array, and
-- the slices in their order.
pub record Pass : Type 0 where
  pub finished : ℕ
  pub processes : List Pcb
  pub ran : List Ran

abbrev pub visit : Pcb → Pass → Pass
visit p rest =
    if is_done p.state
    then record rest { finished = rest.finished + 1; processes = p ∷ rest.processes }
    else record rest { processes = slice p ∷ rest.processes; ran = (p.pid, run_time p) ∷ rest.ran }

unfoldable pub pass : List Pcb → Pass
pass [] = record { finished = 0; processes = []; ran = [] }
pass (p ∷ ps) = visit p (pass ps)

abbrev pub and_then : List Ran → Option (List Pcb × List Ran) → Option (List Pcb × List Ran)
and_then ran none = none
and_then ran (some r) = some (r.0, ran ++ r.1)

-- The `while` loop; `none` where the fuel ends before it does.
unfoldable pub dispatch : ℕ → ℕ → List Pcb → Option (List Pcb × List Ran)
dispatch zero finished ps = none
dispatch (suc fuel) finished ps =
    let t = pass ps in
    let rest = dispatch fuel t.finished t.processes in
    if ltb finished (length ps) then and_then t.ran rest else some (ps, [])

unfoldable pub run_round_robin : ℕ → List Pcb → Option (List Pcb × List Ran)
run_round_robin fuel ps = dispatch fuel 0 ps

-- A process that has not begun.
abbrev pub new_process : ℕ → ℕ → Pcb
new_process pid burst = record {
  pid = pid;
  burst_time = burst;
  remaining_time = burst;
  state = ready;
}
