-- ===== src/Threads/Scheduler/Tests.antt =====
-- The theorems on the threads of scheduler.c at a concrete run.
use samuel_basnet_240512_st.Prelude.{◌+◌, ◌≡◌, ◌⊎◌, refl, arith, List, [], ◌∷◌, some, All, true}
use samuel_basnet_240512_st.Threads.Scheduler.{Pcb, new_process, run_round_robin, done}
use samuel_basnet_240512_st.Threads.Scheduler.RoundRobin.{work}
use samuel_basnet_240512_st.Threads.Scheduler.Handoff.{
  State, Step, Reach, here, later, created, skip, give_turn, take_done, next_pass, finish, wake,
  begin, execute, report, Process, leaving, waiting, awaiting, returned, pcbs,
}
use samuel_basnet_240512_st.Threads.Scheduler.Handoff.Ends.{IsOver, handoff-moves, handoff-refines}

-- A process that needs one unit, at the start and at the end of its turn.
abbrev one_process : List Pcb
one_process = new_process 1 1 ∷ []

abbrev given : Process
given = record { pcb = new_process 1 1; turn_sem = 1; at = waiting }

abbrev over : Process
over = record {
  pcb = record (new_process 1 1) { remaining_time = 0; state = done };
  turn_sem = 0;
  at = leaving true;
}

abbrev end_state : State
end_state = record { dispatcher = returned; done_sem = 0; processes = over ∷ []; ran = (1, 1) ∷ [] }

given_reached :
    Reach
      (created one_process)
      (record { dispatcher = awaiting 0 0; done_sem = 0; processes = given ∷ []; ran = [] })
given_reached = later here (give_turn [] [] _ 0 refl refl refl)

whole_run : Reach (created one_process) end_state
whole_run =
    let turn =
      later
        (later
          (later (later given_reached (wake [] [] _ 0 refl refl refl)) (begin [] [] _ refl refl))
          (execute [] [] _ 1 refl refl))
        (report [] [] _ true refl refl) in
    later
      (later (later (later turn (take_done 0 0 0 refl refl)) (next_pass 0 refl (omega arith)))
        (skip [] [] over 0 refl refl refl))
      (finish 1 refl (omega arith))

handoff-moves_example :
    let s : State = record {
      dispatcher = awaiting 0 0;
      done_sem = 0;
      processes = given ∷ [];
      ran = [];
    } in
    (s.dispatcher ≡ returned) ⊎ ((t : State) × Step s t)
handoff-moves_example = handoff-moves one_process (refl, tt) given_reached

handoff-refines_example :
    (run_round_robin (work one_process + 2) one_process
      ≡ some (pcbs end_state.processes, end_state.ran))
    × All IsOver end_state.processes
handoff-refines_example = handoff-refines one_process (refl, tt) whole_run refl
