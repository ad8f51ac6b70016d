-- ===== src/Threads/Scheduler/Handoff/Moves.antt =====
-- The steps of the threads of scheduler.c where what a thread does behind its `sem_post` is one with
-- it: a device of the proofs, to which Settle reduces the steps of Handoff.
use samuel_basnet_240512_st.Prelude.{
  ℕ, suc, ◌+◌, ◌≤◌, ◌<◌, Bool, true, false, List, [], ◌∷◌, ◌++◌, ◌≡◌, length,
}
use samuel_basnet_240512_st.Threads.Scheduler.{is_done, run_time}
use samuel_basnet_240512_st.Threads.Scheduler.Handoff.{
  waiting, going, executing, reporting, Process, looking, awaiting, returned, State, begun,
  executed, gone,
}

pub data Move (s : State) : State → Type 0 where
  skip :
      (ws vs : List Process) (p : Process) (f : ℕ)
      → s.dispatcher ≡ looking (length ws) f
      → s.processes ≡ ws ++ p ∷ vs
      → is_done p.pcb.state ≡ true
      → Move s (record s { dispatcher = looking (length ws + 1) (f + 1) })
  give_turn :
      (ws vs : List Process) (p : Process) (f : ℕ)
      → s.dispatcher ≡ looking (length ws) f
      → s.processes ≡ ws ++ p ∷ vs
      → is_done p.pcb.state ≡ false
      → Move s (record s {
        dispatcher = awaiting (length ws) f;
        processes = ws ++ record p { turn_sem = p.turn_sem + 1 } ∷ vs;
      })
  take_done :
      (i f n : ℕ)
      → s.dispatcher ≡ awaiting i f
      → s.done_sem ≡ suc n
      → Move s (record s { dispatcher = looking (i + 1) f; done_sem = n })
  next_pass :
      (f : ℕ)
      → s.dispatcher ≡ looking (length s.processes) f
      → f < length s.processes
      → Move s (record s { dispatcher = looking 0 0 })
  finish :
      (f : ℕ)
      → s.dispatcher ≡ looking (length s.processes) f
      → length s.processes ≤ f
      → Move s (record s { dispatcher = returned })
  wake :
      (ws vs : List Process) (p : Process) (n : ℕ)
      → s.processes ≡ ws ++ p ∷ vs
      → p.at ≡ waiting
      → p.turn_sem ≡ suc n
      → Move s (record s { processes = ws ++ record p { turn_sem = n; at = going } ∷ vs })
  begin :
      (ws vs : List Process) (p : Process)
      → s.processes ≡ ws ++ p ∷ vs
      → p.at ≡ going
      → Move s (record s {
        processes = ws ++ begun p ∷ vs;
        ran = s.ran ++ (p.pcb.pid, run_time p.pcb) ∷ [];
      })
  execute :
      (ws vs : List Process) (p : Process) (units : ℕ)
      → s.processes ≡ ws ++ p ∷ vs
      → p.at ≡ executing units
      → Move s (record s { processes = ws ++ executed units p ∷ vs })
  report :
      (ws vs : List Process) (p : Process) (just_finished : Bool)
      → s.processes ≡ ws ++ p ∷ vs
      → p.at ≡ reporting just_finished
      → Move s (record s { done_sem = s.done_sem + 1; processes = ws ++ gone just_finished p ∷ vs })
