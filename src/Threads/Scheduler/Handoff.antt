-- ===== src/Threads/Scheduler/Handoff.antt =====
-- The threads of task1_process_threading/scheduler.c one by one: the dispatcher on the main thread
-- and `process_thread`, with the semaphores `turn_sem` and `done_sem`. A step is a call of `sem_wait`
-- or `sem_post`, what a thread does under `pcb_lock`, or what it does behind its `sem_post`: it goes
-- round its loop or returns. The steps interleave in any order.
pub mod Predict
pub mod Moves
pub mod Phases
pub mod Refine
pub mod Settle
pub mod Ends
use samuel_basnet_240512_st.Prelude.{
  ℕ, zero, suc, ◌+◌, ◌-◌, ◌≤◌, ◌<◌, Bool, true, false, List, [], ◌∷◌, ◌++◌, ◌≡◌, ◌==◌,
  if◌then◌else◌, length, map,
}
use samuel_basnet_240512_st.Threads.Scheduler.{Pcb, Ran, ready, running, done, is_done, run_time}

-- Where a thread stands in `process_thread`: in `sem_wait` of its semaphore, behind it, in its
-- burst, in front of `sem_post`, behind it and in front of `if (just_finished)`, or it has returned.
pub data At : Type 0 where
  waiting going exited : At
  executing : (units : ℕ) → At
  reporting leaving : (just_finished : Bool) → At

pub record Process : Type 0 where
  pub pcb : Pcb
  pub turn_sem : ℕ
  pub at : At

-- Where the dispatcher stands: in front of the process `i`, in `sem_wait` of `done_sem` for it, or it has returned.
pub data Dispatcher : Type 0 where
  looking awaiting : (i finished : ℕ) → Dispatcher
  returned : Dispatcher

pub record State : Type 0 where
  pub dispatcher : Dispatcher
  pub done_sem : ℕ
  pub processes : List Process
  pub ran : List Ran

abbrev pub begun : Process → Process
begun p = record p { pcb = record p.pcb { state = running }; at = executing (run_time p.pcb) }

abbrev pub executed : ℕ → Process → Process
executed units p =
    let left = p.pcb.remaining_time - units in
    record p {
      pcb = record p.pcb { remaining_time = left; state = if left == 0 then done else ready };
      at = reporting (left == 0);
    }

abbrev pub reported : Bool → Process → Process
reported just_finished p = record p { at = leaving just_finished }

-- `break` and the return of the thread, or the next round of its loop.
abbrev pub gone : Bool → Process → Process
gone just_finished p = record p { at = if just_finished then exited else waiting }

pub data Step (s : State) : State → Type 0 where
  skip :
      (ws vs : List Process) (p : Process) (f : ℕ)
      → s.dispatcher ≡ looking (length ws) f
      → s.processes ≡ ws ++ p ∷ vs
      → is_done p.pcb.state ≡ true
      → Step s (record s { dispatcher = looking (length ws + 1) (f + 1) })
  give_turn :
      (ws vs : List Process) (p : Process) (f : ℕ)
      → s.dispatcher ≡ looking (length ws) f
      → s.processes ≡ ws ++ p ∷ vs
      → is_done p.pcb.state ≡ false
      → Step s (record s {
        dispatcher = awaiting (length ws) f;
        processes = ws ++ record p { turn_sem = p.turn_sem + 1 } ∷ vs;
      })
  take_done :
      (i f n : ℕ)
      → s.dispatcher ≡ awaiting i f
      → s.done_sem ≡ suc n
      → Step s (record s { dispatcher = looking (i + 1) f; done_sem = n })
  next_pass :
      (f : ℕ)
      → s.dispatcher ≡ looking (length s.processes) f
      → f < length s.processes
      → Step s (record s { dispatcher = looking 0 0 })
  finish :
      (f : ℕ)
      → s.dispatcher ≡ looking (length s.processes) f
      → length s.processes ≤ f
      → Step s (record s { dispatcher = returned })
  wake :
      (ws vs : List Process) (p : Process) (n : ℕ)
      → s.processes ≡ ws ++ p ∷ vs
      → p.at ≡ waiting
      → p.turn_sem ≡ suc n
      → Step s (record s { processes = ws ++ record p { turn_sem = n; at = going } ∷ vs })
  begin :
      (ws vs : List Process) (p : Process)
      → s.processes ≡ ws ++ p ∷ vs
      → p.at ≡ going
      → Step s (record s {
        processes = ws ++ begun p ∷ vs;
        ran = s.ran ++ (p.pcb.pid, run_time p.pcb) ∷ [];
      })
  execute :
      (ws vs : List Process) (p : Process) (units : ℕ)
      → s.processes ≡ ws ++ p ∷ vs
      → p.at ≡ executing units
      → Step s (record s { processes = ws ++ executed units p ∷ vs })
  report :
      (ws vs : List Process) (p : Process) (just_finished : Bool)
      → s.processes ≡ ws ++ p ∷ vs
      → p.at ≡ reporting just_finished
      → Step s
          (record s { done_sem = s.done_sem + 1; processes = ws ++ reported just_finished p ∷ vs })
  leave :
      (ws vs : List Process) (p : Process) (just_finished : Bool)
      → s.processes ≡ ws ++ p ∷ vs
      → p.at ≡ leaving just_finished
      → Step s (record s { processes = ws ++ gone just_finished p ∷ vs })

pub data Reach (s : State) : State → Type 0 where
  here : Reach s s
  later : {t u : State} → Reach s t → Step t u → Reach s u

abbrev pub created : List Pcb → State
created ps = record {
  dispatcher = looking 0 0;
  done_sem = 0;
  processes = map (λ p. record { pcb = p; turn_sem = 0; at = waiting }) ps;
  ran = [];
}

abbrev pub pcbs : List Process → List Pcb
pcbs = map (λ p. p.pcb)
