-- ===== src/Threads/Counter.antt =====
-- The race demonstration of task1_process_threading/scheduler.c: the threads of `counter_worker`
-- with the two counters and `pcb_lock`, as steps that interleave in any order. A load and a store of
-- a counter are steps of their own, inside the lock as well. The counters stay below 2 ^ 31, the
-- least range of a `long`: the program makes 8000 increments.
pub mod Parts
pub mod Moves
pub mod Safe
pub mod Lost
mod Tests
use samuel_basnet_240512_st.Prelude.{
  ℕ, zero, suc, ◌+◌, ◌<◌, Bool, true, false, List, [], ◌∷◌, ◌++◌, ◌≡◌, replicate,
}

abbrev pub num_processes : ℕ
num_processes = 4

abbrev pub increments_per_thread : ℕ
increments_per_thread = 2000

-- Where a thread stands in the body of its loop, with its `temp`, or with what `shared_counter_safe++`
-- has loaded.
pub data At : Type 0 where
  top stored locked counted : At
  loaded counting : (temp : ℕ) → At

-- A thread in its round `i`.
pub record Worker : Type 0 where
  pub i : ℕ
  pub at : At

pub record State : Type 0 where
  pub unsafe : ℕ
  pub safe : ℕ
  pub lock : Bool
  pub workers : List Worker

-- A step of one thread, with `k` rounds for each: `workers` in front of it and behind it stay.
pub data Step (k : ℕ) (s : State) : State → Type 0 where
  load_unsafe :
      (ws vs : List Worker) (i : ℕ)
      → s.workers ≡ ws ++ record { i = i; at = top } ∷ vs
      → i < k
      → Step k s (record s { workers = ws ++ record { i = i; at = loaded s.unsafe } ∷ vs })
  store_unsafe :
      (ws vs : List Worker) (i temp : ℕ)
      → s.workers ≡ ws ++ record { i = i; at = loaded temp } ∷ vs
      → Step k s
          (record s { unsafe = temp + 1; workers = ws ++ record { i = i; at = stored } ∷ vs })
  acquire :
      (ws vs : List Worker) (i : ℕ)
      → s.workers ≡ ws ++ record { i = i; at = stored } ∷ vs
      → s.lock ≡ false
      → Step k s (record s { lock = true; workers = ws ++ record { i = i; at = locked } ∷ vs })
  load_safe :
      (ws vs : List Worker) (i : ℕ)
      → s.workers ≡ ws ++ record { i = i; at = locked } ∷ vs
      → Step k s (record s { workers = ws ++ record { i = i; at = counting s.safe } ∷ vs })
  store_safe :
      (ws vs : List Worker) (i temp : ℕ)
      → s.workers ≡ ws ++ record { i = i; at = counting temp } ∷ vs
      → Step k s (record s { safe = temp + 1; workers = ws ++ record { i = i; at = counted } ∷ vs })
  release :
      (ws vs : List Worker) (i : ℕ)
      → s.workers ≡ ws ++ record { i = i; at = counted } ∷ vs
      → Step k s (record s { lock = false; workers = ws ++ record { i = i + 1; at = top } ∷ vs })

pub data Reach (k : ℕ) (s : State) : State → Type 0 where
  here : Reach k s s
  later : {t u : State} → Reach k s t → Step k t u → Reach k s u

-- `n` threads that have been created.
abbrev pub created : ℕ → State
created n = record {
  unsafe = 0;
  safe = 0;
  lock = false;
  workers = replicate n (record { i = 0; at = top });
}

-- All `n` threads have returned.
abbrev pub Returned : ℕ → ℕ → State → Type 0
Returned n k s = s.workers ≡ replicate n (record { i = k; at = top })
