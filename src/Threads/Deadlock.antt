-- ===== src/Threads/Deadlock.antt =====
-- task1_process_threading/deadlock_demo.c: two threads that take two mutexes, in the same order or
-- (`DEMO_UNSAFE`) in opposite ones.
pub mod Phases
pub mod Progress
use samuel_basnet_240512_st.Prelude.{
  ℕ, zero, suc, ◌+◌, ◌≤◌, Bool, true, false, Option, none, some, List, [], ◌∷◌, ◌≡◌, refl, arith,
  length, if◌then◌else◌,
}

pub data Thread : Type 0 where
  thread_a thread_b : Thread

pub data Resource : Type 0 where
  resource_1 resource_2 : Resource

-- What a thread does to the mutexes; it prints and sleeps in between.
pub data Call : Type 0 where
  lock unlock : Resource → Call

-- The calls of `thread_a` and `thread_b`, with `DEMO_UNSAFE` or without.
unfoldable pub calls : Bool → Thread → List Call
calls demo_unsafe Thread.thread_a =
    lock resource_1 ∷ lock resource_2 ∷ unlock resource_2 ∷ unlock resource_1 ∷ []
calls true Thread.thread_b =
    lock resource_2 ∷ lock resource_1 ∷ unlock resource_1 ∷ unlock resource_2 ∷ []
calls false Thread.thread_b =
    lock resource_1 ∷ lock resource_2 ∷ unlock resource_2 ∷ unlock resource_1 ∷ []

-- The owners of the mutexes, and the calls that the threads still have to make.
pub record State : Type 0 where
  pub owner_1 : Option Thread
  pub owner_2 : Option Thread
  pub rest_a : List Call
  pub rest_b : List Call

abbrev pub start : Bool → State
start demo_unsafe = record {
  owner_1 = none;
  owner_2 = none;
  rest_a = calls demo_unsafe thread_a;
  rest_b = calls demo_unsafe thread_b;
}

abbrev pub owner : Resource → State → Option Thread
owner resource_1 s = s.owner_1
owner resource_2 s = s.owner_2

abbrev pub set_owner : Resource → Option Thread → State → State
set_owner resource_1 o s = record s { owner_1 = o }
set_owner resource_2 o s = record s { owner_2 = o }

abbrev pub rest : Thread → State → List Call
rest thread_a s = s.rest_a
rest thread_b s = s.rest_b

abbrev pub set_rest : Thread → List Call → State → State
set_rest thread_a cs s = record s { rest_a = cs }
set_rest thread_b cs s = record s { rest_b = cs }

-- A lock that is taken blocks the thread: `none`.
abbrev pub take_lock : Thread → Resource → State → Option Thread → Option State
take_lock t r s none = some (set_owner r (some t) s)
take_lock t r s (some other) = none

abbrev pub perform : Thread → List Call → State → Option State
perform t [] s = none
perform t (lock r ∷ cs) s = take_lock t r (set_rest t cs s) (owner r s)
perform t (unlock r ∷ cs) s = some (set_owner r none (set_rest t cs s))

-- The next call of a thread, if there is one and it does not block.
unfoldable pub step : Thread → State → Option State
step t s = perform t (rest t s) s

-- The states after the threads have run in some order.
pub data Reach (demo_unsafe : Bool) : ℕ → State → Type 0 where
  begin : Reach demo_unsafe 0 (start demo_unsafe)
  next :
      {n : ℕ} {s s' : State} (t : Thread)
      → Reach demo_unsafe n s
      → step t s ≡ some s'
      → Reach demo_unsafe (suc n) s'

-- Neither thread can go on.
abbrev pub Stuck : State → Type 0
Stuck s = (step thread_a s ≡ none) × (step thread_b s ≡ none)
