-- ===== src/Threads/Deadlock/Phases.antt =====
-- Where the two threads of deadlock_demo.c are, and which mutexes they hold there.
use samuel_basnet_240512_st.Prelude.{
  ℕ, suc, ◌+◌, Bool, true, false, not, ◌&&◌, Option, none, some, List, [], ◌∷◌, ◌≡◌, refl, sym, ap,
  ◌∙◌, arith, if◌then◌else◌,
}
use samuel_basnet_240512_st.Threads.Deadlock.{
  Thread, thread_a, thread_b, Resource, resource_1, resource_2, Call, calls, State, step, Reach,
  begin, next,
}

-- How many of its four calls a thread has made.
pub data Phase : Type 0 where
  ready one both one_left over : Phase

abbrev pub made : Phase → ℕ
made ready = 0
made one = 1
made both = 2
made one_left = 3
made over = 4

-- The mutex that a thread takes first.
abbrev pub is_first : Bool → Thread → Resource → Bool
is_first demo_unsafe thread_a resource_1 = true
is_first demo_unsafe thread_a resource_2 = false
is_first demo_unsafe thread_b resource_1 = not demo_unsafe
is_first demo_unsafe thread_b resource_2 = demo_unsafe

-- The first mutex is held from the first call to the last, the second one in the middle.
abbrev pub holds : Bool → Thread → Resource → Phase → Bool
holds demo_unsafe t r ready = false
holds demo_unsafe t r one = is_first demo_unsafe t r
holds demo_unsafe t r both = true
holds demo_unsafe t r one_left = is_first demo_unsafe t r
holds demo_unsafe t r over = false

abbrev left_of : List Call → Phase → List Call
left_of cs ready = cs
left_of (c ∷ cs) one = cs
left_of (c ∷ d ∷ cs) both = cs
left_of (c ∷ d ∷ e ∷ cs) one_left = cs
left_of cs p = []

abbrev holder : Bool → Resource → Phase → Phase → Option Thread
holder m r pa pb =
    if holds m thread_a r pa
    then some thread_a
    else if holds m thread_b r pb
    then some thread_b
    else none

-- The state in which the threads are in these phases.
abbrev pub state_at : Bool → Phase → Phase → State
state_at m pa pb = record {
  owner_1 = holder m resource_1 pa pb;
  owner_2 = holder m resource_2 pa pb;
  rest_a = left_of (calls m thread_a) pa;
  rest_b = left_of (calls m thread_b) pb;
}

-- No mutex is held by both threads.
abbrev pub exclusive : Bool → Phase → Phase → Bool
exclusive m pa pb =
    not (holds m thread_a resource_1 pa && holds m thread_b resource_1 pb)
    && not (holds m thread_a resource_2 pa && holds m thread_b resource_2 pb)

abbrev forward : Phase → Option Phase
forward ready = some one
forward one = some both
forward both = some one_left
forward one_left = some over
forward over = none

abbrev both_at : Bool → Thread → Phase → Phase → Option Phase → Option (Phase × Phase)
both_at m t pa pb none = none
both_at m thread_a pa pb (some p) = if exclusive m p pb then some (p, pb) else none
both_at m thread_b pa pb (some p) = if exclusive m pa p then some (pa, p) else none

abbrev phase_of : Thread → Phase → Phase → Phase
phase_of thread_a pa pb = pa
phase_of thread_b pa pb = pb

-- The thread goes on where no mutex would have two holders.
abbrev pub move : Bool → Thread → Phase → Phase → Option (Phase × Phase)
move m t pa pb = both_at m t pa pb (forward (phase_of t pa pb))

abbrev pub states : Bool → Option (Phase × Phase) → Option State
states m none = none
states m (some p) = some (state_at m p.0 p.1)

pub step-move :
    (m : Bool) (t : Thread) (pa pb : Phase)
    → exclusive m pa pb ≡ true
    → step t (state_at m pa pb) ≡ states m (move m t pa pb)
unfolding step calls
step-move m t pa pb h = ground arith

-- After `n` calls the threads are in two phases that together have made them.
pub record IsAt (m : Bool) (n : ℕ) (s : State) : Type 0 where
  pub phase_a : Phase
  pub phase_b : Phase
  pub at : s ≡ state_at m phase_a phase_b
  pub excludes : exclusive m phase_a phase_b ≡ true
  pub count : made phase_a + made phase_b ≡ n

move-keeps :
    (m : Bool) (t : Thread) (pa pb : Phase) (p : Phase × Phase)
    → move m t pa pb ≡ some p
    → (exclusive m p.0 p.1 ≡ true) × (made p.0 + made p.1 ≡ suc (made pa + made pb))
move-keeps m t pa pb p h = ground arith

states-some :
    (m : Bool) (o : Option (Phase × Phase)) (s : State)
    → states m o ≡ some s
    → (p : Phase × Phase) × (o ≡ some p) × (s ≡ state_at m p.0 p.1)
states-some m none s h = cc
states-some m (some p) s h = (p, refl, ground arith)

-- In both variants, whatever the order in which the threads run, each has made a number of its four
-- calls, no mutex is held by both, and the owner of a mutex is the thread that has locked it and not
-- yet unlocked it.
pub Reach-IsAt : (m : Bool) (n : ℕ) (s : State) → Reach m n s → IsAt m n s
Reach-IsAt m n s begin = record {
  phase_a = ready;
  phase_b = ready;
  at = refl;
  excludes = ground arith;
  count = refl;
}
Reach-IsAt m (suc n) s' (next {s = s} t r e) =
    let w = Reach-IsAt m n s r in
    let (p, moved, at) =
      states-some m (move m t w.phase_a w.phase_b) s'
        (sym (step-move m t w.phase_a w.phase_b w.excludes) ∙ sym (ap (step t) w.at) ∙ e) in
    let (excludes, more) = move-keeps m t w.phase_a w.phase_b p moved in
    record {
      phase_a = p.0;
      phase_b = p.1;
      at = at;
      excludes = excludes;
      count = omega (arith, more, w.count);
    }
