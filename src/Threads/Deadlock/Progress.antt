-- ===== src/Threads/Deadlock/Progress.antt =====
-- The ordered threads of deadlock_demo.c always finish; the others can block each other.
use samuel_basnet_240512_st.Prelude.{
  ℕ, ◌+◌, ◌<◌, Bool, true, false, none, some, [], ◌∷◌, ◌≡◌, ◌⊎◌, inl, inr, refl, ap, ◌∙◌, arith,
  Option-cases,
}
use samuel_basnet_240512_st.Threads.Deadlock.{
  Thread, thread_a, thread_b, resource_1, resource_2, lock, unlock, calls, State, step, Reach,
  begin, next, Stuck,
}
use samuel_basnet_240512_st.Threads.Deadlock.Phases.{
  Phase, one, over, made, state_at, exclusive, move, states, step-move, Reach-IsAt,
}

-- Both threads have returned, and no mutex is left locked.
abbrev pub finished : State
finished = record { owner_1 = none; owner_2 = none; rest_a = []; rest_b = [] }

-- Each thread holds its first mutex and waits for the other one's.
abbrev pub deadlocked : State
deadlocked = record {
  owner_1 = some thread_a;
  owner_2 = some thread_b;
  rest_a = lock resource_2 ∷ unlock resource_2 ∷ unlock resource_1 ∷ [];
  rest_b = lock resource_1 ∷ unlock resource_1 ∷ unlock resource_2 ∷ [];
}

abbrev pub CanStep : State → Type 0
CanStep s = (t : Thread) × (s' : State) × (step t s ≡ some s')

can-move :
    (m : Bool) (t : Thread) (pa pb : Phase) (p : Phase × Phase)
    → exclusive m pa pb ≡ true
    → move m t pa pb ≡ some p
    → CanStep (state_at m pa pb)
can-move m t pa pb p h e = (t, state_at m p.0 p.1, step-move m t pa pb h ∙ ap (states m) e)

cannot-move :
    (m : Bool) (t : Thread) (pa pb : Phase)
    → exclusive m pa pb ≡ true
    → step t (state_at m pa pb) ≡ none
    → move m t pa pb ≡ none
cannot-move m t pa pb h e = ground (arith, step-move m t pa pb h)

ordered_ends :
    (pa pb : Phase)
    → exclusive false pa pb ≡ true
    → move false thread_a pa pb ≡ none
    → move false thread_b pa pb ≡ none
    → (pa ≡ over) × (pb ≡ over)
ordered_ends pa pb h a b = ground arith

opposite_ends :
    (pa pb : Phase)
    → exclusive true pa pb ≡ true
    → move true thread_a pa pb ≡ none
    → move true thread_b pa pb ≡ none
    → ((pa ≡ over) × (pb ≡ over)) ⊎ ((pa ≡ one) × (pb ≡ one))
opposite_ends pa pb h a b = ground arith

ordered_at :
    (n : ℕ) (pa pb : Phase)
    → exclusive false pa pb ≡ true
    → made pa + made pb ≡ n
    → ((n ≡ 8) × (state_at false pa pb ≡ finished)) ⊎ ((n < 8) × CanStep (state_at false pa pb))
unfolding calls
ordered_at n pa pb h c = elim (Option-cases (move false thread_a pa pb)) [
  | inr (p, e) ↦ inr (ground arith, can-move false thread_a pa pb p h e)
  | inl a ↦ elim (Option-cases (move false thread_b pa pb)) [
    | inr (p, e) ↦ inr (ground arith, can-move false thread_b pa pb p h e)
    | inl b ↦ inl (ground (arith, ordered_ends pa pb h a b))
  ]
]

-- With both threads locking in the same order, however they run: after `n` calls either all eight
-- are made, both threads have returned and both mutexes are free, or fewer are made and some
-- thread can make its next call.
pub ordered-progress :
    (n : ℕ) (s : State) → Reach false n s → ((n ≡ 8) × (s ≡ finished)) ⊎ ((n < 8) × CanStep s)
ordered-progress n s r =
    let w = Reach-IsAt false n s r in rw w.at (ordered_at n w.phase_a w.phase_b w.excludes w.count)

opposite_at :
    (n : ℕ) (pa pb : Phase)
    → exclusive true pa pb ≡ true
    → made pa + made pb ≡ n
    → Stuck (state_at true pa pb)
    → ((n ≡ 8) × (state_at true pa pb ≡ finished)) ⊎ ((n ≡ 2) × (state_at true pa pb ≡ deadlocked))
unfolding calls
opposite_at n pa pb h c stuck =
    elim (opposite_ends pa pb h (cannot-move true thread_a pa pb h stuck.0)
      (cannot-move true thread_b pa pb h stuck.1)) [
        | inl ended ↦ inl (ground arith)
        | inr waiting ↦ inr (ground arith)
      ]

deadlock-reached : Reach true 2 deadlocked
unfolding step calls
deadlock-reached = next thread_b (next thread_a begin refl) refl

deadlock-Stuck : Stuck deadlocked
unfolding step
deadlock-Stuck = (refl, refl)

-- With `DEMO_UNSAFE`, the state in which each thread holds its first mutex and waits for the other
-- one's can be reached and is stuck, and it is the only state in which the threads ever get stuck
-- before they have finished.
pub opposite-deadlock :
    (n : ℕ) (s : State)
    → Reach true n s
    → Stuck s
    → Reach true 2 deadlocked
      × Stuck deadlocked
      × (((n ≡ 8) × (s ≡ finished)) ⊎ ((n ≡ 2) × (s ≡ deadlocked)))
opposite-deadlock n s r stuck =
    let w = Reach-IsAt true n s r in
    let here : Stuck (state_at true w.phase_a w.phase_b) = rw w.at at stuck in
    (
      deadlock-reached,
      deadlock-Stuck,
      rw w.at (opposite_at n w.phase_a w.phase_b w.excludes w.count here),
    )
