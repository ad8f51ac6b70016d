-- ===== src/Threads/Scheduler/RoundRobin.antt =====
-- The dispatcher of scheduler.c ends, and every process has had its time.
use samuel_basnet_240512_st.Prelude.{
  ℕ, zero, suc, ◌+◌, ◌≤◌, ◌<◌, Option, some, List, [], ◌∷◌, ◌++◌, ◌≡◌, inl, inr, refl, sym, ◌∙◌,
  arith, ◌==◌, ltb, if◌then◌else◌, length, Bool-cases,
}
use samuel_basnet_240512_st.Threads.Scheduler.{
  done, Pcb, Ran, slice, is_done, pass, dispatch, run_round_robin,
}

-- The passes that a process still takes are at most these.
abbrev weight : Pcb → ℕ
weight p = if is_done p.state then 0 else p.remaining_time + 1

unfoldable pub work : List Pcb → ℕ
work [] = 0
work (p ∷ ps) = weight p + work ps

-- The time that a process got, by the slices.
unfoldable pub time_of : ℕ → List Ran → ℕ
time_of pid [] = 0
time_of pid (r ∷ ran) = (if r.0 == pid then r.1 else 0) + time_of pid ran

-- The time that the processes of this `pid` still need.
unfoldable pub needed : ℕ → List Pcb → ℕ
needed pid [] = 0
needed pid (p ∷ ps) = (if p.pid == pid then p.remaining_time else 0) + needed pid ps

-- Every process is DONE.
abbrev pub AllDone : List Pcb → Type 0
AllDone [] = Unit
AllDone (p ∷ ps) = ((p.state ≡ done) × (p.remaining_time ≡ 0)) × AllDone ps

-- A process that is DONE needs no time.
abbrev pub AllWf : List Pcb → Type 0
AllWf [] = Unit
AllWf (p ∷ ps) = (p.state ≡ done → p.remaining_time ≡ 0) × AllWf ps

slice-done : (p : Pcb) → (slice p).state ≡ done → (slice p).remaining_time ≡ 0
unfolding slice
slice-done p h = ground arith

pass-AllWf : (ps : List Pcb) → AllWf ps → AllWf (pass ps).processes
unfolding pass
pass-AllWf [] w = tt
pass-AllWf (p ∷ ps) w = elim (Bool-cases (is_done p.state)) [
  | inl d ↦ rw d (w.0, pass-AllWf ps w.1)
  | inr d ↦ rw d (slice-done p, pass-AllWf ps w.1)
]

pass-length : (ps : List Pcb) → length (pass ps).processes ≡ length ps
unfolding pass
pass-length [] = refl
pass-length (p ∷ ps) = ground (arith, pass-length ps)

finished-le : (ps : List Pcb) → (pass ps).finished ≤ length ps
unfolding pass
finished-le [] = omega arith
finished-le (p ∷ ps) = ground (arith, finished-le ps)

-- A pass that does not find all processes done leaves less work.
pass-work :
    (ps : List Pcb)
    → (work (pass ps).processes ≤ work ps)
      × ((pass ps).finished < length ps → work (pass ps).processes < work ps)
unfolding pass work slice
pass-work [] = (omega arith, λ h. omega arith)
pass-work (p ∷ ps) = ground (arith, pass-work ps, finished-le ps)

-- What a pass gives to a process is what it then no longer needs.
pass-needed :
    (pid : ℕ) (ps : List Pcb)
    → time_of pid (pass ps).ran + needed pid (pass ps).processes ≡ needed pid ps
unfolding pass needed time_of slice
pass-needed pid [] = refl
pass-needed pid (p ∷ ps) = ground (arith, pass-needed pid ps)

pass-AllDone :
    (ps : List Pcb) → AllWf ps → (pass ps).finished ≡ length ps → AllDone (pass ps).processes
unfolding pass
pass-AllDone [] w h = tt
pass-AllDone (p ∷ ps) w h = elim (Bool-cases (is_done p.state)) [
  | inl d ↦
      let at_end : p.state ≡ done = ground arith in
      rw d ((at_end, w.0 at_end), pass-AllDone ps w.1 (ground arith))
  | inr d ↦ absurd (ground (arith, finished-le ps))
]

time-append : (pid : ℕ) (a b : List Ran) → time_of pid (a ++ b) ≡ time_of pid a + time_of pid b
unfolding time_of
time-append pid [] b = omega arith
time-append pid (r ∷ a) b = omega (arith, time-append pid a b)

needed-done : (pid : ℕ) (ps : List Pcb) → AllDone ps → needed pid ps ≡ 0
unfolding needed
needed-done pid [] d = refl
needed-done pid (p ∷ ps) d = ground (arith, needed-done pid ps d.1)

-- The dispatcher has ended; all processes are done, and each got the time that it needed.
pub record Ended (ps : List Pcb) (o : Option (List Pcb × List Ran)) : Type 0 where
  pub processes : List Pcb
  pub ran : List Ran
  pub returned : o ≡ some (processes, ran)
  pub all_done : AllDone processes
  pub given : (pid : ℕ) → time_of pid ran ≡ needed pid ps

dispatch-Ended :
    (fuel finished : ℕ) (ps : List Pcb)
    → AllWf ps
    → finished ≤ length ps
    → (finished ≡ length ps → AllDone ps)
    → 0 < fuel
    → (finished < length ps → work ps + 2 ≤ fuel)
    → Ended ps (dispatch fuel finished ps)
unfolding dispatch time_of
dispatch-Ended zero finished ps w le all pos enough = absurd (omega arith)
dispatch-Ended (suc fuel) finished ps w le all pos enough =
    elim (Bool-cases (ltb finished (length ps))) [
      | inr over ↦
          let ended : AllDone ps = all (ground arith) in
          record {
            processes = ps;
            ran = [];
            returned = rw over refl;
            all_done = ended;
            given = λ pid. sym (needed-done pid ps ended);
          }
      | inl more ↦
          let t = pass ps in
          let e =
            dispatch-Ended fuel t.finished t.processes (pass-AllWf ps w)
              (omega (arith, finished-le ps, pass-length ps))
              (λ h. pass-AllDone ps w (h ∙ pass-length ps)) (ground (arith, enough))
              (λ h. ground (arith, enough, (pass-work ps).1, pass-length ps)) in
          record {
            processes = e.processes;
            ran = t.ran ++ e.ran;
            returned = rw (more, e.returned) refl;
            all_done = e.all_done;
            given =
                λ pid. omega (arith, time-append pid t.ran e.ran, e.given pid, pass-needed pid ps);
          }
    ]

none-AllDone : (ps : List Pcb) → 0 ≡ length ps → AllDone ps
none-AllDone [] h = tt
none-AllDone (p ∷ ps) h = absurd (omega arith)

-- Whatever processes the dispatcher starts with, if those that are DONE need no more time, its loop
-- ends: the fuel that it takes is two more than the work (the remaining times, and one for each
-- process that is not DONE). Then all processes are DONE with no time remaining, and the slices of
-- each add up to the time that it needed at the start.
pub round_robin-Ended :
    (fuel : ℕ) (ps : List Pcb) → AllWf ps → work ps + 2 ≤ fuel → Ended ps (run_round_robin fuel ps)
unfolding run_round_robin
round_robin-Ended fuel ps w enough =
    dispatch-Ended fuel 0 ps w (omega arith) (none-AllDone ps) (omega arith) (λ h. enough)
