-- ===== src/Threads/Scheduler/Handoff/Ends.antt =====
-- How the threads of scheduler.c end.
use samuel_basnet_240512_st.Prelude.{
  ℕ, ◌+◌, false, Option, none, some, List, [], ◌∷◌, ◌++◌, ◌≡◌, ◌⊎◌, inl, inr, refl, sym, ap, ◌∙◌,
  subst, arith, ltb, length, map, true, All, Bool-cases,
}
use mathlib.Core.List.{append-nil}
use samuel_basnet_240512_st.Threads.Scheduler.{
  Pcb, Ran, is_done, run_time, slice, and_then, dispatch, run_round_robin,
}
use samuel_basnet_240512_st.Threads.Scheduler.RoundRobin.{
  work, AllDone, AllWf, Ended, round_robin-Ended,
}
use samuel_basnet_240512_st.Threads.Scheduler.Handoff.{
  At, waiting, going, exited, executing, reporting, leaving, Process, Dispatcher, looking, awaiting,
  returned, State, Step, Reach, created, pcbs,
}
use samuel_basnet_240512_st.Threads.Scheduler.Handoff.Predict.{predict, predict-next, predict-done}
use samuel_basnet_240512_st.Threads.Scheduler.Handoff.Phases.{
  Rest, Phase, posted, woken, in_burst, behind, over, IsAt, at_look, at_turn, at_end,
}
use samuel_basnet_240512_st.Threads.Scheduler.Handoff.Settle.{
  settled_at, settled, settle, unmap, leaving-or, same-length, Reach-keeps,
}

-- No process is DONE yet.
abbrev pub Unstarted : List Pcb → Type 0
Unstarted ps = All (λ p. is_done p.state ≡ false) ps

created-Rest : (ps : List Pcb) → Unstarted ps → All Rest (created ps).processes
created-Rest [] h = tt
created-Rest (p ∷ ps) h = ((refl, rw h.0 refl), created-Rest ps h.1)

created-pcbs : (ps : List Pcb) → pcbs (created ps).processes ≡ ps
created-pcbs [] = refl
created-pcbs (p ∷ ps) = ap (◌∷◌ p) (created-pcbs ps)

nothing : (o : Option (List Pcb × List Ran)) → and_then [] o ≡ o
nothing none = refl
nothing (some r) = refl

start-predict :
    (fuel : ℕ) (ps : List Pcb) {goal : List Pcb × List Ran}
    → run_round_robin fuel ps ≡ some goal
    → (fuel' : ℕ) × (predict fuel' 0 [] ps [] ≡ some goal)
unfolding run_round_robin
start-predict fuel [] {goal} h =
    (fuel, predict-done fuel 0 [] [] ∙ (nothing (dispatch fuel 0 []) ∙ h))
start-predict fuel (p ∷ ps) {goal} h =
    predict-next fuel 0 (p ∷ ps) []
      (predict-done fuel 0 (p ∷ ps) [] ∙ (nothing (dispatch fuel 0 (p ∷ ps)) ∙ h)) (omega arith)

created-settled : (ps : List Pcb) → map settled (created ps).processes ≡ (created ps).processes
created-settled [] = refl
created-settled (p ∷ ps) =
    ap (◌∷◌ (record { pcb = p; turn_sem = 0; at = waiting })) (created-settled ps)

start-IsAt :
    (fuel : ℕ) (ps : List Pcb) {goal : List Pcb × List Ran}
    → Unstarted ps
    → run_round_robin fuel ps ≡ some goal
    → IsAt goal (settle (created ps))
start-IsAt fuel ps {goal} h e =
    let (fuel', o) = start-predict fuel ps e in
    at_look fuel' 0 [] (created ps).processes refl (created-settled ps) refl tt (created-Rest ps h)
      (subst (λ qs. predict fuel' 0 [] qs [] ≡ some goal) (sym (created-pcbs ps)) o)

module _ {s : State} where
  look-moves :
      (f : ℕ) (ws us : List Process)
      → s.dispatcher ≡ looking (length ws) f
      → s.processes ≡ ws ++ us
      → (t : State) × Step s t
  look-moves f ws [] d e =
      let whole : s.processes ≡ ws = e ∙ append-nil ws in
      let d' : s.dispatcher ≡ looking (length s.processes) f =
        d ∙ ap (λ (xs : List Process). looking (length xs) f) (sym whole) in
      elim (Bool-cases (ltb f (length s.processes))) [
        | inl lt ↦ (_, Step.next_pass f d' (ground arith))
        | inr ge ↦ (_, Step.finish f d' (ground arith))
      ]
  look-moves f ws (p ∷ vs) d e = elim (Bool-cases (is_done p.pcb.state)) [
    | inl h ↦ (_, Step.skip ws vs p f d e h)
    | inr h ↦ (_, Step.give_turn ws vs p f d e h)
  ]

  -- The thread that has the turn has not left its slice behind.
  turn-moves :
      (ws : List Process) (p : Process) (vs : List Process) {p0 : Pcb} {ran0 : List Ran} (f : ℕ)
      → s.dispatcher ≡ awaiting (length ws) f
      → s.processes ≡ ws ++ p ∷ vs
      → Phase p0 ran0 p s.done_sem s.ran
      → (t : State) × Step s t
  turn-moves ws p vs f d e (posted q z r) = (_, Step.wake ws vs p 0 e (cc) (cc))
  turn-moves ws p vs f d e (woken q z r) = (_, Step.begin ws vs p e (cc))
  turn-moves ws p vs {p0} f d e (in_burst q z r) = (_, Step.execute ws vs p (run_time p0) e (cc))
  turn-moves ws p vs {p0} f d e (behind q z r) =
      (_, Step.report ws vs p (is_done (slice p0).state) e (cc))
  turn-moves ws p vs f d e (over q z r) = (_, Step.take_done (length ws) f 0 d (cc))

  settled-moves :
      (ws : List Process) (p : Process) (vs : List Process) {p0 : Pcb} {ran0 : List Ran} (f : ℕ)
      → s.dispatcher ≡ awaiting (length ws) f
      → map settled s.processes ≡ ws ++ p ∷ vs
      → Phase p0 ran0 p s.done_sem s.ran
      → (t : State) × Step s t
  settled-moves ws p vs {p0} {ran0} f d e ph = found (unmap s.processes ws (p ∷ vs) e)
    where
      found :
          (ws0 : List Process) × (us0 : List Process) × (s.processes ≡ ws0 ++ us0)
            × (map settled ws0 ≡ ws)
            × (map settled us0 ≡ p ∷ vs)
          → (t : State) × Step s t
      found (ws0, [], h, a, b) = absurd (cc)
      found (ws0, x ∷ us0, h, a, b) = elim (leaving-or x) [
        | inl (j, at) ↦ (_, Step.leave ws0 us0 x j h at)
        | inr same ↦
            let here_now : length ws ≡ length ws0 =
              ap (λ (ps : List Process). length ps) (sym a) ∙ same-length ws0 in
            turn-moves ws0 x us0 f (d ∙ ap (λ (i : ℕ). awaiting i f) here_now) h
              (subst (λ q. Phase p0 ran0 q s.done_sem s.ran) {x = p} {y = x} (cc) ph)
      ]

  IsAt-moves :
      {goal : List Pcb × List Ran}
      → IsAt goal (settle s)
      → (s.dispatcher ≡ returned) ⊎ ((t : State) × Step s t)
  IsAt-moves (at_look fuel f ws us d e z a b o) =
      let (ws0, us0, h, front, back) = unmap s.processes ws us e in
      let here_now : length ws ≡ length ws0 =
        ap (λ (ps : List Process). length ps) (sym front) ∙ same-length ws0 in
      inr (look-moves f ws0 us0 (d ∙ ap (λ (i : ℕ). looking i f) here_now) h)
  IsAt-moves (at_turn ws p vs e t) =
      inr (settled-moves ws p vs t.around.f t.around.awaits e t.phase)
  IsAt-moves (at_end d a o) = inl d

Unstarted-AllWf : (ps : List Pcb) → Unstarted ps → AllWf ps
Unstarted-AllWf [] h = tt
Unstarted-AllWf (p ∷ ps) h = (λ e. ground (arith, h.0), Unstarted-AllWf ps h.1)

-- The thread has returned, or has only to return: it is behind its last `sem_post`.
abbrev pub IsOver : Process → Type 0
IsOver p = (p.at ≡ exited) ⊎ (p.at ≡ leaving true)

IsOver-settled : (p : Process) → settled_at p.at ≡ exited → IsOver p
IsOver-settled p h = by_at p.at refl
  where
    by_at : (a : At) → p.at ≡ a → IsOver p
    by_at (leaving true) e = inr e
    by_at (leaving false) e = absurd (cc)
    by_at waiting e = absurd (cc)
    by_at going e = absurd (cc)
    by_at exited e = inl e
    by_at (executing n) e = absurd (cc)
    by_at (reporting b) e = absurd (cc)

done-IsOver :
    (xs : List Process)
    → All Rest (map settled xs)
    → AllDone (pcbs (map settled xs))
    → All IsOver xs
done-IsOver [] h d = tt
done-IsOver (p ∷ xs) h d = (IsOver-settled p (ground (arith, h.0.1, d.0.0)), done-IsOver xs h.1 d.1)

pcbs-settled : (xs : List Process) → pcbs (map settled xs) ≡ pcbs xs
pcbs-settled [] = refl
pcbs-settled (p ∷ xs) = ap (◌∷◌ p.pcb) (pcbs-settled xs)

returned-Rest :
    {goal : List Pcb × List Ran} {s : State}
    → IsAt goal s
    → s.dispatcher ≡ returned
    → All Rest s.processes × ((pcbs s.processes, s.ran) ≡ goal)
returned-Rest (at_look _ _ _ _ d e z a b o) r = absurd (cc)
returned-Rest (at_turn ws p vs e t) r = absurd (sep t.around.awaits r)
  where
    sep : {d : Dispatcher} {i m : ℕ} → d ≡ awaiting i m → d ≡ returned → ⊥
    sep a b = cc
returned-Rest (at_end d a o) r = (a, o)

module _ (ps : List Pcb) (fresh : Unstarted ps) {s : State} (reached : Reach (created ps) s) where
  abbrev outcome : Ended ps (run_round_robin (work ps + 2) ps)
  outcome = round_robin-Ended (work ps + 2) ps (Unstarted-AllWf ps fresh) (omega arith)

  reached-IsAt : IsAt (outcome.processes, outcome.ran) (settle s)
  reached-IsAt = Reach-keeps reached (start-IsAt (work ps + 2) ps fresh outcome.returned)

  -- However the dispatcher and the threads of the processes interleave, from processes of which none
  -- is DONE, they never block one another: until the dispatcher has returned, some thread can take a
  -- step.
  pub handoff-moves : (s.dispatcher ≡ returned) ⊎ ((t : State) × Step s t)
  handoff-moves = IsAt-moves reached-IsAt

  -- However the dispatcher and the threads of the processes interleave, from processes of which none
  -- is DONE: when the dispatcher has returned, the processes and the slices that ran, in their order,
  -- are those of the loop that runs each slice as one step, and every thread has returned or has
  -- posted `done_sem` for the last time and has only to return.
  pub handoff-refines :
      s.dispatcher ≡ returned
      → (run_round_robin (work ps + 2) ps ≡ some (pcbs s.processes, s.ran)) × All IsOver s.processes
  handoff-refines r =
      let (rest, same) = returned-Rest reached-IsAt r in
      let end = ap (λ (x : List Pcb). some (x, s.ran)) (pcbs-settled s.processes) in
      (
        outcome.returned ∙ (ap some (sym same) ∙ end),
        done-IsOver s.processes rest
            (subst AllDone (ap (λ (g : List Pcb × List Ran). g.0) (sym same)) outcome.all_done),
      )
