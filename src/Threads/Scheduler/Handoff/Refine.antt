-- ===== src/Threads/Scheduler/Handoff/Refine.antt =====
-- The steps of the threads of scheduler.c, next to the dispatcher with whole slices.
use mathlib.Core.List.{append_assoc, append-nil, map-append}
use samuel_basnet_240512_st.Prelude.{
  ℕ, suc, ◌+◌, ◌≤◌, ◌<◌, true, false, some, List, [], ◌∷◌, ◌++◌, ◌≡◌, refl, sym, ap, ap₂, ◌∙◌,
  subst, arith, length, length-map, length-append, All,
}
use samuel_basnet_240512_st.Threads.Scheduler.{Pcb, Ran, is_done, slice}
use samuel_basnet_240512_st.Threads.Scheduler.Handoff.{
  waiting, Process, Dispatcher, looking, awaiting, returned, State, pcbs,
}
use samuel_basnet_240512_st.Threads.Scheduler.Handoff.Moves.{
  Move, skip, give_turn, take_done, next_pass, finish, wake, begin, execute, report,
}
use samuel_basnet_240512_st.Threads.Scheduler.Handoff.Predict.{
  predict, predict-skip, predict-turn, predict-next, predict-end,
}
use samuel_basnet_240512_st.Threads.Scheduler.Handoff.Phases.{
  Rest, wakes, begins, executes, reports, Phase, posted, woken, in_burst, behind, over, IsAt,
  at_look, at_turn, at_end, append-All, the-turn, phase-wake, phase-begin, phase-execute,
  phase-report,
}

same-split :
    (ws ws' us us' : List Process)
    → length ws ≡ length ws'
    → ws ++ us ≡ ws' ++ us'
    → (ws ≡ ws') × (us ≡ us')
same-split [] [] us us' l e = (refl, e)
same-split [] (x ∷ ws') us us' l e = absurd (omega arith)
same-split (x ∷ ws) [] us us' l e = absurd (omega arith)
same-split (x ∷ ws) (y ∷ ws') us us' l e =
    let (a, b) = same-split ws ws' us us' (omega arith) (cc) in (cc, b)

-- The dispatcher in front of the processes `us`.
pub record Look (goal : List Pcb × List Ran) (s : State) (f : ℕ) (ws us : List Process)
    : Type 0 where
  fuel : ℕ
  idle : s.done_sem ≡ 0
  front : All Rest ws
  back : All Rest us
  outcome : predict fuel f (pcbs ws) (pcbs us) s.ran ≡ some goal

-- One more process is behind the dispatcher.
one-more :
    {xs : List Process} (ws vs : List Process) (p : Process)
    → xs ≡ ws ++ p ∷ vs
    → xs ≡ (ws ++ p ∷ []) ++ vs
one-more ws vs p e = e ∙ sym (append_assoc ws (p ∷ []) vs)

pcbs-more :
    (ws : List Process) (p : Process) {q : Pcb}
    → p.pcb ≡ q
    → pcbs (ws ++ p ∷ []) ≡ pcbs ws ++ q ∷ []
pcbs-more ws p e =
    map-append (λ (x : Process). x.pcb) ws (p ∷ []) ∙ ap (λ (q : Pcb). pcbs ws ++ q ∷ []) e

module _ {goal : List Pcb × List Ran} where
  the-Look :
      {s : State} (ws us : List Process) (f : ℕ)
      → IsAt goal s
      → s.dispatcher ≡ looking (length ws) f
      → s.processes ≡ ws ++ us
      → Look goal s f ws us
  the-Look {s} ws us f (at_look fuel f' ws' us' d e n a b o) d' e' =
      let (h, i) = same-split ws' ws us' us (cc) (sym e ∙ e') in
      let same_f : f' ≡ f = cc in
      subst (λ g. Look goal s g ws us) same_f
        (subst (λ xs. Look goal s f' xs us) h
          (subst (λ xs. Look goal s f' ws' xs) i
            (record { fuel = fuel; idle = n; front = a; back = b; outcome = o })))
  the-Look ws us f (at_turn ws' p vs e t) d' e' = absurd (sep t.around.awaits d')
    where
      sep : {d : Dispatcher} {i j m n : ℕ} → d ≡ awaiting i m → d ≡ looking j n → ⊥
      sep a b = cc
  the-Look ws us f (at_end d a o) d' e' = absurd (cc)

  skip-IsAt :
      {s : State} (ws vs : List Process) (p : Process) (f : ℕ)
      → s.processes ≡ ws ++ p ∷ vs
      → is_done p.pcb.state ≡ true
      → Look goal s f ws (p ∷ vs)
      → IsAt goal (record s { dispatcher = looking (length ws + 1) (f + 1) })
  skip-IsAt {s} ws vs p f e h l =
      at_look l.fuel (f + 1) (ws ++ p ∷ []) vs
        (ap (λ (i : ℕ). looking i (f + 1)) (sym (length-append ws (p ∷ [])))) (one-more ws vs p e)
        l.idle (append-All ws (p ∷ []) l.front (l.back.0, tt)) l.back.1
        (subst (λ ps. predict l.fuel (f + 1) ps (pcbs vs) s.ran ≡ some goal)
          (sym (pcbs-more ws p refl))
          (sym (predict-skip l.fuel f (pcbs ws) (pcbs vs) s.ran p.pcb h) ∙ l.outcome))

  give-IsAt :
      {s : State} (ws vs : List Process) (p : Process) (f : ℕ)
      → is_done p.pcb.state ≡ false
      → Look goal s f ws (p ∷ vs)
      → IsAt goal (record s {
        dispatcher = awaiting (length ws) f;
        processes = ws ++ record p { turn_sem = p.turn_sem + 1 } ∷ vs;
      })
  give-IsAt {s} ws vs p f h l =
      let unposted : p.turn_sem + 1 ≡ 1 = omega (arith, l.back.0.0) in
      let at_rest : p.at ≡ waiting = rw h at l.back.0.1 in
      at_turn ws _ vs refl (record {
        p0 = p.pcb;
        ran0 = s.ran;
        around = record {
          fuel = l.fuel;
          f = f;
          awaits = refl;
          front = l.front;
          back = l.back.1;
          outcome = sym (predict-turn l.fuel f (pcbs ws) (pcbs vs) s.ran p.pcb h) ∙ l.outcome;
        };
        phase = posted (rw (unposted, at_rest) refl) l.idle refl;
      })

  take-IsAt :
      {s : State} (i f n : ℕ)
      → IsAt goal s
      → s.dispatcher ≡ awaiting i f
      → s.done_sem ≡ suc n
      → IsAt goal (record s { dispatcher = looking (i + 1) f; done_sem = n })
  take-IsAt i f n (at_look _ _ _ _ d e z a b o) d' h = absurd (cc)
  take-IsAt i f n (at_end d a o) d' h = absurd (cc)
  take-IsAt {s} i f n (at_turn ws p vs e t) d' h = taken t.phase
    where
      taken :
          Phase t.p0 t.ran0 p s.done_sem s.ran
          → IsAt goal (record s { dispatcher = looking (i + 1) f; done_sem = n })
      taken (posted q z r) = absurd (omega arith)
      taken (woken q z r) = absurd (omega arith)
      taken (in_burst q z r) = absurd (omega arith)
      taken (behind q z r) = absurd (omega arith)
      taken (over q z r) =
          let here_now : i ≡ length ws = cc in
          let same_f : f ≡ t.around.f = cc in
          let pcb_e : p.pcb ≡ slice t.p0 = ap (λ (x : Process). x.pcb) q in
          at_look t.around.fuel t.around.f (ws ++ p ∷ []) vs
            (ap₂ looking (omega (arith, length-append ws (p ∷ []))) same_f) (one-more ws vs p e)
            (omega arith)
            (append-All ws (p ∷ []) t.around.front (subst Rest (sym q) (refl, refl), tt))
            t.around.back
            (subst (λ ps. predict t.around.fuel t.around.f ps (pcbs vs) s.ran ≡ some goal)
              (sym (pcbs-more ws p pcb_e))
              (subst
                (λ r'.
                  predict t.around.fuel t.around.f (pcbs ws ++ slice t.p0 ∷ []) (pcbs vs) r'
                  ≡ some goal)
                (sym r) t.around.outcome))

  -- Behind the last process.
  last-Look :
      {s : State} (f : ℕ)
      → IsAt goal s
      → s.dispatcher ≡ looking (length s.processes) f
      → Look goal s f s.processes []
  last-Look {s} f h d = the-Look s.processes [] f h d (sym (append-nil s.processes))

  next-IsAt :
      {s : State} (f : ℕ)
      → f < length s.processes
      → Look goal s f s.processes []
      → IsAt goal (record s { dispatcher = looking 0 0 })
  next-IsAt {s} f lt l =
      let (fuel, o) =
        predict-next l.fuel f (pcbs s.processes) s.ran l.outcome
          (omega (arith, length-map (λ (x : Process). x.pcb) s.processes)) in
      at_look fuel 0 [] s.processes refl refl l.idle tt l.front o

  finish-IsAt :
      {s : State} (f : ℕ)
      → length s.processes ≤ f
      → Look goal s f s.processes []
      → IsAt goal (record s { dispatcher = returned })
  finish-IsAt {s} f le l = at_end refl l.front (
      predict-end l.fuel f (pcbs s.processes) s.ran l.outcome
        (omega (arith, length-map (λ (x : Process). x.pcb) s.processes)))

  pub Move-IsAt : {s t : State} → Move s t → IsAt goal s → IsAt goal t
  Move-IsAt (skip ws vs p f d e x) h = skip-IsAt ws vs p f e x (the-Look ws (p ∷ vs) f h d e)
  Move-IsAt (give_turn ws vs p f d e x) h = give-IsAt ws vs p f x (the-Look ws (p ∷ vs) f h d e)
  Move-IsAt (take_done i f n d x) h = take-IsAt i f n h d x
  Move-IsAt (next_pass f d lt) h = next-IsAt f lt (last-Look f h d)
  Move-IsAt (finish f d le) h = finish-IsAt f le (last-Look f h d)
  Move-IsAt {s} (wake ws vs p n e a x) h =
      let t = the-turn ws p vs h e (wakes n a x) in
      at_turn ws _ vs refl (record {
        p0 = t.p0;
        ran0 = t.ran0;
        around = t.around;
        phase = phase-wake p s.done_sem n s.ran t.phase a x;
      })
  Move-IsAt {s} (begin ws vs p e a) h =
      let t = the-turn ws p vs h e (begins a) in
      at_turn ws _ vs refl (record {
        p0 = t.p0;
        ran0 = t.ran0;
        around = t.around;
        phase = phase-begin p s.done_sem s.ran t.phase a;
      })
  Move-IsAt {s} (execute ws vs p u e a) h =
      let t = the-turn ws p vs h e (executes u a) in
      at_turn ws _ vs refl (record {
        p0 = t.p0;
        ran0 = t.ran0;
        around = t.around;
        phase = phase-execute p s.done_sem s.ran u t.phase a;
      })
  Move-IsAt {s} (report ws vs p b e a) h =
      let t = the-turn ws p vs h e (reports b a) in
      at_turn ws _ vs refl (record {
        p0 = t.p0;
        ran0 = t.ran0;
        around = t.around;
        phase = phase-report p s.done_sem s.ran b t.phase a;
      })
