-- ===== src/Threads/Scheduler/Handoff/Settle.antt =====
-- The states of the threads of scheduler.c, where each thread that has posted `done_sem` is moved on to
-- its next `sem_wait` or to its return.
use mathlib.Core.List.{map-append}
use samuel_basnet_240512_st.Prelude.{
  ℕ, ◌+◌, Bool, true, false, List, [], ◌∷◌, ◌++◌, ◌≡◌, ◌⊎◌, inl, inr, refl, sym, ap, ◌∙◌, subst,
  arith, length, length-map, map, if◌then◌else◌,
}
use samuel_basnet_240512_st.Threads.Scheduler.{Pcb, Ran}
use samuel_basnet_240512_st.Threads.Scheduler.Handoff.{
  At, waiting, going, exited, executing, reporting, leaving, Process, Dispatcher, looking, awaiting,
  State, begun, executed, reported, gone, Step, Reach, here, later,
}
use samuel_basnet_240512_st.Threads.Scheduler.Handoff.Moves.{Move}
use samuel_basnet_240512_st.Threads.Scheduler.Handoff.Phases.{IsAt}
use samuel_basnet_240512_st.Threads.Scheduler.Handoff.Refine.{Move-IsAt}

abbrev pub settled_at : At → At
settled_at (leaving b) = if b then exited else waiting
settled_at waiting = waiting
settled_at going = going
settled_at exited = exited
settled_at (executing n) = executing n
settled_at (reporting b) = reporting b

abbrev pub settled : Process → Process
settled p = record p { at = settled_at p.at }

abbrev pub settle : State → State
settle s = record s { processes = map settled s.processes }

gone-settled :
    (b : Bool) → settled_at (if b then exited else waiting) ≡ (if b then exited else waiting)
gone-settled true = refl
gone-settled false = refl

stays : (p : Process) (a : At) → p.at ≡ a → settled_at a ≡ a → settled p ≡ p
stays p a e h = ap (λ (x : At). record p { at = x }) (ap settled_at e ∙ (h ∙ sym e))

split :
    {xs : List Process} (ws : List Process) (p : Process) (vs : List Process) {q : Process}
    → xs ≡ ws ++ p ∷ vs
    → settled p ≡ q
    → map settled xs ≡ map settled ws ++ q ∷ map settled vs
split ws p vs e h =
    ap (map settled) e
    ∙ (map-append settled ws (p ∷ vs)
        ∙ ap (λ (x : Process). map settled ws ++ x ∷ map settled vs) h)

-- The list in front of `map settled`.
pub unmap :
    (xs ws us : List Process)
    → map settled xs ≡ ws ++ us
    → (ws0 : List Process) × (us0 : List Process) × (xs ≡ ws0 ++ us0)
      × (map settled ws0 ≡ ws)
      × (map settled us0 ≡ us)
unmap xs [] us e = ([], xs, refl, refl, e)
unmap [] (w ∷ ws) us e = absurd (cc)
unmap (x ∷ xs) (w ∷ ws) us e =
    let (ws0, us0, h, a, b) = unmap xs ws us (cc) in (x ∷ ws0, us0, ap (◌∷◌ x) h, cc, b)

pub leaving-or : (p : Process) → ((b : Bool) × (p.at ≡ leaving b)) ⊎ (settled p ≡ p)
leaving-or p = by_at p.at refl
  where
    by_at : (a : At) → p.at ≡ a → ((b : Bool) × (p.at ≡ leaving b)) ⊎ (settled p ≡ p)
    by_at (leaving b) e = inl (b, e)
    by_at waiting e = inr (stays p waiting e refl)
    by_at going e = inr (stays p going e refl)
    by_at exited e = inr (stays p exited e refl)
    by_at (executing n) e = inr (stays p (executing n) e refl)
    by_at (reporting b) e = inr (stays p (reporting b) e refl)

pub same-length : (ws : List Process) → length (map settled ws) ≡ length ws
same-length ws = length-map settled ws

-- What was changed is the process `p`.
changes :
    (ws : List Process) (q : Process) (vs : List Process) {r : Process}
    → settled q ≡ r
    → map settled ws ++ r ∷ map settled vs ≡ map settled (ws ++ q ∷ vs)
changes ws q vs e = sym (split ws q vs refl e)

module _ {goal : List Pcb × List Ran} where
  -- From the settled state by a move, to what is the settled state of the next.
  moved :
      {s : State} {d : Dispatcher} {n : ℕ} {ran : List Ran} {xs ys : List Process}
      → xs ≡ ys
      → IsAt goal s
      → Move s (record { dispatcher = d; done_sem = n; processes = xs; ran = ran })
      → IsAt goal (record { dispatcher = d; done_sem = n; processes = ys; ran = ran })
  moved {s} {d} {n} {ran} e h m =
      subst (λ ps. IsAt goal (record { dispatcher = d; done_sem = n; processes = ps; ran = ran })) e
        (Move-IsAt m h)

  pub Step-settled : {s t : State} → Step s t → IsAt goal (settle s) → IsAt goal (settle t)
  Step-settled {s} (Step.skip ws vs p f d e x) h =
      let l = same-length ws in
      let to = ap (λ (i : ℕ). looking (i + 1) (f + 1)) l in
      subst (λ c. IsAt goal (record (settle s) { dispatcher = c })) to
        (Move-IsAt
          (Move.skip (map settled ws) (map settled vs) (settled p) f
            (d ∙ ap (λ (i : ℕ). looking i f) (sym l)) (split ws p vs e refl) x)
          h)
  Step-settled {s} (Step.give_turn ws vs p f d e x) h =
      let l = same-length ws in
      let q = record p { turn_sem = p.turn_sem + 1 } in
      let to = ap (λ (i : ℕ). awaiting i f) l in
      subst
        (λ c.
          IsAt goal (record (settle s) { dispatcher = c; processes = map settled (ws ++ q ∷ vs) }))
        to
        (moved (changes ws q vs refl) h (
          Move.give_turn (map settled ws) (map settled vs) (settled p) f
            (d ∙ ap (λ (i : ℕ). looking i f) (sym l)) (split ws p vs e refl) x))
  Step-settled (Step.take_done i f n d x) h = Move-IsAt (Move.take_done i f n d x) h
  Step-settled {s} (Step.next_pass f d lt) h =
      let l = same-length s.processes in
      Move-IsAt (Move.next_pass f (d ∙ ap (λ (i : ℕ). looking i f) (sym l)) (omega (arith, l))) h
  Step-settled {s} (Step.finish f d le) h =
      let l = same-length s.processes in
      Move-IsAt (Move.finish f (d ∙ ap (λ (i : ℕ). looking i f) (sym l)) (omega (arith, l))) h
  Step-settled {s} (Step.wake ws vs p n e a x) h =
      moved (changes ws (record p { turn_sem = n; at = going }) vs refl) h (
        Move.wake (map settled ws) (map settled vs) p n (split ws p vs e (stays p waiting a refl)) a
          x)
  Step-settled {s} (Step.begin ws vs p e a) h =
      moved (changes ws (begun p) vs refl) h
        (Move.begin (map settled ws) (map settled vs) p (split ws p vs e (stays p going a refl)) a)
  Step-settled {s} (Step.execute ws vs p units e a) h =
      moved (changes ws (executed units p) vs refl) h (
        Move.execute (map settled ws) (map settled vs) p units
          (split ws p vs e (stays p (executing units) a refl)) a)
  Step-settled {s} (Step.report ws vs p b e a) h = moved (changes ws (reported b p) vs refl) h (
      Move.report (map settled ws) (map settled vs) p b
        (split ws p vs e (stays p (reporting b) a refl)) a)
  Step-settled {s} (Step.leave ws vs p b e a) h =
      let same = ap (λ (x : At). record p { at = x }) (ap settled_at a ∙ sym (gone-settled b)) in
      subst (λ ps. IsAt goal (record (settle s) { processes = ps }))
        (split ws p vs e same ∙ changes ws (gone b p) vs refl) h

  pub Reach-keeps : {s t : State} → Reach s t → IsAt goal (settle s) → IsAt goal (settle t)
  Reach-keeps here h = h
  Reach-keeps (later r step) h = Step-settled step (Reach-keeps r h)
