-- ===== src/Threads/Scheduler/Handoff/Phases.antt =====
-- The states that the threads of scheduler.c can reach.

use samuel_basnet_240512_st.Prelude.{
  ℕ, suc, ◌+◌, ◌-◌, Bool, true, false, some, List, [], ◌∷◌, ◌++◌, ◌≡◌, refl, sym, ap, ap₂, ◌∙◌,
  subst, arith, ◌==◌, if◌then◌else◌, length, All,
}
use samuel_basnet_240512_st.Threads.Scheduler.{
  Pcb, Ran, is_done, ready, running, done, run_time, slice,
}
use samuel_basnet_240512_st.Threads.Scheduler.Handoff.{
  waiting, going, exited, executing, reporting, Process, Dispatcher, looking, awaiting, returned,
  State, begun, executed, gone, pcbs,
}
use samuel_basnet_240512_st.Threads.Scheduler.Handoff.Predict.{predict}

-- A process whose turn it is not.
abbrev pub Rest : Process → Type 0
Rest p = (p.turn_sem ≡ 0) × (p.at ≡ (if is_done p.pcb.state then exited else waiting))

-- A process that can take a step.
pub data Active (p : Process) : Type 0 where
  wakes : (n : ℕ) → p.at ≡ waiting → p.turn_sem ≡ suc n → Active p
  begins : p.at ≡ going → Active p
  executes : (units : ℕ) → p.at ≡ executing units → Active p
  reports : (b : Bool) → p.at ≡ reporting b → Active p

Rest-idle : (p : Process) → Rest p → Active p → ⊥
Rest-idle p (z, e) (wakes n a t) = omega arith
Rest-idle p (z, e) (begins a) = ground arith
Rest-idle p (z, e) (executes u a) = ground arith
Rest-idle p (z, e) (reports b a) = ground arith

-- `p0` is the process at the start of its turn, `ran0` what had run before.
pub data Phase (p0 : Pcb) (ran0 : List Ran) (p : Process) (n : ℕ) (ran : List Ran) : Type 0 where
  posted :
      p ≡ record { pcb = p0; turn_sem = 1; at = waiting }
      → n ≡ 0
      → ran ≡ ran0
      → Phase p0 ran0 p n ran
  woken :
      p ≡ record { pcb = p0; turn_sem = 0; at = going } → n ≡ 0 → ran ≡ ran0 → Phase p0 ran0 p n ran
  in_burst :
      p ≡ record { pcb = record p0 { state = running }; turn_sem = 0; at = executing (run_time p0) }
      → n ≡ 0
      → ran ≡ ran0 ++ (p0.pid, run_time p0) ∷ []
      → Phase p0 ran0 p n ran
  behind :
      p ≡ record { pcb = slice p0; turn_sem = 0; at = reporting (is_done (slice p0).state) }
      → n ≡ 0
      → ran ≡ ran0 ++ (p0.pid, run_time p0) ∷ []
      → Phase p0 ran0 p n ran
  over :
      p ≡ record {
        pcb = slice p0;
        turn_sem = 0;
        at = if is_done (slice p0).state then exited else waiting;
      }
      → n ≡ 1
      → ran ≡ ran0 ++ (p0.pid, run_time p0) ∷ []
      → Phase p0 ran0 p n ran

module _ (goal : List Pcb × List Ran) where
  pub record Around (d : Dispatcher) (ws vs : List Process) (p0 : Pcb) (ran0 : List Ran)
      : Type 0 where
    pub fuel : ℕ
    pub f : ℕ
    pub awaits : d ≡ awaiting (length ws) f
    pub front : All Rest ws
    pub back : All Rest vs
    pub outcome :
        predict fuel f (pcbs ws ++ slice p0 ∷ []) (pcbs vs) (ran0 ++ (p0.pid, run_time p0) ∷ [])
        ≡ some goal

  pub record OneTurn (s : State) (ws : List Process) (p : Process) (vs : List Process)
      : Type 0 where
    pub p0 : Pcb
    pub ran0 : List Ran
    pub around : Around s.dispatcher ws vs p0 ran0
    pub phase : Phase p0 ran0 p s.done_sem s.ran

  pub data IsAt (s : State) : Type 0 where
    at_look :
        (fuel f : ℕ) (ws vs : List Process)
        → s.dispatcher ≡ looking (length ws) f
        → s.processes ≡ ws ++ vs
        → s.done_sem ≡ 0
        → All Rest ws
        → All Rest vs
        → predict fuel f (pcbs ws) (pcbs vs) s.ran ≡ some goal
        → IsAt s
    at_turn :
        (ws : List Process) (p : Process) (vs : List Process)
        → s.processes ≡ ws ++ p ∷ vs
        → OneTurn s ws p vs
        → IsAt s
    at_end :
        s.dispatcher ≡ returned → All Rest s.processes → (pcbs s.processes, s.ran) ≡ goal → IsAt s

All-middle :
    (ws : List Process) (p : Process) (vs : List Process)
    → All Rest (ws ++ p ∷ vs)
    → All Rest ws × Rest p × All Rest vs
All-middle [] p vs h = (tt, h.0, h.1)
All-middle (x ∷ ws) p vs h = let (a, b, c) = All-middle ws p vs h.1 in ((h.0, a), b, c)

pub append-All : (ws vs : List Process) → All Rest ws → All Rest vs → All Rest (ws ++ vs)
append-All [] vs a b = b
append-All (x ∷ ws) vs a b = (a.0, append-All ws vs a.1 b)

-- Among processes at rest but for one, it is the one that can take a step.
only-Active :
    (ws : List Process) (p : Process) (vs : List Process) (ws' : List Process) (p' : Process)
    (vs' : List Process)
    → ws ++ p ∷ vs ≡ ws' ++ p' ∷ vs'
    → All Rest ws
    → All Rest vs
    → Active p'
    → (ws ≡ ws') × (p ≡ p') × (vs ≡ vs')
only-Active [] p vs [] p' vs' e a b act = (refl, cc, cc)
only-Active [] p vs (x ∷ ws') p' vs' e a b act =
    absurd (Rest-idle p' (All-middle ws' p' vs' (subst (All Rest) (cc) b)).1 act)
only-Active (x ∷ ws) p vs [] p' vs' e a b act =
    absurd (Rest-idle p' (subst Rest {x = x} {y = p'} (cc) a.0) act)
only-Active (x ∷ ws) p vs (y ∷ ws') p' vs' e a b act =
    let (h, i, j) = only-Active ws p vs ws' p' vs' (cc) a.1 b act in (cc, i, j)

pub OneTurn-same :
    {goal : List Pcb × List Ran} {s : State} {ws ws' : List Process} {p p' : Process}
    {vs vs' : List Process}
    → ws ≡ ws'
    → p ≡ p'
    → vs ≡ vs'
    → OneTurn goal s ws p vs
    → OneTurn goal s ws' p' vs'
OneTurn-same {goal} {s} {ws} {ws'} {p} {p'} {vs} {vs'} a b c t =
    subst (λ us. OneTurn goal s us p' vs') a
      (subst (λ q. OneTurn goal s ws q vs') b (subst (λ us. OneTurn goal s ws p us) c t))

-- Where a process can take a step, it has its turn.
pub the-turn :
    {goal : List Pcb × List Ran} {s : State} (ws : List Process) (p : Process) (vs : List Process)
    → IsAt goal s
    → s.processes ≡ ws ++ p ∷ vs
    → Active p
    → OneTurn goal s ws p vs
the-turn ws p vs (at_look fuel f ws' vs' d e n a b o) e' act = absurd (
    Rest-idle p (All-middle ws p vs (subst (All Rest) (sym e ∙ e') (append-All ws' vs' a b))).1 act)
the-turn ws p vs (at_turn ws' p' vs' e t) e' act =
    let (h, i, j) = only-Active ws' p' vs' ws p vs (sym e ∙ e') t.around.front t.around.back act in
    OneTurn-same h i j t
the-turn ws p vs (at_end d a o) e' act =
    absurd (Rest-idle p (All-middle ws p vs (subst (All Rest) e' a)).1 act)

is_done-if : (b : Bool) → is_done (if b then done else ready) ≡ b
is_done-if true = refl
is_done-if false = refl

module _ {p0 : Pcb} {ran0 : List Ran} (p : Process) where
  pub phase-wake :
      (m n : ℕ) (ran : List Ran)
      → Phase p0 ran0 p m ran
      → p.at ≡ waiting
      → p.turn_sem ≡ suc n
      → Phase p0 ran0 (record p { turn_sem = n; at = going }) m ran
  phase-wake m n ran (posted e z r) a t =
      let none_left : n ≡ 0 = omega (arith, ap (λ (q : Process). q.turn_sem) e) in
      woken (rw (ap (λ (q : Process). q.pcb) e, none_left) refl) z r
  phase-wake m n ran (woken e z r) a t = absurd (cc)
  phase-wake m n ran (in_burst e z r) a t = absurd (cc)
  phase-wake m n ran (behind e z r) a t = absurd (cc)
  phase-wake m n ran (over e z r) a t = absurd (omega (arith, ap (λ (q : Process). q.turn_sem) e))

  pub phase-begin :
      (m : ℕ) (ran : List Ran)
      → Phase p0 ran0 p m ran
      → p.at ≡ going
      → Phase p0 ran0 (begun p) m (ran ++ (p.pcb.pid, run_time p.pcb) ∷ [])
  phase-begin m ran (posted e z r) a = absurd (cc)
  phase-begin m ran (woken e z r) a =
      in_burst (ap begun e) z (rw (r, ap (λ (q : Process). q.pcb) e) refl)
  phase-begin m ran (in_burst e z r) a = absurd (cc)
  phase-begin m ran (behind e z r) a = absurd (cc)
  phase-begin m ran (over e z r) a = absurd (ground (arith, ap (λ (q : Process). q.at) e))

  pub phase-execute :
      (m : ℕ) (ran : List Ran) (units : ℕ)
      → Phase p0 ran0 p m ran
      → p.at ≡ executing units
      → Phase p0 ran0 (executed units p) m ran
  unfolding slice
  phase-execute m ran units (posted e z r) a = absurd (cc)
  phase-execute m ran units (woken e z r) a = absurd (cc)
  phase-execute m ran units (in_burst e z r) a =
      let same : units ≡ run_time p0 = cc in
      behind (ap₂ executed same e ∙ rw (is_done-if (p0.remaining_time - run_time p0 == 0)) refl) z r
  phase-execute m ran units (behind e z r) a = absurd (cc)
  phase-execute m ran units (over e z r) a = absurd (ground (arith, ap (λ (q : Process). q.at) e))

  pub phase-report :
      (m : ℕ) (ran : List Ran) (b : Bool)
      → Phase p0 ran0 p m ran
      → p.at ≡ reporting b
      → Phase p0 ran0 (gone b p) (m + 1) ran
  phase-report m ran b (posted e z r) a = absurd (cc)
  phase-report m ran b (woken e z r) a = absurd (cc)
  phase-report m ran b (in_burst e z r) a = absurd (cc)
  phase-report m ran b (behind e z r) a =
      let same : b ≡ is_done (slice p0).state = cc in over (ap₂ gone same e) (omega arith) r
  phase-report m ran b (over e z r) a = absurd (ground (arith, ap (λ (q : Process). q.at) e))
