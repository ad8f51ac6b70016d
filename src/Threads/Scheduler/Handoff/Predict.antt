-- ===== src/Threads/Scheduler/Handoff/Predict.antt =====
-- What `dispatch` still makes of a pass that is under way.
use mathlib.Core.List.{append_assoc, append-nil}
use samuel_basnet_240512_st.Prelude.{
  ℕ, zero, suc, ◌+◌, ◌≤◌, ◌<◌, true, false, Option, none, some, List, [], ◌∷◌, ◌++◌, ◌≡◌, refl, sym,
  ap, ◌∙◌, arith, ltb, length,
}
use samuel_basnet_240512_st.Threads.Scheduler.{
  Pcb, Ran, is_done, run_time, slice, pass, and_then, dispatch,
}

-- The outcome, with `f` processes found done so far, `seen` in front of the dispatcher and `rest` behind, and the slices `ran`.
abbrev pub predict : ℕ → ℕ → List Pcb → List Pcb → List Ran → Option (List Pcb × List Ran)
predict fuel f seen rest ran =
    let t = pass rest in
    and_then (ran ++ t.ran) (dispatch fuel (f + t.finished) (seen ++ t.processes))

abbrev ended : ℕ → ℕ → List Pcb → List Ran → Option (List Pcb × List Ran)
ended fuel f ps ran = and_then ran (dispatch fuel f ps)

pub predict-skip :
    (fuel f : ℕ) (seen rest : List Pcb) (ran : List Ran) (p : Pcb)
    → is_done p.state ≡ true
    → predict fuel f seen (p ∷ rest) ran ≡ predict fuel (f + 1) (seen ++ p ∷ []) rest ran
unfolding pass
predict-skip fuel f seen rest ran p e =
    let t = pass rest in
    let count : f + (t.finished + 1) ≡ f + 1 + t.finished = omega arith in
    rw e (
      ap (λ (n : ℕ). ended fuel n (seen ++ p ∷ t.processes) (ran ++ t.ran)) count
      ∙ ap (λ (ps : List Pcb). ended fuel (f + 1 + t.finished) ps (ran ++ t.ran))
          (sym (append_assoc seen (p ∷ []) t.processes)))

pub predict-turn :
    (fuel f : ℕ) (seen rest : List Pcb) (ran : List Ran) (p : Pcb)
    → is_done p.state ≡ false
    → predict fuel f seen (p ∷ rest) ran
      ≡ predict fuel f (seen ++ slice p ∷ []) rest (ran ++ (p.pid, run_time p) ∷ [])
unfolding pass
predict-turn fuel f seen rest ran p e =
    let t = pass rest in
    rw e (
      ap (λ (r : List Ran). ended fuel (f + t.finished) (seen ++ slice p ∷ t.processes) r)
        (sym (append_assoc ran ((p.pid, run_time p) ∷ []) t.ran))
      ∙ ap
          (λ (ps : List Pcb).
            ended fuel (f + t.finished) ps ((ran ++ (p.pid, run_time p) ∷ []) ++ t.ran))
          (sym (append_assoc seen (slice p ∷ []) t.processes)))

and_then-twice :
    (a b : List Ran) (o : Option (List Pcb × List Ran))
    → and_then a (and_then b o) ≡ and_then (a ++ b) o
and_then-twice a b none = refl
and_then-twice a b (some r) = ap (λ (x : List Ran). some (r.0, x)) (sym (append_assoc a b r.1))

pub predict-done :
    (fuel f : ℕ) (seen : List Pcb) (ran : List Ran)
    → predict fuel f seen [] ran ≡ ended fuel f seen ran
unfolding pass
predict-done fuel f seen ran =
    let zero_more : f + 0 ≡ f = omega arith in
    ap (λ (r : List Ran). and_then r (dispatch fuel (f + 0) (seen ++ []))) (append-nil ran)
    ∙ (ap (λ (ps : List Pcb). ended fuel (f + 0) ps ran) (append-nil seen)
        ∙ ap (λ (n : ℕ). ended fuel n seen ran) zero_more)

-- Behind the last process another pass follows, or the loop ends.
pub predict-next :
    (fuel f : ℕ) (seen : List Pcb) (ran : List Ran) {goal : List Pcb × List Ran}
    → predict fuel f seen [] ran ≡ some goal
    → f < length seen
    → (fuel' : ℕ) × (predict fuel' 0 [] seen ran ≡ some goal)
unfolding dispatch
predict-next zero f seen ran h lt = absurd (cc)
predict-next (suc fuel) f seen ran h lt =
    let t = pass seen in
    let more : ltb f (length seen) ≡ true = ground arith in
    let zero_more : 0 + t.finished ≡ t.finished = omega arith in
    (
      fuel,
      ap (λ (n : ℕ). ended fuel n t.processes (ran ++ t.ran)) zero_more
          ∙ (sym (and_then-twice ran t.ran (dispatch fuel t.finished t.processes))
              ∙ rw more at (sym (predict-done (suc fuel) f seen ran) ∙ h)),
    )

pub predict-end :
    (fuel f : ℕ) (seen : List Pcb) (ran : List Ran) {goal : List Pcb × List Ran}
    → predict fuel f seen [] ran ≡ some goal
    → length seen ≤ f
    → (seen, ran) ≡ goal
unfolding dispatch
predict-end zero f seen ran h le = absurd (cc)
predict-end (suc fuel) f seen ran h le =
    let no_more : ltb f (length seen) ≡ false = ground arith in
    let last = rw no_more at (sym (predict-done (suc fuel) f seen ran) ∙ h) in
    let last' = rw append-nil at last in cc
