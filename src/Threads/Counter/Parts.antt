-- ===== src/Threads/Counter/Parts.antt =====
-- The invariant of the counters of scheduler.c, and the same with one thread singled out.
use samuel_basnet_240512_st.Prelude.{
  ℕ, zero, suc, ◌+◌, ◌*◌, ◌≤◌, Bool, List, [], ◌∷◌, ◌++◌, ◌≡◌, sym, ap, ◌∙◌, subst, arith,
  replicate, All, if◌then◌else◌,
}
use samuel_basnet_240512_st.Threads.Counter.{
  At, top, loaded, locked, counting, counted, Worker, State,
}

abbrev pub total : (Worker → ℕ) → List Worker → ℕ
total f [] = 0
total f (w ∷ ws) = f w + total f ws

total-append :
    (f : Worker → ℕ) (ws : List Worker) (w : Worker) (vs : List Worker)
    → total f (ws ++ w ∷ vs) ≡ total f ws + f w + total f vs
total-append f [] w vs = omega arith
total-append f (x ∷ ws) w vs = omega (arith, total-append f ws w vs)

pub total-replicate : (f : Worker → ℕ) (n : ℕ) (w : Worker) → total f (replicate n w) ≡ n * f w
total-replicate f zero w = omega arith
total-replicate f (suc n) w = grind (arith, total-replicate f n w)

-- The increments of a thread so far: of the safe counter, and the stores to the unsafe one.
abbrev pub counted_at : At → ℕ
counted_at counted = 1
counted_at _ = 0

abbrev pub safe_of : Worker → ℕ
safe_of w = w.i + counted_at w.at

abbrev pub store_at : At → ℕ
store_at top = 0
store_at (loaded t) = 0
store_at _ = 1

abbrev pub stores : Worker → ℕ
stores w = w.i + store_at w.at

-- 1 for a thread that holds the lock.
abbrev pub held_at : At → ℕ
held_at locked = 1
held_at (counting t) = 1
held_at counted = 1
held_at _ = 0

abbrev pub held : Worker → ℕ
held w = held_at w.at

-- What a thread has loaded under the lock is still what the counter holds.
abbrev pub FreshAt : ℕ → At → Type 0
FreshAt n (counting t) = t ≡ n
FreshAt n _ = Unit

abbrev pub EarlyAt : ℕ → At → Type 0
EarlyAt n (loaded t) = t ≤ n
EarlyAt n _ = Unit

abbrev pub bit : Bool → ℕ
bit b = if b then 1 else 0

pub record IsSafe (s : State) : Type 0 where
  pub exact : s.safe ≡ total safe_of s.workers
  pub exclusive : total held s.workers ≡ bit s.lock
  pub fresh : All (λ w. FreshAt s.safe w.at) s.workers
  pub few : s.unsafe ≤ total stores s.workers
  pub early : All (λ w. EarlyAt (total stores s.workers) w.at) s.workers

-- The same with one thread singled out.
pub record Parts (unsafe safe : ℕ) (lock : Bool) (ws : List Worker) (w : Worker) (vs : List Worker)
    : Type 0 where
  pub exact : safe ≡ total safe_of ws + safe_of w + total safe_of vs
  pub exclusive : total held ws + held w + total held vs ≡ bit lock
  pub fresh : FreshAt safe w.at
  pub fresh_others : All (λ v. FreshAt safe v.at) ws × All (λ v. FreshAt safe v.at) vs
  pub few : unsafe ≤ total stores ws + stores w + total stores vs
  pub early : EarlyAt (total stores ws + stores w + total stores vs) w.at
  pub early_others :
      All (λ v. EarlyAt (total stores ws + stores w + total stores vs) v.at) ws
      × All (λ v. EarlyAt (total stores ws + stores w + total stores vs) v.at) vs

module _ (P : Worker → Type 0) where
  All-split :
      (ws : List Worker) (w : Worker) (vs : List Worker)
      → All P (ws ++ w ∷ vs)
      → All P ws × P w × All P vs
  All-split [] w vs h = (tt, h.0, h.1)
  All-split (x ∷ ws) w vs h = let (a, b, c) = All-split ws w vs h.1 in ((h.0, a), b, c)

  All-join :
      (ws : List Worker) (w : Worker) (vs : List Worker)
      → All P ws
      → P w
      → All P vs
      → All P (ws ++ w ∷ vs)
  All-join [] w vs a b c = (b, c)
  All-join (x ∷ ws) w vs a b c = (a.0, All-join ws w vs a.1 b c)

  pub All-mono :
      (Q : Worker → Type 0) → ((w : Worker) → P w → Q w) → (ws : List Worker) → All P ws → All Q ws
  All-mono Q f [] h = tt
  All-mono Q f (w ∷ ws) h = (f w h.0, All-mono Q f ws h.1)

module _ (s : State) (ws : List Worker) (w : Worker) (vs : List Worker) where
  pub Parts-IsSafe : s.workers ≡ ws ++ w ∷ vs → IsSafe s → Parts s.unsafe s.safe s.lock ws w vs
  Parts-IsSafe e h =
      let stores-e = ap (total stores) e ∙ total-append stores ws w vs in
      let (fa, fb, fc) =
        All-split (λ v. FreshAt s.safe v.at) ws w vs
          (subst (All (λ v. FreshAt s.safe v.at)) e h.fresh) in
      let early' = subst (λ n. All (λ v. EarlyAt n v.at) s.workers) stores-e h.early in
      let all = total stores ws + stores w + total stores vs in
      let (ea, eb, ec) =
        All-split (λ v. EarlyAt all v.at) ws w vs (subst (All (λ v. EarlyAt all v.at)) e early') in
      record {
        exact = h.exact ∙ (ap (total safe_of) e ∙ total-append safe_of ws w vs);
        exclusive = sym (ap (total held) e ∙ total-append held ws w vs) ∙ h.exclusive;
        fresh = fb;
        fresh_others = (fa, fc);
        few = subst (λ n. s.unsafe ≤ n) stores-e h.few;
        early = eb;
        early_others = (ea, ec);
      }

  pub IsSafe-Parts : s.workers ≡ ws ++ w ∷ vs → Parts s.unsafe s.safe s.lock ws w vs → IsSafe s
  IsSafe-Parts e p =
      let stores-e = ap (total stores) e ∙ total-append stores ws w vs in
      let all = total stores ws + stores w + total stores vs in
      record {
        exact = p.exact ∙ sym (ap (total safe_of) e ∙ total-append safe_of ws w vs);
        exclusive = (ap (total held) e ∙ total-append held ws w vs) ∙ p.exclusive;
        fresh =
            subst (All (λ v. FreshAt s.safe v.at)) (sym e) (
              All-join (λ v. FreshAt s.safe v.at) ws w vs p.fresh_others.0 p.fresh
                p.fresh_others.1);
        few = subst (λ n. s.unsafe ≤ n) (sym stores-e) p.few;
        early =
            subst (λ n. All (λ v. EarlyAt n v.at) s.workers) (sym stores-e)
              (subst (All (λ v. EarlyAt all v.at)) (sym e) (
                All-join (λ v. EarlyAt all v.at) ws w vs p.early_others.0 p.early
                  p.early_others.1));
      }
