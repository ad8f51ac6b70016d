-- ===== src/Threads/Counter/Lost.antt =====
-- The race of task1_process_threading/scheduler.c at its worst: threads in lock step.
use mathlib.Core.List.{append_assoc}
use samuel_basnet_240512_st.Prelude.{
  ℕ, zero, suc, ◌+◌, ◌*◌, ◌≤◌, ◌<◌, false, List, [], ◌∷◌, ◌++◌, ◌≡◌, refl, subst, arith, replicate,
}
use samuel_basnet_240512_st.Threads.Counter.{
  At, top, loaded, stored, Worker, State, load_unsafe, store_unsafe, acquire, load_safe, store_safe,
  release, Reach, here, later, created, Returned,
}

Reach-trans : {k : ℕ} {s t u : State} → Reach k s t → Reach k t u → Reach k s u
Reach-trans r here = r
Reach-trans r (later q step) = later (Reach-trans r q) step

-- What all threads do one after the other, `m` counting them.
sweep :
    {k : ℕ} (at_count : ℕ → List Worker → State) (w w' : Worker)
    → ((m : ℕ) (ws vs : List Worker)
        → Reach k (at_count m (ws ++ w ∷ vs)) (at_count (m + 1) (ws ++ w' ∷ vs)))
    → (b m : ℕ) (ws : List Worker)
    → Reach k (at_count m (ws ++ replicate b w)) (at_count (m + b) (ws ++ replicate b w'))
sweep {k} at_count w w' one zero m ws =
    subst (λ j. Reach k (at_count m (ws ++ [])) (at_count j (ws ++ []))) (omega arith) here
sweep {k} at_count w w' one (suc b) m ws = Reach-trans (one m ws (replicate b w)) (
    subst (λ us. Reach k (at_count (m + 1) us) (at_count (m + suc b) (ws ++ w' ∷ replicate b w')))
      (append_assoc ws (w' ∷ []) (replicate b w))
      (subst
        (λ us.
          Reach k (at_count (m + 1) ((ws ++ w' ∷ []) ++ replicate b w)) (at_count (m + suc b) us))
        (append_assoc ws (w' ∷ []) (replicate b w'))
        (subst
          (λ j.
            Reach k (at_count (m + 1) ((ws ++ w' ∷ []) ++ replicate b w))
              (at_count j ((ws ++ w' ∷ []) ++ replicate b w')))
          (omega arith) (sweep at_count w w' one b (m + 1) (ws ++ w' ∷ [])))))

abbrev worker : ℕ → At → Worker
worker i a = record { i = i; at = a }

-- Nobody holds the lock.
abbrev quiet : ℕ → ℕ → List Worker → State
quiet unsafe safe ws = record { unsafe = unsafe; safe = safe; lock = false; workers = ws }

module _ {k : ℕ} (i : ℕ) where
  loads :
      (u n b : ℕ)
      → i < k
      → Reach k
          (quiet u n (replicate b (worker i top)))
          (quiet u n (replicate b (worker i (loaded u))))
  loads u n b lt =
      sweep (λ m ws. quiet u n ws) (worker i top) (worker i (loaded u))
        (λ m ws vs. later here (load_unsafe ws vs i refl lt)) b 0 []

  more_stores :
      (t n b : ℕ) (ws : List Worker)
      → Reach k
          (quiet (t + 1) n (ws ++ replicate b (worker i (loaded t))))
          (quiet (t + 1) n (ws ++ replicate b (worker i stored)))
  more_stores t n b ws =
      sweep (λ m us. quiet (t + 1) n us) (worker i (loaded t)) (worker i stored)
        (λ m us vs. later here (store_unsafe us vs i t refl)) b 0 ws

  -- All threads store the same value.
  stores :
      (t n b : ℕ)
      → Reach k
          (quiet t n (replicate (suc b) (worker i (loaded t))))
          (quiet (t + 1) n (replicate (suc b) (worker i stored)))
  stores t n b =
      Reach-trans (later here (store_unsafe [] (replicate b (worker i (loaded t))) i t refl))
        (more_stores t n b (worker i stored ∷ []))

  counts :
      (u n b : ℕ)
      → Reach k
          (quiet u n (replicate b (worker i stored)))
          (quiet u (n + b) (replicate b (worker (i + 1) top)))
  counts u n b =
      sweep (λ m ws. quiet u m ws) (worker i stored) (worker (i + 1) top)
        (λ m ws vs.
          later
            (later (later (later here (acquire ws vs i refl refl)) (load_safe ws vs i refl))
              (store_safe ws vs i m refl))
            (release ws vs i refl))
        b n []

  -- A one_round of all threads: one increment of the unsafe counter is left of all of them.
  one_round :
      (u n b : ℕ)
      → i < k
      → Reach k
          (quiet u n (replicate (suc b) (worker i top)))
          (quiet (u + 1) (n + suc b) (replicate (suc b) (worker (i + 1) top)))
  one_round u n b lt =
      Reach-trans (loads u n (suc b) lt) (Reach-trans (stores u n b) (counts (u + 1) n (suc b)))

many_rounds :
    (k b j : ℕ)
    → j ≤ k
    → Reach k (created (suc b)) (quiet j (suc b * j) (replicate (suc b) (worker j top)))
many_rounds k b zero le =
    subst (λ n. Reach k (created (suc b)) (quiet 0 n (replicate (suc b) (worker 0 top))))
      (grind arith) here
many_rounds k b (suc j) le = Reach-trans (many_rounds k b j (omega arith)) (
    subst
      (λ n.
        Reach k (quiet j (suc b * j) (replicate (suc b) (worker j top)))
          (quiet (suc j) n (replicate (suc b) (worker (suc j) top))))
      (grind arith)
      (subst
        (λ i.
          Reach k (quiet j (suc b * j) (replicate (suc b) (worker j top)))
            (quiet i (suc b * j + suc b) (replicate (suc b) (worker i top))))
        (omega arith) (one_round j j (suc b * j) b (omega arith))))

-- Without the lock all but the increments of one thread can be lost: `n` threads, one or more, can return with the unsafe counter at the increments of a single one, while the counter under the lock has them all.
pub updates-lost :
    (n k : ℕ)
    → 1 ≤ n
    → (s : State) × Reach k (created n) s × Returned n k s × (s.unsafe ≡ k) × (s.safe ≡ n * k)
updates-lost zero k h = absurd (omega arith)
updates-lost (suc b) k h = (
  quiet k (suc b * k) (replicate (suc b) (worker k top)),
  many_rounds k b k (omega arith),
  refl,
  refl,
  refl,
)
