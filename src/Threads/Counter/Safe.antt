-- ===== src/Threads/Counter/Safe.antt =====
-- The counters of task1_process_threading/scheduler.c in every order of the steps.
use samuel_basnet_240512_st.Prelude.{
  ℕ, zero, suc, ◌*◌, ◌≤◌, ◌≡◌, refl, ap, subst, arith, replicate, All,
}
use samuel_basnet_240512_st.Threads.Counter.{
  top, stored, Worker, State, Step, load_unsafe, store_unsafe, acquire, load_safe, store_safe,
  release, Reach, here, later, created, Returned,
}
use samuel_basnet_240512_st.Threads.Counter.Parts.{
  total, total-replicate, safe_of, stores, held, FreshAt, EarlyAt, IsSafe, Parts, Parts-IsSafe,
  IsSafe-Parts,
}
use samuel_basnet_240512_st.Threads.Counter.Moves.{
  load_unsafe-Parts, store_unsafe-Parts, acquire-Parts, load_safe-Parts, store_safe-Parts,
  release-Parts,
}

Step-IsSafe : {k : ℕ} {s t : State} → Step k s t → IsSafe s → IsSafe t
Step-IsSafe {k} {s} (load_unsafe ws vs i e lt) h =
    IsSafe-Parts _ ws _ vs refl (load_unsafe-Parts ws vs i (Parts-IsSafe s ws _ vs e h))
Step-IsSafe {k} {s} (store_unsafe ws vs i t e) h =
    IsSafe-Parts _ ws _ vs refl (store_unsafe-Parts ws vs i t (Parts-IsSafe s ws _ vs e h))
Step-IsSafe {k} {s} (acquire ws vs i e free) h = IsSafe-Parts _ ws _ vs refl (
    acquire-Parts ws vs i (
      subst (λ b. Parts s.unsafe s.safe b ws (record { i = i; at = stored }) vs) free
        (Parts-IsSafe s ws _ vs e h)))
Step-IsSafe {k} {s} (load_safe ws vs i e) h =
    IsSafe-Parts _ ws _ vs refl (load_safe-Parts ws vs i (Parts-IsSafe s ws _ vs e h))
Step-IsSafe {k} {s} (store_safe ws vs i t e) h =
    IsSafe-Parts _ ws _ vs refl (store_safe-Parts ws vs i t (Parts-IsSafe s ws _ vs e h))
Step-IsSafe {k} {s} (release ws vs i e) h =
    IsSafe-Parts _ ws _ vs refl (release-Parts ws vs i (Parts-IsSafe s ws _ vs e h))

Reach-keeps : {k : ℕ} {s t : State} → Reach k s t → IsSafe s → IsSafe t
Reach-keeps here h = h
Reach-keeps (later r step) h = Step-IsSafe step (Reach-keeps r h)

All-replicate : (P : Worker → Type 0) (n : ℕ) (w : Worker) → P w → All P (replicate n w)
All-replicate P zero w h = tt
All-replicate P (suc n) w h = (h, All-replicate P n w h)

created-IsSafe : (n : ℕ) → IsSafe (created n)
created-IsSafe n =
    let w : Worker = record { i = 0; at = top } in
    record {
      exact = grind (arith, total-replicate safe_of n w);
      exclusive = grind (arith, total-replicate held n w);
      fresh = All-replicate (λ v. FreshAt 0 v.at) n w tt;
      few = omega arith;
      early = All-replicate (λ v. EarlyAt (total stores (replicate n w)) v.at) n w tt;
    }

pub Reach-IsSafe : {k : ℕ} (n : ℕ) {s : State} → Reach k (created n) s → IsSafe s
Reach-IsSafe n r = Reach-keeps r (created-IsSafe n)

-- However the `n` threads run, once all have returned the counter under the lock stands at exactly
-- `n` times the increments of each, and the counter without it at no more than that.
pub returned-exact :
    (n k : ℕ) {s : State}
    → Reach k (created n) s
    → Returned n k s
    → (s.safe ≡ n * k) × (s.unsafe ≤ n * k)
returned-exact n k {s} r e =
    let h = Reach-IsSafe n r in
    let w : Worker = record { i = k; at = top } in
    (
      grind (arith, h.exact, ap (total safe_of) e, total-replicate safe_of n w),
      grind (arith, h.few, ap (total stores) e, total-replicate stores n w),
    )
