-- ===== src/Threads/Counter/Moves.antt =====
-- What a step of one thread of scheduler.c does to the invariant of the counters.
use samuel_basnet_240512_st.Prelude.{
  ℕ, ◌+◌, ◌≤◌, Bool, true, false, List, [], ◌∷◌, ◌≡◌, refl, arith, All,
}
use samuel_basnet_240512_st.Threads.Counter.{
  At, top, loaded, stored, locked, counting, counted, Worker,
}
use samuel_basnet_240512_st.Threads.Counter.Parts.{
  total, stores, held, held_at, FreshAt, EarlyAt, bit, Parts, All-mono,
}

EarlyAt-mono : (n m : ℕ) (a : At) → n ≤ m → EarlyAt n a → EarlyAt m a
EarlyAt-mono n m top le h = tt
EarlyAt-mono n m (loaded t) le h = omega arith
EarlyAt-mono n m stored le h = tt
EarlyAt-mono n m locked le h = tt
EarlyAt-mono n m (counting t) le h = tt
EarlyAt-mono n m counted le h = tt

Early-mono :
    (n m : ℕ) (ws : List Worker)
    → n ≤ m
    → All (λ v. EarlyAt n v.at) ws
    → All (λ v. EarlyAt m v.at) ws
Early-mono n m ws le =
    All-mono (λ v. EarlyAt n v.at) (λ v. EarlyAt m v.at) (λ v. EarlyAt-mono n m v.at le) ws

-- Without the lock nothing is loaded under it.
free-FreshAt : (n : ℕ) (a : At) → held_at a ≡ 0 → FreshAt n a
free-FreshAt n top e = tt
free-FreshAt n (loaded t) e = tt
free-FreshAt n stored e = tt
free-FreshAt n locked e = tt
free-FreshAt n (counting t) e = absurd (omega arith)
free-FreshAt n counted e = tt

free-Fresh : (n : ℕ) (ws : List Worker) → total held ws ≡ 0 → All (λ v. FreshAt n v.at) ws
free-Fresh n [] e = tt
free-Fresh n (w ∷ ws) e = (free-FreshAt n w.at (omega arith), free-Fresh n ws (omega arith))

bit-le : (b : Bool) → bit b ≤ 1
bit-le b = ground arith

pub acquire-Parts :
    {u n : ℕ} (ws vs : List Worker) (i : ℕ)
    → Parts u n false ws (record { i = i; at = stored }) vs
    → Parts u n true ws (record { i = i; at = locked }) vs
acquire-Parts ws vs i p = record {
  exact = p.exact;
  exclusive = omega (arith, p.exclusive);
  fresh = tt;
  fresh_others = p.fresh_others;
  few = p.few;
  early = tt;
  early_others = p.early_others;
}

-- A step of one thread.
module _ {u n : ℕ} {l : Bool} (ws vs : List Worker) (i : ℕ) where
  pub load_unsafe-Parts :
      Parts u n l ws (record { i = i; at = top }) vs
      → Parts u n l ws (record { i = i; at = loaded u }) vs
  load_unsafe-Parts p = record {
    exact = p.exact;
    exclusive = p.exclusive;
    fresh = tt;
    fresh_others = p.fresh_others;
    few = p.few;
    early = p.few;
    early_others = p.early_others;
  }

  pub store_unsafe-Parts :
      (t : ℕ)
      → Parts u n l ws (record { i = i; at = loaded t }) vs
      → Parts (t + 1) n l ws (record { i = i; at = stored }) vs
  store_unsafe-Parts t p =
      let more =
        Early-mono (total stores ws + (i + 0) + total stores vs)
          (total stores ws + (i + 1) + total stores vs) in
      record {
        exact = p.exact;
        exclusive = p.exclusive;
        fresh = tt;
        fresh_others = p.fresh_others;
        few = omega (arith, p.early);
        early = tt;
        early_others =
            (more ws (omega arith) p.early_others.0, more vs (omega arith) p.early_others.1);
      }

  pub load_safe-Parts :
      Parts u n l ws (record { i = i; at = locked }) vs
      → Parts u n l ws (record { i = i; at = counting n }) vs
  load_safe-Parts p = record {
    exact = p.exact;
    exclusive = p.exclusive;
    fresh = refl;
    fresh_others = p.fresh_others;
    few = p.few;
    early = tt;
    early_others = p.early_others;
  }

  pub store_safe-Parts :
      (t : ℕ)
      → Parts u n l ws (record { i = i; at = counting t }) vs
      → Parts u (t + 1) l ws (record { i = i; at = counted }) vs
  store_safe-Parts t p = record {
    exact = omega (arith, p.exact, p.fresh);
    exclusive = p.exclusive;
    fresh = tt;
    fresh_others = (
      free-Fresh (t + 1) ws (omega (arith, p.exclusive, bit-le l)),
      free-Fresh (t + 1) vs (omega (arith, p.exclusive, bit-le l)),
    );
    few = p.few;
    early = tt;
    early_others = p.early_others;
  }

  pub release-Parts :
      Parts u n l ws (record { i = i; at = counted }) vs
      → Parts u n false ws (record { i = i + 1; at = top }) vs
  release-Parts p =
      let same =
        Early-mono (total stores ws + (i + 1) + total stores vs)
          (total stores ws + (i + 1 + 0) + total stores vs) in
      record {
        exact = omega (arith, p.exact);
        exclusive = omega (arith, p.exclusive, bit-le l);
        fresh = tt;
        fresh_others = p.fresh_others;
        few = omega (arith, p.few);
        early = tt;
        early_others =
            (same ws (omega arith) p.early_others.0, same vs (omega arith) p.early_others.1);
      }
