-- ===== src/Paging/Lru/Victim.antt =====
-- The loop of `run_lru` that looks for a victim finds a slot with the smallest stamp.
use samuel_basnet_240512_st.Prelude.{
  ℕ, suc, ◌+◌, ◌<◌, some, List, [], ◌∷◌, ◌≡◌, refl, arith, length, ltb, get_elem?, ◌⊎◌, inl, inr,
  Bool-cases,
}
use samuel_basnet_240512_st.Paging.Lru.{victim_loop, find_victim}
use samuel_basnet_240512_st.Paging.Lru.Slots.{Slot, stamps_of, AtLeast}

-- The loop keeps its candidate, or finds a smaller one among the slots it still looks at.
loop-smallest :
    (zs : List Slot) (f v l : ℕ)
    → ((victim_loop (stamps_of zs 0) f v (some l) ≡ v) × AtLeast l zs)
      ⊎ ((j : ℕ) × (w : Slot) × (victim_loop (stamps_of zs 0) f v (some l) ≡ f + j)
          × (get_elem? zs j ≡ some w)
          × (w.1 < l)
          × AtLeast w.1 zs)
unfolding victim_loop
loop-smallest [] f v l = inl (refl, tt)
loop-smallest (z ∷ zs) f v l = elim (Bool-cases (ltb z.1 l)) [
  | inl less ↦ elim (loop-smallest zs (f + 1) f z.1) [
    | inl (stays, least) ↦ inr (0, z, ground arith, refl, ground arith, (omega arith, least))
    | inr (j, w, there, at, lt, least) ↦
        inr (suc j, w, ground arith, at, ground arith, (omega arith, least))
  ]
  | inr more ↦ elim (loop-smallest zs (f + 1) v l) [
    | inl (stays, least) ↦ inl (ground arith, (ground arith, least))
    | inr (j, w, there, at, lt, least) ↦ inr (suc j, w, ground arith, at, lt, (ground arith, least))
  ]
]

find_victim-smallest :
    (z : Slot) (zs : List Slot)
    → (w : Slot) × (get_elem? (z ∷ zs) (find_victim (stamps_of (z ∷ zs) 0)) ≡ some w)
      × AtLeast w.1 (z ∷ zs)
unfolding find_victim
find_victim-smallest z zs = elim (loop-smallest zs 1 0 z.1) [
  | inl (stays, least) ↦ (z, rw stays refl, (omega arith, least))
  | inr (j, w, there, at, lt, least) ↦
      let place : 1 + j ≡ suc j = omega arith in (w, rw (there, place) at, (omega arith, least))
]

pub has-victim :
    (zs : List Slot)
    → 0 < length zs
    → (w : Slot) × (get_elem? zs (find_victim (stamps_of zs 0)) ≡ some w) × AtLeast w.1 zs
has-victim [] h = absurd (omega arith)
has-victim (z ∷ zs) h = find_victim-smallest z zs
