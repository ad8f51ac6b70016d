-- ===== src/Server/Store/Slots.antt =====
-- The loops of `store_put` and `store_del`, restated by recursion on the slots.
use samuel_basnet_240512_st.Prelude.{
  ℕ, suc, ◌+◌, Bytes, Bool, true, false, Option, none, some, [], ◌∷◌, ◌≡◌, refl, ap, ◌-◌, inl, inr,
  if◌then◌else◌, get_or, set, take, arith, Bool-cases,
}
use samuel_basnet_240512_st.Server.Store.{
  first_free, StoreEntry, Slots, PutTarget, existing, new, matches, unused_entry, max_key,
  max_value, put_loop, put_at, store_put,
}

-- Some used slot holds the key.
unfoldable pub has : Bytes → Slots → Bool
has k [] = false
has k (e ∷ es) = if matches k e then true else has k es

unfoldable pub has_free : Slots → Bool
has_free [] = false
has_free (e ∷ es) = if e.used then has_free es else true

unfoldable pub overwrite : Bytes → Bytes → Slots → Slots
overwrite k v [] = []
overwrite k v (e ∷ es) =
    let rest = overwrite k v es in if matches k e then record e { value = v } ∷ es else e ∷ rest

unfoldable pub fill : StoreEntry → Slots → Slots
fill n [] = []
fill n (e ∷ es) = let rest = fill n es in if e.used then e ∷ rest else n ∷ es

put_loop-existing :
    (k v : Bytes) (es : Slots) (i : ℕ) (f : Option ℕ)
    → has k es ≡ true
    → (j : ℕ) × (put_loop k es i f ≡ existing (i + j))
      × (set es j (record (get_or es j unused_entry) { value = v }) ≡ overwrite k v es)
unfolding put_loop has overwrite
put_loop-existing k v [] i f h = absurd (ground arith)
put_loop-existing k v (e ∷ es) i f h = elim (Bool-cases (matches k e)) [
  | inl m ↦ (0, ground arith, ground arith)
  | inr m ↦
      let (j, p, q) = put_loop-existing k v es (i + 1) (first_free e i f) (ground arith) in
      (suc j, ground arith, ground arith)
]

put_loop-full :
    (k : Bytes) (es : Slots) (i : ℕ)
    → has k es ≡ false
    → has_free es ≡ false
    → put_loop k es i none ≡ new none
unfolding put_loop has has_free
put_loop-full k [] i h g = refl
put_loop-full k (e ∷ es) i h g = ground (arith, put_loop-full k es (i + 1))

put_loop-some :
    (k : Bytes) (es : Slots) (i j : ℕ) → has k es ≡ false → put_loop k es i (some j) ≡ new (some j)
unfolding put_loop has
put_loop-some k [] i j h = refl
put_loop-some k (e ∷ es) i j h = ground (arith, put_loop-some k es (i + 1) j)

put_loop-new :
    (k : Bytes) (n : StoreEntry) (es : Slots) (i : ℕ)
    → has k es ≡ false
    → has_free es ≡ true
    → (j : ℕ) × (put_loop k es i none ≡ new (some (i + j))) × (set es j n ≡ fill n es)
unfolding put_loop has has_free fill
put_loop-new k n [] i h g = absurd (ground arith)
put_loop-new k n (e ∷ es) i h g = elim (Bool-cases e.used) [
  | inl u ↦
      let (j, p, q) = put_loop-new k n es (i + 1) (ground arith) (ground arith) in
      (suc j, ground arith, ground arith)
  | inr u ↦ (0, ground (arith, put_loop-some k es (i + 1) i), ground arith)
]

-- The slot that `store_put` fills.
abbrev pub stored : Bytes → Bytes → StoreEntry
stored k v = record { key = take (max_key - 1) k; value = take (max_value - 1) v; used = true }

pub store_put_lem :
    (k v : Bytes) (s : Slots)
    → store_put k v s ≡ (
        if has k s
        then (true, overwrite k (take (max_value - 1) v) s)
        else if has_free s
        then (true, fill (stored k v) s)
        else (false, s))
unfolding store_put
store_put_lem k v s = elim (Bool-cases (has k s)) [
  | inl h ↦
      let (j, p, q) = put_loop-existing k (take (max_value - 1) v) s 0 none h in
      ground (arith, ap (λ (x : PutTarget). put_at k v s x) p)
  | inr h ↦ elim (Bool-cases (has_free s)) [
    | inl g ↦ let (j, p, q) = put_loop-new k (stored k v) s 0 h g in ground arith
    | inr g ↦ ground (arith, put_loop-full k s 0 h g)
  ]
]
