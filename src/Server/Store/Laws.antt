-- ===== src/Server/Store/Laws.antt =====
-- What `store_get` finds after `store_put` and `store_del`, and how many slots are in use.
use samuel_basnet_240512_st.Prelude.{
  ℕ, ◌+◌, ◌≤◌, Bytes, Bool, true, false, Option, none, some, [], ◌∷◌, ◌≡◌, refl, if◌then◌else◌, ltb,
  length, str_eq, str_eq_iff, arith,
}
use samuel_basnet_240512_st.Server.Store.{StoreEntry, Slots, store_get, store_del}
use samuel_basnet_240512_st.Server.Store.Slots.{has, has_free, overwrite, fill}

-- No key stands in two used slots.
abbrev pub Distinct : Slots → Type 0
Distinct [] = Unit
Distinct (e ∷ es) = (e.used ≡ true → has e.key es ≡ false) × Distinct es

unfoldable pub count_used : Slots → ℕ
count_used [] = 0
count_used (e ∷ es) = (if e.used then 1 else 0) + count_used es

abbrev pub is_some {ℓ} : {A : Type ℓ} → Option A → Bool
is_some none = false
is_some (some a) = true

pub has-is_some : (k : Bytes) (s : Slots) → has k s ≡ is_some (store_get k s)
unfolding has store_get
has-is_some k [] = refl
has-is_some k (e ∷ es) = ground (arith, has-is_some k es)

pub get-overwrite :
    (k j v : Bytes) (s : Slots)
    → has k s ≡ true
    → store_get j (overwrite k v s) ≡ (if str_eq k j then some v else store_get j s)
unfolding store_get overwrite has
get-overwrite k j v [] h = absurd (ground arith)
get-overwrite k j v (e ∷ es) h =
    ground (arith, get-overwrite k j v es, str_eq_iff e.key k, str_eq_iff e.key j, str_eq_iff k j)

pub get-fill :
    (n : StoreEntry) (j : Bytes) (s : Slots)
    → n.used ≡ true
    → has n.key s ≡ false
    → has_free s ≡ true
    → store_get j (fill n s) ≡ (if str_eq n.key j then some n.value else store_get j s)
unfolding store_get fill has has_free
get-fill n j [] u h g = absurd (ground arith)
get-fill n j (e ∷ es) u h g =
    ground (arith, get-fill n j es, str_eq_iff e.key n.key, str_eq_iff e.key j, str_eq_iff n.key j)

has-cong : (k j : Bytes) (s : Slots) → str_eq k j ≡ true → has k s ≡ has j s
has-cong k j s e = rw ((str_eq_iff k j).0 e)

get-absent : (k : Bytes) (s : Slots) → has k s ≡ false → store_get k s ≡ none
unfolding has store_get
get-absent k [] h = refl
get-absent k (e ∷ es) h = ground (arith, get-absent k es)

pub get-del :
    (k j : Bytes) (s : Slots)
    → Distinct s
    → store_get j (store_del k s).1 ≡ (if str_eq k j then none else store_get j s)
unfolding store_get store_del
get-del k j [] d = ground arith
get-del k j (e ∷ es) d = ground (
  arith,
  get-del k j es,
  str_eq_iff e.key k,
  str_eq_iff e.key j,
  str_eq_iff k j,
  get-absent j es,
  has-cong e.key j es,
)

pub del-has : (k : Bytes) (s : Slots) → (store_del k s).0 ≡ has k s
unfolding store_del has
del-has k [] = refl
del-has k (e ∷ es) = ground (arith, del-has k es)

has-overwrite : (k j v : Bytes) (s : Slots) → has j (overwrite k v s) ≡ has j s
unfolding has overwrite
has-overwrite k j v [] = refl
has-overwrite k j v (e ∷ es) = ground (arith, has-overwrite k j v es)

has-fill :
    (n : StoreEntry) (j : Bytes) (s : Slots)
    → has n.key s ≡ false
    → str_eq n.key j ≡ false
    → has j (fill n s) ≡ has j s
unfolding has fill
has-fill n j [] h ne = refl
has-fill n j (e ∷ es) h ne = ground (arith, has-fill n j es)

has-del : (k j : Bytes) (s : Slots) → has j s ≡ false → has j (store_del k s).1 ≡ false
unfolding has store_del
has-del k j [] h = refl
has-del k j (e ∷ es) h = ground (arith, has-del k j es)

pub Distinct-overwrite : (k v : Bytes) (s : Slots) → Distinct s → Distinct (overwrite k v s)
unfolding overwrite
Distinct-overwrite k v [] d = tt
Distinct-overwrite k v (e ∷ es) d =
    ground (arith, Distinct-overwrite k v es, has-overwrite k e.key v es)

pub Distinct-fill :
    (n : StoreEntry) (s : Slots) → has n.key s ≡ false → Distinct s → Distinct (fill n s)
unfolding fill has
Distinct-fill n [] h d = tt
Distinct-fill n (e ∷ es) h d =
    ground (
      arith,
      Distinct-fill n es,
      has-fill n e.key es,
      str_eq_iff n.key e.key,
      str_eq_iff e.key n.key,
    )

pub Distinct-del : (k : Bytes) (s : Slots) → Distinct s → Distinct (store_del k s).1
unfolding store_del
Distinct-del k [] d = tt
Distinct-del k (e ∷ es) d = ground (arith, Distinct-del k es, has-del k e.key es)

pub count-overwrite : (k v : Bytes) (s : Slots) → count_used (overwrite k v s) ≡ count_used s
unfolding count_used overwrite
count-overwrite k v [] = refl
count-overwrite k v (e ∷ es) = ground (arith, count-overwrite k v es)

pub count-fill :
    (n : StoreEntry) (s : Slots)
    → n.used ≡ true
    → has_free s ≡ true
    → count_used (fill n s) ≡ count_used s + 1
unfolding count_used fill has_free
count-fill n [] u g = absurd (ground arith)
count-fill n (e ∷ es) u g = ground (arith, count-fill n es)

pub count-del :
    (k : Bytes) (s : Slots)
    → count_used s ≡ count_used (store_del k s).1 + (if has k s then 1 else 0)
unfolding count_used store_del has
count-del k [] = refl
count-del k (e ∷ es) = ground (arith, count-del k es)

count-le : (s : Slots) → count_used s ≤ length s
unfolding count_used
count-le [] = omega arith
count-le (e ∷ es) = ground (arith, count-le es)

-- A slot is free exactly while fewer are used than there are.
pub has_free-count : (s : Slots) → has_free s ≡ ltb (count_used s) (length s)
unfolding has_free count_used
has_free-count [] = refl
has_free-count (e ∷ es) = ground (arith, has_free-count es, count-le es)

pub length-overwrite : (k v : Bytes) (s : Slots) → length (overwrite k v s) ≡ length s
unfolding overwrite
length-overwrite k v [] = refl
length-overwrite k v (e ∷ es) = ground (arith, length-overwrite k v es)

pub length-fill : (n : StoreEntry) (s : Slots) → length (fill n s) ≡ length s
unfolding fill
length-fill n [] = refl
length-fill n (e ∷ es) = ground (arith, length-fill n es)

pub length-del : (k : Bytes) (s : Slots) → length (store_del k s).1 ≡ length s
unfolding store_del
length-del k [] = refl
length-del k (e ∷ es) = ground (arith, length-del k es)
