-- ===== src/Paging/Lru/Slots.antt =====
-- The frames of `run_lru` with their stamps, as pairs: what the searches find.
use samuel_basnet_240512_st.Prelude.{
  ℕ, zero, suc, ◌+◌, ◌≤◌, Option, none, some, List, [], ◌∷◌, ◌++◌, ◌≡◌, refl, ap, arith, length,
  ◌==◌, if◌then◌else◌, set, replicate, map, get_elem?, ◌⊎◌, inl, inr, Bool-cases,
}
use samuel_basnet_240512_st.Paging.Frames.{find_from}

-- A page and when it was used last.
abbrev pub Slot : Type 0
Slot = ℕ × ℕ

abbrev pub frames_of : List Slot → ℕ → List (Option ℕ)
frames_of zs n = map (λ z. some z.0) zs ++ replicate n none

abbrev pub stamps_of : List Slot → ℕ → List (Option ℕ)
stamps_of zs n = map (λ z. some z.1) zs ++ replicate n none

-- When the page was used last, by the first slot that holds it.
unfoldable pub time_of : ℕ → List Slot → Option ℕ
time_of page [] = none
time_of page (z ∷ zs) = if z.0 == page then some z.1 else time_of page zs

-- No page stands in two slots.
abbrev pub Distinct : List Slot → Type 0
Distinct [] = Unit
Distinct (z ∷ zs) = (time_of z.0 zs ≡ none) × Distinct zs

-- All slots were used at this time or later.
abbrev pub AtLeast : ℕ → List Slot → Type 0
AtLeast b [] = Unit
AtLeast b (z ∷ zs) = (b ≤ z.1) × AtLeast b zs

pub AtLeast-le : (b c : ℕ) (zs : List Slot) → b ≤ c → AtLeast c zs → AtLeast b zs
AtLeast-le b c [] h a = tt
AtLeast-le b c (z ∷ zs) h a = (omega (arith, a.0), AtLeast-le b c zs h a.1)

pub AtLeast-time : (b : ℕ) (zs : List Slot) (q t : ℕ) → AtLeast b zs → time_of q zs ≡ some t → b ≤ t
unfolding time_of
AtLeast-time b [] q t a e = absurd (ground arith)
AtLeast-time b (z ∷ zs) q t a e = ground (arith, AtLeast-time b zs q t)

pub get-time :
    (zs : List Slot) (j : ℕ) (z : Slot)
    → Distinct zs
    → get_elem? zs j ≡ some z
    → time_of z.0 zs ≡ some z.1
unfolding time_of
get-time [] j z d e = absurd (ground arith)
get-time (x ∷ zs) zero z d e = ground arith
get-time (x ∷ zs) (suc j) z d e = ground (arith, get-time zs j z)

-- Another page, or the same, comes to a slot.
pub time-set :
    (zs : List Slot) (j p c q : ℕ) (old : Slot)
    → Distinct zs
    → get_elem? zs j ≡ some old
    → (time_of p zs ≡ none) ⊎ (p ≡ old.0)
    → time_of q (set zs j (p, c))
      ≡ (if p == q then some c else if old.0 == q then none else time_of q zs)
unfolding time_of
time-set [] j p c q old d e h = absurd (ground arith)
time-set (x ∷ zs) zero p c q old d e h = ground arith
time-set (x ∷ zs) (suc j) p c q old d e h =
    ground (arith, time-set zs j p c q old, get-time zs j old)

pub Distinct-set :
    (zs : List Slot) (j p c : ℕ) (old : Slot)
    → Distinct zs
    → get_elem? zs j ≡ some old
    → (time_of p zs ≡ none) ⊎ (p ≡ old.0)
    → Distinct (set zs j (p, c))
unfolding time_of
Distinct-set [] j p c old d e h = absurd (ground arith)
Distinct-set (x ∷ zs) zero p c old d e h = ground arith
Distinct-set (x ∷ zs) (suc j) p c old d e h = (
  ground (arith, time-set zs j p c x.0 old, get-time zs j old),
  Distinct-set zs j p c old d.1 (ground arith) (ground arith),
)

pub frames-set :
    (zs : List Slot) (j k : ℕ) (z old : Slot)
    → get_elem? zs j ≡ some old
    → set (frames_of zs k) j (some z.0) ≡ frames_of (set zs j z) k
frames-set [] j k z old e = absurd (ground arith)
frames-set (x ∷ zs) zero k z old e = refl
frames-set (x ∷ zs) (suc j) k z old e = ap (◌∷◌ (some x.0)) (frames-set zs j k z old (ground arith))

pub stamps-set :
    (zs : List Slot) (j k : ℕ) (z old : Slot)
    → get_elem? zs j ≡ some old
    → set (stamps_of zs k) j (some z.1) ≡ stamps_of (set zs j z) k
stamps-set [] j k z old e = absurd (ground arith)
stamps-set (x ∷ zs) zero k z old e = refl
stamps-set (x ∷ zs) (suc j) k z old e = ap (◌∷◌ (some x.1)) (stamps-set zs j k z old (ground arith))

pub frames-fill :
    (zs : List Slot) (k : ℕ) (z : Slot)
    → set (frames_of zs (suc k)) (length zs) (some z.0) ≡ frames_of (zs ++ z ∷ []) k
frames-fill [] k z = refl
frames-fill (x ∷ zs) k z = ap (◌∷◌ (some x.0)) (frames-fill zs k z)

pub stamps-fill :
    (zs : List Slot) (k : ℕ) (z : Slot)
    → set (stamps_of zs (suc k)) (length zs) (some z.1) ≡ stamps_of (zs ++ z ∷ []) k
stamps-fill [] k z = refl
stamps-fill (x ∷ zs) k z = ap (◌∷◌ (some x.1)) (stamps-fill zs k z)

pub time-append :
    (zs : List Slot) (z : Slot) (q : ℕ)
    → time_of z.0 zs ≡ none
    → time_of q (zs ++ z ∷ []) ≡ (if z.0 == q then some z.1 else time_of q zs)
unfolding time_of
time-append [] z q h = refl
time-append (x ∷ zs) z q h = ground (arith, time-append zs z q)

pub Distinct-append :
    (zs : List Slot) (z : Slot) → Distinct zs → time_of z.0 zs ≡ none → Distinct (zs ++ z ∷ [])
unfolding time_of
Distinct-append [] z d h = (refl, tt)
Distinct-append (x ∷ zs) z d h =
    (ground (arith, time-append zs z x.0), Distinct-append zs z d.1 (ground arith))

find-empty : (i k page : ℕ) → find_from i (replicate k none) page ≡ none
unfolding find_from
find-empty i zero page = refl
find-empty i (suc k) page = find-empty (i + 1) k page

-- The search for a page finds its slot.
pub find-slot :
    (i k page : ℕ) (zs : List Slot)
    → ((find_from i (frames_of zs k) page ≡ none) × (time_of page zs ≡ none))
      ⊎ ((j : ℕ) × (t : ℕ) × (find_from i (frames_of zs k) page ≡ some (i + j))
          × (get_elem? zs j ≡ some (page, t)))
unfolding find_from time_of
find-slot i k page [] = inl (ground (arith, find-empty i k page), refl)
find-slot i k page (z ∷ zs) = elim (Bool-cases (z.0 == page)) [
  | inl same ↦ inr (0, z.1, ground arith, ground arith)
  | inr other ↦ elim (find-slot (i + 1) k page zs) [
    | inl absent ↦ inl (ground arith)
    | inr (j, t, found, at) ↦ inr (suc j, t, ground arith, at)
  ]
]

-- A new stamp does not move the pages.
pub frames-restamp :
    (zs : List Slot) (j k page time c : ℕ)
    → get_elem? zs j ≡ some (page, time)
    → frames_of (set zs j (page, c)) k ≡ frames_of zs k
frames-restamp [] j k page time c e = absurd (ground arith)
frames-restamp (z ∷ zs) zero k page time c e = ap (λ p. some p ∷ frames_of zs k) (ground arith)
frames-restamp (z ∷ zs) (suc j) k page time c e =
    ap (◌∷◌ (some z.0)) (frames-restamp zs j k page time c (ground arith))

pub time-cons :
    (page time q : ℕ) (zs : List Slot)
    → time_of q ((page, time) ∷ zs) ≡ (if page == q then some time else time_of q zs)
unfolding time_of
time-cons page time q zs = refl
