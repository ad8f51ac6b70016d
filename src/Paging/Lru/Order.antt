-- ===== src/Paging/Lru/Order.antt =====
-- The stack of pages with their stamps: the most recent first.
use samuel_basnet_240512_st.Prelude.{
  ℕ, suc, ◌≤◌, ◌<◌, true, none, some, List, [], ◌∷◌, ◌≡◌, refl, ap, arith, length, ◌==◌,
  if◌then◌else◌, map, inl, inr, Bool-cases,
}
use samuel_basnet_240512_st.Paging.Frames.{member, is_some}
use samuel_basnet_240512_st.Paging.Lru.Stack.{remove, drop_last}
use samuel_basnet_240512_st.Paging.Lru.Slots.{Slot, time_of, Distinct}

-- The stamps go down, from below this time.
abbrev pub Descending : ℕ → List Slot → Type 0
Descending b [] = Unit
Descending b (z ∷ zs) = (z.1 < b) × Descending z.1 zs

abbrev pub pages_of : List Slot → List ℕ
pages_of zs = map (λ z. z.0) zs

pub member-time :
    (page : ℕ) (zs : List Slot) → member page (pages_of zs) ≡ is_some (time_of page zs)
unfolding member time_of
member-time page [] = refl
member-time page (z ∷ zs) = ground (arith, member-time page zs)

-- The slot of a page taken out.
unfoldable pub without : ℕ → List Slot → List Slot
without page [] = []
without page (z ∷ zs) = if z.0 == page then zs else z ∷ without page zs

pub pages-without :
    (page : ℕ) (zs : List Slot) → pages_of (without page zs) ≡ remove page (pages_of zs)
unfolding without remove
pages-without page [] = refl
pages-without page (z ∷ zs) = ground (arith, pages-without page zs)

pub time-without :
    (page q : ℕ) (zs : List Slot)
    → Distinct zs
    → time_of q (without page zs) ≡ (if page == q then none else time_of q zs)
unfolding without time_of
time-without page q [] d = ground arith
time-without page q (z ∷ zs) d = ground (arith, time-without page q zs d.1)

pub Distinct-without : (page : ℕ) (zs : List Slot) → Distinct zs → Distinct (without page zs)
unfolding without
Distinct-without page [] d = tt
Distinct-without page (z ∷ zs) d =
    ground (arith, time-without page z.0 zs d.1, Distinct-without page zs d.1)

pub length-without :
    (page : ℕ) (zs : List Slot)
    → is_some (time_of page zs) ≡ true
    → suc (length (without page zs)) ≡ length zs
unfolding without time_of
length-without page [] h = absurd (ground arith)
length-without page (z ∷ zs) h = ground (arith, length-without page zs)

pub Descending-le : (b c : ℕ) (zs : List Slot) → b ≤ c → Descending b zs → Descending c zs
Descending-le b c [] h d = tt
Descending-le b c (z ∷ zs) h d = (omega (arith, d.0), d.1)

pub Descending-without :
    (page b : ℕ) (zs : List Slot) → Descending b zs → Descending b (without page zs)
unfolding without
Descending-without page b [] d = tt
Descending-without page b (z ∷ zs) d = elim (Bool-cases (z.0 == page)) [
  | inl same ↦ rw same (Descending-le z.1 b zs (omega (arith, d.0)) d.1)
  | inr other ↦ rw other (d.0, Descending-without page z.1 zs d.1)
]

-- The page at the bottom of the stack.
bottom : Slot → List Slot → Slot
bottom z [] = z
bottom z (y ∷ zs) = bottom y zs

bottom-time :
    (z : Slot) (zs : List Slot)
    → Distinct (z ∷ zs)
    → time_of (bottom z zs).0 (z ∷ zs) ≡ some (bottom z zs).1
unfolding bottom time_of
bottom-time z [] d = ground arith
bottom-time z (y ∷ zs) d = ground (arith, bottom-time y zs d.1, d.0)

drop_last-without :
    (z : Slot) (zs : List Slot)
    → Distinct (z ∷ zs)
    → drop_last (pages_of (z ∷ zs)) ≡ pages_of (without (bottom z zs).0 (z ∷ zs))
unfolding drop_last without bottom time_of
drop_last-without z [] d = ground arith
drop_last-without z (y ∷ zs) d = elim (Bool-cases (z.0 == (bottom y zs).0)) [
  | inl same ↦ absurd (ground (arith, bottom-time y zs d.1, d.0))
  | inr other ↦ rw other (ap (◌∷◌ z.0) (drop_last-without y zs d.1))
]

bottom-least : (b : ℕ) (z : Slot) (zs : List Slot) → Descending b (z ∷ zs) → (bottom z zs).1 < b
unfolding bottom
bottom-least b z [] d = d.0
bottom-least b z (y ∷ zs) d = omega (arith, bottom-least z.1 y zs d.1, d.0)

-- Only the page at the bottom is as old as it, or older.
oldest-bottom :
    (b : ℕ) (z : Slot) (zs : List Slot) (p t : ℕ)
    → Descending b (z ∷ zs)
    → time_of p (z ∷ zs) ≡ some t
    → t ≤ (bottom z zs).1
    → p ≡ (bottom z zs).0
unfolding bottom time_of
oldest-bottom b z [] p t d e h = ground arith
oldest-bottom b z (y ∷ zs) p t d e h =
    ground (arith, bottom-least z.1 y zs d.1, oldest-bottom z.1 y zs p t d.1)

-- The oldest slot of a stack is the one that `drop_last` drops.
pub record Oldest (zs : List Slot) : Type 0 where
  pub slot : Slot
  pub held : time_of slot.0 zs ≡ some slot.1
  pub dropped : drop_last (pages_of zs) ≡ pages_of (without slot.0 zs)
  pub only : (p t : ℕ) → time_of p zs ≡ some t → t ≤ slot.1 → p ≡ slot.0

pub has-Oldest :
    (b : ℕ) (zs : List Slot) → 0 < length zs → Distinct zs → Descending b zs → Oldest zs
has-Oldest b [] h d o = absurd (omega arith)
has-Oldest b (z ∷ zs) h d o = record {
  slot = bottom z zs;
  held = bottom-time z zs d;
  dropped = drop_last-without z zs d;
  only = λ p t e le. oldest-bottom b z zs p t o e le;
}
