-- ===== src/Paging/Frames.antt =====
-- Addresses, pages and the frame table of task2_memory_management/paging_sim.c. Pages and addresses
-- are the `int`s of the program at values that are not negative; an empty frame holds -1, which no
-- page is, and is `none` here.
use samuel_basnet_240512_st.Prelude.{
  ℕ, zero, suc, ◌+◌, ◌*◌, ◌/◌, ◌<◌, Bool, true, false, Option, none, some, List, [], ◌∷◌, ◌++◌, ◌≡◌,
  refl, ap₂, ◌==◌, if◌then◌else◌, replicate, arith, map,
}

unfoldable pub address_to_page : ℕ → ℕ → ℕ
address_to_page address page_size = address / page_size

-- The loop writes one address for each page of the pattern.
unfoldable pub build_addresses_from_pages : List ℕ → ℕ → List ℕ
build_addresses_from_pages [] page_size = []
build_addresses_from_pages (page ∷ pattern) page_size =
    (page * page_size + page_size / 2) ∷ build_addresses_from_pages pattern page_size

-- The pages of a list of addresses.
abbrev pub pages : List ℕ → ℕ → List ℕ
pages refs page_size = map (λ a. address_to_page a page_size) refs

-- `frames[i] == page`
abbrev pub holds : Option ℕ → ℕ → Bool
holds none page = false
holds (some p) page = p == page

abbrev pub Frames : Type 0
Frames = List (Option ℕ)

-- The first `num_frames` frames; the loops never look at the ones behind.
abbrev pub empty_frames : ℕ → Frames
empty_frames num_frames = replicate num_frames none

-- The index of the first frame that holds the page; `none` is -1.
unfoldable pub find_from : ℕ → Frames → ℕ → Option ℕ
find_from i [] page = none
find_from i (f ∷ fs) page = if holds f page then some i else find_from (i + 1) fs page

unfoldable pub find_page : Frames → ℕ → Option ℕ
find_page frames page = find_from 0 frames page

-- An address in the middle of a page.
middle-page : (p n : ℕ) → 0 < n → (p * n + n / 2) / n ≡ p
middle-page p n h = grind arith

-- With a page size that is not 0, every page of the pattern is the page of the address that is built
-- for it.
pub build-address_to_page :
    (pattern : List ℕ) (page_size : ℕ)
    → 0 < page_size
    → pages (build_addresses_from_pages pattern page_size) page_size ≡ pattern
unfolding address_to_page build_addresses_from_pages
build-address_to_page [] page_size h = refl
build-address_to_page (p ∷ pattern) page_size h =
    ap₂ ◌∷◌ (middle-page p page_size h) (build-address_to_page pattern page_size h)

-- `page` is in the list.
unfoldable pub member : ℕ → List ℕ → Bool
member page [] = false
member page (p ∷ ps) = if p == page then true else member page ps

-- The pages that a table holds.
unfoldable pub resident : ℕ → Frames → Bool
resident page [] = false
resident page (f ∷ fs) = if holds f page then true else resident page fs

abbrev pub is_some {ℓ} : {A : Type ℓ} → Option A → Bool
is_some none = false
is_some (some a) = true

find_from-resident :
    (i : ℕ) (fs : Frames) (page : ℕ) → is_some (find_from i fs page) ≡ resident page fs
unfolding find_from resident
find_from-resident i [] page = refl
find_from-resident i (f ∷ fs) page = ground (arith, find_from-resident (i + 1) fs page)

pub find_page-resident : (fs : Frames) (page : ℕ) → is_some (find_page fs page) ≡ resident page fs
unfolding find_page
find_page-resident fs page = find_from-resident 0 fs page

pub resident-append :
    (page : ℕ) (xs ys : Frames)
    → resident page (xs ++ ys) ≡ (if resident page xs then true else resident page ys)
unfolding resident
resident-append page [] ys = refl
resident-append page (f ∷ xs) ys = ground (arith, resident-append page xs ys)

pub resident-pages : (page : ℕ) (ps : List ℕ) → resident page (map some ps) ≡ member page ps
unfolding resident member
resident-pages page [] = refl
resident-pages page (p ∷ ps) = ground (arith, resident-pages page ps)

pub resident-empty : (page n : ℕ) → resident page (replicate n none) ≡ false
unfolding resident
resident-empty page zero = refl
resident-empty page (suc n) = resident-empty page n

pub member-append :
    (page : ℕ) (xs ys : List ℕ)
    → member page (xs ++ ys) ≡ (if member page xs then true else member page ys)
unfolding member
member-append page [] ys = refl
member-append page (p ∷ xs) ys = ground (arith, member-append page xs ys)
