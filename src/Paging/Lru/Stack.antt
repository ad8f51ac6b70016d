-- ===== src/Paging/Lru/Stack.antt =====
-- LRU replacement as a stack of pages, the most recently used one first.
use samuel_basnet_240512_st.Prelude.{ℕ, ◌+◌, List, [], ◌∷◌, ◌==◌, ltb, if◌then◌else◌, length}
use samuel_basnet_240512_st.Paging.Frames.{member}

pub record Stack : Type 0 where
  pub recent : List ℕ
  pub faults : ℕ
  pub hits : ℕ

abbrev pub empty_stack : Stack
empty_stack = record { recent = []; faults = 0; hits = 0 }

unfoldable pub remove : ℕ → List ℕ → List ℕ
remove page [] = []
remove page (p ∷ ps) = if p == page then ps else p ∷ remove page ps

unfoldable pub drop_last : List ℕ → List ℕ
drop_last [] = []
drop_last (p ∷ []) = []
drop_last (p ∷ q ∷ ps) = p ∷ drop_last (q ∷ ps)

-- A page that is used goes to the front; if it was not there and there is no room for it, the page
-- at the end leaves.
unfoldable pub request : ℕ → ℕ → Stack → Stack
request room page s =
    if member page s.recent
    then record { recent = page ∷ remove page s.recent; faults = s.faults; hits = s.hits + 1 }
    else if ltb (length s.recent) room
    then record { recent = page ∷ s.recent; faults = s.faults + 1; hits = s.hits }
    else record { recent = page ∷ drop_last s.recent; faults = s.faults + 1; hits = s.hits }

unfoldable pub requests : ℕ → List ℕ → Stack → Stack
requests room [] s = s
requests room (page ∷ ps) s = requests room ps (request room page s)
