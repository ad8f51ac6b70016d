-- ===== src/Paging/Fifo/Queue.antt =====
-- FIFO replacement as a queue of pages, oldest first.
use samuel_basnet_240512_st.Prelude.{ℕ, ◌+◌, List, [], ◌∷◌, ◌++◌, ltb, if◌then◌else◌, length}
use samuel_basnet_240512_st.Paging.Frames.{member}

pub record Queue : Type 0 where
  pub loaded : List ℕ
  pub faults : ℕ
  pub hits : ℕ

abbrev pub empty_queue : Queue
empty_queue = record { loaded = []; faults = 0; hits = 0 }

abbrev pub drop_oldest : List ℕ → List ℕ
drop_oldest [] = []
drop_oldest (p ∷ ps) = ps

-- A page that is not there goes to the end; if there is no room for it, the oldest leaves.
unfoldable pub request : ℕ → ℕ → Queue → Queue
request room page q =
    if member page q.loaded
    then record q { hits = q.hits + 1 }
    else if ltb (length q.loaded) room
    then record q { loaded = q.loaded ++ page ∷ []; faults = q.faults + 1 }
    else record q { loaded = drop_oldest q.loaded ++ page ∷ []; faults = q.faults + 1 }

unfoldable pub requests : ℕ → List ℕ → Queue → Queue
requests room [] q = q
requests room (page ∷ ps) q = requests room ps (request room page q)
