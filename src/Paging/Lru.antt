-- ===== src/Paging/Lru.antt =====
-- `run_lru` of task2_memory_management/paging_sim.c.
pub mod Stack
pub mod Slots
pub mod Victim
pub mod Order
pub mod Refine
pub mod Inclusion
use samuel_basnet_240512_st.Prelude.{
  ℕ, ◌+◌, ◌-◌, Bool, true, false, Option, none, some, List, [], ◌∷◌, ltb, if◌then◌else◌, set,
  replicate,
}
use samuel_basnet_240512_st.Paging.Frames.{Frames, empty_frames, find_page, address_to_page}

-- A stamp of `last_used`; `none` is -1, which is below all times of the clock.
abbrev pub earlier : Option ℕ → Option ℕ → Bool
earlier none none = false
earlier none (some t) = true
earlier (some s) none = false
earlier (some s) (some t) = ltb s t

-- The local variables of the loop.
pub record Lru : Type 0 where
  pub frames : Frames
  pub last_used : List (Option ℕ)
  pub page_faults : ℕ
  pub page_hits : ℕ
  pub filled : ℕ
  pub clock : ℕ

abbrev pub init : ℕ → Lru
init num_frames = record {
  frames = empty_frames num_frames;
  last_used = replicate num_frames none;
  page_faults = 0;
  page_hits = 0;
  filled = 0;
  clock = 0;
}

-- The loop that looks for the smallest stamp, on the stamps from index `f` on; `least` is
-- `last_used[victim]`.
unfoldable pub victim_loop : List (Option ℕ) → ℕ → ℕ → Option ℕ → ℕ
victim_loop [] f victim least = victim
victim_loop (stamp ∷ stamps) f victim least =
    if earlier stamp least
    then victim_loop stamps (f + 1) f stamp
    else victim_loop stamps (f + 1) victim least

unfoldable pub find_victim : List (Option ℕ) → ℕ
find_victim [] = 0
find_victim (stamp ∷ stamps) = victim_loop stamps 1 0 stamp

-- `frames[i] = page; last_used[i] = clock;`
abbrev pub load : ℕ → ℕ → Lru → Lru
load i page t = record t {
  frames = set t.frames i (some page);
  last_used = set t.last_used i (some t.clock);
}

abbrev pub on_found : ℕ → ℕ → Lru → Option ℕ → Lru
on_found num_frames page t (some idx) = record t {
  page_hits = t.page_hits + 1;
  last_used = set t.last_used idx (some t.clock);
}
on_found num_frames page t none =
    let t' = record t { page_faults = t.page_faults + 1 } in
    if ltb t.filled num_frames
    then record (load t.filled page t') { filled = t.filled + 1 }
    else load (find_victim t.last_used) page t'

-- One access, whose search is that of `find_page` written out, and the tick of the clock.
unfoldable pub access : ℕ → ℕ → Lru → Lru
access num_frames page t =
    let t' = on_found num_frames page t (find_page t.frames page) in
    record t' { clock = t'.clock + 1 }

unfoldable pub lru_loop : ℕ → ℕ → List ℕ → Lru → Lru
lru_loop num_frames page_size [] t = t
lru_loop num_frames page_size (address ∷ refs) t =
    lru_loop num_frames page_size refs (access num_frames (address_to_page address page_size) t)

unfoldable pub run_lru : List ℕ → ℕ → ℕ → Lru
run_lru refs num_frames page_size = lru_loop num_frames page_size refs (init num_frames)
