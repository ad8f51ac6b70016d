-- ===== src/Paging/Fifo.antt =====
-- `run_fifo` of task2_memory_management/paging_sim.c.
pub mod Queue
pub mod Refine
pub mod Bounds
use samuel_basnet_240512_st.Prelude.{
  ℕ, zero, suc, ◌+◌, ◌-◌, ◌%◌, Bool, true, false, Option, none, some, List, [], ◌∷◌, ◌==◌, ltb,
  if◌then◌else◌, set,
}
use samuel_basnet_240512_st.Paging.Frames.{Frames, empty_frames, find_page, address_to_page}

-- `FrameTable` with the two local variables of the loop.
pub record Fifo : Type 0 where
  pub frames : Frames
  pub page_faults : ℕ
  pub page_hits : ℕ
  pub fifo_queue_next : ℕ
  pub filled : ℕ

abbrev pub init : ℕ → Fifo
init num_frames = record {
  frames = empty_frames num_frames;
  page_faults = 0;
  page_hits = 0;
  fifo_queue_next = 0;
  filled = 0;
}

-- The two branches of a fault.
abbrev pub load_free : ℕ → Fifo → Fifo
load_free page t = record t { frames = set t.frames t.filled (some page); filled = t.filled + 1 }

abbrev pub evict : ℕ → ℕ → Fifo → Fifo
evict num_frames page t = record t {
  frames = set t.frames t.fifo_queue_next (some page);
  fifo_queue_next = (t.fifo_queue_next + 1) % num_frames;
}

abbrev pub on_found : ℕ → ℕ → Fifo → Option ℕ → Fifo
on_found num_frames page t (some idx) = record t { page_hits = t.page_hits + 1 }
on_found num_frames page t none =
    let t' = record t { page_faults = t.page_faults + 1 } in
    if ltb t.filled num_frames then load_free page t' else evict num_frames page t'

-- One access.
unfoldable pub access : ℕ → ℕ → Fifo → Fifo
access num_frames page t = on_found num_frames page t (find_page t.frames page)

unfoldable pub fifo_loop : ℕ → ℕ → List ℕ → Fifo → Fifo
fifo_loop num_frames page_size [] t = t
fifo_loop num_frames page_size (address ∷ refs) t =
    fifo_loop num_frames page_size refs (access num_frames (address_to_page address page_size) t)

unfoldable pub run_fifo : List ℕ → ℕ → ℕ → Fifo
run_fifo refs num_frames page_size = fifo_loop num_frames page_size refs (init num_frames)
