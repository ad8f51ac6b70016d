-- ===== src/Paging/Tests.antt =====
-- Runs of task2_memory_management/paging_sim.c, and its theorems at concrete inputs.
use samuel_basnet_240512_st.Prelude.{ℕ, ◌≤◌, List, [], ◌∷◌, take, ◌≡◌, refl, arith}
use samuel_basnet_240512_st.Paging.Frames.{
  pages, build_addresses_from_pages, address_to_page, find_from, find_page, is_some, member,
}
use samuel_basnet_240512_st.Paging.Fifo
use samuel_basnet_240512_st.Paging.Fifo.{fifo_loop, run_fifo}
use samuel_basnet_240512_st.Paging.Lru
use samuel_basnet_240512_st.Paging.Lru.{lru_loop, run_lru, find_victim, victim_loop}
use samuel_basnet_240512_st.Paging.Fifo.Queue.{empty_queue, requests}
use samuel_basnet_240512_st.Paging.Fifo.Refine.{Refines, fifo-Refines-queue}
use samuel_basnet_240512_st.Paging.Lru.Stack
use samuel_basnet_240512_st.Paging.Lru.Refine
use samuel_basnet_240512_st.Paging.Lru.Refine.{lru-Refines-stack}
use samuel_basnet_240512_st.Paging.Lru.Inclusion.{used, lru-recent, lru-faults-le}

abbrev pattern : List ℕ
pattern = 1 ∷ 2 ∷ 3 ∷ 4 ∷ 1 ∷ 2 ∷ 5 ∷ 1 ∷ 2 ∷ 3 ∷ 4 ∷ 5 ∷ []

abbrev addresses : List ℕ
addresses = build_addresses_from_pages pattern 4096

-- The same for LRU: 10 faults, then 8.
fewer : ((run_lru addresses 3 4096).page_faults ≡ 10) × ((run_lru addresses 4 4096).page_faults ≡ 8)
unfolding run_lru lru_loop Lru.access find_victim victim_loop address_to_page
    build_addresses_from_pages find_page find_from
fewer = (refl, refl)

-- The test cases 1 and 2: the fourth frame makes it 10 faults instead of 9.
belady :
    ((run_fifo addresses 3 4096).page_faults ≡ 9) × ((run_fifo addresses 4 4096).page_faults ≡ 10)
unfolding run_fifo fifo_loop Fifo.access address_to_page build_addresses_from_pages find_page
    find_from
belady = (refl, refl)

fifo-Refines-queue_example :
    Refines 3 (run_fifo addresses 3 4096) (requests 3 (pages addresses 4096) empty_queue)
fifo-Refines-queue_example = fifo-Refines-queue addresses 3 4096 (omega arith)

lru-Refines-stack_example :
    Refine.Refines 3
      (run_lru addresses 3 4096)
      (Stack.requests 3 (pages addresses 4096) Stack.empty_stack)
lru-Refines-stack_example = lru-Refines-stack addresses 3 4096 (omega arith)

lru-recent_example :
    is_some (find_page (run_lru addresses 3 4096).frames 5)
    ≡ member 5 (take 3 (used (pages addresses 4096) []))
lru-recent_example = lru-recent addresses 3 4096 5 (omega arith)

lru-faults-le_example :
    (run_lru addresses 4 4096).page_faults ≤ (run_lru addresses 3 4096).page_faults
lru-faults-le_example = lru-faults-le addresses 3 4 4096 (omega arith) (omega arith)
