-- ===== src/Paging/Fifo/Bounds.antt =====
-- Bounds on what `run_fifo` counts and holds.
use samuel_basnet_240512_st.Prelude.{
  ℕ, suc, ◌+◌, ◌-◌, ◌≤◌, ◌<◌, false, List, [], ◌∷◌, ◌++◌, length, length-append, length-map, ◌≡◌,
  refl, ap, ◌∙◌, arith,
}
use samuel_basnet_240512_st.Paging.Frames.{pages, member, member-append, address_to_page}
use samuel_basnet_240512_st.Paging.Fifo.{run_fifo}
use samuel_basnet_240512_st.Paging.Fifo.Queue.{Queue, empty_queue, drop_oldest, request, requests}
use samuel_basnet_240512_st.Paging.Fifo.Refine.{fifo-Refines-queue}

-- No page twice.
abbrev pub Distinct : List ℕ → Type 0
Distinct [] = Unit
Distinct (p ∷ ps) = (member p ps ≡ false) × Distinct ps

Distinct-snoc :
    (ps : List ℕ) (page : ℕ) → Distinct ps → member page ps ≡ false → Distinct (ps ++ page ∷ [])
unfolding member
Distinct-snoc [] page d h = (refl, tt)
Distinct-snoc (p ∷ ps) page d h =
    (ground (arith, member-append p ps (page ∷ []), d.0), Distinct-snoc ps page d.1 (ground arith))

Distinct-drop : (ps : List ℕ) → Distinct ps → Distinct (drop_oldest ps)
Distinct-drop [] d = tt
Distinct-drop (p ∷ ps) d = d.1

member-drop :
    (page : ℕ) (ps : List ℕ) → member page ps ≡ false → member page (drop_oldest ps) ≡ false
unfolding member
member-drop page [] h = refl
member-drop page (p ∷ ps) h = ground arith

length-drop_oldest : (ps : List ℕ) → length (drop_oldest ps) ≡ length ps - 1
length-drop_oldest [] = omega arith
length-drop_oldest (p ∷ ps) = omega arith

record IsWf (room served : ℕ) (q : Queue) : Type 0 where
  distinct : Distinct q.loaded
  fits : length q.loaded ≤ room
  counted : q.hits + q.faults ≡ served
  loaded_le : length q.loaded ≤ q.faults

request-IsWf :
    (room served page : ℕ) (q : Queue)
    → 0 < room
    → IsWf room served q
    → IsWf room (served + 1) (request room page q)
unfolding request
request-IsWf room served page q pos w = record {
  distinct = ground (
    arith,
    w.distinct,
    Distinct-snoc q.loaded page w.distinct,
    Distinct-snoc (drop_oldest q.loaded) page (Distinct-drop q.loaded w.distinct),
    member-drop page q.loaded,
  );
  fits = ground (
    arith,
    w.fits,
    length-append q.loaded (page ∷ []),
    length-append (drop_oldest q.loaded) (page ∷ []),
    length-drop_oldest q.loaded,
  );
  counted = ground (arith, w.counted);
  loaded_le = ground (
    arith,
    w.loaded_le,
    length-append q.loaded (page ∷ []),
    length-append (drop_oldest q.loaded) (page ∷ []),
    length-drop_oldest q.loaded,
  );
}

requests-IsWf :
    (room served : ℕ) (ps : List ℕ) (q : Queue)
    → 0 < room
    → IsWf room served q
    → IsWf room (served + length ps) (requests room ps q)
unfolding requests
requests-IsWf room served [] q pos w = let e : served + 0 ≡ served = omega arith in rw e w
requests-IsWf room served (p ∷ ps) q pos w =
    let e : served + suc (length ps) ≡ served + 1 + length ps = omega arith in
    rw e (
      requests-IsWf room (served + 1) ps (request room p q) pos
        (request-IsWf room served p q pos w))

-- With at least one frame, `run_fifo` counts each reference once, as a hit or as a fault, never fills
-- more frames than it has nor more than it had faults, and holds no page twice.
pub fifo-bounds :
    (refs : List ℕ) (n page_size : ℕ)
    → 0 < n
    → let t = run_fifo refs n page_size in
      (t.page_hits + t.page_faults ≡ length refs)
      × (t.filled ≤ n)
      × (t.filled ≤ t.page_faults)
      × Distinct (requests n (pages refs page_size) empty_queue).loaded
fifo-bounds refs n page_size h =
    let r = fifo-Refines-queue refs n page_size h in
    let w =
      requests-IsWf n 0 (pages refs page_size) empty_queue h
        (record { distinct = tt; fits = omega arith; counted = refl; loaded_le = omega arith }) in
    let size = ap length r.loaded ∙ length-append r.front r.back in
    (
      omega
          (arith, r.hits, r.faults, w.counted, length-map (λ a. address_to_page a page_size) refs),
      r.filled_le,
      omega (arith, w.loaded_le, size, r.filled, r.faults),
      w.distinct,
    )
