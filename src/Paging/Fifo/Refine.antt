-- ===== src/Paging/Fifo/Refine.antt =====
-- The frame table with its circular index implements the queue.
use mathlib.Core.List.{append-nil, append_assoc}
use samuel_basnet_240512_st.Prelude.{
  ℕ, suc, ◌+◌, ◌-◌, ◌%◌, ◌≤◌, ◌<◌, none, some, List, [], List-cases, ◌∷◌, ◌++◌, ltb, set, map,
  replicate, length, length-append, ◌≡◌, refl, sym, ap, ◌∙◌, inl, inr, arith, Bool-cases, ltb→lt,
  Option-cases,
}
use samuel_basnet_240512_st.Paging.Frames.{
  Frames, find_page, address_to_page, pages, member, resident, is_some, find_page-resident,
  resident-append, resident-pages, resident-empty, member-append,
}
use samuel_basnet_240512_st.Paging.Fifo.{Fifo, init, load_free, evict, access, fifo_loop, run_fifo}
use samuel_basnet_240512_st.Paging.Fifo.Queue.{Queue, empty_queue, drop_oldest, request, requests}

-- The frames are the queue turned round at `fifo_queue_next`: the frames from there on hold the
-- older pages. While frames are empty nothing is turned yet.
pub record Refines (n : ℕ) (t : Fifo) (q : Queue) : Type 0 where
  pub back : List ℕ
  pub front : List ℕ
  pub frames : t.frames ≡ map some (back ++ front) ++ replicate (n - t.filled) none
  pub loaded : q.loaded ≡ front ++ back
  pub next : length back ≡ t.fifo_queue_next
  pub next_lt : t.fifo_queue_next < n
  pub filled : length front + length back ≡ t.filled
  pub filled_le : t.filled ≤ n
  pub unturned : (t.filled < n) → back ≡ []
  pub faults : t.page_faults ≡ q.faults
  pub hits : t.page_hits ≡ q.hits

resident-member :
    (page n : ℕ) (back front : List ℕ)
    → resident page (map some (back ++ front) ++ replicate n none) ≡ member page (front ++ back)
resident-member page n back front =
    rw
      (
        resident-append page (map some (back ++ front)) (replicate n none),
        resident-pages page (back ++ front),
        resident-empty page n,
        member-append page back front,
        member-append page front back,
      )
      (ground arith)

set_free :
    (front : List ℕ) (k page : ℕ)
    → set (map some front ++ replicate (suc k) none) (length front) (some page)
      ≡ map some (front ++ page ∷ []) ++ replicate k none
set_free [] k page = refl
set_free (x ∷ front) k page = ap (λ (l : Frames). some x ∷ l) (set_free front k page)

set_oldest :
    (back : List ℕ) (x : ℕ) (front : List ℕ) (page : ℕ)
    → set (map some (back ++ x ∷ front)) (length back) (some page) ≡ map some (back ++ page ∷ front)
set_oldest [] x front page = refl
set_oldest (y ∷ back) x front page = ap (λ (l : Frames). some y ∷ l) (set_oldest back x front page)

no-length : (xs : List ℕ) → length xs ≡ 0 → xs ≡ []
no-length [] h = refl
no-length (x ∷ xs) h = absurd (omega arith)

next_below : (i n : ℕ) → i + 1 < n → (i + 1) % n ≡ i + 1
next_below i n h = grind arith

wraps : (i n : ℕ) → i + 1 ≡ n → 0 ≡ (i + 1) % n
wraps i n h = grind arith

module _ {n : ℕ} {t : Fifo} {q : Queue} (r : Refines n t q) (page : ℕ) where
  open r use {back, front}

  found : is_some (find_page t.frames page) ≡ member page q.loaded
  found =
      rw (find_page-resident t.frames page, r.frames, r.loaded)
        (resident-member page (n - t.filled) back front)

  room : ltb (length q.loaded) n ≡ ltb t.filled n
  room = rw (r.loaded, length-append front back, r.filled)

  abbrev fault : Fifo
  fault = record t { page_faults = t.page_faults + 1 }

  load_free-Refines :
      t.filled < n
      → Refines n
          (load_free page fault)
          (record q { loaded = q.loaded ++ page ∷ []; faults = q.faults + 1 })
  load_free-Refines lt = record {
    back = [];
    front = front ++ page ∷ [];
    frames = at_end;
    loaded = rw (r.loaded, r.unturned lt, append-nil, append-nil);
    next = rw (← r.next, r.unturned lt);
    next_lt = r.next_lt;
    filled = omega (arith, length-append front (page ∷ []), r.filled, none_back);
    filled_le = omega arith;
    unturned = λ more. refl;
    faults = ap (λ (k : ℕ). k + 1) r.faults;
    hits = r.hits;
  }
    where
      none_back : length back ≡ 0
      none_back = ap length (r.unturned lt)

      at_end :
          set t.frames t.filled (some page)
          ≡ map some (front ++ page ∷ []) ++ replicate (n - (t.filled + 1)) none
      at_end =
          let one_less : n - t.filled ≡ suc (n - (t.filled + 1)) = omega arith in
          let all_front : length front ≡ t.filled = omega (arith, r.filled, none_back) in
          rw (r.frames, r.unturned lt, one_less, ← all_front)
            (set_free front (n - (length front + 1)) page)

  evicted :
      (x : ℕ) (xs : List ℕ)
      → t.filled ≡ n
      → front ≡ x ∷ xs
      → set t.frames t.fifo_queue_next (some page)
        ≡ map some (back ++ page ∷ xs) ++ replicate (n - t.filled) none
  evicted x xs full e =
      let no_more : n - t.filled ≡ 0 = omega arith in
      rw (r.frames, ← r.next, no_more, e, append-nil, append-nil) (set_oldest back x xs page)

  drop_front :
      (x : ℕ) (xs : List ℕ)
      → front ≡ x ∷ xs
      → drop_oldest q.loaded ++ page ∷ [] ≡ xs ++ (back ++ page ∷ [])
  drop_front x xs e = rw (r.loaded, e) (append_assoc xs back (page ∷ []))

  evict-Refines :
      t.filled ≡ n
      → Refines n
          (evict n page fault)
          (record q { loaded = drop_oldest q.loaded ++ page ∷ []; faults = q.faults + 1 })
  evict-Refines full = elim (List-cases front) [
    | inl e ↦ absurd (omega (arith, r.filled, r.next, r.next_lt, ap length e))
    | inr (x, xs, e) ↦ elim (Bool-cases (ltb (t.fifo_queue_next + 1) n)) [
      | inl lt ↦ record {
        back = back ++ page ∷ [];
        front = xs;
        frames = rw (append_assoc back (page ∷ []) xs) (evicted x xs full e);
        loaded = drop_front x xs e;
        next =
            ground (arith, length-append back (page ∷ []), r.next, next_below t.fifo_queue_next n);
        next_lt = omega (arith, r.next_lt);
        filled = omega (arith, length-append back (page ∷ []), r.filled, ap length e);
        filled_le = r.filled_le;
        unturned = λ more. absurd (omega arith);
        faults = ap (λ (k : ℕ). k + 1) r.faults;
        hits = r.hits;
      }
      | inr ge ↦
          let at_end : t.fifo_queue_next + 1 ≡ n = ground (arith, r.next_lt) in
          let none_left : xs ≡ [] = no-length xs (omega (arith, r.filled, r.next, ap length e)) in
          record {
            back = [];
            front = back ++ page ∷ [];
            frames = rw none_left at (evicted x xs full e);
            loaded = rw append-nil (rw none_left at (drop_front x xs e));
            next = wraps t.fifo_queue_next n at_end;
            next_lt = omega (arith, r.next_lt);
            filled = omega (arith, length-append back (page ∷ []), r.next, at_end);
            filled_le = r.filled_le;
            unturned = λ more. absurd (omega arith);
            faults = ap (λ (k : ℕ). k + 1) r.faults;
            hits = r.hits;
          }
    ]
  ]

  pub access-Refines : Refines n (access n page t) (request n page q)
  unfolding access request
  access-Refines = elim (Option-cases (find_page t.frames page)) [
    | inl e ↦ elim (Bool-cases (ltb t.filled n)) [
      | inl lt ↦ rw (e, sym found ∙ ap is_some e, room, lt) (load_free-Refines (ltb→lt _ _ lt))
      | inr full ↦
          rw (e, sym found ∙ ap is_some e, room, full) (evict-Refines (ground (arith, r.filled_le)))
    ]
    | inr (idx, e) ↦
        rw (e, sym found ∙ ap is_some e)
          (record {
            back = back;
            front = front;
            frames = r.frames;
            loaded = r.loaded;
            next = r.next;
            next_lt = r.next_lt;
            filled = r.filled;
            filled_le = r.filled_le;
            unturned = r.unturned;
            faults = r.faults;
            hits = ap (λ (k : ℕ). k + 1) r.hits;
          })
  ]

loop-Refines :
    (n page_size : ℕ) (refs : List ℕ) (t : Fifo) (q : Queue)
    → Refines n t q
    → Refines n (fifo_loop n page_size refs t) (requests n (pages refs page_size) q)
unfolding fifo_loop requests
loop-Refines n page_size [] t q r = r
loop-Refines n page_size (a ∷ refs) t q r =
    loop-Refines n page_size refs (access n (address_to_page a page_size) t)
      (request n (address_to_page a page_size) q) (access-Refines r (address_to_page a page_size))

-- With at least one frame, after any references, `run_fifo` has counted the faults and the hits of
-- a FIFO queue of pages with room for `num_frames`, fed with the pages of the addresses; its frames
-- hold exactly the pages of the queue, in the queue's order from the frame `fifo_queue_next` on and
-- round to it again, and the frames that are not yet filled are empty and stand behind the others.
pub fifo-Refines-queue :
    (refs : List ℕ) (n page_size : ℕ)
    → 0 < n
    → Refines n (run_fifo refs n page_size) (requests n (pages refs page_size) empty_queue)
unfolding run_fifo
fifo-Refines-queue refs n page_size h = loop-Refines n page_size refs (init n) empty_queue (record {
  back = [];
  front = [];
  frames = ap (λ k. replicate k none) (omega arith);
  loaded = refl;
  next = refl;
  next_lt = h;
  filled = omega arith;
  filled_le = omega arith;
  unturned = λ more. refl;
  faults = refl;
  hits = refl;
})
