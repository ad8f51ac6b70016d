-- ===== src/Paging/Lru/Refine.antt =====
-- `run_lru` refines the stack of pages.
use samuel_basnet_240512_st.Prelude.{
  ℕ, suc, ◌+◌, ◌-◌, ◌≤◌, ◌<◌, true, false, none, some, List, [], ◌∷◌, ◌++◌, ◌≡◌, refl, sym, ap, ◌∙◌,
  arith, length, ltb, ltb→lt, lt→ltb, inl, inr, Bool-cases, set, replicate, length-set,
  length-append, length-map, get_elem?,
}
use samuel_basnet_240512_st.Paging.Frames.{
  member, is_some, find_from, find_page, address_to_page, pages,
}
use samuel_basnet_240512_st.Paging.Lru.{Lru, init, on_found, access, lru_loop, run_lru, find_victim}
use samuel_basnet_240512_st.Paging.Lru.Stack.{
  Stack, empty_stack, remove, drop_last, request, requests,
}
use samuel_basnet_240512_st.Paging.Lru.Slots.{
  Slot, frames_of, stamps_of, time_of, Distinct, AtLeast-time, get-time, time-set, Distinct-set,
  frames-set, stamps-set, frames-fill, stamps-fill, time-append, Distinct-append, find-slot,
  frames-restamp, time-cons,
}
use samuel_basnet_240512_st.Paging.Lru.Victim.{has-victim}
use samuel_basnet_240512_st.Paging.Lru.Order.{
  Descending, pages_of, member-time, without, pages-without, time-without, Distinct-without,
  length-without, Descending-without, has-Oldest,
}

-- The frames and their stamps hold the same pages with the same times as the stack, which is in the
-- order of those times.
pub record Refines (n : ℕ) (t : Lru) (s : Stack) : Type 0 where
  pub slots : List Slot
  pub stack : List Slot
  pub frames : t.frames ≡ frames_of slots (n - t.filled)
  pub last_used : t.last_used ≡ stamps_of slots (n - t.filled)
  pub filled : length slots ≡ t.filled
  pub filled_le : t.filled ≤ n
  pub recent : s.recent ≡ pages_of stack
  pub as_many : length stack ≡ t.filled
  pub same : (q : ℕ) → time_of q slots ≡ time_of q stack
  pub distinct : Distinct slots
  pub distinct_stack : Distinct stack
  pub order : Descending t.clock stack
  pub faults : t.page_faults ≡ s.faults
  pub hits : t.page_hits ≡ s.hits

abbrev tick : Lru → Lru
tick t = record t { clock = t.clock + 1 }

module _ (n page : ℕ) {t : Lru} {s : Stack} (r : Refines n t s) where
  open r use {
    slots, stack, frames, last_used, filled, filled_le, recent, as_many, same, distinct,
    distinct_stack, order, faults, hits,
  }

  there : member page s.recent ≡ is_some (time_of page slots)
  there = rw recent (member-time page stack ∙ ap is_some (sym (same page)))

  -- The search in the frames finds the pages of the stack.
  pub find-member : is_some (find_page t.frames page) ≡ member page s.recent
  unfolding find_page
  find-member = elim (find-slot 0 (n - t.filled) page slots) [
    | inl (missing, absent) ↦
        ap (λ fs. is_some (find_from 0 fs page)) frames
        ∙ ap is_some missing
        ∙ sym (there ∙ ap is_some absent)
    | inr (j, time, found, at) ↦
        ap (λ fs. is_some (find_from 0 fs page)) frames
        ∙ ap is_some found
        ∙ sym (there ∙ ap is_some (get-time slots j (page, time) distinct at))
  ]

  room : ltb (length s.recent) n ≡ ltb t.filled n
  room = ap (λ k. ltb k n) (ap length recent ∙ length-map (λ (z : Slot). z.0) stack ∙ as_many)

  hit-Refines :
      (j time : ℕ)
      → get_elem? slots j ≡ some (page, time)
      → Refines n (tick (on_found n page t (some j))) (request n page s)
  unfolding request
  hit-Refines j time at =
      let found = get-time slots j (page, time) distinct at in
      let here : is_some (time_of page stack) ≡ true = ap is_some (sym (same page) ∙ found) in
      let is_member : member page s.recent ≡ true = there ∙ ap is_some found in
      rw is_member (record {
        slots = set slots j (page, t.clock);
        stack = (page, t.clock) ∷ without page stack;
        frames = frames ∙ sym (frames-restamp slots j (n - t.filled) page time t.clock at);
        last_used =
            ap (λ us. set us j (some t.clock)) last_used
            ∙ stamps-set slots j (n - t.filled) (page, t.clock) (page, time) at;
        filled = length-set slots j (page, t.clock) ∙ filled;
        filled_le = filled_le;
        recent =
            ap (λ ps. page ∷ remove page ps) recent
            ∙ ap (◌∷◌ page) (sym (pages-without page stack));
        as_many = length-without page stack here ∙ as_many;
        same = λ q. ground (
          arith,
          time-set slots j page t.clock q (page, time) distinct at (inr refl),
          time-cons page t.clock q (without page stack),
          time-without page q stack distinct_stack,
          same q,
        );
        distinct = Distinct-set slots j page t.clock (page, time) distinct at (inr refl);
        distinct_stack = (
          ground (arith, time-without page page stack distinct_stack),
          Distinct-without page stack distinct_stack,
        );
        order = (omega arith, Descending-without page t.clock stack order);
        faults = faults;
        hits = omega (arith, hits);
      })

  fill-Refines :
      time_of page slots ≡ none
      → t.filled < n
      → Refines n (tick (on_found n page t none)) (request n page s)
  unfolding request
  fill-Refines absent lt =
      let is_member : member page s.recent ≡ false = there ∙ ap is_some absent in
      let roomy : ltb t.filled n ≡ true = lt→ltb t.filled n lt in
      let empties : n - t.filled ≡ suc (n - (t.filled + 1)) = omega arith in
      let k = n - (t.filled + 1) in
      rw (is_member, room, roomy)
        (record {
          slots = slots ++ (page, t.clock) ∷ [];
          stack = (page, t.clock) ∷ stack;
          frames =
              ap (λ fs. set fs t.filled (some page)) (frames ∙ ap (frames_of slots) empties)
              ∙ ap (λ i. set (frames_of slots (suc k)) i (some page)) (sym filled)
              ∙ frames-fill slots k (page, t.clock);
          last_used =
              ap (λ us. set us t.filled (some t.clock)) (last_used ∙ ap (stamps_of slots) empties)
              ∙ ap (λ i. set (stamps_of slots (suc k)) i (some t.clock)) (sym filled)
              ∙ stamps-fill slots k (page, t.clock);
          filled = omega (arith, length-append slots ((page, t.clock) ∷ []), filled);
          filled_le = omega arith;
          recent = ap (◌∷◌ page) recent;
          as_many = omega (arith, as_many);
          same = λ q. ground (
            arith,
            time-append slots (page, t.clock) q absent,
            time-cons page t.clock q stack,
            same q,
          );
          distinct = Distinct-append slots (page, t.clock) distinct absent;
          distinct_stack = (sym (same page) ∙ absent, distinct_stack);
          order = (omega arith, order);
          faults = omega (arith, faults);
          hits = hits;
        })

  evict-Refines :
      time_of page slots ≡ none
      → ltb t.filled n ≡ false
      → 0 < n
      → Refines n (tick (on_found n page t none)) (request n page s)
  unfolding request
  evict-Refines absent full pos_n =
      let is_member : member page s.recent ≡ false = there ∙ ap is_some absent in
      let no_empty : n - t.filled ≡ 0 = ground (arith, filled_le) in
      let (w, at, least) = has-victim slots (ground (arith, filled)) in
      let old = has-Oldest t.clock stack (ground (arith, as_many)) distinct_stack order in
      let v = find_victim (stamps_of slots 0) in
      let stamps : t.last_used ≡ stamps_of slots 0 = last_used ∙ ap (stamps_of slots) no_empty in
      let victim_time = get-time slots v w distinct at in
      let older = AtLeast-time w.1 slots old.slot.0 old.slot.1 least (same old.slot.0 ∙ old.held) in
      let who : w.0 ≡ old.slot.0 = old.only w.0 w.1 (sym (same w.0) ∙ victim_time) older in
      let gone : is_some (time_of w.0 stack) ≡ true = ap is_some (sym (same w.0) ∙ victim_time) in
      rw (is_member, room, full, stamps)
        (record {
          slots = set slots v (page, t.clock);
          stack = (page, t.clock) ∷ without w.0 stack;
          frames =
              ap (λ fs. set fs v (some page)) frames
              ∙ frames-set slots v (n - t.filled) (page, t.clock) w at;
          last_used =
              ap (λ k. set (stamps_of slots k) v (some t.clock)) (sym no_empty)
              ∙ stamps-set slots v (n - t.filled) (page, t.clock) w at;
          filled = length-set slots v (page, t.clock) ∙ filled;
          filled_le = filled_le;
          recent =
              ap (λ ps. page ∷ drop_last ps) recent
              ∙ ap (◌∷◌ page) (old.dropped ∙ ap (λ p. pages_of (without p stack)) (sym who));
          as_many = length-without w.0 stack gone ∙ as_many;
          same = λ q. ground (
            arith,
            time-set slots v page t.clock q w distinct at (inl absent),
            time-cons page t.clock q (without w.0 stack),
            time-without w.0 q stack distinct_stack,
            same q,
          );
          distinct = Distinct-set slots v page t.clock w distinct at (inl absent);
          distinct_stack = (
            ground (arith, time-without w.0 page stack distinct_stack, same page, absent),
            Distinct-without w.0 stack distinct_stack,
          );
          order = (omega arith, Descending-without w.0 t.clock stack order);
          faults = omega (arith, faults);
          hits = hits;
        })

  access-Refines : 0 < n → Refines n (access n page t) (request n page s)
  unfolding access find_page
  access-Refines pos_n = elim (find-slot 0 (n - t.filled) page slots) [
    | inr (j, time, found, at) ↦
        let it : find_from 0 t.frames page ≡ some j =
          ap (λ fs. find_from 0 fs page) frames ∙ found ∙ ap some (omega arith) in
        rw it (hit-Refines j time at)
    | inl (missing, absent) ↦
        let it : find_from 0 t.frames page ≡ none =
          ap (λ fs. find_from 0 fs page) frames ∙ missing in
        elim (Bool-cases (ltb t.filled n)) [
          | inl lt ↦ rw it (fill-Refines absent (ltb→lt t.filled n lt))
          | inr full ↦ rw it (evict-Refines absent full pos_n)
        ]
  ]

loop-Refines :
    (n page_size : ℕ) (refs : List ℕ) (t : Lru) (s : Stack)
    → 0 < n
    → Refines n t s
    → Refines n (lru_loop n page_size refs t) (requests n (pages refs page_size) s)
unfolding lru_loop requests
loop-Refines n page_size [] t s h r = r
loop-Refines n page_size (a ∷ refs) t s h r =
    let page = address_to_page a page_size in
    loop-Refines n page_size refs (access n page t) (request n page s) h (access-Refines n page r h)

-- With at least one frame, after any references, `run_lru` has counted the faults and the hits of a
-- stack of pages with room for `num_frames` that keeps the most recently used page at the front and
-- drops the one at the end, fed with the pages of the addresses; its frames hold exactly the pages
-- of the stack, with stamps that go down along the stack.
pub lru-Refines-stack :
    (refs : List ℕ) (n page_size : ℕ)
    → 0 < n
    → Refines n (run_lru refs n page_size) (requests n (pages refs page_size) empty_stack)
unfolding run_lru
lru-Refines-stack refs n page_size h =
    loop-Refines n page_size refs (init n) empty_stack h (record {
      slots = [];
      stack = [];
      frames = ap (λ k. replicate k none) (omega arith);
      last_used = ap (λ k. replicate k none) (omega arith);
      filled = refl;
      filled_le = omega arith;
      recent = refl;
      as_many = refl;
      same = λ q. refl;
      distinct = tt;
      distinct_stack = tt;
      order = tt;
      faults = refl;
      hits = refl;
    })
