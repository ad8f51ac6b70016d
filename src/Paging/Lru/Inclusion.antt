-- ===== src/Paging/Lru/Inclusion.antt =====
-- With more frames `run_lru` holds all that it holds with fewer.
use samuel_basnet_240512_st.Prelude.{
  ℕ, zero, suc, ◌≤◌, ◌<◌, true, false, List, [], ◌∷◌, ◌≡◌, refl, sym, ap, ◌∙◌, arith, length, ◌==◌,
  ltb, take, take_all, length-take, Bool-cases, inl, inr,
}
use samuel_basnet_240512_st.Paging.Frames.{member, pages, is_some, find_page}
use samuel_basnet_240512_st.Paging.Lru.{run_lru}
use samuel_basnet_240512_st.Paging.Lru.Stack.{
  Stack, empty_stack, remove, drop_last, request, requests,
}
use samuel_basnet_240512_st.Paging.Lru.Refine.{find-member, lru-Refines-stack}

-- All pages used so far, each once, the most recent first.
unfoldable pub used : List ℕ → List ℕ → List ℕ
used [] recent = recent
used (page ∷ ps) recent = used ps (page ∷ remove page recent)

remove-absent : (page : ℕ) (ps : List ℕ) → member page ps ≡ false → remove page ps ≡ ps
unfolding member remove
remove-absent page [] h = refl
remove-absent page (p ∷ ps) h = ground (arith, remove-absent page ps)

length-remove :
    (page : ℕ) (ps : List ℕ) → member page ps ≡ true → suc (length (remove page ps)) ≡ length ps
unfolding member remove
length-remove page [] h = absurd (ground arith)
length-remove page (p ∷ ps) h = ground (arith, length-remove page ps)

drop_last-take : (k : ℕ) (ps : List ℕ) → length ps ≡ suc k → drop_last ps ≡ take k ps
unfolding drop_last
drop_last-take k [] h = absurd (omega arith)
drop_last-take zero (p ∷ []) h = refl
drop_last-take (suc k) (p ∷ []) h = absurd (omega arith)
drop_last-take zero (p ∷ q ∷ ps) h = absurd (omega arith)
drop_last-take (suc k) (p ∷ q ∷ ps) h = ap (◌∷◌ p) (drop_last-take k (q ∷ ps) (omega arith))

-- A request moves the page to the front and cuts the stack to its room.
request-take :
    (k page : ℕ) (s : Stack)
    → length s.recent ≤ suc k
    → (request (suc k) page s).recent ≡ take (suc k) (page ∷ remove page s.recent)
unfolding request
request-take k page s h = elim (Bool-cases (member page s.recent)) [
  | inl here ↦ rw here (
      ap (◌∷◌ page)
        (sym (take_all k (remove page s.recent) (omega (arith, length-remove page s.recent here)))))
  | inr absent ↦ elim (Bool-cases (ltb (length s.recent) (suc k))) [
    | inl room ↦
        rw (absent, room, remove-absent page s.recent absent)
          (ap (◌∷◌ page) (sym (take_all k s.recent (ground arith))))
    | inr full ↦
        rw (absent, full, remove-absent page s.recent absent)
          (ap (◌∷◌ page) (drop_last-take k s.recent (ground arith)))
  ]
]

take-remove :
    (k page : ℕ) (ps : List ℕ) → take k (remove page (take (suc k) ps)) ≡ take k (remove page ps)
unfolding remove
take-remove k page [] = refl
take-remove zero page (p ∷ ps) = ground arith
take-remove (suc k) page (p ∷ ps) = elim (Bool-cases (p == page)) [
  | inl same ↦ rw same (take_all (suc k) (take (suc k) ps) (omega (arith, length-take (suc k) ps)))
  | inr other ↦ rw other (ap (◌∷◌ p) (take-remove k page ps))
]

member-take :
    (n m page : ℕ) (ps : List ℕ)
    → n ≤ m
    → member page (take n ps) ≡ true
    → member page (take m ps) ≡ true
unfolding member
member-take zero m page ps h e = absurd (ground arith)
member-take (suc n) m page [] h e = absurd (ground arith)
member-take (suc n) zero page (p ∷ ps) h e = absurd (omega arith)
member-take (suc n) (suc m) page (p ∷ ps) h e = ground (arith, member-take n m page ps)

requests-take :
    (k : ℕ) (ps : List ℕ) (s : Stack) (recent : List ℕ)
    → s.recent ≡ take (suc k) recent
    → (requests (suc k) ps s).recent ≡ take (suc k) (used ps recent)
unfolding requests used
requests-take k [] s recent h = h
requests-take k (page ∷ ps) s recent h =
    requests-take k ps (request (suc k) page s) (page ∷ remove page recent) (
      request-take k page s (omega (arith, ap length h, length-take (suc k) recent))
      ∙ ap (λ r. page ∷ take k (remove page r)) h
      ∙ ap (◌∷◌ page) (take-remove k page recent))

-- One request at two stacks, the one with the more room holding all that the other one holds.
request-faults :
    (n m page : ℕ) (s s' : Stack)
    → (member page s.recent ≡ true → member page s'.recent ≡ true)
    → s'.faults ≤ s.faults
    → (request m page s').faults ≤ (request n page s).faults
unfolding request
request-faults n m page s s' h f = ground arith

requests-faults :
    (n m : ℕ) (ps : List ℕ) (s s' : Stack) (recent : List ℕ)
    → n ≤ m
    → s.recent ≡ take (suc n) recent
    → s'.recent ≡ take (suc m) recent
    → s'.faults ≤ s.faults
    → (requests (suc m) ps s').faults ≤ (requests (suc n) ps s).faults
unfolding requests used
requests-faults n m [] s s' recent h e e' f = f
requests-faults n m (page ∷ ps) s s' recent h e e' f =
    requests-faults n m ps (request (suc n) page s) (request (suc m) page s')
      (page ∷ remove page recent) h (requests-take n (page ∷ []) s recent e)
      (requests-take m (page ∷ []) s' recent e')
      (request-faults (suc n) (suc m) page s s'
        (λ here.
          ap (member page) e'
          ∙ member-take (suc n) (suc m) page recent (omega arith) (ap (member page) (sym e) ∙ here))
        f)

-- With at least one frame, after any references, a page is in the frames of `run_lru` exactly when it
-- is one of the `num_frames` most recently used of all pages used so far.
pub lru-recent :
    (refs : List ℕ) (n page_size page : ℕ)
    → 0 < n
    → is_some (find_page (run_lru refs n page_size).frames page)
      ≡ member page (take n (used (pages refs page_size) []))
lru-recent refs zero page_size page h = absurd (omega arith)
lru-recent refs (suc k) page_size page h =
    find-member (suc k) page (lru-Refines-stack refs (suc k) page_size h)
    ∙ ap (member page) (requests-take k (pages refs page_size) empty_stack [] refl)

-- On the same references `run_lru` never counts more faults with more frames, where there is at
-- least one frame.
pub lru-faults-le :
    (refs : List ℕ) (n m page_size : ℕ)
    → 0 < n
    → n ≤ m
    → (run_lru refs m page_size).page_faults ≤ (run_lru refs n page_size).page_faults
lru-faults-le refs zero m page_size h le = absurd (omega arith)
lru-faults-le refs (suc n) zero page_size h le = absurd (omega arith)
lru-faults-le refs (suc n) (suc m) page_size h le = omega (
  arith,
  (lru-Refines-stack refs (suc n) page_size (omega arith)).faults,
  (lru-Refines-stack refs (suc m) page_size (omega arith)).faults,
  requests-faults n m (pages refs page_size) empty_stack empty_stack [] (omega arith) refl refl
      (omega arith),
)
