-- ===== src/Server/Store/Refine.antt =====
-- The slots implement the map.
use samuel_basnet_240512_st.Prelude.{
  zero, suc, replicate, length-replicate, ap₂, ℕ, ◌+◌, ◌-◌, ◌≤◌, Bytes, true, false, none, some,
  List, [], ◌∷◌, ◌≡◌, refl, sym, ap, ◌∙◌, ltb, length, take, take_all, arith, Bool-cases,
  Option-cases, inl, inr, All,
}
use samuel_basnet_240512_st.Server.Store.{
  unused_entry, StoreEntry, max_key, max_value, max_store, Slots, store_put, store_get, store_del,
  empty_store,
}
use samuel_basnet_240512_st.Server.Store.Slots.{
  has, has_free, overwrite, fill, stored, store_put_lem,
}
use samuel_basnet_240512_st.Server.Store.Laws.{
  Distinct, count_used, is_some, has-is_some, get-overwrite, get-fill, get-del, del-has,
  Distinct-overwrite, Distinct-fill, Distinct-del, count-overwrite, count-fill, count-del,
  has_free-count, length-overwrite, length-fill, length-del,
}
use samuel_basnet_240512_st.Server.Store.Map.{
  Map, empty_map, update, map_put, map_del, Op, Reply, run_map, run_store,
}

-- All slots are there, and no key stands in two of them.
pub record IsWf (s : Slots) : Type 0 where
  pub distinct : Distinct s
  pub slots : length s ≡ max_store

pub record Refines (s : Slots) (m : Map) : Type 0 where
  pub wf : IsWf s
  pub agree : (k : Bytes) → store_get k s ≡ m.find k
  pub counted : count_used s ≡ m.size

-- What the strings that reach the store satisfy: they fit the arrays of a slot.
abbrev pub Fits : Bytes → ℕ → Type 0
Fits b size = length b ≤ size - 1

stored-Fits :
    (k v : Bytes)
    → Fits k max_key
    → Fits v max_value
    → (take (max_key - 1) k ≡ k) × (take (max_value - 1) v ≡ v)
stored-Fits k v fk fv = (take_all 63 k fk, take_all 399 v fv)

module _ {s : Slots} {m : Map} (r : Refines s m) (k v : Bytes) where
  open r use {wf, agree, counted}

  has-find : has k s ≡ is_some (m.find k)
  has-find = rw (has-is_some k s, agree k)

  free-size : has_free s ≡ ltb m.size max_store
  free-size = rw (has_free-count s, counted, wf.slots)

  Refines-overwrite :
      has k s ≡ true → Refines (overwrite k v s) (record m { find = update m.find k (some v) })
  Refines-overwrite h = record {
    wf = record {
      distinct = Distinct-overwrite k v s wf.distinct;
      slots = length-overwrite k v s ∙ wf.slots;
    };
    agree = λ j. rw (get-overwrite k j v s h, agree j);
    counted = count-overwrite k v s ∙ counted;
  }

  Refines-fill :
      has k s ≡ false
      → has_free s ≡ true
      → Refines
          (fill (record { key = k; value = v; used = true }) s)
          (record { find = update m.find k (some v); size = m.size + 1 })
  Refines-fill h g =
      let n : StoreEntry = record { key = k; value = v; used = true } in
      record {
        wf = record {
          distinct = Distinct-fill n s h wf.distinct;
          slots = length-fill n s ∙ wf.slots;
        };
        agree = λ j. rw (get-fill n j s refl h g, agree j);
        counted = count-fill n s refl g ∙ ap (λ (c : ℕ). c + 1) counted;
      }

  Refines-del :
      (x : Bytes)
      → m.find k ≡ some x
      → Refines (store_del k s).1 (record { find = update m.find k none; size = m.size - 1 })
  Refines-del x e = record {
    wf = record { distinct = Distinct-del k s wf.distinct; slots = length-del k s ∙ wf.slots };
    agree = λ j. rw (get-del k j s wf.distinct, agree j);
    counted = ground (arith, count-del k s, has-find, counted);
  }

  del-absent : (s' : Slots) → has k s' ≡ false → (store_del k s').1 ≡ s'
  unfolding has store_del
  del-absent [] h = refl
  del-absent (e ∷ es) h = ground (arith, del-absent es)

  -- The same answer, and states that agree again.
  pub del-Refines :
      ((store_del k s).0 ≡ (map_del k m).0) × Refines (store_del k s).1 (map_del k m).1
  unfolding map_del
  del-Refines = elim (Option-cases (m.find k)) [
    | inl e ↦
        let gone : has k s ≡ false = has-find ∙ ap is_some e in
        rw (del-has k s, del-absent s gone, gone, e) (refl, r)
    | inr (x, e) ↦ rw (del-has k s, has-find, e) (refl, Refines-del x e)
  ]

  -- `store_put` of a new key into a full store changes nothing.
  pub put-refused : m.find k ≡ none → max_store ≤ m.size → store_put k v s ≡ (false, s)
  put-refused e full =
      let gone : has k s ≡ false = has-find ∙ ap is_some e in
      let stuck : has_free s ≡ false = free-size ∙ ground arith in
      rw (store_put_lem k v s, gone, stuck)

  module _ (fk : Fits k max_key) (fv : Fits v max_value) where
    stored_whole : stored k v ≡ record { key = k; value = v; used = true }
    stored_whole = let (p, q) = stored-Fits k v fk fv in rw (p, q)

    pub put-Refines :
        ((store_put k v s).0 ≡ (map_put k v m).0) × Refines (store_put k v s).1 (map_put k v m).1
    unfolding map_put
    put-Refines = elim (Option-cases (m.find k)) [
      | inl e ↦ elim (Bool-cases (has_free s)) [
        | inl g ↦
            let gone : has k s ≡ false = has-find ∙ ap is_some e in
            rw (store_put_lem k v s, gone, g, stored_whole, e, sym free-size, g)
              (refl, Refines-fill gone g)
        | inr g ↦
            let gone : has k s ≡ false = has-find ∙ ap is_some e in
            rw (store_put_lem k v s, gone, g, e, sym free-size, g) (refl, r)
      ]
      | inr (x, e) ↦
          let there : has k s ≡ true = has-find ∙ ap is_some e in
          rw (store_put_lem k v s, there, e, (stored-Fits k v fk fv).1)
            (refl, Refines-overwrite there)
    ]

get-empty : (n : ℕ) (k : Bytes) → store_get k (replicate n unused_entry) ≡ none
unfolding store_get
get-empty zero k = refl
get-empty (suc n) k = get-empty n k

count-empty : (n : ℕ) → count_used (replicate n unused_entry) ≡ 0
unfolding count_used
count-empty zero = refl
count-empty (suc n) = omega (arith, count-empty n)

Distinct-empty : (n : ℕ) → Distinct (replicate n unused_entry)
Distinct-empty zero = tt
Distinct-empty (suc n) = (λ u. cc, Distinct-empty n)

pub Refines-empty : Refines empty_store empty_map
Refines-empty = record {
  wf = record {
    distinct = Distinct-empty max_store;
    slots = length-replicate max_store unused_entry;
  };
  agree = get-empty max_store;
  counted = count-empty max_store;
}

abbrev pub OpFits : Op → Type 0
OpFits (Op.put k v) = Fits k max_key × Fits v max_value
OpFits (Op.get k) = Unit
OpFits (Op.del k) = Unit

-- In states that agree, any calls with keys and values that fit return the same.
pub run-Refines :
    (s : Slots) (m : Map) (ops : List Op)
    → Refines s m
    → All OpFits ops
    → run_store s ops ≡ run_map m ops
unfolding run_store run_map
run-Refines s m [] r h = refl
run-Refines s m (Op.put k v ∷ ops) r h =
    let (p, q) = put-Refines r k v h.0.0 h.0.1 in
    ap₂ (λ b (l : List Reply). Reply.stored b ∷ l) p
      (run-Refines (store_put k v s).1 (map_put k v m).1 ops q h.1)
run-Refines s m (Op.get k ∷ ops) r h =
    ap₂ (λ b (l : List Reply). Reply.found b ∷ l) (r.agree k) (run-Refines s m ops r h.1)
run-Refines s m (Op.del k ∷ ops) r h =
    let (p, q) = del-Refines r k [] in
    ap₂ (λ b (l : List Reply). Reply.deleted b ∷ l) p
      (run-Refines (store_del k s).1 (map_del k m).1 ops q h.1)

-- From the empty array of slots, any sequence of calls of `store_put`, `store_get` and `store_del`
-- whose keys have at most 63 bytes and whose values have at most 399 returns, call by call, what a
-- finite map with room for 128 keys returns: `store_put` fails exactly when the key is new and 128
-- keys are stored, `store_get` finds the last value put under the key and not deleted since, and
-- `store_del` succeeds exactly when the key is stored.
pub store-refines-map :
    (ops : List Op) → All OpFits ops → run_store empty_store ops ≡ run_map empty_map ops
store-refines-map ops h = run-Refines empty_store empty_map ops Refines-empty h
