-- ===== src/Server/Store.antt =====
-- The shared key-value store of task4_network_ipc/server.c: a fixed array of slots, and the four
-- operations on it. Each holds `store_lock` from its first statement to every return, so it is one
-- step; the lock itself leaves no trace here.
pub mod Slots
pub mod Laws
pub mod Map
pub mod Refine
use samuel_basnet_240512_st.Prelude.{
  ℕ, zero, suc, ◌+◌, ◌-◌, Bytes, codes, Bool, true, false, not, ◌&&◌, Option, none, some, List, [],
  ◌∷◌, ◌++◌, ltb, if◌then◌else◌, length, get_or, set, take, replicate, str_eq,
}

abbrev pub max_key : ℕ
max_key = 64

abbrev pub max_value : ℕ
max_value = 400

abbrev pub max_store : ℕ
max_store = 128

-- `key` and `value` are the strings that the two arrays hold.
pub record StoreEntry : Type 0 where
  pub key : Bytes
  pub value : Bytes
  pub used : Bool

abbrev pub Slots : Type 0
Slots = List StoreEntry

-- A static array starts as zeros.
abbrev pub unused_entry : StoreEntry
unused_entry = record { key = []; value = []; used = false }

abbrev pub empty_store : Slots
empty_store = replicate max_store unused_entry

-- The test `store[i].used && strcmp(store[i].key, key) == 0`.
abbrev pub matches : Bytes → StoreEntry → Bool
matches key e = e.used && str_eq e.key key

-- Where the loop of `store_put` ends: at a slot that holds the key, or behind the last slot with
-- the first unused one (`none` is the -1 of `free_slot`).
pub data PutTarget : Type 0 where
  existing : (i : ℕ) → PutTarget
  new : (free_slot : Option ℕ) → PutTarget

abbrev pub first_free : StoreEntry → ℕ → Option ℕ → Option ℕ
first_free e i none = if e.used then none else some i
first_free e i (some j) = some j

-- The slots are those from index `i` on.
put_loop : Bytes → Slots → ℕ → Option ℕ → PutTarget
put_loop key [] i free_slot = new free_slot
put_loop key (e ∷ es) i free_slot =
    if matches key e then existing i else put_loop key es (i + 1) (first_free e i free_slot)

-- `strncpy(dst, src, n - 1); dst[n - 1] = '\0'` keeps the first n - 1 bytes.
put_at : Bytes → Bytes → Slots → PutTarget → Bool × Slots
put_at key value store (existing i) = (
  true,
  set store i (record (get_or store i unused_entry) { value = take (max_value - 1) value }),
)
put_at key value store (new none) = (false, store)
put_at key value store (new (some i)) = (
  true,
  set store i
      (record { key = take (max_key - 1) key; value = take (max_value - 1) value; used = true }),
)

unfoldable pub store_put : Bytes → Bytes → Slots → Bool × Slots
unfolding put_loop put_at
store_put key value store = put_at key value store (put_loop key store 0 none)

-- `none` is the return of 0, `some` the string that is copied to `out_value`.
unfoldable pub store_get : Bytes → Slots → Option Bytes
store_get key [] = none
store_get key (e ∷ es) = if matches key e then some e.value else store_get key es

unfoldable pub store_del : Bytes → Slots → Bool × Slots
store_del key [] = (false, [])
store_del key (e ∷ es) =
    let (deleted, rest) = store_del key es in
    if matches key e then (true, record e { used = false } ∷ es) else (deleted, e ∷ rest)

abbrev pub written : Option Bytes → Bytes
written none = []
written (some b) = b

-- `snprintf(out + offset, size - offset, "%s ", key)` writes at most `size - offset - 1` bytes, and
-- the loop stops at the first key that does not fit. `out` is what the buffer holds in front of
-- `offset`; `none` while nothing has been written to it.
list_loop : ℕ → Slots → ℕ → Option Bytes → ℕ × Option Bytes
list_loop size [] count out = (count, out)
list_loop size (e ∷ es) count out =
    let skipped = list_loop size es count out in
    let text : Bytes = written out ++ (e.key ++ codes " ") in
    let more = list_loop size es (count + 1) (some text) in
    let cut : ℕ × Option Bytes = (count + 1, some (take (size - 1) text)) in
    if e.used then if ltb (length text) size then more else cut else skipped

-- The count that is returned, and what was written to the buffer.
unfoldable pub store_list : ℕ → Slots → ℕ × Option Bytes
unfolding list_loop
store_list size store = list_loop size store 0 none
