-- ===== src/Server/Store/Map.antt =====
-- What the store promises: a finite map from keys to values with room for `max_store` keys.
use samuel_basnet_240512_st.Prelude.{
  ℕ, ◌+◌, ◌-◌, Bytes, Bool, true, false, Option, none, some, List, [], ◌∷◌, if◌then◌else◌, ltb,
  str_eq,
}
use samuel_basnet_240512_st.Server.Store.{max_store, Slots, store_put, store_get, store_del}

pub record Map : Type 0 where
  pub find : Bytes → Option Bytes
  pub size : ℕ

abbrev pub empty_map : Map
empty_map = record { find = λ k. none; size = 0 }

abbrev pub update : (Bytes → Option Bytes) → Bytes → Option Bytes → Bytes → Option Bytes
update f k v j = if str_eq k j then v else f j

abbrev pub put_found : Option Bytes → Bytes → Bytes → Map → Bool × Map
put_found (some old) k v m = (true, record m { find = update m.find k (some v) })
put_found none k v m =
    if ltb m.size max_store
    then (true, record { find = update m.find k (some v); size = m.size + 1 })
    else (false, m)

unfoldable pub map_put : Bytes → Bytes → Map → Bool × Map
map_put k v m = put_found (m.find k) k v m

abbrev pub del_found : Option Bytes → Bytes → Map → Bool × Map
del_found (some old) k m = (true, record { find = update m.find k none; size = m.size - 1 })
del_found none k m = (false, m)

unfoldable pub map_del : Bytes → Map → Bool × Map
map_del k m = del_found (m.find k) k m

-- The calls of a client of the store, and what each returns.
pub data Op : Type 0 where
  put : Bytes → Bytes → Op
  get : Bytes → Op
  del : Bytes → Op

pub data Reply : Type 0 where
  stored : Bool → Reply
  found : Option Bytes → Reply
  deleted : Bool → Reply

unfoldable pub run_map : Map → List Op → List Reply
unfolding map_put map_del
run_map m [] = []
run_map m (Op.put k v ∷ ops) = let (b, m') = map_put k v m in stored b ∷ run_map m' ops
run_map m (Op.get k ∷ ops) = found (m.find k) ∷ run_map m ops
run_map m (Op.del k ∷ ops) = let (b, m') = map_del k m in deleted b ∷ run_map m' ops

unfoldable pub run_store : Slots → List Op → List Reply
unfolding store_put store_get store_del
run_store s [] = []
run_store s (Op.put k v ∷ ops) = let (b, s') = store_put k v s in stored b ∷ run_store s' ops
run_store s (Op.get k ∷ ops) = found (store_get k s) ∷ run_store s ops
run_store s (Op.del k ∷ ops) = let (b, s') = store_del k s in deleted b ∷ run_store s' ops
