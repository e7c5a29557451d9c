-- ===== src/Persistence/Pool.antt =====
-- The MongoPool library (MongoPool.h is not in the repository) and the BSON values, as the
-- subscription store uses them. The library is the record MongoPool; what is relied on is
-- MongoLaws: the semantics of MongoDB's equality filters, `update_many` with $set, inserts and
-- deletes, and of the getters for strings and 32-bit integers, as
-- src/persistence/subscription_store.cpp states them.
use sip_event_processor.Prelude.{
  ℕ, ◌-◌, ◌%◌, ◌^◌, ◌≡◌, ◌≤◌, Bool, true, false, not, Option, none, some, List, [], ◌∷◌, ◌++◌, map,
  Text, text_eq, length, keep_if, ℤ, pos, negsuc, ltb, ◌==◌, if◌then◌else◌,
}
use sip_event_processor.Prelude.Map.{Map, find, put}

pub data Value : Type 0 where
  utf8 : Text → Value
  int32 : ℤ → Value

-- A document: its fields in their order.
abbrev pub Document : Type 0
Document = Map Value

-- What a C function reads of a `std::string` through c_str(): up to the first NUL.
unfoldable pub c_str : Text → Text
c_str [] = []
c_str (c ∷ s) = let rest = c_str s in if c == 0 then [] else c ∷ rest

-- static_cast<int32_t> of an unsigned number, and static_cast<uint32_t> of an int.
unfoldable pub to_int32 : ℕ → ℤ
to_int32 n = let m = n % 2 ^ 32 in if ltb m (2 ^ 31) then pos m else negsuc (2 ^ 32 - 1 - m)

unfoldable pub to_uint32 : ℤ → ℕ
to_uint32 (pos n) = n % 2 ^ 32
to_uint32 (negsuc n) = 2 ^ 32 - 1 - n % 2 ^ 32

-- Whether the filter { key: value } selects a document.
unfoldable pub matches : Text → Text → Document → Bool
matches key value d = elim (find key d) [
  | none ↦ false
  | some v ↦ elim v [ utf8 s ↦ text_eq s value | int32 n ↦ false ]
]

-- The fields of the first document set in the second.
unfoldable pub set_all : Document → Document → Document
set_all [] d = d
set_all ((k, v) ∷ fs) d = put k v (set_all fs d)

-- Execute with each of its operations on the one collection, and the getters on the current row. A
-- result `none` or `false` is a failure. The filter is { key: value }.
pub record MongoPool (Db : Type 0) : Type 0 where
  pub find_count : Text → Text → Db → Db × Option ℕ
  pub update : Text → Text → Document → Db → Db × Bool
  pub insert : Document → Db → Db × Bool
  pub delete : Text → Text → Db → Db × Bool
  pub find_rows : Text → Text → Db → Db × Option (List Document)
  pub get_string : Document → Text → Text
  pub get_int : Document → Text → ℤ

-- What is relied on. `docs` is the collection's documents in the order in which a query gives
-- them. Of a write that fails nothing is said.
pub record MongoLaws {Db : Type 0} (pool : MongoPool Db) (docs : Db → List Document) : Type 0 where
  pub count_reads : (k v : Text) (db : Db) → docs (pool.find_count k v db).0 ≡ docs db
  pub count_counts :
      (k v : Text) (db : Db) (n : ℕ)
      → (pool.find_count k v db).1 ≡ some n
      → n ≡ length (keep_if (matches k v) (docs db))
  pub update_sets :
      (k v : Text) (fields : Document) (db : Db)
      → (pool.update k v fields db).1 ≡ true
      → docs (pool.update k v fields db).0
        ≡ map (λ d. if matches k v d then set_all fields d else d) (docs db)
  pub insert_appends :
      (d : Document) (db : Db)
      → (pool.insert d db).1 ≡ true
      → docs (pool.insert d db).0 ≡ docs db ++ d ∷ []
  pub delete_removes :
      (k v : Text) (db : Db)
      → length (keep_if (matches k v) (docs db)) ≤ 1
      → (pool.delete k v db).1 ≡ true
      → docs (pool.delete k v db).0 ≡ keep_if (λ d. not (matches k v d)) (docs db)
  pub find_reads : (k v : Text) (db : Db) → docs (pool.find_rows k v db).0 ≡ docs db
  pub find_finds :
      (k v : Text) (db : Db) (rows : List Document)
      → (pool.find_rows k v db).1 ≡ some rows
      → rows ≡ keep_if (matches k v) (docs db)
  pub string_read : (d : Document) (k s : Text) → find k d ≡ some (utf8 s) → pool.get_string d k ≡ s
  pub int_read :
      (d : Document) (k : Text) (n : ℤ) → find k d ≡ some (int32 n) → pool.get_int d k ≡ n
