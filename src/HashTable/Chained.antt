-- ===== src/HashTable/Chained.antt =====
-- The operations of src/components/general/hash/chained.c.
use saffire.Prelude.{
  ℕ, ◌+◌, ◌-◌, ◌*◌, ◌/◌, ◌%◌, ◌^◌, Bool, true, false, not, Option, none, some, List, [], ◌∷◌, ◌++◌,
  Run, ok, undefined, ◌>>=◌, text_eq, ltb, leb, ◌==◌, if◌then◌else◌, length, get_elem?, set,
  replicate,
}
use saffire.HashTable.{Key, str_key, num_key, obj_key, Table, bucket_at, write_cell, new_bucket}
use saffire.HashTable.Functions.{ht_hash}

-- `bucket_list[i]`
unfoldable pub chain_at : List (List ℕ) → ℕ → Run (List ℕ)
chain_at l i = elim (get_elem? l i) [ none ↦ undefined | some c ↦ ok c ]

-- The comparison in `find_bucket`, by the type of the key that is looked for. A member of the
-- union that was not written is not read.
unfoldable pub find_matches : Key → Key → Run Bool
find_matches (str_key s) (str_key t) = ok (text_eq t s)
find_matches (num_key n) (num_key m) = ok (m == n)
find_matches (obj_key o s) (obj_key p t) = ok (text_eq t s)
find_matches _ _ = undefined

-- The comparison in `chf_remove`, by the type of the key of the entry.
unfoldable pub remove_matches : Key → Key → Run Bool
remove_matches (str_key s) (str_key t) = ok (text_eq t s)
remove_matches (num_key n) (num_key m) = ok (m == n)
remove_matches (obj_key o s) (obj_key p t) = ok (not (text_eq t s))
remove_matches _ _ = undefined

-- The first bucket of a chain whose key fits.
unfoldable pub search_chain : (Key → Key → Run Bool) → Table → Key → List ℕ → Run (Option ℕ)
search_chain fits t k [] = ok none
search_chain fits t k (a ∷ c) = do
  b ← bucket_at t a
  found ← fits k b.key
  if found then ok (some a) else search_chain fits t k c

unfoldable pub find_bucket : Table → Key → Run (Option ℕ)
find_bucket t k = do
  chain ← chain_at t.bucket_list (ht_hash k % length t.bucket_list)
  search_chain find_matches t k chain

unfoldable pub chf_find : Table → Key → Run (Option ℕ)
chf_find t k = do
  found ← find_bucket t k
  elim found [ none ↦ ok none | some a ↦ do b ← bucket_at t a; ok (some b.value) ]

unfoldable pub chf_exists : Table → Key → Run Bool
chf_exists t k = do found ← find_bucket t k; ok (elim found [ none ↦ false | some a ↦ true ])

-- A bucket in front of its chain, as `chf_resize` and `_place_bucket` put it.
unfoldable pub place_bucket : List (List ℕ) → ℕ → ℕ → Run (List (List ℕ))
place_bucket l hash a = do
  chain ← chain_at l (hash % length l)
  ok (set l (hash % length l) (a ∷ chain))

-- The loop of `chf_resize` over the elements.
unfoldable pub rehash : Table → List ℕ → List (List ℕ) → Run (List (List ℕ))
rehash t [] l = ok l
rehash t (a ∷ rest) l = do b ← bucket_at t a; l' ← place_bucket l b.hash a; rehash t rest l'

unfoldable pub chf_resize : Table → ℕ → Run Table
chf_resize t count =
    if length t.bucket_list == 0
    then ok (record t { bucket_list = replicate count [] })
    else do l ← rehash t t.elements (replicate count []); ok (record t { bucket_list = l })

-- `element_count / bucket_count > load_factor`, and `floor(bucket_count * resize_factor)`, on
-- fractions: with the factors of `ht_create` the floats of the program give the same below 2 ^ 21
-- buckets.
unfoldable pub is_full : Table → Bool
is_full t = ltb (t.load_factor.over * length t.bucket_list) (t.element_count * t.load_factor.under)

unfoldable pub next_count : Table → ℕ
next_count t = length t.bucket_list * t.resize_factor.over / t.resize_factor.under

-- The number is converted to an `int`.
unfoldable pub grow : Table → Run Table
grow t =
    if is_full t
    then (if leb (2 ^ 31) (next_count t) then undefined else chf_resize t (next_count t))
    else ok t

unfoldable pub chf_add : Table → Key → ℕ → Run Table
chf_add t k value = do
  let hash = ht_hash k
  let i = hash % length t.bucket_list
  let a = t.fresh
  let t₁ = new_bucket t (record { key = k; value = value; hash = hash })
  chain ← chain_at t.bucket_list i
  let t₂ = record t₁ {
    elements = t.elements ++ a ∷ [];
    bucket_list = set t.bucket_list i (chain ++ a ∷ []);
    element_count = (t.element_count + 1) % 2 ^ 32;
  }
  grow t₂

-- The old value, or `NULL`.
unfoldable pub chf_replace : Table → Key → ℕ → Run (Table × Option ℕ)
chf_replace t k value = do
  found ← find_bucket t k
  elim found [
    | none ↦ do t' ← chf_add t k value; ok (t', none)
    | some a ↦ do
      b ← bucket_at t a
      ok (write_cell t a (some (record b { value = value })), some b.value)
  ]

-- A chain without one bucket.
unfoldable pub unlink : ℕ → List ℕ → List ℕ
unlink a [] = []
unlink a (x ∷ c) = if x == a then c else x ∷ unlink a c

unfoldable pub remove_bucket : Table → ℕ → List ℕ → ℕ → Run (Table × Option ℕ)
remove_bucket t i chain a = do
  b ← bucket_at t a
  let t₁ = record t {
    elements = unlink a t.elements;
    bucket_list = set t.bucket_list i (unlink a chain);
    element_count = (t.element_count + (2 ^ 32 - 1)) % 2 ^ 32;
  }
  ok (write_cell t₁ a none, some b.value)

unfoldable pub chf_remove : Table → Key → Run (Table × Option ℕ)
chf_remove t k = do
  let i = ht_hash k % length t.bucket_list
  chain ← chain_at t.bucket_list i
  found ← search_chain remove_matches t k chain
  elim found [ none ↦ ok (t, none) | some a ↦ remove_bucket t i chain a ]

-- The loop of `chf_deep_copy`: each element is copied and placed.
unfoldable pub copy_buckets : Table → List ℕ → Run Table
copy_buckets t [] = ok t
copy_buckets t (a ∷ rest) = do
  b ← bucket_at t a
  let t₁ = new_bucket t b
  l ← place_bucket t.bucket_list b.hash t.fresh
  copy_buckets (record t₁ { bucket_list = l; elements = t.elements ++ t.fresh ∷ [] }) rest

-- An empty table has no head to copy.
unfoldable pub chf_deep_copy : Table → Run Table
chf_deep_copy t = elim t.elements [
  | [] ↦ undefined
  | a ∷ rest ↦
      copy_buckets
        (record t {
          copy_on_write = false;
          bucket_list = replicate (length t.bucket_list) [];
          elements = [];
        })
        (a ∷ rest)
]
