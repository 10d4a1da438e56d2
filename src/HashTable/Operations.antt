-- ===== src/HashTable/Operations.antt =====
-- The operations and the iterators of src/components/general/hashtable.c.
use saffire.Prelude.{
  ℕ, zero, suc, Bool, true, false, Option, none, some, List, [], ◌∷◌, Run, ok, undefined,
  out_of_fuel, ◌>>=◌, ◌==◌, if◌then◌else◌, Text,
}
use saffire.HashTable.{Key, str_key, num_key, obj_key, Factor, Table, bucket_at, write_cell}
use saffire.HashTable.Functions.{num_key_create}
use saffire.HashTable.Chained.{
  chf_find, chf_exists, chf_add, chf_replace, chf_remove, chf_resize, chf_deep_copy,
}

-- `_ht_create`, on a heap that has nothing else.
unfoldable pub ht_create_custom : ℕ → Factor → Factor → Run Table
ht_create_custom count load resize =
    chf_resize
      (record {
        element_count = 0;
        load_factor = load;
        resize_factor = resize;
        copy_on_write = false;
        bucket_list = [];
        elements = [];
        cells = λ a. none;
        fresh = 0;
      })
      count

abbrev pub ht_load_factor : Factor
ht_load_factor = record { over = 5; under = 4 }

abbrev pub ht_resize_factor : Factor
ht_resize_factor = record { over = 7; under = 4 }

unfoldable pub ht_create : Run Table
ht_create = ht_create_custom 16 ht_load_factor ht_resize_factor

-- The copy, on the heap that both tables share from then on.
unfoldable pub ht_copy : Table → Bool → Run Table
ht_copy t copy_on_write =
    let copy = record t { copy_on_write = copy_on_write } in
    if copy_on_write then ok copy else chf_deep_copy copy

-- What `ht_add`, `ht_replace` and `ht_remove` do first.
unfoldable pub own_buckets : Table → Run Table
own_buckets t = if t.copy_on_write then chf_deep_copy t else ok t

unfoldable pub ht_find : Table → Key → Run (Option ℕ)
ht_find t k = chf_find t k

unfoldable pub ht_find_str : Table → Text → Run (Option ℕ)
ht_find_str t s = ht_find t (str_key s)

unfoldable pub ht_find_num : Table → ℕ → Run (Option ℕ)
ht_find_num t n = ht_find t (num_key_create n)

unfoldable pub ht_find_obj : Table → ℕ → Text → Run (Option ℕ)
ht_find_obj t o s = ht_find t (obj_key o s)

unfoldable pub ht_exists : Table → Key → Run Bool
ht_exists t k = chf_exists t k

unfoldable pub ht_exists_str : Table → Text → Run Bool
ht_exists_str t s = ht_exists t (str_key s)

unfoldable pub ht_exists_num : Table → ℕ → Run Bool
ht_exists_num t n = ht_exists t (num_key_create n)

unfoldable pub ht_exists_obj : Table → ℕ → Text → Run Bool
ht_exists_obj t o s = ht_exists t (obj_key o s)

unfoldable pub ht_add : Table → Key → ℕ → Run Table
ht_add t k value = do t₁ ← own_buckets t; chf_add t₁ k value

unfoldable pub ht_add_str : Table → Text → ℕ → Run Table
ht_add_str t s value = ht_add t (str_key s) value

unfoldable pub ht_add_num : Table → ℕ → ℕ → Run Table
ht_add_num t n value = ht_add t (num_key_create n) value

unfoldable pub ht_add_obj : Table → ℕ → Text → ℕ → Run Table
ht_add_obj t o s value = ht_add t (obj_key o s) value

-- A key that is there is removed and added anew.
unfoldable pub add_anew : Table → Key → ℕ → Run (Table × Option ℕ)
add_anew t k value = do (t₁, _) ← chf_remove t k; t₂ ← chf_add t₁ k value; ok (t₂, none)

unfoldable pub ht_replace : Table → Key → ℕ → Run (Table × Option ℕ)
ht_replace t k value = do
  t₁ ← own_buckets t
  there ← chf_exists t₁ k
  if there then add_anew t₁ k value else chf_replace t₁ k value

unfoldable pub ht_replace_str : Table → Text → ℕ → Run (Table × Option ℕ)
ht_replace_str t s value = ht_replace t (str_key s) value

unfoldable pub ht_replace_num : Table → ℕ → ℕ → Run (Table × Option ℕ)
ht_replace_num t n value = ht_replace t (num_key_create n) value

unfoldable pub ht_replace_obj : Table → ℕ → Text → ℕ → Run (Table × Option ℕ)
ht_replace_obj t o s value = ht_replace t (obj_key o s) value

unfoldable pub ht_remove : Table → Key → Run (Table × Option ℕ)
ht_remove t k = do t₁ ← own_buckets t; chf_remove t₁ k

unfoldable pub ht_remove_str : Table → Text → Run (Table × Option ℕ)
ht_remove_str t s = ht_remove t (str_key s)

unfoldable pub ht_remove_num : Table → ℕ → Run (Table × Option ℕ)
ht_remove_num t n = ht_remove t (num_key_create n)

unfoldable pub ht_remove_obj : Table → ℕ → Text → Run (Table × Option ℕ)
ht_remove_obj t o s = ht_remove t (obj_key o s)

-- `head` and `next_element`
unfoldable pub head : List ℕ → Option ℕ
head [] = none
head (a ∷ rest) = some a

unfoldable pub next_element : List ℕ → ℕ → Option ℕ
next_element [] a = none
next_element (x ∷ rest) a = if x == a then head rest else next_element rest a

-- `t_hash_iter` is the bucket it stands at, which is `NULL` at the end.
unfoldable pub ht_iter_init : Table → Option ℕ
ht_iter_init t = head t.elements

-- `ht_iter_rewind` on an iterator over the first table, if there is one, with the second argument:
-- whether it succeeds, the table and the bucket. The head is that of the argument.
unfoldable pub ht_iter_rewind :
    Option Table → Option Table → Option ℕ → Run (Bool × Option Table × Option ℕ)
ht_iter_rewind none none it = ok (false, none, it)
ht_iter_rewind (some t) none it = undefined
ht_iter_rewind old (some t) it = ok (true, some t, head t.elements)

unfoldable pub ht_iter_valid : Option ℕ → Bool
ht_iter_valid none = false
ht_iter_valid (some a) = true

unfoldable pub ht_iter_next : Table → Option ℕ → Run (Option ℕ)
ht_iter_next t none = ok none
ht_iter_next t (some a) = do b ← bucket_at t a; ok (next_element t.elements a)

unfoldable pub ht_iter_key : Table → Option ℕ → Run (Option Key)
ht_iter_key t none = ok none
ht_iter_key t (some a) = do b ← bucket_at t a; ok (some b.key)

unfoldable pub ht_iter_value : Table → Option ℕ → Run (Option ℕ)
ht_iter_value t none = ok none
ht_iter_value t (some a) = do b ← bucket_at t a; ok (some b.value)

-- `ht_iter_key_num`: the member of the union that was written, or 0 at the end.
unfoldable pub ht_iter_key_num : Table → Option ℕ → Run ℕ
ht_iter_key_num t none = ok 0
ht_iter_key_num t (some a) = do
  b ← bucket_at t a
  elim b.key [ num_key n ↦ ok n | str_key s ↦ undefined | obj_key o s ↦ undefined ]

unfoldable pub ht_iter_key_str : Table → Option ℕ → Run (Option Text)
ht_iter_key_str t none = ok none
ht_iter_key_str t (some a) = do
  b ← bucket_at t a
  elim b.key [ str_key s ↦ ok (some s) | num_key n ↦ undefined | obj_key o s ↦ undefined ]

-- The loop that `ht_debug` and the callers run, with what it sees of each element.
unfoldable pub iterate : ℕ → Table → Option ℕ → Run (List (Option Key × Option ℕ))
iterate zero t it = out_of_fuel
iterate (suc fuel) t it = elim (ht_iter_valid it) [
  | false ↦ ok []
  | true ↦ do
    k ← ht_iter_key t it
    v ← ht_iter_value t it
    it' ← ht_iter_next t it
    seen ← iterate fuel t it'
    ok ((k, v) ∷ seen)
]

-- The buckets that `ht_destroy` frees, from the head on. Each is read for its link before it is freed;
-- the links are the list of addresses.
unfoldable pub destroy_buckets : Table → List ℕ → Run Table
destroy_buckets t [] = ok t
destroy_buckets t (a ∷ rest) = do b ← bucket_at t a; destroy_buckets (write_cell t a none) rest

unfoldable pub ht_destroy : Table → Run Table
ht_destroy t = if t.copy_on_write then ok t else destroy_buckets t t.elements
