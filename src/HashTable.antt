-- ===== src/HashTable.antt =====
-- The hash tables of src/components/general/hashtable.c and src/components/general/hash/chained.c.
pub mod Functions
pub mod Chained
pub mod Operations
pub mod Entries
pub mod Holds
pub mod Appending
pub mod Erasing
pub mod Add
pub mod Iterate
pub mod Copy
pub mod Laws
pub mod Objects
pub mod Lifetime
pub mod Hashes
pub mod Load
pub mod Remove
pub mod Resize
mod Tests
use saffire.Prelude.{
  ℕ, Bool, Option, none, some, List, Run, ok, undefined, Text, ◌+◌, ◌==◌, if◌then◌else◌,
}

-- `t_hash_key`. A number is an `int` by its bit pattern; an object is known by its address and by
-- the string that `object_get_hash` gives for it.
pub data Key : Type 0 where
  str_key : Text → Key
  num_key : ℕ → Key
  obj_key : ℕ → Text → Key

-- `t_hash_table_bucket`. Its links are the lists of addresses in the table.
pub record Bucket : Type 0 where
  pub key : Key
  pub value : ℕ
  pub hash : ℕ

-- The factors are floats, that is fractions.
pub record Factor : Type 0 where
  pub over : ℕ
  pub under : ℕ

-- `t_hash_table`, with the heap its buckets stand on. `bucket_list` has a list for each chain of
-- `next_in_bucket`, and `elements` is the chain of `next_element` from the head to the tail.
pub record Table : Type 0 where
  pub element_count : ℕ
  pub load_factor : Factor
  pub resize_factor : Factor
  pub copy_on_write : Bool
  pub bucket_list : List (List ℕ)
  pub elements : List ℕ
  pub cells : ℕ → Option Bucket
  pub fresh : ℕ

-- `*htb`
unfoldable pub bucket_at : Table → ℕ → Run Bucket
bucket_at t a = elim (t.cells a) [ none ↦ undefined | some b ↦ ok b ]

unfoldable pub write_cell : Table → ℕ → Option Bucket → Table
write_cell t a b = record t { cells = λ x. if x == a then b else t.cells x }

-- `smm_malloc` of a bucket, and its first assignments.
unfoldable pub new_bucket : Table → Bucket → Table
new_bucket t b = record (write_cell t t.fresh (some b)) { fresh = t.fresh + 1 }
