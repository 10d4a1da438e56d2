-- ===== src/HashTable/Tests.antt =====
-- Concrete hash tables of src/components/general/hashtable.c and runs on them.
use saffire.Prelude.{
  ℕ, ◌%◌, ◌^◌, text_eq, get_elem?, ◌≤◌, zero, suc, length, ◌*◌, ◌≡◌, refl, Option, none, some, [],
  ◌∷◌, ◌++◌, Run, ok, ◌>>=◌, false, arith, ◌==◌, if◌then◌else◌, Text,
}
use saffire.HashTable.{
  Key, str_key, num_key, obj_key, Bucket, Table, bucket_at, write_cell, new_bucket,
}
use saffire.HashTable.Functions.{
  ht_hash, hash_native, hash_djbx33a, sdbm_loop, sdbm_step, char_value, int_value, num_key_create,
}
use saffire.HashTable.Chained.{
  chf_find, chf_resize, chf_add, chf_remove, next_count, find_bucket, search_chain, find_matches,
  remove_matches, chain_at, place_bucket, rehash, grow, is_full, unlink, remove_bucket,
  copy_buckets, chf_deep_copy,
}
use saffire.HashTable.Operations.{
  ht_create, ht_create_custom, ht_load_factor, ht_resize_factor, ht_add, ht_add_num, ht_find,
  ht_remove, ht_remove_num, ht_replace, ht_copy, ht_destroy, iterate, ht_iter_init, ht_find_num,
  own_buckets,
}
use saffire.HashTable.Entries.{Entries, kind, key_eq, find_entry, count, count_key, count_in}
use saffire.HashTable.Holds.{Holds, chf_find-Holds}
use saffire.HashTable.Resize.{chf_find-chf_resize}
use saffire.HashTable.Copy.{copies}
use saffire.HashTable.Iterate.{iterate-Holds}
use saffire.HashTable.Hashes.{digits_value, hash_native-digits}
use saffire.HashTable.Load.{IsLight, chf_add-IsLight}
use saffire.HashTable.Objects.{chf_remove_object}
use saffire.HashTable.Lifetime.{On, Freed, ht_copy-Holds, ht_destroy-Freed}
use saffire.HashTable.Laws.{Updates, ht_find-ht_add, ht_find-ht_remove, ht_find-ht_replace}

-- Two numbers in one chain of three.
abbrev five : Bucket
five = record { key = num_key 5; value = 50; hash = 5 }

abbrev eight : Bucket
eight = record { key = num_key 8; value = 80; hash = 8 }

abbrev two : Table
two = record {
  element_count = 2;
  load_factor = ht_load_factor;
  resize_factor = ht_resize_factor;
  copy_on_write = false;
  bucket_list = [] ∷ [] ∷ (0 ∷ 1 ∷ []) ∷ [];
  elements = 0 ∷ 1 ∷ [];
  cells = λ a. if a == 0 then some five else if a == 1 then some eight else none;
  fresh = 2;
}

abbrev two_entries : Entries
two_entries = (0, five) ∷ (1, eight) ∷ []

two_keys : (k : Key) → count_key k two_entries ≤ 1
unfolding count_key key_eq
two_keys (str_key s) = omega arith
two_keys (num_key n) = ground arith
two_keys (obj_key o s) = omega arith

two_chains :
    (i a : ℕ)
    → count a (elim (get_elem? two.bucket_list i) [ none ↦ [] | some c ↦ c ])
      ≡ count_in 3 i a two_entries
unfolding count count_in
two_chains zero a = ground arith
two_chains (suc zero) a = ground arith
two_chains (suc (suc zero)) a = ground arith
two_chains (suc (suc (suc i))) a = ground arith

two-Holds : Holds 1 two two_entries
unfolding ht_hash int_value kind count
two-Holds = record {
  elements = refl;
  counted = refl;
  width = omega arith;
  factor = (omega arith, omega arith);
  entries = ((refl, refl, refl, omega arith), ((refl, refl, refl, omega arith), tt));
  apart = λ a. ground arith;
  keys = two_keys;
  chained = two_chains;
}

chf_find-Holds_example : chf_find two (num_key 8) ≡ ok (some 80)
unfolding kind find_entry key_eq
chf_find-Holds_example = chf_find-Holds 1 two two_entries (num_key 8) two-Holds refl

chf_find-chf_resize_example :
    (t' : Table) × (chf_resize two 5 ≡ ok t')
    × ((k : Key) → kind k ≡ 1 → chf_find t' k ≡ chf_find two k)
chf_find-chf_resize_example = chf_find-chf_resize 1 two two_entries 5 two-Holds (omega arith)

iterate-Holds_example :
    iterate 3 two (ht_iter_init two)
    ≡ ok ((some (num_key 5), some 50) ∷ (some (num_key 8), some 80) ∷ [])
iterate-Holds_example = iterate-Holds 1 two two_entries two-Holds

ht_find-ht_add_example :
    (t' : Table) × (ht_add two (num_key 11) 110 ≡ ok t') × Updates 1 two t' (num_key 11) (some 110)
unfolding kind next_count ht_find chf_find find_bucket chain_at search_chain bucket_at find_matches
    ht_hash int_value
ht_find-ht_add_example =
    ht_find-ht_add 1 two two_entries (num_key 11) 110 two-Holds tt refl refl (omega arith)

ht_find-ht_remove_example :
    (t' : Table) × (old : Option ℕ) × (ht_remove two (num_key 5) ≡ ok (t', old))
    × (ht_find two (num_key 5) ≡ ok old)
    × Updates 1 two t' (num_key 5) none
unfolding kind
ht_find-ht_remove_example =
    ht_find-ht_remove 1 two two_entries (num_key 5) two-Holds tt refl (omega arith)

ht_find-ht_replace_example :
    (t' : Table) × (ht_replace two (num_key 8) 88 ≡ ok (t', none))
    × Updates 1 two t' (num_key 8) (some 88)
unfolding kind next_count
ht_find-ht_replace_example =
    ht_find-ht_replace 1 two two_entries (num_key 8) 88 two-Holds tt refl (omega arith)
      (omega arith)

chf_add-IsLight_example :
    (t' : Table) × (chf_add two (num_key 11) 110 ≡ ok t')
    × IsLight t' (two_entries ++ (2, record { key = num_key 11; value = 110; hash = 11 }) ∷ [])
unfolding kind find_entry key_eq ht_hash int_value
chf_add-IsLight_example =
    chf_add-IsLight 1 two two_entries (num_key 11) 110 two-Holds (refl, refl)
      (omega arith, omega arith) refl refl (omega arith)

ht_copy-Holds_example :
    (copy : Table) × (ht_copy two false ≡ ok copy)
    × Holds 1 copy (copies 2 two_entries)
    × ((k : Key) → kind k ≡ 1 → ht_find copy k ≡ ht_find two k)
    × Holds 1 (On two copy) two_entries
ht_copy-Holds_example = ht_copy-Holds 1 two (0, five) ((1, eight) ∷ []) two-Holds

ht_destroy-Freed_example : (t' : Table) × (ht_destroy two ≡ ok t') × Freed two two_entries t'
ht_destroy-Freed_example = ht_destroy-Freed 1 two two_entries two-Holds refl

abbrev ab : Text
ab = b'a' ∷ b'b' ∷ []

hash_native-digits_example :
    (hash_native ab ≡ digits_value 65599 0 ab % 2 ^ 64)
    × (hash_djbx33a ab ≡ digits_value 33 0 ab % 2 ^ 64)
hash_native-digits_example = hash_native-digits ab

hash_native-ab : hash_native ab ≡ 6363201
unfolding hash_native sdbm_loop sdbm_step char_value
hash_native-ab = refl

-- One object in a table of three buckets.
abbrev an_object : Key
an_object = obj_key 7 ab

abbrev one : Table
one = record {
  element_count = 1;
  load_factor = ht_load_factor;
  resize_factor = ht_resize_factor;
  copy_on_write = false;
  bucket_list = (0 ∷ []) ∷ [] ∷ [] ∷ [];
  elements = 0 ∷ [];
  cells =
      λ a. if a == 0 then some (record { key = an_object; value = 1; hash = 6363201 }) else none;
  fresh = 1;
}

abbrev one_entry : Entries
one_entry = (0, record { key = an_object; value = 1; hash = 6363201 }) ∷ []

one_key : (k : Key) → count_key k one_entry ≤ 1
unfolding count_key key_eq
one_key (str_key s) = omega arith
one_key (num_key n) = omega arith
one_key (obj_key o s) = ground arith

one_chain :
    (i a : ℕ)
    → count a (elim (get_elem? one.bucket_list i) [ none ↦ [] | some c ↦ c ])
      ≡ count_in 3 i a one_entry
unfolding count count_in
one_chain zero a = ground arith
one_chain (suc zero) a = ground arith
one_chain (suc (suc zero)) a = ground arith
one_chain (suc (suc (suc i))) a = ground arith

one-Holds : Holds 2 one one_entry
unfolding ht_hash hash_native sdbm_loop sdbm_step char_value kind count
one-Holds = record {
  elements = refl;
  counted = refl;
  width = omega arith;
  factor = (omega arith, omega arith);
  entries = ((refl, refl, refl, omega arith), tt);
  apart = λ a. ground arith;
  keys = one_key;
  chained = one_chain;
}

chf_remove_object_example : chf_remove one (obj_key 9 ab) ≡ ok (one, none)
unfolding kind find_entry key_eq text_eq ht_hash hash_native sdbm_loop sdbm_step char_value
chf_remove_object_example =
    chf_remove_object one one_entry (obj_key 9 ab)
      (0, record { key = an_object; value = 1; hash = 6363201 }) 0 one-Holds refl refl refl

-- Filling a table makes it grow from 16 to 28 buckets; a removal and a copy.
fill : ℕ → Table → Run Table
fill zero t = ok t
fill (suc n) t = do t₁ ← ht_add_num t (n * 3) n; fill n t₁

filled : Run (ℕ × Option ℕ × Option ℕ)
filled = do
  t ← ht_create
  t₁ ← fill 25 t
  (t₂, old) ← ht_remove_num t₁ 30
  t₃ ← ht_copy t₂ false
  v ← ht_find_num t₃ 6
  ok (length t₁.bucket_list, old, v)

filled_lem : filled ≡ ok (28, some 10, some 2)
unfolding filled fill ht_create ht_create_custom ht_add ht_add_num ht_remove ht_remove_num ht_copy
    ht_find ht_find_num num_key_create own_buckets chf_find chf_resize chf_add chf_remove next_count
    find_bucket search_chain find_matches remove_matches chain_at place_bucket rehash grow is_full
    unlink remove_bucket copy_buckets chf_deep_copy bucket_at write_cell new_bucket ht_hash
    int_value
filled_lem = refl
