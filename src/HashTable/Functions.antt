-- ===== src/HashTable/Functions.antt =====
-- The hash functions of src/components/general/hash/hash_funcs.c, and the keys of
-- src/components/general/hashtable.c.
use saffire.Prelude.{ℕ, ◌+◌, ◌-◌, ◌*◌, ◌%◌, ◌^◌, [], ◌∷◌, Text, ltb, if◌then◌else◌}
use saffire.HashTable.{Key, str_key, num_key, obj_key}

-- A `char`, which is signed, as an `unsigned long`.
unfoldable pub char_value : ℕ → ℕ
char_value c = if ltb c 128 then c else c + (2 ^ 64 - 256)

-- An `int` as an `unsigned long`.
unfoldable pub int_value : ℕ → ℕ
int_value n = if ltb n (2 ^ 31) then n else n + (2 ^ 64 - 2 ^ 32)

-- One round of the loop: `h << k` drops the bits above, and a subtraction wraps.
unfoldable pub sdbm_step : ℕ → ℕ → ℕ
sdbm_step h c = (char_value c + h * 2 ^ 6 % 2 ^ 64 + h * 2 ^ 16 % 2 ^ 64 + (2 ^ 64 - h)) % 2 ^ 64

unfoldable pub sdbm_loop : ℕ → Text → ℕ
sdbm_loop h [] = h
sdbm_loop h (c ∷ s) = sdbm_loop (sdbm_step h c) s

unfoldable pub hash_native : Text → ℕ
hash_native s = sdbm_loop 0 s

unfoldable pub djb_step : ℕ → ℕ → ℕ
djb_step h c = (char_value c + h * 2 ^ 5 % 2 ^ 64 + h) % 2 ^ 64

unfoldable pub djb_loop : ℕ → Text → ℕ
djb_loop h [] = h
djb_loop h (c ∷ s) = djb_loop (djb_step h c) s

unfoldable pub hash_djbx33a : Text → ℕ
hash_djbx33a s = djb_loop 0 s

unfoldable pub ht_hash : Key → ℕ
ht_hash (str_key s) = hash_native s
ht_hash (num_key n) = int_value n
ht_hash (obj_key o s) = hash_native s

-- `ht_key_create` cuts an `unsigned long` to an `int`.
unfoldable pub num_key_create : ℕ → Key
num_key_create n = num_key (n % 2 ^ 32)
