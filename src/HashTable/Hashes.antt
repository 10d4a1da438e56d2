-- ===== src/HashTable/Hashes.antt =====
-- The hash functions of src/components/general/hash/hash_funcs.c as numbers to a base.
use saffire.Prelude.{ℕ, ◌+◌, ◌*◌, ◌%◌, ◌^◌, ◌≡◌, refl, ◌∙◌, ap, [], ◌∷◌, arith, Text}
use saffire.HashTable.Functions.{
  char_value, sdbm_step, sdbm_loop, hash_native, djb_step, djb_loop, hash_djbx33a,
}

-- The characters as digits to a base, with no bound.
unfoldable pub digits_value : ℕ → ℕ → Text → ℕ
digits_value base h [] = h
digits_value base h (c ∷ s) = digits_value base (char_value c + h * base) s

sdbm_step_lem : (h c : ℕ) → sdbm_step (h % 2 ^ 64) c ≡ (char_value c + h * 65599) % 2 ^ 64
unfolding sdbm_step
sdbm_step_lem h c = omega arith

djb_step_lem : (h c : ℕ) → djb_step (h % 2 ^ 64) c ≡ (char_value c + h * 33) % 2 ^ 64
unfolding djb_step
djb_step_lem h c = omega arith

sdbm_loop_lem : (h : ℕ) (s : Text) → sdbm_loop (h % 2 ^ 64) s ≡ digits_value 65599 h s % 2 ^ 64
unfolding sdbm_loop digits_value
sdbm_loop_lem h [] = refl
sdbm_loop_lem h (c ∷ s) =
    ap (λ n. sdbm_loop n s) (sdbm_step_lem h c) ∙ sdbm_loop_lem (char_value c + h * 65599) s

djb_loop_lem : (h : ℕ) (s : Text) → djb_loop (h % 2 ^ 64) s ≡ digits_value 33 h s % 2 ^ 64
unfolding djb_loop digits_value
djb_loop_lem h [] = refl
djb_loop_lem h (c ∷ s) =
    ap (λ n. djb_loop n s) (djb_step_lem h c) ∙ djb_loop_lem (char_value c + h * 33) s

-- The shifts and the subtraction of `hash_native`, each of which wraps at 64 bits, give the value of
-- the string to the base 65599, and those of `hash_djbx33a` its value to the base 33, both modulo
-- 2 ^ 64, where a character is taken as a signed `char`.
pub hash_native-digits :
    (s : Text)
    → (hash_native s ≡ digits_value 65599 0 s % 2 ^ 64)
      × (hash_djbx33a s ≡ digits_value 33 0 s % 2 ^ 64)
unfolding hash_native hash_djbx33a
hash_native-digits s = (sdbm_loop_lem 0 s, djb_loop_lem 0 s)
