-- ===== src/HashTable/Appending.antt =====
-- Entries behind others: counts and lookups, for src/components/general/hash/chained.c.
use saffire.Prelude.{
  ℕ, ◌+◌, ◌≡◌, refl, ap, ◌∙◌, true, false, Option, none, some, List, [], ◌∷◌, ◌++◌, arith,
  if◌then◌else◌, eq_of_text_eq, text_eq_refl, text_eq_symm, Bool-cases, inl, inr,
}
use saffire.HashTable.{Key, str_key, num_key, obj_key, Bucket}
use saffire.HashTable.Entries.{
  Entries, key_eq, find_entry, addresses, bit, count, count_key, count_in, some_not_none,
}

pub count-append : (x : ℕ) (xs ys : List ℕ) → count x (xs ++ ys) ≡ count x xs + count x ys
unfolding count
count-append x [] ys = omega arith
count-append x (a ∷ xs) ys = omega (arith, count-append x xs ys)

pub count_key-append :
    (k : Key) (es fs : Entries) → count_key k (es ++ fs) ≡ count_key k es + count_key k fs
unfolding count_key
count_key-append k [] fs = omega arith
count_key-append k (e ∷ es) fs = omega (arith, count_key-append k es fs)

pub count_in-append :
    (n i x : ℕ) (es fs : Entries)
    → count_in n i x (es ++ fs) ≡ count_in n i x es + count_in n i x fs
unfolding count_in
count_in-append n i x [] fs = omega arith
count_in-append n i x (e ∷ es) fs = omega (arith, count_in-append n i x es fs)

pub addresses-append : (es fs : Entries) → addresses (es ++ fs) ≡ addresses es ++ addresses fs
addresses-append [] fs = refl
addresses-append (e ∷ es) fs = ap (λ l. e.0 ∷ l) (addresses-append es fs)

pub key_eq_refl : (k : Key) → key_eq k k ≡ true
unfolding key_eq
key_eq_refl (str_key s) = text_eq_refl s
key_eq_refl (num_key n) = ground arith
key_eq_refl (obj_key o s) = text_eq_refl s

pub key_eq_symm : (q k : Key) → key_eq q k ≡ key_eq k q
unfolding key_eq
key_eq_symm (str_key s) (str_key u) = text_eq_symm u s
key_eq_symm (num_key n) (num_key m) = ground arith
key_eq_symm (obj_key o s) (obj_key p u) = text_eq_symm u s
key_eq_symm (str_key s) (num_key m) = refl
key_eq_symm (str_key s) (obj_key p t) = refl
key_eq_symm (num_key n) (str_key t) = refl
key_eq_symm (num_key n) (obj_key p t) = refl
key_eq_symm (obj_key o s) (str_key t) = refl
key_eq_symm (obj_key o s) (num_key m) = refl

-- Keys that are the same fit the same keys.
pub key_eq_congr : (q k j : Key) → key_eq q k ≡ true → key_eq q j ≡ key_eq k j
unfolding key_eq
key_eq_congr (str_key s) (str_key u) j h = rw (eq_of_text_eq u s h) refl
key_eq_congr (num_key n) (num_key m) j h = let e : m ≡ n = ground arith in rw e refl
key_eq_congr (obj_key o s) (obj_key p u) (obj_key r v) h = rw (eq_of_text_eq u s h) refl
key_eq_congr (obj_key o s) (obj_key p u) (str_key v) h = refl
key_eq_congr (obj_key o s) (obj_key p u) (num_key v) h = refl
key_eq_congr (str_key s) (num_key m) j h = cc
key_eq_congr (str_key s) (obj_key p t) j h = cc
key_eq_congr (num_key n) (str_key t) j h = cc
key_eq_congr (num_key n) (obj_key p t) j h = cc
key_eq_congr (obj_key o s) (str_key t) j h = cc
key_eq_congr (obj_key o s) (num_key m) j h = cc

pub count_key_congr :
    (q k : Key) (es : Entries) → key_eq q k ≡ true → count_key q es ≡ count_key k es
unfolding count_key
count_key_congr q k [] h = refl
count_key_congr q k (e ∷ es) h =
    rw (key_eq_congr q k e.1.key h)
      (ap (λ n. bit (key_eq k e.1.key) + n) (count_key_congr q k es h))

pub find_entry_congr :
    (q k : Key) (es : Entries) → key_eq q k ≡ true → find_entry q es ≡ find_entry k es
unfolding find_entry
find_entry_congr q k [] h = refl
find_entry_congr q k (e ∷ es) h = rw (key_eq_congr q k e.1.key h) (
    ap (λ (r : Option (ℕ × Bucket)). if key_eq k e.1.key then some e else r)
      (find_entry_congr q k es h))

pub absent_count : (k : Key) (es : Entries) → find_entry k es ≡ none → count_key k es ≡ 0
unfolding find_entry count_key
absent_count k [] h = refl
absent_count k (e ∷ es) h = elim (Bool-cases (key_eq k e.1.key)) [
  | inl t ↦ absurd (some_not_none e (rw t at h))
  | inr f ↦ let rest = absent_count k es (rw f at h) in rw f (omega (arith, rest))
]

found_last :
    (q : Key) (es : Entries) (e : ℕ × Bucket)
    → key_eq q e.1.key ≡ true
    → find_entry q es ≡ none
    → find_entry q (es ++ e ∷ []) ≡ some e
unfolding find_entry
found_last q [] e t h = rw t refl
found_last q (d ∷ es) e t h = elim (Bool-cases (key_eq q d.1.key)) [
  | inl u ↦ absurd (some_not_none d (rw u at h))
  | inr u ↦ rw u (found_last q es e t (rw u at h))
]

skipped_last :
    (q : Key) (es : Entries) (e : ℕ × Bucket)
    → key_eq q e.1.key ≡ false
    → find_entry q (es ++ e ∷ []) ≡ find_entry q es
unfolding find_entry
skipped_last q [] e f = rw f refl
skipped_last q (d ∷ es) e f =
    ap (λ (r : Option (ℕ × Bucket)). if key_eq q d.1.key then some d else r) (skipped_last q es e f)

-- A new key behind the others is found, and the others as before.
pub find_entry-append :
    (q : Key) (es : Entries) (e : ℕ × Bucket)
    → find_entry e.1.key es ≡ none
    → find_entry q (es ++ e ∷ []) ≡ (if key_eq q e.1.key then some e else find_entry q es)
find_entry-append q es e absent = elim (Bool-cases (key_eq q e.1.key)) [
  | inl t ↦ rw t (found_last q es e t (find_entry_congr q e.1.key es t ∙ absent))
  | inr f ↦ rw f (skipped_last q es e f)
]
