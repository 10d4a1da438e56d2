-- ===== src/HashTable/Erasing.antt =====
-- Entries without that of a key, for src/components/general/hash/chained.c.
use saffire.Prelude.{
  ℕ, suc, ◌+◌, ◌%◌, ◌≤◌, ◌<◌, ◌≡◌, ◌≢◌, refl, sym, ap, ◌∙◌, subst, true, false, ◌&&◌, Option, none,
  some, List, [], ◌∷◌, arith, ◌==◌, if◌then◌else◌, All, length, Bool-cases, Option-cases, inl, inr,
}
use mathlib.Core.Option.{some-injective}
use saffire.HashTable.{Key, Bucket}
use saffire.HashTable.Chained.{unlink}
use saffire.HashTable.Entries.{
  Entries, key_eq, find_entry, addresses, bit, count, count_key, count_in, some_not_none,
}
use saffire.HashTable.Appending.{key_eq_congr, key_eq_symm, find_entry_congr}

unfoldable pub erase_key : Key → Entries → Entries
erase_key k [] = []
erase_key k (e ∷ es) = if key_eq k e.1.key then es else e ∷ erase_key k es

-- Induction on the place of the entry that is found.
pub by_place {ℓ} :
    (k : Key) (z : ℕ × Bucket) (P : Entries → Entries → Type ℓ)
    → ((es : Entries) → key_eq k z.1.key ≡ true → P (z ∷ es) es)
    → ((e : ℕ × Bucket) (es : Entries)
        → key_eq k e.1.key ≡ false
        → find_entry k es ≡ some z
        → P es (erase_key k es)
        → P (e ∷ es) (e ∷ erase_key k es))
    → (es : Entries) → find_entry k es ≡ some z
    → P es (erase_key k es)
unfolding find_entry erase_key
by_place k z P here later [] h = cc
by_place k z P here later (e ∷ es) h = elim (Bool-cases (key_eq k e.1.key)) [
  | inl t ↦
      let first : some e ≡ some z = rw t at h in
      let same = some-injective e z first in
      rw t (
        subst (λ (d : ℕ × Bucket). P (d ∷ es) es) (sym same)
          (here es (subst (λ (d : ℕ × Bucket). key_eq k d.1.key ≡ true) same t)))
  | inr f ↦
      let rest : find_entry k es ≡ some z = rw f at h in
      rw f (later e es f rest (by_place k z P here later es rest))
]

pub count-unlink :
    (a x : ℕ) (c : List ℕ) → 0 < count a c → count x (unlink a c) + bit (a == x) ≡ count x c
unfolding unlink count
count-unlink a x [] h = absurd (omega (arith, h))
count-unlink a x (y ∷ c) h = elim (Bool-cases (y == a)) [
  | inl e ↦ let same : y ≡ a = ground arith in rw e (rw same (omega arith))
  | inr e ↦
      let there : 1 ≤ bit false + count a c = rw e at h in
      rw e (omega (arith, count-unlink a x c (omega (arith, there))))
]

module _ (k : Key) (z : ℕ × Bucket) where
  pub length-erase_key :
      (es : Entries) → find_entry k es ≡ some z → length es ≡ suc (length (erase_key k es))
  length-erase_key =
      by_place k z (λ es fs. length es ≡ suc (length fs)) (λ es t. refl)
        (λ e es f found ih. ap suc ih)

  pub All-erase_key {κ} :
      (P : ℕ × Bucket → Type κ) (es : Entries)
      → find_entry k es ≡ some z
      → All P es
      → All P (erase_key k es)
  All-erase_key P =
      by_place k z (λ es fs. All P es → All P fs) (λ es t all. all.1)
        (λ e es f found ih all. (all.0, ih all.1))

  -- The address that is found is counted, and is erased from the addresses.
  pub found_counted : (es : Entries) → find_entry k es ≡ some z → 0 < count z.0 (addresses es)
  unfolding count
  found_counted =
      by_place k z (λ es fs. 0 < count z.0 (addresses es)) (λ es t. ground arith)
        (λ e es f found ih. omega (arith, ih))

  pub addresses-erase_key :
      (es : Entries)
      → find_entry k es ≡ some z
      → count z.0 (addresses es) ≤ 1
      → unlink z.0 (addresses es) ≡ addresses (erase_key k es)
  unfolding unlink count
  addresses-erase_key =
      by_place k z
        (λ es fs. count z.0 (addresses es) ≤ 1 → unlink z.0 (addresses es) ≡ addresses fs)
        (λ es t one. let self : (z.0 == z.0) ≡ true = ground arith in rw self refl)
        (λ e es f found ih one.
          let there = found_counted es found in
          let other : (e.0 == z.0) ≡ false = ground (arith, there, one) in
          rw other (ap (λ l. e.0 ∷ l) (ih (omega (arith, one)))))

  pub count_in-erase_key :
      (n j x : ℕ) (es : Entries)
      → find_entry k es ≡ some z
      → count_in n j x (erase_key k es) + bit (z.0 == x && (z.1.hash % n == j)) ≡ count_in n j x es
  unfolding count_in
  count_in-erase_key n j x =
      by_place k z
        (λ es fs. count_in n j x fs + bit (z.0 == x && (z.1.hash % n == j)) ≡ count_in n j x es)
        (λ es t. omega arith) (λ e es f found ih. omega (arith, ih))

  pub count_key-erase_key :
      (q : Key) (es : Entries)
      → find_entry k es ≡ some z
      → count_key q (erase_key k es) ≤ count_key q es
  unfolding count_key
  count_key-erase_key q =
      by_place k z (λ es fs. count_key q fs ≤ count_key q es) (λ es t. omega arith)
        (λ e es f found ih. omega (arith, ih))

  pub count-addresses-erase_key :
      (x : ℕ) (es : Entries)
      → find_entry k es ≡ some z
      → count x (addresses (erase_key k es)) ≤ count x (addresses es)
  unfolding count
  count-addresses-erase_key x =
      by_place k z (λ es fs. count x (addresses fs) ≤ count x (addresses es)) (λ es t. omega arith)
        (λ e es f found ih. omega (arith, ih))

  -- No entry that stays has the address.
  pub erased_address :
      (es : Entries)
      → find_entry k es ≡ some z
      → count z.0 (addresses es) ≤ 1
      → All (λ (e : ℕ × Bucket). e.0 ≢ z.0) (erase_key k es)
  unfolding count
  erased_address =
      by_place k z (λ es fs. count z.0 (addresses es) ≤ 1 → All (λ (e : ℕ × Bucket). e.0 ≢ z.0) fs)
        (λ es t one. no_others es (ground (arith, one)))
        (λ e es f found ih one.
          let there = found_counted es found in
          (ground (arith, there, one), ih (omega (arith, one))))
    where
      no_others :
          (es : Entries) → count z.0 (addresses es) ≡ 0 → All (λ (e : ℕ × Bucket). e.0 ≢ z.0) es
      no_others [] h = tt
      no_others (e ∷ es) h = (ground (arith, h), no_others es (omega (arith, h)))

counted_none : (q : Key) (es : Entries) → count_key q es ≡ 0 → find_entry q es ≡ none
unfolding count_key find_entry
counted_none q [] h = refl
counted_none q (e ∷ es) h = elim (Bool-cases (key_eq q e.1.key)) [
  | inl t ↦ let one : bit true + count_key q es ≡ 0 = rw t at h in absurd (omega (arith, one))
  | inr f ↦
      let rest : bit false + count_key q es ≡ 0 = rw f at h in
      rw f (counted_none q es (omega (arith, rest)))
]

erased_key :
    (k : Key) (z : ℕ × Bucket) (es : Entries)
    → find_entry k es ≡ some z
    → count_key k es ≤ 1
    → count_key k (erase_key k es) ≡ 0
unfolding count_key
erased_key k z =
    by_place k z (λ es fs. count_key k es ≤ 1 → count_key k fs ≡ 0)
      (λ es t one. let all : bit true + count_key k es ≤ 1 = rw t at one in omega (arith, all))
      (λ e es f found ih one. rw f (omega (arith, ih (omega (arith, one)))))

other_key :
    (k q : Key) (z : ℕ × Bucket) (es : Entries)
    → key_eq q k ≡ false
    → find_entry k es ≡ some z
    → find_entry q (erase_key k es) ≡ find_entry q es
unfolding find_entry
other_key k q z es differ =
    by_place k z (λ es fs. find_entry q fs ≡ find_entry q es)
      (λ es t.
        let other : key_eq q z.1.key ≡ false =
          key_eq_symm q z.1.key ∙ sym (key_eq_congr k z.1.key q t) ∙ key_eq_symm k q ∙ differ in
        rw other refl)
      (λ e es f found ih.
        ap (λ (r : Option (ℕ × Bucket)). if key_eq q e.1.key then some e else r) ih)
      es

pub erase_absent : (k : Key) (es : Entries) → find_entry k es ≡ none → erase_key k es ≡ es
unfolding erase_key find_entry
erase_absent k [] h = refl
erase_absent k (e ∷ es) h = elim (Bool-cases (key_eq k e.1.key)) [
  | inl t ↦ absurd (some_not_none e (rw t at h))
  | inr f ↦ rw f (ap (λ l. e ∷ l) (erase_absent k es (rw f at h)))
]

-- The key that is erased is not found any more, and the others as before.
pub find_entry-erase_key :
    (k q : Key) (es : Entries)
    → count_key k es ≤ 1
    → find_entry q (erase_key k es) ≡ (if key_eq q k then none else find_entry q es)
find_entry-erase_key k q es one = elim (Bool-cases (key_eq q k)) [
  | inl t ↦ rw t (find_entry_congr q k (erase_key k es) t ∙ erased k es one)
  | inr f ↦ rw f (others k q es f)
]
  where
    erased : (k : Key) (es : Entries) → count_key k es ≤ 1 → find_entry k (erase_key k es) ≡ none
    erased k es one = elim (Option-cases (find_entry k es)) [
      | inl e ↦ ap (find_entry k) (erase_absent k es e) ∙ e
      | inr (z, e) ↦ counted_none k (erase_key k es) (erased_key k z es e one)
    ]

    others :
        (k q : Key) (es : Entries)
        → key_eq q k ≡ false
        → find_entry q (erase_key k es) ≡ find_entry q es
    others k q es f = elim (Option-cases (find_entry k es)) [
      | inl e ↦ ap (find_entry q) (erase_absent k es e)
      | inr (z, e) ↦ other_key k q z es f e
    ]
