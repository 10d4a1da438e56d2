-- ===== src/HashTable/Resize.antt =====
-- `chf_resize` of src/components/general/hash/chained.c.
use saffire.Prelude.{
  ℕ, zero, suc, ◌+◌, ◌%◌, ◌<◌, ◌≡◌, refl, sym, ◌∙◌, subst, false, ◌&&◌, List, [], ◌∷◌, arith, ◌==◌,
  if◌then◌else◌, ok, All, length, length-set, length-replicate, set, replicate, Bool-cases, inl,
  inr,
}
use saffire.HashTable.{Key, Table}
use saffire.HashTable.Chained.{place_bucket, rehash, chf_resize, chf_find}
use saffire.HashTable.Entries.{Entries, kind, addresses, bit, count, count_in}
use saffire.HashTable.Holds.{
  chain_of, IsEntry, Holds, chain_at-chain_of, bucket_at_lem, chf_find-Holds,
}

pub chain_of-set :
    (l : List (List ℕ)) (j : ℕ) (c : List ℕ) (i : ℕ)
    → j < length l
    → chain_of (set l j c) i ≡ (if j == i then c else chain_of l i)
chain_of-set [] j c i h = absurd (omega (arith, h))
chain_of-set (x ∷ l) zero c zero h = refl
chain_of-set (x ∷ l) zero c (suc i) h = ground arith
chain_of-set (x ∷ l) (suc j) c zero h = ground arith
chain_of-set (x ∷ l) (suc j) c (suc i) h = chain_of-set l j c i (omega (arith, h)) ∙ same j i _ _
  where
    same : (j i : ℕ) (c d : List ℕ) → (if j == i then c else d) ≡ (if suc j == suc i then c else d)
    same j i c d = ground arith

pub chain_of-replicate : (n i : ℕ) → chain_of (replicate n []) i ≡ []
chain_of-replicate zero i = refl
chain_of-replicate (suc n) zero = refl
chain_of-replicate (suc n) (suc i) = chain_of-replicate n i

-- Placing a bucket adds it to the count of its chain.
abbrev pub Placed : List (List ℕ) → ℕ → ℕ → List (List ℕ) → Type 0
Placed l hash a l' =
    (length l' ≡ length l)
    × ((i x : ℕ)
        → count x (chain_of l' i) ≡ count x (chain_of l i) + bit (a == x && (hash % length l == i)))

pub place_bucket_lem :
    (l : List (List ℕ)) (hash a : ℕ)
    → 0 < length l
    → (l' : List (List ℕ)) × (place_bucket l hash a ≡ ok l') × Placed l hash a l'
unfolding place_bucket count
place_bucket_lem l hash a h =
    let j = hash % length l in
    let below : hash % length l < length l = omega (arith, h) in
    (
      set l j (a ∷ chain_of l j),
      rw (chain_at-chain_of l j below) refl,
      (length-set l j _, λ i x. rw (chain_of-set l j (a ∷ chain_of l j) i below) (counts i x)),
    )
  where
    counts :
        (i x : ℕ)
        → count x (if hash % length l == i then a ∷ chain_of l (hash % length l) else chain_of l i)
          ≡ count x (chain_of l i) + bit (a == x && (hash % length l == i))
    counts i x = elim (Bool-cases (hash % length l == i)) [
      | inl e ↦ let same : hash % length l ≡ i = ground arith in rw e (rw same (ground arith))
      | inr e ↦ rw e (ground arith)
    ]

-- All entries are placed.
pub rehash_lem :
    (kd : ℕ) (t : Table) (es : Entries) (l : List (List ℕ))
    → All (IsEntry kd t) es
    → 0 < length l
    → (l' : List (List ℕ)) × (rehash t (addresses es) l ≡ ok l')
      × (length l' ≡ length l)
      × ((i x : ℕ) → count x (chain_of l' i) ≡ count x (chain_of l i) + count_in (length l) i x es)
unfolding rehash count_in
rehash_lem kd t [] l all h = (l, refl, refl, λ i x. omega arith)
rehash_lem kd t ((a, b) ∷ es) l all h =
    let (l₁, placing, (same, placed)) = place_bucket_lem l b.hash a h in
    let (l₂, run, same', counts) = rehash_lem kd t es l₁ all.1 (omega (arith, h, same)) in
    (
      l₂,
      rw (bucket_at_lem t a b all.0.0) (rw placing run),
      same' ∙ same,
      λ i x.
          let rest : count x (chain_of l₂ i)
              ≡ count x (chain_of l₁ i) + count_in (length l) i x es =
            subst (λ (n : ℕ). count x (chain_of l₂ i) ≡ count x (chain_of l₁ i) + count_in n i x es)
              same (counts i x) in
          omega (arith, rest, placed i x),
    )

pub initial_chains : (n : ℕ) (i x : ℕ) → count x (chain_of (replicate n []) i) ≡ 0
unfolding count
initial_chains n i x = rw (chain_of-replicate n i) refl

resize_run :
    (t : Table) (n : ℕ) (l : List (List ℕ))
    → 0 < length t.bucket_list
    → rehash t t.elements (replicate n []) ≡ ok l
    → chf_resize t n ≡ ok (record t { bucket_list = l })
unfolding chf_resize
resize_run t n l h run =
    let wide : (length t.bucket_list == 0) ≡ false = ground (arith, h) in rw wide (rw run refl)

-- A table with more or fewer buckets holds the same entries.
pub chf_resize-Holds :
    (kd : ℕ) (t : Table) (es : Entries) (n : ℕ)
    → Holds kd t es
    → 0 < n
    → (t' : Table) × (chf_resize t n ≡ ok t') × (length t'.bucket_list ≡ n) × Holds kd t' es
chf_resize-Holds kd t es n h pos =
    let new = replicate n [] in
    let long = length-replicate {A = List ℕ} n [] in
    let (l, run, same, counts) = rehash_lem kd t es new h.entries (omega (arith, pos, long)) in
    (
      record t { bucket_list = l },
      resize_run t n l h.width (subst (λ (c : List ℕ). rehash t c new ≡ ok l) (sym h.elements) run),
      same ∙ long,
      record {
        elements = h.elements;
        counted = h.counted;
        width = omega (arith, pos, same, long);
        factor = h.factor;
        entries = h.entries;
        apart = h.apart;
        keys = h.keys;
        chained = λ i x.
            subst (λ (m : ℕ). count x (chain_of l i) ≡ count_in m i x es) (sym same)
              (omega (arith, counts i x, initial_chains n i x));
      },
    )

-- Resizing a table that holds entries to any other number of buckets than zero returns, and every
-- key of the table's kind is then found with the value it was found with before.
pub chf_find-chf_resize :
    (kd : ℕ) (t : Table) (es : Entries) (n : ℕ)
    → Holds kd t es
    → 0 < n
    → (t' : Table) × (chf_resize t n ≡ ok t')
      × ((k : Key) → kind k ≡ kd → chf_find t' k ≡ chf_find t k)
chf_find-chf_resize kd t es n h pos =
    let (t', run, _, h') = chf_resize-Holds kd t es n h pos in
    (t', run, λ k same. chf_find-Holds kd t' es k h' same ∙ sym (chf_find-Holds kd t es k h same))
