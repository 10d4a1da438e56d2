-- ===== src/HashTable/Holds.antt =====
-- What a hash table of src/components/general/hash/chained.c holds, and finding a key in it.
use saffire.Prelude.{
  ℕ, zero, suc, ◌%◌, ◌^◌, ◌≤◌, ◌<◌, ◌≡◌, ◌≢◌, refl, sym, ap, ◌∙◌, subst, Bool, true, false, Option,
  none, some, List, [], ◌∷◌, arith, ◌==◌, if◌then◌else◌, ok, All, Run, length, get_elem?,
  Bool-cases, Option-cases, inl, inr,
}
use saffire.HashTable.{Key, Bucket, Table, bucket_at}
use saffire.HashTable.Functions.{ht_hash}
use saffire.HashTable.Chained.{
  chain_at, find_matches, search_chain, find_bucket, chf_find, chf_exists,
}
use saffire.HashTable.Entries.{
  Entries, kind, key_eq, find_entry, value_of, address_of, addresses, count, count_key, count_in,
  All-and, find_matches-key_eq, ht_hash-key_eq, locate, find_entry-none, find_entry-some,
}

abbrev pub chain_of : List (List ℕ) → ℕ → List ℕ
chain_of l i = elim (get_elem? l i) [ none ↦ [] | some c ↦ c ]

-- An entry as the heap of the table has it.
abbrev pub IsEntry : ℕ → Table → ℕ × Bucket → Type 0
IsEntry kd t e =
    (t.cells e.0 ≡ some e.1) × (e.1.hash ≡ ht_hash e.1.key) × (kind e.1.key ≡ kd) × (e.0 < t.fresh)

-- The entries belong to their chains, and nothing else does.
abbrev pub IsChained : List (List ℕ) → Entries → Type 0
IsChained l es = (i a : ℕ) → count a (chain_of l i) ≡ count_in (length l) i a es

-- The table has the entries `es`, in this order, with keys of one kind that all differ.
pub record Holds (kd : ℕ) (t : Table) (es : Entries) : Type 0 where
  pub elements : t.elements ≡ addresses es
  pub counted : t.element_count ≡ length es % 2 ^ 32
  pub width : 0 < length t.bucket_list
  pub factor : (0 < t.resize_factor.under) × (t.resize_factor.under ≤ t.resize_factor.over)
  pub entries : All (IsEntry kd t) es
  pub apart : (a : ℕ) → count a (addresses es) ≤ 1
  pub keys : (k : Key) → count_key k es ≤ 1
  pub chained : IsChained t.bucket_list es

pub chain_at-chain_of :
    (l : List (List ℕ)) (i : ℕ) → i < length l → chain_at l i ≡ ok (chain_of l i)
unfolding chain_at
chain_at-chain_of [] i h = absurd (omega (arith, h))
chain_at-chain_of (c ∷ l) zero h = refl
chain_at-chain_of (c ∷ l) (suc i) h = chain_at-chain_of l i (omega (arith, h))

pub bucket_at_lem : (t : Table) (a : ℕ) (b : Bucket) → t.cells a ≡ some b → bucket_at t a ≡ ok b
unfolding bucket_at
bucket_at_lem t a b h = rw (h, bucket_at)

-- What is shown of all that stand in a chain.
pub All-count {κ} : (P : ℕ → Type κ) (c : List ℕ) → ((a : ℕ) → 0 < count a c → P a) → All P c
unfolding count
All-count P [] f = tt
All-count P (x ∷ c) f = (f x (ground arith), All-count P c (λ a h. f a (omega (arith, h))))

module _ (fits : Key → Key → Run Bool) (t : Table) (k : Key) where
  -- The bucket at an address is compared, with this result.
  abbrev pub Compares : Bool → ℕ → Type 0
  Compares v a = (b : Bucket) × (t.cells a ≡ some b) × (fits k b.key ≡ ok v)

  search_step :
      (v : Bool) (a : ℕ) (c : List ℕ)
      → Compares v a
      → search_chain fits t k (a ∷ c) ≡ (if v then ok (some a) else search_chain fits t k c)
  unfolding search_chain
  search_step v a c (b, at, e) = rw (bucket_at_lem t a b at) (rw e refl)

  pub search_miss : (c : List ℕ) → All (Compares false) c → search_chain fits t k c ≡ ok none
  unfolding search_chain
  search_miss [] h = refl
  search_miss (a ∷ c) h = search_step false a c h.0 ∙ search_miss c h.1

  pub search_hit :
      (z : ℕ) (c : List ℕ)
      → 0 < count z c
      → Compares true z
      → All (λ a. a ≢ z → Compares false a) c
      → search_chain fits t k c ≡ ok (some z)
  unfolding count
  search_hit z [] h hit others = absurd (omega (arith, h))
  search_hit z (a ∷ c) h hit others = elim (Bool-cases (a == z)) [
    | inl same ↦ let e : a ≡ z = ground arith in rw e (search_step true z c hit)
    | inr other ↦
        let ne : a ≢ z = ground arith in
        search_step false a c (others.0 ne) ∙ search_hit z c (ground (arith, h)) hit others.1
  ]

module _ (kd : ℕ) (t : Table) (k : Key) (i : ℕ) (fits : Key → Key → Run Bool)
    (fitting : (j : Key) → kind j ≡ kd → fits k j ≡ ok (key_eq k j)) where
  -- An entry is compared by its key.
  compares :
      (v : Bool) (a : ℕ) (b : Bucket)
      → IsEntry kd t (a, b)
      → key_eq k b.key ≡ v
      → Compares fits t k v a
  compares v a b e h = (b, e.0, fitting b.key e.2 ∙ ap ok h)

  -- Searching the chain of a key finds the entry of the key, and the comparison reads no member of
  -- the union that was not written.
  pub search_chain_lem :
      (es : Entries)
      → Holds kd t es
      → i ≡ ht_hash k % length t.bucket_list
      → search_chain fits t k (chain_of t.bucket_list i) ≡ ok (address_of (find_entry k es))
  search_chain_lem es h at = elim (Option-cases (find_entry k es)) [
    | inl none_there ↦
        let all = All-and _ _ es h.entries (find_entry-none k es none_there) in
        rw none_there (
          search_miss fits t k _ (
            All-count _ _ (λ a counted.
              let (b, p, _) =
                locate _ (length t.bucket_list) i a es all
                  (subst (λ (n : ℕ). 0 < n) (h.chained i a) counted) in
              compares false a b p.0 p.1)))
    | inr (z, there) ↦
        let n = length t.bucket_list in
        let (entry, same, counted, others) =
          find_entry-some _ n k es z h.entries (h.keys k) there in
        let here : z.1.hash % n ≡ i =
          ap (λ x. x % n) (entry.1 ∙ sym (ht_hash-key_eq k z.1.key same)) ∙ sym at in
        let all = All-and _ _ es h.entries others in
        rw there (
          search_hit fits t k z.0 _
            (subst (λ (m : ℕ). 0 < m) (sym (h.chained i z.0))
              (subst (λ (j : ℕ). 0 < count_in n j z.0 es) here counted))
            (compares true z.0 z.1 entry same)
            (All-count _ _ (λ a counted ne.
              let (b, p, _) =
                locate _ n i a es all (subst (λ (n : ℕ). 0 < n) (h.chained i a) counted) in
              compares false a b p.0 (p.1 ne))))
  ]

mod_lt : (a n : ℕ) → 0 < n → a % n < n
mod_lt a n h = omega (arith, h)

pub home_chain :
    (kd : ℕ) (t : Table) (es : Entries) (x : ℕ)
    → Holds kd t es
    → chain_at t.bucket_list (x % length t.bucket_list)
      ≡ ok (chain_of t.bucket_list (x % length t.bucket_list))
home_chain kd t es x h = chain_at-chain_of t.bucket_list _ (mod_lt x _ h.width)

pub find_bucket-Holds :
    (kd : ℕ) (t : Table) (es : Entries) (k : Key)
    → Holds kd t es
    → kind k ≡ kd
    → find_bucket t k ≡ ok (address_of (find_entry k es))
unfolding find_bucket
find_bucket-Holds kd t es k h same = rw (home_chain kd t es (ht_hash k) h) (
    search_chain_lem kd t k _ find_matches (λ j e. find_matches-key_eq k j (same ∙ sym e)) es h
      refl)

-- In a table that holds entries whose keys are of one kind, looking for a key of that kind gives
-- the value of the entry with that key, and `NULL` if there is none; no member of the union of keys
-- is read that was not written, and nothing that is freed.
pub chf_find-Holds :
    (kd : ℕ) (t : Table) (es : Entries) (k : Key)
    → Holds kd t es
    → kind k ≡ kd
    → chf_find t k ≡ ok (value_of (find_entry k es))
unfolding chf_find
chf_find-Holds kd t es k h same = elim (Option-cases (find_entry k es)) [
  | inl e ↦ rw (find_bucket-Holds kd t es k h same) (rw e refl)
  | inr (z, e) ↦
      let found = find_entry-some _ (length t.bucket_list) k es z h.entries (h.keys k) e in
      rw (find_bucket-Holds kd t es k h same) (rw e (rw (bucket_at_lem t z.0 z.1 found.0.0) refl))
]

abbrev pub is_found : Option (ℕ × Bucket) → Bool
is_found none = false
is_found (some e) = true

pub chf_exists-Holds :
    (kd : ℕ) (t : Table) (es : Entries) (k : Key)
    → Holds kd t es
    → kind k ≡ kd
    → chf_exists t k ≡ ok (is_found (find_entry k es))
unfolding chf_exists
chf_exists-Holds kd t es k h same = elim (Option-cases (find_entry k es)) [
  | inl e ↦ rw (find_bucket-Holds kd t es k h same) (rw e refl)
  | inr (z, e) ↦ rw (find_bucket-Holds kd t es k h same) (rw e refl)
]
