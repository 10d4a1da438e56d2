-- ===== src/HashTable/Copy.antt =====
-- `chf_deep_copy` of src/components/general/hash/chained.c.
use saffire.Prelude.{
  ℕ, suc, ◌+◌, ◌%◌, ◌≤◌, ◌<◌, ◌≡◌, refl, sym, ap, ◌∙◌, subst, true, false, some, List, [], ◌∷◌,
  ◌++◌, arith, ◌==◌, ok, All, length, length-replicate, replicate, append_assoc, append-nil,
  Bool-cases, inl, inr, ◌^◌,
}
use saffire.HashTable.{Key, Bucket, Table, Factor, new_bucket, write_cell}
use saffire.HashTable.Chained.{place_bucket, copy_buckets, chf_deep_copy}
use saffire.HashTable.Entries.{
  Entries, key_eq, find_entry, value_of, addresses, bit, count, count_key, count_in, All-append,
  All-imp,
}
use saffire.HashTable.Holds.{IsEntry, IsChained, Holds, bucket_at_lem}
use saffire.HashTable.Resize.{place_bucket_lem, initial_chains}
use saffire.HashTable.Appending.{addresses-append, count-append, count_in-append}
use saffire.HashTable.Add.{fresh_count, last_count}

-- The copies of the buckets, at the addresses that are handed out next.
unfoldable pub copies : ℕ → Entries → Entries
copies n [] = []
copies n (e ∷ es) = (n, e.1) ∷ copies (n + 1) es

-- What the loop keeps: the entries copied so far.
record HasCopied (kd : ℕ) (t : Table) (fs : Entries) : Type 0 where
  elements : t.elements ≡ addresses fs
  width : 0 < length t.bucket_list
  entries : All (IsEntry kd t) fs
  apart : (a : ℕ) → count a (addresses fs) ≤ 1
  chained : IsChained t.bucket_list fs

-- The table after one round.
abbrev Copied : Table → Bucket → List (List ℕ) → Table
Copied t b l = record (new_bucket t b) { bucket_list = l; elements = t.elements ++ t.fresh ∷ [] }

copied-IsEntry :
    (kd : ℕ) (t : Table) (b : Bucket) (l : List (List ℕ)) (e : ℕ × Bucket)
    → IsEntry kd t e
    → IsEntry kd (Copied t b l) e
unfolding new_bucket write_cell
copied-IsEntry kd t b l e h =
    let other : (e.0 == t.fresh) ≡ false = ground (arith, h.3) in
    (rw other h.0, h.1, h.2, omega (arith, h.3))

copy_step :
    (kd : ℕ) (t : Table) (fs : Entries) (a : ℕ) (b : Bucket)
    → HasCopied kd t fs
    → IsEntry kd t (a, b)
    → (l : List (List ℕ)) × (place_bucket t.bucket_list b.hash t.fresh ≡ ok l)
      × (length l ≡ length t.bucket_list)
      × HasCopied kd (Copied t b l) (fs ++ (t.fresh, b) ∷ [])
unfolding new_bucket write_cell count count_in
copy_step kd t fs a b h e =
    let (l, run, (same, placed)) = place_bucket_lem t.bucket_list b.hash t.fresh h.width in
    let self : (t.fresh == t.fresh) ≡ true = ground arith in
    (
      l,
      run,
      same,
      record {
        elements =
            ap (λ l. l ++ t.fresh ∷ []) h.elements ∙ sym (addresses-append fs ((t.fresh, b) ∷ []));
        width = omega (arith, same, h.width);
        entries =
            All-append _ fs ((t.fresh, b) ∷ [])
              (All-imp (IsEntry kd t) _ fs (copied-IsEntry kd t b l) h.entries)
              ((rw self refl, e.1, e.2, omega arith), tt);
        apart = λ x.
            rw (addresses-append, count-append)
              (last_count x t.fresh _ (h.apart x) (λ e. rw e (fresh_count kd t fs h.entries)));
        chained = λ i x. rw (same, count_in-append) (omega (arith, placed i x, h.chained i x));
      },
    )

-- What the copy has in common with the table, the buckets of which stay where they are.
pub record Keeps (t t' : Table) : Type 0 where
  pub element_count : t'.element_count ≡ t.element_count
  pub resize_factor : t'.resize_factor ≡ t.resize_factor
  pub load_factor : t'.load_factor ≡ t.load_factor
  pub copy_on_write : t'.copy_on_write ≡ t.copy_on_write
  pub bucket_count : length t'.bucket_list ≡ length t.bucket_list
  pub fresh : t.fresh ≤ t'.fresh
  pub cells : (a : ℕ) → a < t.fresh → t'.cells a ≡ t.cells a

Keeps-refl : (t : Table) → Keeps t t
Keeps-refl t = record {
  element_count = refl;
  resize_factor = refl;
  load_factor = refl;
  copy_on_write = refl;
  bucket_count = refl;
  fresh = omega arith;
  cells = λ a h. refl;
}

Keeps-step :
    (t t' : Table) (b : Bucket) (l : List (List ℕ))
    → length l ≡ length t.bucket_list
    → Keeps (Copied t b l) t'
    → Keeps t t'
unfolding new_bucket write_cell
Keeps-step t t' b l same k = record {
  element_count = k.element_count;
  resize_factor = k.resize_factor;
  load_factor = k.load_factor;
  copy_on_write = k.copy_on_write;
  bucket_count = k.bucket_count ∙ same;
  fresh = omega (arith, k.fresh);
  cells = λ a h.
      let other : (a == t.fresh) ≡ false = ground (arith, h) in
      k.cells a (omega (arith, h)) ∙ rw other refl;
}

copy_run :
    (t t' : Table) (a : ℕ) (b : Bucket) (l : List (List ℕ)) (rest : List ℕ)
    → t.cells a ≡ some b
    → place_bucket t.bucket_list b.hash t.fresh ≡ ok l
    → copy_buckets (Copied t b l) rest ≡ ok t'
    → copy_buckets t (a ∷ rest) ≡ ok t'
unfolding copy_buckets
copy_run t t' a b l rest at place run = rw (bucket_at_lem t a b at) (rw place run)

copy_loop :
    (kd : ℕ) (es : Entries) (t : Table) (fs : Entries)
    → HasCopied kd t fs
    → All (IsEntry kd t) es
    → (t' : Table) × (copy_buckets t (addresses es) ≡ ok t')
      × HasCopied kd t' (fs ++ copies t.fresh es)
      × Keeps t t'
unfolding copy_buckets copies new_bucket write_cell
copy_loop kd [] t fs h all = (t, refl, subst (HasCopied kd t) (sym (append-nil fs)) h, Keeps-refl t)
copy_loop kd ((a, b) ∷ es) t fs h all =
    let (l, place, same, h₁) = copy_step kd t fs a b h all.0 in
    let (t', run, h', kept) =
      copy_loop kd es (Copied t b l) (fs ++ (t.fresh, b) ∷ []) h₁
        (All-imp (IsEntry kd t) _ es (copied-IsEntry kd t b l) all.1) in
    (
      t',
      copy_run t t' a b l (addresses es) all.0.0 place run,
      subst (HasCopied kd t') (append_assoc fs ((t.fresh, b) ∷ []) (copies (t.fresh + 1) es)) h',
      Keeps-step t t' b l same kept,
    )

pub count_key-copies : (k : Key) (n : ℕ) (es : Entries) → count_key k (copies n es) ≡ count_key k es
unfolding copies count_key
count_key-copies k n [] = refl
count_key-copies k n (e ∷ es) = ap (λ m. bit (key_eq k e.1.key) + m) (count_key-copies k (n + 1) es)

length-copies : (n : ℕ) (es : Entries) → length (copies n es) ≡ length es
unfolding copies
length-copies n [] = refl
length-copies n (e ∷ es) = ap suc (length-copies (n + 1) es)

pub value_of-copies :
    (k : Key) (n : ℕ) (es : Entries)
    → value_of (find_entry k (copies n es)) ≡ value_of (find_entry k es)
unfolding copies find_entry
value_of-copies k n [] = refl
value_of-copies k n (e ∷ es) = elim (Bool-cases (key_eq k e.1.key)) [
  | inl t ↦ rw t refl
  | inr f ↦ rw f (value_of-copies k (n + 1) es)
]

-- The table that the loop starts from.
abbrev Cleared : Table → Table
Cleared t = record t {
  copy_on_write = false;
  bucket_list = replicate (length t.bucket_list) [];
  elements = [];
}

cleared_entries :
    (kd : ℕ) (t : Table) (es : Entries) → All (IsEntry kd t) es → All (IsEntry kd (Cleared t)) es
cleared_entries kd t [] h = tt
cleared_entries kd t (e ∷ es) h = (h.0, cleared_entries kd t es h.1)

cleared : (kd : ℕ) (t : Table) → 0 < length t.bucket_list → HasCopied kd (Cleared t) []
unfolding count_in count
cleared kd t h = record {
  elements = refl;
  width = rw length-replicate h;
  entries = tt;
  apart = λ a. omega arith;
  chained = λ i x. initial_chains (length t.bucket_list) i x;
}

deep_copy_run :
    (t t' : Table) (a : ℕ) (rest : List ℕ)
    → t.elements ≡ a ∷ rest
    → copy_buckets (Cleared t) (a ∷ rest) ≡ ok t'
    → chf_deep_copy t ≡ ok t'
unfolding chf_deep_copy
deep_copy_run t t' a rest e run = rw (e, chf_deep_copy) run

-- The deep copy of a table that holds at least one entry holds the same buckets, each at a new
-- address, is not copied on write, and leaves the buckets that were there as they are.
pub chf_deep_copy-Holds :
    (kd : ℕ) (t : Table) (e : ℕ × Bucket) (es : Entries)
    → Holds kd t (e ∷ es)
    → (t' : Table) × (chf_deep_copy t ≡ ok t')
      × Holds kd t' (copies t.fresh (e ∷ es))
      × Keeps (record t { copy_on_write = false }) t'
chf_deep_copy-Holds kd t e es h =
    let (t', run, c, kept) =
      copy_loop kd (e ∷ es) (Cleared t) [] (cleared kd t h.width)
        (cleared_entries kd t (e ∷ es) h.entries) in
    let n : length t'.bucket_list ≡ length t.bucket_list =
      kept.bucket_count ∙ length-replicate (length t.bucket_list) [] in
    (
      t',
      deep_copy_run t t' e.0 (addresses es) h.elements run,
      record {
        elements = c.elements;
        counted =
            kept.element_count
            ∙ h.counted
            ∙ ap (λ (m : ℕ). m % 2 ^ 32) (sym (length-copies t.fresh (e ∷ es)));
        width = c.width;
        factor =
            subst (λ (f : Factor). (0 < f.under) × (f.under ≤ f.over)) (sym kept.resize_factor)
              h.factor;
        entries = c.entries;
        apart = c.apart;
        keys = λ k. subst (λ (m : ℕ). m ≤ 1) (sym (count_key-copies k t.fresh (e ∷ es))) (h.keys k);
        chained = c.chained;
      },
      record {
        element_count = kept.element_count;
        resize_factor = kept.resize_factor;
        load_factor = kept.load_factor;
        copy_on_write = kept.copy_on_write;
        bucket_count = n;
        fresh = kept.fresh;
        cells = kept.cells;
      },
    )
