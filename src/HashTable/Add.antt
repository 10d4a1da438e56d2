-- ===== src/HashTable/Add.antt =====
-- `chf_add` of src/components/general/hash/chained.c.
use saffire.Prelude.{
  ℕ, zero, suc, ◌+◌, ◌*◌, ◌/◌, ◌%◌, ◌^◌, ◌≤◌, ◌<◌, ◌≡◌, refl, sym, ap, ◌∙◌, Bool, true, false, ◌&&◌,
  none, List, [], ◌∷◌, ◌++◌, arith, leb, ◌==◌, ok, All, length, length-append, length-set, set,
  Bool-cases, inl, inr,
}
use saffire.HashTable.{Key, Bucket, Table, new_bucket, write_cell}
use saffire.HashTable.Functions.{ht_hash}
use saffire.HashTable.Chained.{is_full, next_count, grow, chf_add}
use saffire.HashTable.Entries.{
  Entries, kind, key_eq, find_entry, addresses, bit, count, count_key, count_in, All-append,
  All-imp,
}
use saffire.HashTable.Holds.{chain_of, IsEntry, Holds, home_chain}
use saffire.HashTable.Resize.{chain_of-set, chf_resize-Holds}
use saffire.HashTable.Appending.{
  count-append, count_key-append, count_in-append, addresses-append, count_key_congr, absent_count,
}

quotient_pos : (x u : ℕ) → 0 < u → u ≤ x → 0 < x / u
quotient_pos x u h k = grind arith

enough : (l o u : ℕ) → 0 < l → u ≤ o → u ≤ l * o
enough zero o u h k = absurd (omega (arith, h))
enough (suc l) o u h k = omega (arith, k)

pub next_count_pos : (kd : ℕ) (t : Table) (es : Entries) → Holds kd t es → 0 < next_count t
unfolding next_count
next_count_pos kd t es h =
    quotient_pos _ _ h.factor.0 (enough (length t.bucket_list) _ _ h.width h.factor.1)

grow-Holds :
    (kd : ℕ) (t : Table) (es : Entries)
    → Holds kd t es
    → next_count t < 2 ^ 31
    → (t' : Table) × (grow t ≡ ok t') × Holds kd t' es
unfolding grow
grow-Holds kd t es h small = elim (Bool-cases (is_full t)) [
  | inl full ↦
      let (t', run, _, h') = chf_resize-Holds kd t es (next_count t) h (next_count_pos kd t es h) in
      let fits : leb (2 ^ 31) (next_count t) ≡ false = ground (arith, small) in
      (t', rw full (rw fits run), h')
  | inr not_full ↦ (t, rw not_full refl, h)
]

-- The table before it grows.
abbrev pub Added : Table → Key → ℕ → Table
Added t k v =
    let i = ht_hash k % length t.bucket_list in
    record (new_bucket t (record { key = k; value = v; hash = ht_hash k })) {
      elements = t.elements ++ t.fresh ∷ [];
      bucket_list = set t.bucket_list i (chain_of t.bucket_list i ++ t.fresh ∷ []);
      element_count = (t.element_count + 1) % 2 ^ 32;
    }

pub fresh_count :
    (kd : ℕ) (t : Table) (es : Entries) → All (IsEntry kd t) es → count t.fresh (addresses es) ≡ 0
unfolding count
fresh_count kd t [] all = refl
fresh_count kd t (e ∷ es) all =
    let rest = fresh_count kd t es all.1 in ground (arith, all.0.3, rest)

pub last_count : (x f c : ℕ) → c ≤ 1 → (x ≡ f → c ≡ 0) → c + (bit (f == x) + 0) ≤ 1
last_count x f c h none_yet = elim (Bool-cases (f == x)) [
  | inl e ↦ let z : c ≡ 0 = none_yet (ground arith) in rw e (omega (arith, z))
  | inr e ↦ rw e (omega (arith, h))
]

last_key : (c : ℕ) (b : Bool) → c ≤ 1 → (b ≡ true → c ≡ 0) → c + (bit b + 0) ≤ 1
last_key c true h none_yet = omega (arith, none_yet refl)
last_key c false h none_yet = omega (arith, h)

chain_end :
    (l : List (List ℕ)) (hash a i x : ℕ)
    → 0 < length l
    → count x (chain_of (set l (hash % length l) (chain_of l (hash % length l) ++ a ∷ [])) i)
      ≡ count x (chain_of l i) + (bit (a == x && (hash % length l == i)) + 0)
unfolding count
chain_end l hash a i x h =
    let below : hash % length l < length l = omega (arith, h) in
    rw (chain_of-set l (hash % length l) (chain_of l (hash % length l) ++ a ∷ []) i below)
      (elim (Bool-cases (hash % length l == i)) [
        | inl e ↦
            let same : hash % length l ≡ i = ground arith in
            rw e (rw (same, count-append) (ground arith))
        | inr e ↦ rw e (ground arith)
      ])

added-IsEntry :
    (kd : ℕ) (t : Table) (k : Key) (v : ℕ) (e : ℕ × Bucket)
    → IsEntry kd t e
    → IsEntry kd (Added t k v) e
unfolding new_bucket write_cell
added-IsEntry kd t k v e h =
    let other : (e.0 == t.fresh) ≡ false = ground (arith, h.3) in
    (rw other h.0, h.1, h.2, omega (arith, h.3))

pub Added-Holds :
    (kd : ℕ) (t : Table) (es : Entries) (k : Key) (v : ℕ)
    → Holds kd t es
    → kind k ≡ kd
    → find_entry k es ≡ none
    → Holds kd (Added t k v) (es ++ (t.fresh, record { key = k; value = v; hash = ht_hash k }) ∷ [])
unfolding new_bucket write_cell count count_key count_in
Added-Holds kd t es k v h same absent =
    let b : Bucket = record { key = k; value = v; hash = ht_hash k } in
    let n = length t.bucket_list in
    let self : (t.fresh == t.fresh) ≡ true = ground arith in
    record {
      elements =
          ap (λ l. l ++ t.fresh ∷ []) h.elements ∙ sym (addresses-append es ((t.fresh, b) ∷ []));
      counted = rw length-append (omega (arith, h.counted));
      width = rw length-set h.width;
      factor = h.factor;
      entries =
          All-append _ es ((t.fresh, b) ∷ [])
            (All-imp (IsEntry kd t) _ es (added-IsEntry kd t k v) h.entries)
            ((rw self refl, refl, same, omega arith), tt);
      apart = λ x.
          rw (addresses-append, count-append)
            (last_count x t.fresh _ (h.apart x) (λ e. rw e (fresh_count kd t es h.entries)));
      keys = λ q. rw count_key-append (
          last_key _ (key_eq q k) (h.keys q)
            (λ e. count_key_congr q k es e ∙ absent_count k es absent));
      chained = λ i x.
          rw (length-set, count_in-append)
            (chain_end t.bucket_list (ht_hash k) t.fresh i x h.width
              ∙ ap (λ m. m + (bit (t.fresh == x && (ht_hash k % n == i)) + 0)) (h.chained i x));
    }

pub add_run :
    (kd : ℕ) (t t' : Table) (es : Entries) (k : Key) (v : ℕ)
    → Holds kd t es
    → grow (Added t k v) ≡ ok t'
    → chf_add t k v ≡ ok t'
unfolding chf_add
add_run kd t t' es k v h run = rw (home_chain kd t es (ht_hash k) h) run

-- Adding a key that is not there to a table that holds entries, below the size at which the number
-- of buckets no longer fits an `int`, gives a table that holds the same entries and then the new
-- one, also when it grows.
pub chf_add-Holds :
    (kd : ℕ) (t : Table) (es : Entries) (k : Key) (v : ℕ)
    → Holds kd t es
    → kind k ≡ kd
    → find_entry k es ≡ none
    → next_count t < 2 ^ 31
    → (t' : Table) × (chf_add t k v ≡ ok t')
      × Holds kd t' (es ++ (t.fresh, record { key = k; value = v; hash = ht_hash k }) ∷ [])
unfolding next_count new_bucket write_cell
chf_add-Holds kd t es k v h same absent small =
    let (t', run, h') =
      grow-Holds kd (Added t k v) _ (Added-Holds kd t es k v h same absent) (rw length-set small) in
    (t', add_run kd t t' es k v h run, h')
