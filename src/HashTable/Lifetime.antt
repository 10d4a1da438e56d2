-- ===== src/HashTable/Lifetime.antt =====
-- The heap under `ht_copy` and `ht_destroy` of src/components/general/hashtable.c.
use saffire.Prelude.{
  ℕ, ◌≤◌, ◌<◌, ◌≡◌, refl, sym, ap, ◌∙◌, Bool, true, false, Option, none, [], ◌∷◌, arith, ok, All,
  Bool-cases, inl, inr, ◌==◌, if◌then◌else◌,
}
use saffire.HashTable.{Key, Bucket, Table, write_cell}
use saffire.HashTable.Operations.{ht_copy, ht_destroy, destroy_buckets, ht_find}
use saffire.HashTable.Entries.{Entries, kind, addresses, count}
use saffire.HashTable.Holds.{IsEntry, Holds, bucket_at_lem, chf_find-Holds}
use saffire.HashTable.Copy.{Keeps, copies, chf_deep_copy-Holds, value_of-copies}

-- The table `t` on the heap of `t'`.
abbrev pub On : Table → Table → Table
On t t' = record t { cells = t'.cells; fresh = t'.fresh }

rebase :
    (kd : ℕ) (t : Table) (c : Bool) (cells : ℕ → Option Bucket) (fresh : ℕ) (es : Entries)
    → Holds kd t es
    → All (IsEntry kd (record t { copy_on_write = c; cells = cells; fresh = fresh })) es
    → Holds kd (record t { copy_on_write = c; cells = cells; fresh = fresh }) es
rebase kd t c cells fresh es h entries = record {
  elements = h.elements;
  counted = h.counted;
  width = h.width;
  factor = h.factor;
  entries = entries;
  apart = h.apart;
  keys = h.keys;
  chained = h.chained;
}

kept_entries :
    (kd : ℕ) (t t' : Table) (es : Entries)
    → Keeps (record t { copy_on_write = false }) t'
    → All (IsEntry kd t) es
    → All (IsEntry kd (On t t')) es
kept_entries kd t t' [] k h = tt
kept_entries kd t t' (e ∷ es) k h = (
  (k.cells e.0 h.0.3 ∙ h.0.0, h.0.1, h.0.2, omega (arith, h.0.3, k.fresh)),
  kept_entries kd t t' es k h.1,
)

-- A copy made at once of a table that holds at least one entry holds buckets of its own: each key
-- of the table's kind is found in it as in the table, and the table holds on the heap that both
-- now stand on what it held.
pub ht_copy-Holds :
    (kd : ℕ) (t : Table) (e : ℕ × Bucket) (es : Entries)
    → Holds kd t (e ∷ es)
    → (copy : Table) × (ht_copy t false ≡ ok copy)
      × Holds kd copy (copies t.fresh (e ∷ es))
      × ((k : Key) → kind k ≡ kd → ht_find copy k ≡ ht_find t k)
      × Holds kd (On t copy) (e ∷ es)
unfolding ht_copy ht_find
ht_copy-Holds kd t e es h =
    let (t', run, h', kept) =
      chf_deep_copy-Holds kd (record t { copy_on_write = false }) e es
        (rebase kd t false t.cells t.fresh (e ∷ es) h h.entries) in
    (
      t',
      run,
      h',
      (λ k same.
          chf_find-Holds kd t' _ k h' same
          ∙ ap ok (value_of-copies k t.fresh (e ∷ es))
          ∙ sym (chf_find-Holds kd t (e ∷ es) k h same)),
      rebase kd t t.copy_on_write t'.cells t'.fresh (e ∷ es) h
          (kept_entries kd t t' (e ∷ es) kept h.entries),
    )

-- All buckets are freed, each once, and nothing else is.
abbrev pub Freed : Table → Entries → Table → Type 0
Freed t es t' =
    ((a : ℕ) → 0 < count a (addresses es) → t'.cells a ≡ none)
    × ((a : ℕ) → count a (addresses es) ≡ 0 → t'.cells a ≡ t.cells a)

still_entries :
    (kd : ℕ) (t : Table) (x : ℕ) (es : Entries)
    → count x (addresses es) ≡ 0
    → All (IsEntry kd t) es
    → All (IsEntry kd (write_cell t x none)) es
unfolding count write_cell
still_entries kd t x [] h all = tt
still_entries kd t x (e ∷ es) h all =
    let other : (e.0 == x) ≡ false = ground (arith, h) in
    (
      (rw other all.0.0, all.0.1, all.0.2, all.0.3),
      still_entries kd t x es (omega (arith, h)) all.1,
    )

destroy_lem :
    (kd : ℕ) (es : Entries) (t : Table)
    → All (IsEntry kd t) es
    → ((a : ℕ) → count a (addresses es) ≤ 1)
    → (t' : Table) × (destroy_buckets t (addresses es) ≡ ok t') × Freed t es t'
unfolding destroy_buckets count write_cell
destroy_lem kd [] t all apart = (t, refl, ((λ a h. absurd (omega (arith, h))), (λ a h. refl)))
destroy_lem kd ((x, b) ∷ es) t all apart =
    let self : (x == x) ≡ true = ground arith in
    let alone : count x (addresses es) ≡ 0 = ground (arith, apart x, self) in
    let (t', run, (freed, same)) =
      destroy_lem kd es (write_cell t x none) (still_entries kd t x es alone all.1)
        (λ a. omega (arith, apart a)) in
    (
      t',
      rw (bucket_at_lem t x b all.0.0) run,
      (
        (λ a h. elim (Bool-cases (a == x)) [
          | inl e ↦ let at : a ≡ x = ground arith in same a (rw at alone) ∙ rw e refl
          | inr e ↦ freed a (ground (arith, h, e))
        ]),
        (λ a h.
            let other : (a == x) ≡ false = ground (arith, h) in
            same a (omega (arith, h)) ∙ rw other refl),
      ),
    )

-- Destroying a table that is not copied on write frees the bucket of each entry, each once and
-- after its link has been read, and no other bucket.
pub ht_destroy-Freed :
    (kd : ℕ) (t : Table) (es : Entries)
    → Holds kd t es
    → t.copy_on_write ≡ false
    → (t' : Table) × (ht_destroy t ≡ ok t') × Freed t es t'
unfolding ht_destroy
ht_destroy-Freed kd t es h own =
    let (t', run, freed) = destroy_lem kd es t h.entries h.apart in
    (
      t',
      ap (λ b. if b then ok t else destroy_buckets t t.elements) own
          ∙ ap (destroy_buckets t) h.elements
          ∙ run,
      freed,
    )
