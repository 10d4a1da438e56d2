-- ===== src/HashTable/Load.antt =====
-- The load of the hash tables of src/components/general/hash/chained.c, with the factors that
-- src/components/general/hashtable.c gives them.
use saffire.Prelude.{
  ℕ, ◌+◌, ◌*◌, ◌/◌, ◌^◌, ◌≤◌, ◌<◌, ◌≡◌, refl, ap, ◌∙◌, false, none, [], ◌∷◌, ◌++◌, arith, leb, ltb,
  ok, length, length-append, length-set, length-replicate, Bool-cases, inl, inr,
}
use saffire.HashTable.{Key, Bucket, Table, Factor, new_bucket, write_cell}
use saffire.HashTable.Functions.{ht_hash}
use saffire.HashTable.Chained.{is_full, next_count, grow, chf_add, chf_resize}
use saffire.HashTable.Operations.{ht_create_custom, ht_load_factor, ht_resize_factor}
use saffire.HashTable.Entries.{Entries, kind, find_entry, count, count_in, count_key}
use saffire.HashTable.Holds.{Holds}
use saffire.HashTable.Resize.{chf_resize-Holds, initial_chains}
use saffire.HashTable.Add.{next_count_pos, Added, Added-Holds, add_run}

-- No more elements than the load factor of 1.25 allows, and at least three buckets.
abbrev pub IsLight : Table → Entries → Type 0
IsLight t es = (4 * length es ≤ 5 * length t.bucket_list) × (3 ≤ length t.bucket_list)

-- The factors of `ht_create`.
abbrev pub HasFactors : Table → Type 0
HasFactors t = (t.load_factor ≡ ht_load_factor) × (t.resize_factor ≡ ht_resize_factor)

full_lem :
    (t : Table)
    → HasFactors t
    → (is_full t ≡ ltb (5 * length t.bucket_list) (t.element_count * 4))
      × (next_count t ≡ length t.bucket_list * 7 / 4)
unfolding is_full next_count
full_lem t f = (
  ap (λ (l : Factor). ltb (l.over * length t.bucket_list) (t.element_count * l.under)) f.0,
  ap (λ (r : Factor). length t.bucket_list * r.over / r.under) f.1,
)

-- A table that is one element above the load it may have grows to one that is not.
grow-IsLight :
    (kd : ℕ) (t : Table) (es : Entries)
    → Holds kd t es
    → HasFactors t
    → 4 * length es ≤ 5 * length t.bucket_list + 4
    → 3 ≤ length t.bucket_list
    → length es < 2 ^ 32
    → length t.bucket_list < 2 ^ 30
    → (t' : Table) × (grow t ≡ ok t') × Holds kd t' es × IsLight t' es
unfolding grow
grow-IsLight kd t es h f load three few small =
    let (full, next) = full_lem t f in
    let size = h.counted in
    elim (Bool-cases (ltb (5 * length t.bucket_list) (t.element_count * 4))) [
      | inl e ↦
          let (t', run, count, h') =
            chf_resize-Holds kd t es (next_count t) h (next_count_pos kd t es h) in
          let fits : leb (2 ^ 31) (next_count t) ≡ false = ground (arith, small, next) in
          (
            t',
            rw (full ∙ e) (rw fits run),
            h',
            (omega (arith, load, three, count, next), omega (arith, three, count, next)),
          )
      | inr e ↦ (t, rw (full ∙ e) refl, h, (ground (arith, e, size, few), three))
    ]

-- A new table with the factors of `ht_create` and at least three buckets holds nothing.
pub ht_create_custom-Holds :
    (kd n : ℕ)
    → 3 ≤ n
    → (t : Table) × (ht_create_custom n ht_load_factor ht_resize_factor ≡ ok t)
      × Holds kd t []
      × HasFactors t
      × IsLight t []
unfolding ht_create_custom chf_resize count count_in count_key
ht_create_custom-Holds kd n three = (
  _,
  refl,
  record {
    elements = refl;
    counted = refl;
    width = rw length-replicate (omega (arith, three));
    factor = (omega arith, omega arith);
    entries = tt;
    apart = λ a. omega arith;
    keys = λ k. omega arith;
    chained = λ i x. initial_chains n i x;
  },
  (refl, refl),
  (omega arith, rw length-replicate three),
)

-- With the factors of `ht_create`, adding a key that is not there to a table within the load factor
-- of 1.25 that has at least three and fewer than 2 ^ 21 buckets, up to which the floats of the
-- program compare and multiply exactly, gives a table within the load factor with at least three
-- buckets.
pub chf_add-IsLight :
    (kd : ℕ) (t : Table) (es : Entries) (k : Key) (v : ℕ)
    → Holds kd t es
    → HasFactors t
    → IsLight t es
    → kind k ≡ kd
    → find_entry k es ≡ none
    → length t.bucket_list < 2 ^ 21
    → (t' : Table) × (chf_add t k v ≡ ok t')
      × IsLight t' (es ++ (t.fresh, record { key = k; value = v; hash = ht_hash k }) ∷ [])
unfolding new_bucket write_cell
chf_add-IsLight kd t es k v h f light same absent small =
    let e : ℕ × Bucket = (t.fresh, record { key = k; value = v; hash = ht_hash k }) in
    let more = length-append es (e ∷ []) in
    let (t', run, _, light') =
      grow-IsLight kd (Added t k v) (es ++ e ∷ []) (Added-Holds kd t es k v h same absent) f
        (rw length-set (omega (arith, more, light.0))) (rw length-set light.1)
        (omega (arith, more, light.0, small)) (rw length-set (omega (arith, small))) in
    (t', add_run kd t t' es k v h run, light')
