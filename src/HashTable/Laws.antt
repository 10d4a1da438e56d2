-- ===== src/HashTable/Laws.antt =====
-- The operations of src/components/general/hashtable.c as those of a map.
use saffire.Prelude.{
  ℕ, ◌*◌, ◌/◌, ◌^◌, ◌≤◌, ◌<◌, ◌≡◌, ◌≢◌, refl, sym, ap, ◌∙◌, subst, Bool, true, false, Option, none,
  some, [], ◌∷◌, ◌++◌, if◌then◌else◌, ok, ◌>>=◌, length, Bool-cases, Option-cases, ok-injective,
  inl, inr,
}
use saffire.HashTable.{Key, Bucket, Factor, Table}
use saffire.HashTable.Functions.{ht_hash}
use saffire.HashTable.Chained.{chf_exists, next_count, chf_replace, chf_deep_copy}
use saffire.HashTable.Operations.{own_buckets, ht_find, ht_add, ht_remove, ht_replace, add_anew}
use saffire.HashTable.Entries.{Entries, kind, key_eq, find_entry, value_of, count_key}
use saffire.HashTable.Holds.{Holds, chf_find-Holds, chf_exists-Holds, find_bucket-Holds}
use saffire.HashTable.Appending.{key_eq_refl, find_entry-append}
use saffire.HashTable.Erasing.{erase_absent, erase_key, find_entry-erase_key}
use saffire.HashTable.Add.{chf_add-Holds}
use saffire.HashTable.Remove.{chf_remove-Holds}
use saffire.HashTable.Copy.{Keeps, copies, chf_deep_copy-Holds, value_of-copies}

-- A table is copied on write only while it has something to copy.
abbrev pub CanOwn : Table → Entries → Type 0
CanOwn t [] = t.copy_on_write ≡ false
CanOwn t (e ∷ es) = Unit

-- A table that owns its buckets, with what is found in it.
abbrev Owns : ℕ → Table → (Key → Option ℕ) → Table → Type 0
Owns kd t found t' =
    (es : Entries) × Holds kd t' es
    × ((k : Key) → value_of (find_entry k es) ≡ found k)
    × (next_count t' ≡ next_count t)

own_run :
    (t : Table) (b : Bool)
    → t.copy_on_write ≡ b
    → own_buckets t ≡ (if b then chf_deep_copy t else ok t)
unfolding own_buckets
own_run t b e = ap (λ c. if c then chf_deep_copy t else ok t) e

same_count :
    (t t' : Table) → Keeps (record t { copy_on_write = false }) t' → next_count t' ≡ next_count t
unfolding next_count
same_count t t' k =
    ap (λ (f : Factor). length t'.bucket_list * f.over / f.under) k.resize_factor
    ∙ ap (λ n. n * t.resize_factor.over / t.resize_factor.under) k.bucket_count

own-Holds :
    (kd : ℕ) (t : Table) (es : Entries)
    → Holds kd t es
    → CanOwn t es
    → (t' : Table) × (own_buckets t ≡ ok t') × Owns kd t (λ k. value_of (find_entry k es)) t'
own-Holds kd t [] h own = (t, own_run t false own, ([], h, (λ k. refl), refl))
own-Holds kd t (e ∷ es) h own = elim (Bool-cases t.copy_on_write) [
  | inl c ↦
      let (t', run, h', kept) = chf_deep_copy-Holds kd t e es h in
      (
        t',
        own_run t true c ∙ run,
        (
          copies t.fresh (e ∷ es),
          h',
          (λ k. value_of-copies k t.fresh (e ∷ es)),
          same_count t t' kept,
        ),
      )
  | inr c ↦ (t, own_run t false c, (e ∷ es, h, (λ k. refl), refl))
]

-- The table holds entries, and is read as `t` is but for the key `k`.
abbrev pub Updates : ℕ → Table → Table → Key → Option ℕ → Type 0
Updates kd t t' k v =
    (es : Entries) × Holds kd t' es
    × ((q : Key) → kind q ≡ kd → ht_find t' q ≡ (if key_eq q k then ok v else ht_find t q))

value_of-if :
    (b : Bool) (o : Option (ℕ × Bucket)) (r : Option (ℕ × Bucket))
    → value_of (if b then o else r) ≡ (if b then value_of o else value_of r)
value_of-if true o r = refl
value_of-if false o r = refl

ok-if : (b : Bool) (o r : Option ℕ) → ok (if b then o else r) ≡ (if b then ok o else ok r)
ok-if true o r = refl
ok-if false o r = refl

-- What an operation on the owned buckets does to the entries is an update of the table.
updates :
    (kd : ℕ) (t t' : Table) (es es' : Entries) (k : Key) (v : Option ℕ)
    → Holds kd t es
    → Holds kd t' es'
    → ((q : Key)
        → value_of (find_entry q es') ≡ (if key_eq q k then v else value_of (find_entry q es)))
    → Updates kd t t' k v
unfolding ht_find
updates kd t t' es es' k v h h' reads = (
  es',
  h',
  λ q same.
      chf_find-Holds kd t' es' q h' same
      ∙ ap ok (reads q)
      ∙ ok-if (key_eq q k) v (value_of (find_entry q es))
      ∙ ap (λ r. if key_eq q k then ok v else r) (sym (chf_find-Holds kd t es q h same)),
)

-- A value that is missing in one view is missing in the other.
value_none : (o : Option (ℕ × Bucket)) → value_of o ≡ none → o ≡ none
value_none none h = refl
value_none (some e) h = absurd (not_none e h)
  where
    not_none : (e : ℕ × Bucket) → ¬ (some e.1.value ≡ none)
    not_none e h = cc

-- Adding a key that is not there, to a table that is not both empty and copied on write, returns,
-- below the size at which the number of buckets no longer fits an `int`: the key is found with the
-- value that was added, and every other key of the table's kind as before.
pub ht_find-ht_add :
    (kd : ℕ) (t : Table) (es : Entries) (k : Key) (v : ℕ)
    → Holds kd t es
    → CanOwn t es
    → kind k ≡ kd
    → ht_find t k ≡ ok none
    → next_count t < 2 ^ 31
    → (t' : Table) × (ht_add t k v ≡ ok t') × Updates kd t t' k (some v)
unfolding ht_add ht_find
ht_find-ht_add kd t es k v h own same absent small =
    let (t₁, run₁, (es₁, h₁, agree, count)) = own-Holds kd t es h own in
    let missing =
      value_none _ (agree k ∙ ok-injective (sym (chf_find-Holds kd t es k h same) ∙ absent)) in
    let (t₂, run₂, h₂) = chf_add-Holds kd t₁ es₁ k v h₁ same missing (rw count small) in
    let e : ℕ × Bucket = (t₁.fresh, record { key = k; value = v; hash = ht_hash k }) in
    (
      t₂,
      rw run₁ run₂,
      updates kd t t₂ es (es₁ ++ e ∷ []) k (some v) h h₂ (λ q.
          ap value_of (find_entry-append q es₁ e missing)
          ∙ value_of-if (key_eq q k) (some e) (find_entry q es₁)
          ∙ ap (λ (r : Option ℕ). if key_eq q k then some v else r) (agree q)),
    )

-- Removing a string or a number, from a table that is not both empty and copied on write, gives the
-- value it was found with, `NULL` if there was none: it is not found any more, and every other key
-- of the table's kind as before.
pub ht_find-ht_remove :
    (kd : ℕ) (t : Table) (es : Entries) (k : Key)
    → Holds kd t es
    → CanOwn t es
    → kind k ≡ kd
    → kd ≢ 2
    → (t' : Table) × (old : Option ℕ) × (ht_remove t k ≡ ok (t', old))
      × (ht_find t k ≡ ok old)
      × Updates kd t t' k none
unfolding ht_remove ht_find
ht_find-ht_remove kd t es k h own same plain =
    let (t₁, run₁, (es₁, h₁, agree, _)) = own-Holds kd t es h own in
    let (t₂, run₂, h₂, _) = chf_remove-Holds kd t₁ es₁ k h₁ same plain in
    (
      t₂,
      value_of (find_entry k es₁),
      rw run₁ run₂,
      chf_find-Holds kd t es k h same ∙ ap ok (sym (agree k)),
      updates kd t t₂ es (erase_key k es₁) k none h h₂ (λ q.
          ap value_of (find_entry-erase_key k q es₁ (h₁.keys k))
          ∙ value_of-if (key_eq q k) none (find_entry q es₁)
          ∙ ap (λ (r : Option ℕ). if key_eq q k then none else r) (agree q)),
    )

-- What a key is found with behind the entries without it.
replaced :
    (k q : Key) (es : Entries) (e : ℕ × Bucket)
    → e.1.key ≡ k
    → count_key k es ≤ 1
    → find_entry e.1.key (erase_key k es) ≡ none
    → find_entry q (erase_key k es ++ e ∷ []) ≡ (if key_eq q k then some e else find_entry q es)
replaced k q es e same one missing =
    find_entry-append q (erase_key k es) e missing
    ∙ ap (λ (j : Key). if key_eq q j then some e else find_entry q (erase_key k es)) same
    ∙ ap (λ (r : Option (ℕ × Bucket)). if key_eq q k then some e else r)
        (find_entry-erase_key k q es one)
    ∙ if_twice (key_eq q k) (some e) none (find_entry q es)
  where
    if_twice :
        (b : Bool) (x y z : Option (ℕ × Bucket))
        → (if b then x else if b then y else z) ≡ (if b then x else z)
    if_twice true x y z = refl
    if_twice false x y z = refl

erased_missing :
    (k : Key) (es : Entries) → count_key k es ≤ 1 → find_entry k (erase_key k es) ≡ none
erased_missing k es one =
    find_entry-erase_key k k es one ∙ ap (λ b. if b then none else find_entry k es) (key_eq_refl k)

-- What `ht_replace` does to a table that owns its buckets.
replace-Holds :
    (kd : ℕ) (t : Table) (es : Entries) (k : Key) (v : ℕ)
    → Holds kd t es
    → kind k ≡ kd
    → kd ≢ 2
    → next_count t < 2 ^ 31
    → (t' : Table) × (a : ℕ) × (chf_exists t k
          >>= (λ there. if there then add_anew t k v else chf_replace t k v)
        ≡ ok (t', none))
      × Holds kd t' (erase_key k es ++ (a, record { key = k; value = v; hash = ht_hash k }) ∷ [])
unfolding add_anew chf_replace
replace-Holds kd t es k v h same plain small =
    let exists = chf_exists-Holds kd t es k h same in
    elim (Option-cases (find_entry k es)) [
      | inl e ↦
          let (t', run, h') = chf_add-Holds kd t es k v h same e small in
          (
            t',
            t.fresh,
            rw exists (rw e (rw (find_bucket-Holds kd t es k h same) (rw e (rw run refl)))),
            subst
                (λ (fs : Entries).
                  Holds kd t'
                    (fs ++ (t.fresh, record { key = k; value = v; hash = ht_hash k }) ∷ []))
                (sym (erase_absent k es e)) h',
          )
      | inr (z, e) ↦
          let (t₁, run₁, h₁, count) = chf_remove-Holds kd t es k h same plain in
          let (t₂, run₂, h₂) =
            chf_add-Holds kd t₁ (erase_key k es) k v h₁ same (erased_missing k es (h.keys k))
              (rw count small) in
          (t₂, t₁.fresh, rw exists (rw e (rw run₁ (rw run₂ refl))), h₂)
    ]

-- Replacing the value of a string or a number, in a table that is not both empty and copied on
-- write, returns `NULL`, below the size at which the number of buckets no longer fits an `int`: the
-- key is then found with the new value, whether it was there or not, and every other key of the
-- table's kind as before.
pub ht_find-ht_replace :
    (kd : ℕ) (t : Table) (es : Entries) (k : Key) (v : ℕ)
    → Holds kd t es
    → CanOwn t es
    → kind k ≡ kd
    → kd ≢ 2
    → next_count t < 2 ^ 31
    → (t' : Table) × (ht_replace t k v ≡ ok (t', none)) × Updates kd t t' k (some v)
unfolding ht_replace
ht_find-ht_replace kd t es k v h own same plain small =
    let (t₁, run₁, (es₁, h₁, agree, count)) = own-Holds kd t es h own in
    let (t₂, a, run₂, h₂) = replace-Holds kd t₁ es₁ k v h₁ same plain (rw count small) in
    let e : ℕ × Bucket = (a, record { key = k; value = v; hash = ht_hash k }) in
    let missing = erased_missing k es₁ (h₁.keys k) in
    (
      t₂,
      rw run₁ run₂,
      updates kd t t₂ es (erase_key k es₁ ++ e ∷ []) k (some v) h h₂ (λ q.
          ap value_of (replaced k q es₁ e refl (h₁.keys k) missing)
          ∙ value_of-if (key_eq q k) (some e) (find_entry q es₁)
          ∙ ap (λ (r : Option ℕ). if key_eq q k then some v else r) (agree q)),
    )
