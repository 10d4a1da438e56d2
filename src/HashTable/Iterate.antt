-- ===== src/HashTable/Iterate.antt =====
-- The iterators of src/components/general/hashtable.c.
use saffire.Prelude.{
  ℕ, suc, ◌+◌, ◌≤◌, ◌≡◌, refl, sym, ap, ◌∙◌, subst, true, false, Option, some, List, [], ◌∷◌, ◌++◌,
  arith, ◌==◌, ok, All, length, map, append_assoc,
}
use saffire.HashTable.{Key, Bucket, Table}
use saffire.HashTable.Operations.{
  head, next_element, ht_iter_init, ht_iter_valid, ht_iter_next, ht_iter_key, ht_iter_value,
  iterate,
}
use saffire.HashTable.Entries.{Entries, addresses, count}
use saffire.HashTable.Holds.{IsEntry, Holds, bucket_at_lem}
use saffire.HashTable.Appending.{addresses-append, count-append}

abbrev pub seen : ℕ × Bucket → Option Key × Option ℕ
seen e = (some e.1.key, some e.1.value)

next_element-append :
    (a : ℕ) (xs ys : List ℕ) → count a (xs ++ a ∷ ys) ≤ 1 → next_element (xs ++ a ∷ ys) a ≡ head ys
unfolding next_element count
next_element-append a [] ys one = let self : (a == a) ≡ true = ground arith in rw self refl
next_element-append a (x ∷ xs) ys one =
    let rest : count a (xs ++ a ∷ ys) ≡ count a xs + count a (a ∷ ys) =
      count-append a xs (a ∷ ys) in
    let other : (x == a) ≡ false = ground (arith, one, rest) in
    rw other (next_element-append a xs ys (omega (arith, one)))

iterate_step :
    (n : ℕ) (t : Table) (a : ℕ) (b : Bucket) (it : Option ℕ) (l : List (Option Key × Option ℕ))
    → t.cells a ≡ some b
    → next_element t.elements a ≡ it
    → iterate n t it ≡ ok l
    → iterate (suc n) t (some a) ≡ ok ((some b.key, some b.value) ∷ l)
unfolding iterate ht_iter_valid ht_iter_next ht_iter_key ht_iter_value
iterate_step n t a b it l at next rest = rw (bucket_at_lem t a b at) (rw next (rw rest refl))

iterate_from :
    (kd : ℕ) (t : Table) (before es : Entries)
    → Holds kd t (before ++ es)
    → All (IsEntry kd t) es
    → iterate (suc (length es)) t (head (addresses es)) ≡ ok (map seen es)
unfolding iterate head ht_iter_valid
iterate_from kd t before [] h all = refl
iterate_from kd t before (e ∷ es) h all =
    let where_it_is = addresses-append before (e ∷ es) in
    let next : next_element t.elements e.0 ≡ head (addresses es) =
      ap (λ l. next_element l e.0) (h.elements ∙ where_it_is)
      ∙ next_element-append e.0 (addresses before) (addresses es)
          (subst (λ (l : List ℕ). count e.0 l ≤ 1) where_it_is (h.apart e.0)) in
    iterate_step (suc (length es)) t e.0 e.1 (head (addresses es)) (map seen es) all.0.0 next (
      iterate_from kd t (before ++ e ∷ []) es
        (subst (Holds kd t) (sym (append_assoc before (e ∷ []) es)) h) all.1)

-- Iterating over a table that holds entries from its start, with one round more than there are
-- entries, gives the key and the value of each of them in their order and ends.
pub iterate-Holds :
    (kd : ℕ) (t : Table) (es : Entries)
    → Holds kd t es
    → iterate (suc (length es)) t (ht_iter_init t) ≡ ok (map seen es)
unfolding ht_iter_init
iterate-Holds kd t es h =
    ap (λ l. iterate (suc (length es)) t (head l)) h.elements ∙ iterate_from kd t [] es h h.entries
