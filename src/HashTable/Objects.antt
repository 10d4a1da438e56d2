-- ===== src/HashTable/Objects.antt =====
-- `chf_remove` of src/components/general/hash/chained.c at keys that are objects.
use saffire.Prelude.{
  ℕ, ◌%◌, ◌<◌, ◌≡◌, refl, sym, ap, ◌∙◌, subst, not, none, some, List, [], ◌∷◌, arith, ok, length,
}
use saffire.HashTable.{Key, str_key, num_key, obj_key, Bucket, Table}
use saffire.HashTable.Functions.{ht_hash}
use saffire.HashTable.Chained.{remove_matches, chf_remove}
use saffire.HashTable.Entries.{
  Entries, kind, key_eq, find_entry, count, count_in, ht_hash-key_eq, find_entry-some,
}
use saffire.HashTable.Holds.{chain_of, Holds, home_chain, search_miss}

remove_matches_object :
    (k j : Key) → kind k ≡ 2 → kind j ≡ 2 → remove_matches k j ≡ ok (not (key_eq k j))
unfolding remove_matches key_eq kind
remove_matches_object (obj_key o s) (obj_key p t) h n = refl
remove_matches_object (obj_key o s) (str_key t) h n = absurd (omega (arith, n))
remove_matches_object (obj_key o s) (num_key m) h n = absurd (omega (arith, n))
remove_matches_object (str_key s) j h n = absurd (omega (arith, h))
remove_matches_object (num_key i) j h n = absurd (omega (arith, h))

only_one : (x a : ℕ) → 0 < count x (a ∷ []) → x ≡ a
unfolding count
only_one x a h = ground (arith, h)

-- An object that is a key of the table, and whose bucket has its chain for itself, is not removed:
-- `chf_remove` gives `NULL` and leaves the table as it is.
pub chf_remove_object :
    (t : Table) (es : Entries) (k : Key) (z : ℕ × Bucket) (a : ℕ)
    → Holds 2 t es
    → kind k ≡ 2
    → find_entry k es ≡ some z
    → chain_of t.bucket_list (ht_hash k % length t.bucket_list) ≡ a ∷ []
    → chf_remove t k ≡ ok (t, none)
unfolding chf_remove
chf_remove_object t es k z a h object found alone =
    let n = length t.bucket_list in
    let i = ht_hash k % n in
    let (entry, same, counted, _) = find_entry-some _ n k es z h.entries (h.keys k) found in
    let here : z.1.hash % n ≡ i = ap (λ x. x % n) (entry.1 ∙ sym (ht_hash-key_eq k z.1.key same)) in
    let there : 0 < count z.0 (chain_of t.bucket_list i) =
      subst (λ (m : ℕ). 0 < m) (sym (h.chained i z.0))
        (subst (λ (j : ℕ). 0 < count_in n j z.0 es) here counted) in
    let at : z.0 ≡ a = only_one z.0 a (subst (λ (c : List ℕ). 0 < count z.0 c) alone there) in
    let miss = search_miss remove_matches t k (a ∷ []) (
      (
        z.1,
        ap t.cells (sym at) ∙ entry.0,
        remove_matches_object k z.1.key object entry.2 ∙ ap (λ b. ok (not b)) same,
      ),
      tt,
    ) in
    rw (home_chain 2 t es (ht_hash k) h) (rw alone (rw miss refl))
