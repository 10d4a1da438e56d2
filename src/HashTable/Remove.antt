-- ===== src/HashTable/Remove.antt =====
-- `chf_remove` of src/components/general/hash/chained.c.
use saffire.Prelude.{
  ℕ, ◌+◌, ◌*◌, ◌/◌, ◌-◌, ◌%◌, ◌^◌, ◌<◌, ◌≡◌, ◌≢◌, refl, sym, ap, ◌∙◌, subst, false, ◌&&◌, none,
  some, List, arith, ◌==◌, ok, length, length-set, set, Bool-cases, Option-cases, inl, inr,
}
use saffire.HashTable.{Key, str_key, num_key, obj_key, Bucket, Table, write_cell}
use saffire.HashTable.Functions.{ht_hash}
use saffire.HashTable.Chained.{remove_matches, unlink, remove_bucket, chf_remove, next_count}
use saffire.HashTable.Entries.{
  Entries, kind, key_eq, find_entry, value_of, bit, count, count_in, All-and, All-imp,
  ht_hash-key_eq, find_entry-some,
}
use saffire.HashTable.Holds.{chain_of, IsEntry, Holds, home_chain, bucket_at_lem, search_chain_lem}
use saffire.HashTable.Resize.{chain_of-set}
use saffire.HashTable.Erasing.{
  erase_key, erase_absent, count-unlink, length-erase_key, All-erase_key, addresses-erase_key,
  count_in-erase_key, count_key-erase_key, count-addresses-erase_key, erased_address,
}

pub remove_matches-key_eq :
    (k j : Key) → kind k ≡ kind j → kind k ≢ 2 → remove_matches k j ≡ ok (key_eq k j)
unfolding remove_matches key_eq kind
remove_matches-key_eq (str_key s) (str_key t) h n = refl
remove_matches-key_eq (num_key i) (num_key m) h n = refl
remove_matches-key_eq (obj_key o s) j h n = absurd (n refl)
remove_matches-key_eq (str_key s) (num_key m) h n = absurd (omega (arith, h))
remove_matches-key_eq (str_key s) (obj_key p t) h n = absurd (omega (arith, h))
remove_matches-key_eq (num_key i) (str_key t) h n = absurd (omega (arith, h))
remove_matches-key_eq (num_key i) (obj_key p t) h n = absurd (omega (arith, h))

-- The table without a bucket of chain `i`.
abbrev pub Removed : Table → ℕ → ℕ → Table
Removed t i a =
    write_cell
      (record t {
        elements = unlink a t.elements;
        bucket_list = set t.bucket_list i (unlink a (chain_of t.bucket_list i));
        element_count = (t.element_count + (2 ^ 32 - 1)) % 2 ^ 32;
      })
      a none

removed-IsEntry :
    (kd : ℕ) (t : Table) (i a : ℕ) (e : ℕ × Bucket)
    → IsEntry kd t e × (e.0 ≢ a)
    → IsEntry kd (Removed t i a) e
unfolding write_cell
removed-IsEntry kd t i a e h =
    let other : (e.0 == a) ≡ false = ground (arith, h.1) in (rw other h.0.0, h.0.1, h.0.2, h.0.3)

removed_chain :
    (l : List (List ℕ)) (i a j x : ℕ)
    → i < length l
    → 0 < count a (chain_of l i)
    → count x (chain_of (set l i (unlink a (chain_of l i))) j) + bit (a == x && (i == j))
      ≡ count x (chain_of l j)
removed_chain l i a j x below there =
    rw (chain_of-set l i (unlink a (chain_of l i)) j below) (elim (Bool-cases (i == j)) [
      | inl e ↦
          let same : i ≡ j = ground arith in
          let rest = count-unlink a x (chain_of l i) there in
          rw e (rw (← same) (ground (arith, rest)))
      | inr e ↦ rw e (ground arith)
    ])

Removed-Holds :
    (kd : ℕ) (t : Table) (es : Entries) (k : Key) (z : ℕ × Bucket)
    → Holds kd t es
    → find_entry k es ≡ some z
    → Holds kd (Removed t (ht_hash k % length t.bucket_list) z.0) (erase_key k es)
unfolding write_cell
Removed-Holds kd t es k z h found =
    let n = length t.bucket_list in
    let i = ht_hash k % length t.bucket_list in
    let a = z.0 in
    let (entry, same, counted, others) = find_entry-some _ n k es z h.entries (h.keys k) found in
    let here : z.1.hash % n ≡ i = ap (λ x. x % n) (entry.1 ∙ sym (ht_hash-key_eq k z.1.key same)) in
    let below : ht_hash k % length t.bucket_list < length t.bucket_list = omega (arith, h.width) in
    let there : 0 < count a (chain_of t.bucket_list i) =
      subst (λ (m : ℕ). 0 < m) (sym (h.chained i a))
        (subst (λ (j : ℕ). 0 < count_in n j a es) here counted) in
    let shorter = length-erase_key k z es found in
    record {
      elements = ap (unlink a) h.elements ∙ addresses-erase_key k z es found (h.apart a);
      counted = omega (arith, h.counted, shorter);
      width = rw length-set h.width;
      factor = h.factor;
      entries = All-imp _ (IsEntry kd (Removed t i a)) (erase_key k es) (removed-IsEntry kd t i a) (
          All-and _ _ (erase_key k es) (All-erase_key k z _ es found h.entries)
            (erased_address k z es found (h.apart a)));
      apart = λ x. omega (arith, h.apart x, count-addresses-erase_key k z x es found);
      keys = λ q. omega (arith, h.keys q, count_key-erase_key k z q es found);
      chained = λ j x.
          let kept =
            subst
              (λ (m : ℕ).
                count_in n j x (erase_key k es) + bit (a == x && (m == j)) ≡ count_in n j x es)
              here (count_in-erase_key k z n j x es found) in
          rw length-set
            (omega (arith, removed_chain t.bucket_list i a j x below there, kept, h.chained j x));
    }

removed_count : (t : Table) (i a : ℕ) → next_count (Removed t i a) ≡ next_count t
unfolding next_count write_cell
removed_count t i a =
    ap (λ n. n * t.resize_factor.over / t.resize_factor.under) (length-set t.bucket_list i _)

remove_run :
    (t : Table) (i a : ℕ) (b : Bucket)
    → t.cells a ≡ some b
    → remove_bucket t i (chain_of t.bucket_list i) a ≡ ok (Removed t i a, some b.value)
unfolding remove_bucket
remove_run t i a b at = rw (bucket_at_lem t a b at) refl

-- Removing a string or a number from a table that holds entries with such keys gives its value, or
-- `NULL` if it is not there, and leaves a table that holds the entries without it, in their order;
-- if it is not there, they are all of them.
pub chf_remove-Holds :
    (kd : ℕ) (t : Table) (es : Entries) (k : Key)
    → Holds kd t es
    → kind k ≡ kd
    → kd ≢ 2
    → (t' : Table) × (chf_remove t k ≡ ok (t', value_of (find_entry k es)))
      × Holds kd t' (erase_key k es)
      × (next_count t' ≡ next_count t)
unfolding chf_remove
chf_remove-Holds kd t es k h same plain =
    let i = ht_hash k % length t.bucket_list in
    let fits = λ (j : Key) (e : kind j ≡ kd).
      remove_matches-key_eq k j (same ∙ sym e) (λ two. plain (sym same ∙ two)) in
    let search = search_chain_lem kd t k i remove_matches fits es h refl in
    elim (Option-cases (find_entry k es)) [
      | inl e ↦ (
        t,
        rw (home_chain kd t es (ht_hash k) h) (rw search (rw e refl)),
        subst (Holds kd t) (sym (erase_absent k es e)) h,
        refl,
      )
      | inr (z, e) ↦
          let found = find_entry-some _ (length t.bucket_list) k es z h.entries (h.keys k) e in
          (
            Removed t i z.0,
            rw (home_chain kd t es (ht_hash k) h)
                (rw search (rw e (remove_run t i z.0 z.1 found.0.0))),
            Removed-Holds kd t es k z h e,
            removed_count t i z.0,
          )
    ]
