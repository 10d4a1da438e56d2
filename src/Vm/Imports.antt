-- ===== src/Vm/Imports.antt =====
-- The imports of src/components/vm/stackframe.c: identifiers that are set once.
use saffire.Prelude.{
  inl, inr, ℕ, zero, suc, Option-cases, eq_of_text_eq, ◌<◌, ◌≡◌, ◌≢◌, ◌==◌, refl, sym, ap, subst,
  ◌∙◌, Bool, true, false, none, some, arith, Text, text_eq, Run, ok, ◌>>=◌, get_elem?, set,
  get_elem?-set_self, get_elem?_bound, if◌then◌else◌,
}
use saffire.HashTable.{Table, Key, Bucket, str_key}
use saffire.HashTable.Operations.{ht_exists, ht_exists_str, ht_add, ht_add_str, ht_find}
use saffire.HashTable.Entries.{kind, key_eq}
use saffire.Vm.Identifiers.{
  set_once, add_missing, vm_frame_set_frame_identifier, Store, Scopes, pointer, table_at, find_in,
  or_further, vm_frame_resolve_identifier,
}
use saffire.HashTable.Laws.{ht_find-ht_add}
use saffire.HashTable.Entries.{find_entry, value_of}
use saffire.HashTable.Holds.{chf_find-Holds, chf_exists-Holds, is_found}
use saffire.Vm.Scopes.{HoldsAt, found_at, found_elsewhere, bind-if, first_of, exists-first_of}

-- What is found for an identifier, or the object where nothing is.
unfoldable pub found_or : ℕ → Run ℕ → Run ℕ
found_or obj m = m >>= (λ o. or_further o (ok obj))

not_null : (obj : ℕ) → 0 < obj → (obj == 0) ≡ false
not_null obj h = ground arith

missing_once :
    (store : Store) (i : ℕ) (id : Text) (obj : ℕ) (t t' : Table)
    → 0 < obj
    → get_elem? store i ≡ some t
    → ht_exists t (str_key id) ≡ ok false
    → ht_add t (str_key id) obj ≡ ok t'
    → set_once store i id obj ≡ ok (set store i t')
unfolding set_once table_at add_missing ht_exists_str ht_add_str
missing_once store i id obj t t' known there absent run =
    rw (there, table_at) (rw (not_null obj known) (rw absent (rw run refl)))

kept_once :
    (store : Store) (i : ℕ) (id : Text) (obj : ℕ) (t : Table)
    → 0 < obj
    → get_elem? store i ≡ some t
    → ht_exists t (str_key id) ≡ ok true
    → set_once store i id obj ≡ ok (set store i t)
unfolding set_once table_at add_missing ht_exists_str
kept_once store i id obj t known there present =
    rw (there, table_at) (rw (not_null obj known) (rw present refl))

found_or-if :
    (b : Bool) (obj : ℕ) (m : Run ℕ)
    → (b ≡ true → found_or obj m ≡ ok obj)
    → (if b then ok obj else m) ≡ (if b then found_or obj m else m)
found_or-if true obj m h = sym (h refl)
found_or-if false obj m h = refl

kept-if :
    (b : Bool) (obj : ℕ) (m : Run ℕ)
    → (b ≡ true → found_or obj m ≡ m)
    → m ≡ (if b then found_or obj m else m)
kept-if true obj m h = sym (h refl)
kept-if false obj m h = refl

found_missing :
    (store : Store) (i : ℕ) (obj : ℕ) (t : Table) (q : Text)
    → get_elem? store i ≡ some t
    → ht_find t (str_key q) ≡ ok none
    → found_or obj (find_in store i q) ≡ ok obj
unfolding found_or or_further pointer
found_missing store i obj t q there absent = rw (found_at store i t q there, absent) refl

found_present :
    (store : Store) (i : ℕ) (obj v : ℕ) (t : Table) (q : Text)
    → get_elem? store i ≡ some t
    → ht_find t (str_key q) ≡ ok (some v)
    → 0 < v
    → found_or obj (find_in store i q) ≡ find_in store i q
unfolding found_or or_further pointer
found_present store i obj v t q there present known =
    rw (found_at store i t q there, present) (ground arith)

-- What is found in a table once an identifier is set there that may be known already.
abbrev SetOnce : Store → ℕ → Text → ℕ → Type 0
SetOnce store i id obj =
    (t' : Table) × (set_once store i id obj ≡ ok (set store i t'))
    × ((q : Text)
        → find_in (set store i t') i q
          ≡ (if text_eq id q then found_or obj (find_in store i q) else find_in store i q))

once_missing :
    (store : Store) (i : ℕ) (id : Text) (obj : ℕ) (h : HoldsAt store i)
    → 0 < obj
    → find_entry (str_key id) h.entries ≡ none
    → SetOnce store i id obj
unfolding kind key_eq ht_find ht_exists
once_missing store i id obj h known e =
    let k = str_key id in
    let absent : ht_find h.table k ≡ ok none =
      chf_find-Holds 0 h.table h.entries k h.holds refl ∙ ap (λ o. ok (value_of o)) e in
    let out : ht_exists h.table k ≡ ok false =
      chf_exists-Holds 0 h.table h.entries k h.holds refl ∙ ap (λ o. ok (is_found o)) e in
    let (t', run, (es, _, reads)) =
      ht_find-ht_add 0 h.table h.entries k obj h.holds h.owns refl absent h.small in
    let at_i = get_elem?-set_self store i t' (get_elem?_bound store i h.there) in
    (
      t',
      missing_once store i id obj h.table t' known h.there out run,
      λ q.
          found_at (set store i t') i t' q at_i
          ∙ ap (λ m. m >>= (λ o. ok (pointer o))) (reads (str_key q) refl)
          ∙ bind-if (text_eq id q) obj (ht_find h.table (str_key q))
          ∙ ap (λ m. if text_eq id q then ok obj else m) (sym (found_at store i h.table q h.there))
          ∙ found_or-if (text_eq id q) obj (find_in store i q) (λ same.
            found_missing store i obj h.table q h.there (
              subst (λ x. ht_find h.table (str_key x) ≡ ok none) (eq_of_text_eq id q same) absent)),
    )

object_there :
    (t : Table) (k : Key) (v : ℕ) → ht_find t k ≡ ok (some v) → ht_find t k ≢ ok (some 0) → 0 < v
object_there t k zero e f = absurd (f e)
object_there t k (suc v) e f = omega arith

once_present :
    (store : Store) (i : ℕ) (id : Text) (obj : ℕ) (h : HoldsAt store i) (z : ℕ × Bucket)
    → 0 < obj
    → ht_find h.table (str_key id) ≢ ok (some 0)
    → find_entry (str_key id) h.entries ≡ some z
    → SetOnce store i id obj
unfolding kind ht_find ht_exists
once_present store i id obj h z known full e =
    let k = str_key id in
    let present : ht_find h.table k ≡ ok (some z.1.value) =
      chf_find-Holds 0 h.table h.entries k h.holds refl ∙ ap (λ o. ok (value_of o)) e in
    let listed : ht_exists h.table k ≡ ok true =
      chf_exists-Holds 0 h.table h.entries k h.holds refl ∙ ap (λ o. ok (is_found o)) e in
    let at_i = get_elem?-set_self store i h.table (get_elem?_bound store i h.there) in
    (
      h.table,
      kept_once store i id obj h.table known h.there listed,
      λ q.
          found_at (set store i h.table) i h.table q at_i
          ∙ sym (found_at store i h.table q h.there)
          ∙ kept-if (text_eq id q) obj (find_in store i q) (λ same.
            found_present store i obj z.1.value h.table q h.there
              (subst (λ x. ht_find h.table (str_key x) ≡ ok (some z.1.value))
                (eq_of_text_eq id q same) present)
              (object_there h.table k z.1.value present full)),
    )

once_in :
    (store : Store) (i : ℕ) (id : Text) (obj : ℕ) (h : HoldsAt store i)
    → 0 < obj
    → ht_find h.table (str_key id) ≢ ok (some 0)
    → SetOnce store i id obj
once_in store i id obj h known full = elim (Option-cases (find_entry (str_key id) h.entries)) [
  | inl e ↦ once_missing store i id obj h known e
  | inr (z, e) ↦ once_present store i id obj h z known full e
]

-- The first import of a name stays: setting a frame identifier to an object, in a table that can take
-- one more and holds no `NULL` for it, keeps the object that is there and adds it where none is. The
-- identifier resolves to its local object, if there is one, and then to that import; every other
-- identifier resolves as before. The imports are in a table of their own.
pub vm_frame_import-set :
    (store : Store) (frame : Scopes) (id : Text) (obj : ℕ)
    (imports : HoldsAt store frame.frame_identifiers)
    → 0 < obj
    → ht_find imports.table (str_key id) ≢ ok (some 0)
    → frame.frame_identifiers ≢ frame.local_identifiers
    → frame.frame_identifiers ≢ frame.builtin_identifiers
    → (store' : Store) × (vm_frame_set_frame_identifier store frame id obj ≡ ok store')
      × ((q : Text)
          → vm_frame_resolve_identifier store' frame q
            ≡ first_of
                (find_in store frame.local_identifiers q)
                (if text_eq id q
                  then found_or obj (find_in store frame.frame_identifiers q)
                  else find_in store frame.frame_identifiers q)
                (find_in store frame.builtin_identifiers q))
unfolding vm_frame_set_frame_identifier
vm_frame_import-set store frame id obj imports known full local builtins =
    let (t', run, reads) = once_in store frame.frame_identifiers id obj imports known full in
    (
      set store frame.frame_identifiers t',
      run,
      λ q.
          exists-first_of _ frame q
          ∙ rw
              (
                reads q,
                found_elsewhere store frame.frame_identifiers frame.local_identifiers t' q local,
                found_elsewhere store frame.frame_identifiers frame.builtin_identifiers t' q
                    builtins,
              )
              refl,
    )
