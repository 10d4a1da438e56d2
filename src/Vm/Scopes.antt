-- ===== src/Vm/Scopes.antt =====
-- Identifiers of src/components/vm/stackframe.c that are set and looked up, by frames that share tables.
use saffire.Prelude.{
  ℕ, ◌^◌, ◌<◌, ◌≡◌, ◌≢◌, ◌+◌, refl, sym, ap, subst, ◌∙◌, Bool, true, false, Option, none, some, [],
  ◌∷◌, ◌++◌, get_elem?-append_length, Ends, Ends-eq, arith, Text, text_eq, Run, ok, ◌>>=◌, length,
  get_elem?, set, get_elem?-set_self, get_elem?-set_ne, get_elem?_bound, if◌then◌else◌,
}
use saffire.HashTable.{Table, str_key}
use saffire.HashTable.Chained.{next_count, chf_resize}
use saffire.HashTable.Operations.{ht_create, ht_create_custom, ht_find, ht_find_str, ht_replace_str}
use saffire.HashTable.Entries.{Entries, kind, key_eq}
use saffire.HashTable.Holds.{Holds}
use saffire.HashTable.Load.{ht_create_custom-Holds}
use saffire.HashTable.Laws.{CanOwn, ht_find-ht_replace}
use saffire.Vm.Identifiers.{
  new_scopes, Store, Scopes, pointer, table_at, find_in, or_further, replace_in,
  vm_frame_get_global_identifier, vm_frame_set_identifier, vm_frame_local_identifier_exists,
  vm_frame_resolve_identifier,
}

-- A table of identifiers that can take one more.
pub record HoldsAt (store : Store) (i : ℕ) : Type 0 where
  pub table : Table
  pub entries : Entries
  pub there : get_elem? store i ≡ some table
  pub holds : Holds 0 table entries
  pub owns : CanOwn table entries
  pub small : next_count table < 2 ^ 31

pub found_at :
    (store : Store) (i : ℕ) (t : Table) (q : Text)
    → get_elem? store i ≡ some t
    → find_in store i q ≡ (ht_find t (str_key q) >>= (λ o. ok (pointer o)))
unfolding find_in ht_find_str table_at
found_at store i t q e = rw (e, table_at) refl

-- Another table is found as it was.
pub found_elsewhere :
    (store : Store) (i j : ℕ) (t : Table) (q : Text)
    → i ≢ j
    → find_in (set store i t) j q ≡ find_in store j q
unfolding find_in table_at
found_elsewhere store i j t q apart = rw (get_elem?-set_ne store t apart, table_at) refl

pub bind-if :
    (b : Bool) (obj : ℕ) (m : Run (Option ℕ))
    → ((if b then ok (some obj) else m) >>= (λ o. ok (pointer o)))
      ≡ (if b then ok obj else m >>= (λ o. ok (pointer o)))
unfolding pointer
bind-if true obj m = refl
bind-if false obj m = refl

-- What is found in a table once an identifier is replaced in it.
replaced_in :
    (store : Store) (i : ℕ) (id : Text) (obj : ℕ)
    → HoldsAt store i
    → (t' : Table) × (replace_in store i id obj ≡ ok (set store i t'))
      × ((q : Text)
          → find_in (set store i t') i q ≡ (if text_eq id q then ok obj else find_in store i q))
unfolding replace_in ht_replace_str table_at kind key_eq
replaced_in store i id obj h =
    let (t', run, (es, _, reads)) =
      ht_find-ht_replace 0 h.table h.entries (str_key id) obj h.holds h.owns refl (omega arith)
        h.small in
    let at_i = get_elem?-set_self store i t' (get_elem?_bound store i h.there) in
    (
      t',
      rw (h.there, table_at) (rw run refl),
      λ q.
          found_at (set store i t') i t' q at_i
          ∙ ap (λ m. m >>= (λ o. ok (pointer o))) (reads (str_key q) refl)
          ∙ bind-if (text_eq id q) obj (ht_find h.table (str_key q))
          ∙ ap (λ m. if text_eq id q then ok obj else m) (sym (found_at store i h.table q h.there)),
    )

-- The tables in their order, the first that has an object for the identifier.
pub first_of : Run ℕ → Run ℕ → Run ℕ → Run ℕ
first_of a b c = a >>= (λ x. or_further x (b >>= (λ y. or_further y c)))

pub exists-first_of :
    (store : Store) (frame : Scopes) (q : Text)
    → vm_frame_resolve_identifier store frame q
      ≡ first_of
          (find_in store frame.local_identifiers q)
          (find_in store frame.frame_identifiers q)
          (find_in store frame.builtin_identifiers q)
unfolding vm_frame_resolve_identifier vm_frame_local_identifier_exists first_of
exists-first_of store frame q = refl

first_of-if :
    (t : Bool) (obj : ℕ) (a b c : Run ℕ)
    → 0 < obj
    → first_of (if t then ok obj else a) b c ≡ (if t then ok obj else first_of a b c)
unfolding first_of or_further
first_of-if true obj a b c h = ground arith
first_of-if false obj a b c h = refl

-- Where the table of imports that a new frame takes over stands.
abbrev pub ImportsIn : Store → Option Scopes → Type 0
ImportsIn store none = Unit {0}
ImportsIn store (some parent) = parent.frame_identifiers < length store

-- A frame whose local table is its own and takes identifiers.
pub record IsReady (store : Store) (frame : Scopes) : Type 0 where
  pub local : HoldsAt store frame.local_identifiers
  pub imports : frame.local_identifiers ≢ frame.frame_identifiers
  pub builtins : frame.local_identifiers ≢ frame.builtin_identifiers

-- An object that is set to a local identifier is what the identifier then resolves to, whether it was
-- there, or an import or a builtin of that name is; every other identifier resolves as before. The
-- local table of the frame is its own, as that of a new frame is, and can take one more.
pub vm_frame_resolve-set :
    (store : Store) (frame : Scopes) (id : Text) (obj : ℕ)
    → 0 < obj
    → IsReady store frame
    → (store' : Store) × (vm_frame_set_identifier store frame id obj ≡ ok store')
      × ((q : Text)
          → vm_frame_resolve_identifier store' frame q
            ≡ (if text_eq id q then ok obj else vm_frame_resolve_identifier store frame q))
unfolding vm_frame_set_identifier
vm_frame_resolve-set store frame id obj known ready =
    let (t', run, reads) = replaced_in store frame.local_identifiers id obj ready.local in
    (
      set store frame.local_identifiers t',
      run,
      λ q.
          exists-first_of _ frame q
          ∙ rw
              (
                reads q,
                found_elsewhere store frame.local_identifiers frame.frame_identifiers t' q
                    ready.imports,
                found_elsewhere store frame.local_identifiers frame.builtin_identifiers t' q
                    ready.builtins,
              )
              (first_of-if (text_eq id q) obj _ _ _ known)
          ∙ ap (λ m. if text_eq id q then ok obj else m) (sym (exists-first_of store frame q)),
    )

global_if :
    (t : Bool) (obj object_null : ℕ) (m : Run ℕ)
    → 0 < obj
    → ((if t then ok obj else m) >>= (λ o. or_further o (ok object_null)))
      ≡ (if t then ok obj else m >>= (λ o. or_further o (ok object_null)))
unfolding or_further
global_if true obj object_null m h = ground arith
global_if false obj object_null m h = refl

-- A local identifier of the initial frame, whose local table is its global one, is a global identifier
-- of every frame that shares its global table: it is found there once it is set, and the others are as
-- before.
pub vm_frame_global-set :
    (store : Store) (initial frame : Scopes) (object_null : ℕ) (id : Text) (obj : ℕ)
    → 0 < obj
    → HoldsAt store initial.local_identifiers
    → frame.global_identifiers ≡ initial.local_identifiers
    → (store' : Store) × (vm_frame_set_identifier store initial id obj ≡ ok store')
      × ((q : Text)
          → vm_frame_get_global_identifier object_null store' frame q ≡ (
              if text_eq id q
              then ok obj
              else vm_frame_get_global_identifier object_null store frame q))
unfolding vm_frame_set_identifier vm_frame_get_global_identifier
vm_frame_global-set store initial frame object_null id obj known h shared =
    let (t', run, reads) = replaced_in store initial.local_identifiers id obj h in
    (
      set store initial.local_identifiers t',
      run,
      λ q. rw (shared, reads q) (global_if (text_eq id q) obj object_null _ known),
    )

fresh_table :
    (store more : Store) (t : Table)
    → Holds 0 t []
    → t.copy_on_write ≡ false
    → next_count t < 2 ^ 31
    → HoldsAt (store ++ t ∷ more) (length store)
fresh_table store more t h own small = record {
  table = t;
  entries = [];
  there = get_elem?-append_length store more t;
  holds = h;
  owns = own;
  small = small;
}

pub created :
    (t : Table) × (ht_create ≡ ok t)
    × (Holds 0 t [] × ((t.copy_on_write ≡ false) × (next_count t < 2 ^ 31)))
unfolding ht_create ht_create_custom chf_resize next_count
created =
    let (t, run, h, _, _) = ht_create_custom-Holds 0 16 (omega arith) in
    (
      _,
      refl,
      (
        Ends-eq (λ u. Holds 0 u []) _ _ refl (subst (Ends (λ u. Holds 0 u [])) (sym run) h),
        (refl, omega arith),
      ),
    )

initial_runs :
    (builtins : ℕ) (store : Store) (t : Table)
    → ht_create ≡ ok t
    → new_scopes builtins none store
      ≡ ok (
        store ++ t ∷ t ∷ [],
        record {
          local_identifiers = length store;
          frame_identifiers = length store + 1;
          global_identifiers = length store;
          builtin_identifiers = builtins;
        },
      )
unfolding new_scopes
initial_runs builtins store t e = rw e refl

child_runs :
    (builtins : ℕ) (parent : Scopes) (store : Store) (t : Table)
    → ht_create ≡ ok t
    → new_scopes builtins (some parent) store
      ≡ ok (
        store ++ t ∷ [],
        record {
          local_identifiers = length store;
          frame_identifiers = parent.frame_identifiers;
          global_identifiers = parent.global_identifiers;
          builtin_identifiers = builtins;
        },
      )
unfolding new_scopes
child_runs builtins parent store t e = rw e refl

-- A new frame, of the program or of a call, has a local table of its own.
pub new_scopes-IsReady :
    (builtins : ℕ) (parent : Option Scopes) (store : Store)
    → builtins < length store
    → ImportsIn store parent
    → (store' : Store) × (frame : Scopes) × (new_scopes builtins parent store ≡ ok (store', frame))
      × IsReady store' frame
new_scopes-IsReady builtins none store b i =
    let (t, run, (h, (own, small))) = created in
    (
      _,
      _,
      initial_runs builtins store t run,
      record {
        local = fresh_table store (t ∷ []) t h own small;
        imports = λ e. omega (arith, e);
        builtins = λ e. omega (arith, e, b);
      },
    )
new_scopes-IsReady builtins (some parent) store b i =
    let (t, run, (h, (own, small))) = created in
    (
      _,
      _,
      child_runs builtins parent store t run,
      record {
        local = fresh_table store [] t h own small;
        imports = λ e. omega (arith, e, i);
        builtins = λ e. omega (arith, e, b);
      },
    )
