-- ===== src/Vm/Identifiers.antt =====
-- The identifiers of src/components/vm/stackframe.c. Frames share hash tables, which stand in a store;
-- an object is known by its address, 0 for `NULL`. Reference counts are left out.
use saffire.Prelude.{
  ℕ, ◌+◌, Option, none, some, List, [], ◌∷◌, ◌++◌, Text, Run, ok, undefined, ◌>>=◌, length,
  get_elem?, set, ◌==◌, if◌then◌else◌,
}
use saffire.HashTable.{Table}
use saffire.HashTable.Operations.{
  ht_create, ht_find_str, ht_exists_str, ht_add_str, ht_replace_str, ht_remove_str,
}

abbrev pub Store : Type 0
Store = List Table

-- The identifiers of `t_vm_stackframe`: which tables they are.
pub record Scopes : Type 0 where
  pub local_identifiers : ℕ
  pub frame_identifiers : ℕ
  pub global_identifiers : ℕ
  pub builtin_identifiers : ℕ

unfoldable pub pointer : Option ℕ → ℕ
pointer none = 0
pointer (some a) = a

unfoldable pub table_at : Store → ℕ → Run Table
table_at store i = elim (get_elem? store i) [ none ↦ undefined | some t ↦ ok t ]

-- The part of `vm_stackframe_new` that sets up the identifiers.
unfoldable pub new_scopes : ℕ → Option Scopes → Store → Run (Store × Scopes)
new_scopes builtin_identifiers none store = do
  locals ← ht_create
  imports ← ht_create
  ok (
    store ++ locals ∷ (imports ∷ []),
    record {
      local_identifiers = length store;
      frame_identifiers = length store + 1;
      global_identifiers = length store;
      builtin_identifiers = builtin_identifiers;
    },
  )
new_scopes builtin_identifiers (some parent) store = do
  locals ← ht_create
  ok (
    store ++ locals ∷ [],
    record {
      local_identifiers = length store;
      frame_identifiers = parent.frame_identifiers;
      global_identifiers = parent.global_identifiers;
      builtin_identifiers = builtin_identifiers;
    },
  )

unfoldable pub add_missing : Table → Text → ℕ → Run Table
add_missing t id obj = do there ← ht_exists_str t id; if there then ok t else ht_add_str t id obj

unfoldable pub remove_identifier : Table → Text → Run Table
remove_identifier t id = do (t', old) ← ht_remove_str t id; ok t'

-- An identifier that is there keeps its object; `NULL` removes it.
unfoldable pub set_once : Store → ℕ → Text → ℕ → Run Store
set_once store i id obj = do
  t ← table_at store i
  t' ← (if obj == 0 then remove_identifier t id else add_missing t id obj)
  ok (set store i t')

unfoldable pub vm_frame_set_frame_identifier : Store → Scopes → Text → ℕ → Run Store
vm_frame_set_frame_identifier store frame id obj = set_once store frame.frame_identifiers id obj

unfoldable pub vm_frame_set_global_identifier : Store → Scopes → Text → ℕ → Run Store
vm_frame_set_global_identifier store frame id obj = set_once store frame.global_identifiers id obj

unfoldable pub find_in : Store → ℕ → Text → Run ℕ
find_in store i id = do t ← table_at store i; obj ← ht_find_str t id; ok (pointer obj)

-- `obj`, or what is found further on.
unfoldable pub or_further : ℕ → Run ℕ → Run ℕ
or_further obj further = if obj == 0 then further else ok obj

-- `Object_Null` stands for an identifier that is missing.
unfoldable pub vm_frame_get_global_identifier : ℕ → Store → Scopes → Text → Run ℕ
vm_frame_get_global_identifier object_null store frame id = do
  obj ← find_in store frame.global_identifiers id
  or_further obj (ok object_null)

unfoldable pub replace_in : Store → ℕ → Text → ℕ → Run Store
replace_in store i id obj = do
  t ← table_at store i
  (t', old_obj) ← ht_replace_str t id obj
  ok (set store i t')

unfoldable pub vm_frame_set_identifier : Store → Scopes → Text → ℕ → Run Store
vm_frame_set_identifier store frame id obj = replace_in store frame.local_identifiers id obj

unfoldable pub vm_frame_set_builtin_identifier : Store → Scopes → Text → ℕ → Run Store
vm_frame_set_builtin_identifier store frame id obj =
    replace_in store frame.builtin_identifiers id obj

unfoldable pub vm_frame_local_identifier_exists : Store → Scopes → Text → Run ℕ
vm_frame_local_identifier_exists store frame id = do
  local ← find_in store frame.local_identifiers id
  or_further local (do
    import ← find_in store frame.frame_identifiers id
    or_further import (find_in store frame.builtin_identifiers id))

unfoldable pub vm_frame_resolve_identifier : Store → Scopes → Text → Run ℕ
vm_frame_resolve_identifier store frame id = vm_frame_local_identifier_exists store frame id

-- There may be no frame.
unfoldable pub vm_frame_find_identifier : Store → Option Scopes → Text → Run ℕ
vm_frame_find_identifier store none id = ok 0
vm_frame_find_identifier store (some frame) id = vm_frame_local_identifier_exists store frame id
