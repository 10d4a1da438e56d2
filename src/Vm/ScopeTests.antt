-- ===== src/Vm/ScopeTests.antt =====
-- The initial frame and a frame below it, for the identifiers of src/components/vm/stackframe.c.
use saffire.Prelude.{
  ◌≢◌, sym, ◌∙◌, some, ◌≡◌, refl, none, [], ◌∷◌, Text, text_eq, arith, ok, if◌then◌else◌,
}
use saffire.HashTable.{str_key}
use saffire.HashTable.Chained.{chf_find}
use saffire.HashTable.Operations.{ht_find}
use saffire.HashTable.Entries.{find_entry, kind}
use saffire.HashTable.Holds.{chf_find-Holds}
use saffire.Vm.Identifiers.{
  find_in, vm_frame_set_frame_identifier, Store, Scopes, vm_frame_set_identifier,
  vm_frame_resolve_identifier, vm_frame_get_global_identifier,
}
use saffire.Vm.Imports.{found_or, vm_frame_import-set}
use saffire.Vm.Scopes.{
  HoldsAt, first_of, IsReady, created, new_scopes-IsReady, vm_frame_resolve-set,
  vm_frame_global-set,
}

abbrev builtin_tables : Store
builtin_tables = created.0 ∷ []

abbrev initial : (store : Store) × (frame : Scopes) × IsReady store frame
initial =
    let (store, frame, _, ready) = new_scopes-IsReady 0 none builtin_tables (omega arith) tt in
    (store, frame, ready)

-- A frame that shares the imports and the globals of the initial one.
abbrev below : Scopes
below = record {
  local_identifiers = 3;
  frame_identifiers = initial.1.frame_identifiers;
  global_identifiers = initial.1.local_identifiers;
  builtin_identifiers = 0;
}

abbrev name : Text
name = b'x' ∷ []

vm_frame_resolve-set_example :
    (store' : Store) × (vm_frame_set_identifier initial.0 initial.1 name 4096 ≡ ok store')
    × ((q : Text)
        → vm_frame_resolve_identifier store' initial.1 q
          ≡ (if text_eq name q then ok 4096 else vm_frame_resolve_identifier initial.0 initial.1 q))
vm_frame_resolve-set_example =
    vm_frame_resolve-set initial.0 initial.1 name 4096 (omega arith) initial.2

vm_frame_global-set_example :
    (store' : Store) × (vm_frame_set_identifier initial.0 initial.1 name 4096 ≡ ok store')
    × ((q : Text)
        → vm_frame_get_global_identifier 8 store' below q ≡ (
            if text_eq name q then ok 4096 else vm_frame_get_global_identifier 8 initial.0 below q))
vm_frame_global-set_example =
    vm_frame_global-set initial.0 initial.1 below 8 name 4096 (omega arith) (initial.2).local refl

-- A frame with an empty table of imports.
abbrev three : Store
three = created.0 ∷ (created.0 ∷ (created.0 ∷ []))

abbrev frame : Scopes
frame = record {
  local_identifiers = 0;
  frame_identifiers = 1;
  global_identifiers = 0;
  builtin_identifiers = 2;
}

abbrev no_imports : HoldsAt three 1
no_imports =
    let (t, _, (h, (own, small))) = created in
    record { table = created.0; entries = []; there = refl; holds = h; owns = own; small = small }

no_null : ht_find created.0 (str_key name) ≢ ok (some 0)
unfolding ht_find find_entry kind
no_null e =
    let absent : chf_find created.0 (str_key name) ≡ ok none =
      chf_find-Holds 0 created.0 [] (str_key name) no_imports.holds refl in
    cc (sym absent ∙ e)

vm_frame_import-set_example :
    (store' : Store) × (vm_frame_set_frame_identifier three frame name 4096 ≡ ok store')
    × ((q : Text)
        → vm_frame_resolve_identifier store' frame q
          ≡ first_of
              (find_in three 0 q)
              (if text_eq name q then found_or 4096 (find_in three 1 q) else find_in three 1 q)
              (find_in three 2 q))
vm_frame_import-set_example =
    vm_frame_import-set three frame name 4096 no_imports (omega arith) no_null (omega arith)
      (omega arith)
