-- ===== src/Compiler/Simple.antt =====
-- The cases of `__ast_walker` of src/components/compiler/ast_to_asm.c for values, names, operators
-- and calls.
use saffire.Prelude.{
  ℕ, ◌+◌, ◌-◌, ◌%◌, ◌^◌, Bool, Option, none, some, List, [], ◌∷◌, Text, ok, fatal_error, undefined,
  cannot_store_in_parent, write_to_range, read_from_empty, ◌==◌, ◌&&◌, if◌then◌else◌, leb,
}
use saffire.Asm.{
  Opr, op_label, op_string, op_id, op_realnum, op_compare, op_operator, label_line, code_line,
}
use saffire.Compiler.{
  Arith, plus, minus, times, divide, modulo, bit_and_op, bit_or_op, bit_xor_op, shift_left,
  shift_right, no_arith, Comparison, eq_op, ne_op, gt_op, lt_op, ge_op, le_op, re_op, nre_op, in_op,
  Logic, and_op, or_op,
}
use saffire.Compiler.Names.{and_text, or_text, end_suffix, null_name, label}
use saffire.Compiler.State.{
  Walk, ◌⨾◌, skip, emit, ctx_load, ctx_store, type_id, type_const, side_left, side_right, call_pop,
  call_stay, peek, in_context, in_type, in_side, in_call, numbered,
}

-- An instruction, by its opcode of vm_opcodes.dat.
abbrev pub op : ℕ → ℕ → List Opr → Walk
op opcode lineno oprs = emit (code_line lineno opcode oprs)

abbrev pub place : Text → Walk
place l = emit (label_line l)

abbrev pub pop_top : ℕ → Walk
pop_top lineno = op 0x01 lineno []

-- `_load_or_store`
unfoldable pub load_or_store : ℕ → Opr → Walk
load_or_store lineno opr s =
    if peek s.context == ctx_load
    then (if peek s.type_ == type_id
        then op 0x82 lineno (opr ∷ []) s
        else op 0x81 lineno (opr ∷ []) s)
    else op 0x80 lineno (opr ∷ []) s

unfoldable pub walk_constant : ℕ → Opr → Walk
walk_constant lineno opr = in_type type_const (load_or_store lineno opr)

unfoldable pub walk_null : ℕ → Walk
walk_null lineno = op 0x82 lineno (op_id null_name ∷ [])

unfoldable pub walk_identifier : ℕ → Text → Walk
walk_identifier lineno name = in_type type_id (load_or_store lineno (op_id name))

-- `parent` names the scope; the object is then that of `self`.
unfoldable pub scope_of : Bool → ℕ
scope_of parent = if parent then 2 else 1

unfoldable pub walk_property : ℕ → Bool → Walk → Text → Walk
walk_property lineno parent class property = in_context ctx_load class ⨾ λ s.
    if peek s.context == ctx_load
    then op 0xC3 lineno (op_string property ∷ op_realnum (scope_of parent) ∷ []) s
    else if parent
    then fatal_error cannot_store_in_parent
    else op 0xBD lineno (op_string property ∷ []) s

unfoldable pub arith_value : Arith → ℕ
arith_value plus = 0
arith_value minus = 1
arith_value times = 2
arith_value divide = 3
arith_value modulo = 4
arith_value bit_and_op = 5
arith_value bit_or_op = 6
arith_value bit_xor_op = 7
arith_value shift_left = 8
arith_value shift_right = 9
arith_value no_arith = 0

unfoldable pub walk_operator : ℕ → Arith → Walk → Walk → Walk
walk_operator lineno o l r =
    in_type type_id (in_side side_left l)
    ⨾ in_type type_id (in_side side_left r)
    ⨾ op 0xAA lineno (op_operator (arith_value o) ∷ [])

unfoldable pub comparison_value : Comparison → Option ℕ
comparison_value eq_op = some 0
comparison_value ne_op = some 1
comparison_value gt_op = some 3
comparison_value lt_op = some 2
comparison_value ge_op = some 5
comparison_value le_op = some 4
comparison_value re_op = some 9
comparison_value nre_op = some 10
comparison_value in_op = none

-- The message for an unknown comparison reads its number as the pointer to a string.
unfoldable pub compare_op : ℕ → Option ℕ → Walk
compare_op lineno none = λ s. undefined
compare_op lineno (some v) = op 0x95 lineno (op_compare v ∷ [])

unfoldable pub walk_comparison : ℕ → Comparison → Walk → Walk → Walk
walk_comparison lineno c l r =
    in_call call_stay
      (in_context ctx_load (in_side side_right r) ⨾ in_context ctx_load (in_side side_left l))
    ⨾ compare_op lineno (comparison_value c)

-- An assignment to which another one is assigned leaves its value on the stack of the VM, as the
-- global count of open assignments says.
unfoldable pub open_assignment : Bool → Walk
open_assignment nested s =
    if nested then ok (record s { multi_assignment = s.multi_assignment + 1 }) else ok s

unfoldable pub duplicate_open : ℕ → Walk
duplicate_open lineno s =
    if leb 1 s.multi_assignment
    then op 0x04 lineno [] (record s { multi_assignment = s.multi_assignment - 1 })
    else ok s

-- An assignment with an operator; the left side is loaded first.
abbrev pub operate : ℕ → Option Arith → Walk
operate lineno none = skip
operate lineno (some o) = op 0xAA lineno (op_operator (arith_value o) ∷ [])

abbrev pub load_first : Option Arith → Walk → Walk
load_first none l = skip
load_first (some o) l = in_side side_left (in_context ctx_load l)

unfoldable pub walk_assignment : ℕ → Option Arith → Bool → Walk → Walk → Walk → Walk
walk_assignment lineno o nested l r store =
    open_assignment nested
    ⨾ load_first o l
    ⨾ in_call call_stay (in_side side_right (in_context ctx_load r))
    ⨾ operate lineno o
    ⨾ duplicate_open lineno
    ⨾ in_side side_left (in_context ctx_store store)

abbrev pub logic_text : Logic → Text
logic_text and_op = and_text
logic_text or_op = or_text

abbrev pub logic_jump : Logic → ℕ
logic_jump and_op = 0x85
logic_jump or_op = 0x84

unfoldable pub walk_bool : ℕ → Logic → Walk → Walk → Walk
walk_bool lineno o l r = numbered (λ clc.
    let end = label (logic_text o) clc end_suffix in
    l ⨾ op (logic_jump o) lineno (op_label end ∷ []) ⨾ pop_top lineno ⨾ r ⨾ place end)

unfoldable pub walk_tuple : ℕ → ℕ → Walk → Walk → Walk
walk_tuple lineno len items reversed s =
    if peek s.context == ctx_load
    then (items ⨾ op 0xAB lineno (op_realnum len ∷ [])) s
    else (op 0xAC lineno (op_realnum len ∷ []) ⨾ reversed) s

unfoldable pub walk_import : ℕ → Walk → Text → Walk → Walk
walk_import lineno class alias context =
    in_context ctx_load class
    ⨾ in_context ctx_load context
    ⨾ op 0x7F lineno []
    ⨾ op 0xB8 lineno (op_id alias ∷ [])

unfoldable pub walk_return : ℕ → Walk → Walk
walk_return lineno e = in_context ctx_load (in_call call_stay e) ⨾ op 0x73 lineno []

unfoldable pub walk_throw : ℕ → Walk → Walk
walk_throw lineno e = in_call call_stay (in_context ctx_load e) ⨾ op 0x10 lineno []

-- The group of arguments ends in the one for a variable number of them.
unfoldable pub walk_call : ℕ → ℕ → Walk → Walk → Walk
walk_call lineno len arguments callable =
    in_context ctx_load (in_call call_stay arguments)
    ⨾ in_context ctx_load callable
    ⨾ op 0xBF lineno (op_realnum ((len + 2 ^ 32 - 1) % 2 ^ 32) ∷ [])
    ⨾ λ s. if peek s.call_state == call_pop then pop_top lineno s else ok s

unfoldable pub walk_datastruct : ℕ → ℕ → Walk → Walk → Walk
walk_datastruct lineno idx rows class =
    rows ⨾ in_context ctx_load class ⨾ op 0xA6 lineno (op_realnum idx ∷ [])

-- A subscript of two bounds is not stored to, and one of none is not read. A group of more than two
-- counts as none and is not walked.
abbrev pub counted : ℕ → ℕ
counted len = if leb 3 len then 0 else len

unfoldable pub subscript_op : ℕ → ℕ → ℕ → Walk
subscript_op lineno n ctx =
    if n == 2 && (ctx == ctx_store)
    then (λ s. fatal_error write_to_range)
    else if n == 0 && (ctx == ctx_load)
    then (λ s. fatal_error read_from_empty)
    else if ctx == ctx_load
    then op 0xA7 lineno (op_realnum n ∷ [])
    else op 0xA8 lineno (op_realnum n ∷ [])

unfoldable pub walk_subscript : ℕ → ℕ → Walk → Walk → Walk
walk_subscript lineno len items of s =
    ((if counted len == 0 then skip else items)
        ⨾ in_context ctx_load of
        ⨾ subscript_op lineno (counted len) (peek s.context))
      s
