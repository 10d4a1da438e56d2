-- ===== src/Compiler/Walk.antt =====
-- `__ast_walker` and `ast_to_asm` of src/components/compiler/ast_to_asm.c.
use saffire.Prelude.{
  ℕ, ◌+◌, Bool, true, false, Option, none, some, List, [], Text, Run, ok, undefined, fatal_error,
  unknown_ast_operator, ◌>>=◌, ◌||◌, text_eq, if◌then◌else◌,
}
use saffire.Asm.{op_string, op_regex, op_num, Line}
use saffire.Compiler.{
  Ast, string_node, regex_node, identifier_node, numerical_node, null_node, nop_node, property_node,
  operator_node, comparison_node, assignment_node, bool_node, class_node, interface_node,
  attribute_node, group_node, tuple_node, program_node, import_node, argument_list, return_node,
  throw_node, if_node, ternary_node, break_node, breakelse_node, continue_node, do_node, while_node,
  for_node, foreach_node, call_node, datastruct_node, subscript_node, goto_node, label_node,
  goto_number, label_number, unknown_node, try_node, switch_node, coalesce_node, Nodes, no_nodes,
  more_nodes, Rows, no_rows, more_rows, Else, no_else, an_else, Attribute, method, constant,
  property, Arguments, no_arguments, more_arguments, Catches, no_catches, more_catches, Cases,
  no_cases, a_case, a_default,
}
use saffire.Compiler.Names.{parent_name, self_name, main_name}
use saffire.Compiler.State.{state_init, Walk, ◌⨾◌, skip, ctx_load, in_context}
use saffire.Compiler.Simple.{
  op, walk_constant, walk_null, walk_identifier, walk_property, walk_operator, walk_comparison,
  walk_assignment, walk_bool, walk_tuple, walk_import, walk_return, walk_throw, walk_call,
  walk_datastruct, walk_subscript,
}
use saffire.Compiler.Branches.{
  walk_if, walk_ternary, walk_coalesce, walk_continue, walk_do, walk_while, walk_for, walk_foreach,
  walk_goto, walk_label, walk_catch, walk_try, walk_case, walk_default, walk_switch,
}
use saffire.Compiler.Classes.{
  walk_class, walk_interface, ast_to_frame, walk_argument, walk_method, walk_attribute,
}

unfoldable pub length_nodes : Nodes → ℕ
length_nodes no_nodes = 0
length_nodes (more_nodes n ns) = length_nodes ns + 1

unfoldable pub length_rows : Rows → ℕ
length_rows no_rows = 0
length_rows (more_rows r rs) = length_nodes r + length_rows rs

unfoldable pub length_arguments : Arguments → ℕ
length_arguments no_arguments = 0
length_arguments (more_arguments h n v rest) = length_arguments rest + 1

unfoldable pub length_cases : Cases → ℕ
length_cases no_cases = 0
length_cases (a_case l v b rest) = length_cases rest + 1
length_cases (a_default b rest) = length_cases rest + 1

unfoldable pub has_default : Cases → Bool
has_default no_cases = false
has_default (a_case l v b rest) = has_default rest
has_default (a_default b rest) = true

unfoldable pub is_assignment : Ast → Bool
is_assignment (assignment_node l o a b) = true
is_assignment _ = false

-- Whether the object of a property is `parent`: the first walk renames it to `self`, so a tree that
-- has been walked before has none.
unfoldable pub is_parent : Bool → Ast → Bool
is_parent again (identifier_node l name) = if again then false else text_eq name parent_name
is_parent again _ = false

unfoldable pub attribute_type : Attribute → ℕ
attribute_type (method a f b) = 0
attribute_type (constant v) = 1
attribute_type (property v) = 2

unfoldable pub attribute_arguments : Attribute → ℕ
attribute_arguments (method a f b) = length_arguments a
attribute_arguments (constant v) = 0
attribute_arguments (property v) = 0

unfoldable pub unless_nop : Ast → Walk → Option Walk
unless_nop nop_node w = none
unless_nop _ w = some w

unfoldable pub unless_null : Ast → Walk → Option Walk
unless_null (null_node l) w = none
unless_null _ w = some w

unfoldable mutual
  -- The left side of an assignment with an operator is walked again after it was loaded. The object
  -- of a property that was `parent` is `self` in both walks.
  pub walk : Bool → Bool → Ast → Walk
  walk append again (string_node l s) = walk_constant l (op_string s)
  walk append again (regex_node l s) = walk_constant l (op_regex s)
  walk append again (numerical_node l n) = walk_constant l (op_num n)
  walk append again (null_node l) = walk_null l
  walk append again (identifier_node l s) = walk_identifier l s
  walk append again nop_node = skip
  walk append again (property_node l class p) =
      walk_property l (is_parent again class)
        (if is_parent false class then walk_identifier l self_name else walk append again class) p
  walk append again (operator_node l o a b) =
      walk_operator l o (walk append again a) (walk append again b)
  walk append again (comparison_node l c a b) =
      walk_comparison l c (walk append again a) (walk append again b)
  walk append again (assignment_node l o a b) =
      walk_assignment l o (is_assignment b) (walk append again a) (walk append again b)
        (walk append (again || (elim o [ none ↦ false | some x ↦ true ])) a)
  walk append again (bool_node l o a b) = walk_bool l o (walk append again a) (walk append again b)
  walk append again (class_node l m name extends implements body) =
      walk_class l m name (walk append again extends) (length_nodes implements)
        (walk_each append again implements) (walk append again body)
  walk append again (interface_node l m name implements body) =
      walk_interface l m name (length_nodes implements) (walk_each append again implements)
        (walk append again body)
  walk append again (attribute_node l v a name at) =
      walk_attribute l v a (attribute_type at) (attribute_arguments at) name
        (walk_value append again l at)
  walk append again (group_node ns) = walk_each append again ns
  walk append again (tuple_node l ns) =
      walk_tuple l (length_nodes ns) (walk_each append again ns) (walk_reversed append again ns)
  walk append again (program_node i s) = walk append again i ⨾ walk append again s
  walk append again (import_node l class alias context) =
      walk_import l (walk append again class) alias (walk append again context)
  walk append again (argument_list ns) = walk_each append again ns
  walk append again (return_node l e) = walk_return l (walk append again e)
  walk append again (throw_node l e) = walk_throw l (walk append again e)
  walk append again (if_node l t b e) =
      walk_if l (walk append again t) (walk append again b) (walk_else append again e)
  walk append again (ternary_node l t b e) =
      walk_ternary l (walk append again t) (walk append again b) (walk_else append again e)
  walk append again (break_node l) = op 0x74 l []
  walk append again (breakelse_node l) = op 0x75 l []
  walk append again (continue_node l) = walk_continue l
  walk append again (do_node l b t) = walk_do l (walk append again b) (walk append again t)
  walk append again (while_node l t b e) =
      walk_while (walk append again t) (walk append again b) (walk_else append again e)
  walk append again (for_node l i t s b) =
      walk_for l (walk append again i) (unless_nop t (walk append again t)) (walk append again s)
        (walk append again b)
  walk append again (foreach_node l over b k v m e) =
      walk_foreach (walk append again over) (walk append again b)
        (unless_null k (walk append again k)) (unless_null v (walk append again v))
        (unless_null m (walk append again m)) (walk_else append again e)
  walk append again (call_node l c ns) =
      walk_call l (length_nodes ns) (walk_each append again ns) (walk append again c)
  walk append again (datastruct_node l c rows) =
      walk_datastruct l (length_rows rows) (walk_rows append again rows) (walk append again c)
  walk append again (subscript_node l c ns) =
      walk_subscript l (length_nodes ns) (walk_loaded append again ns) (walk append again c)
  walk append again (goto_node l name) = walk_goto l name
  -- A number is read as the pointer to a name.
  walk append again (goto_number l n) = λ s. undefined
  walk append again (label_number l n) = λ s. undefined
  walk append again (unknown_node l o ns) = λ s. fatal_error unknown_ast_operator
  walk append again (label_node l name) = walk_label name
  walk append again (try_node l b cs f) =
      walk_try l (walk append again b) (walk_catches append again l 0 cs)
        (unless_nop f (walk append again f))
  walk append again (switch_node l e cs) =
      walk_switch (walk append again e) (walk_cases append again 0 cs) (length_cases cs)
        (has_default cs)
  walk append again (coalesce_node l a b) =
      walk_coalesce l (walk append again a) (walk append again b)

  pub walk_each : Bool → Bool → Nodes → Walk
  walk_each append again no_nodes = skip
  walk_each append again (more_nodes n ns) = walk append again n ⨾ walk_each append again ns

  pub walk_reversed : Bool → Bool → Nodes → Walk
  walk_reversed append again no_nodes = skip
  walk_reversed append again (more_nodes n ns) = walk_reversed append again ns ⨾ walk append again n

  pub walk_loaded : Bool → Bool → Nodes → Walk
  walk_loaded append again no_nodes = skip
  walk_loaded append again (more_nodes n ns) =
      in_context ctx_load (walk append again n) ⨾ walk_loaded append again ns

  -- A row, and the rows, from the last item to the first.
  pub walk_row : Bool → Bool → Nodes → Walk
  walk_row append again no_nodes = skip
  walk_row append again (more_nodes n ns) =
      walk_row append again ns ⨾ in_context ctx_load (walk append again n)

  pub walk_rows : Bool → Bool → Rows → Walk
  walk_rows append again no_rows = skip
  walk_rows append again (more_rows r rs) = walk_rows append again rs ⨾ walk_row append again r

  pub walk_else : Bool → Bool → Else → Option Walk
  walk_else append again no_else = none
  walk_else append again (an_else e) = some (walk append again e)

  pub walk_value : Bool → Bool → ℕ → Attribute → Walk
  walk_value append again l (method arguments flags body) =
      walk_method append l (walk_arguments append again arguments) flags (walk append again body)
  walk_value append again l (constant v) = in_context ctx_load (walk append again v)
  walk_value append again l (property v) = in_context ctx_load (walk append again v)

  -- From the last argument to the first.
  pub walk_arguments : Bool → Bool → Arguments → Walk
  walk_arguments append again no_arguments = skip
  walk_arguments append again (more_arguments h n v rest) =
      walk_arguments append again rest
      ⨾ walk_argument (walk append again h) (walk append again n) (walk append again v)

  pub walk_catches : Bool → Bool → ℕ → ℕ → Catches → ℕ → Walk
  walk_catches append again l i no_catches clc = skip
  walk_catches append again l i (more_catches x y b rest) clc =
      walk_catch l clc i x y (walk append again b) ⨾ walk_catches append again l (i + 1) rest clc

  pub walk_cases : Bool → Bool → ℕ → Cases → ℕ → Walk
  walk_cases append again i no_cases clc = skip
  walk_cases append again i (a_case l v b rest) clc =
      walk_case clc i l (walk append again v) (walk append again b)
      ⨾ walk_cases append again (i + 1) rest clc
  walk_cases append again i (a_default b rest) clc =
      walk_default clc i (walk append again b) ⨾ walk_cases append again (i + 1) rest clc

-- The frames of a program, the main one first.
unfoldable pub ast_to_asm : Ast → Bool → Run (List (Text × List Line))
ast_to_asm ast append = do
  s ← ast_to_frame append main_name (walk append false ast) (state_init 0)
  ok s.output
