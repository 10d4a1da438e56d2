-- ===== src/Compiler/SwitchCount.antt =====
-- The switch statements of a tree that src/components/compiler/ast_to_asm.c walks.
use saffire.Prelude.{ℕ, ◌+◌}
use saffire.Compiler.{
  Ast, string_node, regex_node, identifier_node, numerical_node, null_node, nop_node, property_node,
  operator_node, comparison_node, assignment_node, bool_node, class_node, interface_node,
  attribute_node, group_node, tuple_node, program_node, import_node, argument_list, return_node,
  throw_node, if_node, ternary_node, break_node, breakelse_node, continue_node, do_node, while_node,
  for_node, foreach_node, call_node, datastruct_node, subscript_node, goto_node, label_node,
  goto_number, label_number, unknown_node, try_node, switch_node, coalesce_node, Nodes, no_nodes,
  more_nodes, Rows, no_rows, more_rows, Else, no_else, an_else, Attribute, method, constant,
  property, Arguments, no_arguments, more_arguments, Catches, no_catches, more_catches, Cases,
  no_cases, a_case, a_default,
}
use saffire.Compiler.Walk.{length_nodes}
use saffire.Compiler.Effects.{twice, when_counted}

-- The switch statements that are walked into one frame: those in the bodies of methods are not, and
-- those in the left side of an assignment with an operator are walked twice.
unfoldable mutual
  pub switches : Ast → ℕ
  switches (string_node l s) = 0
  switches (regex_node l s) = 0
  switches (numerical_node l n) = 0
  switches (null_node l) = 0
  switches (identifier_node l s) = 0
  switches nop_node = 0
  switches (property_node l c p) = switches c
  switches (operator_node l o a b) = switches a + switches b
  switches (comparison_node l o a b) = switches a + switches b
  switches (assignment_node l o a b) = twice o (switches a) + (switches b + switches a)
  switches (bool_node l o a b) = switches a + switches b
  switches (class_node l m n e i b) = switches e + (switches_each i + switches b)
  switches (interface_node l m n i b) = switches_each i + switches b
  switches (attribute_node l v a n at) = switches_value at
  switches (group_node ns) = switches_each ns
  switches (tuple_node l ns) = switches_each ns
  switches (program_node i s) = switches i + switches s
  switches (import_node l c a x) = switches c + switches x
  switches (argument_list ns) = switches_each ns
  switches (return_node l e) = switches e
  switches (throw_node l e) = switches e
  switches (if_node l t b e) = switches t + (switches b + switches_else e)
  switches (ternary_node l t b e) = switches t + (switches b + switches_else e)
  switches (break_node l) = 0
  switches (breakelse_node l) = 0
  switches (continue_node l) = 0
  switches (do_node l b t) = switches b + switches t
  switches (while_node l t b e) = switches t + (switches b + switches_else e)
  switches (for_node l i t s b) = switches i + (switches t + (switches s + switches b))
  switches (foreach_node l o b k v m e) =
      switches o + (switches b + (switches k + (switches v + (switches m + switches_else e))))
  switches (call_node l c ns) = switches_each ns + switches c
  switches (datastruct_node l c rows) = switches_rows rows + switches c
  switches (subscript_node l c ns) = when_counted (length_nodes ns) (switches_each ns) + switches c
  switches (goto_node l n) = 0
  switches (goto_number l n) = 0
  switches (label_number l n) = 0
  switches (unknown_node l o ns) = 0
  switches (label_node l n) = 0
  switches (try_node l b cs f) = switches b + (switches_catches cs + switches f)
  switches (switch_node l e cs) = 1 + (switches e + switches_cases cs)
  switches (coalesce_node l a b) = switches a + switches b

  pub switches_each : Nodes → ℕ
  switches_each no_nodes = 0
  switches_each (more_nodes n ns) = switches n + switches_each ns

  pub switches_rows : Rows → ℕ
  switches_rows no_rows = 0
  switches_rows (more_rows r rs) = switches_each r + switches_rows rs

  pub switches_else : Else → ℕ
  switches_else no_else = 0
  switches_else (an_else e) = switches e

  pub switches_value : Attribute → ℕ
  switches_value (method as_ f b) = switches_arguments as_
  switches_value (constant v) = switches v
  switches_value (property v) = switches v

  pub switches_arguments : Arguments → ℕ
  switches_arguments no_arguments = 0
  switches_arguments (more_arguments h n v rest) =
      switches h + (switches n + switches v) + switches_arguments rest

  pub switches_catches : Catches → ℕ
  switches_catches no_catches = 0
  switches_catches (more_catches x y b rest) = switches b + switches_catches rest

  pub switches_cases : Cases → ℕ
  switches_cases no_cases = 0
  switches_cases (a_case l v b rest) = switches v + switches b + switches_cases rest
  switches_cases (a_default b rest) = switches b + switches_cases rest
