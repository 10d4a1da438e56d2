-- ===== src/Compiler/PipelineTests.antt =====
-- A program with a class, whose method has a loop, for src/components/compiler/ast_to_asm.c and
-- `assembler` of src/components/compiler/output/asm.c.
use saffire.Prelude.{◌≡◌, refl, true, List, [], ◌∷◌, Text, arith, ok, text_eq}
use saffire.Asm.{Line}
use saffire.Compiler.{
  Ast, identifier_node, null_node, group_node, while_node, continue_node, class_node,
  attribute_node, no_nodes, more_nodes, no_else, method, no_arguments,
}
use saffire.Compiler.Names.{label, decimal, decimal3, digits}
use saffire.Compiler.State.{
  state_init, ◌⨾◌, skip, emit, in_context, in_type, in_side, in_call, numbered, enter_loop,
  leave_loop, block_label, pop_stack, continue_loop, loop_label, written,
}
use saffire.Compiler.Simple.{walk_identifier, walk_constant, walk_null, load_or_store}
use saffire.Compiler.Branches.{walk_while, while_else, walk_continue}
use saffire.Compiler.Walk.{
  walk, walk_each, walk_else, walk_value, walk_arguments, length_nodes, attribute_type,
  attribute_arguments, ast_to_asm,
}
use saffire.Compiler.Classes.{
  build, walk_class, walk_method, walk_attribute, count_attribute, ast_to_frame, fill_frame,
  precaution,
}
use saffire.Compiler.Hits.{hit}
use saffire.Compiler.Pipeline.{Compiles, ast_to_asm-assembler}

-- `class c { method m() { while (x) continue; } }`
abbrev program : Ast
program = class_node 1 0 (b'c' ∷ []) (null_node 1) no_nodes (
    group_node (
      more_nodes
        (attribute_node 2 0 0 (b'm' ∷ []) (
          method no_arguments 0
            (while_node 3 (identifier_node 3 (b'x' ∷ [])) (continue_node 4) no_else)))
        no_nodes))

abbrev frames : List (Text × List Line)
unfolding walk walk_each walk_else walk_value walk_arguments length_nodes attribute_type
    attribute_arguments walk_class walk_method walk_attribute count_attribute build walk_null
    walk_while while_else walk_continue continue_loop loop_label written numbered enter_loop
    leave_loop block_label ◌⨾◌ emit skip in_context in_type in_side in_call pop_stack
    walk_identifier walk_constant load_or_store label decimal decimal3 digits state_init ast_to_asm
    ast_to_frame fill_frame precaution text_eq
frames = elim (ast_to_asm program true) [ ok o ↦ o | _ ↦ [] ]

program_compiled : ast_to_asm program true ≡ ok frames
unfolding walk walk_each walk_else walk_value walk_arguments length_nodes attribute_type
    attribute_arguments walk_class walk_method walk_attribute count_attribute build walk_null
    walk_while while_else walk_continue continue_loop loop_label written numbered enter_loop
    leave_loop block_label ◌⨾◌ emit skip in_context in_type in_side in_call pop_stack
    walk_identifier walk_constant load_or_store label decimal decimal3 digits state_init ast_to_asm
    ast_to_frame fill_frame precaution text_eq
program_compiled = refl

ast_to_asm-assembler_example : Compiles 2 frames
unfolding frames hit text_eq label decimal decimal3 digits
ast_to_asm-assembler_example =
    ast_to_asm-assembler program true frames 2 program_compiled refl (omega arith)
