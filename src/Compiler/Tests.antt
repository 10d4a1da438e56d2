-- ===== src/Compiler/Tests.antt =====
-- Concrete programs for src/components/compiler/ast_to_asm.c.
use saffire.Prelude.{
  ℕ, zero, suc, ◌≡◌, Stops, refl, true, false, Option, none, some, List, [], ◌∷◌, ◌++◌, Text, arith,
  Run, ok, undefined, get_elem?, text_eq,
}
use saffire.Asm.{Line, code_line, op_id, op_num}
use saffire.Compiler.{
  Ast, identifier_node, numerical_node, nop_node, assignment_node, group_node, while_node, for_node,
  switch_node, continue_node, Nodes, no_nodes, more_nodes, no_else, no_cases,
}
use saffire.Compiler.Names.{true_name, main_name, label, decimal, decimal3, digits}
use saffire.Compiler.State.{
  State, state_init, ◌⨾◌, skip, emit, in_context, in_type, in_side, in_call, numbered, enter_loop,
  leave_loop, block_label, pop_stack, continue_loop, loop_label, written,
}
use saffire.Compiler.Simple.{
  walk_identifier, walk_constant, load_or_store, walk_assignment, open_assignment, duplicate_open,
}
use saffire.Compiler.Branches.{
  walk_while, while_else, walk_for, for_test, walk_switch, case_label, walk_continue,
}
use saffire.Compiler.Walk.{
  walk, walk_each, walk_else, walk_cases, is_assignment, has_default, length_cases, unless_nop,
  ast_to_asm,
}
use saffire.Compiler.Classes.{ast_to_frame, fill_frame, precaution}
use saffire.Compiler.Moves.{Restores}
use saffire.Compiler.SwitchCount.{switches, switches_each, switches_cases}
use saffire.Compiler.Stacks.{walk-Restores, ast_to_asm-switches}
use saffire.Compiler.Assembles.{Assembles, ast_to_asm-Assembles}

-- `while (x) y = 3;`
abbrev loop : Ast
loop =
    while_node 1 (identifier_node 1 (b'x' ∷ []))
      (group_node (
        more_nodes (assignment_node 2 none (identifier_node 2 (b'y' ∷ [])) (numerical_node 2 3))
          no_nodes))
      no_else

abbrev after_loop : State
unfolding walk walk_each walk_else walk_while while_else numbered enter_loop leave_loop block_label
    ◌⨾◌ emit skip in_context in_type in_side in_call pop_stack walk_identifier walk_constant
    load_or_store walk_assignment open_assignment duplicate_open is_assignment label decimal
    decimal3 digits state_init
after_loop = elim (walk false false loop (state_init 0)) [ ok s ↦ s | _ ↦ state_init 0 ]

loop_walked : walk false false loop (state_init 0) ≡ ok after_loop
unfolding walk walk_each walk_else walk_while while_else numbered enter_loop leave_loop block_label
    ◌⨾◌ emit skip in_context in_type in_side in_call pop_stack walk_identifier walk_constant
    load_or_store walk_assignment open_assignment duplicate_open is_assignment label decimal
    decimal3 digits state_init
loop_walked = refl

walk-Restores_example : Restores 0 (switches loop) (state_init 0) after_loop
walk-Restores_example = walk-Restores false false loop (state_init 0) after_loop loop_walked

loop_compiled :
    ast_to_asm loop true
    ≡ ok (
        (main_name, after_loop.lines ++ code_line 0 0x81 (op_num 0 ∷ []) ∷ code_line 0 0x73 [] ∷ [])
        ∷ [])
unfolding ast_to_asm ast_to_frame fill_frame precaution text_eq walk walk_each walk_else walk_while
    while_else numbered enter_loop leave_loop block_label ◌⨾◌ emit skip in_context in_type in_side
    in_call pop_stack walk_identifier walk_constant load_or_store walk_assignment open_assignment
    duplicate_open is_assignment label decimal decimal3 digits state_init
loop_compiled = refl

ast_to_asm-Assembles_example :
    Assembles (after_loop.lines ++ code_line 0 0x81 (op_num 0 ∷ []) ∷ code_line 0 0x73 [] ∷ []) true
ast_to_asm-Assembles_example =
    ast_to_asm-Assembles loop true true _ 0 main_name _ loop_compiled refl

-- A row of switch statements.
switch_row : ℕ → Nodes
switch_row zero = no_nodes
switch_row (suc n) = more_nodes (switch_node 1 (numerical_node 1 0) no_cases) (switch_row n)

ast_to_asm-switches_example : Stops (ast_to_asm (group_node (switch_row 21)) false)
unfolding switch_row switches switches_each switches_cases
ast_to_asm-switches_example = ast_to_asm-switches false (group_node (switch_row 21)) (omega arith)

-- `while (x) { switch (0) { } continue; }`: no label was written to the block of the switch.
continued : Ast
continued =
    while_node 1 (identifier_node 1 (b'x' ∷ []))
      (group_node (
        more_nodes (switch_node 2 (numerical_node 2 0) no_cases)
          (more_nodes (continue_node 3) no_nodes)))
      no_else

continued_lem : walk false false continued (state_init 0) ≡ undefined
unfolding continued walk_switch walk_cases case_label has_default length_cases walk_continue
    continue_loop loop_label written walk walk_each walk_else walk_while while_else numbered
    enter_loop leave_loop block_label ◌⨾◌ emit skip in_context in_type in_side in_call pop_stack
    walk_identifier walk_constant load_or_store walk_assignment open_assignment duplicate_open
    is_assignment label decimal decimal3 digits state_init
continued_lem = refl

-- `for (;;) ;`
endless : Ast
endless = for_node 1 nop_node nop_node nop_node nop_node

-- The line of the main frame at an index.
main_line : Run (List (Text × List Line)) → ℕ → Option Line
main_line (ok ((name, lines) ∷ frames)) i = get_elem? lines i
main_line _ i = none

endless_lem :
    main_line (ast_to_asm endless false) 3 ≡ some (code_line 1 0x81 (op_id true_name ∷ []))
unfolding main_line endless walk_for for_test unless_nop ast_to_asm ast_to_frame fill_frame text_eq
    walk walk_each walk_else walk_while while_else numbered enter_loop leave_loop block_label ◌⨾◌
    emit skip in_context in_type in_side in_call pop_stack walk_identifier walk_constant
    load_or_store walk_assignment open_assignment duplicate_open is_assignment label decimal
    decimal3 digits state_init
endless_lem = refl
