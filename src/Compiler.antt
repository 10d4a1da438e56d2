-- ===== src/Compiler.antt =====
-- The compiler of src/components/compiler/ast_to_asm.c: its input, from
-- src/include/compiler/ast_nodes.h.
pub mod Names
pub mod Numbers
pub mod Hits
pub mod Bands
pub mod State
pub mod Simple
pub mod Branches
pub mod Classes
pub mod Walk
pub mod Moves
pub mod BlockMoves
pub mod Effects
pub mod JumpEffects
pub mod ClassEffects
pub mod SwitchCount
pub mod Stacks
pub mod Uses
pub mod Opens
pub mod Steps
pub mod SimpleLabels
pub mod ClassLabels
pub mod JumpLabels
pub mod Clauses
pub mod Labels
pub mod MissingLabels
pub mod Assembles
pub mod CodeConstants
pub mod Ranks
pub mod Pipeline
mod Tests
mod PipelineTests
use saffire.Prelude.{ℕ, Option, Text}

-- The operators of `typeAstOperator` and of assignments, and of `typeAstComparison`.
pub data Arith : Type 0 where
  plus minus times divide modulo bit_and_op bit_or_op bit_xor_op shift_left shift_right : Arith
  no_arith : Arith

pub data Comparison : Type 0 where
  eq_op ne_op gt_op lt_op ge_op le_op re_op nre_op in_op : Comparison

pub data Logic : Type 0 where
  and_op or_op : Logic

-- The operators of an `oprNode` that the grammar builds and the walker does not know: `T_LOGICAL`,
-- `|`, `^`, `&`, and the `T_PROPERTY` of an interface.
pub data Unknown : Type 0 where
  logical_unary bit_or_sign bit_xor_sign bit_and_sign interface_property : Unknown

-- `t_ast_element`, with the shapes that the grammar gives the operands of an `oprNode`. Most nodes
-- start with their line number.
mutual
  pub data Ast : Type 0 where
    string_node regex_node identifier_node : (lineno : ℕ) → Text → Ast
    numerical_node : (lineno value : ℕ) → Ast
    null_node : (lineno : ℕ) → Ast
    nop_node : Ast
    property_node : (lineno : ℕ) → (class : Ast) → (property : Text) → Ast
    operator_node : (lineno : ℕ) → Arith → (l r : Ast) → Ast
    comparison_node : (lineno : ℕ) → Comparison → (l r : Ast) → Ast
    assignment_node : (lineno : ℕ) → Option Arith → (l r : Ast) → Ast
    bool_node : (lineno : ℕ) → Logic → (l r : Ast) → Ast
    class_node :
        (lineno modifiers : ℕ) → Text → (extends : Ast) → (implements : Nodes) → (body : Ast) → Ast
    interface_node : (lineno modifiers : ℕ) → Text → (implements : Nodes) → (body : Ast) → Ast
    attribute_node : (lineno visibility access : ℕ) → Text → Attribute → Ast
    group_node : Nodes → Ast
    tuple_node : (lineno : ℕ) → Nodes → Ast
    program_node : (imports statements : Ast) → Ast
    import_node : (lineno : ℕ) → (class : Ast) → (alias : Text) → (context : Ast) → Ast
    argument_list : Nodes → Ast
    return_node throw_node : (lineno : ℕ) → Ast → Ast
    if_node ternary_node : (lineno : ℕ) → (test body : Ast) → Else → Ast
    break_node breakelse_node continue_node : (lineno : ℕ) → Ast
    do_node : (lineno : ℕ) → (body test : Ast) → Ast
    while_node : (lineno : ℕ) → (test body : Ast) → Else → Ast
    for_node : (lineno : ℕ) → (init test incdec body : Ast) → Ast
    foreach_node : (lineno : ℕ) → (over body key value meta : Ast) → Else → Ast
    call_node : (lineno : ℕ) → (callable : Ast) → (arguments : Nodes) → Ast
    datastruct_node : (lineno : ℕ) → (class : Ast) → Rows → Ast
    subscript_node : (lineno : ℕ) → (of : Ast) → Nodes → Ast
    goto_node label_node : (lineno : ℕ) → Text → Ast
    goto_number label_number : (lineno value : ℕ) → Ast
    unknown_node : (lineno : ℕ) → Unknown → Nodes → Ast
    try_node : (lineno : ℕ) → (body : Ast) → Catches → (finally : Ast) → Ast
    switch_node : (lineno : ℕ) → Ast → Cases → Ast
    coalesce_node : (lineno : ℕ) → (l r : Ast) → Ast

  pub data Nodes : Type 0 where
    no_nodes : Nodes
    more_nodes : Ast → Nodes → Nodes

  pub data Rows : Type 0 where
    no_rows : Rows
    more_rows : Nodes → Rows → Rows

  -- The third operand that some statements have.
  pub data Else : Type 0 where
    no_else : Else
    an_else : Ast → Else

  pub data Attribute : Type 0 where
    method : Arguments → (flags : ℕ) → (body : Ast) → Attribute
    constant property : Ast → Attribute

  pub data Arguments : Type 0 where
    no_arguments : Arguments
    more_arguments : (hint name value : Ast) → Arguments → Arguments

  pub data Catches : Type 0 where
    no_catches : Catches
    more_catches : (exception identifier : Text) → (body : Ast) → Catches → Catches

  pub data Cases : Type 0 where
    no_cases : Cases
    a_case : (lineno : ℕ) → (value body : Ast) → Cases → Cases
    a_default : (body : Ast) → Cases → Cases
