-- ===== src/Compiler/JumpEffects.antt =====
-- What the cases of src/components/compiler/ast_to_asm.c that jump do to the stacks and the blocks.
pub mod Conditions
pub mod Loops
pub mod Switches
pub use saffire.Compiler.JumpEffects.Conditions.{
  MovesIf, missing, there, walk_condition-Moves, walk_coalesce-Moves,
}
pub use saffire.Compiler.JumpEffects.Loops.{
  walk_do-Moves, walk_while-Moves, walk_for-Moves, walk_foreach-Moves,
}
pub use saffire.Compiler.JumpEffects.Switches.{
  walk_goto-Moves, walk_label-Moves, walk_catch-Moves, walk_try-Moves, walk_case-Moves,
  walk_default-Moves, walk_switch-Moves,
}
