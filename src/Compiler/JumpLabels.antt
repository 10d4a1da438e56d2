-- ===== src/Compiler/JumpLabels.antt =====
-- The labels that the cases of src/components/compiler/ast_to_asm.c with jumps use and place.
pub mod Conditions
pub mod Loops
pub mod Tries
pub mod Switches
pub use saffire.Compiler.JumpLabels.Conditions.{
  OpensIf, missing, there, walk_condition-Opens, walk_coalesce-Opens, walk_continue-Opens,
}
pub use saffire.Compiler.JumpLabels.Loops.{
  walk_do-Opens, walk_while-Opens, walk_for-Opens, walk_foreach-Opens,
}
pub use saffire.Compiler.JumpLabels.Tries.{
  walk_goto-Opens, walk_label-Opens, walk_catch-Opens, walk_try-Opens, catch_labels,
  catch_labels_lem,
}
pub use saffire.Compiler.JumpLabels.Switches.{
  own, own_lem, default_label, default-free, walk_case-Opens, walk_default-Opens, walk_switch-Opens,
}
