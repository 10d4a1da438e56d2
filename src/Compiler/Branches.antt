-- ===== src/Compiler/Branches.antt =====
-- The cases of `__ast_walker` of src/components/compiler/ast_to_asm.c that jump: conditions, loops,
-- labels, switch and try.
pub mod Conditions
pub mod Loops
pub mod Switches
unfoldable pub use saffire.Compiler.Branches.Conditions.{
  jump_to, optional, walk_condition, walk_if, walk_ternary, walk_coalesce, walk_continue,
}
unfoldable pub use saffire.Compiler.Branches.Loops.{
  walk_do, setup_loop, first_jump, while_else, walk_while, for_test, walk_for, store, pop_times,
  foreach_else, walk_foreach,
}
unfoldable pub use saffire.Compiler.Branches.Switches.{
  user_label, walk_goto, text_mem, new_label, walk_label, walk_catch, walk_try, catch_label,
  case_label, case_body, walk_case, walk_default, walk_switch,
}
