-- ===== src/Parser.antt =====
-- The checks of src/components/compiler/parser_helpers.c, which the parser makes while it reads: the
-- state that they keep, from src/include/compiler/saffire_parser.h.
pub mod Modifiers
pub mod Flags
pub mod Classes
pub mod Statements
pub mod Errors
pub mod Nesting
mod Tests
use saffire.Prelude.{
  ℕ, ◌+◌, ◌-◌, Bool, true, false, Option, none, some, List, [], ◌∷◌, Text, Run, ok, ◌>>=◌,
  undefined, fatal_error, Fatal, outside_loop, default_outside_switch, default_twice,
  return_outside_method, jump_outside_loop, ◌==◌, if◌then◌else◌,
}
use saffire.Compiler.{Ast, Nodes}

-- `t_class`, with the names of its constants.
pub record Class : Type 0 where
  pub modifiers : ℕ
  pub name : Text
  pub extends : Ast
  pub implements : Nodes
  pub constants : List Text
  pub line_start : ℕ
  pub line_end : ℕ

-- `t_parserinfo`, with the names of the global constants, the active class by its index, and whether
-- each of the open switch statements has a default, the current one first.
pub record ParserInfo : Type 0 where
  pub constants : List Text
  pub classes : List Class
  pub active_class : Option ℕ
  pub in_class : Bool
  pub in_loop_counter : ℕ
  pub in_method : Bool
  pub switches : List Bool

unfoldable pub alloc_parserinfo : ParserInfo
alloc_parserinfo = record {
  constants = [];
  classes = [];
  active_class = none;
  in_class = false;
  in_loop_counter = 0;
  in_method = false;
  switches = [];
}

abbrev pub Check : Type 0
Check = ParserInfo → Run ParserInfo

unfoldable pub parser_init_method : Check
parser_init_method p = ok (record p { in_method = true })

unfoldable pub parser_fini_method : Check
parser_fini_method p = ok (record p { in_method = false })

unfoldable pub parser_loop_enter : Check
parser_loop_enter p = ok (record p { in_loop_counter = p.in_loop_counter + 1 })

unfoldable pub parser_loop_leave : Check
parser_loop_leave p =
    if p.in_loop_counter == 0
    then fatal_error outside_loop
    else ok (record p { in_loop_counter = p.in_loop_counter - 1 })

unfoldable pub parser_switch_begin : Check
parser_switch_begin p = ok (record p { switches = false ∷ p.switches })

unfoldable pub end_switch : List Bool → Run (List Bool)
end_switch [] = undefined
end_switch (s ∷ parents) = ok parents

unfoldable pub parser_switch_end : Check
parser_switch_end p = do s ← end_switch p.switches; ok (record p { switches = s })

unfoldable pub add_default : List Bool → Run (List Bool)
add_default [] = fatal_error default_outside_switch
add_default (has_default ∷ parents) =
    if has_default then fatal_error default_twice else ok (true ∷ parents)

unfoldable pub parser_switch_default : Check
parser_switch_default p = do s ← add_default p.switches; ok (record p { switches = s })

unfoldable pub parser_validate_return : Check
parser_validate_return p = if p.in_method then ok p else fatal_error return_outside_method

-- `parser_validate_break`, `parser_validate_continue` and `parser_validate_breakelse`
unfoldable pub parser_validate_jump : Check
parser_validate_jump p = if p.in_loop_counter == 0 then fatal_error jump_outside_loop else ok p
