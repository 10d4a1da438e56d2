-- ===== src/Parser/Tests.antt =====
-- Concrete inputs for src/components/compiler/parser_helpers.c.
use saffire.Prelude.{◌≡◌, refl, true, [], ◌∷◌, ok, fatal_error, jump_outside_loop, abstract_final}
use saffire.Parser.{alloc_parserinfo}
use saffire.Parser.Modifiers.{
  public, static, final, abstract, value, modifier_list, parser_validate_flags,
}
use saffire.Parser.Flags.{are_allowed, total, modifier_list-total}
use saffire.Parser.Statements.{
  Statement, jump, plain, for_iteration, while_iteration, compound_statement, no_statements,
  more_statements, no_otherwise, parse,
}
use saffire.Parser.Errors.{
  first_error, error_of_all, error_of_otherwise, fors, fors_all, fors_otherwise,
}
use saffire.Parser.Nesting.{parse-first_error}

-- `while (…) break; break;` and `for (…) ; break;`
abbrev behind_while : Statement
behind_while =
    compound_statement
      (more_statements (while_iteration jump no_otherwise) (more_statements jump no_statements))

abbrev behind_for : Statement
behind_for =
    compound_statement (more_statements (for_iteration plain) (more_statements jump no_statements))

parse-first_error_example :
    parse behind_for alloc_parserinfo ≡ ok (record alloc_parserinfo { in_loop_counter = 1 })
unfolding alloc_parserinfo first_error error_of_all error_of_otherwise fors fors_all fors_otherwise
parse-first_error_example = parse-first_error behind_for alloc_parserinfo

refused : parse behind_while alloc_parserinfo ≡ fatal_error jump_outside_loop
unfolding alloc_parserinfo first_error error_of_all error_of_otherwise fors fors_all fors_otherwise
refused = parse-first_error behind_while alloc_parserinfo

modifier_list-total_example : (are_allowed 33 ≡ true) × (33 ≡ total (public ∷ static ∷ []))
unfolding modifier_list parser_validate_flags value
modifier_list-total_example = modifier_list-total public (static ∷ []) 33 refl

abstract_last : modifier_list (value final) (abstract ∷ []) ≡ fatal_error abstract_final
unfolding modifier_list parser_validate_flags value
abstract_last = refl
