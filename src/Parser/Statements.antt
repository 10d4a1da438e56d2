-- ===== src/Parser/Statements.antt =====
-- The statements of src/components/compiler/saffire.y with what the parser checks in them.
use saffire.Prelude.{ℕ, false, ◌>>=◌, ok}
use saffire.Parser.{
  Check, parser_loop_enter, parser_loop_leave, parser_switch_begin, parser_switch_end,
  parser_switch_default, parser_validate_return, parser_validate_jump, parser_init_method,
  parser_fini_method,
}
use saffire.Parser.Modifiers.{
  parser_validate_method_modifiers, parser_validate_abstract_method_body,
}

-- `statement`, without the expressions: a plain statement is an expression, a goto, a throw or a
-- label. A try statement has its body, its catches and its finally block.
mutual
  pub data Statement : Type 0 where
    plain jump return_statement : Statement
    compound_statement : Statements → Statement
    if_statement : (body : Statement) → Otherwise → Statement
    switch_statement : CaseStatements → Statement
    while_iteration foreach_iteration : (body : Statement) → Otherwise → Statement
    do_iteration for_iteration : (body : Statement) → Statement
    guarding_statement : (body catches finally : Statements) → Statement

  pub data Statements : Type 0 where
    no_statements : Statements
    more_statements : Statement → Statements → Statements

  pub data Otherwise : Type 0 where
    no_otherwise : Otherwise
    otherwise : Statement → Otherwise

  pub data CaseStatements : Type 0 where
    no_case_statements : CaseStatements
    case_statement default_statement : Statements → CaseStatements → CaseStatements

infixr 5 ◌⨟◌
unfoldable pub ◌⨟◌ : Check → Check → Check
(a ⨟ b) p = a p >>= b

-- The actions of the rules, in the order in which the parser runs them. The rule of a for loop does
-- not leave it.
unfoldable mutual
  pub parse : Statement → Check
  parse plain = ok
  parse jump = parser_validate_jump
  parse return_statement = parser_validate_return
  parse (compound_statement ss) = parse_all ss
  parse (if_statement s e) = parse s ⨟ parse_otherwise e
  parse (switch_statement cs) =
      parser_loop_enter
      ⨟ parser_switch_begin
      ⨟ parse_cases cs
      ⨟ parser_loop_leave
      ⨟ parser_switch_end
  parse (while_iteration s e) = parser_loop_enter ⨟ parse s ⨟ parser_loop_leave ⨟ parse_otherwise e
  parse (foreach_iteration s e) =
      parser_loop_enter ⨟ parse s ⨟ parser_loop_leave ⨟ parse_otherwise e
  parse (do_iteration s) = parser_loop_enter ⨟ parse s ⨟ parser_loop_leave
  parse (for_iteration s) = parser_loop_enter ⨟ parse s
  parse (guarding_statement b c f) = parse_all b ⨟ parse_all c ⨟ parse_all f

  pub parse_all : Statements → Check
  parse_all no_statements = ok
  parse_all (more_statements s ss) = parse s ⨟ parse_all ss

  pub parse_otherwise : Otherwise → Check
  parse_otherwise no_otherwise = ok
  parse_otherwise (otherwise s) = parse s

  pub parse_cases : CaseStatements → Check
  parse_cases no_case_statements = ok
  parse_cases (case_statement ss cs) = parse_all ss ⨟ parse_cases cs
  parse_cases (default_statement ss cs) = parser_switch_default ⨟ parse_all ss ⨟ parse_cases cs

-- A method with its modifiers. Its body, a compound statement, is never the null node.
unfoldable pub parse_method : ℕ → Statements → Check
parse_method modifiers body p = do
  p₁ ← parser_init_method p
  _ ← parser_validate_method_modifiers modifiers
  p₂ ← parse_all body p₁
  p₃ ← parser_fini_method p₂
  _ ← parser_validate_abstract_method_body modifiers false
  ok p₃
