-- ===== src/Parser/Errors.antt =====
-- The first error in the nesting of statements of src/components/compiler/saffire.y.
use saffire.Prelude.{
  ℕ, ◌+◌, ◌==◌, Bool, true, false, Option, none, some, Fatal, default_twice, return_outside_method,
  jump_outside_loop, if◌then◌else◌,
}
use saffire.Parser.Statements.{
  Statement, plain, jump, return_statement, compound_statement, if_statement, switch_statement,
  while_iteration, foreach_iteration, do_iteration, for_iteration, guarding_statement, Statements,
  no_statements, more_statements, Otherwise, no_otherwise, otherwise, CaseStatements,
  no_case_statements, case_statement, default_statement,
}

-- The for loops of a statement: each keeps the count of open loops one too high.
unfoldable mutual
  pub fors : Statement → ℕ
  fors plain = 0
  fors jump = 0
  fors return_statement = 0
  fors (compound_statement ss) = fors_all ss
  fors (if_statement s e) = fors s + fors_otherwise e
  fors (switch_statement cs) = fors_cases cs
  fors (while_iteration s e) = fors s + fors_otherwise e
  fors (foreach_iteration s e) = fors s + fors_otherwise e
  fors (do_iteration s) = fors s
  fors (for_iteration s) = 1 + fors s
  fors (guarding_statement b c f) = fors_all b + (fors_all c + fors_all f)

  pub fors_all : Statements → ℕ
  fors_all no_statements = 0
  fors_all (more_statements s ss) = fors s + fors_all ss

  pub fors_otherwise : Otherwise → ℕ
  fors_otherwise no_otherwise = 0
  fors_otherwise (otherwise s) = fors s

  pub fors_cases : CaseStatements → ℕ
  fors_cases no_case_statements = 0
  fors_cases (case_statement ss cs) = fors_all ss + fors_cases cs
  fors_cases (default_statement ss cs) = fors_all ss + fors_cases cs

abbrev pub first_of : Option Fatal → Option Fatal → Option Fatal
first_of none e = e
first_of (some m) e = some m

-- The first error of a statement in a method or outside, at a depth of loops: a jump at depth 0, a
-- return outside, or the second default clause of a switch.
unfoldable mutual
  pub first_error : Bool → ℕ → Statement → Option Fatal
  first_error m n plain = none
  first_error m n jump = if n == 0 then some jump_outside_loop else none
  first_error m n return_statement = if m then none else some return_outside_method
  first_error m n (compound_statement ss) = error_of_all m n ss
  first_error m n (if_statement s e) =
      first_of (first_error m n s) (error_of_otherwise m (n + fors s) e)
  first_error m n (switch_statement cs) = error_of_cases m (n + 1) false cs
  first_error m n (while_iteration s e) =
      first_of (first_error m (n + 1) s) (error_of_otherwise m (n + fors s) e)
  first_error m n (foreach_iteration s e) =
      first_of (first_error m (n + 1) s) (error_of_otherwise m (n + fors s) e)
  first_error m n (do_iteration s) = first_error m (n + 1) s
  first_error m n (for_iteration s) = first_error m (n + 1) s
  first_error m n (guarding_statement b c f) = first_of (error_of_all m n b) (
      first_of (error_of_all m (n + fors_all b) c) (error_of_all m (n + fors_all b + fors_all c) f))

  pub error_of_all : Bool → ℕ → Statements → Option Fatal
  error_of_all m n no_statements = none
  error_of_all m n (more_statements s ss) =
      first_of (first_error m n s) (error_of_all m (n + fors s) ss)

  pub error_of_otherwise : Bool → ℕ → Otherwise → Option Fatal
  error_of_otherwise m n no_otherwise = none
  error_of_otherwise m n (otherwise s) = first_error m n s

  pub error_of_cases : Bool → ℕ → Bool → CaseStatements → Option Fatal
  error_of_cases m n found no_case_statements = none
  error_of_cases m n found (case_statement ss cs) =
      first_of (error_of_all m n ss) (error_of_cases m (n + fors_all ss) found cs)
  error_of_cases m n found (default_statement ss cs) =
      if found
      then some default_twice
      else first_of (error_of_all m n ss) (error_of_cases m (n + fors_all ss) true cs)
