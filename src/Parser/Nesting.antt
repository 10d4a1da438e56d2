-- ===== src/Parser/Nesting.antt =====
-- What the parser accepts of src/components/compiler/saffire.y, by the nesting of the statements.
use saffire.Prelude.{
  ℕ, ◌+◌, ◌==◌, ◌≡◌, refl, sym, ap, ◌∙◌, Bool, true, false, Option, none, some, List, ◌∷◌, arith,
  Run, ok, fatal_error, Fatal, default_twice, return_outside_method, jump_outside_loop,
  if◌then◌else◌,
}
use saffire.Parser.{
  ParserInfo, Check, parser_loop_enter, parser_loop_leave, parser_switch_begin, parser_switch_end,
  parser_switch_default, parser_validate_return, parser_validate_jump, end_switch, add_default,
}
use saffire.Parser.Statements.{
  Statement, plain, jump, return_statement, compound_statement, if_statement, switch_statement,
  while_iteration, foreach_iteration, do_iteration, for_iteration, guarding_statement, Statements,
  no_statements, more_statements, Otherwise, no_otherwise, otherwise, CaseStatements,
  no_case_statements, case_statement, default_statement, ◌⨟◌, parse, parse_all, parse_otherwise,
  parse_cases,
}
use saffire.Parser.Errors.{
  fors, fors_all, fors_otherwise, fors_cases, first_of, first_error, error_of_all,
  error_of_otherwise, error_of_cases,
}

abbrev pub after : ParserInfo → ℕ → ParserInfo
after p i = record p { in_loop_counter = p.in_loop_counter + i }

abbrev pub outcome : Option Fatal → ParserInfo → Run ParserInfo
outcome none q = ok q
outcome (some m) q = fatal_error m

then_ok :
    (a b : Check) (p q : ParserInfo) (r : Run ParserInfo) → a p ≡ ok q → b q ≡ r → (a ⨟ b) p ≡ r
unfolding ◌⨟◌
then_ok a b p q r f g = rw f g

then_outcome :
    (a b : Check) (p q r : ParserInfo) (e f : Option Fatal)
    → a p ≡ outcome e q
    → b q ≡ outcome f r
    → (a ⨟ b) p ≡ outcome (first_of e f) r
unfolding ◌⨟◌
then_outcome a b p q r none f g h = rw g h
then_outcome a b p q r (some m) f g h = rw g refl

then_last :
    (a b : Check) (p q r : ParserInfo) (e : Option Fatal)
    → a p ≡ outcome e q
    → b q ≡ ok r
    → (a ⨟ b) p ≡ outcome e r
unfolding ◌⨟◌
then_last a b p q r none g h = rw g h
then_last a b p q r (some m) g h = rw g refl

after-zero : (p : ParserInfo) → after p 0 ≡ p
after-zero p = ap (λ k. record p { in_loop_counter = k }) (omega arith)

after-after : (p : ParserInfo) (i j : ℕ) → after (after p i) j ≡ after p (i + j)
after-after p i j = ap (λ k. record p { in_loop_counter = k }) (omega arith)

enter_lem : (p : ParserInfo) → parser_loop_enter p ≡ ok (after p 1)
unfolding parser_loop_enter
enter_lem p = refl

leave_lem : (p : ParserInfo) (i : ℕ) → parser_loop_leave (after (after p 1) i) ≡ ok (after p i)
unfolding parser_loop_leave
leave_lem p i =
    let open_ : (p.in_loop_counter + 1 + i == 0) ≡ false = ground arith in
    rw open_ (ap (λ k. ok (record p { in_loop_counter = k })) (omega arith))

then_after :
    (a b : Check) (p : ParserInfo) (e f : Option Fatal) (i j : ℕ)
    → a p ≡ outcome e (after p i)
    → b (after p i) ≡ outcome f (after (after p i) j)
    → (a ⨟ b) p ≡ outcome (first_of e f) (after p (i + j))
then_after a b p e f i j g h =
    then_outcome a b p (after p i) (after (after p i) j) e f g h
    ∙ ap (outcome (first_of e f)) (after-after p i j)

refused_lem :
    (b : Bool) (m : Fatal) (p q : ParserInfo)
    → p ≡ q
    → (if b then fatal_error m else ok p) ≡ outcome (if b then some m else none) q
refused_lem true m p q e = refl
refused_lem false m p q e = ap ok e

accepted_lem :
    (b : Bool) (m : Fatal) (p q : ParserInfo)
    → p ≡ q
    → (if b then ok p else fatal_error m) ≡ outcome (if b then none else some m) q
accepted_lem true m p q e = ap ok e
accepted_lem false m p q e = refl

-- The body of a loop, and what follows it.
loop_lem :
    (a b : Check) (p : ParserInfo) (e : Option Fatal) (i : ℕ) (r : Run ParserInfo)
    → a (after p 1) ≡ outcome e (after (after p 1) i)
    → b (after p i) ≡ r
    → (parser_loop_enter ⨟ a ⨟ parser_loop_leave ⨟ b) p
      ≡ (elim e [ none ↦ r | some m ↦ fatal_error m ])
unfolding ◌⨟◌
loop_lem a b p none i r f g = rw (enter_lem p) (rw f (rw (leave_lem p i) g))
loop_lem a b p (some m) i r f g = rw (enter_lem p) (rw f refl)

loop_outcome :
    (e f : Option Fatal) (q : ParserInfo)
    → (elim e [ none ↦ outcome f q | some m ↦ fatal_error m ]) ≡ outcome (first_of e f) q
loop_outcome none f q = refl
loop_outcome (some m) f q = refl

abbrev defaulted : Bool → CaseStatements → Bool
defaulted found no_case_statements = found
defaulted found (case_statement ss cs) = defaulted found cs
defaulted found (default_statement ss cs) = defaulted true cs

abbrev switching : ParserInfo → Bool → List Bool → ParserInfo
switching p found parents = record p { switches = found ∷ parents }

switch_lem :
    (a : Check) (p : ParserInfo) (e : Option Fatal) (i : ℕ) (found : Bool)
    → a (switching (after p 1) false p.switches)
      ≡ outcome e (switching (after (after p 1) i) found p.switches)
    → (parser_loop_enter ⨟ parser_switch_begin ⨟ a ⨟ parser_loop_leave ⨟ parser_switch_end) p
      ≡ outcome e (after p i)
unfolding ◌⨟◌ parser_switch_begin parser_switch_end end_switch
switch_lem a p none i found f =
    rw (enter_lem p) (rw f (rw (leave_lem (switching p found p.switches) i) refl))
switch_lem a p (some m) i found f = rw (enter_lem p) (rw f refl)

twice_lem :
    (a : Check) (p : ParserInfo) (parents : List Bool)
    → (parser_switch_default ⨟ a) (switching p true parents) ≡ fatal_error default_twice
unfolding ◌⨟◌ parser_switch_default add_default
twice_lem a p parents = refl

default_lem :
    (p : ParserInfo) (parents : List Bool)
    → parser_switch_default (switching p false parents) ≡ ok (switching p true parents)
unfolding parser_switch_default add_default
default_lem p parents = refl

-- The statements of a clause, and the clauses behind it.
clause_lem :
    (a b : Check) (p : ParserInfo) (e f : Option Fatal) (i j : ℕ) (found later : Bool)
    (parents : List Bool)
    → a (switching p found parents) ≡ outcome e (switching (after p i) found parents)
    → b (switching (after p i) found parents)
      ≡ outcome f (switching (after (after p i) j) later parents)
    → (a ⨟ b) (switching p found parents)
      ≡ outcome (first_of e f) (switching (after p (i + j)) later parents)
clause_lem a b p e f i j found later parents g h =
    then_outcome a b (switching p found parents) (switching (after p i) found parents) _ e f g h
    ∙ ap (λ q. outcome (first_of e f) (switching q later parents)) (after-after p i j)

loop_else_lem :
    (a b : Check) (p : ParserInfo) (e f : Option Fatal) (i j : ℕ)
    → a (after p 1) ≡ outcome e (after (after p 1) i)
    → b (after p i) ≡ outcome f (after (after p i) j)
    → (parser_loop_enter ⨟ a ⨟ parser_loop_leave ⨟ b) p ≡ outcome (first_of e f) (after p (i + j))
loop_else_lem a b p e f i j g h =
    loop_lem a b p e i _ g h ∙ loop_outcome e f _ ∙ ap (outcome (first_of e f)) (after-after p i j)

mutual
  unfolding parser_validate_jump parser_validate_return parse parse_all parse_otherwise parse_cases
      fors fors_all fors_otherwise fors_cases first_error error_of_all error_of_otherwise
      error_of_cases

  pub parse_lem :
      (s : Statement) (p : ParserInfo)
      → parse s p ≡ outcome (first_error p.in_method p.in_loop_counter s) (after p (fors s))
  parse_lem plain p = ap ok (sym (after-zero p))
  parse_lem jump p =
      refused_lem (p.in_loop_counter == 0) jump_outside_loop p (after p 0) (sym (after-zero p))
  parse_lem return_statement p =
      accepted_lem p.in_method return_outside_method p (after p 0) (sym (after-zero p))
  parse_lem (compound_statement ss) p = all_lem ss p
  parse_lem (if_statement s e) p =
      then_after (parse s) (parse_otherwise e) p _ _ (fors s) _ (parse_lem s p)
        (otherwise_lem e (after p (fors s)))
  parse_lem (switch_statement cs) p =
      switch_lem (parse_cases cs) p _ _ _ (cases_lem cs false p.switches (after p 1))
  parse_lem (while_iteration s e) p =
      loop_else_lem (parse s) (parse_otherwise e) p _ _ (fors s) _ (parse_lem s (after p 1))
        (otherwise_lem e (after p (fors s)))
  parse_lem (foreach_iteration s e) p =
      loop_else_lem (parse s) (parse_otherwise e) p _ _ (fors s) _ (parse_lem s (after p 1))
        (otherwise_lem e (after p (fors s)))
  parse_lem (do_iteration s) p = then_ok parser_loop_enter _ p (after p 1) _ (enter_lem p) (
      then_last (parse s) parser_loop_leave (after p 1) (after (after p 1) (fors s))
        (after p (fors s)) _ (parse_lem s (after p 1)) (leave_lem p (fors s)))
  parse_lem (for_iteration s) p =
      then_ok parser_loop_enter (parse s) p (after p 1) _ (enter_lem p)
        (parse_lem s (after p 1) ∙ ap (outcome _) (after-after p 1 (fors s)))
  parse_lem (guarding_statement b c f) p =
      then_after (parse_all b) _ p _ _ (fors_all b) _ (all_lem b p) (
        then_after (parse_all c) (parse_all f) (after p (fors_all b)) _ _ (fors_all c) _
          (all_lem c (after p (fors_all b)))
          (all_lem f (after (after p (fors_all b)) (fors_all c))))

  all_lem :
      (ss : Statements) (p : ParserInfo)
      → parse_all ss p
        ≡ outcome (error_of_all p.in_method p.in_loop_counter ss) (after p (fors_all ss))
  all_lem no_statements p = ap ok (sym (after-zero p))
  all_lem (more_statements s ss) p =
      then_after (parse s) (parse_all ss) p _ _ (fors s) _ (parse_lem s p)
        (all_lem ss (after p (fors s)))

  otherwise_lem :
      (e : Otherwise) (p : ParserInfo)
      → parse_otherwise e p
        ≡ outcome (error_of_otherwise p.in_method p.in_loop_counter e) (after p (fors_otherwise e))
  otherwise_lem no_otherwise p = ap ok (sym (after-zero p))
  otherwise_lem (otherwise s) p = parse_lem s p

  cases_lem :
      (cs : CaseStatements) (found : Bool) (parents : List Bool) (p : ParserInfo)
      → parse_cases cs (switching p found parents)
        ≡ outcome
            (error_of_cases p.in_method p.in_loop_counter found cs)
            (switching (after p (fors_cases cs)) (defaulted found cs) parents)
  cases_lem no_case_statements found parents p =
      ap (λ q. ok (switching q found parents)) (sym (after-zero p))
  cases_lem (case_statement ss cs) found parents p =
      clause_lem (parse_all ss) (parse_cases cs) p _ _ (fors_all ss) _ found _ parents
        (all_lem ss (switching p found parents))
        (cases_lem cs found parents (after p (fors_all ss)))
  cases_lem (default_statement ss cs) true parents p =
      twice_lem (parse_all ss ⨟ parse_cases cs) p parents
  cases_lem (default_statement ss cs) false parents p =
      then_ok parser_switch_default _ (switching p false parents) (switching p true parents) _
        (default_lem p parents)
        (clause_lem (parse_all ss) (parse_cases cs) p _ _ (fors_all ss) _ true _ parents
          (all_lem ss (switching p true parents))
          (cases_lem cs true parents (after p (fors_all ss))))

-- The parser takes a statement when it has no first error by its nesting: no jump outside of a loop or
-- switch, no return outside of a method, no second default clause in a switch; a for loop counts as
-- open also behind it. Then its state is as before, but for one open loop for each for loop;
-- otherwise it ends with that error.
pub parse-first_error :
    (s : Statement) (p : ParserInfo)
    → parse s p
      ≡ outcome
          (first_error p.in_method p.in_loop_counter s)
          (record p { in_loop_counter = p.in_loop_counter + fors s })
parse-first_error s p = parse_lem s p
