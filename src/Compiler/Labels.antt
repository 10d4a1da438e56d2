-- ===== src/Compiler/Labels.antt =====
-- The labels of `__ast_walker` of src/components/compiler/ast_to_asm.c over a whole tree.
use saffire.Prelude.{
  ℕ, ◌+◌, ◌<◌, ◌≡◌, refl, sym, ap, subst, ◌∙◌, ◌++◌, Bool, false, Option, [], ◌∷◌, Text, arith, ok,
  text_eq, Ends-eq, if◌then◌else◌,
}
use saffire.Compiler.{
  Ast, string_node, regex_node, identifier_node, numerical_node, null_node, nop_node, property_node,
  operator_node, comparison_node, assignment_node, bool_node, class_node, interface_node,
  attribute_node, group_node, tuple_node, program_node, import_node, argument_list, return_node,
  throw_node, if_node, ternary_node, break_node, breakelse_node, continue_node, do_node, while_node,
  for_node, foreach_node, call_node, datastruct_node, subscript_node, goto_node, label_node,
  goto_number, label_number, unknown_node, try_node, switch_node, coalesce_node, Nodes, no_nodes,
  more_nodes, Rows, no_rows, more_rows, Else, no_else, an_else, Attribute, method, constant,
  property, Arguments, no_arguments, more_arguments, Catches, no_catches, more_catches, Cases,
  no_cases, a_case, a_default,
}
use saffire.Asm.{op_string, op_regex, op_num}
use saffire.Compiler.State.{State, Walk, ctx_load}
use saffire.Compiler.Simple.{walk_identifier}
use saffire.Compiler.Branches.{walk_if, walk_ternary}
use saffire.Compiler.Names
use saffire.Compiler.Names.{label, if_text, ternaryif_text, parent_name, self_name, main_name}
use saffire.Compiler.Walk.{
  walk, walk_each, walk_reversed, walk_loaded, walk_row, walk_rows, walk_else, walk_value,
  walk_arguments, walk_catches, walk_cases, unless_nop, unless_null, length_nodes, length_rows,
  length_cases, has_default, attribute_type, attribute_arguments, is_parent, is_assignment,
}
use saffire.Compiler.Hits.{hits, is_user}
use saffire.Compiler.Uses.{uses, places, block_labels}
use saffire.Compiler.Opens.{Resolved, Opens, ◌▹◌, skip-Opens, emit-Opens, weaken}
use saffire.Compiler.Steps.{in_context-Opens}
use saffire.Compiler.SimpleLabels
use saffire.Compiler.ClassLabels
use saffire.Compiler.SimpleLabels.{Opens-if}
use saffire.Compiler.JumpLabels
use saffire.Compiler.JumpLabels.{OpensIf, missing, there, own}
use saffire.Compiler.Clauses.{
  placed, placed_lem, default-placed, case-joins, default-joins, length_catches, caught, caught_lem,
}

unless_nop-Opens : {w : Walk} (e : Ast) → Opens [] [] w → OpensIf (unless_nop e w)
unfolding unless_nop
unless_nop-Opens nop_node m = missing
unless_nop-Opens e m = there m

unless_null-Opens : {w : Walk} (e : Ast) → Opens [] [] w → OpensIf (unless_null e w)
unfolding unless_null
unless_null-Opens (null_node l) m = missing
unless_null-Opens e m = there m

object-Opens :
    {w : Walk} (l : ℕ) (n : Text) (class : Ast)
    → Opens [] [] w
    → Opens [] [] (if is_parent false class then walk_identifier l n else w)
unfolding is_parent
object-Opens l n (identifier_node k s) m =
    Opens-if (text_eq s parent_name) (SimpleLabels.walk_identifier-Opens l n) m
object-Opens l n c m = m

if-Opens :
    {a b : Walk} {o : Option Walk} (l : ℕ)
    → Opens [] [] a
    → Opens [] [] b
    → OpensIf o
    → Opens [] [] (walk_if l a b o)
unfolding walk_if
if-Opens l a b o = JumpLabels.walk_condition-Opens if_text l refl a b o

ternary-Opens :
    {a b : Walk} {o : Option Walk} (l : ℕ)
    → Opens [] [] a
    → Opens [] [] b
    → OpensIf o
    → Opens [] [] (walk_ternary l a b o)
unfolding walk_ternary
ternary-Opens l a b o = JumpLabels.walk_condition-Opens ternaryif_text l refl a b o

mutual
  unfolding walk walk_each walk_reversed walk_loaded walk_row walk_rows walk_else walk_value
      walk_arguments walk_catches walk_cases length_cases has_default

  pub opens : (p g : Bool) (a : Ast) → Opens [] [] (walk p g a)
  opens p g (string_node l s) = SimpleLabels.walk_constant-Opens l (op_string s)
  opens p g (regex_node l s) = SimpleLabels.walk_constant-Opens l (op_regex s)
  opens p g (numerical_node l n) = SimpleLabels.walk_constant-Opens l (op_num n)
  opens p g (null_node l) = SimpleLabels.walk_null-Opens l
  opens p g (identifier_node l s) = SimpleLabels.walk_identifier-Opens l s
  opens p g nop_node = skip-Opens
  opens p g (property_node l c n) =
      SimpleLabels.walk_property-Opens l (is_parent g c) n
        (object-Opens l self_name c (opens p g c))
  opens p g (operator_node l o a b) =
      SimpleLabels.walk_operator-Opens l o (opens p g a) (opens p g b)
  opens p g (comparison_node l c a b) =
      SimpleLabels.walk_comparison-Opens l c (opens p g a) (opens p g b)
  opens p g (assignment_node l o a b) =
      SimpleLabels.walk_assignment-Opens l o (is_assignment b) (opens p g a) (opens p g b)
        (opens p _ a)
  opens p g (bool_node l o a b) = SimpleLabels.walk_bool-Opens l o (opens p g a) (opens p g b)
  opens p g (class_node l m n e i b) =
      ClassLabels.walk_class-Opens l m n (length_nodes i) (opens p g e) (each-Opens p g i)
        (opens p g b)
  opens p g (interface_node l m n i b) =
      ClassLabels.walk_interface-Opens l m n (length_nodes i) (each-Opens p g i) (opens p g b)
  opens p g (attribute_node l v a n at) =
      ClassLabels.walk_attribute-Opens l v a (attribute_type at) (attribute_arguments at) n
        (value-Opens p g l at)
  opens p g (group_node ns) = each-Opens p g ns
  opens p g (tuple_node l ns) =
      SimpleLabels.walk_tuple-Opens l (length_nodes ns) (each-Opens p g ns) (reversed-Opens p g ns)
  opens p g (program_node i s) = opens p g i ▹ opens p g s
  opens p g (import_node l c a x) = SimpleLabels.walk_import-Opens l a (opens p g c) (opens p g x)
  opens p g (argument_list ns) = each-Opens p g ns
  opens p g (return_node l e) = SimpleLabels.walk_return-Opens l (opens p g e)
  opens p g (throw_node l e) = SimpleLabels.walk_throw-Opens l (opens p g e)
  opens p g (if_node l t b e) = if-Opens l (opens p g t) (opens p g b) (else_opens p g e)
  opens p g (ternary_node l t b e) = ternary-Opens l (opens p g t) (opens p g b) (else_opens p g e)
  opens p g (break_node l) = emit-Opens _
  opens p g (breakelse_node l) = emit-Opens _
  opens p g (continue_node l) = JumpLabels.walk_continue-Opens l
  opens p g (do_node l b t) = JumpLabels.walk_do-Opens l (opens p g b) (opens p g t)
  opens p g (while_node l t b e) =
      JumpLabels.walk_while-Opens (opens p g t) (opens p g b) (else_opens p g e)
  opens p g (for_node l i t s b) =
      JumpLabels.walk_for-Opens l (opens p g i) (unless_nop-Opens t (opens p g t)) (opens p g s)
        (opens p g b)
  opens p g (foreach_node l o b k v m e) =
      JumpLabels.walk_foreach-Opens (opens p g o) (opens p g b) (unless_null-Opens k (opens p g k))
        (unless_null-Opens v (opens p g v)) (unless_null-Opens m (opens p g m)) (else_opens p g e)
  opens p g (call_node l c ns) =
      SimpleLabels.walk_call-Opens l (length_nodes ns) (each-Opens p g ns) (opens p g c)
  opens p g (datastruct_node l c rows) =
      SimpleLabels.walk_datastruct-Opens l (length_rows rows) (rows-Opens p g rows) (opens p g c)
  opens p g (subscript_node l c ns) =
      SimpleLabels.walk_subscript-Opens l (length_nodes ns) (loaded-Opens p g ns) (opens p g c)
  opens p g (goto_node l n) = JumpLabels.walk_goto-Opens l n
  opens p g (goto_number l n) = record { run = λ s. tt }
  opens p g (label_number l n) = record { run = λ s. tt }
  opens p g (unknown_node l o ns) = record { run = λ s. tt }
  opens p g (label_node l n) = JumpLabels.walk_label-Opens n
  opens p g (try_node l b cs f) =
      JumpLabels.walk_try-Opens l (length_catches cs) (λ clc. caught clc 0 cs) (opens p g b)
        (λ clc. catches-Opens p g l 0 cs clc)
        (λ clc t. caught_lem cs clc 0 (length_catches cs) t (omega arith))
        (unless_nop-Opens f (opens p g f))
  opens p g (switch_node l e cs) =
      JumpLabels.walk_switch-Opens (length_cases cs) (has_default cs) (λ clc. placed clc 0 cs)
        (opens p g e) (λ clc. cases-Opens p g 0 (length_cases cs) cs clc (omega arith))
        (λ clc t f. placed_lem cs clc 0 (length_cases cs) t (omega arith) f)
        (λ d clc t h. default-placed cs clc 0 t d h)
  opens p g (coalesce_node l a b) = JumpLabels.walk_coalesce-Opens l (opens p g a) (opens p g b)

  each-Opens : (p g : Bool) (ns : Nodes) → Opens [] [] (walk_each p g ns)
  each-Opens p g no_nodes = skip-Opens
  each-Opens p g (more_nodes n ns) = opens p g n ▹ each-Opens p g ns

  reversed-Opens : (p g : Bool) (ns : Nodes) → Opens [] [] (walk_reversed p g ns)
  reversed-Opens p g no_nodes = skip-Opens
  reversed-Opens p g (more_nodes n ns) = reversed-Opens p g ns ▹ opens p g n

  loaded-Opens : (p g : Bool) (ns : Nodes) → Opens [] [] (walk_loaded p g ns)
  loaded-Opens p g no_nodes = skip-Opens
  loaded-Opens p g (more_nodes n ns) = in_context-Opens ctx_load (opens p g n) ▹ loaded-Opens p g ns

  row-Opens : (p g : Bool) (ns : Nodes) → Opens [] [] (walk_row p g ns)
  row-Opens p g no_nodes = skip-Opens
  row-Opens p g (more_nodes n ns) = row-Opens p g ns ▹ in_context-Opens ctx_load (opens p g n)

  rows-Opens : (p g : Bool) (rs : Rows) → Opens [] [] (walk_rows p g rs)
  rows-Opens p g no_rows = skip-Opens
  rows-Opens p g (more_rows r rs) = rows-Opens p g rs ▹ row-Opens p g r

  else_opens : (p g : Bool) (e : Else) → OpensIf (walk_else p g e)
  else_opens p g no_else = missing
  else_opens p g (an_else e) = there (opens p g e)

  value-Opens : (p g : Bool) (l : ℕ) (a : Attribute) → Opens [] [] (walk_value p g l a)
  value-Opens p g l (method as_ f b) =
      ClassLabels.walk_method-Opens p l f (arguments-Opens p g as_) (opens p g b)
  value-Opens p g l (constant v) = in_context-Opens ctx_load (opens p g v)
  value-Opens p g l (property v) = in_context-Opens ctx_load (opens p g v)

  arguments-Opens : (p g : Bool) (as_ : Arguments) → Opens [] [] (walk_arguments p g as_)
  arguments-Opens p g no_arguments = skip-Opens
  arguments-Opens p g (more_arguments h n v rest) =
      arguments-Opens p g rest
      ▹ ClassLabels.walk_argument-Opens (opens p g h) (opens p g n) (opens p g v)

  catches-Opens :
      (p g : Bool) (l i : ℕ) (cs : Catches) (clc : ℕ)
      → Opens
          (label Names.try_text clc Names.finally_suffix ∷ [])
          (caught clc i cs)
          (walk_catches p g l i cs clc)
  catches-Opens p g l i no_catches clc =
      weaken _ _ skip-Opens (λ t h. absurd (omega (arith, h))) (λ t h. h) (λ t f. omega arith)
  catches-Opens p g l i (more_catches x y b rest) clc =
      weaken _ _
        (JumpLabels.walk_catch-Opens l clc i x y (opens p g b)
          ▹ catches-Opens p g l (i + 1) rest clc)
        (λ t h. omega (arith, h)) (λ t h. h) (λ t f. omega arith)

  cases-Opens :
      (p g : Bool) (i n : ℕ) (cs : Cases) (clc : ℕ)
      → i + length_cases cs ≡ n
      → Opens (own clc n) (placed clc i cs) (walk_cases p g i cs clc)
  cases-Opens p g i n no_cases clc e =
      weaken _ _ skip-Opens (λ t h. absurd (omega (arith, h))) (λ t h. h) (λ t f. omega arith)
  cases-Opens p g i n (a_case l v b rest) clc e =
      case-joins l clc i n rest (omega (arith, e)) (opens p g v) (opens p g b)
        (cases-Opens p g (i + 1) n rest clc (omega (arith, e)))
  cases-Opens p g i n (a_default b rest) clc e =
      default-joins clc i n rest (omega (arith, e)) (opens p g b)
        (cases-Opens p g (i + 1) n rest clc (omega (arith, e)))

-- A walk over any tree into an empty frame, from a state whose blocks hold no label, when it returns,
-- has placed in the frame every label that its instructions name, `continue` statements included, but
-- for those that the program declares.
walk-labels :
    (append again : Bool) (a : Ast) (s s' : State) (t : Text)
    → s.lines ≡ []
    → block_labels s.blocks ≡ []
    → walk append again a s ≡ ok s'
    → is_user t ≡ false
    → 0 < uses t s'.lines
    → 0 < places t s'.lines
walk-labels append again a s s' t empty none_held run user used =
    let r =
      Ends-eq (Resolved [] [] s) (walk append again a s) s' run ((opens append again a).run s) in
    let only = r.lines ∙ ap (λ l. l ++ r.new) empty in
    let held = r.closed t user (subst (λ l. 0 < uses t l) only used) in
    subst (λ l. 0 < places t l) (sym only)
      (omega (arith, subst (λ b. 0 < places t r.new + hits t b) none_held (omega (arith, held))))
