-- ===== src/Compiler/Stacks.antt =====
-- The stacks and the blocks of `__ast_walker` of src/components/compiler/ast_to_asm.c over a whole tree.
use saffire.Prelude.{
  ℕ, ◌+◌, ◌<◌, ◌≡◌, Bool, false, Option, List, Text, arith, ok, >>=-returns, text_eq, Settles,
  Settles-eq, Settles-bind, Stops, Settles-Stops, if◌then◌else◌,
}
use saffire.Compiler.{
  Ast, string_node, regex_node, identifier_node, numerical_node, null_node, nop_node, property_node,
  operator_node, comparison_node, assignment_node, bool_node, class_node, interface_node,
  attribute_node, group_node, tuple_node, program_node, import_node, argument_list, return_node,
  throw_node, if_node, ternary_node, break_node, breakelse_node, continue_node, do_node, while_node,
  for_node, foreach_node, call_node, datastruct_node, subscript_node, goto_node, label_node,
  goto_number, label_number, unknown_node, try_node, switch_node, coalesce_node, Nodes, no_nodes,
  more_nodes, Rows, no_rows, more_rows, Else, no_else, an_else, Attribute, method, constant,
  property, Arguments, no_arguments, more_arguments, Catches, no_catches, more_catches, Cases,
  no_cases, a_case, a_default,
}
use saffire.Asm.{op_string, op_regex, op_num, op_id, Opr, Line}
use saffire.Compiler.Classes.{ast_to_frame, fill_frame}
use saffire.Compiler.State.{state_init, State, Walk, ◌⨾◌, ctx_load, type_const, type_id}
use saffire.Compiler.Simple.{walk_constant, walk_null, walk_identifier}
use saffire.Compiler.Branches.{walk_if, walk_ternary, walk_continue}
use saffire.Compiler.Names.{if_text, ternaryif_text, parent_name, self_name, main_name}
use saffire.Compiler.Walk.{
  ast_to_asm, walk, walk_each, walk_reversed, walk_loaded, walk_row, walk_rows, walk_else,
  walk_value, walk_arguments, walk_catches, walk_cases, unless_nop, unless_null, length_nodes,
  length_rows, length_cases, has_default, attribute_type, attribute_arguments, is_parent,
  is_assignment,
}
use saffire.Compiler.Moves.{
  Restores, Moves, ◌▸◌, skip-Moves, emit-Moves, recount, in_context-Moves, in_type-Moves,
}
use saffire.Compiler.BlockMoves.{continue_loop-Moves}
use saffire.Compiler.Effects
use saffire.Compiler.Effects.{Moves-if, twice, when_counted, load_or_store-Moves}
use saffire.Compiler.JumpEffects
use saffire.Compiler.JumpEffects.{MovesIf, missing, there}
use saffire.Compiler.ClassEffects
use saffire.Compiler.SwitchCount.{
  switches, switches_each, switches_rows, switches_else, switches_value, switches_arguments,
  switches_catches, switches_cases,
}

unless_nop-Moves :
    {w : Walk} (e : Ast) → Moves 0 (switches e) w → MovesIf (switches e) (unless_nop e w)
unfolding unless_nop switches
unless_nop-Moves nop_node m = missing
unless_nop-Moves e m = there m

unless_null-Moves :
    {w : Walk} (e : Ast) → Moves 0 (switches e) w → MovesIf (switches e) (unless_null e w)
unfolding unless_null switches
unless_null-Moves (null_node l) m = missing
unless_null-Moves e m = there m

constant-Moves : (l : ℕ) (o : Opr) → Moves 0 0 (walk_constant l o)
unfolding walk_constant
constant-Moves l o = in_type-Moves type_const (load_or_store-Moves l o)

name-Moves : (l : ℕ) (n : Text) → Moves 0 0 (walk_identifier l n)
unfolding walk_identifier
name-Moves l n = in_type-Moves type_id (load_or_store-Moves l (op_id n))

null-Moves : (l : ℕ) → Moves 0 0 (walk_null l)
unfolding walk_null
null-Moves l = emit-Moves _

if-Moves :
    {m n k : ℕ} {a b : Walk} {o : Option Walk} (l : ℕ)
    → Moves 0 m a
    → Moves 0 n b
    → MovesIf k o
    → Moves 0 (m + (n + k)) (walk_if l a b o)
unfolding walk_if
if-Moves l a b o = JumpEffects.walk_condition-Moves if_text l a b o

ternary-Moves :
    {m n k : ℕ} {a b : Walk} {o : Option Walk} (l : ℕ)
    → Moves 0 m a
    → Moves 0 n b
    → MovesIf k o
    → Moves 0 (m + (n + k)) (walk_ternary l a b o)
unfolding walk_ternary
ternary-Moves l a b o = JumpEffects.walk_condition-Moves ternaryif_text l a b o

continue-Moves : (l : ℕ) → Moves 0 0 (walk_continue l)
unfolding walk_continue
continue-Moves l = continue_loop-Moves 0x92 l

-- The object of a property, which is a name when it is the parent.
object-Moves :
    {w : Walk} (l : ℕ) (n : Text) (class : Ast)
    → Moves 0 (switches class) w
    → Moves 0 (switches class) (if is_parent false class then walk_identifier l n else w)
unfolding is_parent switches
object-Moves l n (identifier_node k s) m = Moves-if (text_eq s parent_name) (name-Moves l n) m
object-Moves l n c m = m

mutual
  unfolding walk walk_each walk_reversed walk_loaded walk_row walk_rows walk_else walk_value
      walk_arguments walk_catches walk_cases switches switches_each switches_rows switches_else
      switches_value switches_arguments switches_catches switches_cases

  moves : (p g : Bool) (a : Ast) → Moves 0 (switches a) (walk p g a)
  moves p g (string_node l s) = constant-Moves l (op_string s)
  moves p g (regex_node l s) = constant-Moves l (op_regex s)
  moves p g (numerical_node l n) = constant-Moves l (op_num n)
  moves p g (null_node l) = null-Moves l
  moves p g (identifier_node l s) = name-Moves l s
  moves p g nop_node = skip-Moves
  moves p g (property_node l c n) =
      Effects.walk_property-Moves l (is_parent g c) n (object-Moves l self_name c (moves p g c))
  moves p g (operator_node l o a b) = Effects.walk_operator-Moves l o (moves p g a) (moves p g b)
  moves p g (comparison_node l c a b) =
      Effects.walk_comparison-Moves l c (moves p g a) (moves p g b)
  moves p g (assignment_node l o a b) =
      Effects.walk_assignment-Moves l o (is_assignment b) (moves p g a) (moves p g b) (moves p _ a)
  moves p g (bool_node l o a b) = Effects.walk_bool-Moves l o (moves p g a) (moves p g b)
  moves p g (class_node l m n e i b) =
      ClassEffects.walk_class-Moves l m n (length_nodes i) (moves p g e) (each-Moves p g i)
        (moves p g b)
  moves p g (interface_node l m n i b) =
      ClassEffects.walk_interface-Moves l m n (length_nodes i) (each-Moves p g i) (moves p g b)
  moves p g (attribute_node l v a n at) =
      ClassEffects.walk_attribute-Moves l v a (attribute_type at) (attribute_arguments at) n
        (value-Moves p g l at)
  moves p g (group_node ns) = each-Moves p g ns
  moves p g (tuple_node l ns) =
      Effects.walk_tuple-Moves l (length_nodes ns) (each-Moves p g ns) (reversed-Moves p g ns)
  moves p g (program_node i s) = moves p g i ▸ moves p g s
  moves p g (import_node l c a x) = Effects.walk_import-Moves l a (moves p g c) (moves p g x)
  moves p g (argument_list ns) = each-Moves p g ns
  moves p g (return_node l e) = Effects.walk_return-Moves l (moves p g e)
  moves p g (throw_node l e) = Effects.walk_throw-Moves l (moves p g e)
  moves p g (if_node l t b e) = if-Moves l (moves p g t) (moves p g b) (else_moves p g e)
  moves p g (ternary_node l t b e) = ternary-Moves l (moves p g t) (moves p g b) (else_moves p g e)
  moves p g (break_node l) = emit-Moves _
  moves p g (breakelse_node l) = emit-Moves _
  moves p g (continue_node l) = continue-Moves l
  moves p g (do_node l b t) = JumpEffects.walk_do-Moves l (moves p g b) (moves p g t)
  moves p g (while_node l t b e) =
      JumpEffects.walk_while-Moves (moves p g t) (moves p g b) (else_moves p g e)
  moves p g (for_node l i t s b) =
      JumpEffects.walk_for-Moves l (moves p g i) (unless_nop-Moves t (moves p g t)) (moves p g s)
        (moves p g b)
  moves p g (foreach_node l o b k v m e) =
      JumpEffects.walk_foreach-Moves (moves p g o) (moves p g b) (unless_null-Moves k (moves p g k))
        (unless_null-Moves v (moves p g v)) (unless_null-Moves m (moves p g m)) (else_moves p g e)
  moves p g (call_node l c ns) =
      Effects.walk_call-Moves l (length_nodes ns) (each-Moves p g ns) (moves p g c)
  moves p g (datastruct_node l c rows) =
      Effects.walk_datastruct-Moves l (length_rows rows) (rows-Moves p g rows) (moves p g c)
  moves p g (subscript_node l c ns) =
      Effects.walk_subscript-Moves l (length_nodes ns) (loaded-Moves p g ns) (moves p g c)
  moves p g (goto_node l n) = JumpEffects.walk_goto-Moves l n
  moves p g (goto_number l n) = record { run = λ s h. tt }
  moves p g (label_number l n) = record { run = λ s h. tt }
  moves p g (unknown_node l o ns) = record { run = λ s h. tt }
  moves p g (label_node l n) = JumpEffects.walk_label-Moves n
  moves p g (try_node l b cs f) =
      JumpEffects.walk_try-Moves l (moves p g b) (λ clc. catches-Moves p g l 0 cs clc)
        (unless_nop-Moves f (moves p g f))
  moves p g (switch_node l e cs) =
      JumpEffects.walk_switch-Moves (length_cases cs) (has_default cs) (moves p g e)
        (λ clc. cases-Moves p g 0 cs clc)
  moves p g (coalesce_node l a b) = JumpEffects.walk_coalesce-Moves l (moves p g a) (moves p g b)

  each-Moves : (p g : Bool) (ns : Nodes) → Moves 0 (switches_each ns) (walk_each p g ns)
  each-Moves p g no_nodes = skip-Moves
  each-Moves p g (more_nodes n ns) = moves p g n ▸ each-Moves p g ns

  reversed-Moves : (p g : Bool) (ns : Nodes) → Moves 0 (switches_each ns) (walk_reversed p g ns)
  reversed-Moves p g no_nodes = skip-Moves
  reversed-Moves p g (more_nodes n ns) =
      recount (switches n + switches_each ns) (omega arith) (reversed-Moves p g ns ▸ moves p g n)

  loaded-Moves : (p g : Bool) (ns : Nodes) → Moves 0 (switches_each ns) (walk_loaded p g ns)
  loaded-Moves p g no_nodes = skip-Moves
  loaded-Moves p g (more_nodes n ns) = in_context-Moves ctx_load (moves p g n) ▸ loaded-Moves p g ns

  row-Moves : (p g : Bool) (ns : Nodes) → Moves 0 (switches_each ns) (walk_row p g ns)
  row-Moves p g no_nodes = skip-Moves
  row-Moves p g (more_nodes n ns) =
      recount (switches n + switches_each ns) (omega arith)
        (row-Moves p g ns ▸ in_context-Moves ctx_load (moves p g n))

  rows-Moves : (p g : Bool) (rs : Rows) → Moves 0 (switches_rows rs) (walk_rows p g rs)
  rows-Moves p g no_rows = skip-Moves
  rows-Moves p g (more_rows r rs) =
      recount (switches_each r + switches_rows rs) (omega arith)
        (rows-Moves p g rs ▸ row-Moves p g r)

  else_moves : (p g : Bool) (e : Else) → MovesIf (switches_else e) (walk_else p g e)
  else_moves p g no_else = missing
  else_moves p g (an_else e) = there (moves p g e)

  value-Moves :
      (p g : Bool) (l : ℕ) (a : Attribute) → Moves 0 (switches_value a) (walk_value p g l a)
  value-Moves p g l (method as_ f b) =
      ClassEffects.walk_method-Moves p l f (walk p g b) (arguments-Moves p g as_) (moves p g b)
  value-Moves p g l (constant v) = in_context-Moves ctx_load (moves p g v)
  value-Moves p g l (property v) = in_context-Moves ctx_load (moves p g v)

  arguments-Moves :
      (p g : Bool) (as_ : Arguments) → Moves 0 (switches_arguments as_) (walk_arguments p g as_)
  arguments-Moves p g no_arguments = skip-Moves
  arguments-Moves p g (more_arguments h n v rest) =
      recount (switches h + (switches n + switches v) + switches_arguments rest) (omega arith) (
        arguments-Moves p g rest
        ▸ ClassEffects.walk_argument-Moves (moves p g h) (moves p g n) (moves p g v))

  catches-Moves :
      (p g : Bool) (l i : ℕ) (cs : Catches) (clc : ℕ)
      → Moves 0 (switches_catches cs) (walk_catches p g l i cs clc)
  catches-Moves p g l i no_catches clc = skip-Moves
  catches-Moves p g l i (more_catches x y b rest) clc =
      JumpEffects.walk_catch-Moves l clc i x y (moves p g b) ▸ catches-Moves p g l (i + 1) rest clc

  cases-Moves :
      (p g : Bool) (i : ℕ) (cs : Cases) (clc : ℕ)
      → Moves 0 (switches_cases cs) (walk_cases p g i cs clc)
  cases-Moves p g i no_cases clc = skip-Moves
  cases-Moves p g i (a_case l v b rest) clc =
      JumpEffects.walk_case-Moves clc i l (moves p g v) (moves p g b)
      ▸ cases-Moves p g (i + 1) rest clc
  cases-Moves p g i (a_default b rest) clc =
      JumpEffects.walk_default-Moves clc i (moves p g b) ▸ cases-Moves p g (i + 1) rest clc

-- A walk over a tree that returns leaves the four stacks as they were and only appends to the frame;
-- it gives back the block of every loop, but each switch statement that it comes by keeps one.
pub walk-Restores :
    (append again : Bool) (a : Ast) (s s' : State)
    → walk append again a s ≡ ok s'
    → Restores 0 (switches a) s s'
walk-Restores append again a s s' run =
    Settles-eq (Restores 0 (switches a) s) (walk append again a s) s' run
      ((moves append again a).run s (omega arith))

switches_too_many :
    (append : Bool) (a : Ast) (output : List (Text × List Line))
    → 20 < switches a
    → ast_to_asm a append ≡ ok output
    → ⊥
unfolding ast_to_asm ast_to_frame fill_frame ◌⨾◌ state_init
switches_too_many append a output many run =
    let (s₁, frame, _) =
      >>=-returns (ast_to_frame append main_name (walk append false a) (state_init 0)) _ run in
    let (s₂, filled, _) =
      >>=-returns (fill_frame append main_name (walk append false a) (state_init 0)) _ frame in
    let (s₃, walked, _) = >>=-returns (walk append false a (state_init 0)) _ filled in
    let r = walk-Restores append false a (state_init 0) s₃ walked in
    absurd (omega (arith, many, r.block_cnt, r.depth, r.room (omega arith)))

ast_to_asm-Settles : (append : Bool) (a : Ast) → Settles (λ _. Unit {0}) (ast_to_asm a append)
unfolding ast_to_asm state_init
ast_to_asm-Settles append a =
    Settles-bind (Restores 0 0 (state_init 0)) (λ _. Unit {0}) _ _
      ((ClassEffects.ast_to_frame-Moves append main_name (walk append false a)
          (moves append false a)).run
        (state_init 0) (omega arith))
      (λ s r. tt)

-- Each switch statement keeps one of the 20 blocks: for a program with more than 20 switch statements
-- outside of methods, `ast_to_asm` ends in a fatal error or in undefined behaviour, as the use of the
-- array of blocks behind its end is.
pub ast_to_asm-switches : (append : Bool) (a : Ast) → 20 < switches a → Stops (ast_to_asm a append)
ast_to_asm-switches append a many =
    Settles-Stops (λ _. Unit {0}) (ast_to_asm a append) (ast_to_asm-Settles append a)
      (λ output run. switches_too_many append a output many run)
