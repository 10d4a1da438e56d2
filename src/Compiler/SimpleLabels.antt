-- ===== src/Compiler/SimpleLabels.antt =====
-- The labels that the cases of src/components/compiler/ast_to_asm.c without jumps use and place.
use saffire.Prelude.{
  ◌≡◌, text_eq, ℕ, ◌-◌, refl, Bool, true, false, Option, none, some, List, [], ◌∷◌, Text, arith,
  Run, Fatal, fatal_error, write_to_range, read_from_empty, ok, Ends, Ends-imp, ◌==◌, ◌&&◌,
  if◌then◌else◌, leb,
}
use saffire.Asm.{Opr, code_line, op_id}
use saffire.Compiler.{Arith, Comparison, Logic}
use saffire.Compiler.State.{
  State, Walk, ctx_load, ctx_store, type_id, type_const, side_left, side_right, call_pop, call_stay,
  peek,
}
use saffire.Compiler.Simple.{
  op, load_or_store, walk_constant, walk_identifier, walk_property, walk_operator, compare_op,
  comparison_value, walk_comparison, walk_assignment, open_assignment, duplicate_open, load_first,
  operate, walk_bool, walk_tuple, walk_import, walk_return, walk_throw, walk_call, walk_datastruct,
  walk_subscript, subscript_op, counted, walk_null,
}
use saffire.Compiler.Simple.{logic_text}
use saffire.Compiler.Names
use saffire.Compiler.Names.{main_name}
use saffire.Compiler.Numbers.{is_plain}
use saffire.Compiler.Hits.{hit, labels_lem}
use saffire.Compiler.{and_op, or_op}
use saffire.Compiler.Uses.{frames_named, named}
use saffire.Compiler.Opens.{
  Effect, Step, Resolved, Opens, ◌▹◌, skip-Opens, emit-Opens, same-Resolved,
}
use saffire.Compiler.Steps.{
  in_context-Opens, in_type-Opens, in_side-Opens, in_call-Opens, numbered-Opens, around,
}

pub Opens-if :
    {us ps cs : List Text} {a b : Walk} (t : Bool)
    → Step us ps cs a
    → Step us ps cs b
    → Step us ps cs (if t then a else b)
Opens-if true p q = p
Opens-if false p q = q

Ends-choose :
    (t : Bool) (P : State → Type 0) (x y : Run State)
    → Ends P x
    → Ends P y
    → Ends P (if t then x else y)
Ends-choose true P x y h k = h
Ends-choose false P x y h k = k

Opens-test :
    {us ps cs : List Text} {a b : Walk} (t : State → Bool)
    → Step us ps cs a
    → Step us ps cs b
    → Step us ps cs (λ s. if t s then a s else b s)
Opens-test {us} {ps} {cs} {a} {b} t p q = record {
  run = λ s. Ends-choose (t s) (Effect us ps cs s) (a s) (b s) (p.run s) (q.run s);
}

Opens-at :
    {us ps : List Text} {w : State → Walk}
    → ((s : State) → Opens us ps (w s))
    → Opens us ps (λ s. w s s)
Opens-at m = record { run = λ s. (m s).run s }

fails : (message : Fatal) → Opens [] [] (λ s. fatal_error message)
fails message = record { run = λ s. tt }

stays : Opens [] [] (λ s. ok s)
stays = record { run = λ s. same-Resolved s s (refl, refl, refl, refl) }

load_or_store-Opens :
    (l : ℕ) (o : Opr) → Step (named (o ∷ [])) [] (frames_named (o ∷ [])) (load_or_store l o)
unfolding load_or_store
load_or_store-Opens l o =
    Opens-test (λ s. peek s.context == ctx_load)
      (Opens-test (λ s. peek s.type_ == type_id) (emit-Opens _) (emit-Opens _)) (emit-Opens _)

pub walk_constant-Opens :
    (l : ℕ) (o : Opr) → Step (named (o ∷ [])) [] (frames_named (o ∷ [])) (walk_constant l o)
unfolding walk_constant
walk_constant-Opens l o = in_type-Opens type_const (load_or_store-Opens l o)

pub walk_identifier-Opens : (l : ℕ) (n : Text) → Opens [] [] (walk_identifier l n)
unfolding walk_identifier
walk_identifier-Opens l n = in_type-Opens type_id (load_or_store-Opens l (op_id n))

pub walk_null-Opens : (l : ℕ) → Opens [] [] (walk_null l)
unfolding walk_null
walk_null-Opens l = emit-Opens _

pub walk_property-Opens :
    {c : Walk} (l : ℕ) (parent : Bool) (p : Text)
    → Opens [] [] c
    → Opens [] [] (walk_property l parent c p)
unfolding walk_property
walk_property-Opens l parent p c =
    in_context-Opens ctx_load c
    ▹ Opens-test (λ s. peek s.context == ctx_load) (emit-Opens _)
        (Opens-test (λ s. parent) (record { run = λ s. tt }) (emit-Opens _))

pub walk_operator-Opens :
    {a b : Walk} (l : ℕ) (o : Arith)
    → Opens [] [] a
    → Opens [] [] b
    → Opens [] [] (walk_operator l o a b)
unfolding walk_operator
walk_operator-Opens l o a b =
    in_type-Opens type_id (in_side-Opens side_left a)
    ▹ in_type-Opens type_id (in_side-Opens side_left b)
    ▹ emit-Opens _

compare_op-Opens : (l : ℕ) (o : Option ℕ) → Opens [] [] (compare_op l o)
unfolding compare_op
compare_op-Opens l none = record { run = λ s. tt }
compare_op-Opens l (some v) = emit-Opens _

pub walk_comparison-Opens :
    {a b : Walk} (l : ℕ) (c : Comparison)
    → Opens [] [] a
    → Opens [] [] b
    → Opens [] [] (walk_comparison l c a b)
unfolding walk_comparison
walk_comparison-Opens l c a b =
    in_call-Opens call_stay (
      in_context-Opens ctx_load (in_side-Opens side_right b)
      ▹ in_context-Opens ctx_load (in_side-Opens side_left a))
    ▹ compare_op-Opens l (comparison_value c)

logic_plain : (o : Logic) → is_plain (logic_text o) ≡ true
logic_plain and_op = refl
logic_plain or_op = refl

pub walk_bool-Opens :
    {a b : Walk} (l : ℕ) (o : Logic)
    → Opens [] [] a
    → Opens [] [] b
    → Opens [] [] (walk_bool l o a b)
unfolding walk_bool hit text_eq
walk_bool-Opens l o a b =
    numbered-Opens (λ clc. a ▹ emit-Opens _ ▹ emit-Opens _ ▹ b ▹ emit-Opens _)
      (λ clc t h. omega (arith, h))
      (λ clc t f.
        omega (
          arith,
          labels_lem (logic_text o) clc (Names.end_suffix ∷ []) t (logic_plain o) refl refl,
        ))

open-Opens : (b : Bool) → Opens [] [] (open_assignment b)
unfolding open_assignment
open-Opens b =
    Opens-test (λ s. b) (record { run = λ s. same-Resolved s _ (refl, refl, refl, refl) }) stays

duplicate-Opens : (l : ℕ) → Opens [] [] (duplicate_open l)
unfolding duplicate_open
duplicate-Opens l =
    Opens-test (λ s. leb 1 s.multi_assignment)
      (record {
        run = λ s.
            let s₁ = record s { multi_assignment = s.multi_assignment - 1 } in
            Ends-imp (Resolved [] [] s₁) (Resolved [] [] s) (op 0x04 l [] s₁)
              (λ s₂ r. around s s₁ s₂ s₂ (refl, refl, refl, refl) (refl, refl, refl, refl) r)
              ((emit-Opens (code_line l 0x04 [])).run s₁);
      })
      stays

load_first-Opens : {a : Walk} (o : Option Arith) → Opens [] [] a → Opens [] [] (load_first o a)
load_first-Opens none a = skip-Opens
load_first-Opens (some o) a = in_side-Opens side_left (in_context-Opens ctx_load a)

operate-Opens : (l : ℕ) (o : Option Arith) → Opens [] [] (operate l o)
operate-Opens l none = skip-Opens
operate-Opens l (some o) = emit-Opens _

pub walk_assignment-Opens :
    {a b c : Walk} (l : ℕ) (o : Option Arith) (nested : Bool)
    → Opens [] [] a
    → Opens [] [] b
    → Opens [] [] c
    → Opens [] [] (walk_assignment l o nested a b c)
unfolding walk_assignment
walk_assignment-Opens l o nested a b c =
    open-Opens nested
    ▹ load_first-Opens o a
    ▹ in_call-Opens call_stay (in_side-Opens side_right (in_context-Opens ctx_load b))
    ▹ operate-Opens l o
    ▹ duplicate-Opens l
    ▹ in_side-Opens side_left (in_context-Opens ctx_store c)

pub walk_tuple-Opens :
    {a b : Walk} (l len : ℕ) → Opens [] [] a → Opens [] [] b → Opens [] [] (walk_tuple l len a b)
unfolding walk_tuple
walk_tuple-Opens l len a b =
    Opens-test (λ s. peek s.context == ctx_load) (a ▹ emit-Opens _) (emit-Opens _ ▹ b)

pub walk_import-Opens :
    {a b : Walk} (l : ℕ) (alias : Text)
    → Opens [] [] a
    → Opens [] [] b
    → Opens [] [] (walk_import l a alias b)
unfolding walk_import
walk_import-Opens l alias a b =
    in_context-Opens ctx_load a ▹ in_context-Opens ctx_load b ▹ emit-Opens _ ▹ emit-Opens _

pub walk_return-Opens : {a : Walk} (l : ℕ) → Opens [] [] a → Opens [] [] (walk_return l a)
unfolding walk_return
walk_return-Opens l a = in_context-Opens ctx_load (in_call-Opens call_stay a) ▹ emit-Opens _

pub walk_throw-Opens : {a : Walk} (l : ℕ) → Opens [] [] a → Opens [] [] (walk_throw l a)
unfolding walk_throw
walk_throw-Opens l a = in_call-Opens call_stay (in_context-Opens ctx_load a) ▹ emit-Opens _

pub walk_call-Opens :
    {a b : Walk} (l len : ℕ) → Opens [] [] a → Opens [] [] b → Opens [] [] (walk_call l len a b)
unfolding walk_call
walk_call-Opens l len a b =
    in_context-Opens ctx_load (in_call-Opens call_stay a)
    ▹ in_context-Opens ctx_load b
    ▹ emit-Opens _
    ▹ Opens-test (λ s. peek s.call_state == call_pop) (emit-Opens _) stays

pub walk_datastruct-Opens :
    {a b : Walk} (l idx : ℕ)
    → Opens [] [] a
    → Opens [] [] b
    → Opens [] [] (walk_datastruct l idx a b)
unfolding walk_datastruct
walk_datastruct-Opens l idx a b = a ▹ in_context-Opens ctx_load b ▹ emit-Opens _

subscript_op-Opens : (l n ctx : ℕ) → Opens [] [] (subscript_op l n ctx)
unfolding subscript_op
subscript_op-Opens l n ctx = Opens-if (n == 2 && (ctx == ctx_store)) (fails write_to_range) (
    Opens-if (n == 0 && (ctx == ctx_load)) (fails read_from_empty)
      (Opens-if (ctx == ctx_load) (emit-Opens _) (emit-Opens _)))

pub walk_subscript-Opens :
    {a b : Walk} (l len : ℕ)
    → Opens [] [] a
    → Opens [] [] b
    → Opens [] [] (walk_subscript l len a b)
unfolding walk_subscript
walk_subscript-Opens l len a b = Opens-at (λ s.
    Opens-if (counted len == 0) skip-Opens a
    ▹ in_context-Opens ctx_load b
    ▹ subscript_op-Opens l (counted len) (peek s.context))
