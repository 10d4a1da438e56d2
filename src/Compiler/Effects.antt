-- ===== src/Compiler/Effects.antt =====
-- What the cases of src/components/compiler/ast_to_asm.c do to the stacks and the blocks.
use saffire.Prelude.{
  ◌-◌, ℕ, ◌+◌, Bool, true, false, Option, none, some, [], Text, arith, Run, Fatal, fatal_error,
  write_to_range, read_from_empty, Settles, Settles-imp, ◌==◌, ◌&&◌, if◌then◌else◌, leb,
}
use saffire.Asm.{Opr, code_line}
use saffire.Compiler.{Arith, Comparison, Logic}
use saffire.Compiler.State.{
  State, Walk, skip, ctx_load, ctx_store, type_id, side_left, side_right, call_pop, call_stay, peek,
}
use saffire.Compiler.Simple.{
  load_or_store, walk_property, walk_operator, compare_op, comparison_value, walk_comparison,
  walk_assignment, open_assignment, duplicate_open, load_first, operate, walk_bool, walk_tuple,
  walk_import, walk_return, walk_throw, walk_call, walk_datastruct, walk_subscript, subscript_op,
  counted,
}
use saffire.Compiler.Moves.{
  Restores, Moves, ◌▸◌, skip-Moves, emit-Moves, recount, in_context-Moves, in_type-Moves,
  in_side-Moves, in_call-Moves, numbered-Moves, Restores-refl, Restores-trans, notes-Restores,
}

pub Moves-if :
    {up : ℕ} {a b : Walk} (t : Bool) → Moves 0 up a → Moves 0 up b → Moves 0 up (if t then a else b)
Moves-if true p q = p
Moves-if false p q = q

-- A test on the state.
pub Moves-test :
    {up : ℕ} {a b : Walk} (t : State → Bool)
    → Moves 0 up a
    → Moves 0 up b
    → Moves 0 up (λ s. if t s then a s else b s)
Moves-test {up} {a} {b} t p q = record {
  run = λ s h. Settles-choose (t s) (Restores 0 up s) (a s) (b s) (p.run s h) (q.run s h);
}
  where
    Settles-choose :
        (t : Bool) (P : State → Type 0) (x y : Run State)
        → Settles P x
        → Settles P y
        → Settles P (if t then x else y)
    Settles-choose true P x y h k = h
    Settles-choose false P x y h k = k

pub load_or_store-Moves : (l : ℕ) (o : Opr) → Moves 0 0 (load_or_store l o)
unfolding load_or_store
load_or_store-Moves l o =
    Moves-test (λ s. peek s.context == ctx_load)
      (Moves-test (λ s. peek s.type_ == type_id) (emit-Moves _) (emit-Moves _)) (emit-Moves _)

pub walk_property-Moves :
    {up : ℕ} {class : Walk} (l : ℕ) (parent : Bool) (p : Text)
    → Moves 0 up class
    → Moves 0 up (walk_property l parent class p)
unfolding walk_property
walk_property-Moves {up} l parent p c = recount up (omega arith) (
    in_context-Moves ctx_load c
    ▸ Moves-test (λ s. peek s.context == ctx_load) (emit-Moves _)
        (Moves-test (λ s. parent) (record { run = λ s h. tt }) (emit-Moves _)))

pub walk_operator-Moves :
    {m n : ℕ} {a b : Walk} (l : ℕ) (o : Arith)
    → Moves 0 m a
    → Moves 0 n b
    → Moves 0 (m + n) (walk_operator l o a b)
unfolding walk_operator
walk_operator-Moves {m} {n} l o a b = recount (m + n) (omega arith) (
    in_type-Moves type_id (in_side-Moves side_left a)
    ▸ in_type-Moves type_id (in_side-Moves side_left b)
    ▸ emit-Moves _)

compare_op-Moves : (l : ℕ) (o : Option ℕ) → Moves 0 0 (compare_op l o)
unfolding compare_op
compare_op-Moves l none = record { run = λ s h. tt }
compare_op-Moves l (some v) = emit-Moves _

pub walk_comparison-Moves :
    {m n : ℕ} {a b : Walk} (l : ℕ) (c : Comparison)
    → Moves 0 m a
    → Moves 0 n b
    → Moves 0 (m + n) (walk_comparison l c a b)
unfolding walk_comparison
walk_comparison-Moves {m} {n} l c a b = recount (m + n) (omega arith) (
    in_call-Moves call_stay (
      in_context-Moves ctx_load (in_side-Moves side_right b)
      ▸ in_context-Moves ctx_load (in_side-Moves side_left a))
    ▸ compare_op-Moves l (comparison_value c))

pub walk_bool-Moves :
    {m n : ℕ} {a b : Walk} (l : ℕ) (o : Logic)
    → Moves 0 m a
    → Moves 0 n b
    → Moves 0 (m + n) (walk_bool l o a b)
unfolding walk_bool
walk_bool-Moves {m} {n} l o a b =
    recount (m + n) (omega arith)
      (numbered-Moves (λ clc. a ▸ emit-Moves _ ▸ emit-Moves _ ▸ b ▸ emit-Moves _))

open-Moves : (b : Bool) → Moves 0 0 (open_assignment b)
unfolding open_assignment
open-Moves b =
    Moves-test (λ s. b)
      (record { run = λ s h. notes-Restores s s.output s.attributes (s.multi_assignment + 1) })
      (record { run = λ s h. Restores-refl s })

duplicate-Moves : (l : ℕ) → Moves 0 0 (duplicate_open l)
unfolding duplicate_open
duplicate-Moves l =
    Moves-test (λ s. leb 1 s.multi_assignment)
      (record {
        run = λ s h.
            let s₁ = record s { multi_assignment = s.multi_assignment - 1 } in
            Settles-imp (Restores 0 0 s₁) (Restores 0 0 s) _
              (λ s₂ r.
                Restores-trans s s₁ s₂
                  (notes-Restores s s.output s.attributes (s.multi_assignment - 1)) r)
              ((emit-Moves (code_line l 0x04 [])).run s₁ h);
      })
      (record { run = λ s h. Restores-refl s })

abbrev pub twice : Option Arith → ℕ → ℕ
twice none n = 0
twice (some o) n = n

load_first-Moves :
    {n : ℕ} {a : Walk} (o : Option Arith) → Moves 0 n a → Moves 0 (twice o n) (load_first o a)
load_first-Moves none a = skip-Moves
load_first-Moves (some o) a = in_side-Moves side_left (in_context-Moves ctx_load a)

operate-Moves : (l : ℕ) (o : Option Arith) → Moves 0 0 (operate l o)
operate-Moves l none = skip-Moves
operate-Moves l (some o) = emit-Moves _

pub walk_assignment-Moves :
    {m n : ℕ} {a b c : Walk} (l : ℕ) (o : Option Arith) (nested : Bool)
    → Moves 0 m a
    → Moves 0 n b
    → Moves 0 m c
    → Moves 0 (twice o m + (n + m)) (walk_assignment l o nested a b c)
unfolding walk_assignment
walk_assignment-Moves {m} {n} l o nested a b c = recount (twice o m + (n + m)) (omega arith) (
    open-Moves nested
    ▸ load_first-Moves o a
    ▸ in_call-Moves call_stay (in_side-Moves side_right (in_context-Moves ctx_load b))
    ▸ operate-Moves l o
    ▸ duplicate-Moves l
    ▸ in_side-Moves side_left (in_context-Moves ctx_store c))

pub walk_tuple-Moves :
    {n : ℕ} {a b : Walk} (l len : ℕ) → Moves 0 n a → Moves 0 n b → Moves 0 n (walk_tuple l len a b)
unfolding walk_tuple
walk_tuple-Moves {n} l len a b =
    Moves-test (λ s. peek s.context == ctx_load) (recount n (omega arith) (a ▸ emit-Moves _))
      (recount n (omega arith) (emit-Moves _ ▸ b))

pub walk_import-Moves :
    {m n : ℕ} {a b : Walk} (l : ℕ) (alias : Text)
    → Moves 0 m a
    → Moves 0 n b
    → Moves 0 (m + n) (walk_import l a alias b)
unfolding walk_import
walk_import-Moves {m} {n} l alias a b =
    recount (m + n) (omega arith)
      (in_context-Moves ctx_load a ▸ in_context-Moves ctx_load b ▸ emit-Moves _ ▸ emit-Moves _)

pub walk_return-Moves : {n : ℕ} {a : Walk} (l : ℕ) → Moves 0 n a → Moves 0 n (walk_return l a)
unfolding walk_return
walk_return-Moves {n} l a =
    recount n (omega arith) (in_context-Moves ctx_load (in_call-Moves call_stay a) ▸ emit-Moves _)

pub walk_throw-Moves : {n : ℕ} {a : Walk} (l : ℕ) → Moves 0 n a → Moves 0 n (walk_throw l a)
unfolding walk_throw
walk_throw-Moves {n} l a =
    recount n (omega arith) (in_call-Moves call_stay (in_context-Moves ctx_load a) ▸ emit-Moves _)

pub walk_call-Moves :
    {m n : ℕ} {a b : Walk} (l len : ℕ)
    → Moves 0 m a
    → Moves 0 n b
    → Moves 0 (m + n) (walk_call l len a b)
unfolding walk_call
walk_call-Moves {m} {n} l len a b = recount (m + n) (omega arith) (
    in_context-Moves ctx_load (in_call-Moves call_stay a)
    ▸ in_context-Moves ctx_load b
    ▸ emit-Moves _
    ▸ Moves-test (λ s. peek s.call_state == call_pop) (emit-Moves _)
        (record { run = λ s h. Restores-refl s }))

pub walk_datastruct-Moves :
    {m n : ℕ} {a b : Walk} (l idx : ℕ)
    → Moves 0 m a
    → Moves 0 n b
    → Moves 0 (m + n) (walk_datastruct l idx a b)
unfolding walk_datastruct
walk_datastruct-Moves {m} {n} l idx a b =
    recount (m + n) (omega arith) (a ▸ in_context-Moves ctx_load b ▸ emit-Moves _)

-- The items are walked when there are one or two.
abbrev pub when_counted : ℕ → ℕ → ℕ
when_counted len n = if counted len == 0 then 0 else n

-- A walk that depends on the state it starts in.
Moves-at :
    {down up : ℕ} {w : State → Walk}
    → ((s : State) → Moves down up (w s))
    → Moves down up (λ s. w s s)
Moves-at m = record { run = λ s h. (m s).run s h }

skipped :
    {m : ℕ} {a : Walk} (t : Bool)
    → Moves 0 m a
    → Moves 0 (if t then 0 else m) (if t then skip else a)
skipped true p = skip-Moves
skipped false p = p

fails : (message : Fatal) → Moves 0 0 (λ s. fatal_error message)
fails message = record { run = λ s h. tt }

subscript_op-Moves : (l n ctx : ℕ) → Moves 0 0 (subscript_op l n ctx)
unfolding subscript_op
subscript_op-Moves l n ctx = Moves-if (n == 2 && (ctx == ctx_store)) (fails write_to_range) (
    Moves-if (n == 0 && (ctx == ctx_load)) (fails read_from_empty)
      (Moves-if (ctx == ctx_load) (emit-Moves _) (emit-Moves _)))

pub walk_subscript-Moves :
    {m n : ℕ} {a b : Walk} (l len : ℕ)
    → Moves 0 m a
    → Moves 0 n b
    → Moves 0 (when_counted len m + n) (walk_subscript l len a b)
unfolding walk_subscript
walk_subscript-Moves {m} {n} l len p q = Moves-at (λ s.
    recount (when_counted len m + n) (omega arith) (
      skipped (counted len == 0) p
      ▸ in_context-Moves ctx_load q
      ▸ subscript_op-Moves l (counted len) (peek s.context)))
