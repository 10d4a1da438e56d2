-- ===== src/Compiler/JumpEffects/Loops.antt =====
-- The stacks and the blocks over the loops of src/components/compiler/ast_to_asm.c.
use saffire.Prelude.{ℕ, ◌+◌, Option, Text, arith}
use saffire.Compiler.State.{Walk, ctx_load, call_stay}
use saffire.Compiler.Branches.{
  walk_do, while_else, walk_while, for_test, walk_for, foreach_else, walk_foreach,
}
use saffire.Compiler.Moves.{
  Moves, ◌▸◌, skip-Moves, emit-Moves, recount, in_context-Moves, in_call-Moves, numbered-Moves,
}
use saffire.Compiler.BlockMoves.{leave_loop-Moves, loop-Moves}
use saffire.Compiler.JumpEffects.Conditions.{
  MovesIf, missing, there, store-Moves, setup_loop-Moves, first_jump-Moves, pop_times-Moves,
}

pub walk_do-Moves :
    {m n : ℕ} {a b : Walk} (l : ℕ) → Moves 0 m a → Moves 0 n b → Moves 0 (m + n) (walk_do l a b)
unfolding walk_do
walk_do-Moves {m} {n} l a b = recount (m + n) (omega arith) (
    numbered-Moves (λ clc. loop-Moves _ (
      emit-Moves _
      ▸ emit-Moves _
      ▸ in_context-Moves ctx_load a
      ▸ emit-Moves _
      ▸ in_context-Moves ctx_load b
      ▸ emit-Moves _
      ▸ emit-Moves _
      ▸ emit-Moves _
      ▸ emit-Moves _
      ▸ emit-Moves _
      ▸ emit-Moves _
      ▸ emit-Moves _
      ▸ leave_loop-Moves)))

pub while_else-Moves :
    {k : ℕ} {o : Option Walk} (x y z : Text) → MovesIf k o → Moves 0 k (while_else o x y z)
unfolding while_else
while_else-Moves x y z missing = skip-Moves
while_else-Moves {k} x y z (there m) =
    recount k (omega arith)
      (emit-Moves _ ▸ emit-Moves _ ▸ emit-Moves _ ▸ in_context-Moves ctx_load m ▸ emit-Moves _)

pub walk_while-Moves :
    {m n k : ℕ} {a b : Walk} {o : Option Walk}
    → Moves 0 m a
    → Moves 0 n b
    → MovesIf k o
    → Moves 0 (m + (n + k)) (walk_while a b o)
unfolding walk_while
walk_while-Moves {m} {n} {k} {o = w} a b o = recount (m + (n + k)) (omega arith) (
    numbered-Moves (λ clc. loop-Moves _ (
      setup_loop-Moves w _ _
      ▸ emit-Moves _
      ▸ in_context-Moves ctx_load a
      ▸ first_jump-Moves w _
      ▸ emit-Moves _
      ▸ emit-Moves _
      ▸ in_context-Moves ctx_load b
      ▸ emit-Moves _
      ▸ while_else-Moves _ _ _ o
      ▸ emit-Moves _
      ▸ emit-Moves _
      ▸ emit-Moves _
      ▸ emit-Moves _
      ▸ leave_loop-Moves)))

pub for_test-Moves : {n : ℕ} {o : Option Walk} (l : ℕ) → MovesIf n o → Moves 0 n (for_test l o)
unfolding for_test
for_test-Moves l missing = emit-Moves _
for_test-Moves l (there m) = m

pub walk_for-Moves :
    {m n k j : ℕ} {a b c : Walk} {o : Option Walk} (l : ℕ)
    → Moves 0 m a
    → MovesIf n o
    → Moves 0 k b
    → Moves 0 j c
    → Moves 0 (m + (n + (k + j))) (walk_for l a o b c)
unfolding walk_for
walk_for-Moves {m} {n} {k} {j} l a o b c = recount (m + (n + (k + j))) (omega arith) (
    numbered-Moves (λ clc. loop-Moves _ (
      emit-Moves _
      ▸ in_context-Moves ctx_load a
      ▸ emit-Moves _
      ▸ emit-Moves _
      ▸ in_context-Moves ctx_load (for_test-Moves l o)
      ▸ emit-Moves _
      ▸ emit-Moves _
      ▸ in_context-Moves ctx_load c
      ▸ emit-Moves _
      ▸ in_context-Moves ctx_load b
      ▸ emit-Moves _
      ▸ emit-Moves _
      ▸ emit-Moves _
      ▸ emit-Moves _
      ▸ emit-Moves _
      ▸ leave_loop-Moves)))

pub foreach_else-Moves :
    {k : ℕ} {o : Option Walk} (x y z : Text) (n : ℕ)
    → MovesIf k o
    → Moves 0 k (foreach_else o x y z n)
unfolding foreach_else
foreach_else-Moves x y z n missing = skip-Moves
foreach_else-Moves {k} x y z n (there m) = recount k (omega arith) (
    emit-Moves _
    ▸ emit-Moves _
    ▸ pop_times-Moves n
    ▸ emit-Moves _
    ▸ in_context-Moves ctx_load m
    ▸ emit-Moves _)

pub walk_foreach-Moves :
    {m n k j i h : ℕ} {a b : Walk} {x y z o : Option Walk}
    → Moves 0 m a
    → Moves 0 n b
    → MovesIf k x
    → MovesIf j y
    → MovesIf i z
    → MovesIf h o
    → Moves 0 (m + (n + (k + (j + (i + h))))) (walk_foreach a b x y z o)
unfolding walk_foreach
walk_foreach-Moves {m} {n} {k} {j} {i} {h} {o = w} a b x y z o =
    recount (m + (n + (k + (j + (i + h))))) (omega arith) (
      numbered-Moves (λ clc. loop-Moves _ (
        in_call-Moves call_stay (in_context-Moves ctx_load a)
        ▸ emit-Moves _
        ▸ setup_loop-Moves w _ _
        ▸ emit-Moves _
        ▸ emit-Moves _
        ▸ emit-Moves _
        ▸ first_jump-Moves w _
        ▸ emit-Moves _
        ▸ emit-Moves _
        ▸ store-Moves x
        ▸ store-Moves y
        ▸ store-Moves z
        ▸ in_context-Moves ctx_load b
        ▸ emit-Moves _
        ▸ foreach_else-Moves _ _ _ _ o
        ▸ emit-Moves _
        ▸ emit-Moves _
        ▸ pop_times-Moves _
        ▸ emit-Moves _
        ▸ emit-Moves _
        ▸ leave_loop-Moves)))
