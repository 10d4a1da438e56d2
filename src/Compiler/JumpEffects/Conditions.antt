-- ===== src/Compiler/JumpEffects/Conditions.antt =====
-- The stacks and the blocks over the conditions of src/components/compiler/ast_to_asm.c.
use saffire.Prelude.{ℕ, zero, suc, ◌+◌, Option, none, some, Text, arith}
use saffire.Compiler.State.{Walk, ctx_load, ctx_store}
use saffire.Compiler.Branches.{
  optional, walk_condition, walk_coalesce, setup_loop, first_jump, store, pop_times,
}
use saffire.Compiler.Moves.{
  Moves, ◌▸◌, skip-Moves, emit-Moves, recount, in_context-Moves, numbered-Moves,
}

-- A walk that may be missing.
pub data MovesIf : ℕ → Option Walk → Type 0 where
  missing : MovesIf 0 none
  there : {n : ℕ} {w : Walk} → Moves 0 n w → MovesIf n (some w)

pub optional-Moves : {n : ℕ} {o : Option Walk} → MovesIf n o → Moves 0 n (optional o)
optional-Moves missing = skip-Moves
optional-Moves (there m) = in_context-Moves ctx_load m

pub store-Moves : {n : ℕ} {o : Option Walk} → MovesIf n o → Moves 0 n (store o)
store-Moves missing = skip-Moves
store-Moves (there m) = in_context-Moves ctx_store m

pub setup_loop-Moves : (o : Option Walk) (x y : Text) → Moves 0 0 (setup_loop o x y)
setup_loop-Moves none x y = emit-Moves _
setup_loop-Moves (some w) x y = emit-Moves _

pub first_jump-Moves : (o : Option Walk) (x : Text) → Moves 0 0 (first_jump o x)
first_jump-Moves none x = skip-Moves
first_jump-Moves (some w) x = emit-Moves _

pub pop_times-Moves : (n : ℕ) → Moves 0 0 (pop_times n)
unfolding pop_times
pop_times-Moves zero = skip-Moves
pop_times-Moves (suc n) = emit-Moves _ ▸ pop_times-Moves n

pub walk_condition-Moves :
    {m n k : ℕ} {a b : Walk} {o : Option Walk} (t : Text) (l : ℕ)
    → Moves 0 m a
    → Moves 0 n b
    → MovesIf k o
    → Moves 0 (m + (n + k)) (walk_condition t l a b o)
unfolding walk_condition
walk_condition-Moves {m} {n} {k} t l a b o = recount (m + (n + k)) (omega arith) (
    numbered-Moves (λ clc.
      in_context-Moves ctx_load a
      ▸ emit-Moves _
      ▸ emit-Moves _
      ▸ in_context-Moves ctx_load b
      ▸ emit-Moves _
      ▸ emit-Moves _
      ▸ emit-Moves _
      ▸ optional-Moves o
      ▸ emit-Moves _
      ▸ emit-Moves _))

pub walk_coalesce-Moves :
    {m n : ℕ} {a b : Walk} (l : ℕ)
    → Moves 0 m a
    → Moves 0 n b
    → Moves 0 (m + n) (walk_coalesce l a b)
unfolding walk_coalesce
walk_coalesce-Moves {m} {n} l a b = recount (m + n) (omega arith) (
    numbered-Moves (λ clc.
      in_context-Moves ctx_load a
      ▸ emit-Moves _
      ▸ emit-Moves _
      ▸ emit-Moves _
      ▸ emit-Moves _
      ▸ emit-Moves _
      ▸ emit-Moves _
      ▸ emit-Moves _
      ▸ in_context-Moves ctx_load b
      ▸ emit-Moves _
      ▸ emit-Moves _))
