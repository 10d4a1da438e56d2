-- ===== src/Compiler/ClassEffects.antt =====
-- What the cases of src/components/compiler/ast_to_asm.c for classes and attributes do to the stacks
-- and the blocks.
use saffire.Prelude.{ℕ, ◌+◌, Bool, [], ◌∷◌, ◌++◌, Text, text_eq, arith, Settles-bind}
use saffire.Asm.{code_line, op_realnum}
use saffire.Compiler.State.{state_init, Walk, ctx_load}
use saffire.Compiler.Classes.{
  build, walk_class, walk_interface, fill_frame, ast_to_frame, walk_argument, walk_method,
  count_attribute, walk_attribute, precaution,
}
use saffire.Compiler.Names.{main_name}
use saffire.Compiler.Effects.{Moves-if}
use saffire.Compiler.Moves.{
  Restores, Moves, ◌▸◌, emit-Moves, recount, in_context-Moves, numbered-Moves, Restores-trans,
  notes-Restores, skip-Moves,
}

build-Moves : (o l : ℕ) → Moves 0 0 (build o l)
unfolding build
build-Moves o l = record {
  run = λ s h.
      Settles-bind (Restores 0 0 s) (Restores 0 0 s) _ _
        ((emit-Moves (code_line l o (op_realnum s.attributes ∷ []))).run s h)
        (λ s₁ r. Restores-trans s s₁ _ r (notes-Restores s₁ s₁.output 0 s₁.multi_assignment));
}

pub walk_class-Moves :
    {m n k : ℕ} {a b c : Walk} (l f : ℕ) (name : Text) (len : ℕ)
    → Moves 0 m a
    → Moves 0 n b
    → Moves 0 k c
    → Moves 0 (m + (n + k)) (walk_class l f name a len b c)
unfolding walk_class
walk_class-Moves {m} {n} {k} l f name len a b c = recount (m + (n + k)) (omega arith) (
    c
    ▸ emit-Moves _
    ▸ in_context-Moves ctx_load a
    ▸ in_context-Moves ctx_load b
    ▸ emit-Moves _
    ▸ emit-Moves _
    ▸ build-Moves 0x93 l
    ▸ emit-Moves _)

pub walk_interface-Moves :
    {m n : ℕ} {a b : Walk} (l f : ℕ) (name : Text) (len : ℕ)
    → Moves 0 m a
    → Moves 0 n b
    → Moves 0 (m + n) (walk_interface l f name len a b)
unfolding walk_interface
walk_interface-Moves {m} {n} l f name len a b = recount (m + n) (omega arith) (
    b
    ▸ emit-Moves _
    ▸ in_context-Moves ctx_load (emit-Moves _)
    ▸ in_context-Moves ctx_load a
    ▸ emit-Moves _
    ▸ emit-Moves _
    ▸ build-Moves 0x94 l
    ▸ emit-Moves _)

fill_frame-Moves :
    {up : ℕ} {w : Walk} (append : Bool) (name : Text)
    → Moves 0 up w
    → Moves 0 up (fill_frame append name w)
unfolding fill_frame precaution
fill_frame-Moves {up} append name m = recount up (omega arith) (
    m
    ▸ Moves-if append
        (Moves-if (text_eq name main_name) (emit-Moves _) (emit-Moves _) ▸ emit-Moves _) skip-Moves)

-- A frame of its own leaves the state of the frame around it.
pub ast_to_frame-Moves :
    {up : ℕ} (append : Bool) (name : Text) (w : Walk)
    → Moves 0 up w
    → Moves 0 0 (ast_to_frame append name w)
unfolding ast_to_frame state_init
ast_to_frame-Moves {up} append name w m = record {
  run = λ s h.
      Settles-bind (Restores 0 up (state_init s.multi_assignment)) (Restores 0 0 s)
        (fill_frame append name w (state_init s.multi_assignment)) _
        ((fill_frame-Moves append name m).run (state_init s.multi_assignment) (omega arith))
        (λ s₁ _.
          notes-Restores s (s.output ++ (name, s₁.lines) ∷ s₁.output) s.attributes
            s₁.multi_assignment);
}

pub walk_argument-Moves :
    {m n k : ℕ} {a b c : Walk}
    → Moves 0 m a
    → Moves 0 n b
    → Moves 0 k c
    → Moves 0 (m + (n + k)) (walk_argument a b c)
unfolding walk_argument
walk_argument-Moves {m} {n} {k} a b c =
    recount (m + (n + k)) (omega arith)
      (in_context-Moves ctx_load a ▸ in_context-Moves ctx_load b ▸ in_context-Moves ctx_load c)

pub walk_method-Moves :
    {m n : ℕ} {a : Walk} (append : Bool) (l f : ℕ) (body : Walk)
    → Moves 0 m a
    → Moves 0 n body
    → Moves 0 m (walk_method append l a f body)
unfolding walk_method
walk_method-Moves {m} append l f body a b =
    recount m (omega arith)
      (a ▸ emit-Moves _ ▸ numbered-Moves (λ clc. emit-Moves _ ▸ ast_to_frame-Moves append _ body b))

pub walk_attribute-Moves :
    {m : ℕ} {a : Walk} (l v c t n : ℕ) (name : Text)
    → Moves 0 m a
    → Moves 0 m (walk_attribute l v c t n name a)
unfolding walk_attribute count_attribute
walk_attribute-Moves {m} l v c t n name a = recount m (omega arith) (
    a
    ▸ emit-Moves _
    ▸ emit-Moves _
    ▸ emit-Moves _
    ▸ emit-Moves _
    ▸ record { run = λ s h. notes-Restores s s.output (s.attributes + 1) s.multi_assignment })
