-- ===== src/Compiler/JumpEffects/Switches.antt =====
-- The stacks and the blocks over labels, try and switch statements in src/components/compiler/ast_to_asm.c.
use saffire.Prelude.{
  ℕ, ◌+◌, ◌≡◌, refl, Bool, Option, none, some, [], ◌∷◌, ◌++◌, Text, arith, undefined, Settles,
  Settles-if, ◌==◌, length, length-set, leb, get_elem?,
}
use saffire.Asm.{code_line, label_line, op_label}
use saffire.Compiler.State.{State, BlockState, Walk, emit, ctx_load}
use saffire.Compiler.Names.{userlabel_text}
use saffire.Compiler.Branches.{
  jump_to, user_label, walk_goto, text_mem, new_label, walk_label, walk_catch, walk_try, case_body,
  walk_case, walk_default, walk_switch,
}
use saffire.Compiler.Moves.{
  Restores, Moves, ◌▸◌, skip-Moves, emit-Moves, recount, in_context-Moves, numbered-Moves,
}
use saffire.Compiler.BlockMoves.{enter_loop-Moves}
use saffire.Compiler.Effects.{Moves-if}
use saffire.Compiler.JumpEffects.Conditions.{MovesIf, optional-Moves}

user_label-Moves :
    {k : Text → Walk} (name : Text) → ((t : Text) → Moves 0 0 (k t)) → Moves 0 0 (user_label name k)
user_label-Moves name m =
    Moves-if {a = λ s. undefined} (leb 100 (length (userlabel_text ++ name)))
      (record { run = λ s h. tt }) (m (userlabel_text ++ name))

pub walk_goto-Moves : (l : ℕ) (name : Text) → Moves 0 0 (walk_goto l name)
unfolding walk_goto
walk_goto-Moves l name =
    user_label-Moves {k = jump_to 0x86 l} name
      (λ t. emit-Moves (code_line l 0x86 (op_label t ∷ [])))

label_runs :
    (t : Text) (s : State) (o : Option BlockState)
    → get_elem? s.blocks s.block_cnt ≡ o
    → Settles (Restores 0 0 s) (new_label t s)
unfolding new_label emit
label_runs t s none e = rw (e, new_label) tt
label_runs t s (some b) e =
    rw (e, new_label)
      (Settles-if (Restores 0 0 s) (text_mem t b.labels) _ _ tt (record {
        context = refl;
        type_ = refl;
        side = refl;
        call_state = refl;
        block_cnt = refl;
        depth = length-set s.blocks s.block_cnt _;
        room = λ h. rw length-set h;
        numbers = omega arith;
        appended = (label_line t ∷ [], refl);
      }))

pub walk_label-Moves : (name : Text) → Moves 0 0 (walk_label name)
unfolding walk_label
walk_label-Moves name =
    user_label-Moves name
      (λ t. record { run = λ s h. label_runs t s (get_elem? s.blocks s.block_cnt) refl })

pub walk_catch-Moves :
    {n : ℕ} {a : Walk} (l clc i : ℕ) (x y : Text)
    → Moves 0 n a
    → Moves 0 (n) (walk_catch l clc i x y a)
unfolding walk_catch
walk_catch-Moves {n} l clc i x y a = recount (n) (omega arith) (
    Moves-if (i == 0) skip-Moves (emit-Moves _)
    ▸ emit-Moves _
    ▸ emit-Moves _
    ▸ emit-Moves _
    ▸ emit-Moves _
    ▸ emit-Moves _
    ▸ emit-Moves _
    ▸ emit-Moves _
    ▸ in_context-Moves ctx_load a
    ▸ emit-Moves _
    ▸ emit-Moves _)

pub walk_try-Moves :
    {m n k : ℕ} {a : Walk} {c : ℕ → Walk} {o : Option Walk} (l : ℕ)
    → Moves 0 m a
    → ((clc : ℕ) → Moves 0 n (c clc))
    → MovesIf k o
    → Moves 0 (m + (n + k)) (walk_try l a c o)
unfolding walk_try
walk_try-Moves {m} {n} {k} l a c o = recount (m + (n + k)) (omega arith) (
    numbered-Moves (λ clc.
      emit-Moves _
      ▸ in_context-Moves ctx_load a
      ▸ emit-Moves _
      ▸ emit-Moves _
      ▸ c clc
      ▸ emit-Moves _
      ▸ emit-Moves _
      ▸ emit-Moves _
      ▸ optional-Moves o
      ▸ emit-Moves _
      ▸ emit-Moves _))

pub case_body-Moves : {n : ℕ} {a : Walk} (clc i : ℕ) → Moves 0 n a → Moves 0 (n) (case_body clc i a)
unfolding case_body
case_body-Moves {n} clc i a =
    recount (n) (omega arith) (emit-Moves _ ▸ in_context-Moves ctx_load a ▸ emit-Moves _)

pub walk_case-Moves :
    {m n : ℕ} {a b : Walk} (clc i l : ℕ)
    → Moves 0 m a
    → Moves 0 n b
    → Moves 0 (m + n) (walk_case clc i l a b)
unfolding walk_case
walk_case-Moves {m} {n} clc i l a b = recount (m + n) (omega arith) (
    emit-Moves _
    ▸ Moves-if (i == 0) skip-Moves (emit-Moves _)
    ▸ emit-Moves _
    ▸ emit-Moves _
    ▸ in_context-Moves ctx_load a
    ▸ emit-Moves _
    ▸ emit-Moves _
    ▸ emit-Moves _
    ▸ case_body-Moves clc i b)

pub walk_default-Moves :
    {n : ℕ} {a : Walk} (clc i : ℕ) → Moves 0 n a → Moves 0 (n) (walk_default clc i a)
unfolding walk_default
walk_default-Moves {n} clc i a = recount (n) (omega arith) (
    emit-Moves _
    ▸ Moves-if (i == 0) (emit-Moves _) skip-Moves
    ▸ emit-Moves _
    ▸ emit-Moves _
    ▸ emit-Moves _
    ▸ case_body-Moves clc i a)

pub walk_switch-Moves :
    {m n : ℕ} {a : Walk} {c : ℕ → Walk} (len : ℕ) (found : Bool)
    → Moves 0 m a
    → ((clc : ℕ) → Moves 0 n (c clc))
    → Moves 0 (1 + (m + n)) (walk_switch a c len found)
unfolding walk_switch
walk_switch-Moves {m} {n} len found a c = recount (1 + (m + n)) (omega arith) (
    numbered-Moves (λ clc.
      enter_loop-Moves none
      ▸ in_context-Moves ctx_load a
      ▸ emit-Moves _
      ▸ emit-Moves _
      ▸ c clc
      ▸ emit-Moves _
      ▸ emit-Moves _
      ▸ emit-Moves _
      ▸ emit-Moves _
      ▸ emit-Moves _
      ▸ Moves-if found skip-Moves (emit-Moves _)
      ▸ emit-Moves _
      ▸ emit-Moves _
      ▸ emit-Moves _))
