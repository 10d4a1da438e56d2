-- ===== src/Compiler/State.antt =====
-- The state of `__ast_walker` of src/components/compiler/ast_to_asm.c, and the steps it is made of.
use saffire.Prelude.{
  ℕ, zero, suc, ◌+◌, ◌-◌, Option, none, some, List, [], ◌∷◌, ◌++◌, Text, Run, ok, undefined,
  fatal_error, ◌>>=◌, pop_from_empty_stack, no_loop_block, replicate, get_elem?, set,
}
use saffire.Asm.{op_label, Line, code_line}

-- `t_state_frame`. A label is `none` until it is written; the blocks that are read are all loops.
pub record BlockState : Type 0 where
  pub label : Option Text
  pub labels : List Text

-- `t_state`, with the frame that is written, the frames that are finished below it, and the count of
-- open multi-assignments. Stacks have their top first.
pub record State : Type 0 where
  pub lines : List Line
  pub output : List (Text × List Line)
  pub context : List ℕ
  pub type_ : List ℕ
  pub side : List ℕ
  pub call_state : List ℕ
  pub attributes : ℕ
  pub loop_cnt : ℕ
  pub block_cnt : ℕ
  pub blocks : List BlockState
  pub multi_assignment : ℕ

abbrev pub block_max_depth : ℕ
block_max_depth = 20

-- `_ast_state_init`, with an empty frame.
unfoldable pub state_init : ℕ → State
state_init multi_assignment = record {
  lines = [];
  output = [];
  context = [];
  type_ = [];
  side = [];
  call_state = [];
  attributes = 0;
  loop_cnt = 0;
  block_cnt = 0;
  blocks = replicate block_max_depth (record { label = none; labels = [] });
  multi_assignment = multi_assignment;
}

-- What one part of the walker does.
abbrev pub Walk : Type 0
Walk = State → Run State

infixr 5 ◌⨾◌
unfoldable pub ◌⨾◌ : Walk → Walk → Walk
(a ⨾ b) s = a s >>= b

unfoldable pub skip : Walk
skip s = ok s

-- `dll_append(frame, asm_create_codeline(...))` and `dll_append(frame, asm_create_labelline(...))`
unfoldable pub emit : Line → Walk
emit l s = ok (record s { lines = s.lines ++ l ∷ [] })

-- The values of the enumerations.
abbrev pub ctx_load : ℕ
ctx_load = 0

abbrev pub ctx_store : ℕ
ctx_store = 1

abbrev pub type_id : ℕ
type_id = 0

abbrev pub type_const : ℕ
type_const = 1

abbrev pub side_left : ℕ
side_left = 0

abbrev pub side_right : ℕ
side_right = 1

abbrev pub call_pop : ℕ
call_pop = 0

abbrev pub call_stay : ℕ
call_stay = 1

-- `stack_peek`, which gives `NULL` for an empty stack.
abbrev pub peek : List ℕ → ℕ
peek [] = 0
peek (x ∷ xs) = x

unfoldable pub pop_stack : List ℕ → Run (List ℕ)
pop_stack [] = fatal_error pop_from_empty_stack
pop_stack (x ∷ xs) = ok xs

-- A push, a walk and a pop.
unfoldable pub in_context : ℕ → Walk → Walk
in_context c w s = do
  s₁ ← w (record s { context = c ∷ s.context })
  rest ← pop_stack s₁.context
  ok (record s₁ { context = rest })

unfoldable pub in_type : ℕ → Walk → Walk
in_type c w s = do
  s₁ ← w (record s { type_ = c ∷ s.type_ })
  rest ← pop_stack s₁.type_
  ok (record s₁ { type_ = rest })

unfoldable pub in_side : ℕ → Walk → Walk
in_side c w s = do
  s₁ ← w (record s { side = c ∷ s.side })
  rest ← pop_stack s₁.side
  ok (record s₁ { side = rest })

unfoldable pub in_call : ℕ → Walk → Walk
in_call c w s = do
  s₁ ← w (record s { call_state = c ∷ s.call_state })
  rest ← pop_stack s₁.call_state
  ok (record s₁ { call_state = rest })

-- `state->loop_cnt++; clc = state->loop_cnt;`
unfoldable pub numbered : (ℕ → Walk) → Walk
numbered k s = k (s.loop_cnt + 1) (record s { loop_cnt = s.loop_cnt + 1 })

-- A loop takes the next block. Its label is written, but for a switch, which leaves it as it is.
unfoldable pub block_label : Option Text → Option Text → Option Text
block_label none old = old
block_label (some l) old = some l

unfoldable pub enter_loop : Option Text → Walk
enter_loop l s = elim (get_elem? s.blocks s.block_cnt) [
  | none ↦ undefined
  | some b ↦ ok (record s {
    blocks = set s.blocks s.block_cnt (record { label = block_label l b.label; labels = [] });
    block_cnt = s.block_cnt + 1;
  })
]

unfoldable pub leave_loop : Walk
leave_loop s = ok (record s { block_cnt = s.block_cnt - 1 })

-- The label of the innermost loop: every block is a loop, so it is the first that is found.
unfoldable pub written : Option Text → Run Text
written none = undefined
written (some l) = ok l

unfoldable pub loop_label : List BlockState → ℕ → Run Text
loop_label blocks zero = fatal_error no_loop_block
loop_label blocks (suc i) = elim (get_elem? blocks i) [
  | none ↦ undefined
  | some b ↦ written b.label
]

-- The `continue` statement, by its opcode.
unfoldable pub continue_loop : ℕ → ℕ → Walk
continue_loop opcode lineno s = do
  l ← loop_label s.blocks s.block_cnt
  emit (code_line lineno opcode (op_label l ∷ [])) s
