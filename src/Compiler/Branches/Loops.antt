-- ===== src/Compiler/Branches/Loops.antt =====
-- The loops of src/components/compiler/ast_to_asm.c.
use saffire.Prelude.{ℕ, zero, suc, ◌+◌, Option, none, some, [], ◌∷◌, Text}
use saffire.Asm.{op_label, op_id, op_realnum}
use saffire.Compiler.Names
use saffire.Compiler.Names.{label, decimal, decimal3}
use saffire.Compiler.State.{
  Walk, ◌⨾◌, skip, ctx_load, ctx_store, call_stay, in_context, in_call, numbered, enter_loop,
  leave_loop,
}
use saffire.Compiler.Simple.{op, place, pop_top}
use saffire.Compiler.Branches.Conditions.{jump_to}

unfoldable pub walk_do : ℕ → Walk → Walk → Walk
walk_do lineno body test = numbered (λ clc.
    let cmp = label Names.dowhile_text clc Names.cmp_suffix in
    let begin = label Names.dowhile_text clc [] in
    let pre_end = label Names.dowhile_text clc Names.pre_end_suffix in
    let end = label Names.dowhile_text clc Names.end_suffix in
    enter_loop (some cmp)
    ⨾ jump_to 0x90 lineno end
    ⨾ place begin
    ⨾ in_context ctx_load body
    ⨾ place cmp
    ⨾ in_context ctx_load test
    ⨾ jump_to 0x85 lineno pre_end
    ⨾ pop_top lineno
    ⨾ jump_to 0x86 lineno begin
    ⨾ place pre_end
    ⨾ pop_top lineno
    ⨾ place end
    ⨾ op 0x72 lineno []
    ⨾ leave_loop)

-- `VM_SETUP_ELSE_LOOP` with the label of the else clause, or `VM_SETUP_LOOP`.
abbrev pub setup_loop : Option Walk → Text → Text → Walk
setup_loop none end else_label = jump_to 0x90 0 end
setup_loop (some w) end else_label = op 0xC1 0 (op_label end ∷ op_label else_label ∷ [])

abbrev pub first_jump : Option Walk → Text → Walk
first_jump none l = skip
first_jump (some w) l = jump_to 0xA0 0 l

unfoldable pub while_else : Option Walk → Text → Text → Text → Walk
while_else none pre_else else_label end = skip
while_else (some w) pre_else else_label end =
    place pre_else ⨾ pop_top 0 ⨾ place else_label ⨾ in_context ctx_load w ⨾ jump_to 0x86 0 end

unfoldable pub walk_while : Walk → Walk → Option Walk → Walk
walk_while test body other = numbered (λ clc.
    let begin = label Names.while_text clc [] in
    let else_label = label Names.while_text clc Names.else_suffix in
    let pre_else = label Names.while_text clc Names.pre_else_suffix in
    let pre_end = label Names.while_text clc Names.pre_end_suffix in
    let end = label Names.while_text clc Names.end_suffix in
    enter_loop (some begin)
    ⨾ setup_loop other end else_label
    ⨾ place begin
    ⨾ in_context ctx_load test
    ⨾ first_jump other pre_else
    ⨾ jump_to 0x85 0 pre_end
    ⨾ pop_top 0
    ⨾ in_context ctx_load body
    ⨾ jump_to 0x86 0 begin
    ⨾ while_else other pre_else else_label end
    ⨾ place pre_end
    ⨾ pop_top 0
    ⨾ place end
    ⨾ op 0x72 0 []
    ⨾ leave_loop)

-- An empty test loads `true`, as an identifier by the opcode for constants.
unfoldable pub for_test : ℕ → Option Walk → Walk
for_test lineno none = op 0x81 lineno (op_id Names.true_name ∷ [])
for_test lineno (some test) = test

unfoldable pub walk_for : ℕ → Walk → Option Walk → Walk → Walk → Walk
walk_for lineno init test incdec body = numbered (λ clc.
    let start = label Names.for_text clc Names.init_suffix in
    let again = label Names.for_text clc Names.test_suffix in
    let pre_end = label Names.for_text clc Names.pre_end_suffix in
    let end = label Names.for_text clc Names.end_suffix in
    let step = label Names.for_text clc Names.incdec_suffix in
    enter_loop (some step)
    ⨾ place start
    ⨾ in_context ctx_load init
    ⨾ jump_to 0x90 lineno end
    ⨾ place again
    ⨾ in_context ctx_load (for_test lineno test)
    ⨾ jump_to 0x85 lineno pre_end
    ⨾ pop_top lineno
    ⨾ in_context ctx_load body
    ⨾ place step
    ⨾ in_context ctx_load incdec
    ⨾ jump_to 0x86 lineno again
    ⨾ place pre_end
    ⨾ pop_top lineno
    ⨾ place end
    ⨾ op 0x72 lineno []
    ⨾ leave_loop)

-- A name of the loop, which is stored to if it is there.
abbrev pub store : Option Walk → Walk
store none = skip
store (some w) = in_context ctx_store w

abbrev pub present : Option Walk → ℕ
present none = 0
present (some w) = 1

unfoldable pub pop_times : ℕ → Walk
pop_times zero = skip
pop_times (suc n) = pop_top 0 ⨾ pop_times n

unfoldable pub foreach_else : Option Walk → Text → Text → Text → ℕ → Walk
foreach_else none pre_else else_label end kvm = skip
foreach_else (some w) pre_else else_label end kvm =
    place pre_else
    ⨾ pop_top 0
    ⨾ pop_times kvm
    ⨾ place else_label
    ⨾ in_context ctx_load w
    ⨾ jump_to 0x86 0 end

unfoldable pub walk_foreach :
    Walk → Walk → Option Walk → Option Walk → Option Walk → Option Walk → Walk
walk_foreach over body key value meta other = numbered (λ clc.
    let kvm = present key + present value + present meta in
    let loop = label Names.foreach_text clc Names.loop_suffix in
    let pre_else = label Names.foreach_text clc Names.pre_else_suffix in
    let else_label = label Names.foreach_text clc Names.else_suffix in
    let pre_end = label Names.foreach_text clc Names.pre_end_suffix in
    let end = label Names.foreach_text clc Names.end_suffix in
    enter_loop (some loop)
    ⨾ in_call call_stay (in_context ctx_load over)
    ⨾ op 0x7B 0 []
    ⨾ setup_loop other end else_label
    ⨾ place loop
    ⨾ op 0x04 0 []
    ⨾ op 0xB1 0 (op_realnum kvm ∷ [])
    ⨾ first_jump other pre_else
    ⨾ jump_to 0x85 0 pre_end
    ⨾ pop_top 0
    ⨾ store key
    ⨾ store value
    ⨾ store meta
    ⨾ in_context ctx_load body
    ⨾ jump_to 0x86 0 loop
    ⨾ foreach_else other pre_else else_label end kvm
    ⨾ place pre_end
    ⨾ pop_top 0
    ⨾ pop_times kvm
    ⨾ place end
    ⨾ op 0x72 0 []
    ⨾ leave_loop)
