-- ===== src/Compiler/Branches/Conditions.antt =====
-- The conditions of src/components/compiler/ast_to_asm.c.
use saffire.Prelude.{ℕ, Option, none, some, [], ◌∷◌, Text}
use saffire.Asm.{op_label}
use saffire.Compiler.Names
use saffire.Compiler.Names.{label, decimal, decimal3}
use saffire.Compiler.State.{Walk, ◌⨾◌, skip, ctx_load, in_context, numbered, continue_loop}
use saffire.Compiler.Simple.{op, place, pop_top}

abbrev pub jump_to : ℕ → ℕ → Text → Walk
jump_to opcode lineno l = op opcode lineno (op_label l ∷ [])

-- The third operand, walked if it is there.
abbrev pub optional : Option Walk → Walk
optional none = skip
optional (some w) = in_context ctx_load w

-- `T_IF` and `'?'`, whose labels differ.
unfoldable pub walk_condition : Text → ℕ → Walk → Walk → Option Walk → Walk
walk_condition prefix lineno test body other = numbered (λ clc.
    let end = label prefix clc Names.end_suffix in
    let else_label = label prefix clc Names.else_suffix in
    in_context ctx_load test
    ⨾ jump_to 0x85 lineno else_label
    ⨾ pop_top lineno
    ⨾ in_context ctx_load body
    ⨾ jump_to 0x86 lineno end
    ⨾ place else_label
    ⨾ pop_top lineno
    ⨾ optional other
    ⨾ jump_to 0x86 lineno end
    ⨾ place end)

unfoldable pub walk_if : ℕ → Walk → Walk → Option Walk → Walk
walk_if = walk_condition Names.if_text

unfoldable pub walk_ternary : ℕ → Walk → Walk → Option Walk → Walk
walk_ternary = walk_condition Names.ternaryif_text

unfoldable pub walk_coalesce : ℕ → Walk → Walk → Walk
walk_coalesce lineno l r = numbered (λ clc.
    let default = label Names.coalesce_text clc Names.default_suffix in
    let end = label Names.coalesce_text clc Names.end_suffix in
    in_context ctx_load l
    ⨾ op 0x04 lineno []
    ⨾ jump_to 0x85 lineno default
    ⨾ pop_top lineno
    ⨾ jump_to 0x86 lineno end
    ⨾ place default
    ⨾ pop_top lineno
    ⨾ pop_top lineno
    ⨾ in_context ctx_load r
    ⨾ jump_to 0x86 lineno end
    ⨾ place end)

unfoldable pub walk_continue : ℕ → Walk
walk_continue lineno = continue_loop 0x92 lineno
