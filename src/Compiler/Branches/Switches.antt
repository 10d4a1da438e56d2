-- ===== src/Compiler/Branches/Switches.antt =====
-- The goto, label, try and switch statements of src/components/compiler/ast_to_asm.c.
use saffire.Prelude.{
  ℕ, ◌+◌, Bool, false, Option, none, some, List, [], ◌∷◌, ◌++◌, Text, undefined, fatal_error,
  duplicate_label, ◌==◌, ◌||◌, if◌then◌else◌, length, leb, get_elem?, set, text_eq,
}
use saffire.Asm.{op_label, op_id, op_compare}
use saffire.Compiler.Names
use saffire.Compiler.Names.{label, decimal, decimal3}
use saffire.Compiler.State.{Walk, ◌⨾◌, skip, ctx_load, in_context, numbered, enter_loop}
use saffire.Compiler.Simple.{op, place, pop_top}
use saffire.Compiler.Branches.Conditions.{jump_to, optional}

-- The label buffers have 100 bytes.
abbrev pub user_label : Text → (Text → Walk) → Walk
user_label name k =
    if leb 100 (length (Names.userlabel_text ++ name))
    then (λ s. undefined)
    else k (Names.userlabel_text ++ name)

unfoldable pub walk_goto : ℕ → Text → Walk
walk_goto lineno name = user_label name (jump_to 0x86 lineno)

abbrev pub text_mem : Text → List Text → Bool
text_mem t [] = false
text_mem t (x ∷ xs) = text_eq x t || text_mem t xs

-- A label must not be known in the current block.
unfoldable pub new_label : Text → Walk
new_label l s = elim (get_elem? s.blocks s.block_cnt) [
  | none ↦ undefined
  | some b ↦
      if text_mem l b.labels
      then fatal_error duplicate_label
      else place l (record s {
        blocks = set s.blocks s.block_cnt (record b { labels = b.labels ++ l ∷ [] });
      })
]

unfoldable pub walk_label : Text → Walk
walk_label name = user_label name new_label

-- `try_%03d_match_%03d`
unfoldable pub catch_label : ℕ → Text → ℕ → Text
catch_label clc suffix i = label Names.try_text clc suffix ++ decimal3 i

unfoldable pub walk_catch : ℕ → ℕ → ℕ → Text → Text → Walk → Walk
walk_catch lineno clc i exception identifier body =
    let matching = catch_label clc Names.match_suffix i in
    let nomatch = catch_label clc Names.nomatch_suffix i in
    (if i == 0 then skip else pop_top lineno)
    ⨾ op 0x04 lineno []
    ⨾ op 0x82 lineno (op_id exception ∷ [])
    ⨾ op 0x95 lineno (op_compare 8 ∷ [])
    ⨾ jump_to 0x85 lineno nomatch
    ⨾ pop_top lineno
    ⨾ op 0x80 lineno (op_id identifier ∷ [])
    ⨾ place matching
    ⨾ in_context ctx_load body
    ⨾ jump_to 0x83 lineno (label Names.try_text clc Names.finally_suffix)
    ⨾ place nomatch

unfoldable pub walk_try : ℕ → Walk → (ℕ → Walk) → Option Walk → Walk
walk_try lineno body catches finally = numbered (λ clc.
    let finally_label = label Names.try_text clc Names.finally_suffix in
    let end_try = label Names.try_text clc Names.end_try_suffix in
    let end_finally = label Names.try_text clc Names.end_finally_suffix in
    op 0xE0 lineno (op_label end_try ∷ op_label finally_label ∷ op_label end_finally ∷ [])
    ⨾ in_context ctx_load body
    ⨾ jump_to 0x83 lineno finally_label
    ⨾ place end_try
    ⨾ catches clc
    ⨾ pop_top lineno
    ⨾ jump_to 0x83 lineno finally_label
    ⨾ place finally_label
    ⨾ optional finally
    ⨾ place end_finally
    ⨾ op 0x7A lineno [])

-- `switch_%03d_case_%d`, with a suffix.
unfoldable pub case_label : ℕ → ℕ → Text → Text
case_label clc i suffix = label Names.switch_text clc Names.case_suffix ++ (decimal i ++ suffix)

-- The body of a clause, and the jump to that of the next.
unfoldable pub case_body : ℕ → ℕ → Walk → Walk
case_body clc i body =
    place (case_label clc i Names.body_suffix)
    ⨾ in_context ctx_load body
    ⨾ jump_to 0x86 0 (case_label clc (i + 1) Names.body_suffix)

unfoldable pub walk_case : ℕ → ℕ → ℕ → Walk → Walk → Walk
walk_case clc i lineno value body =
    place (case_label clc i Names.pre_suffix)
    ⨾ (if i == 0 then skip else pop_top 0)
    ⨾ place (case_label clc i [])
    ⨾ op 0x04 lineno []
    ⨾ in_context ctx_load value
    ⨾ op 0x95 lineno (op_compare 0 ∷ [])
    ⨾ jump_to 0x85 lineno (case_label clc (i + 1) Names.pre_suffix)
    ⨾ pop_top lineno
    ⨾ case_body clc i body

unfoldable pub walk_default : ℕ → ℕ → Walk → Walk
walk_default clc i body =
    place (case_label clc i Names.pre_suffix)
    ⨾ (if i == 0 then op 0x04 0 [] else skip)
    ⨾ jump_to 0x86 0 (case_label clc (i + 1) Names.pre_suffix)
    ⨾ place (case_label clc i [])
    ⨾ place (label Names.switch_text clc Names.default_suffix)
    ⨾ case_body clc i body

-- The clauses, their number and whether one is the default clause.
unfoldable pub walk_switch : Walk → (ℕ → Walk) → ℕ → Bool → Walk
walk_switch value cases len default_found = numbered (λ clc.
    let begin = label Names.switch_text clc Names.begin_suffix in
    let default = label Names.switch_text clc Names.default_suffix in
    let end = label Names.switch_text clc Names.end_suffix in
    enter_loop none
    ⨾ in_context ctx_load value
    ⨾ place begin
    ⨾ op 0xC1 0 (op_label end ∷ op_label default ∷ [])
    ⨾ cases clc
    ⨾ place (case_label clc len Names.pre_suffix)
    ⨾ pop_top 0
    ⨾ jump_to 0x86 0 default
    ⨾ place (case_label clc len [])
    ⨾ place (case_label clc len Names.body_suffix)
    ⨾ (if default_found then skip else place default)
    ⨾ place end
    ⨾ op 0x72 0 []
    ⨾ pop_top 0)
