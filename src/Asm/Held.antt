-- ===== src/Asm/Held.antt =====
-- The entries of the tables that the operands of `assemble_frame`
-- (src/components/compiler/output/asm.c) stand for.
use saffire.Prelude.{
  ℕ, ◌%◌, ◌≡◌, subst, ok-injective, Bool, some, List, [], ◌∷◌, ◌++◌, ok, >>=-returns, text_eq, ◌∙◌,
  length, get_elem?, get_elem?_bound, get_elem?-append_left, All,
}
use saffire.Asm.{
  Opr, op_label, op_string, op_code, op_id, op_regex, op_realnum, op_num, op_compare, op_operator,
  Line, label_line, code_line, AsmConstant, const_string, const_code, const_regex, const_long,
}
use saffire.Asm.Frame.{
  AsmFrame, add_codebyte, is_string, is_regex, is_code, is_long, long_of_int, find_or_append,
  convert_constant, convert_constant_string, convert_constant_regex, convert_constant_code,
  convert_constant_numerical, convert_identifier,
}
use saffire.Asm.Assemble.{
  Progress, convert_operand, add_operand, assemble_operands, assemble_line, assemble_lines,
}
use saffire.Asm.Tables.{index_of, Singles, find_or_append-index, find_or_append-Interned}
use saffire.Asm.Interning.{
  is_string-Singles, is_regex-Singles, is_code-Singles, is_long-Singles, is_name-Singles,
}
use saffire.Asm.Operands.{Grows, Grows-trans, add_operand-Grows, assemble_operands-Grows}
use saffire.Asm.FirstPass.{note_lineno_frame, lines_done}

-- The entry that an operand stands for is in its table, at the position that is looked up for it.
abbrev pub IsHeld : AsmFrame → Opr → Type 0
IsHeld f (op_string s) =
    get_elem? f.constants (index_of (is_string s) f.constants) ≡ some (const_string s)
IsHeld f (op_regex s) =
    get_elem? f.constants (index_of (is_regex s) f.constants) ≡ some (const_regex s)
IsHeld f (op_code s) =
    get_elem? f.constants (index_of (is_code s) f.constants) ≡ some (const_code s)
IsHeld f (op_num l) =
    get_elem? f.constants (index_of (is_long (long_of_int l)) f.constants)
    ≡ some (const_long (long_of_int l))
IsHeld f (op_id s) = get_elem? f.identifiers (index_of (λ t. text_eq t s) f.identifiers) ≡ some s
IsHeld f (op_label s) = Unit
IsHeld f (op_realnum l) = Unit
IsHeld f (op_compare l) = Unit
IsHeld f (op_operator l) = Unit

-- That of each operand of a line.
abbrev pub IsStored : AsmFrame → Line → Type 0
IsStored f (label_line s) = Unit
IsStored f (code_line lineno opcode oprs) = All (IsHeld f) oprs

-- An entry stays where it was found or added.
find_or_append-held {ℓ} :
    {A : Type ℓ} (test : A → Bool) (a : A) (t ys : List A)
    → Singles test a
    → get_elem?
        ((find_or_append test a t).0 ++ ys)
        (index_of test ((find_or_append test a t).0 ++ ys))
      ≡ some a
find_or_append-held test a t ys single =
    let (t', k) = find_or_append test a t in
    let found : get_elem? t' k ≡ some a = (find_or_append-Interned test a single t).found in
    rw (find_or_append-index test a t ys (single.0))
      (get_elem?-append_left t' ys k (get_elem?_bound t' k found) ∙ found)

constant_held :
    (test : AsmConstant → Bool) (c : AsmConstant) (f F : AsmFrame)
    → Singles test c
    → Grows (convert_constant test c f).0 F
    → get_elem? F.constants (index_of test F.constants) ≡ some c
unfolding convert_constant
constant_held test c f F single g =
    rw (g.constants_grow) (find_or_append-held test c f.constants g.more_constants single)

convert_operand-IsHeld :
    (off : ℕ) (o : Opr) (f F : AsmFrame) → Grows (convert_operand off o f).0 F → IsHeld F o
unfolding convert_operand convert_constant_string convert_constant_regex convert_constant_code
    convert_constant_numerical convert_identifier
convert_operand-IsHeld off (op_string s) f F g = constant_held _ _ f F (is_string-Singles s) g
convert_operand-IsHeld off (op_regex s) f F g = constant_held _ _ f F (is_regex-Singles s) g
convert_operand-IsHeld off (op_code s) f F g = constant_held _ _ f F (is_code-Singles s) g
convert_operand-IsHeld off (op_num l) f F g =
    constant_held _ _ f F (is_long-Singles (long_of_int l)) g
convert_operand-IsHeld off (op_id s) f F g =
    rw (g.identifiers_grow)
      (find_or_append-held _ s f.identifiers g.more_identifiers (is_name-Singles s))
convert_operand-IsHeld off (op_label s) f F g = tt
convert_operand-IsHeld off (op_realnum l) f F g = tt
convert_operand-IsHeld off (op_compare l) f F g = tt
convert_operand-IsHeld off (op_operator l) f F g = tt

assemble_operands-IsHeld :
    (off : ℕ) (oprs : List Opr) (f F : AsmFrame)
    → Grows (assemble_operands off oprs f) F
    → All (IsHeld F) oprs
unfolding assemble_operands
assemble_operands-IsHeld off [] f F g = tt
assemble_operands-IsHeld off (o ∷ oprs) f F g =
    let (f', v) = convert_operand off o f in
    let later = Grows-trans f' (add_operand f' v) F (add_operand-Grows f' v) (
      Grows-trans (add_operand f' v) _ F (assemble_operands-Grows off oprs (add_operand f' v)) g) in
    (
      convert_operand-IsHeld off o f F later,
      assemble_operands-IsHeld off oprs (add_operand f' v) F g,
    )

assemble_line-IsStored :
    (line : Line) (p q : Progress) (F : AsmFrame)
    → assemble_line line p ≡ ok q
    → Grows q.frame F
    → IsStored F line
unfolding assemble_line
assemble_line-IsStored (label_line s) p q F h g = tt
assemble_line-IsStored (code_line lineno opcode oprs) p q F h g =
    subst (λ (r : Progress). Grows r.frame F → All (IsHeld F) oprs) (ok-injective h)
      (rw (note_lineno_frame lineno (length p.frame.code)) (
        assemble_operands-IsHeld (length p.frame.code) oprs (add_codebyte p.frame (opcode % 256))
          F))
      g

-- The entries of all lines are in the tables of every later frame.
pub assemble_lines-IsStored :
    (lines : List Line) (p q : Progress) (F : AsmFrame)
    → assemble_lines lines p ≡ ok q
    → Grows q.frame F
    → All (IsStored F) lines
unfolding assemble_lines
assemble_lines-IsStored [] p q F h g = tt
assemble_lines-IsStored (line ∷ lines) p q F h g =
    let (m, first, rest) = >>=-returns (assemble_line line p) (assemble_lines lines) h in
    let later = Grows-trans m.frame q.frame F ((lines_done lines m q rest).grows) g in
    (assemble_line-IsStored line p m F first later, assemble_lines-IsStored lines m q F rest g)
