-- ===== src/Asm/Operands.antt =====
-- What the operands of one instruction append to the code and to the list of backpatches, read by
-- the tables of any later frame.
use saffire.Prelude.{
  ℕ, ◌+◌, ◌/◌, ◌%◌, ◌≡◌, refl, sym, ◌∙◌, Bool, true, List, [], ◌∷◌, ◌++◌, append-nil, append_assoc,
  arith, Text, text_eq, text_eq_refl, length, length-append,
}
use saffire.Asm.{
  Opr, op_label, op_string, op_code, op_id, op_regex, op_realnum, op_num, op_compare, op_operator,
  AsmConstant, const_string, const_code, const_regex, const_long,
}
use saffire.Asm.Frame.{
  AsmFrame, add_codebyte, is_string, is_regex, is_code, is_long, long_of_int, convert_constant,
  convert_constant_string, convert_constant_regex, convert_constant_code,
  convert_constant_numerical, convert_identifier,
}
use saffire.Asm.Assemble.{convert_operand, add_operand, assemble_operands}
use saffire.Asm.Tables.{index_of, find_or_append-index, find_or_append_grows}
use saffire.Asm.Reference.{unpatched, operand_value, operand_bytes, label_use, operand_uses}

-- The tables of `g` are those of `f`, with entries added at their ends.
pub record Grows (f g : AsmFrame) : Type 0 where
  pub more_constants : List AsmConstant
  pub more_identifiers : List Text
  pub constants_grow : g.constants ≡ f.constants ++ more_constants
  pub identifiers_grow : g.identifiers ≡ f.identifiers ++ more_identifiers

pub Grows-same :
    (f g : AsmFrame) → g.constants ≡ f.constants → g.identifiers ≡ f.identifiers → Grows f g
Grows-same f g p q = record {
  more_constants = [];
  more_identifiers = [];
  constants_grow = p ∙ sym (append-nil f.constants);
  identifiers_grow = q ∙ sym (append-nil f.identifiers);
}

pub Grows-trans : (f g h : AsmFrame) → Grows f g → Grows g h → Grows f h
Grows-trans f g h a b = record {
  more_constants = a.more_constants ++ b.more_constants;
  more_identifiers = a.more_identifiers ++ b.more_identifiers;
  constants_grow = rw (b.constants_grow, a.constants_grow, append_assoc);
  identifiers_grow = rw (b.identifiers_grow, a.identifiers_grow, append_assoc);
}

convert_constant-Grows :
    (test : AsmConstant → Bool) (c : AsmConstant) (f : AsmFrame)
    → Grows f (convert_constant test c f).0
unfolding convert_constant
convert_constant-Grows test c f =
    let (ys, e) = find_or_append_grows test c f.constants in
    record {
      more_constants = ys;
      more_identifiers = [];
      constants_grow = e;
      identifiers_grow = sym (append-nil f.identifiers);
    }

convert_operand-Grows : (off : ℕ) (o : Opr) (f : AsmFrame) → Grows f (convert_operand off o f).0
unfolding convert_operand convert_constant_string convert_constant_regex convert_constant_code
    convert_constant_numerical convert_identifier
convert_operand-Grows off (op_label s) f = Grows-same f _ refl refl
convert_operand-Grows off (op_string s) f = convert_constant-Grows _ _ f
convert_operand-Grows off (op_regex s) f = convert_constant-Grows _ _ f
convert_operand-Grows off (op_code s) f = convert_constant-Grows _ _ f
convert_operand-Grows off (op_num l) f = convert_constant-Grows _ _ f
convert_operand-Grows off (op_id s) f =
    let (ys, e) = find_or_append_grows (λ t. text_eq t s) s f.identifiers in
    record {
      more_constants = [];
      more_identifiers = ys;
      constants_grow = sym (append-nil f.constants);
      identifiers_grow = e;
    }
convert_operand-Grows off (op_realnum l) f = Grows-same f f refl refl
convert_operand-Grows off (op_compare l) f = Grows-same f f refl refl
convert_operand-Grows off (op_operator l) f = Grows-same f f refl refl

-- What an operand leaves alone, and the use of a label that it notes.
record Noted (off : ℕ) (o : Opr) (f g : AsmFrame) : Type 0 where
  same_code : g.code ≡ f.code
  same_labels : g.label_offsets ≡ f.label_offsets
  noted : g.backpatch_offsets ≡ f.backpatch_offsets ++ label_use off (length f.code) o

Noted-same :
    (off : ℕ) (o : Opr) (f g : AsmFrame)
    → g.code ≡ f.code
    → g.label_offsets ≡ f.label_offsets
    → g.backpatch_offsets ≡ f.backpatch_offsets
    → label_use off (length f.code) o ≡ []
    → Noted off o f g
Noted-same off o f g p q r e = record {
  same_code = p;
  same_labels = q;
  noted = r ∙ rw (e, append-nil);
}

convert_operand-Noted :
    (off : ℕ) (o : Opr) (f : AsmFrame) → Noted off o f (convert_operand off o f).0
unfolding convert_operand convert_constant convert_constant_string convert_constant_regex
    convert_constant_code convert_constant_numerical convert_identifier
convert_operand-Noted off (op_label s) f = record {
  same_code = refl;
  same_labels = refl;
  noted = refl;
}
convert_operand-Noted off (op_string s) f = Noted-same off (op_string s) f _ refl refl refl refl
convert_operand-Noted off (op_regex s) f = Noted-same off (op_regex s) f _ refl refl refl refl
convert_operand-Noted off (op_code s) f = Noted-same off (op_code s) f _ refl refl refl refl
convert_operand-Noted off (op_num l) f = Noted-same off (op_num l) f _ refl refl refl refl
convert_operand-Noted off (op_id s) f = Noted-same off (op_id s) f _ refl refl refl refl
convert_operand-Noted off (op_realnum l) f = Noted-same off (op_realnum l) f f refl refl refl refl
convert_operand-Noted off (op_compare l) f = Noted-same off (op_compare l) f f refl refl refl refl
convert_operand-Noted off (op_operator l) f = Noted-same off (op_operator l) f f refl refl refl refl

convert_constant_value :
    (test : AsmConstant → Bool) (c : AsmConstant) (f F : AsmFrame)
    → test c ≡ true
    → Grows (convert_constant test c f).0 F
    → index_of test F.constants ≡ (convert_constant test c f).1
unfolding convert_constant
convert_constant_value test c f F e g =
    rw (g.constants_grow) (find_or_append-index test c f.constants g.more_constants e)

-- The value that one pass gives an operand is that of the final tables.
convert_operand_value :
    (off opcode : ℕ) (o : Opr) (f F : AsmFrame)
    → Grows (convert_operand off o f).0 F
    → operand_value unpatched F opcode off o ≡ (convert_operand off o f).1
unfolding convert_operand operand_value convert_constant_string convert_constant_regex
    convert_constant_code convert_constant_numerical convert_identifier
convert_operand_value off opcode (op_label s) f F g = refl
convert_operand_value off opcode (op_string s) f F g =
    convert_constant_value (is_string s) (const_string s) f F (text_eq_refl s) g
convert_operand_value off opcode (op_regex s) f F g =
    convert_constant_value (is_regex s) (const_regex s) f F (text_eq_refl s) g
convert_operand_value off opcode (op_code s) f F g =
    convert_constant_value (is_code s) (const_code s) f F (text_eq_refl s) g
convert_operand_value off opcode (op_num l) f F g =
    let k = long_of_int l in convert_constant_value (is_long k) (const_long k) f F (ground arith) g
convert_operand_value off opcode (op_id s) f F g =
    rw (g.identifiers_grow)
      (find_or_append-index (λ t. text_eq t s) s f.identifiers g.more_identifiers (text_eq_refl s))
convert_operand_value off opcode (op_realnum l) f F g = refl
convert_operand_value off opcode (op_compare l) f F g = refl
convert_operand_value off opcode (op_operator l) f F g = refl

pub add_operand-Grows : (f : AsmFrame) (v : ℕ) → Grows f (add_operand f v)
unfolding add_operand add_codebyte
add_operand-Grows f v = Grows-same f _ refl refl

add_operand_code :
    (f : AsmFrame) (v : ℕ) → (add_operand f v).code ≡ f.code ++ (v % 256) ∷ (v / 256 % 256) ∷ []
unfolding add_operand add_codebyte
add_operand_code f v = append_assoc f.code _ _

length-add_operand : (f : AsmFrame) (v : ℕ) → length (add_operand f v).code ≡ length f.code + 2
length-add_operand f v = rw (add_operand_code f v, length-append)

add_operand_labels : (f : AsmFrame) (v : ℕ) → (add_operand f v).label_offsets ≡ f.label_offsets
unfolding add_operand add_codebyte
add_operand_labels f v = refl

add_operand_uses :
    (f : AsmFrame) (v : ℕ) → (add_operand f v).backpatch_offsets ≡ f.backpatch_offsets
unfolding add_operand add_codebyte
add_operand_uses f v = refl

pub assemble_operands-Grows :
    (off : ℕ) (oprs : List Opr) (f : AsmFrame) → Grows f (assemble_operands off oprs f)
unfolding assemble_operands
assemble_operands-Grows off [] f = Grows-same f f refl refl
assemble_operands-Grows off (o ∷ oprs) f =
    let (f', v) = convert_operand off o f in
    Grows-trans f f' _ (convert_operand-Grows off o f) (
      Grows-trans f' (add_operand f' v) _ (add_operand-Grows f' v)
        (assemble_operands-Grows off oprs (add_operand f' v)))

-- What the operands of an instruction append.
pub record Appended (off opcode : ℕ) (oprs : List Opr) (F f g : AsmFrame) : Type 0 where
  pub code : g.code ≡ f.code ++ operand_bytes unpatched F opcode off oprs
  pub labels : g.label_offsets ≡ f.label_offsets
  pub uses : g.backpatch_offsets ≡ f.backpatch_offsets ++ operand_uses off (length f.code) oprs

pub assemble_operands-Appended :
    (off opcode : ℕ) (oprs : List Opr) (f F : AsmFrame)
    → Grows (assemble_operands off oprs f) F
    → Appended off opcode oprs F f (assemble_operands off oprs f)
unfolding assemble_operands operand_bytes operand_uses
assemble_operands-Appended off opcode [] f F g = record {
  code = sym (append-nil f.code);
  labels = refl;
  uses = sym (append-nil f.backpatch_offsets);
}
assemble_operands-Appended off opcode (o ∷ oprs) f F g =
    let (f', v) = convert_operand off o f in
    let n = convert_operand-Noted off o f in
    let r = assemble_operands-Appended off opcode oprs (add_operand f' v) F g in
    let later = Grows-trans f' (add_operand f' v) F (add_operand-Grows f' v) (
      Grows-trans (add_operand f' v) _ F (assemble_operands-Grows off oprs (add_operand f' v)) g) in
    record {
      code =
          r.code
          ∙ rw (
            add_operand_code f' v,
            n.same_code,
            append_assoc,
            convert_operand_value off opcode o f F later,
          );
      labels = r.labels ∙ add_operand_labels f' v ∙ n.same_labels;
      uses =
          r.uses
          ∙ rw (add_operand_uses f' v, length-add_operand f' v, n.same_code, n.noted, append_assoc);
    }
