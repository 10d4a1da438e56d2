-- ===== src/Compiler/Classes.antt =====
-- The cases of `__ast_walker` of src/components/compiler/ast_to_asm.c for classes, interfaces and
-- attributes, and the frames.
use saffire.Prelude.{ℕ, ◌+◌, Bool, [], ◌∷◌, ◌++◌, Text, ok, ◌>>=◌, text_eq, if◌then◌else◌}
use saffire.Asm.{op_string, op_code, op_id, op_realnum, op_num}
use saffire.Compiler.Names.{null_name, self_name, main_name, frame_text, label}
use saffire.Compiler.State.{state_init, Walk, ◌⨾◌, skip, ctx_load, in_context, numbered}
use saffire.Compiler.Simple.{op}

-- `VM_BUILD_CLASS` or `VM_BUILD_INTERFACE` with the number of attributes, which starts again.
unfoldable pub build : ℕ → ℕ → Walk
build opcode lineno s = do
  s₁ ← op opcode lineno (op_realnum s.attributes ∷ []) s
  ok (record s₁ { attributes = 0 })

abbrev pub load_num : ℕ → ℕ → Walk
load_num lineno n = op 0x81 lineno (op_num n ∷ [])

abbrev pub load_string : ℕ → Text → Walk
load_string lineno t = op 0x81 lineno (op_string t ∷ [])

unfoldable pub walk_class : ℕ → ℕ → Text → Walk → ℕ → Walk → Walk → Walk
walk_class lineno modifiers name extends len implements body =
    body
    ⨾ load_string lineno name
    ⨾ in_context ctx_load extends
    ⨾ in_context ctx_load implements
    ⨾ load_num lineno len
    ⨾ load_num lineno modifiers
    ⨾ build 0x93 lineno
    ⨾ op 0xB8 lineno (op_id name ∷ [])

unfoldable pub walk_interface : ℕ → ℕ → Text → ℕ → Walk → Walk → Walk
walk_interface lineno modifiers name len implements body =
    body
    ⨾ load_string lineno name
    ⨾ in_context ctx_load (load_string lineno null_name)
    ⨾ in_context ctx_load implements
    ⨾ load_num lineno len
    ⨾ load_num lineno modifiers
    ⨾ build 0x94 lineno
    ⨾ op 0xB8 lineno (op_id name ∷ [])

-- The return statement behind a frame.
unfoldable pub precaution : Text → Walk
precaution name =
    (if text_eq name main_name then op 0x81 0 (op_num 0 ∷ []) else op 0x82 0 (op_id self_name ∷ []))
    ⨾ op 0x73 0 []

-- A walk that fills a frame.
unfoldable pub fill_frame : Bool → Text → Walk → Walk
fill_frame append_return_statement name w =
    w ⨾ (if append_return_statement then precaution name else skip)

-- `_ast_to_frame`: a frame of its own, in front of those that are found in it.
unfoldable pub ast_to_frame : Bool → Text → Walk → Walk
ast_to_frame append_return_statement name w s = do
  s₁ ← fill_frame append_return_statement name w (state_init s.multi_assignment)
  ok (record s {
    output = s.output ++ (name, s₁.lines) ∷ s₁.output;
    multi_assignment = s₁.multi_assignment;
  })

-- The hint, the name and the value of an argument.
unfoldable pub walk_argument : Walk → Walk → Walk → Walk
walk_argument hint name value =
    in_context ctx_load hint ⨾ in_context ctx_load name ⨾ in_context ctx_load value

unfoldable pub walk_method : Bool → ℕ → Walk → ℕ → Walk → Walk
walk_method append lineno arguments flags body =
    arguments
    ⨾ load_num lineno flags
    ⨾ numbered (λ clc.
      let frame = label frame_text clc [] in
      op 0x81 lineno (op_code frame ∷ []) ⨾ ast_to_frame append frame body)

unfoldable pub count_attribute : Walk
count_attribute s = ok (record s { attributes = s.attributes + 1 })

-- What all attributes end in.
unfoldable pub walk_attribute : ℕ → ℕ → ℕ → ℕ → ℕ → Text → Walk → Walk
walk_attribute lineno visibility access type_ arg_count name value =
    value
    ⨾ load_num lineno visibility
    ⨾ load_num lineno access
    ⨾ op 0xC2 lineno (op_realnum type_ ∷ op_realnum arg_count ∷ [])
    ⨾ load_string lineno name
    ⨾ count_attribute
