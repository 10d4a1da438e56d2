-- ===== src/Asm/Frame.antt =====
-- The frame under construction: code bytes, and the tables of constants and identifiers.
use saffire.Prelude.{
  ℕ, ◌+◌, ◌-◌, ◌^◌, Bool, false, Option, none, some, List, [], ◌∷◌, ◌++◌, Text, text_eq, length,
  leb, ltb, ◌==◌, if◌then◌else◌,
}
use saffire.Asm.{AsmConstant, const_string, const_code, const_regex, const_long}

-- `struct _backpatch`
pub record Backpatch : Type 0 where
  pub opcode_offset : ℕ
  pub operand_offset : ℕ
  pub label : Text

-- `t_asm_frame`. `label_offsets` is the hash table from label names to offsets.
pub record AsmFrame : Type 0 where
  pub constants : List AsmConstant
  pub identifiers : List Text
  pub label_offsets : List (Text × ℕ)
  pub backpatch_offsets : List Backpatch
  pub stack_size : ℕ
  pub alloc_len : ℕ
  pub code : List ℕ
  pub lino : List ℕ

abbrev pub new_frame : AsmFrame
new_frame = record {
  constants = [];
  identifiers = [];
  label_offsets = [];
  backpatch_offsets = [];
  stack_size = 0;
  alloc_len = 0;
  code = [];
  lino = [];
}

-- `_add_codebyte`
unfoldable pub add_codebyte : AsmFrame → ℕ → AsmFrame
add_codebyte frame b = record frame {
  alloc_len =
      if leb frame.alloc_len (length frame.code) then frame.alloc_len + 1024 else frame.alloc_len;
  code = frame.code ++ b ∷ [];
}

-- The walk over a table that counts its position.
unfoldable pub find_from {ℓ} : {A : Type ℓ} → (A → Bool) → ℕ → List A → Option ℕ
find_from test pos [] = none
find_from test pos (a ∷ rest) = if test a then some pos else find_from test (pos + 1) rest

-- The position of an entry that the test accepts, or that of the entry added at the end.
unfoldable pub find_or_append {ℓ} : {A : Type ℓ} → (A → Bool) → A → List A → List A × ℕ
find_or_append test a table = elim (find_from test 0 table) [
  | some pos ↦ (table, pos)
  | none ↦ (table ++ a ∷ [], length (table ++ a ∷ []) - 1)
]

abbrev pub is_string : Text → AsmConstant → Bool
is_string s (const_string t) = text_eq s t
is_string s _ = false

abbrev pub is_regex : Text → AsmConstant → Bool
is_regex s (const_regex t) = text_eq s t
is_regex s _ = false

abbrev pub is_code : Text → AsmConstant → Bool
is_code s (const_code t) = text_eq s t
is_code s _ = false

abbrev pub is_long : ℕ → AsmConstant → Bool
is_long l (const_long m) = m == l
is_long l _ = false

unfoldable pub convert_constant : (AsmConstant → Bool) → AsmConstant → AsmFrame → AsmFrame × ℕ
convert_constant test c frame =
    let (table, pos) = find_or_append test c frame.constants in
    (record frame { constants = table }, pos)

-- `_convert_constant_string`
unfoldable pub convert_constant_string : AsmFrame → Text → AsmFrame × ℕ
convert_constant_string frame s = convert_constant (is_string s) (const_string s) frame

-- `_convert_constant_regex`
unfoldable pub convert_constant_regex : AsmFrame → Text → AsmFrame × ℕ
convert_constant_regex frame r = convert_constant (is_regex r) (const_regex r) frame

-- `_convert_constant_code`
unfoldable pub convert_constant_code : AsmFrame → Text → AsmFrame × ℕ
convert_constant_code frame s = convert_constant (is_code s) (const_code s) frame

-- The `long` that an `int` is compared with and stored as.
unfoldable pub long_of_int : ℕ → ℕ
long_of_int i = if ltb i (2 ^ 31) then i else i + (2 ^ 64 - 2 ^ 32)

-- `_convert_constant_numerical`
unfoldable pub convert_constant_numerical : AsmFrame → ℕ → AsmFrame × ℕ
convert_constant_numerical frame i =
    convert_constant (is_long (long_of_int i)) (const_long (long_of_int i)) frame

-- `_convert_identifier`
unfoldable pub convert_identifier : AsmFrame → Text → AsmFrame × ℕ
convert_identifier frame s =
    let (table, pos) = find_or_append (λ t. text_eq t s) s frame.identifiers in
    (record frame { identifiers = table }, pos)
