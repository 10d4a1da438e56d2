-- ===== src/Bytecode.antt =====
-- The bytecode structure of src/include/compiler/bytecode.h, with its binary form below
-- (src/components/compiler/bytecode/marshal.c). A buffer and its length are one list.
pub mod Marshal
pub mod Unmarshal
pub mod Image
pub mod RoundTrip
pub mod Link
pub mod Assembler
mod Tests
mod LinkTests
use saffire.Prelude.{ℕ, suc, List}

abbrev pub Bytes : Type 0
Bytes = List ℕ

-- `struct _bytecode`: stack_size, code, identifiers, constants, lino_offset, lino. The source
-- filename is not part of the binary form. A `long` is the 64-bit pattern that it stores.
mutual
  pub data Bytecode : Type 0 where
    bytecode :
        (stack_size : ℕ) (code : Bytes) (identifiers : List Bytes) (constants : Constants)
        (lino_offset : ℕ) (lino : Bytes)
        → Bytecode

  pub data Constants : Type 0 where
    no_constants : Constants
    constant : Constant → Constants → Constants

  pub data Constant : Type 0 where
    string regex : Bytes → Constant
    numerical : ℕ → Constant
    code : Bytecode → Constant

abbrev pub count_constants : Constants → ℕ
count_constants no_constants = 0
count_constants (constant c cs) = suc (count_constants cs)

-- `BYTECODE_CONST_*`
abbrev pub constant_type : Constant → ℕ
constant_type (string s) = 0
constant_type (numerical l) = 1
constant_type (code b) = 2
constant_type (regex s) = 3
