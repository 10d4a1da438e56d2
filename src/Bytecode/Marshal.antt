-- ===== src/Bytecode/Marshal.antt =====
-- `_write_buffer` and `bytecode_marshal` of src/components/compiler/bytecode/marshal.c.
use saffire.Prelude.{ℕ, ◌+◌, List, [], ◌∷◌, ◌++◌, length, take, le_bytes}
use saffire.Bytecode.{
  Bytes, Bytecode, bytecode, Constants, no_constants, constant, Constant, string, regex, numerical,
  code, count_constants, constant_type,
}

-- A buffer under `realloc`, and the offset of the next write into it.
pub record Buffer : Type 0 where
  pub bytes : Bytes
  pub off : ℕ

-- The buffer is resized to end behind the data that are written. The offset and the size are of type
-- `int`; what follows is the code as long as the offset behind the data is below 2 ^ 31.
unfoldable pub write_buffer : Bytes → Buffer → Buffer
write_buffer data_bytes b = record {
  bytes = take b.off b.bytes ++ data_bytes;
  off = b.off + length data_bytes;
}

-- `sizeof(int)` bytes of an integer
unfoldable pub write_int : ℕ → Buffer → Buffer
write_int n b = write_buffer (le_bytes 4 n) b

-- the loop over the identifiers
unfoldable pub write_identifiers : List Bytes → Buffer → Buffer
write_identifiers [] b = b
write_identifiers (s ∷ rest) b = write_identifiers rest (write_buffer s (write_int (length s) b))

-- a string or a regex: its length and its bytes
unfoldable pub write_text : Bytes → Buffer → Buffer
write_text s b = write_buffer s (write_int (length s) b)

-- `child` is what `child_bincode` points at. It is reused for each code constant.
unfoldable mutual
  pub bytecode_marshal : Bytecode → Buffer → Buffer
  bytecode_marshal (bytecode stack_size code_bytes identifiers constants lino_offset lino) b =
      let b₁ = write_buffer code_bytes (write_int (length code_bytes) (write_int stack_size b)) in
      let b₂ = write_identifiers identifiers (write_int (length identifiers) b₁) in
      let b₃ = marshal_constants constants [] (write_int (count_constants constants) b₂) in
      write_buffer lino (write_int (length lino) (write_int lino_offset b₃))

  pub marshal_constants : Constants → Bytes → Buffer → Buffer
  marshal_constants no_constants child b = b
  marshal_constants (constant c rest) child b =
      let (child', b') = marshal_constant c child (write_buffer (constant_type c ∷ []) b) in
      marshal_constants rest child' b'

  pub marshal_constant : Constant → Bytes → Buffer → Bytes × Buffer
  marshal_constant (string s) child b = (child, write_text s b)
  marshal_constant (regex s) child b = (child, write_text s b)
  marshal_constant (numerical l) child b = (child, write_buffer (le_bytes 8 l) (write_int 8 b))
  marshal_constant (code body) child b =
      let c = bytecode_marshal body (record { bytes = child; off = 0 }) in
      (c.bytes, write_buffer (take c.off c.bytes) (write_int c.off b))
