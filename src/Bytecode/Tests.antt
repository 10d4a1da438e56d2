-- ===== src/Bytecode/Tests.antt =====
-- Runs of the binary form, and the round trip at a bytecode with a nested code constant.
use saffire.Prelude.{
  ◌≡◌, refl, [], ◌∷◌, ◌++◌, take, le_bytes, le_value, ok, fatal_error, undefined, unknown_constant,
  arith,
}
use saffire.Bytecode.{Bytecode, bytecode, no_constants, constant, string, numerical, code}
use saffire.Bytecode.Marshal.{Buffer, bytecode_marshal}
use saffire.Bytecode.Unmarshal.{
  bytecode_unmarshal, read_int, read_buffer, read_identifiers, read_constants, read_constant,
}
use saffire.Bytecode.Image.{image, at_end, marshal-image}
use saffire.Bytecode.RoundTrip.{IsWellFormed, nesting, unmarshal-marshal}

abbrev child : Bytecode
child = bytecode 42 (0x73 ∷ []) ((b's' ∷ []) ∷ []) no_constants 1 []

abbrev parent : Bytecode
parent =
    bytecode 42 (0x81 ∷ 0 ∷ 0 ∷ 0x73 ∷ []) []
      (constant (numerical 7) (constant (code child) (constant (string (b'x' ∷ [])) no_constants)))
      1 (2 ∷ [])

abbrev empty_buffer : Buffer
empty_buffer = record { bytes = []; off = 0 }

parent-IsWellFormed : IsWellFormed parent
unfolding IsWellFormed image le_bytes
parent-IsWellFormed = (
  omega arith,
  omega arith,
  omega arith,
  tt,
  omega arith,
  (
    omega arith,
    (
      (
        (
          omega arith,
          omega arith,
          omega arith,
          ((omega arith, (omega arith, tt)), tt),
          omega arith,
          tt,
          omega arith,
          omega arith,
        ),
        omega arith,
      ),
      (omega arith, tt),
    ),
  ),
  omega arith,
  omega arith,
)

unmarshal-marshal_example :
    bytecode_unmarshal (nesting parent) ((bytecode_marshal parent empty_buffer).bytes ++ 9 ∷ [])
    ≡ ok parent
unmarshal-marshal_example = unmarshal-marshal parent (9 ∷ []) parent-IsWellFormed

-- Into a buffer with a stale tail.
abbrev stale : Buffer
stale = record { bytes = 1 ∷ 2 ∷ 3 ∷ 4 ∷ []; off = 2 }

marshal-image_example : bytecode_marshal parent stale ≡ at_end (take 2 stale.bytes ++ image parent)
unfolding image le_bytes
marshal-image_example = marshal-image parent stale (omega arith) (omega arith)

-- A constant type that nobody writes ends the process, and a cut stream is read past its end.
bad_type :
    bytecode_unmarshal 1
      (42 ∷ 0 ∷ 0 ∷ 0 ∷ 0 ∷ 0 ∷ 0 ∷ 0 ∷ 0 ∷ 0 ∷ 0 ∷ 0 ∷ 1 ∷ 0 ∷ 0 ∷ 0 ∷ 9 ∷ 0 ∷ 0 ∷ 0 ∷ 0 ∷ [])
    ≡ fatal_error unknown_constant
unfolding bytecode_unmarshal read_int read_buffer read_identifiers read_constants read_constant
    le_value
bad_type = refl

cut_stream : bytecode_unmarshal 1 (42 ∷ 0 ∷ 0 ∷ 0 ∷ 5 ∷ 0 ∷ 0 ∷ 0 ∷ 1 ∷ []) ≡ undefined
unfolding bytecode_unmarshal read_int read_buffer le_value
cut_stream = refl
