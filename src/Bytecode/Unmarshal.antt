-- ===== src/Bytecode/Unmarshal.antt =====
-- `_read_buffer`, the constructors of constants and names, and `bytecode_unmarshal` of
-- src/components/compiler/bytecode/marshal.c. The reader is given the bytes from `bincode` on;
-- a read past their end, or of a negative size, is undefined.
use saffire.Prelude.{
  ℕ, zero, suc, ◌^◌, List, [], ◌∷◌, Run, ok, fatal_error, undefined, out_of_fuel, ◌>>=◌,
  unknown_constant, length, take, drop, ltb, leb, ◌==◌, if◌then◌else◌, ◌&&◌, le_value,
}
use saffire.Bytecode.{
  Bytes, Bytecode, bytecode, Constants, no_constants, constant, Constant, string, regex, numerical,
  code,
}

abbrev pub Reader : Type 0 → Type 0
Reader A = Bytes → Run (A × Bytes)

-- `memcpy(data, buf + *bufptr, size); *bufptr += size`. `bufptr` is an `int`: what follows is the code
-- as long as the position is below 2 ^ 31.
unfoldable pub read_buffer : ℕ → Reader Bytes
read_buffer size buf =
    if ltb size (2 ^ 31) && leb size (length buf)
    then ok (take size buf, drop size buf)
    else undefined

unfoldable pub read_int : Reader ℕ
read_int buf = do (bs, rest) ← read_buffer 4 buf; ok (le_value bs, rest)

-- `_new_name` measures the name by `strlen`.
unfoldable pub new_name : Bytes → Bytes
new_name [] = []
new_name (c ∷ s) = if c == 0 then [] else c ∷ new_name s

unfoldable pub read_identifiers : ℕ → Reader (List Bytes)
read_identifiers zero buf = ok ([], buf)
read_identifiers (suc n) buf = do
  (j, buf₁) ← read_int buf
  (s, buf₂) ← read_buffer j buf₁
  (names, buf₃) ← read_identifiers n buf₂
  ok (new_name s ∷ names, buf₃)

-- One pass of the loop over the constants, behind the type and the length. `unmarshal` is the
-- recursive call, which reads from `bincode + pos` and tells nothing of where it stopped.
unfoldable pub read_constant : (Bytes → Run Bytecode) → ℕ → ℕ → Reader Constant
read_constant unmarshal type len buf =
    if type == 0
    then (do (s, rest) ← read_buffer len buf; ok (string s, rest))
    else if type == 3
    then (do (s, rest) ← read_buffer len buf; ok (regex s, rest))
    else if type == 1
    then if len == 8
      then (do (l, rest) ← read_buffer len buf; ok (numerical (le_value l), rest))
      else undefined
    else if type == 2
    then (do child ← unmarshal buf; ok (code child, drop len buf))
    else fatal_error unknown_constant

unfoldable pub read_constants : (Bytes → Run Bytecode) → ℕ → Reader Constants
read_constants unmarshal zero buf = ok (no_constants, buf)
read_constants unmarshal (suc n) buf = do
  (type, buf₁) ← read_buffer 1 buf
  (len, buf₂) ← read_int buf₁
  (c, buf₃) ← read_constant unmarshal (le_value type) len buf₂
  (cs, buf₄) ← read_constants unmarshal n buf₃
  ok (constant c cs, buf₄)

unfoldable pub bytecode_unmarshal : ℕ → Bytes → Run Bytecode
bytecode_unmarshal zero buf = out_of_fuel
bytecode_unmarshal (suc fuel) buf = do
  (stack_size, buf₁) ← read_int buf
  (code_len, buf₂) ← read_int buf₁
  (code_bytes, buf₃) ← read_buffer code_len buf₂
  (vlen, buf₄) ← read_int buf₃
  (identifiers, buf₅) ← read_identifiers vlen buf₄
  (clen, buf₆) ← read_int buf₅
  (constants, buf₇) ← read_constants (bytecode_unmarshal fuel) clen buf₆
  (lino_offset, buf₈) ← read_int buf₇
  (lino_length, buf₉) ← read_int buf₈
  (lino, _) ← read_buffer lino_length buf₉
  ok (bytecode stack_size code_bytes identifiers constants lino_offset lino)
