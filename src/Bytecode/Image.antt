-- ===== src/Bytecode/Image.antt =====
-- The binary form of a bytecode, and `bytecode_marshal`
-- (src/components/compiler/bytecode/marshal.c).
use saffire.Prelude.{
  ℕ, ◌+◌, ◌^◌, ◌<◌, ◌≤◌, ◌≡◌, refl, List, [], ◌∷◌, ◌++◌, length, take, le_bytes, append_assoc,
  append-nil, arith, length-append, take_all, length-take_le,
}
use saffire.Bytecode.{
  Bytes, Bytecode, bytecode, Constants, no_constants, constant, Constant, string, regex, numerical,
  code, count_constants, constant_type,
}
use saffire.Bytecode.Marshal.{
  Buffer, write_buffer, write_int, write_identifiers, write_text, bytecode_marshal,
  marshal_constants, marshal_constant,
}

abbrev pub text_image : Bytes → Bytes
text_image s = le_bytes 4 (length s) ++ s

abbrev pub names_image : List Bytes → Bytes
names_image [] = []
names_image (s ∷ rest) = text_image s ++ names_image rest

unfoldable mutual
  pub image : Bytecode → Bytes
  image (bytecode stack_size code_bytes identifiers constants lino_offset lino) =
      le_bytes 4 stack_size
      ++ (text_image code_bytes
          ++ (le_bytes 4 (length identifiers)
              ++ (names_image identifiers
                  ++ (le_bytes 4 (count_constants constants)
                      ++ (constants_image constants
                          ++ (le_bytes 4 lino_offset ++ text_image lino))))))

  pub constants_image : Constants → Bytes
  constants_image no_constants = []
  constants_image (constant c rest) =
      (constant_type c ∷ []) ++ (constant_image c ++ constants_image rest)

  pub constant_image : Constant → Bytes
  constant_image (string s) = text_image s
  constant_image (regex s) = text_image s
  constant_image (numerical l) = le_bytes 4 8 ++ le_bytes 8 l
  constant_image (code body) = text_image (image body)

-- A buffer whose next write goes behind its last byte.
unfoldable pub at_end : Bytes → Buffer
at_end bs = record { bytes = bs; off = length bs }

at_end_off : (bs : Bytes) → (at_end bs).off ≡ length bs
unfolding at_end
at_end_off bs = refl

pub at_end_bytes : (bs : Bytes) → (at_end bs).bytes ≡ bs
unfolding at_end
at_end_bytes bs = refl

write_buffer-at_end : (xs ys : Bytes) → write_buffer ys (at_end xs) ≡ at_end (xs ++ ys)
unfolding write_buffer at_end
write_buffer-at_end xs ys = rw (take_all xs, length-append xs ys)

-- The first write cuts off what stood behind the offset.
write_buffer_first :
    (b : Buffer) (ys : Bytes)
    → b.off ≤ length b.bytes
    → write_buffer ys b ≡ at_end (take b.off b.bytes ++ ys)
unfolding write_buffer at_end
write_buffer_first b ys h =
    rw (length-append (take b.off b.bytes) ys, length-take_le b.off b.bytes h)

write_int-at_end : (xs : Bytes) (n : ℕ) → write_int n (at_end xs) ≡ at_end (xs ++ le_bytes 4 n)
unfolding write_int
write_int-at_end xs n = write_buffer-at_end xs (le_bytes 4 n)

write_int_first :
    (b : Buffer) (n : ℕ)
    → b.off ≤ length b.bytes
    → write_int n b ≡ at_end (take b.off b.bytes ++ le_bytes 4 n)
unfolding write_int
write_int_first b n h = write_buffer_first b (le_bytes 4 n) h

ruleset writes = (write_buffer-at_end, write_int-at_end, append_assoc)

write_text-at_end : (s xs : Bytes) → write_text s (at_end xs) ≡ at_end (xs ++ text_image s)
unfolding write_text
write_text-at_end s xs = simp writes

write_identifiers-at_end :
    (names : List Bytes) (xs : Bytes)
    → write_identifiers names (at_end xs) ≡ at_end (xs ++ names_image names)
unfolding write_identifiers
write_identifiers-at_end [] xs = rw append-nil
write_identifiers-at_end (s ∷ rest) xs = simp (writes, write_identifiers-at_end rest)

mutual
  unfolding bytecode_marshal image

  marshal_at_end :
      (bc : Bytecode) (b : Buffer)
      → b.off ≤ length b.bytes
      → bytecode_marshal bc b ≡ at_end (take b.off b.bytes ++ image bc)
  marshal_at_end (bytecode stack_size code_bytes identifiers constants lino_offset lino) b h =
      simp (
        write_int_first b stack_size h,
        writes,
        write_identifiers-at_end,
        constants_at_end constants [],
      )

  constants_at_end :
      (cs : Constants) (child xs : Bytes)
      → marshal_constants cs child (at_end xs) ≡ at_end (xs ++ constants_image cs)
  constants_at_end no_constants child xs = rw append-nil
  constants_at_end (constant c cs) child xs =
      simp (constant_at_end c child, constants_at_end cs, writes)

  constant_at_end :
      (c : Constant) (child xs : Bytes)
      → (marshal_constant c child (at_end xs)).1 ≡ at_end (xs ++ constant_image c)
  constant_at_end (string s) child xs = write_text-at_end s xs
  constant_at_end (regex s) child xs = write_text-at_end s xs
  constant_at_end (numerical l) child xs = simp writes
  constant_at_end (code body) child xs = simp (
    marshal_at_end body (record { bytes = child; off = 0 }) (omega arith),
    at_end_off,
    at_end_bytes,
    take_all,
    writes,
  )

pub bytecode_marshal-at_end :
    (bc : Bytecode) (b : Buffer)
    → b.off ≤ length b.bytes
    → bytecode_marshal bc b ≡ at_end (take b.off b.bytes ++ image bc)
bytecode_marshal-at_end bc b h = marshal_at_end bc b h

-- Where the offset behind the binary form of a bytecode is below 2 ^ 31, so that no offset or size
-- overflows its `int`: whatever the buffer held behind the offset, marshalling leaves what stood
-- before it and the binary form, nothing more, with the offset at the end.
pub marshal-image :
    (bc : Bytecode) (b : Buffer)
    → b.off ≤ length b.bytes
    → b.off + length (image bc) < 2 ^ 31
    → bytecode_marshal bc b ≡ at_end (take b.off b.bytes ++ image bc)
marshal-image bc b h small = bytecode_marshal-at_end bc b h
