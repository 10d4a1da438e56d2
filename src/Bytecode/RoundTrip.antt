-- ===== src/Bytecode/RoundTrip.antt =====
-- `bytecode_unmarshal` on what `bytecode_marshal` writes
-- (src/components/compiler/bytecode/marshal.c).
use saffire.Prelude.{
  ℕ, zero, suc, ◌+◌, ◌^◌, ◌≤◌, ◌<◌, max, ◌≡◌, ◌≢◌, refl, subst, List, [], ◌∷◌, ◌++◌, Run, ok, All,
  length, le_bytes, length-le_bytes, le_value-le_bytes, le_value-singleton, append_assoc, arith,
  length-append, take-append_length, drop-append_length, lt→ltb, le→leb,
}
use saffire.Bytecode.{
  Bytes, Bytecode, bytecode, Constants, no_constants, constant, Constant, string, regex, numerical,
  code, count_constants, constant_type,
}
use saffire.Bytecode.Marshal.{bytecode_marshal}
use saffire.Bytecode.Unmarshal.{
  read_buffer, read_int, new_name, read_identifiers, read_constant, read_constants,
  bytecode_unmarshal,
}
use saffire.Bytecode.Image.{
  names_image, image, constants_image, constant_image, at_end_bytes, bytecode_marshal-at_end,
}

-- A length or a count that an `int` holds.
abbrev pub IsSize : ℕ → Type 0
IsSize n = n < 2 ^ 31

abbrev pub IsName : Bytes → Type 0
IsName s = IsSize (length s) × All (λ c. c ≢ 0) s

-- Each number fits the field that holds it, and names hold no NUL.
unfoldable mutual
  pub IsWellFormed : Bytecode → Type 0
  IsWellFormed (bytecode stack_size code_bytes names consts lino_offset lino) =
      (stack_size < 2 ^ 32)
      × IsSize (length code_bytes)
      × IsSize (length names)
      × All IsName names
      × IsSize (count_constants consts)
      × AreWellFormed consts
      × (lino_offset < 2 ^ 32)
      × IsSize (length lino)

  pub AreWellFormed : Constants → Type 0
  AreWellFormed no_constants = Unit
  AreWellFormed (constant c cs) = IsConstant c × AreWellFormed cs

  pub IsConstant : Constant → Type 0
  IsConstant (string s) = IsSize (length s)
  IsConstant (regex s) = IsSize (length s)
  IsConstant (numerical l) = l < 2 ^ 64
  IsConstant (code body) = IsWellFormed body × IsSize (length (image body))

-- How deep code constants are nested.
unfoldable mutual
  pub nesting : Bytecode → ℕ
  nesting (bytecode stack_size code_bytes names consts lino_offset lino) =
      suc (nesting_constants consts)

  pub nesting_constants : Constants → ℕ
  nesting_constants no_constants = 0
  nesting_constants (constant c cs) = max (nesting_constant c) (nesting_constants cs)

  pub nesting_constant : Constant → ℕ
  nesting_constant (code body) = nesting body
  nesting_constant (string s) = 0
  nesting_constant (regex s) = 0
  nesting_constant (numerical l) = 0

read_buffer_append :
    (xs rest : Bytes) → IsSize (length xs) → read_buffer (length xs) (xs ++ rest) ≡ ok (xs, rest)
unfolding read_buffer
read_buffer_append xs rest h = rw (
  lt→ltb (length xs) (2 ^ 31) h,
  length-append xs rest,
  le→leb (length xs) (length xs + length rest) (omega arith),
  take-append_length,
  drop-append_length,
)

read_sized :
    (k : ℕ) (xs rest : Bytes)
    → length xs ≡ k
    → IsSize k
    → read_buffer k (xs ++ rest) ≡ ok (xs, rest)
read_sized k xs rest e h =
    subst (λ n. read_buffer n (xs ++ rest) ≡ ok (xs, rest)) e (read_buffer_append xs rest (rw e h))

read_int_append :
    (n : ℕ) (rest : Bytes) → n < 2 ^ 32 → read_int (le_bytes 4 n ++ rest) ≡ ok (n, rest)
unfolding read_int
read_int_append n rest h =
    rw (
      read_sized 4 (le_bytes 4 n) rest (length-le_bytes 4 n) (omega arith),
      le_value-le_bytes 4 n h,
    )

new_name_lem : (s : Bytes) → All (λ c. c ≢ 0) s → new_name s ≡ s
unfolding new_name
new_name_lem [] h = refl
new_name_lem (c ∷ s) h = ground (arith, new_name_lem s h.1, h.0)

read_identifiers-image :
    (names : List Bytes) (rest : Bytes)
    → All IsName names
    → read_identifiers (length names) (names_image names ++ rest) ≡ ok (names, rest)
unfolding read_identifiers
read_identifiers-image [] rest h = refl
read_identifiers-image (s ∷ names) rest h =
    let short : IsSize (length s) = h.0.0 in
    simp append_assoc (
      rw (
        read_int_append (length s) (s ++ (names_image names ++ rest)) (omega arith),
        read_buffer_append s (names_image names ++ rest) short,
        read_identifiers-image names rest h.1,
        new_name_lem s h.0.1,
      ))

-- The bytes of a constant, with the length that stands in front of them.
constant_body : Constant → Bytes
constant_body (string s) = s
constant_body (regex s) = s
constant_body (numerical l) = le_bytes 8 l
constant_body (code body) = image body

constant_image-body :
    (c : Constant) → constant_image c ≡ le_bytes 4 (length (constant_body c)) ++ constant_body c
unfolding constant_body image
constant_image-body (string s) = refl
constant_image-body (regex s) = refl
constant_image-body (numerical l) = rw (length-le_bytes 8 l)
constant_image-body (code body) = refl

read_constants_step :
    (u : Bytes → Run Bytecode) (c : Constant) (cs : Constants) (n : ℕ) (more rest : Bytes)
    → IsSize (length (constant_body c))
    → read_constant u
        (constant_type c)
        (length (constant_body c))
        (constant_body c ++ (more ++ rest))
      ≡ ok (c, more ++ rest)
    → read_constants u n (more ++ rest) ≡ ok (cs, rest)
    → read_constants u (suc n) (((constant_type c ∷ []) ++ (constant_image c ++ more)) ++ rest)
      ≡ ok (constant c cs, rest)
unfolding read_constants
read_constants_step u c cs n more rest h first later =
    let body = constant_body c in
    let tag : (t : ℕ) (xs : Bytes) → read_buffer 1 (t ∷ xs) ≡ ok (t ∷ [], xs) =
      λ t xs. read_sized 1 (t ∷ []) xs refl (omega arith) in
    simp (constant_image-body c, append_assoc)
      (rw (
        tag (constant_type c) (le_bytes 4 (length body) ++ (body ++ (more ++ rest))),
        read_int_append (length body) (body ++ (more ++ rest)) (omega arith),
        le_value-singleton (constant_type c),
        first,
        later,
      ))

IsConstant-IsSize : (c : Constant) → IsConstant c → IsSize (length (constant_body c))
unfolding constant_body IsWellFormed
IsConstant-IsSize (string s) w = w
IsConstant-IsSize (regex s) w = w
IsConstant-IsSize (numerical l) w = omega (arith, length-le_bytes 8 l)
IsConstant-IsSize (code body) w = w.1

mutual
  unfolding bytecode_unmarshal read_constants read_constant constant_body image IsWellFormed nesting

  unmarshal-image :
      (bc : Bytecode) (fuel : ℕ) (rest : Bytes)
      → nesting bc ≤ fuel
      → IsWellFormed bc
      → bytecode_unmarshal fuel (image bc ++ rest) ≡ ok bc
  unmarshal-image (bytecode stack_size cs names consts offset lino) zero rest d w =
      absurd (omega arith)
  unmarshal-image (bytecode stack_size cs names consts offset lino) (suc fuel) rest d w =
      let (w₀, w₁, w₂, w₃, w₄, w₅, w₆, w₇) = w in
      let r₇ = lino ++ rest in
      let r₆ = le_bytes 4 (length lino) ++ r₇ in
      let r₅ = le_bytes 4 offset ++ r₆ in
      let r₄ = constants_image consts ++ r₅ in
      let r₃ = le_bytes 4 (count_constants consts) ++ r₄ in
      let r₂ = names_image names ++ r₃ in
      let r₁ = le_bytes 4 (length names) ++ r₂ in
      simp append_assoc (
        rw (
          read_int_append stack_size (le_bytes 4 (length cs) ++ (cs ++ r₁)) w₀,
          read_int_append (length cs) (cs ++ r₁) (omega arith),
          read_buffer_append cs r₁ w₁,
          read_int_append (length names) r₂ (omega arith),
          read_identifiers-image names r₃ w₃,
          read_int_append (count_constants consts) r₄ (omega arith),
          read_constants-image consts fuel r₅ (omega arith) w₅,
          read_int_append offset r₆ w₆,
          read_int_append (length lino) r₇ (omega arith),
          read_buffer_append lino rest w₇,
        ))

  read_constants-image :
      (cs : Constants) (fuel : ℕ) (rest : Bytes)
      → nesting_constants cs ≤ fuel
      → AreWellFormed cs
      → read_constants (bytecode_unmarshal fuel) (count_constants cs) (constants_image cs ++ rest)
        ≡ ok (cs, rest)
  read_constants-image no_constants fuel rest d w = refl
  read_constants-image (constant c cs) fuel rest d w =
      read_constants_step (bytecode_unmarshal fuel) c cs (count_constants cs) (constants_image cs)
        rest (IsConstant-IsSize c w.0)
        (read_constant-image c fuel (constants_image cs ++ rest) (omega arith) w.0)
        (read_constants-image cs fuel rest (omega arith) w.1)

  read_constant-image :
      (c : Constant) (fuel : ℕ) (rest : Bytes)
      → nesting_constant c ≤ fuel
      → IsConstant c
      → read_constant
          (bytecode_unmarshal fuel)
          (constant_type c)
          (length (constant_body c))
          (constant_body c ++ rest)
        ≡ ok (c, rest)
  read_constant-image (string s) fuel rest d w = rw (read_buffer_append s rest w)
  read_constant-image (regex s) fuel rest d w = rw (read_buffer_append s rest w)
  read_constant-image (numerical l) fuel rest d w = rw (
    length-le_bytes 8 l,
    read_sized 8 (le_bytes 8 l) rest (length-le_bytes 8 l) (omega arith),
    le_value-le_bytes 8 l w,
  )
  read_constant-image (code body) fuel rest d w =
      rw (unmarshal-image body fuel rest d w.0, drop-append_length)

-- A marshalled bytecode is read back as it was, child code included, whatever bytes follow it in
-- the file, if each length fits an `int`, each number its field, and no name holds a NUL. The fuel
-- bounds the recursion of the reader by the depth to which code constants are nested.
pub unmarshal-marshal :
    (bc : Bytecode) (rest : Bytes)
    → IsWellFormed bc
    → bytecode_unmarshal
        (nesting bc)
        ((bytecode_marshal bc (record { bytes = []; off = 0 })).bytes ++ rest)
      ≡ ok bc
unmarshal-marshal bc rest w =
    rw (bytecode_marshal-at_end bc (record { bytes = []; off = 0 }) (omega arith), at_end_bytes)
      (unmarshal-image bc (nesting bc) rest (omega arith) w)
