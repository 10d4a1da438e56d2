-- ===== src/Vm/Deltas.antt =====
-- The deltas of the line table: what the assembler writes and what `getlineno` reads.
use saffire.Prelude.{
  ℕ, zero, suc, ◌+◌, ◌-◌, ◌%◌, ◌<◌, ◌≡◌, ap, ◌∙◌, true, false, inl, inr, Option, some, none, List,
  [], ◌∷◌, ◌++◌, arith, ok, length, get_elem?, get_elem?-append_length, leb, ltb, ltb→lt,
  if◌then◌else◌, Bool-cases,
}
use saffire.Vm.{StackFrame}
use saffire.Vm.LineNumber.{read_delta}
use saffire.Asm.Assemble.{delta_bytes}

-- The number behind a byte above 127 is added.
abbrev pub add_byte : ℕ → Option (ℕ × List ℕ) → Option (ℕ × List ℕ)
add_byte b none = none
add_byte b (some (delta, rest)) = some (b % 128 + delta, rest)

-- The reading that the format asks for: bytes above 127 are continued.
unfoldable pub decode_delta : List ℕ → Option (ℕ × List ℕ)
decode_delta [] = none
decode_delta (b ∷ rest) = if ltb 127 b then add_byte b (decode_delta rest) else some (b, rest)

more_bytes :
    (fuel delta : ℕ)
    → (ltb 127 delta ≡ true)
    → delta_bytes (suc fuel) delta ≡ 255 ∷ delta_bytes fuel (delta - 127)
unfolding delta_bytes
more_bytes fuel delta h = rw h

last_byte : (fuel delta : ℕ) → (ltb 127 delta ≡ false) → delta_bytes (suc fuel) delta ≡ delta ∷ []
unfolding delta_bytes
last_byte fuel delta h = rw h

-- Any delta is read back from its bytes by the reading that the format asks for, with fuel above
-- the delta.
pub decode-delta_bytes :
    (fuel delta : ℕ) (rest : List ℕ)
    → delta < fuel
    → decode_delta (delta_bytes fuel delta ++ rest) ≡ some (delta, rest)
unfolding decode_delta
decode-delta_bytes zero delta rest h = absurd (omega arith)
decode-delta_bytes (suc fuel) delta rest h = elim (Bool-cases (ltb 127 delta)) [
  | inl more ↦
      let long = ltb→lt 127 delta more in
      let sum : 127 + (delta - 127) ≡ delta = omega arith in
      rw (more_bytes fuel delta more) (
        ap (add_byte 255) (decode-delta_bytes fuel (delta - 127) rest (omega arith))
        ∙ ap (λ n. some (n, rest)) sum)
  | inr last ↦ rw (last_byte fuel delta last, last)
]

read_byte :
    (f : StackFrame) (b : ℕ)
    → get_elem? f.codeframe.lino f.lineno_current_lino_offset ≡ some b
    → read_delta f
      ≡ ok (record f { lineno_current_lino_offset = f.lineno_current_lino_offset + 1 }, b % 128)
unfolding read_delta
read_byte f b h = rw (h, read_delta)

first_byte :
    (delta : ℕ) (rest : List ℕ)
    → (b : ℕ) × (bs : List ℕ) × (delta_bytes (suc delta) delta ++ rest ≡ b ∷ bs)
      × (b % 128 ≡ (if leb delta 127 then delta else 127))
first_byte delta rest = elim (Bool-cases (ltb 127 delta)) [
  | inl more ↦
      (255, delta_bytes delta (delta - 127) ++ rest, rw (more_bytes delta delta more), ground arith)
  | inr last ↦ (delta, rest, rw (last_byte delta delta last), ground arith)
]

-- `getlineno` reads one byte of a delta: it finds a delta of up to 127, and 127 in place of a larger
-- one, whose further bytes it takes for the next delta.
pub read_delta-delta_bytes :
    (f : StackFrame) (pre rest : List ℕ) (delta : ℕ)
    → f.codeframe.lino ≡ pre ++ (delta_bytes (suc delta) delta ++ rest)
    → f.lineno_current_lino_offset ≡ length pre
    → read_delta f
      ≡ ok (
        record f { lineno_current_lino_offset = f.lineno_current_lino_offset + 1 },
        if leb delta 127 then delta else 127,
      )
read_delta-delta_bytes f pre rest delta lino off =
    let (b, bs, e, value) = first_byte delta rest in
    let at : get_elem? f.codeframe.lino f.lineno_current_lino_offset ≡ some b =
      ap (λ l. get_elem? l f.lineno_current_lino_offset) (lino ∙ ap (λ l. pre ++ l) e)
      ∙ ap (get_elem? (pre ++ b ∷ bs)) off
      ∙ get_elem?-append_length pre bs b in
    read_byte f b at
    ∙ ap (λ n. ok (record f { lineno_current_lino_offset = f.lineno_current_lino_offset + 1 }, n))
        value
