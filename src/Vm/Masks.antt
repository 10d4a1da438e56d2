-- ===== src/Vm/Masks.antt =====
-- The masks that an opcode is tested by, in the VM and in the assembler.
use saffire.Prelude.{
  ℕ, zero, suc, ◌≤◌, ◌<◌, ◌≡◌, refl, sym, Bool, true, false, ◌&&◌, inl, inr, arith, bit_and, ◌==◌,
  ltb, Bool-cases,
}
use saffire.Asm.Assemble.{operand_size}

-- What the masks of an opcode say, by the number of bytes of its operands. Checked for each byte.
abbrev same : Bool → Bool → Bool
same true b = b
same false true = false
same false false = true

abbrev masks_fit : ℕ → Bool
unfolding operand_size
masks_fit op =
    same (bit_and op 0x80 == 0x80) (ltb 0 (operand_size op))
    && (same (bit_and op 0xC0 == 0xC0) (ltb 2 (operand_size op))
        && same (bit_and op 0xE0 == 0xE0) (ltb 4 (operand_size op)))

all_below : ℕ → Bool
all_below zero = true
all_below (suc n) = masks_fit n && all_below n

every_byte : all_below 256 ≡ true
unfolding all_below masks_fit operand_size
every_byte = refl

below_fits : (n op : ℕ) → all_below n ≡ true → op < n → masks_fit op ≡ true
unfolding all_below
below_fits zero op h k = elim k [ ]
below_fits (suc n) op h k = elim (Bool-cases (op == n)) [
  | inl here ↦ let e : op ≡ n = ground arith in rw e (and_left (masks_fit n) (all_below n) h)
  | inr other ↦ below_fits n op (and_right (masks_fit n) (all_below n) h) (ground arith)
]
  where
    and_left : (a b : Bool) → (a && b) ≡ true → a ≡ true
    and_left true b h = refl
    and_left false b h = h

    and_right : (a b : Bool) → (a && b) ≡ true → b ≡ true
    and_right true b h = h
    and_right false b h = cc

same_eq : (a b : Bool) → same a b ≡ true → a ≡ b
same_eq true b h = sym h
same_eq false true h = cc
same_eq false false h = refl

and_both : (a b : Bool) → (a && b) ≡ true → (a ≡ true) × (b ≡ true)
and_both true b h = (refl, h)
and_both false b h = cc

pub masks_of :
    (op : ℕ)
    → op < 256
    → ((bit_and op 0x80 == 0x80) ≡ ltb 0 (operand_size op))
      × ((bit_and op 0xC0 == 0xC0) ≡ ltb 2 (operand_size op))
      × ((bit_and op 0xE0 == 0xE0) ≡ ltb 4 (operand_size op))
unfolding masks_fit
masks_of op h =
    let (a, rest) = and_both _ _ (below_fits 256 op every_byte h) in
    let (b, c) = and_both _ _ rest in (same_eq _ _ a, same_eq _ _ b, same_eq _ _ c)

pub size_bound : (op : ℕ) → operand_size op ≤ 6
unfolding operand_size
size_bound op = ground arith
