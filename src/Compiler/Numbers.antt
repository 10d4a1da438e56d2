-- ===== src/Compiler/Numbers.antt =====
-- The number in a label of src/components/compiler/ast_to_asm.c, read back.
use saffire.Prelude.{
  ℕ, zero, suc, ◌+◌, ◌-◌, ◌*◌, ◌/◌, ◌%◌, ◌<◌, ◌≤◌, ◌≡◌, refl, ◌∙◌, Bool, true, false, [], ◌∷◌, ◌++◌,
  length-append, Text, arith, ltb, leb, ltb→lt, lt→ltb, Bool-cases, inl, inr, ◌&&◌, not,
  if◌then◌else◌, length, replicate,
}
use saffire.Compiler.Names.{digits, decimal, decimal3, label}

abbrev pub is_digit : ℕ → Bool
is_digit c = leb b'0' c && leb c b'9'

-- A text without digits, one of digits, and one that does not start with a digit.
abbrev pub is_plain : Text → Bool
is_plain [] = true
is_plain (c ∷ t) = not (is_digit c) && is_plain t

abbrev pub are_digits : Text → Bool
are_digits [] = true
are_digits (c ∷ t) = is_digit c && are_digits t

abbrev pub starts_plain : Text → Bool
starts_plain [] = true
starts_plain (c ∷ t) = not (is_digit c)

-- The digits at the start of a text, as a number behind the digits read before, and what is behind.
unfoldable pub read_digits : ℕ → Text → ℕ
read_digits n [] = n
read_digits n (c ∷ t) =
    let rest = read_digits (n * 10 + (c - b'0')) t in if is_digit c then rest else n

unfoldable pub skip_digits : Text → Text
skip_digits [] = []
skip_digits (c ∷ t) = let rest = skip_digits t in if is_digit c then rest else c ∷ t

-- The first number in a text, and what is behind it.
unfoldable pub number_of : Text → ℕ
number_of [] = 0
number_of (c ∷ t) = let rest = number_of t in if is_digit c then read_digits 0 (c ∷ t) else rest

unfoldable pub suffix_of : Text → Text
suffix_of [] = []
suffix_of (c ∷ t) = let rest = suffix_of t in if is_digit c then skip_digits t else rest

read_digits-append :
    (s d : Text) (n : ℕ)
    → are_digits d ≡ true
    → starts_plain s ≡ true
    → read_digits n (d ++ s) ≡ read_digits n d
unfolding read_digits
read_digits-append [] [] n h k = refl
read_digits-append (c ∷ s) [] n h k = ground arith
read_digits-append s (c ∷ d) n h k = ground (arith, read_digits-append s d (n * 10 + (c - b'0')))

read_digits-snoc :
    (d : Text) (c n : ℕ)
    → are_digits d ≡ true
    → is_digit c ≡ true
    → read_digits n (d ++ c ∷ []) ≡ read_digits n d * 10 + (c - b'0')
unfolding read_digits
read_digits-snoc [] c n h k = ground arith
read_digits-snoc (x ∷ d) c n h k = ground (arith, read_digits-snoc d c (n * 10 + (x - b'0')))

skip_digits-append :
    (s d : Text) → are_digits d ≡ true → starts_plain s ≡ true → skip_digits (d ++ s) ≡ s
unfolding skip_digits
skip_digits-append [] [] h k = refl
skip_digits-append (c ∷ s) [] h k = ground arith
skip_digits-append s (c ∷ d) h k = ground (arith, skip_digits-append s d)

are_digits-append :
    (d e : Text) → are_digits d ≡ true → are_digits e ≡ true → are_digits (d ++ e) ≡ true
are_digits-append [] e h k = k
are_digits-append (c ∷ d) e h k = ground (arith, are_digits-append d e)

digit_lem : (n : ℕ) → n < 10 → (are_digits ((b'0' + n) ∷ []) ≡ true)
digit_lem n h = ground arith

digits_short : (fuel n : ℕ) → n < 10 → digits (suc fuel) n ≡ (b'0' + n) ∷ []
unfolding digits
digits_short fuel n h = rw (lt→ltb n 10 h) refl

digits_long :
    (fuel n : ℕ) → 10 ≤ n → digits (suc fuel) n ≡ digits fuel (n / 10) ++ (b'0' + n % 10) ∷ []
unfolding digits
digits_long fuel n h = let long : ltb n 10 ≡ false = ground arith in rw long refl

are_digits-digits : (fuel n : ℕ) → are_digits (digits fuel n) ≡ true
unfolding digits
are_digits-digits zero n = refl
are_digits-digits (suc fuel) n = elim (Bool-cases (ltb n 10)) [
  | inl h ↦ rw (digits_short fuel n (ltb→lt n 10 h)) (digit_lem n (ltb→lt n 10 h))
  | inr h ↦ rw (digits_long fuel n (ground arith)) (
      are_digits-append (digits fuel (n / 10)) _ (are_digits-digits fuel (n / 10))
        (digit_lem (n % 10) (omega arith)))
]

read-digits : (fuel n : ℕ) → n < fuel → read_digits 0 (digits fuel n) ≡ n
unfolding read_digits
read-digits zero n h = absurd (omega arith)
read-digits (suc fuel) n h = elim (Bool-cases (ltb n 10)) [
  | inl k ↦ rw (digits_short fuel n (ltb→lt n 10 k)) (ground arith)
  | inr k ↦ rw (digits_long fuel n (ground arith)) (
      let tail : n / 10 < fuel = ground arith in
      read_digits-snoc (digits fuel (n / 10)) (b'0' + n % 10) 0 (are_digits-digits fuel (n / 10))
        (ground arith)
      ∙ omega (arith, read-digits fuel (n / 10) tail))
]

are_digits-replicate : (k : ℕ) → are_digits (replicate k b'0') ≡ true
are_digits-replicate zero = refl
are_digits-replicate (suc k) = are_digits-replicate k

read_zeros : (k : ℕ) (d : Text) → read_digits 0 (replicate k b'0' ++ d) ≡ read_digits 0 d
unfolding read_digits
read_zeros zero d = refl
read_zeros (suc k) d = read_zeros k d

read-decimal3 : (n : ℕ) → read_digits 0 (decimal3 n) ≡ n
unfolding decimal decimal3
read-decimal3 n =
    read_zeros (3 - length (decimal n)) (decimal n) ∙ read-digits (n + 1) n (omega arith)

pub are_digits-decimal3 : (n : ℕ) → are_digits (decimal3 n) ≡ true
unfolding decimal decimal3
are_digits-decimal3 n =
    are_digits-append (replicate (3 - length (decimal n)) b'0') (decimal n)
      (are_digits-replicate (3 - length (decimal n))) (are_digits-digits (n + 1) n)

-- A number behind a text without digits.
number_of-plain : (p t : Text) → is_plain p ≡ true → number_of (p ++ t) ≡ number_of t
unfolding number_of
number_of-plain [] t h = refl
number_of-plain (c ∷ p) t h = ground (arith, number_of-plain p t)

suffix_of-plain : (p t : Text) → is_plain p ≡ true → suffix_of (p ++ t) ≡ suffix_of t
unfolding suffix_of
suffix_of-plain [] t h = refl
suffix_of-plain (c ∷ p) t h = ground (arith, suffix_of-plain p t)

number_at :
    (d s : Text)
    → are_digits d ≡ true
    → 0 < length d
    → starts_plain s ≡ true
    → (number_of (d ++ s) ≡ read_digits 0 d) × (suffix_of (d ++ s) ≡ s)
unfolding number_of suffix_of
number_at [] s h l k = absurd (omega arith)
number_at (c ∷ d) s h l k =
    (ground (arith, read_digits-append s (c ∷ d) 0), ground (arith, skip_digits-append s d))

digits_some : (fuel n : ℕ) → 0 < length (digits (suc fuel) n)
digits_some fuel n = elim (Bool-cases (ltb n 10)) [
  | inl h ↦ rw (digits_short fuel n (ltb→lt n 10 h)) (omega arith)
  | inr h ↦
      rw (digits_long fuel n (ground arith))
        (omega (arith, length-append (digits fuel (n / 10)) ((b'0' + n % 10) ∷ [])))
]

decimal_some : (n : ℕ) → 0 < length (decimal n)
unfolding decimal
decimal_some n = rw (next n) (digits_some n n)
  where
    next : (n : ℕ) → n + 1 ≡ suc n
    next n = omega arith

pub decimal3_some : (n : ℕ) → 0 < length (decimal3 n)
unfolding decimal3
decimal3_some n =
    omega
      (arith, decimal_some n, length-append (replicate (3 - length (decimal n)) b'0') (decimal n))

-- `sprintf` of a number between a text without digits and one that does not start with one.
pub number_of-label :
    (p : Text) (n : ℕ) (s : Text)
    → is_plain p ≡ true
    → starts_plain s ≡ true
    → (number_of (label p n s) ≡ n) × (suffix_of (label p n s) ≡ s)
unfolding label
number_of-label p n s h k =
    let (a, b) = number_at (decimal3 n) s (are_digits-decimal3 n) (decimal3_some n) k in
    (
      number_of-plain p (decimal3 n ++ s) h ∙ a ∙ read-decimal3 n,
      suffix_of-plain p (decimal3 n ++ s) h ∙ b,
    )

pub number_of-decimal :
    (p : Text) (n : ℕ) (s : Text)
    → is_plain p ≡ true
    → starts_plain s ≡ true
    → (number_of (p ++ (decimal n ++ s)) ≡ n) × (suffix_of (p ++ (decimal n ++ s)) ≡ s)
unfolding decimal
number_of-decimal p n s h k =
    let (a, b) = number_at (decimal n) s (are_digits-digits (n + 1) n) (decimal_some n) k in
    (
      number_of-plain p (decimal n ++ s) h ∙ a ∙ read-digits (n + 1) n (omega arith),
      suffix_of-plain p (decimal n ++ s) h ∙ b,
    )
