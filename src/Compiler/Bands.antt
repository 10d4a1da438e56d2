-- ===== src/Compiler/Bands.antt =====
-- The labels of clauses and catches in src/components/compiler/ast_to_asm.c, which have two numbers.
use saffire.Prelude.{
  ℕ, ◌+◌, ◌≤◌, ◌≡◌, refl, ap, sym, ◌∙◌, Bool, true, [], ◌∷◌, ◌++◌, append_assoc, append-nil, Text,
  arith, ◌==◌, ltb, leb, ◌&&◌, ◌||◌, not, if◌then◌else◌,
}
use saffire.Compiler.Names
use saffire.Compiler.Names.{label, decimal, decimal3}
use saffire.Compiler.Numbers.{
  is_digit, is_plain, starts_plain, are_digits, number_of, suffix_of, number_of-label,
  number_of-decimal, are_digits-decimal3,
}
use saffire.Compiler.Hits.{is_prefix, has_number, one_if, Reads}
use saffire.Compiler.Branches.{case_label, catch_label}

-- Labels of a number with a marked suffix, the number in which is in a range; and those without.
unfoldable pub in_band : (Text → Bool) → ℕ → ℕ → ℕ → Text → Bool
in_band mark n a b t =
    number_of t == n
    && (mark (suffix_of t) && (leb a (number_of (suffix_of t)) && ltb (number_of (suffix_of t)) b))

unfoldable pub off_band : (Text → Bool) → ℕ → Text → Bool
off_band mark n t = number_of t == n && not (mark (suffix_of t))

bands_join :
    (x y : Bool) (k a b c : ℕ)
    → a ≤ b
    → b ≤ c
    → one_if (x && (y && (leb a k && ltb k b))) + one_if (x && (y && (leb b k && ltb k c)))
      ≡ one_if (x && (y && (leb a k && ltb k c)))
bands_join x y k a b c h l = ground arith

pub in_band-join :
    (mark : Text → Bool) (n a b c : ℕ) (t : Text)
    → a ≤ b
    → b ≤ c
    → one_if (in_band mark n a b t) + one_if (in_band mark n b c t) ≡ one_if (in_band mark n a c t)
unfolding in_band
in_band-join mark n a b c t =
    bands_join (number_of t == n) (mark (suffix_of t)) (number_of (suffix_of t)) a b c

bands_total : (x y z : Bool) → one_if (x && not y) + one_if (x && (y && z)) ≤ one_if x
bands_total x y z = ground arith

pub band-total :
    (mark : Text → Bool) (n a b : ℕ) (t : Text)
    → one_if (off_band mark n t) + one_if (in_band mark n a b t) ≤ has_number n t
unfolding in_band off_band has_number
band-total mark n a b t = bands_total (number_of t == n) (mark (suffix_of t)) _

pub off-Reads :
    (mark : Text → Bool) (p : Text) (n : ℕ)
    → is_plain p ≡ true
    → Reads (λ s. starts_plain s && not (mark s)) (label p n) suffix_of (off_band mark n)
unfolding off_band
off-Reads mark p n h = record {
  reads =
      λ s k. let (a, b) = number_of-label p n s h (ground arith) in (b, rw a (rw b (ground arith)));
}

abbrev pub is_clause : Text → Bool
is_clause = is_prefix Names.case_suffix

abbrev pub is_catch : Text → Bool
is_catch s = is_prefix Names.match_suffix s || is_prefix Names.nomatch_suffix s

case_label-label :
    (n i : ℕ) (s : Text)
    → case_label n i s ≡ label Names.switch_text n (Names.case_suffix ++ (decimal i ++ s))
unfolding case_label label
case_label-label n i s =
    ap (λ r. Names.switch_text ++ r) (append_assoc (decimal3 n) Names.case_suffix (decimal i ++ s))

in_band_one :
    (mark : Text → Bool) (n i : ℕ) (t u : Text)
    → number_of t ≡ n
    → suffix_of t ≡ u
    → mark u ≡ true
    → number_of u ≡ i
    → in_band mark n i (i + 1) t ≡ true
unfolding in_band
in_band_one mark n i t u a b m c = rw a (rw b (rw m (rw c (ground arith))))

pub case-Reads :
    (n i : ℕ)
    → Reads starts_plain
        (case_label n i)
        (λ t. suffix_of (suffix_of t))
        (in_band is_clause n i (i + 1))
case-Reads n i = record {
  reads = λ s k.
      let suffix = Names.case_suffix ++ (decimal i ++ s) in
      let e = case_label-label n i s in
      let (a, b) = number_of-label Names.switch_text n suffix refl refl in
      let (c, d) = number_of-decimal Names.case_suffix i s refl k in
      let number = ap number_of e ∙ a in
      let behind = ap suffix_of e ∙ b in
      (
        ap suffix_of behind ∙ d,
        in_band_one is_clause n i (case_label n i s) suffix number behind refl c,
      );
}

-- The part of a text before its first digit.
pub before_digits : Text → Text
before_digits [] = []
before_digits (c ∷ t) = let rest = before_digits t in if is_digit c then [] else c ∷ rest

before_digits-append :
    (s d : Text) → is_plain s ≡ true → are_digits d ≡ true → before_digits (s ++ d) ≡ s
unfolding before_digits
before_digits-append [] [] h k = refl
before_digits-append [] (c ∷ d) h k = ground arith
before_digits-append (c ∷ s) d h k = ground (arith, before_digits-append s d)

is_prefix-append : (p s d : Text) → is_prefix p s ≡ true → is_prefix p (s ++ d) ≡ true
is_prefix-append [] s d h = refl
is_prefix-append (c ∷ p) [] d h = cc
is_prefix-append (c ∷ p) (x ∷ s) d h = ground (arith, is_prefix-append p s d)

abbrev pub is_catch_suffix : Text → Bool
is_catch_suffix s = is_plain s && (starts_plain s && is_catch s)

catch_label-label : (n i : ℕ) (s : Text) → catch_label n s i ≡ label Names.try_text n (label s i [])
unfolding catch_label label
catch_label-label n i s =
    ap (λ r. Names.try_text ++ r) (append_assoc (decimal3 n) s (decimal3 i))
    ∙ ap (λ r. Names.try_text ++ (decimal3 n ++ (s ++ r))) (sym (append-nil (decimal3 i)))

is_catch-label : (s : Text) (i : ℕ) → is_catch s ≡ true → is_catch (label s i []) ≡ true
unfolding label
is_catch-label s i h = ground (
  arith,
  is_prefix-append Names.match_suffix s (decimal3 i ++ []),
  is_prefix-append Names.nomatch_suffix s (decimal3 i ++ []),
)

starts-label :
    (s : Text) (i : ℕ)
    → is_catch s ≡ true
    → starts_plain s ≡ true
    → starts_plain (label s i []) ≡ true
unfolding label
starts-label [] i h k = ground arith
starts-label (c ∷ s) i h k = k

before-label : (s : Text) (i : ℕ) → is_plain s ≡ true → before_digits (label s i []) ≡ s
unfolding label
before-label s i h =
    ap (λ r. before_digits (s ++ r)) (append-nil (decimal3 i))
    ∙ before_digits-append s (decimal3 i) h (are_digits-decimal3 i)

pub catch-Reads :
    (n i : ℕ)
    → Reads is_catch_suffix
        (λ s. catch_label n s i)
        (λ t. before_digits (suffix_of t))
        (in_band is_catch n i (i + 1))
catch-Reads n i = record {
  reads = λ s k.
      let suffix = label s i [] in
      let plain : is_plain s ≡ true = ground arith in
      let catch : is_catch s ≡ true = ground arith in
      let e = catch_label-label n i s in
      let (a, b) =
        number_of-label Names.try_text n suffix refl (starts-label s i catch (ground arith)) in
      let (c, d) = number_of-label s i [] plain refl in
      let number = ap number_of e ∙ a in
      let behind = ap suffix_of e ∙ b in
      (
        ap before_digits behind ∙ before-label s i plain,
        in_band_one is_catch n i (catch_label n s i) suffix number behind (is_catch-label s i catch)
            c,
      );
}
