-- ===== src/Compiler/Hits.antt =====
-- How often labels of src/components/compiler/ast_to_asm.c are among others, by their numbers.
use saffire.Prelude.{
  ℕ, ◌+◌, ◌<◌, ◌≤◌, ◌≡◌, refl, ap, sym, subst, ◌∙◌, ◌⊎◌, inl, inr, Bool, true, false, Bool-cases,
  List, [], ◌∷◌, ◌++◌, Text, arith, text_eq, text_eq_refl, eq_of_text_eq, ◌==◌, ltb, leb, ◌&&◌,
  ◌||◌, if◌then◌else◌,
}
use saffire.Compiler.Names.{label, userlabel_text, switch_text, default_suffix}
use saffire.Compiler.Numbers.{is_plain, starts_plain, number_of, suffix_of, number_of-label}

unfoldable pub hit : Text → Text → ℕ
hit t x = if text_eq x t then 1 else 0

-- How often a label is among some texts.
abbrev pub hits : Text → List Text → ℕ
hits t [] = 0
hits t (x ∷ xs) = hit t x + hits t xs

pub hits-append : (t : Text) (xs ys : List Text) → hits t (xs ++ ys) ≡ hits t xs + hits t ys
hits-append t [] ys = omega arith
hits-append t (x ∷ xs) ys = omega (arith, hits-append t xs ys)

abbrev pub is_prefix : Text → Text → Bool
is_prefix [] t = true
is_prefix (c ∷ p) [] = false
is_prefix (c ∷ p) (d ∷ t) = c == d && is_prefix p t

-- The labels that a program declares, and those of default clauses.
unfoldable pub is_user : Text → Bool
is_user t = is_prefix userlabel_text t

unfoldable pub is_free : Text → Bool
is_free t =
    is_prefix userlabel_text t || (is_prefix switch_text t && text_eq (suffix_of t) default_suffix)

-- Whether the number of a label is one number, or above one and up to another.
unfoldable pub has_number : ℕ → Text → ℕ
has_number n t = if number_of t == n then 1 else 0

unfoldable pub within : ℕ → ℕ → Text → ℕ
within a b t = if ltb a (number_of t) && leb (number_of t) b then 1 else 0

pub within-join :
    (a b c : ℕ) (t : Text) → a ≤ b → b ≤ c → within a b t + within b c t ≡ within a c t
unfolding within
within-join a b c t h k = ground arith

pub within-first :
    (a c : ℕ) (t : Text) → a + 1 ≤ c → has_number (a + 1) t + within (a + 1) c t ≡ within a c t
unfolding within has_number
within-first a c t h = ground arith

pub within_one : (a b : ℕ) (t : Text) → within a b t ≤ 1
unfolding within
within_one a b t = ground arith

abbrev pub distinct : List Text → Bool
distinct [] = true
distinct (x ∷ xs) = hits x xs == 0 && distinct xs

pub hit-split : (t x : Text) → (hit t x ≡ 0) ⊎ ((x ≡ t) × (hit t x ≡ 1))
unfolding hit
hit-split t x = elim (Bool-cases (text_eq x t)) [
  | inl h ↦ inr (eq_of_text_eq x t h, rw h refl)
  | inr h ↦ inl (rw h refl)
]

pub hit-apart : (Q : Text → Bool) (t x : Text) → Q t ≡ false → Q x ≡ true → hit t x ≡ 0
hit-apart Q t x f g = elim (hit-split t x) [
  | inl e ↦ e
  | inr (e, one) ↦ absurd (clash (sym f ∙ ap Q (sym e) ∙ g))
]
  where
    clash : false ≡ true → ⊥
    clash h = cc

pub free-hit : (t x : Text) → is_free t ≡ false → is_free x ≡ true → hit t x ≡ 0
free-hit = hit-apart is_free

pub hit_refl : (x : Text) → hit x x ≡ 1
unfolding hit
hit_refl x = rw (text_eq_refl x) refl

moved_hits : (x t : Text) (xs : List Text) → x ≡ t → hits x xs ≡ 0 → hits t xs ≡ 0
moved_hits x t xs e h = subst (λ u. hits u xs ≡ 0) e h

moved_hit : (s t : Text) → t ≡ s → hit t s ≡ 1
moved_hit s t e = subst (λ u. hit u s ≡ 1) (sym e) (hit_refl s)

pub hits-distinct : (t : Text) (xs : List Text) → distinct xs ≡ true → hits t xs ≤ 1
hits-distinct t [] h = omega arith
hits-distinct t (x ∷ xs) h = elim (hit-split t x) [
  | inl e ↦ ground (arith, e, hits-distinct t xs)
  | inr (e, f) ↦
      let apart : hits x xs ≡ 0 = ground arith in omega (arith, f, moved_hits x t xs e apart)
]

abbrev pub all_of : (Text → Bool) → List Text → Bool
all_of Q [] = true
all_of Q (s ∷ ss) = Q s && all_of Q ss

-- Labels that are made of a suffix each.
abbrev pub family : (Text → Text) → List Text → List Text
family f [] = []
family f (s ∷ ss) = f s ∷ family f ss

-- A family whose suffixes can be read back.
pub record Reads (Q : Text → Bool) (f key : Text → Text) (P : Text → Bool) : Type 0 where
  pub reads : (s : Text) → Q s ≡ true → (key (f s) ≡ s) × (P (f s) ≡ true)

key-hits :
    {Q P : Text → Bool} {f key : Text → Text} (r : Reads Q f key P) (ss : List Text) (t : Text)
    → all_of Q ss ≡ true
    → hits t (family f ss) ≤ hits (key t) ss
key-hits r [] t h = omega arith
key-hits {Q} {P} {f} {key} r (s ∷ ss) t h = elim (hit-split t (f s)) [
  | inl e ↦ omega (arith, e, key-hits r ss t (ground arith))
  | inr (e, one) ↦
      let read = ap key (sym e) ∙ (r.reads s (ground arith)).0 in
      omega (arith, one, key-hits r ss t (ground arith), moved_hit s (key t) read)
]

family-holds :
    {Q P : Text → Bool} {f key : Text → Text} (r : Reads Q f key P) (ss : List Text) (t : Text)
    → all_of Q ss ≡ true
    → 0 < hits t (family f ss)
    → P t ≡ true
family-holds r [] t h l = absurd (omega arith)
family-holds {Q} {P} {f} {key} r (s ∷ ss) t h l = elim (hit-split t (f s)) [
  | inl e ↦ family-holds r ss t (ground arith) (omega (arith, e))
  | inr (e, one) ↦ ap P (sym e) ∙ (r.reads s (ground arith)).1
]

abbrev pub one_if : Bool → ℕ
one_if b = if b then 1 else 0

-- Labels of one family with different suffixes.
pub family_lem :
    {Q P : Text → Bool} {f key : Text → Text} (r : Reads Q f key P) (ss : List Text) (t : Text)
    → all_of Q ss ≡ true
    → distinct ss ≡ true
    → hits t (family f ss) ≤ one_if (P t)
family_lem {Q} {P} {f} {key} r ss t h d = elim (Bool-cases (P t)) [
  | inl e ↦ rw e (omega (arith, key-hits r ss t h, hits-distinct (key t) ss d))
  | inr e ↦ rw e (ground (arith, e, family-holds r ss t h))
]

label-Reads :
    (p : Text) (n : ℕ)
    → is_plain p ≡ true
    → Reads starts_plain (label p n) suffix_of (λ t. number_of t == n)
label-Reads p n h = record {
  reads = λ s k. let (a, b) = number_of-label p n s h k in (b, ground (arith, a));
}

-- The labels of one part have its number.
pub labels_lem :
    (p : Text) (n : ℕ) (ss : List Text) (t : Text)
    → is_plain p ≡ true
    → all_of starts_plain ss ≡ true
    → distinct ss ≡ true
    → hits t (family (label p n) ss) ≤ has_number n t
unfolding has_number
labels_lem p n ss t h k d = family_lem (label-Reads p n h) ss t k d
