-- ===== src/Asm/Tables.antt =====
-- Looking entries up in the tables of src/components/compiler/output/asm.c, and adding them.
use saffire.Prelude.{
  ℕ, zero, suc, ◌+◌, ◌<◌, ◌≡◌, refl, sym, ap, ◌∙◌, ◌⊎◌, inl, inr, Bool, true, false, none, some,
  List, [], ◌∷◌, ◌++◌, append-nil, append_assoc, arith, length, length-append, get_elem?,
  get_elem?-append_left, get_elem?-append_length, Bool-cases, Option-cases,
}
use saffire.Asm.Frame.{find_from, find_or_append}

-- The position of the first entry that a test accepts, 0 where there is none.
unfoldable pub index_of {ℓ} : {A : Type ℓ} → (A → Bool) → List A → ℕ
index_of test table = elim (find_from test 0 table) [ some pos ↦ pos | none ↦ 0 ]

module _ {ℓ} {A : Type ℓ} (test : A → Bool) where
  find_from-append_left :
      (pos : ℕ) (t ys : List A) (k : ℕ)
      → find_from test pos t ≡ some k
      → find_from test pos (t ++ ys) ≡ some k
  unfolding find_from
  find_from-append_left pos [] ys k h = cc
  find_from-append_left pos (x ∷ t) ys k h = ground (arith, find_from-append_left (pos + 1) t ys k)

  find_from-append_right :
      (pos : ℕ) (t : List A) (a : A) (ys : List A)
      → find_from test pos t ≡ none
      → test a ≡ true
      → find_from test pos (t ++ a ∷ ys) ≡ some (pos + length t)
  unfolding find_from
  find_from-append_right pos [] a ys h e = ground arith
  find_from-append_right pos (x ∷ t) a ys h e =
      ground (arith, find_from-append_right (pos + 1) t a ys)

  pub find_or_append_hit :
      (a : A) (t : List A) (k : ℕ) → find_from test 0 t ≡ some k → find_or_append test a t ≡ (t, k)
  unfolding find_or_append
  find_or_append_hit a t k h = rw (h, find_or_append)

  pub find_or_append_miss :
      (a : A) (t : List A)
      → find_from test 0 t ≡ none
      → find_or_append test a t ≡ (t ++ a ∷ [], length t)
  unfolding find_or_append
  find_or_append_miss a t h =
      rw (h, find_or_append) (ap (λ n. (t ++ a ∷ [], n)) (omega (arith, length-append t (a ∷ []))))

  -- The position handed out for an entry is the one found for it in every later table.
  pub find_or_append-index :
      (a : A) (t ys : List A)
      → test a ≡ true
      → index_of test ((find_or_append test a t).0 ++ ys) ≡ (find_or_append test a t).1
  unfolding index_of
  find_or_append-index a t ys e = elim (Option-cases (find_from test 0 t)) [
    | inl absent ↦
        rw (find_or_append_miss a t absent, append_assoc)
          (rw (find_from-append_right 0 t a ys absent e, index_of) (omega arith))
    | inr (k, found) ↦
        rw (find_or_append_hit a t k found) (rw (find_from-append_left 0 t ys k found, index_of))
  ]

  -- The table only grows at its end.
  pub find_or_append_grows :
      (a : A) (t : List A) → (ys : List A) × ((find_or_append test a t).0 ≡ t ++ ys)
  find_or_append_grows a t = elim (Option-cases (find_from test 0 t)) [
    | inl absent ↦ (a ∷ [], rw (find_or_append_miss a t absent))
    | inr (k, found) ↦ ([], rw (find_or_append_hit a t k found) (sym (append-nil t)))
  ]

  find_from_sound :
      (pos : ℕ) (t : List A) (k : ℕ)
      → find_from test pos t ≡ some k
      → (i : ℕ) × (b : A) × (k ≡ pos + i) × (get_elem? t i ≡ some b) × (test b ≡ true)
  unfolding find_from
  find_from_sound pos [] k h = cc
  find_from_sound pos (x ∷ t) k h = elim (Bool-cases (test x)) [
    | inl hit ↦ (0, x, ground arith, refl, hit)
    | inr miss ↦
        let (i, b, e, g, y) = find_from_sound (pos + 1) t k (ground arith) in
        (suc i, b, omega arith, g, y)
  ]

  find_from-none :
      (pos : ℕ) (t : List A) (i : ℕ) (b : A)
      → find_from test pos t ≡ none
      → get_elem? t i ≡ some b
      → test b ≡ false
  unfolding find_from
  find_from-none pos [] i b h g = cc
  find_from-none pos (x ∷ t) zero b h g = ground arith
  find_from-none pos (x ∷ t) (suc i) b h g = ground (arith, find_from-none (pos + 1) t i b)

-- No entry stands at two positions.
abbrev pub IsDistinct {ℓ} : {A : Type ℓ} → List A → Type ℓ
IsDistinct {A} t = (i j : ℕ) (a : A) → get_elem? t i ≡ some a → get_elem? t j ≡ some a → i ≡ j

-- The test accepts one entry.
abbrev pub Singles {ℓ} : {A : Type ℓ} → (A → Bool) → A → Type ℓ
Singles {A} test a = (test a ≡ true) × ((b : A) → test b ≡ true → b ≡ a)

-- What interning `a` in `t` gives: the table `r.0`, with `a` at position `r.1`.
pub record Interned {ℓ} {A : Type ℓ} (t : List A) (a : A) (r : List A × ℕ) : Type ℓ where
  pub found : get_elem? r.0 r.1 ≡ some a
  pub kept : (i : ℕ) → i < length t → get_elem? r.0 i ≡ get_elem? t i
  pub distinct : IsDistinct t → IsDistinct r.0

module _ {ℓ} {A : Type ℓ} (a : A) where
  get_elem?-append_cases :
      (t : List A) (i : ℕ) (b : A)
      → get_elem? (t ++ a ∷ []) i ≡ some b
      → (get_elem? t i ≡ some b) ⊎ ((i ≡ length t) × (a ≡ b))
  get_elem?-append_cases [] zero b h = inr (refl, cc)
  get_elem?-append_cases [] (suc i) b h = cc
  get_elem?-append_cases (x ∷ t) zero b h = inl h
  get_elem?-append_cases (x ∷ t) (suc i) b h = elim (get_elem?-append_cases t i b h) [
    | inl old ↦ inl old
    | inr (e, eq) ↦ inr (ap suc e, eq)
  ]

  IsDistinct-append :
      (t : List A)
      → ((i : ℕ) → get_elem? t i ≡ some a → ⊥)
      → IsDistinct t
      → IsDistinct (t ++ a ∷ [])
  IsDistinct-append t fresh d i j b p q = ground (
    arith,
    get_elem?-append_cases t i b p,
    get_elem?-append_cases t j b q,
    d i j b,
    fresh i,
    fresh j,
  )

module _ {ℓ} {A : Type ℓ} (test : A → Bool) (a : A) (single : Singles test a) where
  pub find_or_append-Interned : (t : List A) → Interned t a (find_or_append test a t)
  find_or_append-Interned t = elim (Option-cases (find_from test 0 t)) [
    | inl absent ↦ rw (find_or_append_miss test a t absent) (record {
      found = get_elem?-append_length t [] a;
      kept = λ i h. get_elem?-append_left t (a ∷ []) i h;
      distinct = IsDistinct-append a t (λ i g. cc (find_from-none test 0 t i a absent g, single.0));
    })
    | inr (k, found) ↦
        let (i, b, e, g, y) = find_from_sound test 0 t k found in
        rw (find_or_append_hit test a t k found) (record {
          found = let e' : k ≡ i = omega arith in rw e' (g ∙ ap some (single.1 b y));
          kept = λ i h. refl;
          distinct = λ d. d;
        })
  ]
