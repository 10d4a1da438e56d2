-- ===== src/Asm/FirstOutcome.antt =====
-- How the loop over the lines of `assemble_frame` (src/components/compiler/output/asm.c) ends.
use saffire.Prelude.{
  ℕ, ◌≡◌, refl, ap, subst, ◌∙◌, Bool, true, false, ◌||◌, none, some, inl, inr, List, [], ◌∷◌, ◌++◌,
  append-nil, arith, ok, fatal_error, label_already_defined, Text, text_eq, lookup, length,
  Bool-cases, if◌then◌else◌,
}
use saffire.Asm.{Opr, Line, label_line, code_line}
use saffire.Asm.Frame.{Backpatch}
use saffire.Asm.Assemble.{Progress, assemble_line, assemble_lines}
use saffire.Asm.FirstPass.{code_done}

abbrev pub is_listed : Text → List Text → Bool
is_listed s [] = false
is_listed s (t ∷ ts) = text_eq t s || is_listed s ts

-- No line declares a label twice, or one that is declared already.
unfoldable pub distinct_labels : List Text → List Line → Bool
distinct_labels declared [] = true
distinct_labels declared (code_line lineno opcode oprs ∷ lines) = distinct_labels declared lines
distinct_labels declared (label_line s ∷ lines) =
    if is_listed s declared then false else distinct_labels (declared ++ s ∷ []) lines

abbrev pub names : List (Text × ℕ) → List Text
names [] = []
names ((s, off) ∷ m) = s ∷ names m

-- Every use of a label is of one in the table.
unfoldable pub defined_labels : List (Text × ℕ) → List Backpatch → Bool
defined_labels labels [] = true
defined_labels labels (bp ∷ bps) =
    if is_listed bp.label (names labels) then defined_labels labels bps else false

-- The label of the first use that is not of one in the table.
unfoldable pub first_missing : List (Text × ℕ) → List Backpatch → Text
first_missing labels [] = []
first_missing labels (bp ∷ bps) =
    if is_listed bp.label (names labels) then first_missing labels bps else bp.label

pub lookup-absent :
    (s : Text) (m : List (Text × ℕ)) → is_listed s (names m) ≡ false → lookup s m ≡ none
unfolding lookup
lookup-absent s [] h = refl
lookup-absent s ((t, off) ∷ m) h = ground (arith, lookup-absent s m)

pub lookup-present :
    (s : Text) (m : List (Text × ℕ))
    → is_listed s (names m) ≡ true
    → (off : ℕ) × (lookup s m ≡ some off)
unfolding lookup
lookup-present s [] h = cc
lookup-present s ((t, off) ∷ m) h = elim (Bool-cases (text_eq t s)) [
  | inl hit ↦ (off, rw hit)
  | inr miss ↦ let (v, e) = lookup-present s m (rw miss at h) in (v, rw miss e)
]

names-append :
    (m : List (Text × ℕ)) (s : Text) (off : ℕ) → names (m ++ (s, off) ∷ []) ≡ names m ++ s ∷ []
names-append [] s off = refl
names-append ((t, o) ∷ m) s off = ap (λ l. t ∷ l) (names-append m s off)

label_step :
    (s : Text) (p : Progress)
    → is_listed s (names p.frame.label_offsets) ≡ false
    → (q : Progress) × (assemble_line (label_line s) p ≡ ok q)
      × (names q.frame.label_offsets ≡ names p.frame.label_offsets ++ s ∷ [])
unfolding assemble_line
label_step s p free = (
  record p {
    frame = record (p.frame) {
      label_offsets = p.frame.label_offsets ++ (s, length p.frame.code) ∷ [];
    };
  },
  rw (lookup-absent s p.frame.label_offsets free, assemble_line),
  names-append p.frame.label_offsets s _,
)

label_twice :
    (s : Text) (p : Progress)
    → is_listed s (names p.frame.label_offsets) ≡ true
    → assemble_line (label_line s) p ≡ fatal_error label_already_defined
unfolding assemble_line
label_twice s p taken =
    let (off, e) = lookup-present s p.frame.label_offsets taken in rw (e, assemble_line)

code_step :
    (lineno opcode : ℕ) (oprs : List Opr) (p : Progress)
    → (q : Progress) × (assemble_line (code_line lineno opcode oprs) p ≡ ok q)
unfolding assemble_line
code_step lineno opcode oprs p = (_, refl)

-- The first pass, by the labels that are declared before it.
abbrev pub FirstPassEnds : Bool → List Line → Progress → Type 0
FirstPassEnds true lines p = (q : Progress) × (assemble_lines lines p ≡ ok q)
FirstPassEnds false lines p = assemble_lines lines p ≡ fatal_error label_already_defined

step_lines :
    (b : Bool) (line : Line) (lines : List Line) (p q : Progress)
    → assemble_line line p ≡ ok q
    → FirstPassEnds b lines q
    → FirstPassEnds b (line ∷ lines) p
unfolding assemble_lines
step_lines true line lines p q e (r, rest) = (r, rw e rest)
step_lines false line lines p q e rest = rw e rest

pub first_pass_ends :
    (lines : List Line) (p : Progress)
    → FirstPassEnds (distinct_labels (names p.frame.label_offsets) lines) lines p
unfolding assemble_lines distinct_labels
first_pass_ends [] p = (p, refl)
first_pass_ends (code_line lineno opcode oprs ∷ lines) p =
    let (q, e) = code_step lineno opcode oprs p in
    let same : q.frame.label_offsets ≡ p.frame.label_offsets =
      (code_done lineno opcode oprs p q e).labels ∙ append-nil p.frame.label_offsets in
    subst
      (λ m.
        FirstPassEnds (distinct_labels (names m) lines) (code_line lineno opcode oprs ∷ lines) p)
      same (step_lines _ _ lines p q e (first_pass_ends lines q))
first_pass_ends (label_line s ∷ lines) p =
    elim (Bool-cases (is_listed s (names p.frame.label_offsets))) [
      | inl taken ↦ rw taken (rw (label_twice s p taken))
      | inr free ↦
          let (q, e, n) = label_step s p free in
          rw free (
            subst (λ ns. FirstPassEnds (distinct_labels ns lines) (label_line s ∷ lines) p) n
              (step_lines _ _ lines p q e (first_pass_ends lines q)))
    ]
