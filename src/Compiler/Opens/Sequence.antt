-- ===== src/Compiler/Opens/Sequence.antt =====
-- What the steps of src/components/compiler/ast_to_asm.c do to labels and frames, one after the other.
use saffire.Prelude.{
  ℕ, ◌+◌, ◌<◌, ◌≤◌, ◌≡◌, false, ap, ◌∙◌, List, [], ◌++◌, Text, arith, append_assoc, Ends, Ends-bind,
  Ends-imp,
}
use saffire.Compiler.Hits.{hits, hits-append, is_free, is_user, within, within-join}
use saffire.Asm.{Line}
use saffire.Compiler.State.{State, Walk, ◌⨾◌}
use saffire.Compiler.Uses.{
  uses, places, uses-append, places-append, block_labels, Whole, codes, codes-append, frame_names,
}

-- What is appended uses no label that it does not place, but for those of `us`, those that the
-- blocks hold, and those that the program declares; it places all of `ps`. The blocks hold no other
-- labels than before, than it places, and than `us`. Each other label that it places has a number of
-- its own, from those that were taken, and stands there once; the free ones aside. It names
-- no frame that is not among the frames behind, but for `cs`; those stay as they are, and whole.
pub record Effect (us ps cs : List Text) (s s' : State) : Type 0 where
  pub new : List Line
  pub lines : s'.lines ≡ s.lines ++ new
  pub closed :
      (t : Text)
      → is_user t ≡ false
      → 0 < uses t new
      → 0 < places t new + (hits t us + hits t (block_labels s.blocks))
  pub held :
      (t : Text)
      → is_user t ≡ false
      → 0 < hits t (block_labels s'.blocks)
      → 0 < places t new + (hits t us + hits t (block_labels s.blocks))
  pub placed : (t : Text) → 0 < hits t ps → 0 < places t new
  pub grows : s.loop_cnt ≤ s'.loop_cnt
  pub once :
      (t : Text) → is_free t ≡ false → places t new ≤ hits t ps + within s.loop_cnt s'.loop_cnt t
  pub linked : (t : Text) → 0 < codes t new → 0 < hits t cs + hits t (frame_names s'.output)
  pub kept : (t : Text) → hits t (frame_names s.output) ≤ hits t (frame_names s'.output)
  pub frames : Whole s.output → Whole s'.output

pub record Step (us ps cs : List Text) (w : Walk) : Type 0 where
  pub run : (s : State) → Ends (Effect us ps cs s) (w s)

-- What needs no frame but those that it writes.
abbrev pub Resolved : List Text → List Text → State → State → Type 0
Resolved us ps s s' = Effect us ps [] s s'

abbrev pub Opens : List Text → List Text → Walk → Type 0
Opens us ps w = Step us ps [] w

either :
    (u u₁ u₂ p p₁ p₂ : ℕ)
    → 0 < u
    → u ≡ u₁ + u₂
    → p ≡ p₁ + p₂
    → (0 < u₁ → 0 < p₁)
    → (0 < u₂ → 0 < p₂)
    → 0 < p
either u u₁ u₂ p p₁ p₂ h eu ep f g = grind arith

-- What the second part may still need is there, needed by the first, or held before.
later :
    (p p₁ p₂ v v₁ v₂ b₀ b₁ : ℕ)
    → p ≡ p₁ + p₂
    → v ≡ v₁ + v₂
    → 0 < p₂ + (v₂ + b₁)
    → (0 < b₁ → 0 < p₁ + (v₁ + b₀))
    → 0 < p + (v + b₀)
later p p₁ p₂ v v₁ v₂ b₀ b₁ ep ev h f = grind arith

joined :
    (u u₁ u₂ p p₁ p₂ v v₁ v₂ b₀ b₁ : ℕ)
    → 0 < u
    → u ≡ u₁ + u₂
    → p ≡ p₁ + p₂
    → v ≡ v₁ + v₂
    → (0 < u₁ → 0 < p₁ + (v₁ + b₀))
    → (0 < u₂ → 0 < p₂ + (v₂ + b₁))
    → (0 < b₁ → 0 < p₁ + (v₁ + b₀))
    → 0 < p + (v + b₀)
joined u u₁ u₂ p p₁ p₂ v v₁ v₂ b₀ b₁ h eu ep ev f g k = grind arith

name_joined :
    (k k₁ k₂ c c₁ c₂ o₁ o₂ : ℕ)
    → 0 < k
    → k ≡ k₁ + k₂
    → c ≡ c₁ + c₂
    → (0 < k₁ → 0 < c₁ + o₁)
    → (0 < k₂ → 0 < c₂ + o₂)
    → o₁ ≤ o₂
    → 0 < c + o₂
name_joined k k₁ k₂ c c₁ c₂ o₁ o₂ h ek ec f g l = grind arith

pub Effect-trans :
    {us ps cs vs qs ds : List Text} (s s₁ s₂ : State)
    → Effect us ps cs s s₁
    → Effect vs qs ds s₁ s₂
    → Effect (us ++ vs) (ps ++ qs) (cs ++ ds) s s₂
Effect-trans {us} {ps} {cs} {vs} {qs} {ds} s s₁ s₂ p q = record {
  new = p.new ++ q.new;
  lines = q.lines ∙ ap (λ l. l ++ q.new) p.lines ∙ append_assoc s.lines p.new q.new;
  closed = λ t n h.
      joined _ _ _ _ _ _ _ _ _ _ _ h (uses-append t p.new q.new) (places-append t p.new q.new)
        (hits-append t us vs) (p.closed t n) (q.closed t n) (p.held t n);
  held = λ t n h.
      later _ _ _ _ _ _ _ _ (places-append t p.new q.new) (hits-append t us vs) (q.held t n h)
        (p.held t n);
  placed = λ t h.
      either _ _ _ _ _ _ h (hits-append t ps qs) (places-append t p.new q.new) (p.placed t)
        (q.placed t);
  grows = omega (arith, p.grows, q.grows);
  once = λ t f. omega (
    arith,
    places-append t p.new q.new,
    hits-append t ps qs,
    p.once t f,
    q.once t f,
    within-join s.loop_cnt s₁.loop_cnt s₂.loop_cnt t p.grows q.grows,
  );
  linked = λ t h.
      name_joined _ _ _ _ _ _ _ _ h (codes-append t p.new q.new) (hits-append t cs ds) (p.linked t)
        (q.linked t) (q.kept t);
  kept = λ t. omega (arith, p.kept t, q.kept t);
  frames = λ w. q.frames (p.frames w);
}

infixr 5 ◌▹◌
pub ◌▹◌ :
    {us ps cs vs qs ds : List Text} {a b : Walk}
    → Step us ps cs a
    → Step vs qs ds b
    → Step (us ++ vs) (ps ++ qs) (cs ++ ds) (a ⨾ b)
unfolding ◌⨾◌
◌▹◌ {us} {ps} {cs} {vs} {qs} {ds} {a} {b} p q = record {
  run = λ s.
      Ends-bind (Effect us ps cs s) (Effect (us ++ vs) (ps ++ qs) (cs ++ ds) s) (a s) b (p.run s)
        (λ s₁ r.
          Ends-imp (Effect vs qs ds s₁) (Effect (us ++ vs) (ps ++ qs) (cs ++ ds) s) (b s₁)
            (λ s₂ r₂. Effect-trans s s₁ s₂ r r₂) (q.run s₁));
}
