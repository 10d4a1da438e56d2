-- ===== src/Compiler/Opens.antt =====
-- The labels that the steps of src/components/compiler/ast_to_asm.c use and place.
pub mod Sequence
pub use saffire.Compiler.Opens.Sequence.{Effect, Step, Resolved, Opens, Effect-trans, ◌▹◌}
use saffire.Prelude.{
  ℕ, ◌+◌, ◌<◌, ◌≤◌, ◌≡◌, refl, sym, subst, false, true, ap, ◌∙◌, List, [], ◌∷◌, ◌++◌, Text, arith,
  append-nil, inl, inr, append_assoc, Ends, Ends-bind, Ends-imp,
}
use saffire.Compiler.Hits.{
  hits, hits-append, hit-split, hit-apart, is_free, is_user, within, within-join,
}
use saffire.Asm.{Line, code_line, label_line}
use saffire.Compiler.State.{State, BlockState, Walk, ◌⨾◌, skip, emit}
use saffire.Compiler.Uses.{
  uses, places, uses-append, places-append, uses_of, places_of, block_labels, Whole, codes,
  codes-append, frames_of, frame_names,
}

pub resolve :
    (k u v p b : ℕ) → 0 < k + (u + b) → (0 < u → 0 < v + p) → (0 < p → 0 < k) → 0 < k + (v + b)
resolve k u v p b h f g = grind arith

-- Labels that are placed are no longer open, and free ones need not be told of.
pub weaken :
    {us ps : List Text} {w : Walk} (vs qs : List Text)
    → Opens us ps w
    → ((t : Text) → 0 < hits t us → 0 < hits t vs + hits t ps)
    → ((t : Text) → 0 < hits t qs → 0 < hits t ps)
    → ((t : Text) → is_free t ≡ false → hits t ps ≤ hits t qs)
    → Opens vs qs w
weaken {us} {ps} {w} vs qs m f g k = record {
  run = λ s.
      Ends-imp (Resolved us ps s) (Resolved vs qs s) (w s)
        (λ s₁ r. record {
          new = r.new;
          lines = r.lines;
          closed = λ t n h.
              resolve (places t r.new) (hits t us) (hits t vs) (hits t ps) _ (r.closed t n h) (f t)
                (r.placed t);
          held = λ t n h.
              resolve (places t r.new) (hits t us) (hits t vs) (hits t ps) _ (r.held t n h) (f t)
                (r.placed t);
          placed = λ t h. r.placed t (g t h);
          grows = r.grows;
          once = λ t h. omega (arith, k t h, r.once t h);
          linked = r.linked;
          kept = r.kept;
          frames = r.frames;
        })
        (m.run s);
}

-- A label of the program may be missing.
pub user-Opens : {w : Walk} (x : Text) → is_user x ≡ true → Opens (x ∷ []) [] w → Opens [] [] w
user-Opens {w} x u m = record {
  run = λ s.
      Ends-imp (Resolved (x ∷ []) [] s) (Resolved [] [] s) (w s)
        (λ s₁ r. record {
          new = r.new;
          lines = r.lines;
          closed = λ t n h. omega (arith, r.closed t n h, hit-apart is_user t x n u);
          held = λ t n h. omega (arith, r.held t n h, hit-apart is_user t x n u);
          placed = r.placed;
          grows = r.grows;
          once = r.once;
          linked = r.linked;
          kept = r.kept;
          frames = r.frames;
        })
        (m.run s);
}

-- A frame that is named is there.
pub found :
    {us ps : List Text} {s s' : State} (name : Text)
    → Effect us ps (name ∷ []) s s'
    → 0 < hits name (frame_names s'.output)
    → Resolved us ps s s'
found {us} {ps} {s} {s'} name r there = record {
  new = r.new;
  lines = r.lines;
  closed = r.closed;
  held = r.held;
  placed = r.placed;
  grows = r.grows;
  once = r.once;
  linked = λ t h. elim (hit-split t name) [
    | inl e ↦ omega (arith, e, r.linked t h)
    | inr (e, one) ↦
        subst (λ u. 0 < hits u [] + hits u (frame_names s'.output)) e (omega (arith, there))
  ];
  kept = r.kept;
  frames = r.frames;
}

-- The parts of the state that labels depend on.
abbrev pub Same : State → State → Type 0
Same s s' =
    (s'.lines ≡ s.lines)
    × (s'.loop_cnt ≡ s.loop_cnt)
    × (s'.blocks ≡ s.blocks)
    × (s'.output ≡ s.output)

same_names :
    {xs ys : List (Text × List Line)} (t : Text)
    → ys ≡ xs
    → hits t (frame_names xs) ≤ hits t (frame_names ys)
same_names {xs} t e =
    subst (λ (zs : List (Text × List Line)). hits t (frame_names xs) ≤ hits t (frame_names zs))
      (sym e) (omega arith)

pub same-Resolved : (s s' : State) → Same s s' → Resolved [] [] s s'
unfolding uses places codes
same-Resolved s s' (e, c, b, o) = record {
  new = [];
  lines = e ∙ sym (append-nil s.lines);
  closed = λ t n h. absurd (omega (arith, h));
  held = λ t n h. omega (arith, subst (λ (x : List BlockState). 0 < hits t (block_labels x)) b h);
  placed = λ t h. absurd (omega (arith, h));
  grows = omega (arith, c);
  once = λ t f. omega arith;
  linked = λ t h. absurd (omega (arith, h));
  kept = λ t. same_names t o;
  frames = λ w. subst Whole (sym o) w;
}

pub skip-Opens : Opens [] [] skip
unfolding skip
skip-Opens = record { run = λ s. same-Resolved s s (refl, refl, refl, refl) }

pub line-Resolved :
    (l : Line) (s s' : State)
    → s'.lines ≡ s.lines ++ l ∷ []
    → s'.loop_cnt ≡ s.loop_cnt
    → s'.output ≡ s.output
    → ((t : Text) → 0 < hits t (block_labels s'.blocks) → 0 < hits t (block_labels s.blocks))
    → Effect (uses_of l) (places_of l) (frames_of l) s s'
unfolding uses places codes
line-Resolved (label_line x) s s' e c o b = record {
  new = label_line x ∷ [];
  lines = e;
  closed = λ t n h. absurd (omega (arith, h));
  held = λ t n h. omega (arith, b t h);
  placed = λ t h. h;
  grows = omega (arith, c);
  once = λ t f. omega arith;
  linked = λ t h. absurd (omega (arith, h));
  kept = λ t. same_names t o;
  frames = λ w. subst Whole (sym o) w;
}
line-Resolved (code_line l k os) s s' e c o b = record {
  new = code_line l k os ∷ [];
  lines = e;
  closed = λ t n h. omega (arith, h);
  held = λ t n h. omega (arith, b t h);
  placed = λ t h. absurd (omega (arith, h));
  grows = omega (arith, c);
  once = λ t f. omega arith;
  linked = λ t h. omega (arith, h);
  kept = λ t. same_names t o;
  frames = λ w. subst Whole (sym o) w;
}

pub emit-Opens : (l : Line) → Step (uses_of l) (places_of l) (frames_of l) (emit l)
unfolding emit
emit-Opens l = record {
  run = λ s. line-Resolved l s (record s { lines = s.lines ++ l ∷ [] }) refl refl refl (λ t h. h);
}
