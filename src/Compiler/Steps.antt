-- ===== src/Compiler/Steps.antt =====
-- The labels of the steps of src/components/compiler/ast_to_asm.c that push and pop, take a number or
-- a block.
use saffire.Prelude.{
  ℕ, zero, suc, ◌+◌, ◌<◌, ◌≤◌, ◌≡◌, refl, sym, subst, false, ok, ◌>>=◌, ap, ◌∙◌, Option, none, some,
  List, [], ◌∷◌, ◌++◌, Text, arith, Ends, Ends-bind, Ends-imp, Ends-any, get_elem?, set, append-nil,
}
use saffire.Compiler.Hits.{hit, hits, is_free, has_number, within, within-first}
use saffire.Asm.{code_line, op_label}
use saffire.Compiler.State.{
  State, BlockState, Walk, pop_stack, in_context, in_type, in_side, in_call, numbered, enter_loop,
  leave_loop, block_label, loop_label, written, continue_loop, emit,
}
use saffire.Compiler.Uses.{
  uses, places, block_labels, label_of, block_labels-set, block_labels-get, Whole, codes,
  frame_names,
}
use saffire.Compiler.Opens.{Effect, Step, Resolved, Opens, Same, same-Resolved, resolve}

-- A walk from a state and to a state with other notes than these.
pub around :
    {us ps cs : List Text} (s s₀ s₁ s' : State)
    → Same s s₀
    → Same s₁ s'
    → Effect us ps cs s₀ s₁
    → Effect us ps cs s s'
around {us} {ps} {cs} s s₀ s₁ s' (before, count, blocks, output) (after, count', blocks', output')
      r =
    record {
      new = r.new;
      lines = after ∙ r.lines ∙ ap (λ l. l ++ r.new) before;
      closed = λ t n h.
          subst (λ b. 0 < places t r.new + (hits t us + hits t (block_labels b))) blocks
            (r.closed t n h);
      held = λ t n h.
          subst (λ b. 0 < places t r.new + (hits t us + hits t (block_labels b))) blocks
            (r.held t n (subst (λ b. 0 < hits t (block_labels b)) blocks' h));
      placed = r.placed;
      grows = omega (arith, count, count', r.grows);
      once = λ t f.
          subst (λ n. places t r.new ≤ hits t ps + within n s'.loop_cnt t) count
            (subst (λ n. places t r.new ≤ hits t ps + within s₀.loop_cnt n t) (sym count')
              (r.once t f));
      linked =
          λ t h. subst (λ o. 0 < hits t cs + hits t (frame_names o)) (sym output') (r.linked t h);
      kept = λ t.
          subst (λ o. hits t (frame_names o) ≤ hits t (frame_names s'.output)) output
            (subst (λ o. hits t (frame_names s₀.output) ≤ hits t (frame_names o)) (sym output')
              (r.kept t));
      frames = λ w. subst Whole (sym output') (r.frames (subst Whole (sym output) w));
    }

-- A walk between a push and a pop.
bracket-Opens :
    {us ps cs : List Text} {w : Walk} (push : State → State) (top : State → List ℕ)
    (pop : State → List ℕ → State)
    → ((s : State) → Same s (push s))
    → ((s : State) (r : List ℕ) → Same s (pop s r))
    → Step us ps cs w
    → Step us ps cs (λ s. w (push s) >>= (λ s₁. pop_stack (top s₁) >>= (λ r. ok (pop s₁ r))))
bracket-Opens {us} {ps} {cs} {w} push top pop f g m = record {
  run = λ s.
      Ends-bind (Effect us ps cs (push s)) (Effect us ps cs s) (w (push s)) _ (m.run (push s))
        (λ s₁ r.
          Ends-bind (λ _. Unit {0}) (Effect us ps cs s) (pop_stack (top s₁)) _ (Ends-any _)
            (λ rest _. around s (push s) s₁ (pop s₁ rest) (f s) (g s₁ rest) r));
}

pub in_context-Opens :
    {us ps cs : List Text} {w : Walk} (c : ℕ) → Step us ps cs w → Step us ps cs (in_context c w)
unfolding in_context
in_context-Opens c =
    bracket-Opens (λ s. record s { context = c ∷ s.context }) (λ s. s.context)
      (λ s r. record s { context = r }) (λ s. (refl, refl, refl, refl))
      (λ s r. (refl, refl, refl, refl))

pub in_type-Opens :
    {us ps cs : List Text} {w : Walk} (c : ℕ) → Step us ps cs w → Step us ps cs (in_type c w)
unfolding in_type
in_type-Opens c =
    bracket-Opens (λ s. record s { type_ = c ∷ s.type_ }) (λ s. s.type_)
      (λ s r. record s { type_ = r }) (λ s. (refl, refl, refl, refl))
      (λ s r. (refl, refl, refl, refl))

pub in_side-Opens :
    {us ps cs : List Text} {w : Walk} (c : ℕ) → Step us ps cs w → Step us ps cs (in_side c w)
unfolding in_side
in_side-Opens c =
    bracket-Opens (λ s. record s { side = c ∷ s.side }) (λ s. s.side) (λ s r. record s { side = r })
      (λ s. (refl, refl, refl, refl)) (λ s r. (refl, refl, refl, refl))

pub in_call-Opens :
    {us ps cs : List Text} {w : Walk} (c : ℕ) → Step us ps cs w → Step us ps cs (in_call c w)
unfolding in_call
in_call-Opens c =
    bracket-Opens (λ s. record s { call_state = c ∷ s.call_state }) (λ s. s.call_state)
      (λ s r. record s { call_state = r }) (λ s. (refl, refl, refl, refl))
      (λ s r. (refl, refl, refl, refl))

-- A numbered part places its labels, which have its number, and all that it uses.
pub numbered-Opens :
    {us ps : ℕ → List Text} {k : ℕ → Walk}
    → ((n : ℕ) → Opens (us n) (ps n) (k n))
    → ((n : ℕ) (t : Text) → 0 < hits t (us n) → 0 < hits t (ps n))
    → ((n : ℕ) (t : Text) → is_free t ≡ false → hits t (ps n) ≤ has_number n t)
    → Opens [] [] (numbered k)
unfolding numbered
numbered-Opens {us} {ps} {k} m f g = record {
  run = λ s.
      let n = s.loop_cnt + 1 in
      Ends-imp (Resolved (us n) (ps n) (record s { loop_cnt = n })) (Resolved [] [] s)
        (k n (record s { loop_cnt = n }))
        (λ s₁ r. record {
          new = r.new;
          lines = r.lines;
          closed = λ t p h.
              resolve (places t r.new) (hits t (us n)) 0 (hits t (ps n)) _ (r.closed t p h)
                (λ u. omega (arith, f n t u)) (r.placed t);
          held = λ t p h.
              resolve (places t r.new) (hits t (us n)) 0 (hits t (ps n)) _ (r.held t p h)
                (λ u. omega (arith, f n t u)) (r.placed t);
          placed = λ t h. absurd (omega (arith, h));
          grows = omega (arith, r.grows);
          once = λ t h.
              omega (arith, r.once t h, g n t h, within-first s.loop_cnt s₁.loop_cnt t r.grows);
          linked = r.linked;
          kept = r.kept;
          frames = r.frames;
        })
        ((m n).run (record s { loop_cnt = n }));
}

entered-held :
    (l : Option Text) (s : State) (b : BlockState) (t : Text)
    → get_elem? s.blocks s.block_cnt ≡ some b
    → 0
      < hits t (
          block_labels
            (set s.blocks s.block_cnt (record { label = block_label l b.label; labels = [] })))
    → 0 < hits t (label_of l) + hits t (block_labels s.blocks)
unfolding block_label
entered-held none s b t e h = omega (
  arith,
  h,
  block_labels-get t s.blocks s.block_cnt b e,
  block_labels-set t s.blocks s.block_cnt (record { label = b.label; labels = [] }),
)
entered-held (some x) s b t e h =
    omega
      (arith, h, block_labels-set t s.blocks s.block_cnt (record { label = some x; labels = [] }))

entered :
    (l : Option Text) (s : State) (b : BlockState)
    → get_elem? s.blocks s.block_cnt ≡ some b
    → Resolved (label_of l) [] s (record s {
      blocks = set s.blocks s.block_cnt (record { label = block_label l b.label; labels = [] });
      block_cnt = s.block_cnt + 1;
    })
unfolding uses places codes
entered l s b e = record {
  new = [];
  lines = sym (append-nil s.lines);
  closed = λ t n h. absurd (omega (arith, h));
  held = λ t n h. omega (arith, entered-held l s b t e h);
  placed = λ t h. absurd (omega (arith, h));
  grows = omega arith;
  once = λ t f. omega arith;
  linked = λ t h. absurd (omega (arith, h));
  kept = λ t. omega arith;
  frames = λ w. w;
}

enter_runs :
    (l : Option Text) (s : State) (o : Option BlockState)
    → get_elem? s.blocks s.block_cnt ≡ o
    → Ends (Resolved (label_of l) [] s) (enter_loop l s)
unfolding enter_loop
enter_runs l s none e = rw (e, enter_loop) tt
enter_runs l s (some b) e = rw (e, enter_loop) (entered l s b e)

pub enter_loop-Opens : (l : Option Text) → Opens (label_of l) [] (enter_loop l)
enter_loop-Opens l = record { run = λ s. enter_runs l s (get_elem? s.blocks s.block_cnt) refl }

pub leave_loop-Opens : Opens [] [] leave_loop
unfolding leave_loop
leave_loop-Opens = record { run = λ s. same-Resolved s _ (refl, refl, refl, refl) }

written-held :
    (blocks : List BlockState) (o : Option Text)
    → ((t : Text) → hits t (label_of o) ≤ hits t (block_labels blocks))
    → Ends (λ x. (t : Text) → hit t x ≤ hits t (block_labels blocks)) (written o)
unfolding written
written-held blocks none h = tt
written-held blocks (some x) h = λ t. omega (arith, h t)

-- The label that a `continue` statement finds is held by a block.
found-held :
    (blocks : List BlockState) (i : ℕ) (o : Option BlockState)
    → get_elem? blocks i ≡ o
    → Ends (λ x. (t : Text) → hit t x ≤ hits t (block_labels blocks)) (loop_label blocks (suc i))
unfolding loop_label
found-held blocks i none e = rw (e, loop_label) tt
found-held blocks i (some b) e =
    rw (e, loop_label) (written-held blocks b.label (λ t. block_labels-get t blocks i b e))

loop_label-held :
    (blocks : List BlockState) (n : ℕ)
    → Ends (λ x. (t : Text) → hit t x ≤ hits t (block_labels blocks)) (loop_label blocks n)
unfolding loop_label
loop_label-held blocks zero = tt
loop_label-held blocks (suc i) = found-held blocks i (get_elem? blocks i) refl

continued :
    (o l : ℕ) (x : Text) (s : State)
    → ((t : Text) → hit t x ≤ hits t (block_labels s.blocks))
    → Resolved [] [] s (record s { lines = s.lines ++ code_line l o (op_label x ∷ []) ∷ [] })
unfolding uses places codes
continued o l x s h = record {
  new = code_line l o (op_label x ∷ []) ∷ [];
  lines = refl;
  closed = λ t n u. omega (arith, u, h t);
  held = λ t n u. omega (arith, u);
  placed = λ t u. absurd (omega (arith, u));
  grows = omega arith;
  once = λ t f. omega arith;
  linked = λ t h. absurd (omega (arith, h));
  kept = λ t. omega arith;
  frames = λ w. w;
}

pub continue_loop-Opens : (opcode l : ℕ) → Opens [] [] (continue_loop opcode l)
unfolding continue_loop emit
continue_loop-Opens opcode l = record {
  run = λ s.
      Ends-bind (λ x. (t : Text) → hit t x ≤ hits t (block_labels s.blocks)) (Resolved [] [] s)
        (loop_label s.blocks s.block_cnt) _ (loop_label-held s.blocks s.block_cnt)
        (λ x h. continued opcode l x s h);
}
