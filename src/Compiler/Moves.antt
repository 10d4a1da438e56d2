-- ===== src/Compiler/Moves.antt =====
-- What the steps of src/components/compiler/ast_to_asm.c do to the stacks and the blocks of its state.
use saffire.Prelude.{
  ℕ, ◌+◌, ◌≤◌, ◌≡◌, refl, sym, ap, ◌∙◌, subst, List, [], ◌∷◌, ◌++◌, Text, arith, append-nil,
  append_assoc, Settles, Settles-bind, Settles-imp, length,
}
use saffire.Asm.{Line}
use saffire.Compiler.State.{
  State, Walk, ◌⨾◌, skip, emit, pop_stack, in_context, in_type, in_side, in_call, numbered,
}

-- The stacks are as before, the frame is only appended to, and `up` blocks more are in use than the
-- `down` that are given back.
pub record Restores (down up : ℕ) (s s' : State) : Type 0 where
  pub context : s'.context ≡ s.context
  pub type_ : s'.type_ ≡ s.type_
  pub side : s'.side ≡ s.side
  pub call_state : s'.call_state ≡ s.call_state
  pub block_cnt : s'.block_cnt + down ≡ s.block_cnt + up
  pub depth : length s'.blocks ≡ length s.blocks
  pub room : s.block_cnt ≤ length s.blocks → s'.block_cnt ≤ length s'.blocks
  pub numbers : s.loop_cnt ≤ s'.loop_cnt
  pub appended : (l : List Line) × (s'.lines ≡ s.lines ++ l)

pub record Moves (down up : ℕ) (w : Walk) : Type 0 where
  pub run : (s : State) → down ≤ s.block_cnt → Settles (Restores down up s) (w s)

pub Restores-refl : (s : State) → Restores 0 0 s s
Restores-refl s = record {
  context = refl;
  type_ = refl;
  side = refl;
  call_state = refl;
  block_cnt = refl;
  depth = refl;
  room = λ h. h;
  numbers = omega arith;
  appended = ([], sym (append-nil s.lines));
}

pub Restores-trans :
    {down up more : ℕ} (s s₁ s₂ : State)
    → Restores 0 up s s₁
    → Restores down more s₁ s₂
    → Restores down (up + more) s s₂
Restores-trans s s₁ s₂ p q = record {
  context = q.context ∙ p.context;
  type_ = q.type_ ∙ p.type_;
  side = q.side ∙ p.side;
  call_state = q.call_state ∙ p.call_state;
  block_cnt = omega (arith, p.block_cnt, q.block_cnt);
  depth = q.depth ∙ p.depth;
  room = λ h. q.room (p.room h);
  numbers = omega (arith, p.numbers, q.numbers);
  appended = (
    p.appended.0 ++ q.appended.0,
    q.appended.1
        ∙ ap (λ l. l ++ q.appended.0) p.appended.1
        ∙ append_assoc s.lines p.appended.0 q.appended.0,
  );
}

infixr 5 ◌▸◌
pub ◌▸◌ :
    {down up more : ℕ} {a b : Walk}
    → Moves 0 up a
    → Moves down more b
    → Moves down (up + more) (a ⨾ b)
unfolding ◌⨾◌
◌▸◌ {down} {up} {more} {a} {b} p q = record {
  run = λ s h.
      Settles-bind (Restores 0 up s) (Restores down (up + more) s) (a s) b (p.run s (omega arith))
        (λ s₁ r.
          Settles-imp (Restores down more s₁) (Restores down (up + more) s) (b s₁)
            (λ s₂ r₂. Restores-trans s s₁ s₂ r r₂) (q.run s₁ (omega (arith, h, r.block_cnt))));
}

pub skip-Moves : Moves 0 0 skip
unfolding skip
skip-Moves = record { run = λ s h. Restores-refl s }

pub emit-Moves : (l : Line) → Moves 0 0 (emit l)
unfolding emit
emit-Moves l = record {
  run = λ s h. record {
    context = refl;
    type_ = refl;
    side = refl;
    call_state = refl;
    block_cnt = refl;
    depth = refl;
    room = λ h. h;
    numbers = omega arith;
    appended = (l ∷ [], refl);
  };
}

-- The count of blocks by another term.
pub recount : {down up : ℕ} {w : Walk} (up' : ℕ) → up ≡ up' → Moves down up w → Moves down up' w
recount {down} {up} {w} up' e m = subst (λ (u : ℕ). Moves down u w) e m

pub in_context-Moves : {up : ℕ} {w : Walk} (c : ℕ) → Moves 0 up w → Moves 0 up (in_context c w)
unfolding in_context pop_stack
in_context-Moves {up} {w} c m = record {
  run = λ s h.
      let s₀ = record s { context = c ∷ s.context } in
      Settles-bind (Restores 0 up s₀) (Restores 0 up s) (w s₀) _ (m.run s₀ (omega arith)) (λ s₁ r.
        rw r.context (record {
          context = refl;
          type_ = r.type_;
          side = r.side;
          call_state = r.call_state;
          block_cnt = r.block_cnt;
          depth = r.depth;
          room = r.room;
          numbers = r.numbers;
          appended = r.appended;
        }));
}

pub in_type-Moves : {up : ℕ} {w : Walk} (c : ℕ) → Moves 0 up w → Moves 0 up (in_type c w)
unfolding in_type pop_stack
in_type-Moves {up} {w} c m = record {
  run = λ s h.
      let s₀ = record s { type_ = c ∷ s.type_ } in
      Settles-bind (Restores 0 up s₀) (Restores 0 up s) (w s₀) _ (m.run s₀ (omega arith)) (λ s₁ r.
        rw r.type_ (record {
          context = r.context;
          type_ = refl;
          side = r.side;
          call_state = r.call_state;
          block_cnt = r.block_cnt;
          depth = r.depth;
          room = r.room;
          numbers = r.numbers;
          appended = r.appended;
        }));
}

pub in_side-Moves : {up : ℕ} {w : Walk} (c : ℕ) → Moves 0 up w → Moves 0 up (in_side c w)
unfolding in_side pop_stack
in_side-Moves {up} {w} c m = record {
  run = λ s h.
      let s₀ = record s { side = c ∷ s.side } in
      Settles-bind (Restores 0 up s₀) (Restores 0 up s) (w s₀) _ (m.run s₀ (omega arith)) (λ s₁ r.
        rw r.side (record {
          context = r.context;
          type_ = r.type_;
          side = refl;
          call_state = r.call_state;
          block_cnt = r.block_cnt;
          depth = r.depth;
          room = r.room;
          numbers = r.numbers;
          appended = r.appended;
        }));
}

pub in_call-Moves : {up : ℕ} {w : Walk} (c : ℕ) → Moves 0 up w → Moves 0 up (in_call c w)
unfolding in_call pop_stack
in_call-Moves {up} {w} c m = record {
  run = λ s h.
      let s₀ = record s { call_state = c ∷ s.call_state } in
      Settles-bind (Restores 0 up s₀) (Restores 0 up s) (w s₀) _ (m.run s₀ (omega arith)) (λ s₁ r.
        rw r.call_state (record {
          context = r.context;
          type_ = r.type_;
          side = r.side;
          call_state = refl;
          block_cnt = r.block_cnt;
          depth = r.depth;
          room = r.room;
          numbers = r.numbers;
          appended = r.appended;
        }));
}

pub numbered-Moves :
    {up : ℕ} {k : ℕ → Walk} → ((n : ℕ) → Moves 0 up (k n)) → Moves 0 up (numbered k)
unfolding numbered
numbered-Moves {up} {k} m = record {
  run = λ s h.
      let s₀ = record s { loop_cnt = s.loop_cnt + 1 } in
      Settles-imp (Restores 0 up s₀) (Restores 0 up s) (k (s.loop_cnt + 1) s₀)
        (λ s₁ r. record {
          context = r.context;
          type_ = r.type_;
          side = r.side;
          call_state = r.call_state;
          block_cnt = r.block_cnt;
          depth = r.depth;
          room = r.room;
          numbers = omega (arith, r.numbers);
          appended = r.appended;
        })
        ((m (s.loop_cnt + 1)).run s₀ (omega arith));
}

-- What changes neither the stacks nor the blocks.
pub notes-Restores :
    (s : State) (output : List (Text × List Line)) (attributes multi : ℕ)
    → Restores 0 0 s
        (record s { output = output; attributes = attributes; multi_assignment = multi })
notes-Restores s output attributes multi = record {
  context = refl;
  type_ = refl;
  side = refl;
  call_state = refl;
  block_cnt = refl;
  depth = refl;
  room = λ h. h;
  numbers = omega arith;
  appended = ([], sym (append-nil s.lines));
}
