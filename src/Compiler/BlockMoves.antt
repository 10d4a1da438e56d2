-- ===== src/Compiler/BlockMoves.antt =====
-- What the loops of src/components/compiler/ast_to_asm.c do to the blocks of its state.
use saffire.Prelude.{
  ℕ, zero, suc, ◌≡◌, refl, sym, Option, none, some, List, [], ◌∷◌, Text, arith, append-nil, Settles,
  Settles-bind, Settles-imp, length-set, get_elem?, get_elem?_bound,
}
use saffire.Asm.{code_line, op_label}
use saffire.Compiler.State.{
  State, BlockState, Walk, ◌⨾◌, enter_loop, leave_loop, written, loop_label, continue_loop,
}
use saffire.Compiler.Moves.{Restores, Moves, emit-Moves, Restores-trans}

enter_runs :
    (l : Option Text) (s : State) (o : Option BlockState)
    → get_elem? s.blocks s.block_cnt ≡ o
    → Settles (Restores 0 1 s) (enter_loop l s)
unfolding enter_loop
enter_runs l s none e = rw (e, enter_loop) tt
enter_runs l s (some b) e =
    let below = get_elem?_bound s.blocks s.block_cnt e in
    rw (e, enter_loop)
      (record {
        context = refl;
        type_ = refl;
        side = refl;
        call_state = refl;
        block_cnt = omega arith;
        depth = length-set s.blocks s.block_cnt _;
        room = λ h. rw length-set (omega (arith, below));
        numbers = omega arith;
        appended = ([], sym (append-nil s.lines));
      })

pub enter_loop-Moves : (l : Option Text) → Moves 0 1 (enter_loop l)
enter_loop-Moves l = record { run = λ s h. enter_runs l s (get_elem? s.blocks s.block_cnt) refl }

pub leave_loop-Moves : Moves 1 0 leave_loop
unfolding leave_loop
leave_loop-Moves = record {
  run = λ s h. record {
    context = refl;
    type_ = refl;
    side = refl;
    call_state = refl;
    block_cnt = omega (arith, h);
    depth = refl;
    room = λ k. omega (arith, k);
    numbers = omega arith;
    appended = ([], sym (append-nil s.lines));
  };
}

-- A loop gives its block back.
pub loop-Moves :
    {up : ℕ} {w : Walk} (l : Option Text) → Moves 1 up w → Moves 0 up (enter_loop l ⨾ w)
unfolding ◌⨾◌
loop-Moves {up} {w} l m = record {
  run = λ s h.
      Settles-bind (Restores 0 1 s) (Restores 0 up s) (enter_loop l s) w
        ((enter_loop-Moves l).run s h)
        (λ s₁ r.
          Settles-imp (Restores 1 up s₁) (Restores 0 up s) (w s₁)
            (λ s₂ r₂.
              let t = Restores-trans s s₁ s₂ r r₂ in
              record {
                context = t.context;
                type_ = t.type_;
                side = t.side;
                call_state = t.call_state;
                block_cnt = omega (arith, t.block_cnt);
                depth = t.depth;
                room = t.room;
                numbers = t.numbers;
                appended = t.appended;
              })
            (m.run s₁ (omega (arith, r.block_cnt))));
}

written-Settles : (l : Option Text) → Settles (λ _. Unit {0}) (written l)
unfolding written
written-Settles none = tt
written-Settles (some l) = tt

block_label-Settles :
    (blocks : List BlockState) (i : ℕ) (o : Option BlockState)
    → get_elem? blocks i ≡ o
    → Settles (λ _. Unit {0}) (loop_label blocks (suc i))
unfolding loop_label
block_label-Settles blocks i none e = rw (e, loop_label) tt
block_label-Settles blocks i (some b) e = rw (e, loop_label) (written-Settles b.label)

loop_label-Settles :
    (blocks : List BlockState) (i : ℕ) → Settles (λ _. Unit {0}) (loop_label blocks i)
unfolding loop_label
loop_label-Settles blocks zero = tt
loop_label-Settles blocks (suc i) = block_label-Settles blocks i (get_elem? blocks i) refl

pub continue_loop-Moves : (opcode lineno : ℕ) → Moves 0 0 (continue_loop opcode lineno)
unfolding continue_loop
continue_loop-Moves opcode lineno = record {
  run = λ s h.
      Settles-bind (λ _. Unit {0}) (Restores 0 0 s) (loop_label s.blocks s.block_cnt) _
        (loop_label-Settles s.blocks s.block_cnt)
        (λ l _. (emit-Moves (code_line lineno opcode (op_label l ∷ []))).run s h);
}
