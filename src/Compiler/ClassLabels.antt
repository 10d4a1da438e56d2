-- ===== src/Compiler/ClassLabels.antt =====
-- The labels of the cases of src/components/compiler/ast_to_asm.c for classes and attributes, and of
-- the frames.
use saffire.Prelude.{
  ◌<◌, ◌≤◌, sym, subst, ◌++◌, text_eq, ℕ, refl, Bool, [], ◌∷◌, Text, arith, Ends, Ends-bind,
  Ends-imp,
}
use saffire.Asm.{code_line, op_realnum, op_code}
use saffire.Compiler.Names.{main_name}
use saffire.Compiler.State.{State, state_init, Walk, ◌⨾◌, ctx_load}
use saffire.Compiler.Simple.{op}
use saffire.Compiler.Classes.{
  build, walk_class, walk_interface, precaution, fill_frame, ast_to_frame, walk_argument,
  walk_method, count_attribute, walk_attribute,
}
use saffire.Compiler.Hits.{hits, hit_refl, within_one}
use saffire.Compiler.Uses.{
  uses, places, Closed, Whole, Whole-append, codes, frame_names, frame_names-append,
}
use saffire.Compiler.Opens.{
  Effect, Effect-trans, found, Resolved, Opens, ◌▹◌, skip-Opens, emit-Opens, same-Resolved,
}
use saffire.Compiler.Steps.{around, in_context-Opens, numbered-Opens}
use saffire.Compiler.SimpleLabels.{Opens-if}

build-Opens : (o l : ℕ) → Opens [] [] (build o l)
unfolding build
build-Opens o l = record {
  run = λ s.
      Ends-bind (Resolved [] [] s) (Resolved [] [] s) _ _
        ((emit-Opens (code_line l o (op_realnum s.attributes ∷ []))).run s)
        (λ s₁ r. around s s s₁ _ (refl, refl, refl, refl) (refl, refl, refl, refl) r);
}

pub walk_class-Opens :
    {a b c : Walk} (l f : ℕ) (n : Text) (len : ℕ)
    → Opens [] [] a
    → Opens [] [] b
    → Opens [] [] c
    → Opens [] [] (walk_class l f n a len b c)
unfolding walk_class
walk_class-Opens l f n len a b c =
    c
    ▹ emit-Opens _
    ▹ in_context-Opens ctx_load a
    ▹ in_context-Opens ctx_load b
    ▹ emit-Opens _
    ▹ emit-Opens _
    ▹ build-Opens 0x93 l
    ▹ emit-Opens _

pub walk_interface-Opens :
    {a b : Walk} (l f : ℕ) (n : Text) (len : ℕ)
    → Opens [] [] a
    → Opens [] [] b
    → Opens [] [] (walk_interface l f n len a b)
unfolding walk_interface
walk_interface-Opens l f n len a b =
    b
    ▹ emit-Opens _
    ▹ in_context-Opens ctx_load (emit-Opens _)
    ▹ in_context-Opens ctx_load a
    ▹ emit-Opens _
    ▹ emit-Opens _
    ▹ build-Opens 0x94 l
    ▹ emit-Opens _

filled-Opens :
    {w : Walk} (append : Bool) (name : Text)
    → Opens [] [] w
    → Opens [] [] (fill_frame append name w)
unfolding fill_frame precaution
filled-Opens append name m =
    m
    ▹ Opens-if append
        (Opens-if (text_eq name main_name) (emit-Opens _) (emit-Opens _) ▹ emit-Opens _) skip-Opens

-- What is written to an empty frame.
fresh-Closed : (n : ℕ) (s : State) → Resolved [] [] (state_init n) s → Closed s.lines
unfolding state_init
fresh-Closed n s r = record {
  closed = λ t u h.
      subst (λ l. 0 < places t l) (sym r.lines)
        (omega (arith, r.closed t u (subst (λ l. 0 < uses t l) r.lines h)));
  once = λ t f.
      subst (λ l. places t l ≤ 1) (sym r.lines)
        (omega (arith, r.once t f, within_one 0 s.loop_cnt t));
}

-- What writing a frame does: it is closed, names the frames that are written with it, and is there.
abbrev pub Written : Text → State → State → Type 0
Written name s s' = Resolved [] [] s s' × (0 < hits name (frame_names s'.output))

finished :
    (name : Text) (s s₁ : State)
    → Resolved [] [] (state_init s.multi_assignment) s₁
    → Written name s (record s {
      output = s.output ++ (name, s₁.lines) ∷ s₁.output;
      multi_assignment = s₁.multi_assignment;
    })
unfolding Whole state_init
finished name s s₁ r =
    let k = same-Resolved s s (refl, refl, refl, refl) in
    let behind = (name, s₁.lines) ∷ s₁.output in
    (
      record {
        new = k.new;
        lines = k.lines;
        closed = k.closed;
        held = k.held;
        placed = k.placed;
        grows = k.grows;
        once = k.once;
        linked = λ t h. omega (arith, k.linked t h, frame_names-append t s.output behind);
        kept = λ t. omega (arith, frame_names-append t s.output behind);
        frames = λ w. Whole-append s.output behind w (
          fresh-Closed s.multi_assignment s₁ r,
          (λ t h. omega (arith, r.linked t (subst (λ l. 0 < codes t l) r.lines h)), r.frames tt),
        );
      },
      omega (arith, frame_names-append name s.output behind, hit_refl name),
    )

pub frame-Written :
    {w : Walk} (append : Bool) (name : Text)
    → Opens [] [] w
    → (s : State) → Ends (Written name s) (ast_to_frame append name w s)
unfolding ast_to_frame
frame-Written {w} append name m s =
    let s₀ = state_init s.multi_assignment in
    Ends-bind (Resolved [] [] s₀) (Written name s) (fill_frame append name w s₀) _
      ((filled-Opens append name m).run s₀) (λ s₁ r. finished name s s₁ r)

pub ast_to_frame-Opens :
    {w : Walk} (append : Bool) (name : Text)
    → Opens [] [] w
    → Opens [] [] (ast_to_frame append name w)
ast_to_frame-Opens {w} append name m = record {
  run = λ s.
      Ends-imp (Written name s) (Resolved [] [] s) (ast_to_frame append name w s) (λ s₁ p. p.0)
        (frame-Written append name m s);
}

-- The instruction that names a frame, and the frame.
method_frame-Opens :
    {w : Walk} (append : Bool) (name : Text) (l : ℕ)
    → Opens [] [] w
    → Opens [] [] (op 0x81 l (op_code name ∷ []) ⨾ ast_to_frame append name w)
unfolding ◌⨾◌
method_frame-Opens {w} append name l m = record {
  run = λ s.
      Ends-bind (Effect [] [] (name ∷ []) s) (Resolved [] [] s) (op 0x81 l (op_code name ∷ []) s)
        (ast_to_frame append name w) ((emit-Opens (code_line l 0x81 (op_code name ∷ []))).run s)
        (λ s₁ r.
          Ends-imp (Written name s₁) (Resolved [] [] s) (ast_to_frame append name w s₁)
            (λ s₂ (r₂, there). found name (Effect-trans s s₁ s₂ r r₂) there)
            (frame-Written append name m s₁));
}

pub walk_argument-Opens :
    {a b c : Walk}
    → Opens [] [] a
    → Opens [] [] b
    → Opens [] [] c
    → Opens [] [] (walk_argument a b c)
unfolding walk_argument
walk_argument-Opens a b c =
    in_context-Opens ctx_load a ▹ in_context-Opens ctx_load b ▹ in_context-Opens ctx_load c

pub walk_method-Opens :
    {a b : Walk} (append : Bool) (l f : ℕ)
    → Opens [] [] a
    → Opens [] [] b
    → Opens [] [] (walk_method append l a f b)
unfolding walk_method
walk_method-Opens append l f a b =
    a
    ▹ emit-Opens _
    ▹ numbered-Opens (λ clc. method_frame-Opens append _ l b) (λ clc t h. omega (arith, h))
        (λ clc t f. omega arith)

pub walk_attribute-Opens :
    {a : Walk} (l v c t n : ℕ) (name : Text)
    → Opens [] [] a
    → Opens [] [] (walk_attribute l v c t n name a)
unfolding walk_attribute count_attribute
walk_attribute-Opens l v c t n name a =
    a
    ▹ emit-Opens _
    ▹ emit-Opens _
    ▹ emit-Opens _
    ▹ emit-Opens _
    ▹ record { run = λ s. same-Resolved s _ (refl, refl, refl, refl) }
