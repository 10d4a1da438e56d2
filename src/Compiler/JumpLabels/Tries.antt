-- ===== src/Compiler/JumpLabels/Tries.antt =====
-- The labels of goto, label and try statements in src/components/compiler/ast_to_asm.c.
use saffire.Prelude.{
  text_eq, ℕ, ◌+◌, ◌≡◌, refl, Option, none, some, List, [], ◌∷◌, ◌++◌, Text, arith, undefined, Ends,
  Ends-if, ◌≤◌, ◌==◌, length, leb, get_elem?,
}
use saffire.Asm.{label_line}
use saffire.Compiler.Names
use saffire.Compiler.Names.{label, userlabel_text}
use saffire.Compiler.State.{State, BlockState, Walk, emit, ctx_load}
use saffire.Compiler.Branches.{
  text_mem, new_label, walk_goto, walk_label, walk_catch, walk_try, catch_label,
}
use saffire.Compiler.Hits.{
  hit, hits, hits-append, is_free, is_user, family, family_lem, one_if, free-hit,
}
use saffire.Compiler.Bands.{in_band, band-total, off-Reads, is_catch, catch-Reads}
use saffire.Compiler.Uses.{block_labels-set, block_labels-get}
use saffire.Compiler.Opens.{
  Resolved, Opens, ◌▹◌, skip-Opens, emit-Opens, weaken, user-Opens, line-Resolved,
}
use saffire.Compiler.Steps.{in_context-Opens, numbered-Opens}
use saffire.Compiler.SimpleLabels.{Opens-if}
use saffire.Compiler.JumpLabels.Conditions.{OpensIf, optional-Opens}

label_runs :
    (t : Text) (s : State) (o : Option BlockState)
    → get_elem? s.blocks s.block_cnt ≡ o
    → Ends (Resolved [] (t ∷ []) s) (new_label t s)
unfolding new_label emit
label_runs t s none e = rw (e, new_label) tt
label_runs t s (some b) e =
    rw (e, new_label)
      (Ends-if (Resolved [] (t ∷ []) s) (text_mem t b.labels) _ _ tt (
        line-Resolved (label_line t) s _ refl refl refl (λ u h. omega (
          arith,
          h,
          block_labels-get u s.blocks s.block_cnt b e,
          block_labels-set u s.blocks s.block_cnt (record b { labels = b.labels ++ t ∷ [] }),
        ))))

-- The label of a program is a free one.
pub walk_label-Opens : (name : Text) → Opens [] [] (walk_label name)
unfolding walk_label is_free
walk_label-Opens name =
    Opens-if {a = λ s. undefined} (leb 100 (length (userlabel_text ++ name)))
      (record { run = λ s. tt })
      (weaken [] []
        (record {
          run = λ s. label_runs (userlabel_text ++ name) s (get_elem? s.blocks s.block_cnt) refl;
        })
        (λ t h. omega (arith, h)) (λ t h. absurd (omega (arith, h)))
        (λ t f. omega (arith, free-hit t (userlabel_text ++ name) f refl)))

pub walk_goto-Opens : (l : ℕ) (name : Text) → Opens [] [] (walk_goto l name)
unfolding walk_goto is_user
walk_goto-Opens l name =
    Opens-if {a = λ s. undefined} (leb 100 (length (userlabel_text ++ name)))
      (record { run = λ s. tt }) (user-Opens (userlabel_text ++ name) refl (emit-Opens _))

-- The labels of a catch.
abbrev pub catch_labels : ℕ → ℕ → List Text
catch_labels clc i =
    family (λ s. catch_label clc s i) (Names.match_suffix ∷ Names.nomatch_suffix ∷ [])

pub catch_labels_lem :
    (clc i : ℕ) (t : Text) → hits t (catch_labels clc i) ≤ one_if (in_band is_catch clc i (i + 1) t)
unfolding hit text_eq
catch_labels_lem clc i t =
    family_lem (catch-Reads clc i) (Names.match_suffix ∷ Names.nomatch_suffix ∷ []) t refl refl

pub walk_catch-Opens :
    {a : Walk} (l clc i : ℕ) (x y : Text)
    → Opens [] [] a
    → Opens
        (label Names.try_text clc Names.finally_suffix ∷ [])
        (catch_labels clc i)
        (walk_catch l clc i x y a)
unfolding walk_catch
walk_catch-Opens l clc i x y a =
    weaken (label Names.try_text clc Names.finally_suffix ∷ []) (catch_labels clc i)
      (Opens-if (i == 0) skip-Opens (emit-Opens _)
        ▹ emit-Opens _
        ▹ emit-Opens _
        ▹ emit-Opens _
        ▹ emit-Opens _
        ▹ emit-Opens _
        ▹ emit-Opens _
        ▹ emit-Opens _
        ▹ in_context-Opens ctx_load a
        ▹ emit-Opens _
        ▹ emit-Opens _)
      (λ t h. omega (arith, h)) (λ t h. omega (arith, h)) (λ t f. omega arith)

abbrev try_end : ℕ → List Text
try_end clc =
    label Names.try_text clc Names.finally_suffix
    ∷ label Names.try_text clc Names.end_finally_suffix
    ∷ []

-- The catches place labels with their numbers.
pub walk_try-Opens :
    {a : Walk} {c : ℕ → Walk} {o : Option Walk} (l len : ℕ) (pc : ℕ → List Text)
    → Opens [] [] a
    → ((clc : ℕ) → Opens (label Names.try_text clc Names.finally_suffix ∷ []) (pc clc) (c clc))
    → ((clc : ℕ) (t : Text) → hits t (pc clc) ≤ one_if (in_band is_catch clc 0 len t))
    → OpensIf o
    → Opens [] [] (walk_try l a c o)
unfolding walk_try hit text_eq
walk_try-Opens l len pc a c b o =
    numbered-Opens
      (λ clc.
        (emit-Opens _
          ▹ in_context-Opens ctx_load a
          ▹ emit-Opens _
          ▹ emit-Opens _
          ▹ c clc
          ▹ emit-Opens _
          ▹ emit-Opens _
          ▹ emit-Opens _
          ▹ optional-Opens o
          ▹ emit-Opens _
          ▹ emit-Opens _))
      (λ clc t h. omega (arith, h, hits-append t (pc clc) (try_end clc)))
      (λ clc t f. omega (
        arith,
        hits-append t (pc clc) (try_end clc),
        b clc t,
        band-total is_catch clc 0 len t,
        family_lem (off-Reads is_catch Names.try_text clc refl)
            (Names.end_try_suffix ∷ Names.finally_suffix ∷ Names.end_finally_suffix ∷ []) t refl
            refl,
      ))
