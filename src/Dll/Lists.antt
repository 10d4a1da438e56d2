-- ===== src/Dll/Lists.antt =====
-- The sequence that a list of src/components/general/dll.c represents, and `dll_append`.
use saffire.Prelude.{
  ℕ, ◌+◌, ◌≤◌, ◌<◌, ◌≡◌, refl, sym, ap, subst, ◌∙◌, none, some, [], ◌∷◌, ◌++◌, arith, ok, length,
  length-append,
}
use saffire.Dll.{Ptr, Element, Dll, Heap, alloc, set_next}
use saffire.Dll.Nodes.{
  Cells, first, final, nodes, Linked, Avoids, IsBelow, AreDistinct, write_self, Avoids-IsBelow,
  Linked-alloc, Linked-append, set_next_lem,
}
use saffire.Dll.Operations.{State, dll_init, or_else, link_next, dll_append}

-- The list holds the elements `cs`, at addresses that differ and have been handed out.
pub record IsList (s : State) (cs : Cells) : Type 0 where
  pub linked : Linked s.0 none cs none
  pub head : s.1.head ≡ first cs none
  pub tail : s.1.tail ≡ final none cs
  pub size : s.1.size ≡ length cs
  pub below : IsBelow s.0.fresh cs
  pub distinct : AreDistinct cs

pub dll_init-IsList : (h : Heap) → IsList (dll_init h) []
unfolding dll_init nodes AreDistinct
dll_init-IsList h = record {
  linked = tt;
  head = refl;
  tail = refl;
  size = refl;
  below = tt;
  distinct = tt;
}

-- Facts on sequences of elements that end in one given element.
pub final-append : (p : Ptr) (xs : Cells) (a d : ℕ) → final p (xs ++ (a, d) ∷ []) ≡ some a
final-append p [] a d = refl
final-append p (c ∷ xs) a d = final-append (some c.0) xs a d

first-append :
    (xs : Cells) (a d : ℕ) → or_else (first xs none) (some a) ≡ first (xs ++ (a, d) ∷ []) none
first-append [] a d = refl
first-append (c ∷ xs) a d = refl

IsBelow-le : (m n : ℕ) (cs : Cells) → m ≤ n → IsBelow m cs → IsBelow n cs
IsBelow-le m n [] h b = tt
IsBelow-le m n (c ∷ cs) h b = (omega (arith, b.0), IsBelow-le m n cs h b.1)

IsBelow-append : (n : ℕ) (xs ys : Cells) → IsBelow n xs → IsBelow n ys → IsBelow n (xs ++ ys)
IsBelow-append n [] ys h k = k
IsBelow-append n (c ∷ xs) ys h k = (h.0, IsBelow-append n xs ys h.1 k)

pub IsBelow-split : (n : ℕ) (xs ys : Cells) → IsBelow n (xs ++ ys) → IsBelow n xs
IsBelow-split n [] ys h = tt
IsBelow-split n (c ∷ xs) ys h = (h.0, IsBelow-split n xs ys h.1)

Avoids-append : (a : ℕ) (xs ys : Cells) → Avoids a xs → Avoids a ys → Avoids a (xs ++ ys)
Avoids-append a [] ys h k = k
Avoids-append a (c ∷ xs) ys h k = (h.0, Avoids-append a xs ys h.1 k)

Avoids-split : (a : ℕ) (xs ys : Cells) → Avoids a (xs ++ ys) → Avoids a xs × Avoids a ys
Avoids-split a [] ys h = (tt, h)
Avoids-split a (c ∷ xs) ys h = let (u, v) = Avoids-split a xs ys h.1 in ((h.0, u), v)

AreDistinct-append :
    (xs : Cells) (a d : ℕ) → AreDistinct xs → Avoids a xs → AreDistinct (xs ++ (a, d) ∷ [])
unfolding AreDistinct
AreDistinct-append [] a d h n = (tt, tt)
AreDistinct-append (c ∷ xs) a d h n = (
  Avoids-append c.0 xs ((a, d) ∷ []) h.0 ((λ e. n.0 (sym e)), tt),
  AreDistinct-append xs a d h.1 n.1,
)

-- The last of distinct elements is at another address than those before it.
pub AreDistinct-last :
    (xs : Cells) (a d : ℕ) → AreDistinct (xs ++ (a, d) ∷ []) → AreDistinct xs × Avoids a xs
unfolding AreDistinct
AreDistinct-last [] a d h = (tt, tt)
AreDistinct-last (c ∷ xs) a d h =
    let (u, v) = AreDistinct-last xs a d h.1 in
    let apart = (Avoids-split c.0 xs ((a, d) ∷ []) h.0).1 in
    (((Avoids-split c.0 xs ((a, d) ∷ []) h.0).0, u), ((λ e. apart.0 (sym e)), v))

last_below : (n : ℕ) (xs : Cells) (a d : ℕ) → IsBelow n (xs ++ (a, d) ∷ []) → a < n
last_below n [] a d h = h.0
last_below n (c ∷ xs) a d h = last_below n xs a d h.1

-- A sequence is empty or ends in an element.
pub by_ending {ℓ} :
    (P : Cells → Type ℓ)
    → P []
    → ((xs : Cells) (a d : ℕ) → P (xs ++ (a, d) ∷ []))
    → (cs : Cells) → P cs
by_ending P e f [] = e
by_ending P e f (c ∷ cs) = by_ending (λ xs. P (c ∷ xs)) (f [] c.0 c.1) (λ xs a d. f (c ∷ xs) a d) cs

alloc_self : (h : Heap) (e : Element) → (alloc h e).cells h.fresh ≡ some e
unfolding alloc
alloc_self h e = write_self h h.fresh (some e)

alloc_fresh : (h : Heap) (e : Element) → (alloc h e).fresh ≡ h.fresh + 1
unfolding alloc
alloc_fresh h e = refl

append_first :
    (h : Heap) (v : ℕ)
    → (h' : Heap) × (link_next
          (alloc h (record { prev = none; next = none; datum = v }))
          none
          (some h.fresh)
        ≡ ok h')
      × Linked h' none ((h.fresh, v) ∷ []) none
      × (h'.fresh ≡ h.fresh + 1)
unfolding link_next nodes
append_first h v =
    let e : Element = record { prev = none; next = none; datum = v } in
    (alloc h e, refl, (alloc_self h e, tt), alloc_fresh h e)

link_next-some :
    (h h' : Heap) (p q : Ptr) (a : ℕ)
    → p ≡ some a
    → set_next h (some a) q ≡ ok h'
    → link_next h p q ≡ ok h'
unfolding link_next
link_next-some h h' p q a e run = rw e run

append_last :
    (xs : Cells) (a e : ℕ) (h : Heap) (v : ℕ)
    → Linked h none (xs ++ (a, e) ∷ []) none
    → IsBelow h.fresh (xs ++ (a, e) ∷ [])
    → AreDistinct (xs ++ (a, e) ∷ [])
    → (h' : Heap) × (link_next
          (alloc h (record { prev = final none (xs ++ (a, e) ∷ []); next = none; datum = v }))
          (final none (xs ++ (a, e) ∷ []))
          (some h.fresh)
        ≡ ok h')
      × Linked h' none ((xs ++ (a, e) ∷ []) ++ (h.fresh, v) ∷ []) none
      × (h'.fresh ≡ h.fresh + 1)
unfolding nodes
append_last xs a e h v l b d =
    let cs = xs ++ (a, e) ∷ [] in
    let new : Element = record { prev = final none cs; next = none; datum = v } in
    let h₁ = alloc h new in
    let apart = (AreDistinct-last xs a e d).1 in
    let (h₂, run, linked, same, fresh) =
      set_next_lem h₁ none xs a e none (some h.fresh) apart (Linked-alloc h new none cs none b l) in
    let below : a < h.fresh = last_below h.fresh xs a e b in
    (
      h₂,
      link_next-some h₁ h₂ (final none cs) (some h.fresh) a (final-append none xs a e) run,
      Linked-append h₂ none cs ((h.fresh, v) ∷ []) none linked
          (same h.fresh (λ k. absurd (omega (arith, below, k))) ∙ alloc_self h new, tt),
      fresh ∙ alloc_fresh h new,
    )

append_link :
    (cs : Cells) (h : Heap) (v : ℕ)
    → Linked h none cs none
    → IsBelow h.fresh cs
    → AreDistinct cs
    → (h' : Heap) × (link_next
          (alloc h (record { prev = final none cs; next = none; datum = v }))
          (final none cs)
          (some h.fresh)
        ≡ ok h')
      × Linked h' none (cs ++ (h.fresh, v) ∷ []) none
      × (h'.fresh ≡ h.fresh + 1)
unfolding link_next nodes
append_link cs h v l b d =
    by_ending
      (λ cs.
        Linked h none cs none
        → IsBelow h.fresh cs
        → AreDistinct cs
        → (h' : Heap) × (link_next
              (alloc h (record { prev = final none cs; next = none; datum = v })) (final none cs)
              (some h.fresh)
            ≡ ok h')
          × Linked h' none (cs ++ (h.fresh, v) ∷ []) none
          × (h'.fresh ≡ h.fresh + 1))
      (λ l b d. append_first h v) (λ xs a e l b d. append_last xs a e h v l b d) cs l b d

append_run :
    (h h' : Heap) (dll : Dll) (v : ℕ)
    → link_next
        (alloc h (record { prev = dll.tail; next = none; datum = v }))
        dll.tail
        (some h.fresh)
      ≡ ok h'
    → dll_append (h, dll) v
      ≡ ok (
        (
          h',
          record {
            size = dll.size + 1;
            head = or_else dll.head (some h.fresh);
            tail = some h.fresh;
          },
        ),
        h.fresh,
      )
unfolding dll_append
append_run h h' dll v run = rw run

-- Appending to a list that represents a sequence succeeds, and the list then represents the
-- sequence with the data behind it, in a new element.
pub dll_append-IsList :
    (h : Heap) (dll : Dll) (cs : Cells) (v : ℕ)
    → IsList (h, dll) cs
    → (s : State) × (dll_append (h, dll) v ≡ ok (s, h.fresh)) × IsList s (cs ++ (h.fresh, v) ∷ [])
dll_append-IsList h dll cs v i =
    let (h', run, linked, fresh) = append_link cs h v i.linked i.below i.distinct in
    (
      (
        h',
        record { size = dll.size + 1; head = or_else dll.head (some h.fresh); tail = some h.fresh },
      ),
      append_run h h' dll v (rw i.tail run),
      record {
        linked = linked;
        head = ap (λ p. or_else p (some h.fresh)) i.head ∙ first-append cs h.fresh v;
        tail = sym (final-append none cs h.fresh v);
        size = omega (arith, i.size, length-append cs ((h.fresh, v) ∷ []));
        below =
            subst (λ n. IsBelow n (cs ++ (h.fresh, v) ∷ [])) (sym fresh)
              (IsBelow-append (h.fresh + 1) cs ((h.fresh, v) ∷ [])
                (IsBelow-le h.fresh (h.fresh + 1) cs (omega arith) i.below) (omega arith, tt));
        distinct = AreDistinct-append cs h.fresh v i.distinct (Avoids-IsBelow h.fresh cs i.below);
      },
    )
