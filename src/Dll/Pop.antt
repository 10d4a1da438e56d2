-- ===== src/Dll/Pop.antt =====
-- `dll_remove` of src/components/general/dll.c at the last element.
use saffire.Prelude.{
  ℕ, ◌+◌, ◌-◌, ◌≡◌, ◌≢◌, refl, sym, ap, subst, ◌∙◌, true, false, none, some, [], ◌∷◌, ◌++◌, arith,
  ok, length, length-append, ◌==◌,
}
use saffire.Dll.{Ptr, Element, Dll, Heap, read, set_next, free}
use saffire.Dll.Nodes.{
  Cells, first, final, nodes, Avoids, IsBelow, AreDistinct, read_lem, Linked-write, Linked-split,
  set_next_lem, write_fresh,
}
use saffire.Dll.Operations.{State, ptr_eq, dll_remove, remove_tail}
use saffire.Dll.Lists.{IsList, by_ending, final-append, AreDistinct-last, IsBelow-split}

remove_only :
    (h : Heap) (dll : Dll) (a : ℕ)
    → dll.size ≡ 1
    → dll_remove (h, dll) a ≡ ok (free h a, record { size = 0; head = none; tail = none })
unfolding dll_remove
remove_only h dll a one = rw one

remove_last :
    (h h₁ : Heap) (dll : Dll) (a n : ℕ) (e : Element)
    → dll.size ≡ n + 2
    → ptr_eq (some a) dll.head ≡ false
    → dll.tail ≡ some a
    → read h (some a) ≡ ok e
    → set_next h e.prev none ≡ ok h₁
    → dll_remove (h, dll) a
      ≡ ok (free h₁ a, record { size = n + 1; head = dll.head; tail = e.prev })
unfolding dll_remove remove_tail
remove_last h h₁ dll a n e size other tail at run =
    let more : (n + 2 == 0) ≡ false = ground arith in
    let less : n + 2 - 1 ≡ n + 1 = omega arith in
    let some_left : (n + 1 == 0) ≡ false = ground arith in
    let same : (a == a) ≡ true = ground arith in
    rw size (rw more (rw less (rw some_left (rw other (rw tail (rw same (rw at (rw run))))))))

-- The first element of a sequence that another one follows is not the last.
head_differs :
    (ys : Cells) (b e a : ℕ) (p : Ptr)
    → p ≡ first (ys ++ (b, e) ∷ []) none
    → Avoids a (ys ++ (b, e) ∷ [])
    → ptr_eq (some a) p ≡ false
head_differs [] b e a p h n = rw h (not_same a b n.0)
  where
    not_same : (a b : ℕ) → b ≢ a → (a == b) ≡ false
    not_same a b n = ground arith
head_differs (c ∷ ys) b e a p h n = rw h (not_same' a c.0 n.0)
  where
    not_same' : (a b : ℕ) → b ≢ a → (a == b) ≡ false
    not_same' a b n = ground arith

-- What removing the last element leaves.
abbrev Removed : State → Cells → ℕ → ℕ → Type 0
Removed s xs a d = (s' : State) × (dll_remove s a ≡ ok s') × IsList s' xs × (s'.0.fresh ≡ s.0.fresh)

freed-IsList :
    (h : Heap) (dll : Dll) (xs : Cells) (a : ℕ)
    → IsList (h, dll) xs
    → Avoids a xs
    → IsList (free h a, dll) xs
unfolding free
freed-IsList h dll xs a i n = record {
  linked = Linked-write h a none none xs none n i.linked;
  head = i.head;
  tail = i.tail;
  size = i.size;
  below = subst (λ k. IsBelow k xs) (sym (write_fresh h a none)) i.below;
  distinct = i.distinct;
}

free_fresh : (h : Heap) (a : ℕ) → (free h a).fresh ≡ h.fresh
unfolding free
free_fresh h a = write_fresh h a none

Removed-only :
    (h : Heap) (dll : Dll) (a d : ℕ) → IsList (h, dll) ((a, d) ∷ []) → Removed (h, dll) [] a d
unfolding nodes AreDistinct
Removed-only h dll a d i = (
  (free h a, record { size = 0; head = none; tail = none }),
  remove_only h dll a i.size,
  record { linked = tt; head = refl; tail = refl; size = refl; below = tt; distinct = tt },
  free_fresh h a,
)

Removed-last :
    (h : Heap) (dll : Dll) (ys : Cells) (b e a d : ℕ)
    → IsList (h, dll) ((ys ++ (b, e) ∷ []) ++ (a, d) ∷ [])
    → Removed (h, dll) (ys ++ (b, e) ∷ []) a d
unfolding nodes
Removed-last h dll ys b e a d i =
    let xs = ys ++ (b, e) ∷ [] in
    let (distinct, apart) = AreDistinct-last xs a d i.distinct in
    let (before, last) = Linked-split h none xs ((a, d) ∷ []) none i.linked in
    let elem : Element = record { prev = final none xs; next = none; datum = d } in
    let ends_at = final-append none ys b e in
    let (h₁, run, linked, same, fresh) =
      set_next_lem h none ys b e (some a) none (AreDistinct-last ys b e distinct).1 before in
    let size : dll.size ≡ length ys + 2 =
      omega (arith, i.size, length-append xs ((a, d) ∷ []), length-append ys ((b, e) ∷ [])) in
    let differs = head_differs ys b e a dll.head (i.head ∙ first_longer ys b e a d) apart in
    let dll' : Dll = record { size = length ys + 1; head = dll.head; tail = final none xs } in
    let i' : IsList (h₁, dll') xs = record {
      linked = linked;
      head = i.head ∙ first_longer ys b e a d;
      tail = refl;
      size = omega (arith, length-append ys ((b, e) ∷ []));
      below =
          subst (λ k. IsBelow k xs) (sym fresh) (IsBelow-split h.fresh xs ((a, d) ∷ []) i.below);
      distinct = distinct;
    } in
    (
      (free h₁ a, dll'),
      remove_last h h₁ dll a (length ys) elem size differs (i.tail ∙ final-append none xs a d)
          (read_lem h a elem last.0) (ap (λ p. set_next h p none) ends_at ∙ run),
      freed-IsList h₁ dll' xs a i' apart,
      free_fresh h₁ a ∙ fresh,
    )
  where
    first_longer :
        (ys : Cells) (b e a d : ℕ)
        → first ((ys ++ (b, e) ∷ []) ++ (a, d) ∷ []) none ≡ first (ys ++ (b, e) ∷ []) none
    first_longer [] b e a d = refl
    first_longer (c ∷ ys) b e a d = refl

-- Removing the last element of a list leaves the sequence before it, and frees its element.
pub dll_remove_last :
    (h : Heap) (dll : Dll) (xs : Cells) (a d : ℕ)
    → IsList (h, dll) (xs ++ (a, d) ∷ [])
    → Removed (h, dll) xs a d
dll_remove_last h dll xs a d i =
    by_ending (λ xs. IsList (h, dll) (xs ++ (a, d) ∷ []) → Removed (h, dll) xs a d)
      (λ j. Removed-only h dll a d j) (λ ys b e j. Removed-last h dll ys b e a d j) xs i
