-- ===== src/Dll/Nodes.antt =====
-- A segment of linked elements, and what writes and allocations do to it.
use saffire.Prelude.{
  ℕ, ◌+◌, ◌<◌, ◌≡◌, ◌≢◌, refl, ◌∙◌, Option, some, List, [], ◌∷◌, ◌++◌, arith, ok, All,
}
use saffire.Dll.{Ptr, Element, Heap, write, alloc, read, set_next}

-- The addresses and the data of the elements in their order.
abbrev pub Cells : Type 0
Cells = List (ℕ × ℕ)

-- The first element of a segment that ends before `q`, and the last of one that begins behind `p`.
abbrev pub first : Cells → Ptr → Ptr
first [] q = q
first ((a, d) ∷ cs) q = some a

abbrev pub final : Ptr → Cells → Ptr
final p [] = p
final p ((a, d) ∷ cs) = final (some a) cs

-- The elements of a segment between `p` and `q`.
unfoldable pub nodes : Ptr → Cells → Ptr → List (ℕ × Element)
nodes p [] q = []
nodes p ((a, d) ∷ cs) q =
    (a, record { prev = p; next = first cs q; datum = d }) ∷ nodes (some a) cs q

-- The heap holds them.
abbrev pub Linked : Heap → Ptr → Cells → Ptr → Type 0
Linked h p cs q = All (λ (c : ℕ × Element). h.cells c.0 ≡ some c.1) (nodes p cs q)

-- An address is not that of an element, or is above all of them; no address stands twice.
abbrev pub Avoids : ℕ → Cells → Type 0
Avoids a cs = All (λ (c : ℕ × ℕ). c.0 ≢ a) cs

abbrev pub IsBelow : ℕ → Cells → Type 0
IsBelow n cs = All (λ (c : ℕ × ℕ). c.0 < n) cs

unfoldable pub AreDistinct : Cells → Type 0
AreDistinct [] = Unit
AreDistinct (c ∷ cs) = Avoids c.0 cs × AreDistinct cs

pub write_self : (h : Heap) (a : ℕ) (e : Option Element) → (write h a e).cells a ≡ e
unfolding write
write_self h a e = ground arith

pub write_other :
    (h : Heap) (a b : ℕ) (e : Option Element) → b ≢ a → (write h a e).cells b ≡ h.cells b
unfolding write
write_other h a b e n = ground arith

pub read_lem : (h : Heap) (a : ℕ) (e : Element) → h.cells a ≡ some e → read h (some a) ≡ ok e
unfolding read
read_lem h a e k = rw (k, read)

pub Avoids-IsBelow : (n : ℕ) (cs : Cells) → IsBelow n cs → Avoids n cs
Avoids-IsBelow n [] h = tt
Avoids-IsBelow n (c ∷ cs) h = ((λ e. absurd (omega (arith, h.0, e))), Avoids-IsBelow n cs h.1)

pub Linked-write :
    (h : Heap) (a : ℕ) (e : Option Element) (p : Ptr) (cs : Cells) (q : Ptr)
    → Avoids a cs
    → Linked h p cs q
    → Linked (write h a e) p cs q
unfolding nodes
Linked-write h a e p [] q n l = tt
Linked-write h a e p ((b, d) ∷ cs) q n l =
    (write_other h a b e n.0 ∙ l.0, Linked-write h a e (some b) cs q n.1 l.1)

Linked-fresh :
    (g : Heap) (n : ℕ) (p : Ptr) (cs : Cells) (q : Ptr)
    → Linked g p cs q
    → Linked (record g { fresh = n }) p cs q
unfolding nodes
Linked-fresh g n p [] q l = tt
Linked-fresh g n p (c ∷ cs) q l = (l.0, Linked-fresh g n (some c.0) cs q l.1)

pub Linked-alloc :
    (h : Heap) (e : Element) (p : Ptr) (cs : Cells) (q : Ptr)
    → IsBelow h.fresh cs
    → Linked h p cs q
    → Linked (alloc h e) p cs q
unfolding alloc
Linked-alloc h e p cs q n l =
    Linked-fresh (write h h.fresh (some e)) (h.fresh + 1) p cs q
      (Linked-write h h.fresh (some e) p cs q (Avoids-IsBelow h.fresh cs n) l)

-- Segments are joined at the addresses where they meet.
pub Linked-append :
    (h : Heap) (p : Ptr) (xs ys : Cells) (q : Ptr)
    → Linked h p xs (first ys q)
    → Linked h (final p xs) ys q
    → Linked h p (xs ++ ys) q
unfolding nodes
Linked-append h p [] ys q l k = k
Linked-append h p ((a, d) ∷ []) ys q l k = (l.0, k)
Linked-append h p ((a, d) ∷ (c ∷ xs)) ys q l k = (l.0, Linked-append h (some a) (c ∷ xs) ys q l.1 k)

pub Linked-split :
    (h : Heap) (p : Ptr) (xs ys : Cells) (q : Ptr)
    → Linked h p (xs ++ ys) q
    → Linked h p xs (first ys q) × Linked h (final p xs) ys q
unfolding nodes
Linked-split h p [] ys q l = (tt, l)
Linked-split h p ((a, d) ∷ []) ys q l = ((l.0, tt), l.1)
Linked-split h p ((a, d) ∷ (c ∷ xs)) ys q l =
    let (u, v) = Linked-split h (some a) (c ∷ xs) ys q l.1 in ((l.0, u), v)

pub write_fresh : (h : Heap) (a : ℕ) (e : Option Element) → (write h a e).fresh ≡ h.fresh
unfolding write
write_fresh h a e = refl

-- A write to the `next` of the last element changes where the segment ends.
pub set_next_lem :
    (h : Heap) (p : Ptr) (xs : Cells) (a d : ℕ) (q v : Ptr)
    → Avoids a xs
    → Linked h p (xs ++ (a, d) ∷ []) q
    → (h' : Heap) × (set_next h (some a) v ≡ ok h')
      × Linked h' p (xs ++ (a, d) ∷ []) v
      × ((b : ℕ) → b ≢ a → h'.cells b ≡ h.cells b)
      × (h'.fresh ≡ h.fresh)
unfolding nodes set_next
set_next_lem h p xs a d q v n l =
    let (before, last) = Linked-split h p xs ((a, d) ∷ []) q l in
    let e : Element = record { prev = final p xs; next = q; datum = d } in
    let new : Option Element = some (record e { next = v }) in
    (
      write h a new,
      rw (read_lem h a e last.0),
      Linked-append (write h a new) p xs ((a, d) ∷ []) v
          (Linked-write h a new p xs (some a) n before) (write_self h a new, tt),
      (λ b other. write_other h a b new other),
      write_fresh h a new,
    )
