-- ===== src/Dll/Tests.antt =====
-- A list on a heap, and the theorems about lists at it.
use saffire.Prelude.{◌≡◌, none, some, [], ◌∷◌, ok, arith}
use saffire.Dll.{Dll, Heap}
use saffire.Dll.Operations.{State, dll_init, dll_append, dll_pop, stack_push, stack_pop}
use saffire.Dll.Lists.{IsList, dll_init-IsList, dll_append-IsList}
use saffire.Dll.Stack.{dll_pop-IsList, stack_pop-push}

abbrev heap : Heap
heap = record { cells = λ _. none; fresh = 0 }

abbrev nothing : Dll
nothing = record { size = 0; head = none; tail = none }

nothing-IsList : IsList (heap, nothing) []
unfolding dll_init
nothing-IsList = dll_init-IsList heap

-- The list after one append.
abbrev OneElement : Type 0
OneElement = (s : State) × (dll_append (heap, nothing) 5 ≡ ok (s, 0)) × IsList s ((0, 5) ∷ [])

one_element : OneElement
one_element = dll_append-IsList heap nothing [] 5 nothing-IsList

dll_append-IsList_example :
    (s : State) × (dll_append one_element.0 7 ≡ ok (s, one_element.0.0.fresh))
    × IsList s ((0, 5) ∷ ((one_element.0.0.fresh, 7) ∷ []))
dll_append-IsList_example =
    dll_append-IsList one_element.0.0 one_element.0.1 ((0, 5) ∷ []) 7 one_element.2

dll_pop-IsList_example : (s : State) × (dll_pop one_element.0 ≡ ok (s, some 5)) × IsList s []
dll_pop-IsList_example = dll_pop-IsList one_element.0.0 one_element.0.1 [] 0 5 one_element.2

stack_pop-push_example :
    (s₁ s₂ : State) × (stack_push one_element.0 9 ≡ ok s₁)
    × (stack_pop s₁ ≡ ok (s₂, 9))
    × IsList s₂ ((0, 5) ∷ [])
stack_pop-push_example = stack_pop-push one_element.0 ((0, 5) ∷ []) 9 one_element.2 (omega arith)
