-- ===== src/HashTable/Entries.antt =====
-- The entries of a hash table of src/components/general/hash/chained.c in their order, and counts.
use saffire.Prelude.{
  ℕ, ◌+◌, ◌%◌, ◌≤◌, ◌<◌, ◌≡◌, ◌≢◌, refl, Bool, true, false, ◌&&◌, Option, none, some, List, [], ◌∷◌,
  ◌++◌, arith, text_eq, eq_of_text_eq, ◌==◌, if◌then◌else◌, ok, All, subst, ◌⊎◌, Bool-cases, inl,
  inr,
}
use mathlib.Core.Option.{some-injective}
use saffire.HashTable.{Key, str_key, num_key, obj_key, Bucket}
use saffire.HashTable.Functions.{ht_hash}
use saffire.HashTable.Chained.{find_matches}

abbrev pub Entries : Type 0
Entries = List (ℕ × Bucket)

-- The `HASH_KEY_*` type of a key.
unfoldable pub kind : Key → ℕ
kind (str_key s) = 0
kind (num_key n) = 1
kind (obj_key o s) = 2

-- Keys that the table takes for the same.
unfoldable pub key_eq : Key → Key → Bool
key_eq (str_key s) (str_key t) = text_eq t s
key_eq (num_key n) (num_key m) = m == n
key_eq (obj_key o s) (obj_key p t) = text_eq t s
key_eq _ _ = false

unfoldable pub find_entry : Key → Entries → Option (ℕ × Bucket)
find_entry k [] = none
find_entry k (e ∷ es) = if key_eq k e.1.key then some e else find_entry k es

abbrev pub value_of : Option (ℕ × Bucket) → Option ℕ
value_of none = none
value_of (some e) = some e.1.value

abbrev pub address_of : Option (ℕ × Bucket) → Option ℕ
address_of none = none
address_of (some e) = some e.0

abbrev pub addresses : Entries → List ℕ
addresses [] = []
addresses (e ∷ es) = e.0 ∷ addresses es

abbrev pub bit : Bool → ℕ
bit b = if b then 1 else 0

unfoldable pub count : ℕ → List ℕ → ℕ
count a [] = 0
count a (x ∷ xs) = bit (x == a) + count a xs

unfoldable pub count_key : Key → Entries → ℕ
count_key k [] = 0
count_key k (e ∷ es) = bit (key_eq k e.1.key) + count_key k es

-- How often an address stands among the entries that belong into chain `i` of `n`.
unfoldable pub count_in : ℕ → ℕ → ℕ → Entries → ℕ
count_in n i a [] = 0
count_in n i a (e ∷ es) = bit (e.0 == a && (e.1.hash % n == i)) + count_in n i a es

module _ {ℓ κ} {A : Type ℓ} where
  pub All-and {λ₁} :
      (P : A → Type κ) (Q : A → Type λ₁) (xs : List A)
      → All P xs
      → All Q xs
      → All (λ x. P x × Q x) xs
  All-and P Q [] p q = tt
  All-and P Q (x ∷ xs) p q = ((p.0, q.0), All-and P Q xs p.1 q.1)

  pub All-imp {λ₁} :
      (P : A → Type κ) (Q : A → Type λ₁) (xs : List A) → ((x : A) → P x → Q x) → All P xs → All Q xs
  All-imp P Q [] f p = tt
  All-imp P Q (x ∷ xs) f p = (f x p.0, All-imp P Q xs f p.1)

  pub All-append : (P : A → Type κ) (xs ys : List A) → All P xs → All P ys → All P (xs ++ ys)
  All-append P [] ys p q = q
  All-append P (x ∷ xs) ys p q = (p.0, All-append P xs ys p.1 q)

pub find_matches-key_eq : (k j : Key) → kind k ≡ kind j → find_matches k j ≡ ok (key_eq k j)
unfolding find_matches key_eq kind
find_matches-key_eq (str_key s) (str_key t) h = refl
find_matches-key_eq (num_key n) (num_key m) h = refl
find_matches-key_eq (obj_key o s) (obj_key p t) h = refl
find_matches-key_eq (str_key s) (num_key m) h = absurd (omega (arith, h))
find_matches-key_eq (str_key s) (obj_key p t) h = absurd (omega (arith, h))
find_matches-key_eq (num_key n) (str_key t) h = absurd (omega (arith, h))
find_matches-key_eq (num_key n) (obj_key p t) h = absurd (omega (arith, h))
find_matches-key_eq (obj_key o s) (str_key t) h = absurd (omega (arith, h))
find_matches-key_eq (obj_key o s) (num_key m) h = absurd (omega (arith, h))

-- Keys that are the same have the same hash.
pub ht_hash-key_eq : (k j : Key) → key_eq k j ≡ true → ht_hash k ≡ ht_hash j
unfolding key_eq ht_hash
ht_hash-key_eq (str_key s) (str_key t) h = rw (eq_of_text_eq t s h) refl
ht_hash-key_eq (num_key n) (num_key m) h = let e : m ≡ n = ground arith in rw e refl
ht_hash-key_eq (obj_key o s) (obj_key p t) h = rw (eq_of_text_eq t s h) refl
ht_hash-key_eq (str_key s) (num_key m) h = cc
ht_hash-key_eq (str_key s) (obj_key p t) h = cc
ht_hash-key_eq (num_key n) (str_key t) h = cc
ht_hash-key_eq (num_key n) (obj_key p t) h = cc
ht_hash-key_eq (obj_key o s) (str_key t) h = cc
ht_hash-key_eq (obj_key o s) (num_key m) h = cc

counted_head : (x a y i r : ℕ) → 0 < bit (x == a && (y == i)) + r → ((x ≡ a) × (y ≡ i)) ⊎ (0 < r)
counted_head x a y i r h = ground arith

-- An address that is counted belongs to an entry of that chain.
pub locate {κ} :
    (P : ℕ × Bucket → Type κ) (n i a : ℕ) (es : Entries)
    → All P es
    → 0 < count_in n i a es
    → (b : Bucket) × P (a, b) × (b.hash % n ≡ i)
unfolding count_in
locate P n i a [] all h = absurd (omega (arith, h))
locate P n i a ((x, b) ∷ es) all h = elim (counted_head x a (b.hash % n) i (count_in n i a es) h) [
  | inl here ↦ (b, subst (λ (z : ℕ). P (z, b)) here.0 all.0, here.1)
  | inr later ↦ locate P n i a es all.1 later
]

pub some_not_none : (e : ℕ × Bucket) → ¬ (some e ≡ none)
some_not_none e h = cc

pub find_entry-none :
    (k : Key) (es : Entries)
    → find_entry k es ≡ none
    → All (λ (e : ℕ × Bucket). key_eq k e.1.key ≡ false) es
unfolding find_entry
find_entry-none k [] h = tt
find_entry-none k ((x, b) ∷ es) h = elim (Bool-cases (key_eq k b.key)) [
  | inl t ↦ absurd (some_not_none (x, b) (rw t at h))
  | inr f ↦ (f, find_entry-none k es (rw f at h))
]

none_counted :
    (k : Key) (es : Entries)
    → count_key k es ≡ 0
    → All (λ (e : ℕ × Bucket). key_eq k e.1.key ≡ false) es
unfolding count_key
none_counted k [] h = tt
none_counted k ((x, b) ∷ es) h = (ground (arith, h), none_counted k es (omega (arith, h)))

self_counted : (x y r : ℕ) → 0 < bit (x == x && (y == y)) + r
self_counted x y r = ground arith

-- A key that stands once at most fits no entry but the one that is found.
abbrev pub IsFound {κ} : (ℕ × Bucket → Type κ) → ℕ → Key → Entries → ℕ × Bucket → Type κ
IsFound P n k es z =
    P z
    × (key_eq k z.1.key ≡ true)
    × (0 < count_in n (z.1.hash % n) z.0 es)
    × All (λ (e : ℕ × Bucket). e.0 ≢ z.0 → key_eq k e.1.key ≡ false) es

pub find_entry-some {κ} :
    (P : ℕ × Bucket → Type κ) (n : ℕ) (k : Key) (es : Entries) (z : ℕ × Bucket)
    → All P es
    → count_key k es ≤ 1
    → find_entry k es ≡ some z
    → IsFound P n k es z
unfolding find_entry count_key count_in
find_entry-some P n k [] z all one h = cc
find_entry-some P n k ((x, c) ∷ es) z all one h = elim (Bool-cases (key_eq k c.key)) [
  | inl t ↦
      let once : bit true + count_key k es ≤ 1 = rw t at one in
      let rest : count_key k es ≡ 0 = omega (arith, once) in
      let here : some (x, c) ≡ some z = rw t at h in
      let eq : (x, c) ≡ z = some-injective (x, c) z here in
      subst (IsFound P n k ((x, c) ∷ es)) eq (
        all.0,
        t,
        self_counted x (c.hash % n) _,
        ((λ ne. absurd (ne refl)), All-imp _ _ es (λ e f _. f) (none_counted k es rest)),
      )
  | inr f ↦
      let (p, same, counted, others) =
        find_entry-some P n k es z all.1 (omega (arith, one)) (rw f at h) in
      (p, same, omega (arith, counted), ((λ ne. f), others))
]
