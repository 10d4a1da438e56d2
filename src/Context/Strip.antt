-- ===== src/Context/Strip.antt =====
-- Class paths with a last separator (src/components/vm/context.c).
use saffire.Prelude.{
  ℕ, suc, ◌+◌, ◌≡◌, ◌≢◌, refl, sym, ap, ◌∙◌, false, ◌&&◌, none, some, [], ◌∷◌, ◌++◌, append_assoc,
  arith, Text, text_eq, ok, All, length, drop, take-append_length, drop-append_length,
  length-append, ◌==◌,
}
use saffire.Context.{
  strrchr, cut_path, vm_context_strip_path, vm_context_strip_class, separator, ClassContext,
  is_absolute_name, vm_context_absolute_namespace,
}

-- A name without a colon.
abbrev pub IsPlain : Text → Type 0
IsPlain s = All (λ c. c ≢ b':') s

strrchr_plain : (s : Text) → IsPlain s → strrchr s b':' ≡ none
unfolding strrchr
strrchr_plain [] h = refl
strrchr_plain (c ∷ s) h =
    let other : (c == b':') ≡ false = not_colon c h.0 in rw (strrchr_plain s h.1) (rw other)
  where
    not_colon : (c : ℕ) → c ≢ b':' → (c == b':') ≡ false
    not_colon c n = ground arith

strrchr-append : (p name : Text) → IsPlain name → strrchr (p ++ b':' ∷ name) b':' ≡ some (length p)
unfolding strrchr
strrchr-append [] name h = rw (strrchr_plain name h)
strrchr-append (c ∷ p) name h = rw (strrchr-append p name h)

-- What is left of a path in front of the separator.
abbrev pub path_of : Text → Text
path_of [] = separator
path_of (c ∷ p) = c ∷ p

last_colon :
    (p name : Text) → IsPlain name → strrchr (p ++ (separator ++ name)) b':' ≡ some (suc (length p))
last_colon p name h =
    let n : length (p ++ b':' ∷ []) ≡ suc (length p) = omega (arith, length-append p (b':' ∷ [])) in
    ap (λ s. strrchr s b':') (sym (append_assoc p (b':' ∷ []) (b':' ∷ name)))
    ∙ strrchr-append (p ++ b':' ∷ []) name h
    ∙ ap some n

cut_at : (p name : Text) → cut_path (p ++ (separator ++ name)) (suc (length p)) ≡ ok (path_of p)
unfolding cut_path
cut_at [] name = refl
cut_at (c ∷ p) name = ap (λ s. ok (c ∷ s)) (take-append_length p (separator ++ name))

path_run :
    (s r : Text) (k : ℕ)
    → strrchr s b':' ≡ some k
    → cut_path s k ≡ ok r
    → vm_context_strip_path s ≡ ok r
unfolding vm_context_strip_path
path_run s r k e run = rw (e, vm_context_strip_path) run

class_run :
    (s : Text) (k : ℕ) → strrchr s b':' ≡ some (suc k) → vm_context_strip_class s ≡ drop (k + 2) s
unfolding vm_context_strip_class
class_run s k e =
    let inner : (suc k == 0) ≡ false = ground arith in
    let two : suc k + 1 ≡ k + 2 = omega arith in rw (e, vm_context_strip_class) (rw inner (rw two))

-- A class path that ends in a separator and a name without a colon is taken apart into what
-- stands before the separator, the separator itself if nothing does, and the name.
pub vm_context_strip :
    (p name : Text)
    → IsPlain name
    → (vm_context_strip_path (p ++ (separator ++ name)) ≡ ok (path_of p))
      × (vm_context_strip_class (p ++ (separator ++ name)) ≡ name)
vm_context_strip p name h =
    let k = last_colon p name h in
    (
      path_run (p ++ (separator ++ name)) (path_of p) (suc (length p)) k (cut_at p name),
      class_run (p ++ (separator ++ name)) (length p) k ∙ behind p name,
    )
  where
    behind : (p name : Text) → drop (length p + 2) (p ++ (separator ++ name)) ≡ name
    behind p name =
        let n : length p + 2 ≡ length (p ++ separator) = omega (arith, length-append p separator) in
        ap (λ k. drop k (p ++ (separator ++ name))) n
        ∙ ap (drop (length (p ++ separator))) (sym (append_assoc p separator name))
        ∙ drop-append_length (p ++ separator) name

plain_not_absolute : (s : Text) → IsPlain s → is_absolute_name s ≡ false
plain_not_absolute [] h = refl
plain_not_absolute (a ∷ []) h = refl
plain_not_absolute (a ∷ (b ∷ s)) h = not_colons a b h.0
  where
    not_colons : (a b : ℕ) → a ≢ b':' → (a == b':' && b == b':') ≡ false
    not_colons a b n = ground arith

absolute_run :
    (ctx : ClassContext) (name : Text)
    → is_absolute_name name ≡ false
    → text_eq ctx.full separator ≡ false
    → vm_context_absolute_namespace (some ctx) name ≡ ctx.path ++ (separator ++ name)
unfolding vm_context_absolute_namespace
absolute_run ctx name e f = rw e (rw f)

-- A plain name made absolute in a context other than the main one, and taken apart again, gives
-- the path of the context, if that is not empty, and the name.
pub vm_context_absolute-strip :
    (ctx : ClassContext) (c : ℕ) (p name : Text)
    → IsPlain name
    → text_eq ctx.full separator ≡ false
    → ctx.path ≡ c ∷ p
    → (vm_context_strip_path (vm_context_absolute_namespace (some ctx) name) ≡ ok ctx.path)
      × (vm_context_strip_class (vm_context_absolute_namespace (some ctx) name) ≡ name)
vm_context_absolute-strip ctx c p name h other e =
    let full : vm_context_absolute_namespace (some ctx) name ≡ (c ∷ p) ++ (separator ++ name) =
      absolute_run ctx name (plain_not_absolute name h) other
      ∙ ap (λ q. q ++ (separator ++ name)) e in
    let (path, class) = vm_context_strip (c ∷ p) name h in
    (ap vm_context_strip_path full ∙ path ∙ ap ok (sym e), ap vm_context_strip_class full ∙ class)
