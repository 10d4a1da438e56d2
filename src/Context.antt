-- ===== src/Context.antt =====
-- Class paths: src/components/vm/context.c.
pub mod Strip
mod Tests
use saffire.Prelude.{
  ℕ, zero, suc, ◌+◌, ◌-◌, Bool, true, false, ◌&&◌, Option, none, some, List, [], ◌∷◌, ◌++◌, Text,
  text_eq, Run, ok, fatal_error, undefined, context_without_separator, length, take, drop, ◌==◌,
  if◌then◌else◌,
}

-- `strrchr(s, c)`, as an offset
unfoldable pub strrchr : Text → ℕ → Option ℕ
strrchr [] c = none
strrchr (x ∷ s) c = later_or_here (strrchr s c) (x == c)
  where
    later_or_here : Option ℕ → Bool → Option ℕ
    later_or_here (some k) here = some (suc k)
    later_or_here none true = some 0
    later_or_here none false = none

-- The string is cut in front of the character before its last `:`. Of `::x` the separator is kept.
-- With the `:` in front, the cut is before the string.
unfoldable pub cut_path : Text → ℕ → Run Text
cut_path s zero = undefined
cut_path s (suc zero) = ok (take 2 s)
cut_path s (suc (suc k)) = ok (take (suc k) s)

unfoldable pub vm_context_strip_path : Text → Run Text
vm_context_strip_path class_path = elim (strrchr class_path b':') [
  | none ↦ fatal_error context_without_separator
  | some k ↦ cut_path class_path k
]

unfoldable pub vm_context_strip_class : Text → Text
vm_context_strip_class class_path = elim (strrchr class_path b':') [
  | none ↦ class_path
  | some k ↦ if k == 0 then class_path else drop (k + 1) class_path
]

abbrev pub separator : Text
separator = b':' ∷ (b':' ∷ [])

-- The class part of a `t_vm_context`.
pub record ClassContext : Type 0 where
  pub path : Text
  pub name : Text
  pub full : Text

-- `strstr(s, "::") == s`
abbrev pub is_absolute_name : Text → Bool
is_absolute_name [] = false
is_absolute_name (a ∷ []) = false
is_absolute_name (a ∷ (b ∷ s)) = a == b':' && b == b':'

-- `none` for a missing code frame.
unfoldable pub vm_context_absolute_namespace : Option ClassContext → Text → Text
vm_context_absolute_namespace codeframe class_name =
    if is_absolute_name class_name then class_name else elim codeframe [
      | none ↦ separator ++ class_name
      | some ctx ↦
          if text_eq ctx.full separator
          then separator ++ class_name
          else ctx.path ++ (separator ++ class_name)
    ]
