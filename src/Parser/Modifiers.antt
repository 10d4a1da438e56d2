-- ===== src/Parser/Modifiers.antt =====
-- The modifiers of classes, methods and properties in src/components/compiler/parser_helpers.c.
use saffire.Prelude.{
  ℕ, bit_and, bit_or, List, [], ◌∷◌, Run, ok, fatal_error, ◌>>=◌, class_visibility, abstract_body,
  no_visibility, private_abstract, many_visibilities, modifier_twice, abstract_final, Bool, ◌==◌,
  ◌&&◌, not, if◌then◌else◌,
}

-- `modifier` of src/components/compiler/saffire.y, and its value.
pub data Modifier : Type 0 where
  public protected private final abstract static : Modifier

unfoldable pub value : Modifier → ℕ
value public = 1
value protected = 2
value private = 4
value final = 8
value abstract = 16
value static = 32

abbrev pub mask_visibility : ℕ
mask_visibility = 7

unfoldable pub parser_mod_to_visibility : ℕ → ℕ
parser_mod_to_visibility modifiers =
    let m = bit_and modifiers mask_visibility in
    if m == value public
    then 0
    else if m == value protected
    then 1
    else if m == value private
    then 2
    else 0

abbrev has : ℕ → Modifier → ℕ → ℕ
has modifiers m flag = if bit_and modifiers (value m) == value m then flag else 0

unfoldable pub parser_mod_to_methodflags : ℕ → ℕ
parser_mod_to_methodflags modifiers =
    bit_or (bit_or (has modifiers static 1) (has modifiers abstract 2)) (has modifiers final 4)

unfoldable pub parser_validate_class_modifiers : ℕ → Run (Unit {0})
parser_validate_class_modifiers modifiers =
    if bit_and modifiers mask_visibility == 0 then ok tt else fatal_error class_visibility

-- Whether the body is the null node.
unfoldable pub parser_validate_abstract_method_body : ℕ → Bool → Run (Unit {0})
parser_validate_abstract_method_body modifiers is_null =
    if bit_and modifiers (value abstract) == 0
    then ok tt
    else if is_null
    then ok tt
    else fatal_error abstract_body

unfoldable pub parser_validate_method_modifiers : ℕ → Run (Unit {0})
parser_validate_method_modifiers modifiers =
    if bit_and modifiers mask_visibility == 0
    then fatal_error no_visibility
    else if bit_and modifiers 20 == 20
    then fatal_error private_abstract
    else ok tt

unfoldable pub parser_validate_property_modifiers : ℕ → Run (Unit {0})
parser_validate_property_modifiers modifiers =
    if bit_and modifiers mask_visibility == 0 then fatal_error no_visibility else ok tt

unfoldable pub parser_validate_flags : ℕ → ℕ → Run (Unit {0})
parser_validate_flags cur_flags new_flag =
    if not (bit_and cur_flags mask_visibility == 0) && not (bit_and new_flag mask_visibility == 0)
    then fatal_error many_visibilities
    else if not (bit_and cur_flags new_flag == 0)
    then fatal_error modifier_twice
    else if bit_and (bit_or cur_flags new_flag) 24 == 24
    then fatal_error abstract_final
    else ok tt

-- `modifier_list`: the flags so far, and the modifiers that follow.
unfoldable pub modifier_list : ℕ → List Modifier → Run ℕ
modifier_list flags [] = ok flags
modifier_list flags (m ∷ ms) = do
  _ ← parser_validate_flags flags (value m)
  modifier_list (bit_or flags (value m)) ms
