-- ===== src/Parser/Classes.antt =====
-- The classes and the constants that src/components/compiler/parser_helpers.c knows of.
use saffire.Prelude.{
  ℕ, Bool, true, false, none, some, List, [], ◌∷◌, ◌++◌, Text, Run, ok, undefined, fatal_error,
  not_writable, nested_class, class_defined, outside_class, no_active_class, text_eq, ◌||◌,
  get_elem?, set, length, if◌then◌else◌,
}
use saffire.Compiler.{
  Ast, Nodes, string_node, regex_node, identifier_node, numerical_node, null_node, nop_node,
  property_node, operator_node, comparison_node, assignment_node, bool_node, class_node,
  interface_node, attribute_node, group_node, tuple_node,
}
use saffire.Parser.{Class, ParserInfo, Check}

abbrev pub is_named : Text → List Text → Bool
is_named t [] = false
is_named t (x ∷ xs) = text_eq x t || is_named t xs

abbrev pub class_names : List Class → List Text
class_names [] = []
class_names (c ∷ cs) = c.name ∷ class_names cs

unfoldable pub new_class : ℕ → ℕ → Text → Ast → Nodes → Class
new_class lineno modifiers name extends implements = record {
  modifiers = modifiers;
  name = name;
  extends = extends;
  implements = implements;
  constants = [];
  line_start = lineno;
  line_end = 0;
}

unfoldable pub parser_init_class : ℕ → ℕ → Text → Ast → Nodes → Check
parser_init_class lineno modifiers name extends implements p =
    if p.in_class
    then fatal_error nested_class
    else if is_named name (class_names p.classes)
    then fatal_error class_defined
    else ok (record p {
      classes = p.classes ++ new_class lineno modifiers name extends implements ∷ [];
      active_class = some (length p.classes);
      in_class = true;
    })

-- The active class, of those that are known.
abbrev with_active : (ℕ → Class → Run ParserInfo) → Run ParserInfo → Check
with_active inside global p = elim p.active_class [
  | none ↦ global
  | some i ↦ elim (get_elem? p.classes i) [ none ↦ undefined | some c ↦ inside i c ]
]

unfoldable pub parser_fini_class : ℕ → Check
parser_fini_class lineno p =
    if p.in_class
    then with_active
        (λ i c. ok (record p {
          classes = set p.classes i (record c { line_end = lineno });
          active_class = none;
          in_class = false;
        }))
        (fatal_error no_active_class) p
    else fatal_error outside_class

-- The messages about a constant have operands, which `parser_error` hands on as a `va_list` where
-- `snprintf` wants them themselves.
unfoldable pub parser_validate_constant : Text → Check
parser_validate_constant name p =
    with_active
      (λ i c.
        if is_named name c.constants
        then undefined
        else ok (record p {
          classes = set p.classes i (record c { constants = c.constants ++ name ∷ [] });
        }))
      (if is_named name p.constants
        then undefined
        else ok (record p { constants = p.constants ++ name ∷ [] }))
      p

-- Whether a node is an `oprNode`. A data structure of the grammar has two operands, so none of them
-- is written to.
unfoldable pub is_opr : Ast → Bool
is_opr (string_node l s) = false
is_opr (regex_node l s) = false
is_opr (identifier_node l s) = false
is_opr (numerical_node l n) = false
is_opr (null_node l) = false
is_opr nop_node = false
is_opr (property_node l c p) = false
is_opr (operator_node l o a b) = false
is_opr (comparison_node l o a b) = false
is_opr (assignment_node l o a b) = false
is_opr (bool_node l o a b) = false
is_opr (class_node l m n e i b) = false
is_opr (interface_node l m n i b) = false
is_opr (attribute_node l v a n at) = false
is_opr (group_node ns) = false
is_opr (tuple_node l ns) = false
is_opr _ = true

unfoldable pub parser_write_check : Ast → Check
parser_write_check e p = if is_opr e then fatal_error not_writable else ok p
