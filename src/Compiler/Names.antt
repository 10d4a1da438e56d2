-- ===== src/Compiler/Names.antt =====
-- The texts of src/components/compiler/ast_to_asm.c, and numbers printed by `sprintf`.
use saffire.Prelude.{
  ℕ, zero, suc, ◌+◌, ◌-◌, ◌/◌, ◌%◌, [], ◌∷◌, ◌++◌, Text, length, replicate, ltb, if◌then◌else◌,
}

abbrev pub and_text : Text
and_text = b'a' ∷ b'n' ∷ b'd' ∷ b'_' ∷ []

abbrev pub or_text : Text
or_text = b'o' ∷ b'r' ∷ b'_' ∷ []

abbrev pub frame_text : Text
frame_text = b'f' ∷ b'r' ∷ b'a' ∷ b'm' ∷ b'e' ∷ b'_' ∷ []

abbrev pub if_text : Text
if_text = b'i' ∷ b'f' ∷ b'_' ∷ []

abbrev pub dowhile_text : Text
dowhile_text = b'd' ∷ b'o' ∷ b'w' ∷ b'h' ∷ b'i' ∷ b'l' ∷ b'e' ∷ b'_' ∷ []

abbrev pub while_text : Text
while_text = b'w' ∷ b'h' ∷ b'i' ∷ b'l' ∷ b'e' ∷ b'_' ∷ []

abbrev pub for_text : Text
for_text = b'f' ∷ b'o' ∷ b'r' ∷ b'_' ∷ []

abbrev pub foreach_text : Text
foreach_text = b'f' ∷ b'o' ∷ b'r' ∷ b'e' ∷ b'a' ∷ b'c' ∷ b'h' ∷ b'_' ∷ []

abbrev pub try_text : Text
try_text = b't' ∷ b'r' ∷ b'y' ∷ b'_' ∷ []

abbrev pub switch_text : Text
switch_text = b's' ∷ b'w' ∷ b'i' ∷ b't' ∷ b'c' ∷ b'h' ∷ b'_' ∷ []

abbrev pub coalesce_text : Text
coalesce_text = b'c' ∷ b'o' ∷ b'a' ∷ b'l' ∷ b'e' ∷ b's' ∷ b'c' ∷ b'e' ∷ b'_' ∷ []

abbrev pub ternaryif_text : Text
ternaryif_text = b't' ∷ b'e' ∷ b'r' ∷ b'n' ∷ b'a' ∷ b'r' ∷ b'y' ∷ b'i' ∷ b'f' ∷ b'_' ∷ []

abbrev pub userlabel_text : Text
userlabel_text = b'u' ∷ b's' ∷ b'e' ∷ b'r' ∷ b'l' ∷ b'a' ∷ b'b' ∷ b'e' ∷ b'l' ∷ b'_' ∷ []

abbrev pub end_suffix : Text
end_suffix = b'_' ∷ b'e' ∷ b'n' ∷ b'd' ∷ []

abbrev pub pre_end_suffix : Text
pre_end_suffix = b'_' ∷ b'p' ∷ b'r' ∷ b'e' ∷ b'_' ∷ b'e' ∷ b'n' ∷ b'd' ∷ []

abbrev pub else_suffix : Text
else_suffix = b'_' ∷ b'e' ∷ b'l' ∷ b's' ∷ b'e' ∷ []

abbrev pub pre_else_suffix : Text
pre_else_suffix = b'_' ∷ b'p' ∷ b'r' ∷ b'e' ∷ b'_' ∷ b'e' ∷ b'l' ∷ b's' ∷ b'e' ∷ []

abbrev pub cmp_suffix : Text
cmp_suffix = b'_' ∷ b'c' ∷ b'm' ∷ b'p' ∷ []

abbrev pub incdec_suffix : Text
incdec_suffix = b'_' ∷ b'i' ∷ b'n' ∷ b'c' ∷ b'd' ∷ b'e' ∷ b'c' ∷ []

abbrev pub init_suffix : Text
init_suffix = b'_' ∷ b'i' ∷ b'n' ∷ b'i' ∷ b't' ∷ []

abbrev pub test_suffix : Text
test_suffix = b'_' ∷ b't' ∷ b'e' ∷ b's' ∷ b't' ∷ []

abbrev pub loop_suffix : Text
loop_suffix = b'_' ∷ b'l' ∷ b'o' ∷ b'o' ∷ b'p' ∷ []

abbrev pub finally_suffix : Text
finally_suffix = b'_' ∷ b'f' ∷ b'i' ∷ b'n' ∷ b'a' ∷ b'l' ∷ b'l' ∷ b'y' ∷ []

abbrev pub end_try_suffix : Text
end_try_suffix = b'_' ∷ b'e' ∷ b'n' ∷ b'd' ∷ b'_' ∷ b't' ∷ b'r' ∷ b'y' ∷ []

abbrev pub end_finally_suffix : Text
end_finally_suffix =
    b'_' ∷ b'e' ∷ b'n' ∷ b'd' ∷ b'_' ∷ b'f' ∷ b'i' ∷ b'n' ∷ b'a' ∷ b'l' ∷ b'l' ∷ b'y' ∷ []

abbrev pub match_suffix : Text
match_suffix = b'_' ∷ b'm' ∷ b'a' ∷ b't' ∷ b'c' ∷ b'h' ∷ b'_' ∷ []

abbrev pub nomatch_suffix : Text
nomatch_suffix = b'_' ∷ b'n' ∷ b'o' ∷ b'm' ∷ b'a' ∷ b't' ∷ b'c' ∷ b'h' ∷ b'_' ∷ []

abbrev pub begin_suffix : Text
begin_suffix = b'_' ∷ b'b' ∷ b'e' ∷ b'g' ∷ b'i' ∷ b'n' ∷ []

abbrev pub default_suffix : Text
default_suffix = b'_' ∷ b'd' ∷ b'e' ∷ b'f' ∷ b'a' ∷ b'u' ∷ b'l' ∷ b't' ∷ []

abbrev pub case_suffix : Text
case_suffix = b'_' ∷ b'c' ∷ b'a' ∷ b's' ∷ b'e' ∷ b'_' ∷ []

abbrev pub pre_suffix : Text
pre_suffix = b'_' ∷ b'p' ∷ b'r' ∷ b'e' ∷ []

abbrev pub body_suffix : Text
body_suffix = b'_' ∷ b'b' ∷ b'o' ∷ b'd' ∷ b'y' ∷ []

abbrev pub null_name : Text
null_name = b'n' ∷ b'u' ∷ b'l' ∷ b'l' ∷ []

abbrev pub self_name : Text
self_name = b's' ∷ b'e' ∷ b'l' ∷ b'f' ∷ []

abbrev pub parent_name : Text
parent_name = b'p' ∷ b'a' ∷ b'r' ∷ b'e' ∷ b'n' ∷ b't' ∷ []

abbrev pub main_name : Text
main_name = b'm' ∷ b'a' ∷ b'i' ∷ b'n' ∷ []

abbrev pub true_name : Text
true_name = b't' ∷ b'r' ∷ b'u' ∷ b'e' ∷ []

-- `%d`, for a number that has at most `fuel` digits.
unfoldable pub digits : ℕ → ℕ → Text
digits zero n = []
digits (suc fuel) n =
    let front = digits fuel (n / 10) in
    if ltb n 10 then (b'0' + n) ∷ [] else front ++ (b'0' + n % 10) ∷ []

unfoldable pub decimal : ℕ → Text
decimal n = digits (n + 1) n

-- `%03d`
unfoldable pub decimal3 : ℕ → Text
decimal3 n = let t = decimal n in replicate (3 - length t) b'0' ++ t

-- `sprintf(label, "prefix_%03d_suffix", n)`
unfoldable pub label : Text → ℕ → Text → Text
label prefix n suffix = prefix ++ (decimal3 n ++ suffix)
