-- ===== src/Context/Tests.antt =====
-- The class path `::io::file`, and the theorems about class paths at it.
use saffire.Prelude.{◌≡◌, ◌++◌, [], ◌∷◌, Text, ok, arith}
use saffire.Context.{separator, vm_context_strip_path, vm_context_strip_class}
use saffire.Context.Strip.{IsPlain, vm_context_strip}

abbrev io_path : Text
io_path = separator ++ b'i' ∷ (b'o' ∷ [])

abbrev file_name : Text
file_name = b'f' ∷ (b'e' ∷ [])

file_name-IsPlain : IsPlain file_name
file_name-IsPlain = ((λ e. omega (arith, e)), ((λ e. omega (arith, e)), tt))

vm_context_strip_example :
    (vm_context_strip_path (io_path ++ (separator ++ file_name)) ≡ ok io_path)
    × (vm_context_strip_class (io_path ++ (separator ++ file_name)) ≡ file_name)
vm_context_strip_example = vm_context_strip io_path file_name file_name-IsPlain
