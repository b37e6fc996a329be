-- ===== src/Argv/Tests.antt =====
-- util.h on a vector of three strings, the second of them empty.
use tiny_os_project.Prelude.{ℕ, ◌≡◌, ◌≤◌, refl, arith, some, List, [], ◌∷◌}
use tiny_os_project.Argv.{argvlen, argvpack, argscount, argvunpack}
use tiny_os_project.Argv.Pack.{Strings, argvpack-argvlen, argvunpack-argvpack}
use tiny_os_project.Argv.Program.{pointer_size, behind, execute, exec_wrapper, exec_wrapper-execute}

abbrev three_strings : List (List ℕ)
three_strings = (65 ∷ 66 ∷ []) ∷ [] ∷ (67 ∷ []) ∷ []

abbrev program : List ℕ
program = 1 ∷ 2 ∷ 3 ∷ 4 ∷ 5 ∷ 6 ∷ 7 ∷ 8 ∷ []

abbrev blank : ℕ → ℕ
blank i = 9

argvpack-argvlen_example :
    ((argvpack blank three_strings).0 ≡ argvlen three_strings)
    × ((i : ℕ) → argvlen three_strings ≤ i → (argvpack blank three_strings).1 i ≡ 9)
argvpack-argvlen_example = argvpack-argvlen blank three_strings refl

argvunpack-argvpack_example :
    let (argl, args') = argvpack blank three_strings in
    (argscount argl args' ≡ 3)
    × ((offsets : List ℕ) × (argvunpack 7 (argscount argl args') args' ≡ some (offsets, argl))
        × Strings args' offsets three_strings)
unfolding argvlen
argvunpack-argvpack_example = argvunpack-argvpack blank three_strings refl 7 (omega arith)

exec_wrapper-execute_example :
    let (argl, args) = execute blank program three_strings in
    (offsets : List ℕ) × (exec_wrapper 8 argl args ≡ some (program, 3, offsets))
    × Strings (behind pointer_size args) offsets three_strings
unfolding argvlen
exec_wrapper-execute_example =
    exec_wrapper-execute blank program three_strings refl refl 8 (omega arith)
