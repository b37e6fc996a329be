-- ===== src/Argv/Program.antt =====
-- tinyoslib.c, `Execute`, the main task that it gives the new process, and `ParseProcInfo`. A program is
-- the 8 bytes of its address. A buffer is a map from offsets to bytes.
use tiny_os_project.Prelude.{
  ℕ, zero, suc, ◌+◌, ◌-◌, ◌≤◌, ◌<◌, ◌≡◌, refl, ap, ap₂, ◌∙◌, subst, Bool, true, false, not, Option,
  none, some, List, [], ◌∷◌, length, ltb, arith, if◌then◌else◌, update, fun_ext,
}
use tiny_os_project.Prelude.Int.{ℤ, pos, negsuc, minus_one}
use tiny_os_project.Proc.Info.{procinfo_max_args_size}
use tiny_os_project.Argv.{argvlen, argvpack, argscount, argvunpack}
use tiny_os_project.Argv.Pack.{all_text, Strings, argvpack-argvlen, argvunpack-argvpack}

abbrev pub pointer_size : ℕ
pointer_size = 8

-- `memcpy` of a list of bytes to the offset `a`, and of `n` bytes from it.
abbrev pub put_bytes : (a : ℕ) → List ℕ → (ℕ → ℕ) → ℕ → ℕ
put_bytes a [] args = args
put_bytes a (c ∷ l) args = put_bytes (a + 1) l (update args a c)

abbrev pub get_bytes : (a n : ℕ) → (ℕ → ℕ) → List ℕ
get_bytes a zero args = []
get_bytes a (suc n) args = args a ∷ get_bytes (a + 1) n args

-- `args + k`, and the buffer in which the bytes from there on are those of another.
abbrev pub behind : (k : ℕ) → (ℕ → ℕ) → ℕ → ℕ
behind k args i = args (k + i)

abbrev pub with_behind : (k : ℕ) → (ℕ → ℕ) → (ℕ → ℕ) → ℕ → ℕ
with_behind k args rest i = if ltb i k then args i else rest (i - k)

-- The length and the buffer that `Execute` passes to `Exec`; `blank` is what the new array holds.
pub execute : (blank : ℕ → ℕ) → (prog : List ℕ) → List (List ℕ) → ℕ × (ℕ → ℕ)
execute blank prog argv =
    let args = put_bytes 0 prog blank in
    (
      argvlen argv + pointer_size,
      with_behind pointer_size args (argvpack (behind pointer_size args) argv).1,
    )

-- `argl` is at least 8 here and below, as `Execute` makes it.
-- The call that `exec_wrapper` makes: the program, `argc`, and the offsets in the vector behind the
-- program. `none`: the fuel of `argvunpack` ran out.
pub exec_wrapper : (fuel argl : ℕ) → (ℕ → ℕ) → Option (List ℕ × ℕ × List ℕ)
exec_wrapper fuel argl args =
    let vector = behind pointer_size args in
    let argc = argscount (argl - pointer_size) vector in
    elim (argvunpack fuel argc vector) [
      | none ↦ none
      | some (offsets, end) ↦ some (get_bytes 0 pointer_size args, argc, offsets)
    ]

-- `argc` is compared as a `size_t`.
abbrev pub at_most : ℤ → ℕ → ℕ
at_most (pos argc) n = if ltb n argc then n else argc
at_most (negsuc x) n = n

-- `ParseProcInfo` of a process with the main task `exec_wrapper` or another: the result, what `*prog` is
-- then, for a `prog` that is not NULL and leads to `old`, and the offsets that `argv` receives. `memcpy`
-- writes into the parameter `prog`, not where it leads.
pub parse_proc_info :
    (fuel : ℕ) (wrapped : Bool) (argl : ℕ) (args : ℕ → ℕ) (old : Option (List ℕ)) (argc : ℤ)
    (has_argv : Bool)
    → Option (ℤ × Option (List ℕ) × List ℕ)
parse_proc_info fuel wrapped argl args old argc has_argv =
    let vector = behind pointer_size args in
    let n = argscount (argl - pointer_size) vector in
    if not wrapped
    then some (minus_one, old, [])
    else if ltb procinfo_max_args_size argl
    then some (minus_one, old, [])
    else if has_argv
    then elim (argvunpack fuel (at_most argc n) vector) [
      | none ↦ none
      | some (offsets, end) ↦ some (pos n, old, offsets)
    ]
    else some (pos n, old, [])

behind-with_behind : (k : ℕ) (args rest : ℕ → ℕ) → behind k (with_behind k args rest) ≡ rest
behind-with_behind k args rest = fun_ext (λ i. ground arith)

put_below : (l : List ℕ) (a i : ℕ) (args : ℕ → ℕ) → i < a → put_bytes a l args i ≡ args i
put_below [] a i args h = refl
put_below (c ∷ l) a i args h =
    put_below l (a + 1) i (update args a c) (omega arith) ∙ ground (arith, h)

get-put :
    (l : List ℕ) (a : ℕ) (blank args : ℕ → ℕ)
    → ((i : ℕ) → i < a + length l → args i ≡ put_bytes a l blank i)
    → get_bytes a (length l) args ≡ l
get-put [] a blank args same = refl
get-put (c ∷ l) a blank args same =
    let first : args a ≡ c =
      same a (omega arith)
      ∙ put_below l (a + 1) a (update blank a c) (omega arith)
      ∙ ground arith in
    rw (first, get-put l (a + 1) (update blank a c) args (λ i h. same i (omega (arith, h)))) refl

-- The two parsers of a buffer whose vector is known.
module _ (fuel argl : ℕ) (args : ℕ → ℕ) (offsets : List ℕ) (end : ℕ) where
  exec_wrapper_lem :
      argvunpack fuel
          (argscount (argl - pointer_size) (behind pointer_size args))
          (behind pointer_size args)
        ≡ some (offsets, end)
      → exec_wrapper fuel argl args
        ≡ some (
          get_bytes 0 pointer_size args,
          argscount (argl - pointer_size) (behind pointer_size args),
          offsets,
        )
  unfolding exec_wrapper
  exec_wrapper_lem run = rw (run, exec_wrapper) refl

  parse_proc_info_lem :
      (old : Option (List ℕ)) (argc : ℕ)
      → argvunpack fuel
          (argscount (argl - pointer_size) (behind pointer_size args))
          (behind pointer_size args)
        ≡ some (offsets, end)
      → argscount (argl - pointer_size) (behind pointer_size args) ≤ argc
      → argl ≤ procinfo_max_args_size
      → parse_proc_info fuel true argl args old (pos argc) true
        ≡ some (pos (argscount (argl - pointer_size) (behind pointer_size args)), old, offsets)
  unfolding parse_proc_info
  parse_proc_info_lem old argc run room short =
      let fits : ltb procinfo_max_args_size argl ≡ false = ground (arith, short) in
      let all : at_most (pos argc) (argscount (argl - pointer_size) (behind pointer_size args))
          ≡ argscount (argl - pointer_size) (behind pointer_size args) =
        ground (arith, room) in
      rw (fits, all, run) refl

module _ (blank : ℕ → ℕ) (prog : List ℕ) (argv : List (List ℕ)) (size : length prog ≡ pointer_size)
    (text : all_text argv ≡ true) (fuel : ℕ) (enough : argvlen argv < fuel) where
  program_lem : get_bytes 0 pointer_size (execute blank prog argv).1 ≡ prog
  unfolding execute
  program_lem =
      subst (λ m. get_bytes 0 m (execute blank prog argv).1 ≡ prog) size
        (get-put prog 0 blank (execute blank prog argv).1 (λ i h. ground (arith, h, size)))

  vector_lem :
      behind pointer_size (execute blank prog argv).1
      ≡ (argvpack (behind pointer_size (put_bytes 0 prog blank)) argv).1
  unfolding execute
  vector_lem = behind-with_behind pointer_size (put_bytes 0 prog blank) _

  vector_size :
      (execute blank prog argv).0 - pointer_size
      ≡ (argvpack (behind pointer_size (put_bytes 0 prog blank)) argv).0
  unfolding execute
  vector_size =
      omega (arith, (argvpack-argvlen (behind pointer_size (put_bytes 0 prog blank)) argv text).0)

  vector_read :
      let (argl, args) = execute blank prog argv in
      (offsets : List ℕ) × (end : ℕ) × (argscount (argl - pointer_size) (behind pointer_size args)
        ≡ length argv)
      × (argvunpack fuel
            (argscount (argl - pointer_size) (behind pointer_size args))
            (behind pointer_size args)
          ≡ some (offsets, end))
      × Strings (behind pointer_size args) offsets argv
  vector_read =
      let base = behind pointer_size (put_bytes 0 prog blank) in
      let (strings, (offsets, run, h)) = argvunpack-argvpack base argv text fuel enough in
      (
        offsets,
        (argvpack base argv).0,
        rw (vector_size, vector_lem) strings,
        rw (vector_size, vector_lem) run,
        rw vector_lem h,
      )

  -- For a program's address of 8 bytes, strings without a zero byte inside and more fuel than their
  -- packed length: on the buffer that `Execute` makes, `exec_wrapper` calls this program with as
  -- many strings, and the strings stand in the buffer at the offsets that it passes, each with its
  -- zero, in order.
  pub exec_wrapper-execute :
      let (argl, args) = execute blank prog argv in
      (offsets : List ℕ) × (exec_wrapper fuel argl args ≡ some (prog, length argv, offsets))
      × Strings (behind pointer_size args) offsets argv
  exec_wrapper-execute =
      let (offsets, end, found, run, h) = vector_read in
      (
        offsets,
        exec_wrapper_lem fuel _ _ offsets end run
            ∙ ap₂ (λ p n. some (p, n, offsets)) program_lem found,
        h,
      )

  -- On a buffer that `Execute` makes, of at most 128 bytes, `ParseProcInfo` with a vector that is long
  -- enough returns the number of strings and fills the vector with them, and leaves `*prog` as it was.
  pub parse_proc_info-execute :
      (old : Option (List ℕ)) (argc : ℕ)
      → length argv ≤ argc
      → (execute blank prog argv).0 ≤ procinfo_max_args_size
      → let (argl, args) = execute blank prog argv in
        (offsets : List ℕ) × (parse_proc_info fuel true argl args old (pos argc) true
          ≡ some (pos (length argv), old, offsets))
        × Strings (behind pointer_size args) offsets argv
  parse_proc_info-execute old argc room short =
      let (offsets, end, found, run, h) = vector_read in
      (
        offsets,
        parse_proc_info_lem fuel _ _ offsets end old argc run (omega (arith, found, room)) short
            ∙ ap (λ n. some (pos n, old, offsets)) found,
        h,
      )
