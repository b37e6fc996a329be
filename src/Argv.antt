-- ===== src/Argv.antt =====
-- util.h, argument vectors packed into one buffer. A C string is the list of its bytes; a zero byte ends
-- it before the end of the list. A buffer is a map from offsets to bytes.
pub mod Pack
pub mod Program
mod Tests
use tiny_os_project.Prelude.{
  ℕ, zero, suc, ◌+◌, Option, none, some, List, [], ◌∷◌, length, ◌==◌, if◌then◌else◌, update,
}

pub strlen : List ℕ → ℕ
strlen [] = 0
strlen (c ∷ s) = if c == 0 then 0 else strlen s + 1

-- The loop of `argvlen`, with the sum so far.
pub argvlen_loop : ℕ → List (List ℕ) → ℕ
unfolding strlen
argvlen_loop l [] = l
argvlen_loop l (s ∷ argv) = argvlen_loop (l + (strlen s + 1)) argv

pub argvlen : List (List ℕ) → ℕ
unfolding argvlen_loop
argvlen argv = argvlen_loop 0 argv

-- `while (*pos++ = *s++) argl++`, with the position, the count and the buffer.
pub copy_string : List ℕ → (pos argl : ℕ) → (ℕ → ℕ) → ℕ × ℕ × (ℕ → ℕ)
copy_string [] pos argl args = (pos + 1, argl, update args pos 0)
copy_string (c ∷ s) pos argl args =
    let rest = copy_string s (pos + 1) (argl + 1) (update args pos c) in
    if c == 0 then (pos + 1, argl, update args pos 0) else rest

pub pack_loop : List (List ℕ) → (pos argl : ℕ) → (ℕ → ℕ) → ℕ × (ℕ → ℕ)
unfolding copy_string
pack_loop [] pos argl args = (argl, args)
pack_loop (s ∷ argv) pos argl args =
    let (pos', argl', args') = copy_string s pos argl args in pack_loop argv pos' argl' args'

-- The result, and the buffer. `argl` is taken to fit an `int`.
pub argvpack : (ℕ → ℕ) → List (List ℕ) → ℕ × (ℕ → ℕ)
unfolding pack_loop
argvpack args argv = let (argl, args') = pack_loop argv 0 0 args in (argl + length argv, args')

-- The loop of `argscount`, with `left` for `argl - i`.
pub count_loop : (left i n : ℕ) → (ℕ → ℕ) → ℕ
count_loop zero i n a = n
count_loop (suc left) i n a = count_loop left (i + 1) (if a i == 0 then n + 1 else n) a

pub argscount : ℕ → (ℕ → ℕ) → ℕ
unfolding count_loop
argscount argl args = count_loop argl 0 0 args

-- `while (*a++)`, on fuel; the result is the offset behind the zero. `none`: the fuel ran out.
pub skip : (fuel a : ℕ) → (ℕ → ℕ) → Option ℕ
skip zero a args = none
skip (suc fuel) a args =
    let rest = skip fuel (a + 1) args in if args a == 0 then some (a + 1) else rest

-- The offsets that `argv` receives, with the offset returned.
pub unpack_loop : (fuel argc a : ℕ) → (ℕ → ℕ) → Option (List ℕ × ℕ)
unfolding skip
unpack_loop fuel zero a args = some ([], a)
unpack_loop fuel (suc argc) a args = elim (skip fuel a args) [
  | none ↦ none
  | some next ↦ elim (unpack_loop fuel argc next args) [
    | none ↦ none
    | some (argv, end) ↦ some (a ∷ argv, end)
  ]
]

pub argvunpack : (fuel argc : ℕ) → (ℕ → ℕ) → Option (List ℕ × ℕ)
unfolding unpack_loop
argvunpack fuel argc args = unpack_loop fuel argc 0 args
