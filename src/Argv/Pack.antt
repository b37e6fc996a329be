-- ===== src/Argv/Pack.antt =====
-- The round trip of an argument vector through its buffer.
use tiny_os_project.Prelude.{
  ℕ, zero, suc, ◌+◌, ◌≡◌, ◌≤◌, ◌<◌, refl, arith, Bool, true, false, ◌&&◌, not, some, List, [], ◌∷◌,
  ◌++◌, length, length-append, append_assoc, count, count-append, ◌==◌, if◌then◌else◌, update, ◌∙◌,
  ap, sym, subst,
}
use tiny_os_project.Argv.{
  strlen, argvlen_loop, argvlen, copy_string, pack_loop, argvpack, count_loop, argscount, skip,
  unpack_loop, argvunpack,
}

-- No byte of the string is zero.
abbrev pub is_text : List ℕ → Bool
is_text [] = true
is_text (c ∷ s) = not (c == 0) && is_text s

abbrev pub all_text : List (List ℕ) → Bool
all_text [] = true
all_text (s ∷ argv) = is_text s && all_text argv

-- The strings with their terminating zeros, one behind the other.
abbrev pub flat : List (List ℕ) → List ℕ
flat [] = []
flat (s ∷ argv) = s ++ 0 ∷ flat argv

-- The buffer holds these bytes from the offset `a` on.
abbrev pub At : (ℕ → ℕ) → ℕ → List ℕ → Type 0
At args a [] = Unit {0}
At args a (x ∷ l) = (args a ≡ x) × At args (a + 1) l

-- At each offset of the list starts the string in the same place, with its zero.
abbrev pub Strings : (ℕ → ℕ) → List ℕ → List (List ℕ) → Type 0
Strings args [] [] = Unit {0}
Strings args (a ∷ offsets) (s ∷ argv) = At args a (s ++ 0 ∷ []) × Strings args offsets argv
Strings args offsets argv = ⊥

strlen-length : (s : List ℕ) → is_text s ≡ true → strlen s ≡ length s
unfolding strlen
strlen-length [] h = refl
strlen-length (c ∷ s) h = ground (arith, strlen-length s)

argvlen_loop-length :
    (n : ℕ) (argv : List (List ℕ))
    → all_text argv ≡ true
    → argvlen_loop n argv ≡ n + length (flat argv)
unfolding argvlen_loop
argvlen_loop-length n [] h = omega arith
argvlen_loop-length n (s ∷ argv) h = ground (
  arith,
  strlen-length s,
  argvlen_loop-length (n + (strlen s + 1)) argv,
  length-append s (0 ∷ flat argv),
)

-- What copying does: the bytes stand at the position, and nothing below it has changed.
record Copied (l : List ℕ) (pos : ℕ) (args args' : ℕ → ℕ) : Type 0 where
  there : At args' pos l
  below : (i : ℕ) → i < pos → args' i ≡ args i
  above : (i : ℕ) → pos + length l ≤ i → args' i ≡ args i

At-append :
    (args : ℕ → ℕ) (a : ℕ) (l m : List ℕ)
    → At args a l
    → At args (a + length l) m
    → At args a (l ++ m)
At-append args a [] m h k = rw at_start at k
  where
    at_start : a + 0 ≡ a
    at_start = omega arith
At-append args a (x ∷ l) m (h, hs) k =
    let e : a + suc (length l) ≡ (a + 1) + length l = omega arith in
    (h, At-append args (a + 1) l m hs (rw e at k))

-- Bytes stay where they are when the buffer changes behind them only.
At-kept :
    (args args' : ℕ → ℕ) (a : ℕ) (l : List ℕ)
    → ((i : ℕ) → i < a + length l → args' i ≡ args i)
    → At args a l
    → At args' a l
At-kept args args' a [] same h = tt
At-kept args args' a (x ∷ l) same (h, hs) =
    (same a (omega arith) ∙ h, At-kept args args' (a + 1) l (λ i k. same i (omega arith)) hs)

At-prefix : (args : ℕ → ℕ) (a : ℕ) (l m : List ℕ) → At args a (l ++ m) → At args a l
At-prefix args a [] m h = tt
At-prefix args a (x ∷ l) m (h, hs) = (h, At-prefix args (a + 1) l m hs)

At-suffix : (args : ℕ → ℕ) (a : ℕ) (l m : List ℕ) → At args a (l ++ m) → At args (a + length l) m
At-suffix args a [] m h = let e : a + 0 ≡ a = omega arith in rw e h
At-suffix args a (x ∷ l) m (h, hs) =
    let e : a + suc (length l) ≡ (a + 1) + length l = omega arith in
    rw e (At-suffix args (a + 1) l m hs)

copy_string-Copied :
    (s : List ℕ) (pos argl : ℕ) (args : ℕ → ℕ)
    → is_text s ≡ true
    → let (pos', argl', args') = copy_string s pos argl args in
      (pos' ≡ pos + (length s + 1))
      × (argl' ≡ argl + length s)
      × Copied (s ++ 0 ∷ []) pos args args'
unfolding copy_string
copy_string-Copied [] pos argl args h = (
  omega arith,
  omega arith,
  record { there = (ground arith, tt); below = λ i k. ground arith; above = λ i k. ground arith },
)
copy_string-Copied (c ∷ s) pos argl args h =
    let (e, l, k) =
      copy_string-Copied s (pos + 1) (argl + 1) (update args pos c) (ground (arith, h)) in
    let nonzero : (c == 0) ≡ false = ground (arith, h) in
    rw nonzero (
      omega (arith, e),
      omega (arith, l),
      record {
        there = (k.below pos (omega arith) ∙ ground arith, k.there);
        below = λ i h. k.below i (omega arith) ∙ ground arith;
        above = λ i h. k.above i (omega arith) ∙ ground arith;
      },
    )

At-string :
    (args : ℕ → ℕ) (pos : ℕ) (s rest : List ℕ)
    → At args pos (s ++ 0 ∷ [])
    → At args (pos + (length s + 1)) rest
    → At args pos (s ++ 0 ∷ rest)
At-string args pos s rest h k =
    let size : length (s ++ 0 ∷ []) ≡ length s + 1 = length-append s (0 ∷ []) in
    rw (append_assoc s (0 ∷ []) rest) at (At-append args pos (s ++ 0 ∷ []) rest h (rw size k))

pack_loop-Copied :
    (argv : List (List ℕ)) (pos argl : ℕ) (args : ℕ → ℕ)
    → all_text argv ≡ true
    → let (argl', args') = pack_loop argv pos argl args in
      (argl' + length argv ≡ argl + length (flat argv)) × Copied (flat argv) pos args args'
unfolding pack_loop
pack_loop-Copied [] pos argl args h =
    (refl, record { there = tt; below = λ i k. refl; above = λ i k. refl })
pack_loop-Copied (s ∷ argv) pos argl args h =
    let (pos', argl', args') = copy_string s pos argl args in
    let (e, l, k) = copy_string-Copied s pos argl args (ground (arith, h)) in
    let (n, m) = pack_loop-Copied argv pos' argl' args' (ground (arith, h)) in
    let size = length-append s (0 ∷ flat argv) in
    (
      omega (arith, n, l, size),
      record {
        there =
            let size1 = length-append s (0 ∷ []) in
            At-string (pack_loop argv pos' argl' args').1 pos s (flat argv)
              (At-kept args' (pack_loop argv pos' argl' args').1 pos (s ++ 0 ∷ [])
                (λ i q. m.below i (omega (arith, e, size1))) k.there)
              (subst (λ p. At (pack_loop argv pos' argl' args').1 p (flat argv)) e m.there);
        below = λ i q. m.below i (omega (arith, e)) ∙ k.below i q;
        above = λ i q.
            m.above i (omega (arith, e, size))
            ∙ k.above i (omega (arith, size, length-append s (0 ∷ [])));
      },
    )

skip-string :
    (fuel a : ℕ) (s : List ℕ) (args : ℕ → ℕ)
    → is_text s ≡ true
    → length s < fuel
    → At args a (s ++ 0 ∷ [])
    → skip fuel a args ≡ some (a + (length s + 1))
unfolding skip
skip-string zero a s args t f h = absurd (omega arith)
skip-string (suc fuel) a [] args t f (z, h) = ground (arith, z)
skip-string (suc fuel) a (c ∷ s) args t f (z, h) =
    let rest = skip-string fuel (a + 1) s args (ground (arith, t)) (omega arith) h in
    ground (arith, rest, z, t)

unpack_loop-cons :
    (fuel argc a next end : ℕ) (offsets : List ℕ) (args : ℕ → ℕ)
    → skip fuel a args ≡ some next
    → unpack_loop fuel argc next args ≡ some (offsets, end)
    → unpack_loop fuel (suc argc) a args ≡ some (a ∷ offsets, end)
unfolding unpack_loop
unpack_loop-cons fuel argc a next end offsets args e f = rw (e, unpack_loop, f) refl

unpack_loop-Strings :
    (fuel a : ℕ) (argv : List (List ℕ)) (args : ℕ → ℕ)
    → all_text argv ≡ true
    → length (flat argv) < fuel
    → At args a (flat argv)
    → (offsets : List ℕ) × (unpack_loop fuel (length argv) a args
        ≡ some (offsets, a + length (flat argv)))
      × Strings args offsets argv
unfolding unpack_loop
unpack_loop-Strings fuel a [] args t f h = ([], ground arith, tt)
unpack_loop-Strings fuel a (s ∷ argv) args t f h =
    let size = length-append s (0 ∷ flat argv) in
    let whole : At args a ((s ++ 0 ∷ []) ++ flat argv) =
      rw (append_assoc s (0 ∷ []) (flat argv)) h in
    let size1 : length (s ++ 0 ∷ []) ≡ length s + 1 = length-append s (0 ∷ []) in
    let here = At-prefix args a (s ++ 0 ∷ []) (flat argv) whole in
    let (offsets, run, strings) =
      unpack_loop-Strings fuel (a + (length s + 1)) argv args (ground (arith, t))
        (omega (arith, size)) (rw size1 at (At-suffix args a (s ++ 0 ∷ []) (flat argv) whole)) in
    let end : (a + (length s + 1)) + length (flat argv) ≡ a + length (s ++ 0 ∷ flat argv) =
      omega (arith, size) in
    (
      a ∷ offsets,
      rw end at (
          unpack_loop-cons fuel (length argv) a (a + (length s + 1)) _ offsets args
            (skip-string fuel a s args (ground (arith, t)) (omega (arith, size)) here) run),
      (here, strings),
    )

count_loop-count :
    (i n : ℕ) (l : List ℕ) (args : ℕ → ℕ)
    → At args i l
    → count_loop (length l) i n args ≡ n + count 0 l
unfolding count_loop
count_loop-count i n [] args h = omega arith
count_loop-count i n (x ∷ l) args (h, hs) =
    ground (arith, h, count_loop-count (i + 1) (if args i == 0 then n + 1 else n) l args hs)

count-text : (s : List ℕ) → is_text s ≡ true → count 0 s ≡ 0
count-text [] h = refl
count-text (c ∷ s) h = ground (arith, count-text s)

count-flat : (argv : List (List ℕ)) → all_text argv ≡ true → count 0 (flat argv) ≡ length argv
count-flat [] h = refl
count-flat (s ∷ argv) h =
    ground (arith, count-text s, count-flat argv, count-append 0 s (0 ∷ flat argv))

module _ (args : ℕ → ℕ) (argv : List (List ℕ)) (text : all_text argv ≡ true) where
  packed : (argvpack args argv).0 ≡ length (flat argv)
  unfolding argvpack
  packed = (pack_loop-Copied argv 0 0 args text).0 ∙ omega arith

  -- For strings without a zero byte inside, `argvpack` returns the length that `argvlen` computes,
  -- and writes no byte of the buffer at or behind it.
  pub argvpack-argvlen :
      ((argvpack args argv).0 ≡ argvlen argv)
      × ((i : ℕ) → argvlen argv ≤ i → (argvpack args argv).1 i ≡ args i)
  unfolding argvpack argvlen
  argvpack-argvlen = (
    packed ∙ sym (argvlen_loop-length 0 argv text ∙ omega arith),
    λ i h.
        (pack_loop-Copied argv 0 0 args text).1.above i
          (omega (arith, argvlen_loop-length 0 argv text)),
  )

  -- For strings without a zero byte inside and more fuel than the packed length: the buffer that
  -- `argvpack` fills has, for `argscount`, as many strings as were packed, and `argvunpack` of that
  -- many ends behind the packed bytes with one offset for each string, at which that string stands
  -- in the buffer with its zero, in order.
  pub argvunpack-argvpack :
      (fuel : ℕ)
      → argvlen argv < fuel
      → let (argl, args') = argvpack args argv in
        (argscount argl args' ≡ length argv)
        × ((offsets : List ℕ) × (argvunpack fuel (argscount argl args') args'
              ≡ some (offsets, argl))
            × Strings args' offsets argv)
  unfolding argvpack argvunpack argscount argvlen
  argvunpack-argvpack fuel enough =
      let (argl, args') = argvpack args argv in
      let k = (pack_loop-Copied argv 0 0 args text).1 in
      let size = argvlen_loop-length 0 argv text in
      let strings : argscount argl args' ≡ length argv =
        ap (λ n. count_loop n 0 0 args') packed
        ∙ (count_loop-count 0 0 (flat argv) args' k.there ∙ omega (arith, count-flat argv text)) in
      let (offsets, run, h) =
        unpack_loop-Strings fuel 0 argv args' text (omega (arith, size)) k.there in
      (strings, (offsets, rw (strings, packed) (run ∙ ground arith), h))
