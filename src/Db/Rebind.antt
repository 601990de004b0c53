-- ===== src/Db/Rebind.antt =====
-- `Rebind` of internal/db/rebind.go: the `?` placeholders of a query numbered for PostgreSQL. A query is
-- the list of its bytes, and an index into it is the list of the bytes from there on: the routines that
-- return the end of a run return the run and what is left.
pub mod Reference
use district_scheduler.Common.{
  ℕ, zero, suc, ◌+◌, ◌-◌, ◌/◌, ◌%◌, Bool, true, false, ◌&&◌, ◌||◌, List, [], ◌∷◌, ◌++◌, ltb, ◌==◌,
  if◌then◌else◌, any, length,
}

abbrev pub cons_run : ℕ → List ℕ × List ℕ → List ℕ × List ℕ
cons_run c (run, rest) = (c ∷ run, rest)

-- `endOfQuoted`, from behind the opening quote: up to the closing one, where a doubled quote does not close.
unfoldable pub end_of_quoted : ℕ → List ℕ → List ℕ × List ℕ
end_of_quoted quote [] = ([], [])
end_of_quoted quote (c ∷ []) = (c ∷ [], [])
end_of_quoted quote (c ∷ d ∷ cs) = elim (c == quote) [
  | false ↦ cons_run c (end_of_quoted quote (d ∷ cs))
  | true ↦ elim (d == quote) [
    | true ↦ cons_run c (cons_run d (end_of_quoted quote cs))
    | false ↦ (c ∷ [], d ∷ cs)
  ]
]

-- `endOfLineComment`: up to the newline, which is left.
unfoldable pub end_of_line_comment : List ℕ → List ℕ × List ℕ
end_of_line_comment [] = ([], [])
end_of_line_comment (c ∷ cs) =
    let rest = end_of_line_comment cs in if c == b'\n' then ([], c ∷ cs) else cons_run c rest

-- `endOfBlockComment`, with the depth that is reached.
unfoldable pub end_of_block_comment : ℕ → List ℕ → List ℕ × List ℕ
end_of_block_comment depth [] = ([], [])
end_of_block_comment depth (c ∷ []) = (c ∷ [], [])
end_of_block_comment depth (c ∷ d ∷ cs) = elim (c == b'/' && d == b'*') [
  | true ↦ cons_run c (cons_run d (end_of_block_comment (suc depth) cs))
  | false ↦ elim (c == b'*' && d == b'/') [
    | true ↦ elim (depth - 1 == 0) [
      | true ↦ (c ∷ d ∷ [], cs)
      | false ↦ cons_run c (cons_run d (end_of_block_comment (depth - 1) cs))
    ]
    | false ↦ cons_run c (end_of_block_comment depth (d ∷ cs))
  ]
]

-- `strconv.Itoa` of a number from 0 up; the fuel bounds the digits.
unfoldable pub digits : ℕ → ℕ → List ℕ
digits zero n = []
digits (suc fuel) n =
    let rest = digits fuel (n / 10) in
    if ltb n 10 then (b'0' + n) ∷ [] else rest ++ (b'0' + n % 10) ∷ []

unfoldable pub itoa : ℕ → List ℕ
unfolding digits
itoa n = digits (suc n) n

abbrev pub is_quote : ℕ → Bool
is_quote c = c == b'\'' || (c == b'"' || c == b'`')

abbrev pub starts_with : ℕ → List ℕ → Bool
starts_with c [] = false
starts_with c (d ∷ ds) = d == c

abbrev pub append_run : List ℕ × List ℕ → (List ℕ → List ℕ) → List ℕ
append_run (run, rest) next = run ++ next rest

-- The loop of `Rebind`, with the placeholders counted so far; the fuel bounds its turns.
unfoldable pub rebind_loop : ℕ → ℕ → List ℕ → List ℕ
unfolding end_of_quoted end_of_line_comment end_of_block_comment itoa
rebind_loop zero n query = []
rebind_loop (suc fuel) n [] = []
rebind_loop (suc fuel) n (c ∷ cs) = elim (is_quote c) [
  | true ↦ c ∷ append_run (end_of_quoted c cs) (rebind_loop fuel n)
  | false ↦ elim (c == b'-' && starts_with b'-' cs) [
    | true ↦ append_run (end_of_line_comment (c ∷ cs)) (rebind_loop fuel n)
    | false ↦ elim (c == b'/' && starts_with b'*' cs) [
      | true ↦ append_run (end_of_block_comment 0 (c ∷ cs)) (rebind_loop fuel n)
      | false ↦ elim (c == b'?') [
        | true ↦ b'$' ∷ (itoa (suc n) ++ rebind_loop fuel (suc n) cs)
        | false ↦ c ∷ rebind_loop fuel n cs
      ]
    ]
  ]
]

unfoldable pub rebind : List ℕ → List ℕ
unfolding rebind_loop
rebind query = if any (λ c. c == b'?') query then rebind_loop (length query) 0 query else query
