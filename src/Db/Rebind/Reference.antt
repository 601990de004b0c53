-- ===== src/Db/Rebind/Reference.antt =====
-- `Rebind` of internal/db/rebind.go against SQL's rules for quotes and comments, read byte by byte.
use district_scheduler.Common.{
  ℕ, zero, suc, ◌-◌, ◌≤◌, ◌<◌, ◌≡◌, refl, inl, inr, Bool, true, false, not, ◌&&◌, List, [], ◌∷◌,
  ◌++◌, arith, ◌==◌, if◌then◌else◌, any, length, Bool-cases,
}
use district_scheduler.Db.Rebind.{
  end_of_quoted, end_of_line_comment, end_of_block_comment, itoa, is_quote, starts_with, append_run,
  rebind_loop, rebind,
}

-- Where the next byte stands: in the statement, in a run that a quote has opened, on the second of two
-- quotes that stand for one, in a line comment, or in a block comment of some depth, there perhaps on the
-- second byte of a mark that opens or closes.
pub data Mode : Type 0 where
  plain line : Mode
  quoted escaped : ℕ → Mode
  block opening closing : ℕ → Mode

abbrev pub in_plain : ℕ → List ℕ → Mode
in_plain c next =
    if is_quote c
    then quoted c
    else if c == b'-' && starts_with b'-' next
    then line
    else if c == b'/' && starts_with b'*' next
    then opening 1
    else plain

abbrev pub in_quoted : ℕ → ℕ → List ℕ → Mode
in_quoted quote c next =
    if not (c == quote)
    then quoted quote
    else if starts_with quote next
    then escaped quote
    else plain

abbrev pub in_block : ℕ → ℕ → List ℕ → Mode
in_block depth c next =
    if c == b'/' && starts_with b'*' next
    then opening (suc depth)
    else if c == b'*' && starts_with b'/' next
    then closing (depth - 1)
    else block depth

-- Where the byte after `c` stands, when `c` stands in the mode and `next` follows.
abbrev pub step : Mode → ℕ → List ℕ → Mode
step plain c next = in_plain c next
step line c next = if c == b'\n' then plain else line
step (quoted quote) c next = in_quoted quote c next
step (escaped quote) c next = quoted quote
step (block depth) c next = in_block depth c next
step (opening depth) c next = block depth
step (closing zero) c next = plain
step (closing (suc depth)) c next = block (suc depth)

abbrev pub is_plain : Mode → Bool
is_plain plain = true
is_plain m = false

-- Each `?` of the statement itself gets the next number; every other byte is kept.
unfoldable pub numbered : Mode → ℕ → List ℕ → List ℕ
numbered m n [] = []
numbered m n (c ∷ cs) =
    let kept = numbered (step m c cs) n cs in
    let counted = numbered (step m c cs) (suc n) cs in
    if is_plain m && c == b'?' then b'$' ∷ (itoa (suc n) ++ counted) else c ∷ kept

numbered-quoted :
    (quote n : ℕ) (cs : List ℕ)
    → numbered (quoted quote) n cs ≡ append_run (end_of_quoted quote cs) (numbered plain n)
unfolding numbered end_of_quoted
numbered-quoted quote n [] = refl
numbered-quoted quote n (c ∷ []) = ground arith
numbered-quoted quote n (c ∷ d ∷ cs) =
    ground (arith, numbered-quoted quote n (d ∷ cs), numbered-quoted quote n cs)

numbered-line :
    (n : ℕ) (cs : List ℕ)
    → numbered line n cs ≡ append_run (end_of_line_comment cs) (numbered plain n)
unfolding numbered end_of_line_comment
numbered-line n [] = refl
numbered-line n (c ∷ cs) = ground (arith, numbered-line n cs)

numbered-block :
    (depth n : ℕ) (cs : List ℕ)
    → 0 < depth
    → numbered (block depth) n cs ≡ append_run (end_of_block_comment depth cs) (numbered plain n)
unfolding numbered end_of_block_comment
numbered-block depth n [] h = refl
numbered-block depth n (c ∷ []) h = ground arith
numbered-block depth n (c ∷ d ∷ cs) h = ground (
  arith,
  numbered-block depth n (d ∷ cs),
  numbered-block (suc depth) n cs,
  numbered-block (depth - 1) n cs,
)

length-end_of_quoted : (quote : ℕ) (cs : List ℕ) → length (end_of_quoted quote cs).1 ≤ length cs
unfolding end_of_quoted
length-end_of_quoted quote [] = omega arith
length-end_of_quoted quote (c ∷ []) = omega arith
length-end_of_quoted quote (c ∷ d ∷ cs) =
    ground (arith, length-end_of_quoted quote (d ∷ cs), length-end_of_quoted quote cs)

length-end_of_line_comment : (cs : List ℕ) → length (end_of_line_comment cs).1 ≤ length cs
unfolding end_of_line_comment
length-end_of_line_comment [] = omega arith
length-end_of_line_comment (c ∷ cs) = ground (arith, length-end_of_line_comment cs)

length-end_of_block_comment :
    (depth : ℕ) (cs : List ℕ) → length (end_of_block_comment depth cs).1 ≤ length cs
unfolding end_of_block_comment
length-end_of_block_comment depth [] = omega arith
length-end_of_block_comment depth (c ∷ []) = omega arith
length-end_of_block_comment depth (c ∷ d ∷ cs) = ground (
  arith,
  length-end_of_block_comment depth (d ∷ cs),
  length-end_of_block_comment (suc depth) cs,
  length-end_of_block_comment (depth - 1) cs,
)

-- A block comment is read from its opening mark on.
numbered-block_open :
    (n c : ℕ) (cs : List ℕ)
    → (c == b'/' && starts_with b'*' cs) ≡ true
    → (numbered plain n (c ∷ cs) ≡ append_run (end_of_block_comment 0 (c ∷ cs)) (numbered plain n))
      × (length (end_of_block_comment 0 (c ∷ cs)).1 ≤ length cs)
unfolding numbered end_of_block_comment
numbered-block_open n c [] h = absurd (ground arith)
numbered-block_open n c (d ∷ ds) h =
    (ground (arith, numbered-block 1 n ds), ground (arith, length-end_of_block_comment 1 ds))

rebind_loop-numbered :
    (fuel n : ℕ) (cs : List ℕ) → length cs ≤ fuel → rebind_loop fuel n cs ≡ numbered plain n cs
unfolding rebind_loop numbered end_of_line_comment end_of_block_comment
rebind_loop-numbered zero n [] h = refl
rebind_loop-numbered zero n (c ∷ cs) h = absurd (omega arith)
rebind_loop-numbered (suc fuel) n [] h = refl
rebind_loop-numbered (suc fuel) n (c ∷ cs) h = elim (Bool-cases (is_quote c)) [
  | inl q ↦ rw q (
      ground (
        arith,
        numbered-quoted c n cs,
        length-end_of_quoted c cs,
        rebind_loop-numbered fuel n (end_of_quoted c cs).1,
      ))
  | inr q ↦ elim (Bool-cases (c == b'-' && starts_with b'-' cs)) [
    | inl l ↦ ground (
      arith,
      numbered-line n cs,
      length-end_of_line_comment cs,
      rebind_loop-numbered fuel n (end_of_line_comment cs).1,
    )
    | inr l ↦ elim (Bool-cases (c == b'/' && starts_with b'*' cs)) [
      | inl b ↦ ground (
        arith,
        numbered-block_open n c cs b,
        rebind_loop-numbered fuel n (end_of_block_comment 0 (c ∷ cs)).1,
      )
      | inr b ↦ ground (arith, rebind_loop-numbered fuel n cs, rebind_loop-numbered fuel (suc n) cs)
    ]
  ]
]

numbered-none :
    (m : Mode) (n : ℕ) (cs : List ℕ) → any (λ c. c == b'?') cs ≡ false → numbered m n cs ≡ cs
unfolding numbered
numbered-none m n [] h = refl
numbered-none m n (c ∷ cs) h = ground (arith, numbered-none (step m c cs) n cs)

-- `Rebind` numbers the `?` that stand in the statement itself, from one on and from left to right, and
-- keeps every other byte: those of string literals, of quoted identifiers, of line comments and of block
-- comments nested to any depth, closed or not.
pub rebind-numbered : (query : List ℕ) → rebind query ≡ numbered plain 0 query
unfolding rebind
rebind-numbered query = elim (Bool-cases (any (λ c. c == b'?') query)) [
  | inl asks ↦ ground (arith, rebind_loop-numbered (length query) 0 query)
  | inr quiet ↦ ground (arith, numbered-none plain 0 query quiet)
]
