-- ===== src/Mysqldialect/Literal.antt =====
-- An independent description of how MySQL reads a string literal in its default SQL mode: a quote
-- inside is doubled, and a backslash escapes the byte behind it.
use uptrace_bun.Prelude.{
  ℕ, [], ◌∷◌, ◌++◌, Option, none, some, Bytes, ◌==◌, if◌then◌else◌, ◌||◌, true, false,
}

-- The text that a backslash and the byte `c` stand for.
unfoldable pub unescape : ℕ → Bytes
unescape c =
    if c == b'0'
    then 0 ∷ []
    else if c == b'b'
    then 8 ∷ []
    else if c == b'n'
    then 10 ∷ []
    else if c == b'r'
    then 13 ∷ []
    else if c == b't'
    then 9 ∷ []
    else if c == b'Z'
    then 26 ∷ []
    else if c == b'%' || c == b'_'
    then b'\\' ∷ c ∷ []
    else c ∷ []

-- Inside the literal, behind a quote in it, or behind a backslash.
pub data Mode : Type 0 where
  inside closing escaped : Mode

unfoldable pub read_body : Bytes → Mode → Bytes → Option (Bytes × Bytes)
unfolding unescape
read_body v inside [] = none
read_body v closing [] = some (v, [])
read_body v escaped [] = none
read_body v inside (c ∷ s) = elim (c == b'\'') [
  | true ↦ read_body v closing s
  | false ↦ elim (c == b'\\') [
    | true ↦ read_body v escaped s
    | false ↦ read_body (v ++ c ∷ []) inside s
  ]
]
read_body v closing (c ∷ s) = elim (c == b'\'') [
  | true ↦ read_body (v ++ c ∷ []) inside s
  | false ↦ some (v, c ∷ s)
]
read_body v escaped (c ∷ s) = read_body (v ++ unescape c) inside s

unfoldable pub read_literal : Bytes → Option (Bytes × Bytes)
unfolding read_body
read_literal [] = none
read_literal (c ∷ s) = if c == b'\'' then read_body [] inside s else none
