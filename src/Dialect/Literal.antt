-- ===== src/Dialect/Literal.antt =====
-- An independent description of SQL text: how a server reads a string literal. A quote
-- inside is doubled, and a backslash is plain.
use uptrace_bun.Prelude.{
  ℕ, Bool, true, false, [], ◌∷◌, ◌++◌, Option, none, some, Bytes, ◌==◌, if◌then◌else◌, ◌≡◌, ◌≢◌,
  refl, arith, All, append-nil, append_assoc,
}

abbrev pub quote : ℕ
quote = b'\''

-- The value read so far, and whether the byte before was a quote that may end the literal. The
-- result is the value and the text behind the literal.
unfoldable pub read_body : Bytes → Bool → Bytes → Option (Bytes × Bytes)
read_body v false [] = none
read_body v true [] = some (v, [])
read_body v false (c ∷ s) = elim (c == quote) [
  | true ↦ read_body v true s
  | false ↦ read_body (v ++ c ∷ []) false s
]
read_body v true (c ∷ s) = elim (c == quote) [
  | true ↦ read_body (v ++ c ∷ []) false s
  | false ↦ some (v, c ∷ s)
]

unfoldable pub read_literal : Bytes → Option (Bytes × Bytes)
unfolding read_body
read_literal [] = none
read_literal (c ∷ s) = if c == quote then read_body [] false s else none

-- The text does not go on with a quote, so a literal in front of it ends there.
abbrev pub EndsLiteral : Bytes → Type 0
EndsLiteral [] = Unit
EndsLiteral (c ∷ s) = c ≢ quote

-- `piece` is read inside a literal as `value`, whatever follows.
abbrev pub Spells : Bytes → Bytes → Type 0
Spells piece value = (v t : Bytes) → read_body v false (piece ++ t) ≡ read_body (v ++ value) false t

pub Spells-nil : Spells [] []
Spells-nil v t = rw append-nil

pub Spells-append : (p x q y : Bytes) → Spells p x → Spells q y → Spells (p ++ q) (x ++ y)
Spells-append p x q y hp hq v t = rw (append_assoc, hp v (q ++ t), hq (v ++ x) t, append_assoc)

pub Spells-cons : (c : ℕ) → c ≢ quote → Spells (c ∷ []) (c ∷ [])
unfolding read_body
Spells-cons c h v t = ground arith

pub Spells-quote : Spells (quote ∷ quote ∷ []) (quote ∷ [])
unfolding read_body
Spells-quote v t = refl

-- Text without quotes spells itself.
pub Spells-plain : (s : Bytes) → All (λ c. c ≢ quote) s → Spells s s
Spells-plain [] h = Spells-nil
Spells-plain (c ∷ s) (n, h) =
    Spells-append (c ∷ []) (c ∷ []) s s (Spells-cons c n) (Spells-plain s h)

-- A literal around a piece is read as the piece's value, and nothing behind it is touched.
pub read_literal-Spells :
    (piece value rest : Bytes)
    → Spells piece value
    → EndsLiteral rest
    → read_literal (quote ∷ (piece ++ quote ∷ rest)) ≡ some (value, rest)
unfolding read_literal
read_literal-Spells piece value [] h e = h [] (quote ∷ [])
read_literal-Spells piece value (c ∷ rest) h e = rw (h [] (quote ∷ c ∷ rest)) (ground arith)
