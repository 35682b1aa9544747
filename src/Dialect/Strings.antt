-- ===== src/Dialect/Strings.antt =====
-- Reading what `AppendString` of dialect/append.go writes.
use uptrace_bun.Prelude.{
  ℕ, ◌≤◌, List, [], ◌∷◌, ◌++◌, some, Bytes, ltb, ◌==◌, if◌then◌else◌, ◌≡◌, ◌≢◌, refl, sym, ◌∙◌, ap,
  arith, All, append-nil, append_assoc, Bool-cases, ==_iff, inl, inr, subst,
}
use uptrace_bun.Dialect.Utf8.{
  rune_self, runes, encode_rune, encode_rune-high, encode_rune-ascii, encode, IsScalar,
  runes-encode,
}
use uptrace_bun.Dialect.Append.{append_rune, append_runes, append_string}
use uptrace_bun.Dialect.Literal.{
  quote, read_literal, EndsLiteral, Spells, Spells-nil, Spells-append, Spells-quote, Spells-plain,
  Spells-cons, read_literal-Spells,
}

-- What is stored of a string: its runes, less the NUL characters.
unfoldable pub stored : List ℕ → Bytes
stored [] = []
stored (r ∷ rs) = (if r == 0 then [] else encode_rune r) ++ stored rs

high_ne_quote : (s : Bytes) → All (λ c. 128 ≤ c) s → All (λ c. c ≢ quote) s
high_ne_quote [] h = tt
high_ne_quote (c ∷ s) (hc, h) = (omega arith, high_ne_quote s h)

append_rune-append : (b : Bytes) (r : ℕ) → append_rune b r ≡ b ++ append_rune [] r
unfolding append_rune
append_rune-append b r = ground (arith, append-nil b)

pub append_runes-append : (b : Bytes) (rs : List ℕ) → append_runes b rs ≡ b ++ append_runes [] rs
unfolding append_runes
append_runes-append b [] = sym (append-nil b)
append_runes-append b (r ∷ rs) =
    append_runes-append (append_rune b r) rs
    ∙ ap (λ x. x ++ append_runes [] rs) (append_rune-append b r)
    ∙ append_assoc b (append_rune [] r) (append_runes [] rs)
    ∙ ap (λ x. b ++ x) (sym (append_runes-append (append_rune [] r) rs))

append_rune-Spells : (r : ℕ) → Spells (append_rune [] r) (if r == 0 then [] else encode_rune r)
unfolding append_rune
append_rune-Spells r = elim (Bool-cases (r == 0)) [
  | inl z ↦ rw z Spells-nil
  | inr nz ↦ rw nz (elim (Bool-cases (r == quote)) [
    | inl q ↦
        let e = (==_iff r quote).0 q in
        rw (q, encode_rune-ascii r (omega arith))
          (subst (λ c. Spells (quote ∷ quote ∷ []) (c ∷ [])) (sym e) Spells-quote)
    | inr nq ↦ rw nq (elim (Bool-cases (ltb r rune_self)) [
      | inl l ↦ rw (l, encode_rune-ascii r (ground arith)) (Spells-cons r (ground arith))
      | inr nl ↦ rw nl (Spells-plain _ (high_ne_quote _ (encode_rune-high r (ground arith))))
    ])
  ])
]

append_runes-Spells : (rs : List ℕ) → Spells (append_runes [] rs) (stored rs)
unfolding append_runes stored
append_runes-Spells [] = Spells-nil
append_runes-Spells (r ∷ rs) = rw (append_runes-append (append_rune [] r) rs) (
    Spells-append (append_rune [] r) _ (append_runes [] rs) (stored rs) (append_rune-Spells r)
      (append_runes-Spells rs))

append_string-append :
    (b s rest : Bytes)
    → append_string b s ++ rest ≡ b ++ quote ∷ (append_runes [] (runes s) ++ quote ∷ rest)
unfolding append_string
append_string-append b s rest =
    rw (append_runes-append (b ++ quote ∷ []) (runes s), append_assoc, append_assoc, append_assoc)

-- `AppendString` writes a literal behind `b` that a server reads as the runes of `s` without the NUL
-- characters, and that ends before whatever follows, unless a quote follows.
pub read_literal-append_string :
    (b s rest : Bytes)
    → EndsLiteral rest
    → (lit : Bytes) × (append_string b s ++ rest ≡ b ++ lit)
      × (read_literal lit ≡ some (stored (runes s), rest))
read_literal-append_string b s rest e = (
  quote ∷ (append_runes [] (runes s) ++ quote ∷ rest),
  append_string-append b s rest,
  read_literal-Spells _ _ rest (append_runes-Spells (runes s)) e,
)

-- A string of scalar values other than NUL is stored as it is.
stored-whole : (rs : List ℕ) → All (λ r. r ≢ 0) rs → stored rs ≡ encode rs
unfolding stored encode
stored-whole [] h = refl
stored-whole (r ∷ rs) (n, h) = elim (Bool-cases (r == 0)) [
  | inl z ↦ absurd (n ((==_iff r 0).0 z))
  | inr nz ↦ rw (nz, stored-whole rs h)
]

-- A valid UTF-8 string without NUL characters, appended to an empty text by `AppendString`, is read
-- back whole, and the literal ends before whatever follows, unless a quote follows.
pub read_literal-append_string_utf8 :
    (rs : List ℕ) (rest : Bytes)
    → All IsScalar rs
    → All (λ r. r ≢ 0) rs
    → EndsLiteral rest
    → read_literal (append_string [] (encode rs) ++ rest) ≡ some (encode rs, rest)
read_literal-append_string_utf8 rs rest scalars nonzero e =
    let (lit, shape, value) = read_literal-append_string [] (encode rs) rest e in
    ap read_literal shape
    ∙ value
    ∙ ap (λ x. some (x, rest)) (ap stored (runes-encode rs scalars) ∙ stored-whole rs nonzero)
