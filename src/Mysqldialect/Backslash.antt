-- ===== src/Mysqldialect/Backslash.antt =====
-- `AppendString` of dialect/append.go, which the MySQL dialect uses for strings, read as MySQL reads it.
use uptrace_bun.Prelude.{
  ℕ, ◌≤◌, List, [], ◌∷◌, ◌++◌, none, Bytes, true, false, ltb, ◌≡◌, ◌≢◌, refl, ap, ◌∙◌, arith, All,
  All-append, append-nil, append_assoc, Bool-cases, inl, inr,
}
use uptrace_bun.Dialect.Utf8.{encode, encode_rune, encode_rune-high, runes-encode, IsScalar}
use uptrace_bun.Dialect.Append.{append_string, append_runes, append_rune}
use uptrace_bun.Dialect.Strings.{append_runes-append}
use uptrace_bun.Mysqldialect.Literal.{inside, read_body, read_literal}

abbrev IsPlainByte : ℕ → Type 0
IsPlainByte c = (c ≢ b'\'') × (c ≢ b'\\')

-- A scalar value other than NUL, a quote and a backslash.
abbrev pub IsPlain : ℕ → Type 0
IsPlain r = IsScalar r × (r ≢ 0) × (r ≢ b'\'') × (r ≢ b'\\')

read_plain :
    (s v t : Bytes) → All IsPlainByte s → read_body v inside (s ++ t) ≡ read_body (v ++ s) inside t
unfolding read_body
read_plain [] v t h = rw append-nil
read_plain (c ∷ s) v t (hc, h) =
    ground (arith, read_plain s (v ++ c ∷ []) t h, append_assoc v (c ∷ []) s)

high-IsPlainByte : (s : Bytes) → All (λ c. 128 ≤ c) s → All IsPlainByte s
high-IsPlainByte [] h = tt
high-IsPlainByte (c ∷ s) (hc, h) = ((omega arith, omega arith), high-IsPlainByte s h)

append_rune_ascii : (r : ℕ) → IsPlain r → ltb r 128 ≡ true → append_rune [] r ≡ r ∷ []
unfolding append_rune
append_rune_ascii r h l = ground arith

append_rune_high : (r : ℕ) → ltb r 128 ≡ false → append_rune [] r ≡ encode_rune r
unfolding append_rune
append_rune_high r h = ground arith

append_rune-plain : (r : ℕ) → IsPlain r → All IsPlainByte (append_rune [] r)
append_rune-plain r (s, n, q, b) = elim (Bool-cases (ltb r 128)) [
  | inl l ↦ rw (append_rune_ascii r (s, n, q, b) l) ((q, b), tt)
  | inr l ↦ rw (append_rune_high r l) (high-IsPlainByte _ (encode_rune-high r (ground arith)))
]

append_runes-plain : (rs : List ℕ) → All IsPlain rs → All IsPlainByte (append_runes [] rs)
unfolding append_runes
append_runes-plain [] h = tt
append_runes-plain (r ∷ rs) (hr, h) = rw (append_runes-append (append_rune [] r) rs) (
    All-append IsPlainByte (append_rune [] r) (append_runes [] rs) (append_rune-plain r hr)
      (append_runes-plain rs h))

append_runes_last :
    (b : Bytes) (rs : List ℕ) (r : ℕ)
    → append_runes b (rs ++ r ∷ []) ≡ append_rune (append_runes b rs) r
unfolding append_runes
append_runes_last b [] r = refl
append_runes_last b (x ∷ rs) r = append_runes_last (append_rune b x) rs r

IsPlain-IsScalar : (rs : List ℕ) → All IsPlain rs → All IsScalar rs
IsPlain-IsScalar [] h = tt
IsPlain-IsScalar (r ∷ rs) ((s, _, _, _), h) = (s, IsPlain-IsScalar rs h)

append_backslash : (b : Bytes) → append_rune b b'\\' ≡ b ++ b'\\' ∷ []
unfolding append_rune
append_backslash b = refl

unterminated : (v : Bytes) → read_body v inside (b'\\' ∷ b'\'' ∷ []) ≡ none
unfolding read_body
unterminated v = refl

string_text :
    (rs : List ℕ)
    → All IsPlain rs
    → append_string [] (encode (rs ++ b'\\' ∷ []))
      ≡ b'\'' ∷ (append_runes [] rs ++ b'\\' ∷ b'\'' ∷ [])
unfolding append_string
string_text rs h =
    ap (λ x. append_runes (b'\'' ∷ []) x ++ b'\'' ∷ [])
      (runes-encode (rs ++ b'\\' ∷ [])
        (All-append IsScalar rs (b'\\' ∷ []) (IsPlain-IsScalar rs h) (omega arith)))
    ∙ rw
        (
          append_runes_last (b'\'' ∷ []) rs b'\\',
          append_backslash,
          append_runes-append (b'\'' ∷ []) rs,
        )
        (simp append_assoc)

-- A string that ends with a backslash behind plain text is no literal in MySQL's default mode: the
-- backslash hides the closing quote that `AppendString` writes, and the literal does not end.
pub read_literal-append_string_backslash :
    (rs : List ℕ)
    → All IsPlain rs
    → read_literal (append_string [] (encode (rs ++ b'\\' ∷ []))) ≡ none
unfolding read_literal
read_literal-append_string_backslash rs h = rw (string_text rs h) (
    read_plain (append_runes [] rs) [] (b'\\' ∷ b'\'' ∷ []) (append_runes-plain rs h)
    ∙ unterminated (append_runes [] rs))
