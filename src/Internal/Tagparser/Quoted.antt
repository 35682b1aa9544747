-- ===== src/Internal/Tagparser/Quoted.antt =====
-- What the readers of internal/tagparser/parser.go make of a key, a plain value and a quoted value.
use uptrace_bun.Prelude.{
  ℕ, ◌≡◌, ◌≢◌, refl, sym, ap, ◌∙◌, ◌⊎◌, inl, inr, arith, true, false, [], ◌∷◌, ◌++◌, some, Bytes,
  ◌==◌, ==_false_iff, if◌then◌else◌, append-nil, append_assoc, All, Bool-cases,
}
use uptrace_bun.Internal.Tagparser.{
  Tag, cut_quote, ends_escaped, parse_escaped, quoted_or_escaped, parse_quoted_value, parse_value,
  parse_key_value,
}

-- A backslash in front of each quote.
unfoldable pub escape : Bytes → Bytes
escape [] = []
escape (c ∷ s) = let rest = escape s in if c == b'"' then b'\\' ∷ c ∷ rest else c ∷ rest

-- No comma, colon or quote.
abbrev pub IsBare : Bytes → Type 0
IsBare s = All (λ c. (c ≢ b',') × (c ≢ b':') × (c ≢ b'"')) s

pub parse_key_value-bare :
    (b k rest : Bytes) (t : Tag)
    → IsBare k
    → parse_key_value b (k ++ rest) t ≡ parse_key_value (b ++ k) rest t
unfolding parse_key_value
parse_key_value-bare b [] rest t h = ap (λ x. parse_key_value x rest t) (sym (append-nil b))
parse_key_value-bare b (c ∷ k) rest t ((n1, n2, n3), h) =
    rw ((==_false_iff c b',').1 n1, (==_false_iff c b':').1 n2, (==_false_iff c b'"').1 n3)
      (parse_key_value-bare (b ++ c ∷ []) k rest t h
        ∙ ap (λ x. parse_key_value x rest t) (append_assoc b (c ∷ []) k))

pub parse_value-plain :
    (b v rest : Bytes)
    → All (λ c. (c ≢ b',') × (c ≢ b'"')) v
    → parse_value b (v ++ rest) ≡ parse_value (b ++ v) rest
unfolding parse_value
parse_value-plain b [] rest h = ap (λ x. parse_value x rest) (sym (append-nil b))
parse_value-plain b (c ∷ v) rest ((n1, n2), h) =
    rw ((==_false_iff c b'"').1 n2, (==_false_iff c b',').1 n1)
      (parse_value-plain (b ++ c ∷ []) v rest h
        ∙ ap (λ x. parse_value x rest) (append_assoc b (c ∷ []) v))

-- What cuts the text at the first quote: behind a backslash, or at its end.
abbrev Cut : Bytes → Bytes → Type 0
Cut v rest =
    (front back : Bytes) × (cut_quote (escape v ++ b'"' ∷ rest) ≡ some (front, back))
    × ((ends_escaped front ≡ true) ⊎ ((front ≡ v) × (back ≡ rest) × (ends_escaped front ≡ false)))

ends_escaped-cons : (c : ℕ) (s : Bytes) → ends_escaped s ≡ true → ends_escaped (c ∷ s) ≡ true
unfolding ends_escaped
ends_escaped-cons c [] h = ground (arith, h)
ends_escaped-cons c (d ∷ s) h = h

ends_escaped-plain :
    (c : ℕ) (s : Bytes) → c ≢ b'\\' → ends_escaped s ≡ false → ends_escaped (c ∷ s) ≡ false
unfolding ends_escaped
ends_escaped-plain c [] n h = (==_false_iff c b'\\').1 n
ends_escaped-plain c (d ∷ s) n h = h

escape-Cut : (v rest : Bytes) → All (λ c. c ≢ b'\\') v → Cut v rest
unfolding escape cut_quote ends_escaped
escape-Cut [] rest h = ([], rest, refl, inr (refl, refl, refl))
escape-Cut (c ∷ v) rest (n, h) = elim (Bool-cases (c == b'"')) [
  | inl e ↦ (b'\\' ∷ [], escape v ++ b'"' ∷ rest, rw (e, e) refl, inl refl)
  | inr e ↦
      let (front, back, cut, ends) = escape-Cut v rest h in
      (
        c ∷ front,
        back,
        rw (e, e, cut) refl,
        elim ends [
          | inl k ↦ inl (ends_escaped-cons c front k)
          | inr k ↦ inr (ap (λ s. c ∷ s) k.0, k.1, ends_escaped-plain c front n k.2)
        ],
      )
]

-- The text is not empty.
escape-cons : (v rest : Bytes) → (d : ℕ) × (s : Bytes) × (escape v ++ b'"' ∷ rest ≡ d ∷ s)
unfolding escape
escape-cons [] rest = (b'"', rest, refl)
escape-cons (c ∷ v) rest = elim (Bool-cases (c == b'"')) [
  | inl e ↦ (b'\\', c ∷ (escape v ++ b'"' ∷ rest), rw e refl)
  | inr e ↦ (c, escape v ++ b'"' ∷ rest, rw e refl)
]

parse_escaped-cons :
    (b : Bytes) (c : ℕ) (s s' : Bytes) (d : ℕ)
    → s ≡ d ∷ s'
    → c ≢ b'\\'
    → c == b'"' ≡ false
    → parse_escaped b (c ∷ s) ≡ parse_escaped (b ++ c ∷ []) s
unfolding parse_escaped
parse_escaped-cons b c s s' d h n e = rw (h, (==_false_iff c b'\\').1 n, e) refl

parse_escaped-quote : (b rest : Bytes) → parse_escaped b (b'"' ∷ rest) ≡ (b, rest)
unfolding parse_escaped
parse_escaped-quote b [] = refl
parse_escaped-quote b (d ∷ s) = refl

parse_escaped-escape :
    (b v rest : Bytes)
    → All (λ c. c ≢ b'\\') v
    → parse_escaped b (escape v ++ b'"' ∷ rest) ≡ (b ++ v, rest)
unfolding escape parse_escaped
parse_escaped-escape b [] rest h =
    parse_escaped-quote b rest ∙ ap (λ x. (x, rest)) (sym (append-nil b))
parse_escaped-escape b (c ∷ v) rest (n, h) =
    let more =
      parse_escaped-escape (b ++ c ∷ []) v rest h
      ∙ ap (λ x. (x, rest)) (append_assoc b (c ∷ []) v) in
    elim (Bool-cases (c == b'"')) [
      | inl e ↦ rw e more
      | inr e ↦
          let (d, s', eq) = escape-cons v rest in
          rw e (parse_escaped-cons b c (escape v ++ b'"' ∷ rest) s' d eq n e ∙ more)
    ]

pub parse_quoted_value-escape :
    (v rest : Bytes)
    → All (λ c. c ≢ b'\\') v
    → parse_quoted_value (escape v ++ b'"' ∷ rest) ≡ (v, rest)
unfolding parse_quoted_value quoted_or_escaped
parse_quoted_value-escape v rest h =
    let (front, back, cut, ends) = escape-Cut v rest h in
    elim ends [
      | inl k ↦ rw (cut, k) (parse_escaped-escape [] v rest h)
      | inr k ↦ rw (cut, k.2, k.0, k.1) refl
    ]
