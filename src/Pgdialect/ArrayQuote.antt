-- ===== src/Pgdialect/ArrayQuote.antt =====
-- `appendStringSlice` of dialect/pgdialect/append.go on a string with a single quote in it.
use uptrace_bun.Prelude.{
  ℕ, List, [], ◌∷◌, ◌++◌, some, Bytes, codes, false, ◌≡◌, ◌≢◌, refl, ap, ◌∙◌, arith, All,
  append_assoc, All-append,
}
use uptrace_bun.Dialect.Utf8.{runes, encode, runes-encode, IsScalar}
use uptrace_bun.Dialect.Literal.{quote, read_literal, read_body, EndsLiteral, Spells, Spells-plain}
use uptrace_bun.Pgdialect.Array.{
  append_string_slice, array_append_string, array_append_runes, array_append_rune, append_elems,
  close_brace,
}
use uptrace_bun.Pgdialect.ArrayRoundTrip.Elem.{escaped}
use uptrace_bun.Pgdialect.ArrayRoundTrip.Written.{
  Storable, array_append_runes-escaped, set_last-concat, escaped-plain, encode-plain,
  Storable-IsScalar,
}

array_append_runes-append :
    (b : Bytes) (xs ys : List ℕ)
    → array_append_runes b (xs ++ ys) ≡ array_append_runes (array_append_runes b xs) ys
unfolding array_append_runes
array_append_runes-append b [] ys = refl
array_append_runes-append b (x ∷ xs) ys = array_append_runes-append (array_append_rune b x) xs ys

array_append_runes-quote :
    (b : Bytes) (ys : List ℕ)
    → array_append_runes b (quote ∷ ys) ≡ array_append_runes (b ++ codes "'''") ys
unfolding array_append_runes array_append_rune
array_append_runes-quote b ys = refl

module _ (pre post : List ℕ) (hp : All Storable pre) (hq : All Storable post) where
  abbrev whole : Bytes
  whole = encode (pre ++ quote ∷ post)

  -- What stands behind the three quotes.
  abbrev tail : Bytes → Bytes
  tail rest = escaped (encode post) ++ b'"' ∷ rest

  runes-whole : runes whole ≡ pre ++ quote ∷ post
  runes-whole = runes-encode (pre ++ quote ∷ post) (
      All-append IsScalar pre (quote ∷ post) (Storable-IsScalar pre hp)
        (omega arith, Storable-IsScalar post hq))

  array_append_string-whole :
      (b : Bytes)
      → array_append_string b whole
        ≡ b
          ++ b'"' ∷ (escaped (encode pre) ++ (codes "'''" ++ (escaped (encode post) ++ b'"' ∷ [])))
  unfolding array_append_string
  array_append_string-whole b =
      rw
        (
          runes-whole,
          array_append_runes-append (b ++ b'"' ∷ []) pre (quote ∷ post),
          array_append_runes-escaped (b ++ b'"' ∷ []) pre hp,
        )
        (rw (array_append_runes-quote ((b ++ b'"' ∷ []) ++ escaped (encode pre)) post) (
          rw
            (array_append_runes-escaped (((b ++ b'"' ∷ []) ++ escaped (encode pre)) ++ codes "'''")
              post hq)
            (simp append_assoc)))

  text_whole :
      append_string_slice [] (some (whole ∷ []))
      ≡ quote ∷ b'{' ∷ b'"' ∷ (escaped (encode pre) ++ (codes "'''" ++ tail (b'}' ∷ quote ∷ [])))
  unfolding append_string_slice append_elems close_brace
  text_whole =
      ap (λ x. x ++ quote ∷ [])
        (set_last-concat (array_append_string (quote ∷ b'{' ∷ []) whole) b',' b'}'
          ∙ ap (λ x. x ++ b'}' ∷ []) (array_append_string-whole (quote ∷ b'{' ∷ [])))
      ∙ simp append_assoc

-- Three quotes inside a literal: one quote of its value, and its end.
read_body_three :
    (v t : Bytes)
    → EndsLiteral t
    → t ≢ []
    → read_body v false (codes "'''" ++ t) ≡ some (v ++ quote ∷ [], t)
unfolding read_body
read_body_three v [] h k = absurd (k refl)
read_body_three v (c ∷ t) h k = ground arith

tail_ends :
    (s t : Bytes) → All (λ c. c ≢ quote) s → EndsLiteral (s ++ b'"' ∷ t) × (s ++ b'"' ∷ t ≢ [])
tail_ends [] t h = (omega arith, cc)
tail_ends (c ∷ s) t (h, _) = (h, cc)

-- For a string with one single quote in it, between texts `pre` and `post` of scalar values other
-- than NUL and quotes, the literal that `appendStringSlice` writes ends at that quote: the server
-- reads `post` and what is behind it as SQL text outside the literal.
pub read_literal-array_quote :
    (pre post : List ℕ) (rest : Bytes)
    → All Storable pre
    → All Storable post
    → read_literal (append_string_slice [] (some (encode (pre ++ quote ∷ post) ∷ [])) ++ rest)
      ≡ some (
        codes "{\"" ++ escaped (encode pre) ++ quote ∷ [],
        escaped (encode post) ++ (codes "\"}'" ++ rest),
      )
unfolding read_literal
read_literal-array_quote pre post rest hp hq =
    let after = escaped (encode post) ++ (codes "\"}'" ++ rest) in
    let (ends, nonempty) =
      tail_ends (escaped (encode post)) (b'}' ∷ quote ∷ rest)
        (escaped-plain (encode post) (encode-plain post hq)) in
    let start = codes "{\"" ++ escaped (encode pre) in
    let spelled : Spells start start =
      Spells-plain start
        (omega arith, (omega arith, escaped-plain (encode pre) (encode-plain pre hp))) in
    let regroup : read_body [] false (
          b'{'
            ∷ b'"'
            ∷ (escaped (encode pre) ++ (codes "'''" ++ tail pre post hp hq (b'}' ∷ quote ∷ [])))
          ++ rest)
        ≡ read_body [] false (start ++ (codes "'''" ++ after)) =
      simp append_assoc in
    ap (λ x. read_literal (x ++ rest)) (text_whole pre post hp hq)
    ∙ regroup
    ∙ spelled [] (codes "'''" ++ after)
    ∙ read_body_three start after ends nonempty
