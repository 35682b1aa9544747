-- ===== src/Pgdialect/ArrayRoundTrip.antt =====
-- `appendStringSlice` and `decodeStringSlice` of dialect/pgdialect, one after the other.
pub mod Elem
pub mod Written
use uptrace_bun.Prelude.{
  ℕ, zero, suc, ◌+◌, ◌≤◌, ◌<◌, List, [], ◌∷◌, ◌++◌, some, none, Bytes, false, true, length, ok, err,
  Result, ◌≡◌, ◌≢◌, refl, sym, ap, ◌∙◌, arith, All, All-append, map, append_assoc, append-nil,
  length-append, codes, All-append,
}
use uptrace_bun.Dialect.Utf8.{encode}
use uptrace_bun.Dialect.Literal.{
  quote, read_literal, EndsLiteral, Spells-plain, read_literal-Spells,
}
use uptrace_bun.Pgdialect.Array.{append_string_slice}
use uptrace_bun.Pgdialect.ArrayParser.{
  ArrayError, eof, ArrayParser, decode_string_loop, decode_string_slice, next_elem,
  new_array_parser, ends_with,
}
use Elem.{escaped, at, read_elem_comma, read_elem_brace}
use Written.{Storable, array_text, text-append_string_slice, array_text-plain}

decode_step :
    (fuel : ℕ) (done : List Bytes) (s : Bytes) (p q : ArrayParser)
    → next_elem p ≡ ok (some s, q)
    → decode_string_loop (suc fuel) done p ≡ decode_string_loop fuel (done ++ s ∷ []) q
unfolding decode_string_loop
decode_step fuel done s p q e = rw (e, decode_string_loop)

decode_brace :
    (fuel : ℕ) (done : List Bytes) (buf : Bytes)
    → decode_string_loop (suc fuel) done (at (b'}' ∷ []) buf false) ≡ ok done
unfolding decode_string_loop next_elem
decode_brace fuel done buf = refl

decode-array_text :
    (ss : List Bytes) (fuel : ℕ) (done : List Bytes) (buf : Bytes)
    → length ss < fuel
    → decode_string_loop fuel done (at (array_text ss) buf false) ≡ ok (done ++ ss)
unfolding array_text
decode-array_text ss zero done buf h = elim h [ ]
decode-array_text [] (suc fuel) done buf h = decode_brace fuel done buf ∙ rw append-nil
decode-array_text (s ∷ []) (suc zero) done buf h = absurd (omega arith)
decode-array_text (s ∷ []) (suc (suc fuel)) done buf h =
    decode_step (suc fuel) done s _ _ (read_elem_brace s [] buf)
    ∙ decode_brace fuel (done ++ s ∷ []) s
decode-array_text (s ∷ t ∷ ss) (suc fuel) done buf h =
    decode_step fuel done s _ _ (read_elem_comma s (array_text (t ∷ ss)) buf)
    ∙ decode-array_text (t ∷ ss) fuel (done ++ s ∷ []) s (omega arith)
    ∙ ap ok (append_assoc done (s ∷ []) (t ∷ ss))

le-length-array_text : (ss : List Bytes) → length ss < length (array_text ss) + 1
unfolding array_text
le-length-array_text [] = omega arith
le-length-array_text (s ∷ []) = omega arith
le-length-array_text (s ∷ t ∷ ss) = omega (
  arith,
  le-length-array_text (t ∷ ss),
  length-append (escaped s) (b'"' ∷ b',' ∷ array_text (t ∷ ss)),
)

ends_with-append : (c d : ℕ) (s t : Bytes) → ends_with c (s ++ d ∷ t) ≡ ends_with c (d ∷ t)
unfolding ends_with
ends_with-append c d [] t = refl
ends_with-append c d (x ∷ []) t = refl
ends_with-append c d (x ∷ y ∷ s) t = ends_with-append c d (y ∷ s) t

ends_with-cons : (c x : ℕ) (s : Bytes) → ends_with c s ≡ true → ends_with c (x ∷ s) ≡ true
unfolding ends_with
ends_with-cons c x [] h = cc
ends_with-cons c x (y ∷ s) h = h

ends_with-array_text : (ss : List Bytes) → ends_with b'}' (array_text ss) ≡ true
unfolding array_text ends_with
ends_with-array_text [] = refl
ends_with-array_text (s ∷ []) = ends_with-append b'}' b'"' (b'"' ∷ escaped s) (b'}' ∷ [])
ends_with-array_text (s ∷ t ∷ ss) =
    ends_with-append b'}' b'"' (b'"' ∷ escaped s) (b',' ∷ array_text (t ∷ ss))
    ∙ ends_with-cons b'}' b',' (array_text (t ∷ ss)) (ends_with-array_text (t ∷ ss))

new_array_parser_lem :
    (t : Bytes) → ends_with b'}' t ≡ true → new_array_parser (b'{' ∷ t) ≡ at t [] false
unfolding new_array_parser
new_array_parser_lem [] h = cc
new_array_parser_lem (x ∷ t) h = ground arith

decode_string_slice-array_text :
    (ss : List Bytes) → decode_string_slice (b'{' ∷ array_text ss) ≡ ok ss
decode_string_slice-array_text ss =
    unfold decode_string_slice in
    rw (new_array_parser_lem (array_text ss) (ends_with-array_text ss)) (
      decode-array_text ss (suc (length (b'{' ∷ array_text ss))) [] []
        (omega (arith, le-length-array_text ss)))

-- A slice of strings of scalar values other than NUL and the single quote is written by
-- `appendStringSlice` as one SQL literal that ends before whatever follows, unless a quote follows,
-- and `decodeStringSlice` reads the literal's value back as the same slice.
pub decode_string_slice-append_string_slice :
    (rss : List (List ℕ)) (rest : Bytes)
    → All (All Storable) rss
    → EndsLiteral rest
    → (text : Bytes) × (read_literal (append_string_slice [] (some (map encode rss)) ++ rest)
        ≡ some (text, rest))
      × (decode_string_slice text ≡ ok (map encode rss))
decode_string_slice-append_string_slice rss rest h e =
    let text = b'{' ∷ array_text (map encode rss) in
    (
      text,
      ap (λ x. read_literal (x ++ rest)) (text-append_string_slice [] rss h)
          ∙ ap (λ x. read_literal (quote ∷ x)) (append_assoc text (quote ∷ []) rest)
          ∙ read_literal-Spells text text rest
              (Spells-plain text (omega arith, array_text-plain rss h)) e,
      decode_string_slice-array_text (map encode rss),
    )
