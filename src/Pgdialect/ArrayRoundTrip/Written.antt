-- ===== src/Pgdialect/ArrayRoundTrip/Written.antt =====
-- The text that `appendStringSlice` writes, with no accumulator.
use uptrace_bun.Prelude.{
  ℕ, ◌≤◌, ◌<◌, List, [], ◌∷◌, ◌++◌, some, Bytes, ◌≡◌, ◌≢◌, refl, sym, ap, ◌∙◌, arith, append_assoc,
  append-nil, ltb, Bool-cases, inl, inr, All, All-append, map,
}
use uptrace_bun.Dialect.Utf8.{
  encode_rune, encode, encode_rune-high, encode_rune-ascii, IsScalar, runes-encode,
}
use uptrace_bun.Dialect.Literal.{quote}
use uptrace_bun.Pgdialect.Array.{
  array_append_rune, array_append_runes, array_append_string, append_elems, set_last,
  append_string_slice,
}
use uptrace_bun.Pgdialect.ArrayRoundTrip.Elem.{escaped}

-- A rune of a text that an array literal keeps: a scalar value, and neither NUL nor a quote.
abbrev pub Storable : ℕ → Type 0
Storable r = IsScalar r × (r ≢ 0) × (r ≢ quote)

-- The array text behind its opening brace.
unfoldable pub array_text : List Bytes → Bytes
array_text [] = b'}' ∷ []
array_text (s ∷ []) = b'"' ∷ (escaped s ++ b'"' ∷ b'}' ∷ [])
array_text (s ∷ t ∷ ss) = b'"' ∷ (escaped s ++ b'"' ∷ b',' ∷ array_text (t ∷ ss))

escaped-append : (s t : Bytes) → escaped (s ++ t) ≡ escaped s ++ escaped t
unfolding escaped
escaped-append [] t = refl
escaped-append (c ∷ s) t = ground (arith, escaped-append s t)

escaped_high : (s : Bytes) → All (λ c. 128 ≤ c) s → escaped s ≡ s
unfolding escaped
escaped_high [] h = refl
escaped_high (c ∷ s) (hc, h) = ground (arith, escaped_high s h)

escaped_ascii : (r : ℕ) → r ≢ 0 → r ≢ quote → r < 128 → array_append_rune [] r ≡ escaped (r ∷ [])
unfolding escaped array_append_rune
escaped_ascii r h k l = ground arith

rune_high : (r : ℕ) → 128 ≤ r → array_append_rune [] r ≡ encode_rune r
unfolding array_append_rune
rune_high r h = ground arith

array_append_rune-escaped : (r : ℕ) → Storable r → array_append_rune [] r ≡ escaped (encode_rune r)
array_append_rune-escaped r (_, h, k) = elim (Bool-cases (ltb r 128)) [
  | inl l ↦
      escaped_ascii r h k (ground arith) ∙ ap escaped (sym (encode_rune-ascii r (ground arith)))
  | inr l ↦
      rune_high r (ground arith)
      ∙ sym (escaped_high (encode_rune r) (encode_rune-high r (ground arith)))
]

array_append_rune-append : (b : Bytes) (r : ℕ) → array_append_rune b r ≡ b ++ array_append_rune [] r
unfolding array_append_rune
array_append_rune-append b r = ground (arith, append-nil b)

pub array_append_runes-escaped :
    (b : Bytes) (rs : List ℕ) → All Storable rs → array_append_runes b rs ≡ b ++ escaped (encode rs)
unfolding array_append_runes encode
array_append_runes-escaped b [] h = unfold escaped in sym (append-nil b)
array_append_runes-escaped b (r ∷ rs) (hr, h) =
    array_append_runes-escaped (array_append_rune b r) rs h
    ∙ ap (λ x. x ++ escaped (encode rs))
        (array_append_rune-append b r ∙ ap (λ x. b ++ x) (array_append_rune-escaped r hr))
    ∙ append_assoc b (escaped (encode_rune r)) (escaped (encode rs))
    ∙ ap (λ x. b ++ x) (sym (escaped-append (encode_rune r) (encode rs)))

pub Storable-IsScalar : (rs : List ℕ) → All Storable rs → All IsScalar rs
Storable-IsScalar [] h = tt
Storable-IsScalar (r ∷ rs) ((s, _, _), h) = (s, Storable-IsScalar rs h)

array_append_string-escaped :
    (b : Bytes) (rs : List ℕ)
    → All Storable rs
    → array_append_string b (encode rs) ≡ b ++ b'"' ∷ (escaped (encode rs) ++ b'"' ∷ [])
unfolding array_append_string
array_append_string-escaped b rs h =
    ap (λ x. array_append_runes (b ++ b'"' ∷ []) x ++ b'"' ∷ [])
      (runes-encode rs (Storable-IsScalar rs h))
    ∙ ap (λ x. x ++ b'"' ∷ []) (array_append_runes-escaped (b ++ b'"' ∷ []) rs h)
    ∙ append_assoc (b ++ b'"' ∷ []) (escaped (encode rs)) (b'"' ∷ [])
    ∙ append_assoc b (b'"' ∷ []) (escaped (encode rs) ++ b'"' ∷ [])

pub set_last-concat : (b : Bytes) (x c : ℕ) → set_last (b ++ x ∷ []) c ≡ b ++ c ∷ []
unfolding set_last
set_last-concat [] x c = refl
set_last-concat (a ∷ []) x c = refl
set_last-concat (a ∷ a' ∷ b) x c = ap (◌∷◌ a) (set_last-concat (a' ∷ b) x c)

-- The elements with the comma behind the last one replaced.
append_elems-array_text :
    (b : Bytes) (rs : List ℕ) (rss : List (List ℕ))
    → All (All Storable) (rs ∷ rss)
    → set_last (append_elems b (map encode (rs ∷ rss))) b'}'
      ≡ b ++ array_text (map encode (rs ∷ rss))
unfolding append_elems array_text
append_elems-array_text b rs [] (h, _) =
    set_last-concat (array_append_string b (encode rs)) b',' b'}'
    ∙ rw (array_append_string-escaped b rs h) (simp append_assoc)
append_elems-array_text b rs (rs' ∷ rss) (h, hs) =
    append_elems-array_text (array_append_string b (encode rs) ++ b',' ∷ []) rs' rss hs
    ∙ rw (array_append_string-escaped b rs h) (simp append_assoc)

-- The text behind `b`: a literal around the array text.
pub text-append_string_slice :
    (b : Bytes) (rss : List (List ℕ))
    → All (All Storable) rss
    → append_string_slice b (some (map encode rss))
      ≡ b ++ quote ∷ (b'{' ∷ array_text (map encode rss) ++ quote ∷ [])
unfolding append_string_slice array_text
text-append_string_slice b [] h = simp append_assoc
text-append_string_slice b (rs ∷ rss) h =
    rw (append_elems-array_text ((b ++ quote ∷ []) ++ b'{' ∷ []) rs rss h) (simp append_assoc)

ne_quote_high : (s : Bytes) → All (λ c. 128 ≤ c) s → All (λ c. c ≢ quote) s
ne_quote_high [] h = tt
ne_quote_high (c ∷ s) (hc, h) = (omega arith, ne_quote_high s h)

encode_rune-plain : (r : ℕ) → r ≢ quote → All (λ c. c ≢ quote) (encode_rune r)
encode_rune-plain r h = elim (Bool-cases (ltb r 128)) [
  | inl l ↦ rw (encode_rune-ascii r (ground arith)) (h, tt)
  | inr l ↦ ne_quote_high _ (encode_rune-high r (ground arith))
]

pub encode-plain : (rs : List ℕ) → All Storable rs → All (λ c. c ≢ quote) (encode rs)
unfolding encode
encode-plain [] h = tt
encode-plain (r ∷ rs) ((_, _, k), h) =
    All-append _ (encode_rune r) (encode rs) (encode_rune-plain r k) (encode-plain rs h)

pub escaped-plain : (s : Bytes) → All (λ c. c ≢ quote) s → All (λ c. c ≢ quote) (escaped s)
unfolding escaped
escaped-plain [] h = tt
escaped-plain (c ∷ s) (hc, h) = ground (arith, escaped-plain s h)

elem-plain :
    (s t : Bytes)
    → All (λ c. c ≢ quote) s
    → All (λ c. c ≢ quote) t
    → All (λ c. c ≢ quote) (b'"' ∷ (escaped s ++ b'"' ∷ t))
elem-plain s t h k =
    (omega arith, All-append _ (escaped s) (b'"' ∷ t) (escaped-plain s h) (omega arith, k))

-- The array text holds no quote, so a literal around it is read whole.
pub array_text-plain :
    (rss : List (List ℕ))
    → All (All Storable) rss
    → All (λ c. c ≢ quote) (array_text (map encode rss))
unfolding array_text
array_text-plain [] h = omega arith
array_text-plain (rs ∷ []) (h, _) = elem-plain (encode rs) _ (encode-plain rs h) (omega arith)
array_text-plain (rs ∷ rs' ∷ rss) (h, hs) =
    elem-plain (encode rs) _ (encode-plain rs h) (omega arith, array_text-plain (rs' ∷ rss) hs)
