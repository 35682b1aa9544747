-- ===== src/Pgdialect/Array.antt =====
-- The array appenders of dialect/pgdialect/append.go.
use uptrace_bun.Prelude.{
  ℕ, List, [], ◌∷◌, ◌++◌, Option, none, some, Bytes, codes, ltb, ◌==◌, if◌then◌else◌,
}
use uptrace_bun.Dialect.Utf8.{rune_self, runes, encode_rune}
use uptrace_bun.Dialect.Append.{append_null}

-- The body of the loop over the runes of a string.
unfoldable pub array_append_rune : Bytes → ℕ → Bytes
array_append_rune b r =
    if r == 0
    then b
    else if r == b'\''
    then b ++ codes "'''"
    else if r == b'"'
    then b ++ b'\\' ∷ b'"' ∷ []
    else if r == b'\\'
    then b ++ b'\\' ∷ b'\\' ∷ []
    else if ltb r rune_self
    then b ++ r ∷ []
    else b ++ encode_rune r

unfoldable pub array_append_runes : Bytes → List ℕ → Bytes
array_append_runes b [] = b
array_append_runes b (r ∷ rs) = array_append_runes (array_append_rune b r) rs

unfoldable pub array_append_string : Bytes → Bytes → Bytes
unfolding array_append_rune array_append_runes
array_append_string b s = array_append_runes (b ++ b'"' ∷ []) (runes s) ++ b'"' ∷ []

-- The loop over the elements, each with a comma behind it.
unfoldable pub append_elems : Bytes → List Bytes → Bytes
unfolding array_append_string
append_elems b [] = b
append_elems b (s ∷ ss) = append_elems (array_append_string b s ++ b',' ∷ []) ss

-- `b[len(b)-1] = c`
unfoldable pub set_last : Bytes → ℕ → Bytes
set_last [] c = []
set_last (_ ∷ []) c = c ∷ []
set_last (x ∷ y ∷ s) c = x ∷ set_last (y ∷ s) c

-- The brace behind the elements: it replaces the last comma.
unfoldable pub close_brace : Bytes → List Bytes → Bytes
unfolding set_last
close_brace b [] = b ++ b'}' ∷ []
close_brace b (_ ∷ _) = set_last b b'}'

-- A nil slice is `none`.
unfoldable pub append_string_slice : Bytes → Option (List Bytes) → Bytes
unfolding append_null append_elems close_brace
append_string_slice b none = append_null b
append_string_slice b (some ss) =
    close_brace (append_elems ((b ++ b'\'' ∷ []) ++ b'{' ∷ []) ss) ss ++ b'\'' ∷ []
