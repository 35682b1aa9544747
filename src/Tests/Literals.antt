-- ===== src/Tests/Literals.antt =====
-- Literals of the dialects on sample inputs.
use uptrace_bun.Prelude.{
  ℕ, false, List, [], ◌∷◌, ◌++◌, map, none, some, Bytes, codes, ok, ◌≡◌, refl, arith, inl, inr, All,
}
use uptrace_bun.Parser.{is_alpha, is_num, new, read_identifier}
use uptrace_bun.Parser.Identifiers.{read_identifier_name}
use uptrace_bun.Dialect.Utf8.{encode, runes, runes-encode, IsScalar, encode_rune}
use uptrace_bun.Dialect.Append.{append_json, append_string, append_bytes}
use uptrace_bun.Dialect.Ident.{append_ident, lex, tokens, outside}
use uptrace_bun.Dialect.Ident.Tokens.{lex-append_ident}
use uptrace_bun.Dialect.Literal.{read_literal}
use uptrace_bun.Dialect.Strings.{
  stored, read_literal-append_string, read_literal-append_string_utf8,
}
use uptrace_bun.Dialect.Hex.{read_bytea, read_bytea-append_bytes}
use uptrace_bun.Dialect.Json
use uptrace_bun.Dialect.Json.{read_literal-append_json}
use uptrace_bun.Pgdialect.Array.{append_string_slice}
use uptrace_bun.Pgdialect.ArrayParser.{decode_string_slice}
use uptrace_bun.Pgdialect.ArrayRoundTrip.Elem.{escaped}
use uptrace_bun.Pgdialect.ArrayRoundTrip.{decode_string_slice-append_string_slice}
use uptrace_bun.Pgdialect.ArrayQuote.{read_literal-array_quote}
use uptrace_bun.Mysqldialect.Append
use uptrace_bun.Mysqldialect.Literal
use uptrace_bun.Mysqldialect.Laws.{read_literal-append_json_mysql}
use uptrace_bun.Mysqldialect.Backslash.{read_literal-append_string_backslash}

json_sample :
    append_json (codes "= ") (codes "{\"a\":\"\\u0000\\\\'x\"}")
    ≡ codes "= '{\"a\":\"\\\\u0000\\\\''x\"}'"
unfolding append_json
json_sample = refl

string_sample :
    append_string (codes "= ") (codes "it's " ++ 0xc3 ∷ 0xa9 ∷ 0 ∷ [])
    ≡ codes "= 'it''s " ++ 0xc3 ∷ 0xa9 ∷ b'\'' ∷ []
unfolding append_string runes encode_rune
string_sample = refl

slice_sample :
    append_string_slice [] (some (codes "a\"b" ∷ codes "c\\" ∷ []))
    ≡ codes "'{\"a\\\"b\",\"c\\\\\"}'"
unfolding append_string_slice runes
slice_sample = refl

decode_sample : decode_string_slice (codes "{\"a\\\"b\",c}") ≡ ok (codes "a\"b" ∷ codes "c" ∷ [])
unfolding decode_string_slice
decode_sample = refl

ident_sample : append_ident [] (codes "t.a\"b.*") b'"' ≡ codes "\"t\".\"a\"\"b\".*"
unfolding append_ident
ident_sample = refl

-- The letters `a`, `ü` and a tongue out of the last plane.
abbrev sample_runes : List ℕ
sample_runes = b'a' ∷ 252 ∷ 128539 ∷ []

sample_scalars : All IsScalar sample_runes
sample_scalars = (
  (inl (omega arith), omega arith),
  ((inl (omega arith), omega arith), ((inr (omega arith), omega arith), tt)),
)

read_identifier_name_example :
    read_identifier (new (b'i' ∷ (codes "d_2" ++ codes ", x")))
    ≡ ((b'i' ∷ codes "d_2", false), new (codes ", x"))
unfolding is_alpha is_num
read_identifier_name_example =
    read_identifier_name b'i' (codes "d_2") (codes ", x") refl (refl, (refl, (refl, tt)))
      (refl, refl, omega arith)

runes-encode_example : runes (encode sample_runes) ≡ sample_runes
runes-encode_example = runes-encode sample_runes sample_scalars

lex-append_ident_example :
    lex b'"' outside (append_ident [] (codes "t.a\"b.*") b'"')
    ≡ some (tokens none (codes "t.a\"b.*"))
lex-append_ident_example = lex-append_ident (codes "t.a\"b.*") b'"' (omega arith) (omega arith)

read_literal-append_string_example :
    (lit : Bytes) × (append_string (codes "= ") (codes "it's") ++ codes " AND" ≡ codes "= " ++ lit)
    × (read_literal lit ≡ some (stored (runes (codes "it's")), codes " AND"))
read_literal-append_string_example =
    read_literal-append_string (codes "= ") (codes "it's") (codes " AND") (omega arith)

read_literal-append_string_utf8_example :
    read_literal (append_string [] (encode sample_runes) ++ codes ")")
    ≡ some (encode sample_runes, codes ")")
read_literal-append_string_utf8_example =
    read_literal-append_string_utf8 sample_runes (codes ")") sample_scalars
      (omega arith, (omega arith, (omega arith, tt))) (omega arith)

read_bytea-append_bytes_example :
    (lit value : Bytes) × (append_bytes (codes "= ") (some (0 ∷ 255 ∷ [])) ++ codes ")"
      ≡ codes "= " ++ lit)
    × (read_literal lit ≡ some (value, codes ")"))
    × (read_bytea value ≡ some (0 ∷ 255 ∷ []))
read_bytea-append_bytes_example =
    read_bytea-append_bytes (codes "= ") (0 ∷ 255 ∷ []) (codes ")") (omega arith, (omega arith, tt))
      (omega arith)

read_literal-append_json_example :
    (lit : Bytes) × (append_json (codes "= ") (codes "\"\\u0000'\"") ++ codes ")"
      ≡ codes "= " ++ lit)
    × (read_literal lit ≡ some (codes "\"\\\\u0000'\"", codes ")"))
read_literal-append_json_example =
    read_literal-append_json (codes "= ") (codes ")")
      (Json.byte (omega arith) (omega arith) (
        Json.nul_escape
          (Json.byte (omega arith) (omega arith) (Json.byte (omega arith) (omega arith) Json.nil))))
      (omega arith)

decode_string_slice-append_string_slice_example :
    (text : Bytes) × (read_literal (
        append_string_slice [] (some (map encode ((b'"' ∷ 252 ∷ []) ∷ (b'\\' ∷ []) ∷ [])))
        ++ codes ")")
      ≡ some (text, codes ")"))
    × (decode_string_slice text ≡ ok (map encode ((b'"' ∷ 252 ∷ []) ∷ (b'\\' ∷ []) ∷ [])))
decode_string_slice-append_string_slice_example =
    decode_string_slice-append_string_slice ((b'"' ∷ 252 ∷ []) ∷ (b'\\' ∷ []) ∷ []) (codes ")")
      (
        (
          ((inl (omega arith), omega arith), omega arith, omega arith),
          (((inl (omega arith), omega arith), omega arith, omega arith), tt),
        ),
        ((((inl (omega arith), omega arith), omega arith, omega arith), tt), tt),
      )
      (omega arith)

read_literal-array_quote_example :
    read_literal
      (append_string_slice [] (some (encode ((b'a' ∷ []) ++ b'\'' ∷ b'b' ∷ []) ∷ [])) ++ codes ")")
    ≡ some (
      codes "{\"" ++ escaped (encode (b'a' ∷ [])) ++ b'\'' ∷ [],
      escaped (encode (b'b' ∷ [])) ++ (codes "\"}'" ++ codes ")"),
    )
read_literal-array_quote_example =
    read_literal-array_quote (b'a' ∷ []) (b'b' ∷ []) (codes ")")
      (((inl (omega arith), omega arith), omega arith, omega arith), tt)
      (((inl (omega arith), omega arith), omega arith, omega arith), tt)

read_literal-append_json_mysql_example :
    (lit : Bytes) × (Append.append_json (codes "= ") (codes "{\"a\\n'\"}") ++ codes ")"
      ≡ codes "= " ++ lit)
    × (Literal.read_literal lit ≡ some (codes "{\"a\\n'\"}", codes ")"))
read_literal-append_json_mysql_example =
    read_literal-append_json_mysql (codes "= ") (codes "{\"a\\n'\"}") (codes ")") (omega arith)

read_literal-append_string_backslash_example :
    Literal.read_literal (append_string [] (encode ((b'C' ∷ b':' ∷ []) ++ b'\\' ∷ []))) ≡ none
read_literal-append_string_backslash_example =
    read_literal-append_string_backslash (b'C' ∷ b':' ∷ []) (
      ((inl (omega arith), omega arith), omega arith, omega arith, omega arith),
      (((inl (omega arith), omega arith), omega arith, omega arith, omega arith), tt),
    )
