-- ===== src/Dialect/Append.antt =====
-- The appenders of dialect/append.go. `b` is the text so far, and each returns it with more behind.
use uptrace_bun.Prelude.{
  ℕ, zero, suc, ◌+◌, ◌-◌, ◌/◌, ◌%◌, Bool, List, [], ◌∷◌, ◌++◌, Option, none, some, Bytes, codes,
  ltb, ◌==◌, if◌then◌else◌, length,
}
use uptrace_bun.Dialect.Utf8.{rune_self, runes, encode_rune}
use uptrace_bun.Parser
use uptrace_bun.Parser.{Parser}

unfoldable pub append_error : Bytes → Bytes → Bytes
append_error b message = (b ++ codes "?!(") ++ message ++ b')' ∷ []

unfoldable pub append_null : Bytes → Bytes
append_null b = b ++ codes "NULL"

unfoldable pub append_bool : Bytes → Bool → Bytes
append_bool b v = if v then b ++ codes "TRUE" else b ++ codes "FALSE"

-- What one round of the loop over the runes of a string appends.
unfoldable pub append_rune : Bytes → ℕ → Bytes
append_rune b r =
    if r == 0
    then b
    else if r == b'\''
    then b ++ b'\'' ∷ b'\'' ∷ []
    else if ltb r rune_self
    then b ++ r ∷ []
    else b ++ encode_rune r

unfoldable pub append_runes : Bytes → List ℕ → Bytes
append_runes b [] = b
append_runes b (r ∷ rs) = append_runes (append_rune b r) rs

unfoldable pub append_string : Bytes → Bytes → Bytes
unfolding append_runes append_rune
append_string b s = append_runes (b ++ b'\'' ∷ []) (runes s) ++ b'\'' ∷ []

unfoldable pub hex_digit : ℕ → ℕ
hex_digit d = if ltb d 10 then b'0' + d else b'a' + (d - 10)

-- `hex.Encode`
unfoldable pub hex_encode : Bytes → Bytes
unfolding hex_digit
hex_encode [] = []
hex_encode (c ∷ s) = hex_digit (c / 16) ∷ hex_digit (c % 16) ∷ hex_encode s

-- A nil slice is `none`.
unfoldable pub append_bytes : Bytes → Option Bytes → Bytes
unfolding append_null hex_encode
append_bytes b none = append_null b
append_bytes b (some bytes) = ((b ++ codes "'\\x") ++ hex_encode bytes) ++ b'\'' ∷ []

-- The case of a backslash in `AppendJSON`: the text so far and the parser behind it.
unfoldable pub append_json_escape : Bytes → Parser → Bytes × Parser
unfolding Parser.skip_bytes Parser.valid Parser.read
append_json_escape b p =
    let (skipped, q) = Parser.skip_bytes (codes "u0000") p in
    if skipped
    then (b ++ codes "\\\\u0000", q)
    else if Parser.valid p
    then ((b ++ b'\\' ∷ []) ++ (Parser.read p).0 ∷ [], (Parser.read p).1)
    else (b ++ b'\\' ∷ [], p)

-- The body of the loop of `AppendJSON` for the byte `c`, the parser being behind it.
unfoldable pub append_json_byte : Bytes → ℕ → Parser → Bytes × Parser
unfolding append_json_escape
append_json_byte b c p =
    if c == b'"'
    then (b ++ b'"' ∷ [], p)
    else if c == b'\''
    then (b ++ codes "''", p)
    else if c == 0
    then (b, p)
    else if c == b'\\'
    then append_json_escape b p
    else (b ++ c ∷ [], p)

-- `for p.Valid()`; with no fuel left the loop stops, and the length of the input is enough.
unfoldable pub append_json_loop : ℕ → Bytes → Parser → Bytes
unfolding append_json_byte Parser.valid Parser.read
append_json_loop zero b p = b
append_json_loop (suc fuel) b p =
    let (c, q) = Parser.read p in
    let (b', q') = append_json_byte b c q in
    let rest = append_json_loop fuel b' q' in if Parser.valid p then rest else b

unfoldable pub append_json : Bytes → Bytes → Bytes
unfolding append_json_loop
append_json b jsonb =
    append_json_loop (length jsonb) (b ++ b'\'' ∷ []) (Parser.new jsonb) ++ b'\'' ∷ []
