-- ===== src/Dialect/Hex.antt =====
-- Reading the hexadecimal form that `AppendBytes` of dialect/append.go writes.
use uptrace_bun.Prelude.{
  ℕ, ◌+◌, ◌-◌, ◌*◌, ◌/◌, ◌%◌, ◌<◌, ◌&&◌, [], ◌∷◌, ◌++◌, Option, none, some, Bytes, leb, ◌==◌,
  if◌then◌else◌, ◌≡◌, ◌≢◌, refl, ap, arith, All, append_assoc,
}
use uptrace_bun.Dialect.Append.{append_bytes, hex_encode, hex_digit}
use uptrace_bun.Dialect.Literal.{
  quote, read_literal, EndsLiteral, Spells-plain, read_literal-Spells,
}

-- How a server reads a hexadecimal digit, of either case.
hex_value : ℕ → Option ℕ
hex_value c =
    if leb b'0' c && leb c b'9'
    then some (c - b'0')
    else if leb b'a' c && leb c b'f'
    then some (c - b'a' + 10)
    else if leb b'A' c && leb c b'F'
    then some (c - b'A' + 10)
    else none

join : Option ℕ → Option ℕ → Option Bytes → Option Bytes
join (some h) (some l) (some s) = some ((h * 16 + l) ∷ s)
join _ _ _ = none

hex_decode : Bytes → Option Bytes
unfolding hex_value join
hex_decode [] = some []
hex_decode (_ ∷ []) = none
hex_decode (h ∷ l ∷ s) = join (hex_value h) (hex_value l) (hex_decode s)

-- What the server makes of the text of a bytea value: `\x`, then the digits.
unfoldable pub read_bytea : Bytes → Option Bytes
unfolding hex_decode
read_bytea (a ∷ x ∷ s) = if a == b'\\' && x == b'x' then hex_decode s else none
read_bytea _ = none

hex_digit_lem : (d : ℕ) → d < 16 → (hex_value (hex_digit d) ≡ some d) × (hex_digit d ≢ quote)
unfolding hex_digit hex_value
hex_digit_lem d h = ground arith

hex_encode_lem :
    (s : Bytes)
    → All (λ c. c < 256) s
    → (hex_decode (hex_encode s) ≡ some s) × All (λ c. c ≢ quote) (hex_encode s)
unfolding hex_encode hex_decode
hex_encode_lem [] h = (refl, tt)
hex_encode_lem (c ∷ s) (lt, h) =
    let (high, high_plain) = hex_digit_lem (c / 16) (omega arith) in
    let (low, low_plain) = hex_digit_lem (c % 16) (omega arith) in
    let (rest, plain) = hex_encode_lem s h in
    let whole : (c / 16) * 16 + c % 16 ≡ c = omega arith in
    (rw (high, low, rest) (ap (λ x. some (x ∷ s)) whole), (high_plain, (low_plain, plain)))

-- `AppendBytes` on a slice that is not nil writes behind `b` a literal whose value the server reads
-- as the same bytes, and that ends before whatever follows, unless a quote follows.
pub read_bytea-append_bytes :
    (b s rest : Bytes)
    → All (λ c. c < 256) s
    → EndsLiteral rest
    → (lit value : Bytes) × (append_bytes b (some s) ++ rest ≡ b ++ lit)
      × (read_literal lit ≡ some (value, rest))
      × (read_bytea value ≡ some s)
unfolding append_bytes read_bytea
read_bytea-append_bytes b s rest h e =
    let (decoded, plain) = hex_encode_lem s h in
    let value = b'\\' ∷ b'x' ∷ hex_encode s in
    (
      quote ∷ (value ++ quote ∷ rest),
      value,
      rw (append_assoc, append_assoc, append_assoc),
      read_literal-Spells value value rest (Spells-plain value (omega arith, (omega arith, plain)))
          e,
      decoded,
    )
