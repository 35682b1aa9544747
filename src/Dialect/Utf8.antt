-- ===== src/Dialect/Utf8.antt =====
-- Runes of Go strings, as dialect/append.go uses them: `utf8.EncodeRune`, and what `range` yields.
use uptrace_bun.Prelude.{
  ℕ, zero, suc, ◌+◌, ◌-◌, ◌*◌, ◌/◌, ◌%◌, ◌≤◌, ◌<◌, Bool, ◌&&◌, ◌||◌, List, [], ◌∷◌, ◌++◌, ◌≡◌, refl,
  ap, ◌∙◌, ◌⊎◌, arith, Bytes, ltb, leb, ◌==◌, if◌then◌else◌, All,
}

abbrev pub rune_self : ℕ
rune_self = 128

abbrev pub rune_error : ℕ
rune_error = 0xfffd

is_surrogate : ℕ → Bool
is_surrogate r = leb 0xd800 r && leb r 0xdfff

encode_short : ℕ → Bytes
encode_short r =
    if ltb r 128
    then r ∷ []
    else if ltb r 0x800
    then (0xc0 + r / 64) ∷ (0x80 + r % 64) ∷ []
    else (0xe0 + r / 4096) ∷ (0x80 + (r / 64) % 64) ∷ (0x80 + r % 64) ∷ []

-- `utf8.EncodeRune`: a rune that is no scalar value is written as the error rune.
unfoldable pub encode_rune : ℕ → Bytes
unfolding encode_short is_surrogate
encode_rune r =
    if is_surrogate r || ltb 0x10ffff r
    then encode_short rune_error
    else if ltb r 0x10000
    then encode_short r
    else (0xf0 + r / 262144)
      ∷ (0x80 + (r / 4096) % 64)
      ∷ (0x80 + (r / 64) % 64)
      ∷ (0x80 + r % 64)
      ∷ []

between : ℕ → ℕ → ℕ → Bool
between lo hi c = leb lo c && leb c hi

-- The least and the greatest second byte after the first byte `a`.
second_byte : ℕ → ℕ → Bool
second_byte a b =
    between (if a == 0xe0 then 0xa0 else if a == 0xf0 then 0x90 else 0x80)
      (if a == 0xed then 0x9f else if a == 0xf4 then 0x8f else 0xbf) b

-- A byte of what follows; behind the end it is 0, which continues no sequence.
byte_at : Bytes → ℕ → ℕ
byte_at [] i = 0
byte_at (c ∷ s) zero = c
byte_at (c ∷ s) (suc i) = byte_at s i

-- `utf8.DecodeRuneInString` from the first three bytes behind `a`: a rune and its width; an invalid
-- sequence is an error rune of width 1.
decode_bytes : ℕ → ℕ → ℕ → ℕ → ℕ × ℕ
unfolding between second_byte
decode_bytes a b c d =
    if ltb a 128
    then (a, 1)
    else if between 0xc2 0xdf a && second_byte a b
    then ((a - 0xc0) * 64 + (b - 0x80), 2)
    else if between 0xe0 0xef a && second_byte a b && between 0x80 0xbf c
    then ((a - 0xe0) * 4096 + (b - 0x80) * 64 + (c - 0x80), 3)
    else if between 0xf0 0xf4 a && second_byte a b && between 0x80 0xbf c && between 0x80 0xbf d
    then ((a - 0xf0) * 262144 + (b - 0x80) * 4096 + (c - 0x80) * 64 + (d - 0x80), 4)
    else (rune_error, 1)

decode_rune : ℕ → Bytes → ℕ × ℕ
unfolding byte_at
decode_rune a s = decode_bytes a (byte_at s 0) (byte_at s 1) (byte_at s 2)

-- The runes of a string behind `n` bytes of the rune that stands in front of it.
runes_behind : ℕ → Bytes → List ℕ
runes_behind n [] = []
runes_behind (suc n) (a ∷ s) = runes_behind n s
runes_behind zero (a ∷ s) = (decode_rune a s).0 ∷ runes_behind ((decode_rune a s).1 - 1) s

-- `for _, r := range s`
unfoldable pub runes : Bytes → List ℕ
unfolding runes_behind decode_rune decode_bytes
runes s = runes_behind 0 s

-- A Unicode scalar value.
abbrev pub IsScalar : ℕ → Type 0
IsScalar r = ((r < 0xd800) ⊎ (0xdfff < r)) × (r ≤ 0x10ffff)

-- A sequence of scalar values as UTF-8.
unfoldable pub encode : List ℕ → Bytes
encode [] = []
encode (r ∷ rs) = encode_rune r ++ encode rs

-- A rune outside ASCII is written with bytes outside ASCII.
pub encode_rune-high : (r : ℕ) → 128 ≤ r → All (λ c. 128 ≤ c) (encode_rune r)
unfolding encode_rune
encode_rune-high r h = ground arith

pub encode_rune-ascii : (r : ℕ) → r < 128 → encode_rune r ≡ r ∷ []
unfolding encode_rune
encode_rune-ascii r h = ground arith

decode_one : (r b c d : ℕ) → r < 128 → decode_bytes r b c d ≡ (r, 1)
unfolding decode_bytes
decode_one r b c d h = ground arith

decode_two :
    (r c d : ℕ) → 128 ≤ r → r < 0x800 → decode_bytes (0xc0 + r / 64) (0x80 + r % 64) c d ≡ (r, 2)
unfolding decode_bytes
decode_two r c d l h = ground arith

decode_three :
    (r d : ℕ)
    → 0x800 ≤ r
    → r < 0x10000
    → IsScalar r
    → decode_bytes (0xe0 + r / 4096) (0x80 + (r / 64) % 64) (0x80 + r % 64) d ≡ (r, 3)
unfolding decode_bytes
decode_three r d l h s = ground arith

decode_four :
    (r : ℕ)
    → 0x10000 ≤ r
    → r ≤ 0x10ffff
    → decode_bytes
        (0xf0 + r / 262144)
        (0x80 + (r / 4096) % 64)
        (0x80 + (r / 64) % 64)
        (0x80 + r % 64)
      ≡ (r, 4)
unfolding decode_bytes
decode_four r l h = ground arith

runes_behind-encode_rune :
    (r : ℕ) (t : Bytes) → IsScalar r → runes_behind 0 (encode_rune r ++ t) ≡ r ∷ runes_behind 0 t
unfolding runes_behind encode_rune decode_rune
runes_behind-encode_rune r t s = ground (
  arith,
  decode_one r (byte_at t 0) (byte_at t 1) (byte_at t 2),
  decode_two r (byte_at t 0) (byte_at t 1),
  decode_three r (byte_at t 0),
  decode_four r,
)

-- Valid UTF-8 is read back rune by rune.
pub runes-encode : (rs : List ℕ) → All IsScalar rs → runes (encode rs) ≡ rs
unfolding runes encode
runes-encode [] h = refl
runes-encode (r ∷ rs) (s, h) =
    runes_behind-encode_rune r (encode rs) s ∙ ap (◌∷◌ r) (runes-encode rs h)
