-- ===== src/Parser.antt =====
-- internal/parser/parser.go: the byte cursor. No method looks behind the position, so the state is
-- `rest`, the bytes `p.b[p.i:]`; a method that moves the cursor returns the new parser as well.
pub mod Laws
pub mod Identifiers
use uptrace_bun.Prelude.{
  ℕ, zero, suc, ◌+◌, ◌-◌, ◌*◌, Bool, true, false, not, ◌&&◌, ◌||◌, List, [], ◌∷◌, Option, none,
  some, Bytes, ltb, leb, ◌==◌, if◌then◌else◌, equal, length, take, drop,
}

pub record Parser : Type 0 where
  pub rest : Bytes

-- `New` and `NewString`
abbrev pub new : Bytes → Parser
new b = record { rest = b }

abbrev pub is_empty : Bytes → Bool
is_empty [] = true
is_empty (_ ∷ _) = false

unfoldable pub valid : Parser → Bool
valid p = not (is_empty p.rest)

unfoldable pub peek : Parser → ℕ
peek p = elim (p.rest) [ [] ↦ 0 | c ∷ _ ↦ c ]

unfoldable pub advance : Parser → Parser
advance p = record { rest = drop 1 p.rest }

unfoldable pub read : Parser → ℕ × Parser
unfolding peek advance valid
read p = if valid p then (peek p, advance p) else (0, p)

unfoldable pub skip : ℕ → Parser → Bool × Parser
unfolding peek advance
skip c p = if peek p == c then (true, advance p) else (false, p)

unfoldable pub skip_bytes : Bytes → Parser → Bool × Parser
unfolding equal
skip_bytes s p =
    if ltb (length p.rest) (length s)
    then (false, p)
    else if not (equal (take (length s) p.rest) s)
    then (false, p)
    else (true, record { rest = drop (length s) p.rest })

-- `bytes.IndexByte`; `none` is -1.
unfoldable pub index_byte : ℕ → Bytes → Option ℕ
index_byte sep [] = none
index_byte sep (c ∷ s) =
    if c == sep then some 0 else elim (index_byte sep s) [ none ↦ none | some i ↦ some (suc i) ]

-- The bytes before the separator, and whether it was found.
unfoldable pub read_sep : ℕ → Parser → (Bytes × Bool) × Parser
unfolding index_byte
read_sep sep p = elim (index_byte sep p.rest) [
  | none ↦ ((p.rest, false), record { rest = [] })
  | some ind ↦ ((take ind p.rest, true), record { rest = drop (suc ind) p.rest })
]

unfoldable pub is_num : ℕ → Bool
is_num c = leb b'0' c && leb c b'9'

unfoldable pub is_alpha : ℕ → Bool
is_alpha c = leb b'a' c && leb c b'z' || leb b'A' c && leb c b'Z'

-- The loop of `ReadIdentifier` from index `i`: the index where it stops, and `alpha`.
pub scan_identifier : ℕ → Bool → Bytes → ℕ × Bool
scan_identifier i alpha [] = (i, alpha)
scan_identifier i alpha (c ∷ s) = elim (is_num c) [
  | true ↦ scan_identifier (suc i) alpha s
  | false ↦ elim (is_alpha c || ltb 0 i && alpha && c == b'_') [
    | true ↦ scan_identifier (suc i) true s
    | false ↦ (i, alpha)
  ]
]

scan : Parser → (Bytes × Bool) × Parser
unfolding scan_identifier is_num is_alpha
scan p =
    let (ind, alpha) = scan_identifier 0 false p.rest in
    if ind == 0
    then (([], false), p)
    else ((take ind p.rest, not alpha), record { rest = drop ind p.rest })

in_parens : Parser → Bytes → (Bytes × Bool) × Parser
unfolding index_byte scan
in_parens p [] = scan p
in_parens p (c ∷ s) = elim (c == b'(') [
  | false ↦ scan p
  | true ↦ elim (index_byte b')' s) [
    | none ↦ scan p
    | some ind ↦ ((take ind s, false), record { rest = drop (suc ind) s })
  ]
]

-- The name, and whether it is numeric.
unfoldable pub read_identifier : Parser → (Bytes × Bool) × Parser
unfolding in_parens
read_identifier p = in_parens p p.rest

-- The index of the first byte that is no digit.
unfoldable pub digits_len : Bytes → ℕ
unfolding is_num
digits_len [] = 0
digits_len (c ∷ s) = if is_num c then suc (digits_len s) else 0

abbrev pub max_int : ℕ
max_int = 9223372036854775807

decimal : ℕ → Bytes → ℕ
decimal n [] = n
decimal n (c ∷ s) = decimal (n * 10 + (c - b'0')) s

-- `strconv.Atoi` of a string of digits: an empty string is an error, and so is a number that an
-- int64 cannot hold.
unfoldable pub atoi : Bytes → Option ℕ
unfolding decimal
atoi [] = none
atoi (c ∷ s) = if leb (decimal 0 (c ∷ s)) max_int then some (decimal 0 (c ∷ s)) else none

-- `none` is the panic of `ReadNumber` on a number that an int64 cannot hold.
unfoldable pub read_number : Parser → Option (ℕ × Parser)
unfolding digits_len atoi
read_number p =
    let ind = digits_len p.rest in
    if ind == 0 then some (0, p) else elim (atoi (take ind p.rest)) [
      | none ↦ none
      | some n ↦ some (n, record { rest = drop ind p.rest })
    ]
