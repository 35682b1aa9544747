-- ===== src/Pgdriver/Format.antt =====
-- driver/pgdriver/format.go: arguments written into a query. The parser is the rest of the query. The
-- loop runs on the length of the query: each round reads at least one byte.
pub mod Plain
use uptrace_bun.Prelude.{
  ℕ, zero, suc, ◌-◌, ◌*◌, ◌+◌, ◌^◌, not, ◌&&◌, List, [], ◌∷◌, ◌++◌, Option, none, some, Bytes,
  codes, leb, ltb, ◌==◌, if◌then◌else◌, get_elem?, length, Result, ok, err, ◌>>=◌,
}
use uptrace_bun.Strconv.{append_int}
use uptrace_bun.Dialect.Append.{append_null, append_bool, append_string, append_bytes}
use uptrace_bun.Pgdriver.Replies.{parse_digits}
use uptrace_bun.Pgdriver.Messages.{
  Float64, nan, infinity, minus_infinity, finite, DriverValue, nil, int64, float64, bool, bytes,
  string, time, other,
}

-- `wanted i` says that there are fewer than `i` arguments; `index_range` stands for the panic on the
-- argument 0.
pub data FormatError : Type 0 where
  wanted : ℕ → FormatError
  index_range : FormatError
  unexpected_type : FormatError

append_float_arg : Bytes → Float64 → Bytes
append_float_arg b nan = b ++ codes "'NaN'"
append_float_arg b infinity = b ++ codes "'Infinity'"
append_float_arg b minus_infinity = b ++ codes "'-Infinity'"
append_float_arg b (finite text) = b ++ text

-- `appendArg`; its loops over a string and over a slice of bytes are those of dialect/append.go.
unfoldable pub append_driver_arg : Bytes → DriverValue → Result FormatError Bytes
unfolding append_null append_int append_float_arg append_bool append_bytes append_string
append_driver_arg b nil = ok (append_null b)
append_driver_arg b (int64 v) = ok (append_int b v)
append_driver_arg b (float64 v) = ok (append_float_arg b v)
append_driver_arg b (bool v) = ok (append_bool b v)
append_driver_arg b (bytes v) = ok (append_bytes b v)
append_driver_arg b (string v) = ok (append_string b v)
append_driver_arg b (time none) = ok (append_null b)
append_driver_arg b (time (some v)) = ok (((b ++ codes "'") ++ v) ++ codes "'")
append_driver_arg b other = err unexpected_type

-- The digits in front, and what follows them.
unfoldable pub span_digits : Bytes → Bytes × Bytes
span_digits [] = ([], [])
span_digits (c ∷ s) =
    let rest = span_digits s in
    if leb b'0' c && leb c b'9' then (c ∷ rest.0, rest.1) else ([], c ∷ s)

-- `strconv.Atoi` of digits; `none` is an error.
atoi : Bytes → Option ℕ
unfolding parse_digits
atoi [] = none
atoi (c ∷ s) = elim (parse_digits 0 (c ∷ s)) [
  | none ↦ none
  | some n ↦ if ltb n (2 ^ 63) then some n else none
]

-- `Number`: the parser stands behind the digits in both cases.
unfoldable pub number : Bytes → Option ℕ × Bytes
unfolding span_digits atoi
number s = (atoi ((span_digits s).0), (span_digits s).1)

-- The loop of `QuotedString` behind the byte `c`: a quote ends the string if no quote follows.
unfoldable pub quoted_from : ℕ → Bytes → Bytes × Bytes
quoted_from c [] = ([], [])
quoted_from c (next ∷ s) =
    let rest = quoted_from next s in
    if c == b'\'' && not (next == b'\'') then ([], next ∷ s) else (next ∷ rest.0, rest.1)

-- `QuotedString`, the parser being behind the quote.
unfoldable pub quoted_string : Bytes → Bytes × Bytes
unfolding quoted_from
quoted_string s = (b'\'' ∷ (quoted_from 0 s).0, (quoted_from 0 s).1)

-- `args[i-1].Value`
append_nth : Bytes → List DriverValue → ℕ → Result FormatError Bytes
unfolding append_driver_arg
append_nth dst args zero = err index_range
append_nth dst args (suc i) = elim (get_elem? args i) [
  | none ↦ err (wanted (suc i))
  | some v ↦ append_driver_arg dst v
]

-- The case of a dollar, given what `Number` says of it.
unfoldable pub append_dollar : Bytes → List DriverValue → Option ℕ → Result FormatError Bytes
unfolding append_nth
append_dollar dst args none = ok (dst ++ b'$' ∷ [])
append_dollar dst args (some i) = append_nth dst args i

unfoldable pub format_loop : ℕ → List DriverValue → Bytes → Bytes → Result FormatError Bytes
unfolding append_dollar number quoted_string
format_loop fuel args dst [] = ok dst
format_loop zero args dst (c ∷ s) = ok dst
format_loop (suc fuel) args dst (c ∷ s) =
    let dollar =
      append_dollar dst args ((number s).0) >>= λ dst'. format_loop fuel args dst' ((number s).1) in
    let quote = format_loop fuel args (dst ++ (quoted_string s).0) ((quoted_string s).1) in
    let plain = format_loop fuel args (dst ++ c ∷ []) s in
    if c == b'$' then dollar else if c == b'\'' then quote else plain

-- `formatQuery`
unfoldable pub format_driver_query : Bytes → List DriverValue → Result FormatError Bytes
unfolding format_loop
format_driver_query query [] = ok query
format_driver_query query (v ∷ vs) = format_loop (length query) (v ∷ vs) [] query
