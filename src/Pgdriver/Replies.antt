-- ===== src/Pgdriver/Replies.antt =====
-- The loops of driver/pgdriver/proto.go that read the server's replies. Each is `for` over messages
-- with a switch on the type: `receive` is the loop, and the functions on one message are the
-- switches.
use uptrace_bun.Prelude.{
  ℕ, zero, suc, ◌+◌, ◌-◌, ◌*◌, ◌^◌, ◌&&◌, [], ◌∷◌, Option, none, some, Bytes, ltb, leb, ◌==◌,
  if◌then◌else◌, Result, ok, err, ◌>>=◌,
}
use uptrace_bun.Strconv.{ℤ, pos, int64_of_uint64}
use uptrace_bun.Pgdriver.Reader.{Failure, slice_bounds_panic, Reading, read_message_type}

-- What one message does to a loop with the variables `S` and the result `R`.
pub data Turn (S R : Type 0) : Type 0 where
  continue : S → Bytes → Turn S R
  stop : R → Bytes → Turn S R
  fail : Failure → Turn S R

abbrev pub after_type :
    {R : Type 0}
    → ((ℕ × ℤ) × Bytes → Option (Result Failure (R × Bytes)))
    → Reading (ℕ × ℤ)
    → Option (Result Failure (R × Bytes))
after_type switch (err e) = some (err e)
after_type switch (ok m) = switch m

module _ {S R : Type 0} where
  -- `if err != nil { return nil, err }` behind a read.
  abbrev pub proceed : {A : Type 0} → Reading A → (A → Bytes → Turn S R) → Turn S R
  proceed (err e) k = fail e
  proceed (ok r) k = k (r.0) (r.1)

  -- The end of the loop, or another round.
  abbrev pub after_turn :
      (S → Bytes → Option (Result Failure (R × Bytes)))
      → Turn S R
      → Option (Result Failure (R × Bytes))
  after_turn again (fail e) = some (err e)
  after_turn again (stop r rd) = some (ok (r, rd))
  after_turn again (continue s rd) = again s rd

  -- The loop; `none` is a loop that has run out of fuel.
  unfoldable pub receive :
      (ℕ → ℤ → S → Bytes → Turn S R) → ℕ → S → Bytes → Option (Result Failure (R × Bytes))
  unfolding read_message_type
  receive handle zero s rd = none
  receive handle (suc fuel) s rd =
      after_type (λ m. after_turn (λ s' rd'. receive handle fuel s' rd') (handle m.0.0 m.0.1 s m.1))
        (read_message_type rd)

-- The variables `res` and `firstErr`.
pub record Pending (A : Type 0) : Type 0 where
  pub res : Option A
  pub first_err : Option Failure

unfoldable pub nothing : {A : Type 0} → Pending A
nothing = record { res = none; first_err = none }

-- `if firstErr == nil { firstErr = e }`
unfoldable pub keep_first : {A : Type 0} → Failure → Pending A → Pending A
keep_first e s = record {
  res = s.res;
  first_err = elim (s.first_err) [ some x ↦ some x | none ↦ some e ];
}

-- A number out of the range of uint64 is an error.
unfoldable pub in_uint64 : Option ℕ → Option ℕ
in_uint64 none = none
in_uint64 (some n) = if ltb n (2 ^ 64) then some n else none

-- `strconv.ParseUint(s, 10, 64)`; `none` is an error.
unfoldable pub parse_digits : ℕ → Bytes → Option ℕ
parse_digits n [] = some n
parse_digits n (c ∷ s) =
    let rest = parse_digits (n * 10 + (c - b'0')) s in
    if leb b'0' c && leb c b'9' then rest else none

unfoldable pub parse_uint : Bytes → Option ℕ
unfolding parse_digits in_uint64
parse_uint [] = none
parse_uint (c ∷ s) = in_uint64 (parse_digits 0 (c ∷ s))

-- What stands behind the last space; `none` without a space.
unfoldable pub last_word : Bytes → Option Bytes
last_word [] = none
last_word (c ∷ s) = elim (last_word s) [
  | some w ↦ some w
  | none ↦ if c == b' ' then some s else none
]

-- Without the last byte; `slice_bounds_panic` if there is none.
unfoldable pub without_last : Bytes → Result Failure Bytes
without_last [] = err slice_bounds_panic
without_last (c ∷ []) = ok []
without_last (c ∷ d ∷ s) = without_last (d ∷ s) >>= λ w. ok (c ∷ w)

-- `driver.RowsAffected` of a uint64, an int64; 0 if there was no number.
unfoldable pub row_count : Option ℕ → ℤ
unfolding int64_of_uint64
row_count none = pos 0
row_count (some n) = int64_of_uint64 n

-- What `parseResult` makes of the text behind the last space.
unfoldable pub parse_word : Option Bytes → Result Failure ℤ
unfolding without_last parse_uint row_count
parse_word none = ok (pos 0)
parse_word (some w) = without_last w >>= λ number. ok (row_count (parse_uint number))

-- `parseResult` of driver.go: the number of rows affected. It returns no error, but panics for a tag
-- that ends with a space.
unfoldable pub parse_result : Bytes → Result Failure ℤ
unfolding last_word parse_word
parse_result b = parse_word (last_word b)
