-- ===== src/Pgdriver/Rows/Close.antt =====
-- How Close of driver/pgdriver/driver.go ends when rows are left, and when none is.
use uptrace_bun.Prelude.{
  ℕ, suc, ◌+◌, ◌*◌, ◌/◌, ◌%◌, ◌^◌, ◌==◌, if◌then◌else◌, append_assoc, ◌<◌, ◌≡◌, refl, ap, ◌∙◌,
  arith, Bool, true, false, ◌++◌, Bytes, length, Option, none, some, ok, err, ◌>>=◌,
}
use uptrace_bun.Strconv.{pos}
use uptrace_bun.Pgdriver.WriteBuffer.{be16}
use uptrace_bun.Pgdriver.Reader.{wrong_columns, read_int16, read_uint16, int16_of_uint16, discard}
use uptrace_bun.Pgdriver.Replies.{stop, proceed, after_turn, after_type, receive}
use uptrace_bun.Pgdriver.Loops.{RowDescription, opened}
use uptrace_bun.Pgdriver.Columns.{Parsers}
use uptrace_bun.Pgdriver.Messages.Frames.{frame, read_message_type-frame, read_temp-append}
use uptrace_bun.Pgdriver.Reply.{IsShort}
use uptrace_bun.Pgdriver.Rows.{
  row_found, at_end, read_cells, finish_next, finish_close, on_next, read_data_row, same_count,
  next_row, close_rows,
}

==_suc : (n : ℕ) → suc n == 0 ≡ false
==_suc n = ground arith

int16_of_uint16-small : (n : ℕ) → n < 2 ^ 15 → int16_of_uint16 n ≡ pos n
unfolding int16_of_uint16
int16_of_uint16-small n h = ground arith

be16-read : (n : ℕ) (rest : Bytes) → n < 2 ^ 15 → read_int16 (be16 n ++ rest) ≡ ok (pos n, rest)
unfolding be16 read_int16 read_uint16
be16-read n rest h =
    let whole : (n / 256) % 256 * 256 + n % 256 ≡ n = omega (arith, h) in
    ap (λ k. ok (int16_of_uint16 k, rest)) whole
    ∙ ap (λ z. ok (z, rest)) (int16_of_uint16-small n h)

module _ {Float Time : Type 0} (parsers : Parsers Float Time) (desc : Option RowDescription) where
  next-frame :
      (fuel c : ℕ) (payload rest : Bytes)
      → IsShort payload
      → receive (on_next parsers desc 0) (suc fuel) none (frame c payload ++ rest)
        ≡ after_turn
            (λ s' rd'. receive (on_next parsers desc 0) fuel s' rd')
            (on_next parsers desc 0 c (pos (length payload)) none (payload ++ rest))
  unfolding receive
  next-frame fuel c payload rest h =
      ap
        (λ r.
          after_type
            (λ m.
              after_turn (λ s' rd'. receive (on_next parsers desc 0) fuel s' rd')
                (on_next parsers desc 0 m.0.0 m.0.1 none m.1))
            r)
        (read_message_type-frame c payload rest h)

  data_row-refused :
      (n : ℕ) (cells rest : Bytes)
      → suc n < 2 ^ 15
      → read_data_row parsers desc 0 ((be16 (suc n) ++ cells) ++ rest)
        ≡ err (wrong_columns (pos (suc n)) 0)
  unfolding read_data_row same_count
  data_row-refused n cells rest h =
      ap
        (λ r. r >>= λ num.
          if same_count num.0 0
          then read_cells parsers desc 0 0 num.1
          else err (wrong_columns num.0 0))
        (ap (λ s. read_int16 s) (append_assoc (be16 (suc n)) cells rest)
          ∙ be16-read (suc n) (cells ++ rest) h)
      ∙ rw (==_suc n) refl

-- If a row of at least one column follows, Close closes the connection and returns an error, as it
-- reads the row with no values to take; if only ReadyForQuery follows, it keeps the connection open
-- and returns no error.
pub close_rows-frame :
    {Float Time : Type 0} (parsers : Parsers Float Time) (desc : Option RowDescription)
    (reusable : Bool) (n : ℕ) (cells status rest : Bytes)
    → suc n < 2 ^ 15
    → IsShort (be16 (suc n) ++ cells)
    → IsShort status
    → (close_rows parsers (opened desc reusable) (frame b'D' (be16 (suc n) ++ cells) ++ rest)
        ≡ some (true, some (wrong_columns (pos (suc n)) 0)))
      × (close_rows parsers (opened desc reusable) (frame b'Z' status ++ rest) ≡ some (false, none))
unfolding close_rows next_row on_next discard
close_rows-frame parsers desc reusable n cells status rest hn hc hs = (
  ap (λ o. finish_close parsers (finish_next parsers (opened desc reusable) o))
      (next-frame parsers desc _ b'D' (be16 (suc n) ++ cells) rest hc
        ∙ ap
            (λ r.
              after_turn
                (λ s' rd'.
                  receive (on_next parsers desc 0)
                    (length (frame b'D' (be16 (suc n) ++ cells) ++ rest)) s' rd')
                (proceed r (λ vs rd'. stop (row_found vs) rd')))
            (data_row-refused parsers desc n cells rest hn)),
  ap (λ o. finish_close parsers (finish_next parsers (opened desc reusable) o))
      (next-frame parsers desc _ b'Z' status rest hs
        ∙ ap
            (λ r.
              after_turn
                (λ s' rd'.
                  receive (on_next parsers desc 0) (length (frame b'Z' status ++ rest)) s' rd')
                (proceed r (λ _ rd'. stop (at_end none) rd')))
            (read_temp-append status rest)),
)
