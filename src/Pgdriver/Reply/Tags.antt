-- ===== src/Pgdriver/Reply/Tags.antt =====
-- What parseResult of driver/pgdriver/driver.go reads in the tag of a command.
use native.Mathlib.Numerals.{unary_clauses}
use uptrace_bun.Prelude.{
  ℕ, suc, ◌+◌, ◌-◌, ◌*◌, ◌^◌, ◌<◌, ◌≡◌, refl, ap, ◌∙◌, arith, true, false, ltb, leb, ◌&&◌,
  ==_false_iff, if◌then◌else◌, [], ◌∷◌, ◌++◌, Bytes, length, none, some, ok, ◌>>=◌, All, All-append,
  Bool,
}
use uptrace_bun.Strconv.{ℤ, pos, int64_of_uint64}
use uptrace_bun.Parser.Laws.{Lacks}
use uptrace_bun.Pgdriver.Replies.{
  parse_digits, in_uint64, parse_uint, parse_word, last_word, without_last, row_count, parse_result,
}
use uptrace_bun.Pgdriver.Reply.{decimal_value, IsDigit, IsTag, rows, ends_in_word, one_word}

last_word-Lacks : (s : Bytes) → Lacks b' ' s → last_word s ≡ none
unfolding last_word
last_word-Lacks [] h = refl
last_word-Lacks (c ∷ s) (n, h) = rw (last_word-Lacks s h, (==_false_iff c b' ').1 n) refl

last_word-behind : (words s : Bytes) → Lacks b' ' s → last_word (words ++ b' ' ∷ s) ≡ some s
unfolding last_word
last_word-behind [] s h = rw (last_word-Lacks s h) refl
last_word-behind (c ∷ words) s h = rw (last_word-behind words s h) refl

without_last-append : (s : Bytes) (c : ℕ) → without_last (s ++ c ∷ []) ≡ ok s
unfolding without_last
without_last-append [] c = refl
without_last-append (d ∷ []) c = refl
without_last-append (d ∷ e ∷ s) c = rw (without_last-append (e ∷ s) c) refl

shift : (n x p v : ℕ) → (n * 10 + x) * p + v ≡ n * (p * 10) + (x * p + v)
shift n x p v = grind arith

shift_digit : (n x k v : ℕ) → (n * 10 + x) * 10 ^ k + v ≡ n * 10 ^ suc k + (x * 10 ^ k + v)
shift_digit n x k v = simp unary_clauses (shift n x (10 ^ k) v)

parse_digits-value :
    (n : ℕ) (ds : Bytes)
    → All IsDigit ds
    → parse_digits n ds ≡ some (n * 10 ^ length ds + decimal_value ds)
unfolding parse_digits decimal_value
parse_digits-value n [] h = ap some (omega arith)
parse_digits-value n (d ∷ ds) ((l, u), h) =
    let digit : (leb b'0' d && leb d b'9') ≡ true = ground (arith, l, u) in
    rw (digit) (
      parse_digits-value (n * 10 + (d - b'0')) ds h
      ∙ ap some (shift_digit n (d - b'0') (length ds) (decimal_value ds)))

no_more : (k v : ℕ) → 0 * 10 ^ k + v ≡ v
no_more k v = grind arith

parse_uint-value :
    (ds : Bytes) (d : ℕ)
    → All IsDigit (d ∷ ds)
    → decimal_value (d ∷ ds) < 2 ^ 63
    → parse_uint (d ∷ ds) ≡ some (decimal_value (d ∷ ds))
unfolding parse_uint in_uint64
parse_uint-value ds d h small =
    let read : parse_digits 0 (d ∷ ds) ≡ some (decimal_value (d ∷ ds)) =
      parse_digits-value 0 (d ∷ ds) h ∙ ap some (no_more (length (d ∷ ds)) _) in
    let fits : ltb (decimal_value (d ∷ ds)) (2 ^ 64) ≡ true = ground (arith, small) in
    ap (λ o. in_uint64 o) read ∙ rw (fits) refl

parse_uint-word : (c : ℕ) (s : Bytes) → b'9' < c → parse_uint (c ∷ s) ≡ none
unfolding parse_uint parse_digits in_uint64
parse_uint-word c s h =
    let digit : (leb b'0' c && leb c b'9') ≡ false = ground (arith, h) in
    ap (λ (t : Bool). in_uint64 (if t then parse_digits (0 + (c - b'0')) s else none)) digit

row_count-small : (n : ℕ) → n < 2 ^ 63 → row_count (some n) ≡ pos n
unfolding row_count int64_of_uint64
row_count-small n h = ground arith

digits-Lacks : (ds : Bytes) → All IsDigit ds → Lacks b' ' ds
digits-Lacks [] h = tt
digits-Lacks (d ∷ ds) ((l, u), h) = (omega arith, digits-Lacks ds h)

-- What stands behind the last space is read as a number.
parse_result-behind :
    (words s : Bytes)
    → Lacks b' ' s
    → parse_result (words ++ b' ' ∷ (s ++ 0 ∷ [])) ≡ ok (row_count (parse_uint s))
unfolding parse_result parse_word
parse_result-behind words s h =
    ap (λ o. parse_word o)
      (last_word-behind words (s ++ 0 ∷ []) (All-append _ s (0 ∷ []) h (omega arith, tt)))
    ∙ ap (λ r. r >>= λ number. ok (row_count (parse_uint number))) (without_last-append s 0)

pub parse_result-IsTag : {tag : Bytes} {n : ℤ} → IsTag tag n → parse_result tag ≡ ok n
unfolding parse_result parse_word row_count
parse_result-IsTag (rows words digits d h small) =
    parse_result-behind words (d ∷ digits) (digits-Lacks (d ∷ digits) h)
    ∙ ap (λ o. ok (row_count o)) (parse_uint-value digits d h small)
    ∙ ap ok (row_count-small (decimal_value (d ∷ digits)) small)
parse_result-IsTag (ends_in_word words word c h l) =
    parse_result-behind words (c ∷ word) (omega arith, l)
    ∙ ap (λ o. ok (row_count o)) (parse_uint-word c word h)
parse_result-IsTag (one_word word h) =
    ap (λ o. parse_word o)
      (last_word-Lacks (word ++ 0 ∷ []) (All-append _ word (0 ∷ []) h (omega arith, tt)))
