-- ===== src/Query/Select/Count.antt =====
-- The query of `Count`, and LIMIT and OFFSET: query_select.go.
use uptrace_bun.Prelude.{
  ℕ, ◌+◌, ◌*◌, ◌^◌, ◌%◌, ◌-◌, ◌<◌, true, false, List, Bytes, ltb, ◌≡◌, refl, ap, ◌∙◌, arith,
}
use uptrace_bun.Strconv.{ℤ, pos, negsuc, int32_of_int}
use uptrace_bun.Schema.Formatter.{Formatter}
use uptrace_bun.Schema.Sqlfmt.{QueryWithArgs}
use uptrace_bun.Query.Select.{
  SelectQuery, append_select, append_select_body, append_count_query, set_limit, wraps_count,
}

-- The query that counts does not depend on ORDER BY, LIMIT, OFFSET and FOR.
pub append_count_query-tail :
    (f : Formatter) (b : Bytes) (q : SelectQuery) (order : List QueryWithArgs) (limit offset : ℤ)
    (sel_for : QueryWithArgs)
    → append_count_query f b
        (record q { order = order; limit = limit; offset = offset; sel_for = sel_for })
      ≡ append_count_query f b q
unfolding append_count_query append_select append_select_body wraps_count
append_count_query-tail f b q order limit offset sel_for = refl

-- The int32 with this remainder.
remainder_of : ℕ → ℤ
remainder_of r = elim (ltb r (2 ^ 31)) [ true ↦ pos r | false ↦ negsuc (2 ^ 32 - 1 - r) ]

remainder_small : (r : ℕ) → r < 2 ^ 31 → remainder_of r ≡ pos r
unfolding remainder_of
remainder_small r h = ground arith

remainder_large : (r : ℕ) → r < 2 ^ 31 → remainder_of (r + 2 ^ 31) ≡ negsuc (2 ^ 31 - 1 - r)
unfolding remainder_of
remainder_large r h = ground arith

small_limit :
    (q : SelectQuery) (r k : ℕ) → r < 2 ^ 31 → (set_limit q (pos (r + k * 2 ^ 32))).limit ≡ pos r
unfolding set_limit int32_of_int remainder_of
small_limit q r k h =
    let e : (r + k * 2 ^ 32) % 2 ^ 32 ≡ r = omega (arith, h) in
    ap remainder_of e ∙ remainder_small r h

large_limit :
    (q : SelectQuery) (r k : ℕ)
    → r < 2 ^ 31
    → (set_limit q (pos (r + 2 ^ 31 + k * 2 ^ 32))).limit ≡ negsuc (2 ^ 31 - 1 - r)
unfolding set_limit int32_of_int remainder_of
large_limit q r k h =
    let e : (r + 2 ^ 31 + k * 2 ^ 32) % 2 ^ 32 ≡ r + 2 ^ 31 = omega (arith, h) in
    ap remainder_of e ∙ remainder_large r h

-- `Limit` keeps the int32 of a number n that is not negative: with the remainder r of n by 2 ^ 31,
-- that is r if n is r and a multiple of 2 ^ 32, and r - 2 ^ 31 if n is 2 ^ 31 more than that.
pub set_limit-int32 :
    (q : SelectQuery) (r k : ℕ)
    → r < 2 ^ 31
    → ((set_limit q (pos (r + k * 2 ^ 32))).limit ≡ pos r)
      × ((set_limit q (pos (r + 2 ^ 31 + k * 2 ^ 32))).limit ≡ negsuc (2 ^ 31 - 1 - r))
set_limit-int32 q r k h = (small_limit q r k h, large_limit q r k h)
