-- ===== src/Pgdriver/Messages/Params.antt =====
-- The parameters of a Bind message, as the loop of writeBindExecute of driver/pgdriver/proto.go
-- writes them.
use uptrace_bun.Prelude.{
  ℕ, ◌-◌, ◌%◌, ◌^◌, ◌≡◌, refl, sym, ap, ◌∙◌, arith, List, [], ◌∷◌, ◌++◌, Bytes, true, false, ◌==◌,
  ltb, if◌then◌else◌, length, length-append, append_assoc, append-nil, Option, none, some, Result,
  ok, err, ◌>>=◌,
}
use uptrace_bun.Strconv.{pos, negsuc, append_int, append_uint}
use uptrace_bun.Dialect.Utf8.{rune_self, runes, encode_rune}
use uptrace_bun.Dialect.Append.{append_bool}
use uptrace_bun.Pgdriver.WriteBuffer.{
  WriteBuffer, be32, start_param, finish_param, finish_null_param,
}
use uptrace_bun.Pgdriver.Reader.{Failure}
use uptrace_bun.Pgdriver.Messages.{
  nan, infinity, minus_infinity, finite, DriverValue, nil, int64, float64, bool, bytes, string,
  time, other, append_stmt_rune, append_stmt_runes, append_float64, append_stmt_arg, end_param,
  write_arg, write_args,
}
use uptrace_bun.Pgdriver.Messages.Frames.{put_uint32-hole}

-- The text of a value, behind `b`.
behind : Bytes → Result Failure (Option Bytes) → Result Failure (Option Bytes)
behind b (ok (some t)) = ok (some (b ++ t))
behind b (ok none) = ok none
behind b (err e) = err e

append_stmt_rune-behind : (b : Bytes) (r : ℕ) → append_stmt_rune b r ≡ b ++ append_stmt_rune [] r
unfolding append_stmt_rune
append_stmt_rune-behind b r =
    elim (r == 0)
      as (λ z.
        (if z then b else if ltb r rune_self then b ++ r ∷ [] else b ++ encode_rune r)
        ≡ b ++ (if z then [] else if ltb r rune_self then r ∷ [] else encode_rune r)) [
          | true ↦ sym (append-nil b)
          | false ↦
              elim (ltb r rune_self)
                as (λ z.
                  (if z then b ++ r ∷ [] else b ++ encode_rune r)
                  ≡ b ++ (if z then r ∷ [] else encode_rune r)) [ true ↦ refl | false ↦ refl ]
        ]

append_stmt_runes-behind :
    (b t : Bytes) (rs : List ℕ) → append_stmt_runes (b ++ t) rs ≡ b ++ append_stmt_runes t rs
unfolding append_stmt_runes
append_stmt_runes-behind b t [] = refl
append_stmt_runes-behind b t (r ∷ rs) =
    let one =
      append_stmt_rune-behind (b ++ t) r
      ∙ append_assoc b t _
      ∙ ap (λ s. b ++ s) (sym (append_stmt_rune-behind t r)) in
    ap (λ s. append_stmt_runes s rs) one ∙ append_stmt_runes-behind b (append_stmt_rune t r) rs

append_stmt_arg-behind :
    (b : Bytes) (v : DriverValue) → append_stmt_arg b v ≡ behind b (append_stmt_arg [] v)
unfolding append_stmt_arg behind append_float64 append_bool append_int append_uint
append_stmt_arg-behind b nil = refl
append_stmt_arg-behind b (int64 (pos n)) = refl
append_stmt_arg-behind b (int64 (negsuc n)) = ap (λ s. ok (some s)) (append_assoc b _ _)
append_stmt_arg-behind b (float64 nan) = refl
append_stmt_arg-behind b (float64 infinity) = refl
append_stmt_arg-behind b (float64 minus_infinity) = refl
append_stmt_arg-behind b (float64 (finite t)) = refl
append_stmt_arg-behind b (bool true) = refl
append_stmt_arg-behind b (bool false) = refl
append_stmt_arg-behind b (bytes none) = refl
append_stmt_arg-behind b (bytes (some v)) = ap (λ s. ok (some s)) (append_assoc b _ _)
append_stmt_arg-behind b (string v) =
    ap (λ s. ok (some s))
      (ap (λ s. append_stmt_runes s (runes v)) (sym (append-nil b))
        ∙ append_stmt_runes-behind b [] (runes v))
append_stmt_arg-behind b (time none) = refl
append_stmt_arg-behind b (time (some v)) = refl
append_stmt_arg-behind b other = refl

-- A parameter as the protocol has it: its length and its text; the length -1 is NULL.
unfoldable pub param : Option Bytes → Bytes
param none = be32 (2 ^ 32 - 1)
param (some t) = be32 (length t % 2 ^ 32) ++ t

unfoldable pub params : List (Option Bytes) → Bytes
unfolding param
params [] = []
params (t ∷ ts) = param t ++ params ts

-- The buffer with `s` behind, in the same message.
unfoldable pub Extends : WriteBuffer → Bytes → WriteBuffer → Type 0
Extends wb s wb' = (wb'.bytes ≡ wb.bytes ++ s) × (wb'.msg_start ≡ wb.msg_start)

end_param-some :
    (wb : WriteBuffer) (t : Bytes)
    → Extends wb (param (some t)) (end_param (start_param wb) (some ((start_param wb).bytes ++ t)))
unfolding end_param param Extends start_param finish_param
end_param-some wb t =
    let long = length-append (wb.bytes ++ 0 ∷ 0 ∷ 0 ∷ 0 ∷ []) t in
    let zeros = length-append wb.bytes (0 ∷ 0 ∷ 0 ∷ 0 ∷ []) in
    let n : length ((wb.bytes ++ 0 ∷ 0 ∷ 0 ∷ 0 ∷ []) ++ t) - length wb.bytes - 4 ≡ length t =
      omega (arith, long, zeros) in
    (
      put_uint32-hole _ wb.bytes t _ _ (append_assoc wb.bytes _ t) refl
          ∙ ap (λ k. wb.bytes ++ (be32 (k % 2 ^ 32) ++ t)) n,
      refl,
    )

end_param-none : (wb : WriteBuffer) → Extends wb (param none) (end_param (start_param wb) none)
unfolding end_param param Extends start_param finish_null_param
end_param-none wb = (
  put_uint32-hole _ wb.bytes [] _ (2 ^ 32 - 1) refl refl
      ∙ ap (λ s. wb.bytes ++ s) (append-nil (be32 (2 ^ 32 - 1))),
  refl,
)

write_arg-Extends :
    (wb : WriteBuffer) (v : DriverValue) (t : Option Bytes)
    → append_stmt_arg [] v ≡ ok t
    → (wb' : WriteBuffer) × (write_arg wb v ≡ ok wb') × Extends wb (param t) wb'
unfolding write_arg behind
write_arg-Extends wb v (some t) h =
    let e =
      append_stmt_arg-behind (start_param wb).bytes v
      ∙ ap (λ r. behind (start_param wb).bytes r) h in
    (_, ap (λ r. r >>= λ b. ok (end_param (start_param wb) b)) e, end_param-some wb t)
write_arg-Extends wb v none h =
    let e =
      append_stmt_arg-behind (start_param wb).bytes v
      ∙ ap (λ r. behind (start_param wb).bytes r) h in
    (_, ap (λ r. r >>= λ b. ok (end_param (start_param wb) b)) e, end_param-none wb)

-- `ts` are the texts of the arguments.
abbrev pub AreTexts : List DriverValue → List (Option Bytes) → Type 0
AreTexts [] [] = Unit
AreTexts (v ∷ vs) (t ∷ ts) = (append_stmt_arg [] v ≡ ok t) × AreTexts vs ts
AreTexts _ _ = ⊥

pub write_args-Extends :
    (wb : WriteBuffer) (vs : List DriverValue) (ts : List (Option Bytes))
    → AreTexts vs ts
    → (wb' : WriteBuffer) × (write_args wb vs ≡ ok wb') × Extends wb (params ts) wb'
unfolding write_args params Extends
write_args-Extends wb [] [] h = (wb, refl, (sym (append-nil wb.bytes), refl))
write_args-Extends wb (v ∷ vs) (t ∷ ts) (hv, h) =
    let (wb1, one, ext1) = write_arg-Extends wb v t hv in
    let (wb2, rest, ext2) = write_args-Extends wb1 vs ts h in
    (
      wb2,
      ap (λ r. r >>= λ wb'. write_args wb' vs) one ∙ rest,
      (
        ext2.0 ∙ ap (λ b. b ++ params ts) ext1.0 ∙ append_assoc wb.bytes (param t) (params ts),
        ext2.1 ∙ ext1.1,
      ),
    )
write_args-Extends wb (v ∷ vs) [] h = absurd h
write_args-Extends wb [] (t ∷ ts) h = absurd h

pub AreTexts-length :
    (vs : List DriverValue) (ts : List (Option Bytes)) → AreTexts vs ts → length vs ≡ length ts
AreTexts-length [] [] h = refl
AreTexts-length (v ∷ vs) (t ∷ ts) (hv, h) = omega (arith, AreTexts-length vs ts h)
AreTexts-length (v ∷ vs) [] h = absurd h
AreTexts-length [] (t ∷ ts) h = absurd h
