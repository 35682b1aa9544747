-- ===== src/Pgdriver/Sync.antt =====
-- What `readQuery` of driver/pgdriver/proto.go makes of the messages of a whole reply.
use uptrace_bun.Prelude.{
  ℕ, zero, suc, ◌+◌, ◌%◌, ◌^◌, ◌<◌, ◌≤◌, ◌≡◌, ◌≢◌, refl, sym, ap, ◌∙◌, arith, List, [], ◌∷◌, ◌++◌,
  Bytes, ==_false_iff, length, length-append, append_assoc, Option, none, some, ok, ◌>>=◌, All,
}
use uptrace_bun.Strconv.{ℤ, pos}
use uptrace_bun.Pgdriver.WriteBuffer.{be32}
use uptrace_bun.Pgdriver.Reader.{
  Failure, server, empty_query, discard, read_slice, buffer_size, read_string, read_error_loop,
  read_error,
}
use uptrace_bun.Pgdriver.Replies.{
  continue, stop, proceed, after_turn, after_type, receive, Pending, nothing, keep_first,
}
use uptrace_bun.Pgdriver.Loops.{
  pass_over, note_error, with_res, complete_parsed, complete_query, on_query, read_query,
}
use uptrace_bun.Pgdriver.Messages.Frames.{frame, read_message_type-frame, read_temp-append}
use uptrace_bun.Pgdriver.Reply.Tags.{parse_result-IsTag}
use uptrace_bun.Pgdriver.Reply.{
  data_row, row_description, notice, parameter_status, Reply, failure, empty, complete, passed,
  fields_text, type_and_payload, sent, IsShort, IsField, IsReply, errors, counts, first_or, last_or,
}

read_slice-text :
    (room : ℕ) (text rest : Bytes)
    → length text < room
    → All (λ c. c ≢ 0) text
    → read_slice room ((text ++ 0 ∷ []) ++ rest) ≡ ok (text, rest)
unfolding read_slice
read_slice-text zero text rest h nz = absurd (omega arith)
read_slice-text (suc room) [] rest h nz = refl
read_slice-text (suc room) (c ∷ text) rest h (n, nz) =
    rw ((==_false_iff c 0).1 n, read_slice-text room text rest (omega arith) nz) refl

read_string-text :
    (text rest : Bytes)
    → length text < buffer_size
    → All (λ c. c ≢ 0) text
    → read_string ((text ++ 0 ∷ []) ++ rest) ≡ ok (text, rest)
unfolding read_string
read_string-text text rest h nz = read_slice-text buffer_size text rest h nz

read_error_loop-fields :
    (fuel : ℕ) (fs : List (ℕ × Bytes)) (rest : Bytes)
    → length fs < fuel
    → All IsField fs
    → read_error_loop fuel (fields_text fs ++ rest) ≡ ok (fs, rest)
unfolding read_error_loop fields_text
read_error_loop-fields zero fs rest h hf = absurd (omega arith)
read_error_loop-fields (suc fuel) [] rest h hf = refl
read_error_loop-fields (suc fuel) (f ∷ fs) rest h ((nz, plain, short), hf) =
    rw
      (
        (==_false_iff f.0 0).1 nz,
        append_assoc (f.1 ++ 0 ∷ []) (fields_text fs) rest,
        read_string-text f.1 (fields_text fs ++ rest) short plain,
        read_error_loop-fields fuel fs rest (omega arith) hf,
      )
      refl

fields_text-length : (fs : List (ℕ × Bytes)) → length fs < length (fields_text fs)
unfolding fields_text
fields_text-length [] = omega arith
fields_text-length (f ∷ fs) =
    omega (arith, fields_text-length fs, length-append (f.1 ++ 0 ∷ []) (fields_text fs))

read_error-fields :
    (fs : List (ℕ × Bytes)) (rest : Bytes)
    → All IsField fs
    → read_error (fields_text fs ++ rest) ≡ ok (server fs, rest)
unfolding read_error
read_error-fields fs rest hf =
    let long = length-append (fields_text fs) rest in
    ap (λ r. r >>= λ m. ok (server (m.0), m.1))
      (read_error_loop-fields (length (fields_text fs ++ rest)) fs rest
        (omega (arith, long, fields_text-length fs)) hf)

-- What a message does to the variables.
step : Reply → Pending ℤ → Pending ℤ
step (failure fs) s = keep_first (server fs) s
step empty s = keep_first empty_query s
step (complete tag n) s = with_res n s
step (passed k payload) s = s

pass_over-payload :
    (s : Pending ℤ) (payload rest : Bytes)
    → pass_over {R = Pending ℤ} (pos (length payload)) s (payload ++ rest) ≡ continue s rest
unfolding pass_over discard
pass_over-payload s payload rest =
    ap (λ r. proceed r (λ _ rd. continue s rd)) (read_temp-append payload rest)

on_query-step :
    (r : Reply) (s : Pending ℤ) (rest : Bytes)
    → IsReply r
    → on_query
        ((type_and_payload r).0)
        (pos (length ((type_and_payload r).1)))
        s
        ((type_and_payload r).1 ++ rest)
      ≡ continue (step r s) rest
unfolding on_query step note_error complete_query complete_parsed discard type_and_payload
    fields_text
on_query-step (failure fs) s rest h =
    ap (λ r. proceed r (λ e rd. continue (keep_first e s) rd)) (read_error-fields fs rest h)
on_query-step empty s rest h = refl
on_query-step (complete tag n) s rest h =
    ap (λ m. complete_query s m) (read_temp-append tag rest)
    ∙ ap (λ m. complete_parsed s rest m) (parse_result-IsTag h)
on_query-step (passed data_row payload) s rest h = pass_over-payload s payload rest
on_query-step (passed row_description payload) s rest h = pass_over-payload s payload rest
on_query-step (passed notice payload) s rest h = pass_over-payload s payload rest
on_query-step (passed parameter_status payload) s rest h = pass_over-payload s payload rest

receive-frame :
    (fuel : ℕ) (s : Pending ℤ) (c : ℕ) (payload rest : Bytes)
    → IsShort payload
    → receive on_query (suc fuel) s (frame c payload ++ rest)
      ≡ after_turn
          (λ s' rd'. receive on_query fuel s' rd')
          (on_query c (pos (length payload)) s (payload ++ rest))
unfolding receive
receive-frame fuel s c payload rest h =
    ap
      (λ r.
        after_type
          (λ m. after_turn (λ s' rd'. receive on_query fuel s' rd') (on_query m.0.0 m.0.1 s m.1)) r)
      (read_message_type-frame c payload rest h)

steps : List Reply → Pending ℤ → Pending ℤ
unfolding step
steps [] s = s
steps (r ∷ rs) s = steps rs (step r s)

receive-sent :
    (fuel : ℕ) (rs : List Reply) (s : Pending ℤ) (status rest : Bytes)
    → length rs < fuel
    → All (λ r. IsShort ((type_and_payload r).1) × IsReply r) rs
    → IsShort status
    → receive on_query fuel s (sent rs (frame b'Z' status ++ rest)) ≡ some (ok (steps rs s, rest))
unfolding sent steps on_query discard
receive-sent zero rs s status rest l h hs = absurd (omega arith)
receive-sent (suc fuel) [] s status rest l h hs =
    receive-frame fuel s b'Z' status rest hs
    ∙ ap (λ r. after_turn (λ s' rd'. receive on_query fuel s' rd') (proceed r (λ _ rd. stop s rd)))
        (read_temp-append status rest)
receive-sent (suc fuel) (r ∷ rs) s status rest l ((short, hr), h) hs =
    receive-frame fuel s ((type_and_payload r).0) ((type_and_payload r).1)
      (sent rs (frame b'Z' status ++ rest)) short
    ∙ ap (λ t. after_turn (λ s' rd'. receive on_query fuel s' rd') t)
        (on_query-step r s (sent rs (frame b'Z' status ++ rest)) hr)
    ∙ receive-sent fuel rs (step r s) status rest (omega arith) h hs

kept-first_or :
    (o : Option Failure) (e : Failure) (es : List Failure)
    → first_or (elim o as (λ _. Option Failure) [ some x ↦ some x | none ↦ some e ]) es
      ≡ first_or o (e ∷ es)
unfolding first_or
kept-first_or (some x) e es = refl
kept-first_or none e es = refl

first_or-none : (o : Option Failure) → first_or o [] ≡ o
unfolding first_or
first_or-none (some x) = refl
first_or-none none = refl

steps_lem :
    (rs : List Reply) (s : Pending ℤ)
    → steps rs s
      ≡ record { res = last_or s.res (counts rs); first_err = first_or s.first_err (errors rs) }
unfolding steps step errors counts last_or keep_first with_res
steps_lem [] s = ap (λ o. record { res = s.res; first_err = o }) (sym (first_or-none s.first_err))
steps_lem (failure fs ∷ rs) s =
    steps_lem rs (keep_first (server fs) s)
    ∙ ap (λ o. record { res = last_or s.res (counts rs); first_err = o })
        (kept-first_or s.first_err (server fs) (errors rs))
steps_lem (empty ∷ rs) s =
    steps_lem rs (keep_first empty_query s)
    ∙ ap (λ o. record { res = last_or s.res (counts rs); first_err = o })
        (kept-first_or s.first_err empty_query (errors rs))
steps_lem (complete tag n ∷ rs) s = steps_lem rs (with_res n s)
steps_lem (passed k payload ∷ rs) s = steps_lem rs s

sent-length : (rs : List Reply) (rest : Bytes) → length rs ≤ length (sent rs rest)
unfolding sent frame
sent-length [] rest = omega arith
sent-length (r ∷ rs) rest = omega (
  arith,
  sent-length rs rest,
  length-append (be32 ((length ((type_and_payload r).1) + 4) % 2 ^ 32) ++ (type_and_payload r).1)
      (sent rs rest),
)

-- If the server answers with well-formed messages of which none is longer than the protocol allows,
-- and then ReadyForQuery, readQuery reads exactly these and returns the number of rows of the last
-- command, if one ended, with the first error, if there was one.
pub read_query-sent :
    (rs : List Reply) (status rest : Bytes)
    → All (λ r. IsShort ((type_and_payload r).1) × IsReply r) rs
    → IsShort status
    → read_query (sent rs (frame b'Z' status ++ rest))
      ≡ some (
          ok (
            record { res = last_or none (counts rs); first_err = first_or none (errors rs) },
            rest,
          ))
unfolding read_query nothing
read_query-sent rs status rest h hs =
    receive-sent (suc (length (sent rs (frame b'Z' status ++ rest)))) rs nothing status rest
      (omega (arith, sent-length rs (frame b'Z' status ++ rest))) h hs
    ∙ ap (λ p. some (ok (p, rest))) (steps_lem rs nothing)
