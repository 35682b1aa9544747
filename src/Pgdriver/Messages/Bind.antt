-- ===== src/Pgdriver/Messages/Bind.antt =====
-- The Bind message that writeBindExecute of driver/pgdriver/proto.go writes, as a server reads it.
use uptrace_bun.Prelude.{
  ℕ, zero, suc, ◌-◌, ◌%◌, ◌^◌, ◌<◌, ◌≡◌, ◌≢◌, refl, sym, ap, ◌∙◌, arith, List, [], ◌∷◌, ◌++◌, Bytes,
  false, ◌==◌, ==_false_iff, if◌then◌else◌, length, append_assoc, append-nil, Option, none, some,
  ok, err, ◌>>=◌, All,
}
use uptrace_bun.Pgdriver.WriteBuffer.{
  new_write_buffer, WriteBuffer, be16, be32, push, start_message, finish_message, write_int16,
  write_int32, write_string,
}
use uptrace_bun.Pgdriver.Reader.{Reading, read_temp, read_uint16, read_uint32, eof}
use uptrace_bun.Pgdriver.Messages.{DriverValue, empty_message, end_bind_execute, write_bind_execute}
use uptrace_bun.Pgdriver.Messages.Frames.{frame, message-frame, be32-read, read_temp-append}
use uptrace_bun.Pgdriver.Messages.Params.{
  param, params, Extends, AreTexts, write_args-Extends, AreTexts-length,
}

-- The payload of Bind: no portal, the name of the statement, no formats, the parameters, no formats of
-- results.
bind_payload : Bytes → List (Option Bytes) → Bytes
bind_payload name ts =
    0 ∷ ((name ++ 0 ∷ []) ++ (be16 0 ++ (be16 (length ts % 2 ^ 16) ++ (params ts ++ be16 0))))

-- How a server reads a parameter.
read_param : Bytes → Reading (Option Bytes)
read_param s = read_uint32 s >>= λ n.
    if n.0 == 2 ^ 32 - 1
    then ok (none, n.1)
    else read_temp (n.0) (n.1) >>= λ t. ok (some (t.0), t.1)

read_params : ℕ → Bytes → Reading (List (Option Bytes))
unfolding read_param
read_params zero s = ok ([], s)
read_params (suc n) s = read_param s >>= λ t. read_params n (t.1) >>= λ ts. ok (t.0 ∷ ts.0, ts.1)

-- A text up to a NUL.
read_name : Bytes → Reading Bytes
read_name [] = err eof
read_name (c ∷ s) =
    let rest = read_name s in if c == 0 then ok ([], s) else rest >>= λ r. ok (c ∷ r.0, r.1)

-- How a server reads the payload of Bind: the portal, the statement, and the parameters behind the
-- count of formats.
unfoldable pub read_bind : Bytes → Reading (Bytes × (Bytes × List (Option Bytes)))
unfolding read_params read_name
read_bind s = do
  portal ← read_name s
  name ← read_name (portal.1)
  formats ← read_uint16 (name.1)
  n ← read_uint16 (formats.1)
  ts ← read_params (n.0) (n.1)
  ok ((portal.0, (name.0, ts.0)), ts.1)

-- A length fits and is not that of NULL.
abbrev pub IsSent : Option Bytes → Type 0
IsSent none = Unit
IsSent (some t) = length t < 2 ^ 32 - 1

read_param-param :
    (t : Option Bytes) (rest : Bytes) → IsSent t → read_param (param t ++ rest) ≡ ok (t, rest)
unfolding read_param param
read_param-param none rest h =
    ap
      (λ r. r >>= λ n.
        if n.0 == 2 ^ 32 - 1
        then ok (none, n.1)
        else read_temp (n.0) (n.1) >>= λ t. ok (some (t.0), t.1))
      (be32-read (2 ^ 32 - 1) rest (omega arith))
read_param-param (some t) rest h =
    let n : length t % 2 ^ 32 ≡ length t = omega (arith, h) in
    let counted : length t == 2 ^ 32 - 1 ≡ false = ground (arith, h) in
    let read =
      ap (λ k. read_uint32 ((be32 k ++ t) ++ rest)) n
      ∙ ap (λ s. read_uint32 s) (append_assoc (be32 (length t)) t rest)
      ∙ be32-read (length t) (t ++ rest) (omega (arith, h)) in
    ap
      (λ r. r >>= λ n.
        if n.0 == 2 ^ 32 - 1
        then ok (none, n.1)
        else read_temp (n.0) (n.1) >>= λ t. ok (some (t.0), t.1))
      read
    ∙ rw (counted, read_temp-append t rest) refl

read_params-params :
    (ts : List (Option Bytes)) (rest : Bytes)
    → All IsSent ts
    → read_params (length ts) (params ts ++ rest) ≡ ok (ts, rest)
unfolding read_params params
read_params-params [] rest h = refl
read_params-params (t ∷ ts) rest (ht, h) =
    let first =
      ap (λ s. read_param s) (append_assoc (param t) (params ts) rest)
      ∙ read_param-param t (params ts ++ rest) ht in
    ap (λ r. r >>= λ t'. read_params (length ts) (t'.1) >>= λ ts'. ok (t'.0 ∷ ts'.0, ts'.1)) first
    ∙ ap (λ r. r >>= λ ts'. ok (t ∷ ts'.0, ts'.1)) (read_params-params ts rest h)

read_name-name :
    (name rest : Bytes)
    → All (λ c. c ≢ 0) name
    → read_name ((name ++ 0 ∷ []) ++ rest) ≡ ok (name, rest)
unfolding read_name
read_name-name [] rest h = refl
read_name-name (c ∷ name) rest (nz, h) =
    rw ((==_false_iff c 0).1 nz, read_name-name name rest h) refl

be16-read : (n : ℕ) (rest : Bytes) → n < 2 ^ 16 → read_uint16 (be16 n ++ rest) ≡ ok (n, rest)
unfolding be16 read_uint16
be16-read n rest h = ap (λ k. ok (k, rest)) (omega arith)

read_bind-bind_payload :
    (name : Bytes) (ts : List (Option Bytes))
    → All (λ c. c ≢ 0) name
    → length ts < 2 ^ 16
    → All IsSent ts
    → read_bind (bind_payload name ts) ≡ ok (([], (name, ts)), be16 0)
unfolding read_bind bind_payload read_name be16
read_bind-bind_payload name ts hn hl ht =
    let n : length ts % 2 ^ 16 ≡ length ts = omega (arith, hl) in
    let back = params ts ++ be16 0 in
    rw
      (
        n,
        read_name-name name (be16 0 ++ (be16 (length ts) ++ back)) hn,
        be16-read 0 (be16 (length ts) ++ back) (omega arith),
        be16-read (length ts) back hl,
        read_params-params ts (be16 0) ht,
      )
      refl

end_bind_execute-frames :
    (payload : Bytes) (wb started : WriteBuffer)
    → wb.bytes ++ be16 0 ≡ (start_message started b'B').bytes ++ payload
    → wb.msg_start ≡ (start_message started b'B').msg_start
    → end_bind_execute wb
      ≡ ((started.bytes ++ frame b'B' payload) ++ frame b'E' (0 ∷ be32 0)) ++ frame b'S' []
unfolding end_bind_execute empty_message write_int16 write_int32 write_string push
end_bind_execute-frames payload wb started hb hs =
    let bind = finish_message (write_int16 wb 0) in
    let execute = finish_message (write_int32 (write_string (start_message bind b'E') []) 0) in
    let bound = message-frame b'B' payload started (write_int16 wb 0) (omega arith) hb hs in
    let executed =
      message-frame b'E' (0 ∷ be32 0) bind
        (write_int32 (write_string (start_message bind b'E') []) 0) (omega arith)
        (append_assoc (start_message bind b'E').bytes (0 ∷ []) (be32 0)) refl in
    let synced =
      message-frame b'S' [] execute (start_message execute b'S') (omega arith)
        (sym (append-nil (start_message execute b'S').bytes)) refl in
    synced ∙ ap (λ b. b ++ frame b'S' []) (executed ∙ ap (λ b. b ++ frame b'E' (0 ∷ be32 0)) bound)

flat : (a b c d e : Bytes) → (((a ++ b) ++ c) ++ d) ++ e ≡ a ++ (b ++ (c ++ (d ++ e)))
flat a b c d e =
    append_assoc ((a ++ b) ++ c) d e
    ∙ append_assoc (a ++ b) c (d ++ e)
    ∙ append_assoc a b (c ++ (d ++ e))

-- writeBindExecute, for a name without NUL, fewer than 65536 arguments that the driver takes, and
-- texts that are shorter than 4 GiB, writes Bind, Execute and Sync; a server that reads the payload of
-- Bind finds the unnamed portal, the name, and each argument's text or NULL, in order.
pub read_bind-write_bind_execute :
    (name : Bytes) (vs : List DriverValue) (ts : List (Option Bytes))
    → All (λ c. c ≢ 0) name
    → length vs < 2 ^ 16
    → AreTexts vs ts
    → All IsSent ts
    → (payload : Bytes) × (write_bind_execute name vs
        ≡ ok ((frame b'B' payload ++ frame b'E' (0 ∷ be32 0)) ++ frame b'S' []))
      × (read_bind payload ≡ ok (([], (name, ts)), be16 0))
unfolding write_bind_execute bind_payload write_int16 write_string push new_write_buffer Extends
    start_message
read_bind-write_bind_execute name vs ts hn hl hv hs =
    let same = AreTexts-length vs ts hv in
    let (wb, written, ext) = write_args-Extends _ vs ts hv in
    let head = λ (s : Bytes). b'B' ∷ 0 ∷ 0 ∷ 0 ∷ 0 ∷ 0 ∷ s in
    let counted =
      ap (λ s. head s)
        (flat (name ++ 0 ∷ []) (be16 0) (be16 (length vs % 2 ^ 16)) (params ts) (be16 0))
      ∙ ap
          (λ k. head ((name ++ 0 ∷ []) ++ (be16 0 ++ (be16 (k % 2 ^ 16) ++ (params ts ++ be16 0)))))
          same in
    (
      bind_payload name ts,
      ap (λ r. r >>= λ wb'. ok (end_bind_execute wb')) written
          ∙ ap (λ b. ok b)
              (end_bind_execute-frames (bind_payload name ts) wb new_write_buffer
                (ap (λ b. b ++ be16 0) ext.0 ∙ counted) ext.1),
      read_bind-bind_payload name ts hn (omega (arith, same, hl)) hs,
    )
