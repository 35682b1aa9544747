-- ===== src/Pgdriver/Messages/Frames.antt =====
-- The frames of the protocol, and the reading of one by the reader of driver/pgdriver/proto.go.
use uptrace_bun.Prelude.{
  ℕ, ◌+◌, ◌-◌, ◌%◌, ◌^◌, ◌<◌, ◌≡◌, ◌≢◌, refl, sym, ap, ◌∙◌, arith, [], ◌∷◌, ◌++◌, Bytes, false, ltb,
  ==_false_iff, length, take, drop, length-append, append_assoc, ok, ◌>>=◌,
}
use uptrace_bun.Strconv.{pos, int32_of_int}
use uptrace_bun.Pgdriver.WriteBuffer.{WriteBuffer, be32, put_uint32, start_message, finish_message}
use uptrace_bun.Pgdriver.WriteBuffer.Laws.{put_uint32-append}
use uptrace_bun.Pgdriver.Reader.{
  read_byte, read_temp, read_uint32, read_int32, read_message_type, minus_four,
}

-- A message of the protocol: its type, the length of the payload and of the length itself, and the
-- payload.
unfoldable pub frame : ℕ → Bytes → Bytes
unfolding be32
frame c payload = c ∷ (be32 ((length payload + 4) % 2 ^ 32) ++ payload)

pub put_uint32-hole :
    (b before rest : Bytes) (start n : ℕ)
    → b ≡ before ++ (0 ∷ 0 ∷ 0 ∷ 0 ∷ rest)
    → start ≡ length before
    → put_uint32 b start n ≡ before ++ (be32 n ++ rest)
put_uint32-hole b before rest start n hb hs = rw (hb, hs) (put_uint32-append before rest n)

finish_message-Writes :
    (wb : WriteBuffer) (before payload : Bytes) (c : ℕ)
    → wb.bytes ≡ (before ++ c ∷ []) ++ (0 ∷ 0 ∷ 0 ∷ 0 ∷ payload)
    → wb.msg_start ≡ length (before ++ c ∷ [])
    → (finish_message wb).bytes ≡ before ++ frame c payload
unfolding finish_message frame
finish_message-Writes wb before payload c hb hs =
    let long = length-append (before ++ c ∷ []) (0 ∷ 0 ∷ 0 ∷ 0 ∷ payload) in
    let n : length (wb.bytes) - wb.msg_start ≡ length payload + 4 =
      rw (hb, hs, long) (omega arith) in
    put_uint32-hole wb.bytes (before ++ c ∷ []) payload wb.msg_start _ hb hs
    ∙ ap (λ k. (before ++ c ∷ []) ++ (be32 (k % 2 ^ 32) ++ payload)) n
    ∙ append_assoc before (c ∷ []) _

start_message-Started :
    (wb : WriteBuffer) (c : ℕ)
    → c ≢ 0
    → ((start_message wb c).bytes ≡ wb.bytes ++ (c ∷ 0 ∷ 0 ∷ 0 ∷ 0 ∷ []))
      × ((start_message wb c).msg_start ≡ length (wb.bytes ++ c ∷ []))
unfolding start_message
start_message-Started wb c nz =
    let e = (==_false_iff c 0).1 nz in
    let long = length-append wb.bytes (c ∷ []) in (rw e refl, rw e (omega (arith, long)))

-- A message, from StartMessage to FinishMessage.
pub message-frame :
    (c : ℕ) (payload : Bytes) (wb filled : WriteBuffer)
    → c ≢ 0
    → filled.bytes ≡ (start_message wb c).bytes ++ payload
    → filled.msg_start ≡ (start_message wb c).msg_start
    → (finish_message filled).bytes ≡ wb.bytes ++ frame c payload
message-frame c payload wb filled nz written at_written =
    let (started, at_start) = start_message-Started wb c nz in
    finish_message-Writes filled wb.bytes payload c
      (written
        ∙ ap (λ b. b ++ payload) started
        ∙ append_assoc wb.bytes (c ∷ 0 ∷ 0 ∷ 0 ∷ 0 ∷ []) payload
        ∙ sym (append_assoc wb.bytes (c ∷ []) _))
      (at_written ∙ at_start)

pub be32-read : (n : ℕ) (rest : Bytes) → n < 2 ^ 32 → read_uint32 (be32 n ++ rest) ≡ ok (n, rest)
unfolding be32 read_uint32
be32-read n rest h = ap (λ k. ok (k, rest)) (omega arith)

int32_of_int-small : (n : ℕ) → n < 2 ^ 31 → int32_of_int (pos n) ≡ pos n
unfolding int32_of_int
int32_of_int-small n h = ground arith

pub read_int32-be32 :
    (n : ℕ) (rest : Bytes) → n < 2 ^ 31 → read_int32 (be32 n ++ rest) ≡ ok (pos n, rest)
unfolding read_int32
read_int32-be32 n rest h = rw (be32-read n rest (omega arith), int32_of_int-small n h) refl

minus_four_lem : (n : ℕ) → minus_four (pos (n + 4)) ≡ pos n
unfolding minus_four
minus_four_lem n = ground arith

-- The reader finds the type and the length of the payload, and stands before the payload.
pub read_message_type-frame :
    (c : ℕ) (payload rest : Bytes)
    → length payload + 4 < 2 ^ 31
    → read_message_type (frame c payload ++ rest) ≡ ok ((c, pos (length payload)), payload ++ rest)
unfolding read_message_type read_byte frame
read_message_type-frame c payload rest h =
    let n : (length payload + 4) % 2 ^ 32 ≡ length payload + 4 = omega (arith, h) in
    let tail = append_assoc (be32 ((length payload + 4) % 2 ^ 32)) payload rest in
    let read =
      ap (λ s. read_int32 s) (tail ∙ ap (λ k. be32 k ++ (payload ++ rest)) n)
      ∙ read_int32-be32 (length payload + 4) (payload ++ rest) h in
    ap (λ m. m >>= λ l. ok ((c, minus_four (l.0)), l.1)) read
    ∙ ap (λ k. ok ((c, k), payload ++ rest)) (minus_four_lem (length payload))

take-append :
    (s rest : Bytes) → (take (length s) (s ++ rest) ≡ s) × (drop (length s) (s ++ rest) ≡ rest)
take-append [] rest = (refl, refl)
take-append (c ∷ s) rest = (ap (λ t. c ∷ t) ((take-append s rest).0), (take-append s rest).1)

pub read_temp-append : (s rest : Bytes) → read_temp (length s) (s ++ rest) ≡ ok (s, rest)
unfolding read_temp
read_temp-append s rest =
    let fits : ltb (length (s ++ rest)) (length s) ≡ false = ground (arith, length-append s rest) in
    let (front, behind) = take-append s rest in rw (fits, front, behind) refl
