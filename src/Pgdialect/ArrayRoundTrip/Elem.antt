-- ===== src/Pgdialect/ArrayRoundTrip/Elem.antt =====
-- Reading one quoted element of an array text: `readSubstring` of dialect/pgdialect/array_parser.go.
use uptrace_bun.Prelude.{
  ℕ, zero, suc, ◌<◌, [], ◌∷◌, ◌++◌, some, Bytes, Bool, false, length, ok, Result, ◌>>=◌, ◌≡◌, ◌≢◌,
  refl, ap, ◌∙◌, arith, append_assoc, append-nil, ◌==◌, if◌then◌else◌, Bool-cases, ◌⊎◌, inl, inr,
  ==_iff, ==_false_iff, subst,
}
use uptrace_bun.Pgdialect.ArrayParser.{
  ArrayError, ArrayParser, read_byte, read_substring_loop, read_substring, next_elem,
}

-- A string between the double quotes of an array text.
unfoldable pub escaped : Bytes → Bytes
escaped [] = []
escaped (c ∷ s) =
    if c == b'"'
    then b'\\' ∷ b'"' ∷ escaped s
    else if c == b'\\'
    then b'\\' ∷ b'\\' ∷ escaped s
    else c ∷ escaped s

abbrev pub at : Bytes → Bytes → Bool → ArrayParser
at w buf failed = record { rest = w; buf = buf; failed = failed }

-- The loop with its first byte not yet read.
loop_at : ℕ → Bytes → Bytes → Bool → Result ArrayError ArrayParser
loop_at fuel w buf failed = read_byte (at w buf failed) >>= λ (c, p). read_substring_loop fuel c p

loop_plain :
    (w : Bytes) (fuel c : ℕ) (buf : Bytes) (failed : Bool)
    → c ≢ b'"'
    → c ≢ b'\\'
    → read_substring_loop (suc fuel) c (at w buf failed) ≡ loop_at fuel w (buf ++ c ∷ []) failed
unfolding loop_at read_substring_loop
loop_plain [] fuel c buf failed h k = ground arith
loop_plain (d ∷ w) fuel c buf failed h k = ground arith

loop_escape :
    (w : Bytes) (fuel c : ℕ) (buf : Bytes) (failed : Bool)
    → (c ≡ b'"') ⊎ (c ≡ b'\\')
    → read_substring_loop (suc fuel) b'\\' (at (c ∷ w) buf failed)
      ≡ loop_at fuel w (buf ++ c ∷ []) failed
unfolding loop_at read_substring_loop
loop_escape [] fuel c buf failed h = ground arith
loop_escape (d ∷ w) fuel c buf failed h = ground arith

loop_at-cons :
    (w : Bytes) (fuel c : ℕ) (buf : Bytes) (failed : Bool)
    → loop_at fuel (c ∷ w) buf failed ≡ read_substring_loop fuel c (at w buf failed)
unfolding loop_at read_byte
loop_at-cons w fuel c buf failed = refl

loop_at-escaped :
    (s t : Bytes) (fuel : ℕ) (buf : Bytes) (failed : Bool)
    → length s < fuel
    → loop_at fuel (escaped s ++ b'"' ∷ t) buf failed ≡ ok (at t (buf ++ s) failed)
unfolding escaped
loop_at-escaped s t zero buf failed h = elim h [ ]
loop_at-escaped [] t (suc fuel) buf failed h =
    rw append-nil (unfold loop_at read_substring_loop in refl)
loop_at-escaped (c ∷ s) t (suc fuel) buf failed h =
    let w = escaped s ++ b'"' ∷ t in
    let rest =
      loop_at-escaped s t fuel (buf ++ c ∷ []) failed (omega arith)
      ∙ ap (λ x. ok (at t x failed)) (append_assoc buf (c ∷ []) s) in
    elim (Bool-cases (c == b'"')) [
      | inl is_quote ↦ rw is_quote (
          loop_at-cons (b'"' ∷ w) (suc fuel) b'\\' buf failed
          ∙ loop_escape w fuel b'"' buf failed (inl refl)
          ∙ subst (λ x. loop_at fuel w (buf ++ x ∷ []) failed ≡ ok (at t (buf ++ c ∷ s) failed))
              ((==_iff c b'"').0 is_quote) rest)
      | inr not_quote ↦ rw not_quote (elim (Bool-cases (c == b'\\')) [
        | inl is_slash ↦ rw is_slash (
            loop_at-cons (b'\\' ∷ w) (suc fuel) b'\\' buf failed
            ∙ loop_escape w fuel b'\\' buf failed (inr refl)
            ∙ subst (λ x. loop_at fuel w (buf ++ x ∷ []) failed ≡ ok (at t (buf ++ c ∷ s) failed))
                ((==_iff c b'\\').0 is_slash) rest)
        | inr not_slash ↦ rw not_slash (
            loop_at-cons w (suc fuel) c buf failed
            ∙ loop_plain w fuel c buf failed ((==_false_iff c b'"').0 not_quote)
                ((==_false_iff c b'\\').0 not_slash)
            ∙ rest)
      ])
    ]

le-length-escaped : (s t : Bytes) → length s < length (escaped s ++ b'"' ∷ t)
unfolding escaped
le-length-escaped [] t = omega arith
le-length-escaped (c ∷ s) t = ground (arith, le-length-escaped s t)

read_substring-loop_at :
    (w buf : Bytes) (failed : Bool)
    → read_substring (at w buf failed) ≡ (loop_at (length w) w [] failed >>= λ q. ok (q.buf, q))
unfolding read_substring loop_at read_byte
read_substring-loop_at [] buf failed = refl
read_substring-loop_at (c ∷ w) buf failed = refl

read_substring-escaped :
    (s t buf : Bytes) (failed : Bool)
    → read_substring (at (escaped s ++ b'"' ∷ t) buf failed) ≡ ok (s, at t s failed)
read_substring-escaped s t buf failed =
    read_substring-loop_at (escaped s ++ b'"' ∷ t) buf failed
    ∙ rw (loop_at-escaped s t (length (escaped s ++ b'"' ∷ t)) [] failed (le-length-escaped s t))

-- The element and the comma behind it are read, if there is a comma.
pub read_elem_comma :
    (s t buf : Bytes)
    → next_elem (at (b'"' ∷ (escaped s ++ b'"' ∷ b',' ∷ t)) buf false) ≡ ok (some s, at t s false)
unfolding next_elem
read_elem_comma s t buf = rw (read_substring-escaped s (b',' ∷ t) buf false)

pub read_elem_brace :
    (s t buf : Bytes)
    → next_elem (at (b'"' ∷ (escaped s ++ b'"' ∷ b'}' ∷ t)) buf false)
      ≡ ok (some s, at (b'}' ∷ t) s false)
unfolding next_elem
read_elem_brace s t buf = rw (read_substring-escaped s (b'}' ∷ t) buf false)
