-- ===== src/Pgdriver/Total.antt =====
-- How far the reads of driver/pgdriver/proto.go go, and when its loops return.
pub mod Loops
use uptrace_bun.Prelude.{
  ℕ, zero, suc, ◌+◌, ◌≤◌, ◌<◌, ◌≡◌, refl, ap, arith, ◌||◌, List, [], ◌∷◌, Option, none, some, Bytes,
  Bool, true, false, ◌==◌, ltb, if◌then◌else◌, ◌⊎◌, inl, inr, ◌≢◌, ◌∙◌, length, take, drop, Result,
  ok, err, ◌>>=◌,
}
use uptrace_bun.Strconv.{ℤ, pos, negsuc, int32_of_int}
use uptrace_bun.Pgdriver.Reader
use uptrace_bun.Pgdriver.Reader.{
  Failure, eof, buffer_full, slice_bounds_panic, unexpected, server, empty_query, unexpected_arg,
  auth_code, bad_value, wrong_columns, Reading, read_byte, read_temp, discard, read_uint16,
  read_uint32, read_int16, read_int32, read_message_type, read_string, read_slice, buffer_size,
  read_error_loop, read_error, minus_four, int16_of_uint16,
}
use uptrace_bun.Pgdriver.Replies.{
  Turn, continue, stop, fail, proceed, receive, after_turn, after_type, Pending, nothing,
  keep_first,
}

-- At most `n` bytes are left.
abbrev pub Leaves : {A : Type 0} → ℕ → Reading A → Type 0
Leaves n (err e) = Unit
Leaves n (ok r) = length (r.1) ≤ n

abbrev pub Keeps : {S R : Type 0} → ℕ → Turn S R → Type 0
Keeps n (continue s rd) = length rd ≤ n
Keeps n _ = Unit

module _ {A : Type 0} where
  pub bind-Leaves :
      {B : Type 0} (n : ℕ) (m : Reading A) (f : A × Bytes → Reading B)
      → Leaves n m
      → ((r : A × Bytes) → length (r.1) ≤ n → Leaves n (f r))
      → Leaves n (m >>= f)
  bind-Leaves n (err e) f h k = tt
  bind-Leaves n (ok r) f h k = k r h

  pub proceed-Keeps :
      {S R : Type 0} (n : ℕ) (m : Reading A) (f : A → Bytes → Turn S R)
      → Leaves n m
      → ((a : A) (rd : Bytes) → length rd ≤ n → Keeps n (f a rd))
      → Keeps n (proceed m f)
  proceed-Keeps n (err e) f h k = tt
  proceed-Keeps n (ok r) f h k = k r.0 r.1 h

  pub if-Leaves :
      (n : ℕ) (b : Bool) (x y : Reading A) → Leaves n x → Leaves n y → Leaves n (if b then x else y)
  if-Leaves n true x y hx hy = hx
  if-Leaves n false x y hx hy = hy

pub if-Keeps :
    {S R : Type 0} (n : ℕ) (b : Bool) (x y : Turn S R)
    → Keeps n x
    → Keeps n y
    → Keeps n (if b then x else y)
if-Keeps n true x y hx hy = hx
if-Keeps n false x y hx hy = hy

drop-length : (n : ℕ) (rd : Bytes) → length (drop n rd) ≤ length rd
drop-length zero rd = omega arith
drop-length (suc n) [] = omega arith
drop-length (suc n) (c ∷ rd) = omega (arith, drop-length n rd)

pub read_temp-Leaves : (k n : ℕ) (rd : Bytes) → length rd ≤ n → Leaves n (read_temp k rd)
unfolding read_temp
read_temp-Leaves k n rd h = if-Leaves n (ltb (length rd) k) _ _ tt (omega (arith, drop-length k rd))

pub discard-Leaves : (k : ℤ) (n : ℕ) (rd : Bytes) → length rd ≤ n → Leaves n (discard k rd)
unfolding discard
discard-Leaves (pos k) n rd h = read_temp-Leaves k n rd h
discard-Leaves (negsuc k) n rd h = tt

pub read_int16-Leaves : (n : ℕ) (rd : Bytes) → length rd ≤ n → Leaves n (read_int16 rd)
unfolding read_int16 read_uint16
read_int16-Leaves n [] h = tt
read_int16-Leaves n (a ∷ []) h = tt
read_int16-Leaves n (a ∷ b ∷ rd) h = omega arith

pub read_int32-Leaves : (n : ℕ) (rd : Bytes) → length rd ≤ n → Leaves n (read_int32 rd)
unfolding read_int32 read_uint32
read_int32-Leaves n [] h = tt
read_int32-Leaves n (a ∷ []) h = tt
read_int32-Leaves n (a ∷ b ∷ []) h = tt
read_int32-Leaves n (a ∷ b ∷ c ∷ []) h = tt
read_int32-Leaves n (a ∷ b ∷ c ∷ d ∷ rd) h = omega arith

read_slice-Leaves : (room n : ℕ) (rd : Bytes) → length rd ≤ n → Leaves n (read_slice room rd)
unfolding read_slice
read_slice-Leaves zero n rd h = tt
read_slice-Leaves (suc room) n [] h = tt
read_slice-Leaves (suc room) n (c ∷ rd) h =
    if-Leaves n (c == 0) _ _ (omega arith)
      (bind-Leaves n (read_slice room rd) _ (read_slice-Leaves room n rd (omega arith)) (λ r l. l))

pub read_string-Leaves : (n : ℕ) (rd : Bytes) → length rd ≤ n → Leaves n (read_string rd)
unfolding read_string
read_string-Leaves n rd h = read_slice-Leaves buffer_size n rd h

read_error_loop-Leaves :
    (fuel n : ℕ) (rd : Bytes) → length rd ≤ n → Leaves n (read_error_loop fuel rd)
unfolding read_error_loop
read_error_loop-Leaves zero n rd h = tt
read_error_loop-Leaves (suc fuel) n [] h = tt
read_error_loop-Leaves (suc fuel) n (c ∷ rd) h = if-Leaves n (c == 0) _ _ (omega arith) (
    bind-Leaves n (read_string rd) _ (read_string-Leaves n rd (omega arith)) (λ s l.
      bind-Leaves n (read_error_loop fuel (s.1)) _ (read_error_loop-Leaves fuel n (s.1) l)
        (λ m k. k)))

pub read_error-Leaves : (n : ℕ) (rd : Bytes) → length rd ≤ n → Leaves n (read_error rd)
unfolding read_error
read_error-Leaves n rd h =
    bind-Leaves n (read_error_loop (length rd) rd) _ (read_error_loop-Leaves (length rd) n rd h)
      (λ m k. k)

read_message_type-Leaves :
    (n : ℕ) (rd : Bytes) → length rd ≤ suc n → Leaves n (read_message_type rd)
unfolding read_message_type read_byte
read_message_type-Leaves n [] h = tt
read_message_type-Leaves n (c ∷ rd) h =
    bind-Leaves n (read_int32 rd) _ (read_int32-Leaves n rd (omega arith)) (λ l k. k)

-- The loop comes to an end, if only by a panic.
abbrev pub Returns : {R : Type 0} → Option (Result Failure (R × Bytes)) → Type 0
Returns {R} o = (r : Result Failure (R × Bytes)) × (o ≡ some r)

after_type-Returns :
    {R : Type 0} (n : ℕ) (switch : (ℕ × ℤ) × Bytes → Option (Result Failure (R × Bytes)))
    (m : Reading (ℕ × ℤ))
    → Leaves n m
    → ((m : (ℕ × ℤ) × Bytes) → length (m.1) ≤ n → Returns (switch m))
    → Returns (after_type switch m)
after_type-Returns n switch (err e) h k = (err e, refl)
after_type-Returns n switch (ok m) h k = k m h

module _ {S R : Type 0} where
  after_turn-Returns :
      (n : ℕ) (again : S → Bytes → Option (Result Failure (R × Bytes))) (t : Turn S R)
      → Keeps n t
      → ((s : S) (rd : Bytes) → length rd ≤ n → Returns (again s rd))
      → Returns (after_turn again t)
  after_turn-Returns n again (fail e) h k = (err e, refl)
  after_turn-Returns n again (stop r rd) h k = (ok (r, rd), refl)
  after_turn-Returns n again (continue s rd) h k = k s rd h

  -- A switch that gives no bytes back.
  abbrev pub IsKeeping : (ℕ → ℤ → S → Bytes → Turn S R) → Type 0
  IsKeeping handle =
      (c : ℕ) (len : ℤ) (s : S) (n : ℕ) (rd : Bytes) → length rd ≤ n → Keeps n (handle c len s rd)

  -- A loop over such a switch returns with as many rounds as there are bytes, and one.
  pub receive-Returns :
      (handle : ℕ → ℤ → S → Bytes → Turn S R)
      → IsKeeping handle
      → (fuel : ℕ) (s : S) (rd : Bytes) → length rd < fuel
      → Returns (receive handle fuel s rd)
  unfolding receive
  receive-Returns handle k zero s rd h = absurd (omega arith)
  receive-Returns handle k (suc fuel) s [] h = (err eof, refl)
  receive-Returns handle k (suc fuel) s (c ∷ rd) h =
      after_type-Returns (length rd) _ (read_message_type (c ∷ rd))
        (read_message_type-Leaves (length rd) (c ∷ rd) (omega arith))
        (λ m l.
          after_turn-Returns (length rd) _ (handle m.0.0 m.0.1 s m.1)
            (k m.0.0 m.0.1 s (length rd) m.1 l)
            (λ s' rd' l'. receive-Returns handle k fuel s' rd' (omega arith)))

-- The loop returns a result, returns an error, or panics on a slice out of bounds.
abbrev pub Ends : {R : Type 0} → Option (Result Failure (R × Bytes)) → Type 0
Ends {R} o =
    ((r : R × Bytes) × (o ≡ some (ok r)))
    ⊎ ((e : Failure) × (e ≢ slice_bounds_panic) × (o ≡ some (err e)))
    ⊎ (o ≡ some (err slice_bounds_panic))

panic_or_error : (e : Failure) → (e ≡ slice_bounds_panic) ⊎ (e ≢ slice_bounds_panic)
panic_or_error slice_bounds_panic = inl refl
panic_or_error eof = inr (λ q. cc)
panic_or_error buffer_full = inr (λ q. cc)
panic_or_error (unexpected c) = inr (λ q. cc)
panic_or_error (server m) = inr (λ q. cc)
panic_or_error empty_query = inr (λ q. cc)
panic_or_error unexpected_arg = inr (λ q. cc)
panic_or_error (auth_code p) = inr (λ q. cc)
panic_or_error (bad_value t) = inr (λ q. cc)
panic_or_error (wrong_columns z k) = inr (λ q. cc)

pub Returns-Ends : {R : Type 0} (o : Option (Result Failure (R × Bytes))) → Returns o → Ends o
Returns-Ends o (ok r, e) = inl (r, e)
Returns-Ends o (err x, e) = elim (panic_or_error x) [
  | inl p ↦ inr (inr (e ∙ ap (λ y. some (err y)) p))
  | inr n ↦ inr (inl (x, n, e))
]
