-- ===== src/Pgdriver/Format/Plain.antt =====
-- Queries without a placeholder in driver/pgdriver/format.go.
use uptrace_bun.Prelude.{
  ℕ, zero, suc, ◌≤◌, Bool, true, false, ==_iff, length-append, subst, ◌≡◌, ◌≢◌, refl, sym, ap, ◌∙◌,
  arith, List, [], ◌∷◌, ◌++◌, Bytes, ◌==◌, ==_false_iff, if◌then◌else◌, not, ◌&&◌, length,
  append-nil, append_assoc, ok, All,
}
use uptrace_bun.Pgdriver.Messages.{DriverValue}
use uptrace_bun.Pgdriver.Format.{quoted_from, quoted_string, format_loop, format_driver_query}

joined : Bytes × Bytes → Bytes
joined p = p.0 ++ p.1

split_if :
    (b : Bool) (x y : Bytes × Bytes) (s : Bytes)
    → joined x ≡ s
    → joined y ≡ s
    → joined (if b then x else y) ≡ s
split_if true x y s h k = h
split_if false x y s h k = k

quoted_from-split : (c : ℕ) (s : Bytes) → (quoted_from c s).0 ++ (quoted_from c s).1 ≡ s
unfolding quoted_from joined
quoted_from-split c [] = refl
quoted_from-split c (next ∷ s) =
    split_if (c == b'\'' && not (next == b'\'')) ([], next ∷ s)
      (next ∷ (quoted_from next s).0, (quoted_from next s).1) (next ∷ s) refl
      (ap (λ t. next ∷ t) (quoted_from-split next s))

quoted_from-le : (c : ℕ) (s : Bytes) → length ((quoted_from c s).1) ≤ length s
quoted_from-le c s =
    let whole = ap (λ t. length t) (quoted_from-split c s) in
    omega (arith, whole, length-append ((quoted_from c s).0) ((quoted_from c s).1))

-- No dollar.
abbrev pub IsPlain : Bytes → Type 0
IsPlain s = All (λ c. c ≢ b'$') s

IsPlain-behind : (s t : Bytes) → IsPlain (s ++ t) → IsPlain t
IsPlain-behind [] t h = h
IsPlain-behind (c ∷ s) t (_, h) = IsPlain-behind s t h

quoted_from-IsPlain : (c : ℕ) (s : Bytes) → IsPlain s → IsPlain ((quoted_from c s).1)
quoted_from-IsPlain c s h =
    IsPlain-behind ((quoted_from c s).0) ((quoted_from c s).1)
      (subst (λ t. IsPlain t) (sym (quoted_from-split c s)) h)

if_both :
    {A : Type 0} (b : Bool) (x y z : A) → (b ≡ true → x ≡ z) → y ≡ z → (if b then x else y) ≡ z
if_both true x y z h k = h refl
if_both false x y z h k = k

format_loop-IsPlain :
    (fuel : ℕ) (args : List DriverValue) (dst s : Bytes)
    → length s ≤ fuel
    → IsPlain s
    → format_loop fuel args dst s ≡ ok (dst ++ s)
unfolding format_loop quoted_string
format_loop-IsPlain fuel args dst [] l h = ap (λ t. ok t) (sym (append-nil dst))
format_loop-IsPlain zero args dst (c ∷ s) l h = absurd (omega arith)
format_loop-IsPlain (suc fuel) args dst (c ∷ s) l (nz, h) =
    let plain =
      format_loop-IsPlain fuel args (dst ++ c ∷ []) s (omega arith) h
      ∙ ap (λ t. ok t) (append_assoc dst (c ∷ []) s) in
    let (front, back) = quoted_from 0 s in
    let quote = λ (e : c == b'\'' ≡ true).
      format_loop-IsPlain fuel args (dst ++ b'\'' ∷ front) back
        (omega (arith, l, quoted_from-le 0 s)) (quoted_from-IsPlain 0 s h)
      ∙ ap (λ t. ok t)
          (append_assoc dst (b'\'' ∷ front) back
            ∙ ap (λ t. dst ++ b'\'' ∷ t) (quoted_from-split 0 s)
            ∙ ap (λ d. dst ++ d ∷ s) (sym ((==_iff c b'\'').0 e))) in
    rw ((==_false_iff c b'$').1 nz) (if_both (c == b'\'') _ _ _ quote plain)

-- formatQuery leaves a query without a dollar as it is, whatever the arguments and the quotes in it.
pub format_driver_query-IsPlain :
    (query : Bytes) (args : List DriverValue)
    → IsPlain query
    → format_driver_query query args ≡ ok query
unfolding format_driver_query
format_driver_query-IsPlain query [] h = refl
format_driver_query-IsPlain query (v ∷ vs) h =
    format_loop-IsPlain (length query) (v ∷ vs) [] query (omega arith) h
