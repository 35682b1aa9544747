-- ===== src/Parser/Identifiers.antt =====
-- What `ReadIdentifier` reads: no name, a name, or a number.
use uptrace_bun.Prelude.{
  ℕ, suc, ◌+◌, Bool, true, false, not, ◌||◌, [], ◌∷◌, ◌++◌, Bytes, ◌==◌, length, take, drop, ◌≡◌,
  ◌≢◌, refl, ap, ◌∙◌, arith, All, ==_false_iff,
}
use uptrace_bun.Parser.{new, read_identifier, in_parens, scan, scan_identifier, is_num, is_alpha}

-- No identifier begins here: the text is empty, or begins with no digit, letter or parenthesis.
abbrev pub NoIdentifier : Bytes → Type 0
NoIdentifier [] = Unit
NoIdentifier (c ∷ s) = (is_num c ≡ false) × (is_alpha c ≡ false) × (c ≢ b'(')

-- An identifier in front of the text goes no further.
abbrev pub EndsIdentifier : Bytes → Type 0
EndsIdentifier [] = Unit
EndsIdentifier (c ∷ s) = (is_num c ≡ false) × (is_alpha c ≡ false) × (c ≢ b'_')

-- The bytes of a name behind its first letter.
abbrev pub IsNameByte : ℕ → Type 0
IsNameByte c = (is_num c || is_alpha c || c == b'_') ≡ true

pub read_identifier_none :
    (s : Bytes) → NoIdentifier s → read_identifier (new s) ≡ (([], false), new s)
unfolding read_identifier
read_identifier_none [] h = refl
read_identifier_none (c ∷ s) (n, a, p) = ground arith

alpha_not_num : (c : ℕ) → is_alpha c ≡ true → (is_num c ≡ false) × (c ≢ b'(')
unfolding is_alpha is_num
alpha_not_num c h = ground arith

num_not_paren : (c : ℕ) → is_num c ≡ true → c ≢ b'('
unfolding is_num
num_not_paren c h = ground arith

scan_end :
    (i : ℕ) (alpha : Bool) (s : Bytes) → EndsIdentifier s → scan_identifier i alpha s ≡ (i, alpha)
unfolding scan_identifier
scan_end i alpha [] h = refl
scan_end i alpha (c ∷ s) (n, a, u) = ground arith

scan_number :
    (i : ℕ) (d s : Bytes)
    → All (λ c. is_num c ≡ true) d
    → EndsIdentifier s
    → scan_identifier i false (d ++ s) ≡ (i + length d, false)
unfolding scan_identifier
scan_number i [] s h e = scan_end i false s e ∙ ground arith
scan_number i (c ∷ d) s (hc, h) e =
    rw (hc, scan_identifier) (scan_number (suc i) d s h e ∙ ground arith)

scan_name :
    (i : ℕ) (n s : Bytes)
    → All IsNameByte n
    → EndsIdentifier s
    → scan_identifier (suc i) true (n ++ s) ≡ (suc i + length n, true)
unfolding scan_identifier
scan_name i [] s h e = scan_end (suc i) true s e ∙ ground arith
scan_name i (c ∷ n) s (hc, h) e = ground (arith, scan_name (suc i) n s h e)

take-append : (s t : Bytes) → take (length s) (s ++ t) ≡ s
take-append [] t = refl
take-append (c ∷ s) t = ap (◌∷◌ c) (take-append s t)

drop-append : (s t : Bytes) → drop (length s) (s ++ t) ≡ t
drop-append [] t = refl
drop-append (c ∷ s) t = drop-append s t

scan_lem :
    (c : ℕ) (n s : Bytes) (alpha : Bool)
    → scan_identifier 0 false (c ∷ (n ++ s)) ≡ (suc (length n), alpha)
    → c ≢ b'('
    → read_identifier (new (c ∷ (n ++ s))) ≡ ((c ∷ n, not alpha), new s)
unfolding read_identifier in_parens scan
scan_lem c n s alpha h p =
    rw ((==_false_iff c b'(').1 p, in_parens)
      (rw (h, scan, take-append n s, drop-append n s) (ground arith))

-- A number is read whole, and is numeric.
pub read_identifier_number :
    (c : ℕ) (d s : Bytes)
    → is_num c ≡ true
    → All (λ c. is_num c ≡ true) d
    → EndsIdentifier s
    → read_identifier (new (c ∷ (d ++ s))) ≡ ((c ∷ d, true), new s)
read_identifier_number c d s hc h e =
    scan_lem c d s false (scan_number 0 (c ∷ d) s (hc, h) e ∙ ground arith) (num_not_paren c hc)

-- A name is read whole, and is not numeric.
pub read_identifier_name :
    (c : ℕ) (n s : Bytes)
    → is_alpha c ≡ true
    → All IsNameByte n
    → EndsIdentifier s
    → read_identifier (new (c ∷ (n ++ s))) ≡ ((c ∷ n, false), new s)
unfolding scan_identifier
read_identifier_name c n s hc h e =
    let (not_num, not_paren) = alpha_not_num c hc in
    scan_lem c n s true (rw (not_num, scan_identifier) (rw hc (scan_name 0 n s h e ∙ ground arith)))
      not_paren
