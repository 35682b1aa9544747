-- ===== src/Parser/Laws.antt =====
-- What the methods of the byte cursor read and leave.
use uptrace_bun.Prelude.{
  ℕ, zero, suc, ◌≤◌, true, false, [], ◌∷◌, ◌++◌, none, some, Bytes, length, take, drop, equal,
  equal_iff, equal_refl, ◌≡◌, ◌≢◌, refl, sym, ap, ◌∙◌, arith, Bool-cases, inl, inr, ==_false_iff,
  All,
}
use uptrace_bun.Parser.{Parser, new, skip_bytes, index_byte, read_sep}

pub take-append-drop : (n : ℕ) (s : Bytes) → take n s ++ drop n s ≡ s
take-append-drop zero s = refl
take-append-drop (suc n) [] = refl
take-append-drop (suc n) (c ∷ s) = ap (◌∷◌ c) (take-append-drop n s)

take-append : (s t : Bytes) → take (length s) (s ++ t) ≡ s
take-append [] t = refl
take-append (c ∷ s) t = ap (◌∷◌ c) (take-append s t)

drop-append : (s t : Bytes) → drop (length s) (s ++ t) ≡ t
drop-append [] t = refl
drop-append (c ∷ s) t = drop-append s t

le-length-append : (s t : Bytes) → length s ≤ length (s ++ t)
le-length-append [] t = omega arith
le-length-append (c ∷ s) t = omega (arith, le-length-append s t)

-- `SkipBytes` moves past the given bytes if they come next.
pub skip_bytes-append : (s t : Bytes) → skip_bytes s (new (s ++ t)) ≡ (true, new t)
unfolding skip_bytes
skip_bytes-append s t =
    rw (take-append s t, drop-append s t) (ground (arith, le-length-append s t, equal_refl s))

-- If they do not, nothing moves.
pub skip_bytes_ne :
    (s : Bytes) (p : Parser) → ¬ ((t : Bytes) × (p.rest ≡ s ++ t)) → skip_bytes s p ≡ (false, p)
unfolding skip_bytes
skip_bytes_ne s p h = elim (Bool-cases (equal (take (length s) p.rest) s)) [
  | inl e ↦ absurd (
      h (
        drop (length s) p.rest,
        sym (take-append-drop (length s) p.rest)
            ∙ ap (λ x. x ++ drop (length s) p.rest) ((equal_iff _ s).0 e),
      ))
  | inr e ↦ ground arith
]

-- The text holds no byte `c`.
abbrev pub Lacks : ℕ → Bytes → Type 0
Lacks c = All (λ x. x ≢ c)

pub index_byte-append :
    (c : ℕ) (s t : Bytes) → Lacks c s → index_byte c (s ++ c ∷ t) ≡ some (length s)
unfolding index_byte
index_byte-append c [] t h = ground arith
index_byte-append c (x ∷ s) t (hx, h) = rw ((==_false_iff x c).1 hx, index_byte-append c s t h)

pub index_byte-none : (c : ℕ) (s : Bytes) → Lacks c s → index_byte c s ≡ none
unfolding index_byte
index_byte-none c [] h = refl
index_byte-none c (x ∷ s) (hx, h) = rw ((==_false_iff x c).1 hx, index_byte-none c s h)

pub index_byte-Lacks : (c : ℕ) (s : Bytes) → index_byte c s ≡ none → Lacks c s
unfolding index_byte
index_byte-Lacks c [] h = tt
index_byte-Lacks c (x ∷ s) h = ground (arith, index_byte-Lacks c s)

drop-suc : (s : Bytes) (c : ℕ) (t : Bytes) → drop (suc (length s)) (s ++ c ∷ t) ≡ t
drop-suc [] c t = refl
drop-suc (x ∷ s) c t = drop-suc s c t

-- `ReadSep` reads up to the separator, and past it.
pub read_sep_found :
    (c : ℕ) (s t : Bytes) → Lacks c s → read_sep c (new (s ++ c ∷ t)) ≡ ((s, true), new t)
unfolding read_sep
read_sep_found c s t h =
    rw (index_byte-append c s t h, read_sep, drop-suc s c t, take-append s (c ∷ t))

pub read_sep_missing : (c : ℕ) (s : Bytes) → Lacks c s → read_sep c (new s) ≡ ((s, false), new [])
unfolding read_sep
read_sep_missing c s h = rw (index_byte-none c s h, read_sep)
