-- ===== src/Dialect/Json.antt =====
-- Reading what `AppendJSON` of dialect/append.go writes.
use uptrace_bun.Prelude.{
  ℕ, zero, suc, ◌≤◌, [], ◌∷◌, ◌++◌, some, Bytes, codes, length, ◌==◌, if◌then◌else◌, ◌≡◌, ◌≢◌, refl,
  sym, ap, subst, Bool-cases, inl, inr, ==_iff, ==_false_iff, ◌∙◌, arith, append-nil, append_assoc,
}
use uptrace_bun.Parser.{Parser, new, read, valid}
use uptrace_bun.Parser.Laws.{skip_bytes-append, skip_bytes_ne}
use uptrace_bun.Dialect.Append.{append_json_escape, append_json_byte, append_json_loop, append_json}
use uptrace_bun.Dialect.Literal.{
  quote, read_literal, EndsLiteral, Spells, Spells-nil, Spells-append, Spells-cons, Spells-quote,
  read_literal-Spells,
}

-- A JSON text and what is stored of it. Nothing changes but the NUL characters: a NUL byte is left
-- out, and the escape of one gets a second backslash. In JSON no escape stands for a single quote.
pub data IsStored : Bytes → Bytes → Type 0 where
  nil : IsStored [] []
  nul : {s v : Bytes} → IsStored s v → IsStored (0 ∷ s) v
  byte : {c : ℕ} {s v : Bytes} → c ≢ 0 → c ≢ b'\\' → IsStored s v → IsStored (c ∷ s) (c ∷ v)
  escape :
      {c : ℕ} {s v : Bytes}
      → c ≢ quote
      → ¬ ((t : Bytes) × (c ∷ s ≡ codes "u0000" ++ t))
      → IsStored s v
      → IsStored (b'\\' ∷ c ∷ s) (b'\\' ∷ c ∷ v)
  nul_escape :
      {s v : Bytes} → IsStored s v → IsStored (codes "\\u0000" ++ s) (codes "\\\\u0000" ++ v)

-- A value between the quotes of a literal.
doubled : Bytes → Bytes
doubled [] = []
doubled (c ∷ s) = (if c == quote then quote ∷ quote ∷ [] else c ∷ []) ++ doubled s

doubled-Spells : (s : Bytes) → Spells (doubled s) s
unfolding doubled
doubled-Spells [] = Spells-nil
doubled-Spells (c ∷ s) = Spells-append _ (c ∷ []) (doubled s) s (one c) (doubled-Spells s)
  where
    one : (c : ℕ) → Spells (if c == quote then quote ∷ quote ∷ [] else c ∷ []) (c ∷ [])
    one c = elim (Bool-cases (c == quote)) [
      | inl e ↦ rw e (
          subst (λ x. Spells (quote ∷ quote ∷ []) (x ∷ [])) (sym ((==_iff c quote).0 e))
            Spells-quote)
      | inr e ↦ rw e (Spells-cons c ((==_false_iff c quote).0 e))
    ]

byte_lem :
    (b : Bytes) (c : ℕ) (p : Parser)
    → c ≢ 0
    → c ≢ b'\\'
    → append_json_byte b c p ≡ (b ++ (if c == quote then quote ∷ quote ∷ [] else c ∷ []), p)
unfolding append_json_byte
byte_lem b c p h k = ground arith

escape_lem :
    (b : Bytes) (c : ℕ) (s : Bytes)
    → ¬ ((t : Bytes) × (c ∷ s ≡ codes "u0000" ++ t))
    → append_json_byte b b'\\' (new (c ∷ s)) ≡ ((b ++ b'\\' ∷ []) ++ c ∷ [], new s)
unfolding append_json_byte append_json_escape valid read
escape_lem b c s h = rw (skip_bytes_ne (codes "u0000") (new (c ∷ s)) h)

nul_escape_lem :
    (b s : Bytes)
    → append_json_byte b b'\\' (new (codes "u0000" ++ s)) ≡ (b ++ codes "\\\\u0000", new s)
unfolding append_json_byte append_json_escape
nul_escape_lem b s = rw (skip_bytes-append (codes "u0000") s)

loop_step :
    (fuel : ℕ) (b : Bytes) (c : ℕ) (s b' : Bytes) (q : Parser)
    → append_json_byte b c (new s) ≡ (b', q)
    → append_json_loop (suc fuel) b (new (c ∷ s)) ≡ append_json_loop fuel b' q
unfolding append_json_loop valid read
loop_step fuel b c s b' q e = ap (λ r. append_json_loop fuel r.0 r.1) e

loop_end : (fuel : ℕ) (b : Bytes) → append_json_loop fuel b (new []) ≡ b
unfolding append_json_loop valid
loop_end zero b = refl
loop_end (suc fuel) b = refl

append_json_loop-doubled :
    {s v : Bytes} (fuel : ℕ) (b : Bytes)
    → IsStored s v
    → length s ≤ fuel
    → append_json_loop fuel b (new s) ≡ b ++ doubled v
unfolding doubled
append_json_loop-doubled fuel b nil l = loop_end fuel b ∙ sym (append-nil b)
append_json_loop-doubled zero b (nul h) l = absurd (omega arith)
append_json_loop-doubled zero b (byte n k h) l = absurd (omega arith)
append_json_loop-doubled zero b (escape n k h) l = absurd (omega arith)
append_json_loop-doubled zero b (nul_escape h) l = absurd (omega arith)
append_json_loop-doubled (suc fuel) b (nul {s} h) l =
    loop_step fuel b 0 s b (new s) (unfold append_json_byte in refl)
    ∙ append_json_loop-doubled fuel b h (omega arith)
append_json_loop-doubled (suc fuel) b (byte {c} {s} {v} n k h) l =
    loop_step fuel b c s _ (new s) (byte_lem b c (new s) n k)
    ∙ append_json_loop-doubled fuel _ h (omega arith)
    ∙ append_assoc b _ (doubled v)
append_json_loop-doubled (suc fuel) b (escape {c} {s} {v} n k h) l =
    loop_step fuel b b'\\' (c ∷ s) _ (new s) (escape_lem b c s k)
    ∙ append_json_loop-doubled fuel _ h (omega arith)
    ∙ rw ((==_false_iff c quote).1 n) (simp append_assoc)
append_json_loop-doubled (suc fuel) b (nul_escape {s} {v} h) l =
    loop_step fuel b b'\\' (codes "u0000" ++ s) _ (new s) (nul_escape_lem b s)
    ∙ append_json_loop-doubled fuel _ h (omega arith)
    ∙ append_assoc b (codes "\\\\u0000") (doubled v)

-- For a JSON text `s`, `AppendJSON` writes behind `b` a literal that is read as what is to be stored
-- of `s`, and that ends before whatever follows, unless a quote follows.
pub read_literal-append_json :
    {s v : Bytes} (b rest : Bytes)
    → IsStored s v
    → EndsLiteral rest
    → (lit : Bytes) × (append_json b s ++ rest ≡ b ++ lit) × (read_literal lit ≡ some (v, rest))
unfolding append_json
read_literal-append_json {s} {v} b rest h e = (
  quote ∷ (doubled v ++ quote ∷ rest),
  rw (append_json_loop-doubled (length s) (b ++ quote ∷ []) h (omega arith)) (simp append_assoc),
  read_literal-Spells (doubled v) v rest (doubled-Spells v) e,
)
