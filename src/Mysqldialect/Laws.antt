-- ===== src/Mysqldialect/Laws.antt =====
-- Reading what `appendJSON` of dialect/mysqldialect/append.go writes.
use uptrace_bun.Prelude.{
  ℕ, [], ◌∷◌, ◌++◌, some, Bytes, ◌≡◌, refl, sym, ap, ◌∙◌, arith, append-nil, append_assoc,
}
use uptrace_bun.Dialect.Literal.{EndsLiteral}
use uptrace_bun.Mysqldialect.Append.{append_json, append_json_byte, append_json_bytes}
use uptrace_bun.Mysqldialect.Literal.{inside, read_body, read_literal}

append_json_byte-append : (b : Bytes) (c : ℕ) → append_json_byte b c ≡ b ++ append_json_byte [] c
unfolding append_json_byte
append_json_byte-append b c = ground arith

append_json_bytes-append : (b s : Bytes) → append_json_bytes b s ≡ b ++ append_json_bytes [] s
unfolding append_json_bytes
append_json_bytes-append b [] = sym (append-nil b)
append_json_bytes-append b (c ∷ s) =
    append_json_bytes-append (append_json_byte b c) s
    ∙ ap (λ x. x ++ append_json_bytes [] s) (append_json_byte-append b c)
    ∙ append_assoc b (append_json_byte [] c) (append_json_bytes [] s)
    ∙ ap (λ x. b ++ x) (sym (append_json_bytes-append (append_json_byte [] c) s))

read_byte :
    (v t : Bytes) (c : ℕ)
    → read_body v inside (append_json_byte [] c ++ t) ≡ read_body (v ++ c ∷ []) inside t
unfolding read_body append_json_byte
read_byte v t c = ground arith

read_bytes :
    (s v t : Bytes) → read_body v inside (append_json_bytes [] s ++ t) ≡ read_body (v ++ s) inside t
unfolding append_json_bytes
read_bytes [] v t = rw append-nil
read_bytes (c ∷ s) v t =
    ap (λ x. read_body v inside (x ++ t)) (append_json_bytes-append (append_json_byte [] c) s)
    ∙ ap (read_body v inside) (append_assoc (append_json_byte [] c) (append_json_bytes [] s) t)
    ∙ read_byte v (append_json_bytes [] s ++ t) c
    ∙ read_bytes s (v ++ c ∷ []) t
    ∙ ap (λ x. read_body x inside t) (append_assoc v (c ∷ []) s)

read_end : (v rest : Bytes) → EndsLiteral rest → read_body v inside (b'\'' ∷ rest) ≡ some (v, rest)
unfolding read_body
read_end v [] e = refl
read_end v (c ∷ rest) e = ground arith

-- `appendJSON` of the MySQL dialect writes behind `b` a literal that MySQL reads as the same bytes,
-- whatever they are, and that ends before whatever follows, unless a quote follows.
pub read_literal-append_json_mysql :
    (b s rest : Bytes)
    → EndsLiteral rest
    → (lit : Bytes) × (append_json b s ++ rest ≡ b ++ lit) × (read_literal lit ≡ some (s, rest))
unfolding append_json read_literal
read_literal-append_json_mysql b s rest e = (
  b'\'' ∷ (append_json_bytes [] s ++ b'\'' ∷ rest),
  rw (append_json_bytes-append (b ++ b'\'' ∷ []) s) (simp append_assoc),
  read_bytes s [] (b'\'' ∷ rest) ∙ read_end s rest e,
)
