-- ===== src/Schema/Formatter/Renders.antt =====
-- An independent description of placeholders: which text a query with arguments stands for.
use uptrace_bun.Prelude.{
  ℕ, suc, ◌≤◌, true, List, [], ◌∷◌, ◌++◌, some, Bytes, get_elem?, length, ◌≡◌, ◌≢◌, All,
}
use uptrace_bun.Parser.{is_num, is_alpha, atoi}
use uptrace_bun.Parser.Laws.{Lacks}
use uptrace_bun.Parser.Identifiers.{NoIdentifier, EndsIdentifier, IsNameByte}
use uptrace_bun.Schema.Value.{Arg}
use uptrace_bun.Schema.Formatter.{Formatter, append_arg, get_named}

-- The argument writes this text behind whatever stands before it.
abbrev pub Writes : Formatter → Arg → Bytes → Type 0
Writes f a text = (b : Bytes) → append_arg f b a ≡ b ++ text

-- The text does not end with a backslash.
abbrev pub NoSlash : Bytes → Type 0
NoSlash t = (u : Bytes) → t ≢ u ++ b'\\' ∷ []

-- From the `i`th argument on, the query stands for the text. A question mark behind a backslash is
-- one; a bare `?` takes the next argument and stays if there is none; `?2` is the argument with that
-- index, and `?name` the argument of the formatter with that name.
pub data Renders (f : Formatter) (args : List Arg) : ℕ → Bytes → Bytes → Type 0 where
  plain : {i : ℕ} (t : Bytes) → Lacks b'?' t → Renders f args i t t
  escaped :
      {i : ℕ} (t rest out : Bytes)
      → Lacks b'?' t
      → Renders f args i rest out
      → Renders f args i (t ++ b'\\' ∷ b'?' ∷ rest) (t ++ b'?' ∷ out)
  positional :
      {i : ℕ} (t rest out text : Bytes) {a : Arg}
      → Lacks b'?' t
      → NoSlash t
      → NoIdentifier rest
      → get_elem? args i ≡ some a
      → Writes f a text
      → Renders f args (suc i) rest out
      → Renders f args i (t ++ b'?' ∷ rest) (t ++ (text ++ out))
  exhausted :
      {i : ℕ} (t rest out : Bytes)
      → Lacks b'?' t
      → NoSlash t
      → NoIdentifier rest
      → length args ≤ i
      → Renders f args i rest out
      → Renders f args i (t ++ b'?' ∷ rest) (t ++ b'?' ∷ out)
  indexed :
      {i k : ℕ} (c : ℕ) (t digits rest out text : Bytes) {a : Arg}
      → Lacks b'?' t
      → NoSlash t
      → is_num c ≡ true
      → All (λ d. is_num d ≡ true) digits
      → EndsIdentifier rest
      → atoi (c ∷ digits) ≡ some k
      → get_elem? args k ≡ some a
      → Writes f a text
      → Renders f args i rest out
      → Renders f args i (t ++ b'?' ∷ c ∷ (digits ++ rest)) (t ++ (text ++ out))
  named :
      {i : ℕ} (c : ℕ) (t name rest out text : Bytes) {a : Arg}
      → Lacks b'?' t
      → NoSlash t
      → is_alpha c ≡ true
      → All IsNameByte name
      → EndsIdentifier rest
      → get_named f.named_args (c ∷ name) ≡ some a
      → Writes f a text
      → Renders f args i rest out
      → Renders f args i (t ++ b'?' ∷ c ∷ (name ++ rest)) (t ++ (text ++ out))
