-- ===== src/Mysqldialect/Append.antt =====
-- `appendJSON` of dialect/mysqldialect/append.go.
use uptrace_bun.Prelude.{ℕ, [], ◌∷◌, ◌++◌, Bytes, codes, ◌==◌, if◌then◌else◌}

-- What one round of the loop appends.
unfoldable pub append_json_byte : Bytes → ℕ → Bytes
append_json_byte b c =
    if c == b'\'' then b ++ codes "''" else if c == b'\\' then b ++ codes "\\\\" else b ++ c ∷ []

unfoldable pub append_json_bytes : Bytes → Bytes → Bytes
append_json_bytes b [] = b
append_json_bytes b (c ∷ s) = append_json_bytes (append_json_byte b c) s

unfoldable pub append_json : Bytes → Bytes → Bytes
unfolding append_json_byte append_json_bytes
append_json b jsonb = append_json_bytes (b ++ b'\'' ∷ []) jsonb ++ b'\'' ∷ []
