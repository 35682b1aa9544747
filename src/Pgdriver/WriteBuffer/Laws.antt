-- ===== src/Pgdriver/WriteBuffer/Laws.antt =====
-- What `FinishMessage` and `FinishParam` of driver/pgdriver/write_buffer.go leave in the buffer.
use uptrace_bun.Prelude.{ℕ, ◌≡◌, refl, ap, [], ◌∷◌, ◌++◌, Bytes, length}
use uptrace_bun.Pgdriver.WriteBuffer.{be32, put_uint32}

pub put_uint32-append :
    (b rest : Bytes) (n : ℕ)
    → put_uint32 (b ++ (0 ∷ 0 ∷ 0 ∷ 0 ∷ rest)) (length b) n ≡ b ++ (be32 n ++ rest)
unfolding put_uint32
put_uint32-append [] rest n = refl
put_uint32-append (x ∷ b) rest n = ap (λ s. x ∷ s) (put_uint32-append b rest n)
