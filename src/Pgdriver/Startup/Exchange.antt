-- ===== src/Pgdriver/Startup/Exchange.antt =====
-- What startup of driver/pgdriver/proto.go makes of a server that asks for no password, for one in
-- clear text, or for one hashed with a salt, and accepts it.
use uptrace_bun.Prelude.{ℕ, ◌≡◌, refl, List, [], ◌∷◌, ◌++◌, Bytes, codes, ok}
use uptrace_bun.Pgdriver.WriteBuffer.{be32}
use uptrace_bun.Pgdriver.Messages.{write_password}
use uptrace_bun.Pgdriver.Messages.Frames.{frame}
use uptrace_bun.Pgdriver.Startup.{Config, read_auth_ok, md5s}

-- How the server wants the user to authenticate.
pub data Method : Type 0 where
  trust : Method
  cleartext : Method
  salted : ℕ → ℕ → ℕ → ℕ → Method

accepted : Bytes
accepted = frame b'R' (0 ∷ 0 ∷ 0 ∷ 0 ∷ [])

-- The server's messages of the method, with others behind.
unfoldable pub method_sent : Method → Bytes → Bytes
unfolding accepted frame
method_sent trust rest = accepted ++ rest
method_sent cleartext rest = frame b'R' (0 ∷ 0 ∷ 0 ∷ 3 ∷ []) ++ (accepted ++ rest)
method_sent (salted a b c d) rest =
    frame b'R' (0 ∷ 0 ∷ 0 ∷ 5 ∷ a ∷ b ∷ c ∷ d ∷ []) ++ (accepted ++ rest)

-- What the client has to write for it.
unfoldable pub answers : (Bytes → Bytes) → Config → Method → List Bytes
unfolding md5s write_password
answers md5 cfg trust = []
answers md5 cfg cleartext = write_password cfg.password ∷ []
answers md5 cfg (salted a b c d) =
    write_password
      (codes "md5" ++ md5s md5 (md5s md5 (cfg.password ++ cfg.user) ++ a ∷ b ∷ c ∷ d ∷ []))
    ∷ []

-- ParameterStatus messages, with others behind.
unfoldable pub parameters_sent : List Bytes → Bytes → Bytes
unfolding frame
parameters_sent [] rest = rest
parameters_sent (p ∷ ps) rest = frame b'S' p ++ parameters_sent ps rest

-- BackendKeyData and ReadyForQuery.
unfoldable pub ready_sent : ℕ → ℕ → Bytes → Bytes → Bytes
unfolding frame be32
ready_sent pid key status rest = frame b'K' (be32 pid ++ be32 key) ++ (frame b'Z' status ++ rest)

read_auth_ok-accepted : (rest : Bytes) → read_auth_ok (accepted ++ rest) ≡ ok (tt, rest)
unfolding read_auth_ok accepted frame
read_auth_ok-accepted rest = refl
