-- ===== src/Pgdriver/Startup.antt =====
-- startup of driver/pgdriver/proto.go and what it calls to authenticate. What is written is kept in
-- order in `written`; the server's bytes are those that it sends meanwhile. The client of SASL and
-- MD5 are arguments; `names` are the names of its two mechanisms. An error of authSASL is without
-- its prefix. On fuel: more rounds than bytes.
pub mod Exchange
use uptrace_bun.Prelude.{
  ℕ, zero, suc, ◌||◌, List, [], ◌∷◌, ◌++◌, Option, none, some, Bytes, Bool, true, false, codes,
  ◌==◌, equal, if◌then◌else◌, length, Result, ok, err, ◌>>=◌,
}
use uptrace_bun.Strconv.{ℤ, pos, negsuc}
use uptrace_bun.Dialect.Append.{hex_encode}
use uptrace_bun.Pgdriver.Reader.{
  Failure, slice_bounds_panic, unexpected, auth_code, AuthProblem, unknown_auth, wrong_auth_code,
  unknown_password_message, wrong_mechanism, no_list_end, wrong_sasl_message, step_failed,
  wrong_sasl_state, Reading, read_byte, read_temp, discard, read_int32, read_message_type,
  minus_four, read_string, read_error,
}
use uptrace_bun.Pgdriver.Replies.{Turn, continue, stop, fail, proceed, receive}
use uptrace_bun.Pgdriver.Loops.{pass_over}
use uptrace_bun.Pgdriver.Messages.{
  write_startup, write_password, sasl_write_initial_response, sasl_write_response,
}

-- The fields of Config that are read here.
pub record Config : Type 0 where
  pub user : Bytes
  pub password : Bytes
  pub database : Bytes
  pub app_name : Bytes

-- `sasl.Client`: a step on what the server sent, if anything, gives a response or an error.
pub record Sasl (Client : Type 0) : Type 0 where
  pub names : Bytes × Bytes
  pub new_client : Bytes → Bytes → Bytes → Client
  pub step : Option Bytes → Client → Result Bytes (Bytes × Client)
  pub valid_server_response : Client → Bool

-- `Conn`, with what it wrote.
pub record Conn : Type 0 where
  pub process_id : ℤ
  pub secret_key : ℤ
  pub written : List Bytes

unfoldable pub send : Bytes → Conn → Conn
send message cn = record cn { written = cn.written ++ message ∷ [] }

-- `num == code` of a code that is not negative.
unfoldable pub is_code : ℤ → ℤ → Bool
is_code (pos n) (pos m) = m == n
is_code (pos n) (negsuc m) = false
is_code (negsuc n) num = false

refuse : {A : Type 0} → AuthProblem → Reading A
refuse problem = err (auth_code problem)

-- An ErrorResponse as the result.
unfoldable pub fail_with_error : {A : Type 0} → Bytes → Reading A
unfolding read_error
fail_with_error rd = read_error rd >>= λ e. err (e.0)

unfoldable pub check_auth_code : ℤ → Bytes → Reading (Unit {0})
unfolding refuse
check_auth_code (pos zero) rd = ok (tt, rd)
check_auth_code (pos (suc n)) rd = refuse (wrong_auth_code (pos (suc n)))
check_auth_code (negsuc n) rd = refuse (wrong_auth_code (negsuc n))

-- `readAuthOK`
unfoldable pub read_auth_ok : Bytes → Reading (Unit {0})
unfolding read_message_type read_int32 check_auth_code fail_with_error refuse
read_auth_ok rd = read_message_type rd >>= λ m.
    if m.0.0 == b'R'
    then (read_int32 m.1 >>= λ n. check_auth_code n.0 n.1)
    else if m.0.0 == b'E'
    then fail_with_error m.1
    else refuse (unknown_password_message m.0.0)

-- A password, and the server's word on it.
unfoldable pub auth_password : Bytes → Conn → Bytes → Reading Conn
unfolding write_password read_auth_ok send
auth_password password cn rd = read_auth_ok rd >>= λ r. ok (send (write_password password) cn, r.1)

-- `authCleartext`
unfoldable pub auth_cleartext : Config → Conn → Bytes → Reading Conn
unfolding auth_password
auth_cleartext cfg cn rd = auth_password cfg.password cn rd

unfoldable pub md5s : (Bytes → Bytes) → Bytes → Bytes
unfolding hex_encode
md5s md5 s = hex_encode (md5 s)

-- `authMD5`
unfoldable pub auth_md5 : (Bytes → Bytes) → Config → Conn → Bytes → Reading Conn
unfolding md5s auth_password read_temp
auth_md5 md5 cfg cn rd = read_temp 4 rd >>= λ salt.
    auth_password (codes "md5" ++ md5s md5 (md5s md5 (cfg.password ++ cfg.user) ++ salt.0)) cn
      salt.1

module _ {Client : Type 0} (sasl : Sasl Client) where
  -- The name, if it is that of a mechanism.
  unfoldable pub mechanism_of : Bytes → Bytes → Reading Bytes
  unfolding refuse equal
  mechanism_of name rd =
      if equal name sasl.names.0 || equal name sasl.names.1
      then ok (name, rd)
      else refuse (wrong_mechanism name)

  unfoldable pub end_of_list : Bytes → Reading (Unit {0})
  unfolding refuse read_byte
  end_of_list rd = read_byte rd >>= λ c. if c.0 == 0 then ok (tt, c.1) else refuse (no_list_end c.0)

  -- The step with this number; the bytes that the server sends stay.
  unfoldable pub step_client : ℕ → Option Bytes → Client → Bytes → Reading (Bytes × Client)
  unfolding refuse
  step_client number challenge client rd = elim (sasl.step challenge client) [
    | ok r ↦ ok (r, rd)
    | err e ↦ refuse (step_failed number e)
  ]

  -- A message of type `R` with this code: what is behind the code, of the length that is left.
  unfoldable pub read_sasl_payload : ℤ → (ℕ × ℤ) × Bytes → Reading Bytes
  unfolding refuse read_int32 discard minus_four fail_with_error is_code
  read_sasl_payload code m =
      if m.0.0 == b'R'
      then (read_int32 m.1 >>= λ n.
          if is_code code n.0
          then discard (minus_four m.0.1) n.1
          else refuse (wrong_sasl_message m.0.0))
      else if m.0.0 == b'E'
      then fail_with_error m.1
      else refuse (wrong_sasl_message m.0.0)

  -- Whether the client is content with the server.
  unfoldable pub check_state : Client → Conn → Bytes → Reading Conn
  unfolding refuse
  check_state client cn rd =
      if sasl.valid_server_response client then ok (cn, rd) else refuse wrong_sasl_state

  -- `saslReadAuthFinal`
  unfoldable pub sasl_read_auth_final : Bytes → Reading Bytes
  unfolding read_message_type read_sasl_payload read_auth_ok
  sasl_read_auth_final rd = do
    m ← read_message_type rd
    resp ← read_sasl_payload (pos 12) m
    accepted ← read_auth_ok resp.1
    ok (resp.0, accepted.1)

  -- `authSASL`
  unfoldable pub auth_sasl : Config → Conn → Bytes → Reading Conn
  unfolding read_string mechanism_of end_of_list step_client read_message_type read_sasl_payload
      sasl_read_auth_final check_state sasl_write_initial_response sasl_write_response send refuse
  auth_sasl cfg cn rd = do
    s ← read_string rd
    name ← mechanism_of s.0 s.1
    listed ← end_of_list name.1
    first ← step_client 1 none (sasl.new_client name.0 cfg.user cfg.password) listed.1
    m ← read_message_type first.1
    challenge ← read_sasl_payload (pos 11) m
    second ← step_client 2 (some challenge.0) first.0.1 challenge.1
    final ← sasl_read_auth_final second.1
    third ← step_client 3 (some final.0) second.0.1 final.1
    check_state third.0.1
        (send (sasl_write_response second.0.0)
          (send (sasl_write_initial_response name.0 first.0.0) cn))
        third.1

  module _ (md5 : Bytes → Bytes) (cfg : Config) where
    -- The switch of `auth`.
    unfoldable pub auth_by : ℤ → Conn → Bytes → Reading Conn
    unfolding is_code auth_cleartext auth_md5 auth_sasl refuse
    auth_by num cn rd =
        if is_code (pos 0) num
        then ok (cn, rd)
        else if is_code (pos 3) num
        then auth_cleartext cfg cn rd
        else if is_code (pos 5) num
        then auth_md5 md5 cfg cn rd
        else if is_code (pos 10) num
        then auth_sasl cfg cn rd
        else refuse (unknown_auth num)

    -- `auth`
    unfoldable pub auth : Conn → Bytes → Reading Conn
    unfolding read_int32 auth_by
    auth cn rd = read_int32 rd >>= λ n. auth_by n.0 cn n.1

    unfoldable pub read_key_data : Conn → Bytes → Reading Conn
    unfolding read_int32
    read_key_data cn rd = do
      pid ← read_int32 rd
      key ← read_int32 pid.1
      ok (record cn { process_id = pid.0; secret_key = key.0 }, key.1)

    -- The switch of `startup`.
    unfoldable pub on_startup : ℕ → ℤ → Conn → Bytes → Turn Conn Conn
    unfolding read_key_data auth discard pass_over read_error
    on_startup c len cn rd =
        if c == b'K'
        then proceed (read_key_data cn rd) (λ cn' rd'. continue cn' rd')
        else if c == b'R'
        then proceed (auth cn rd) (λ cn' rd'. continue cn' rd')
        else if c == b'Z'
        then proceed (discard len rd) (λ _ rd'. stop cn rd')
        else if c == b'S' || c == b'N'
        then pass_over len cn rd
        else if c == b'E'
        then proceed (read_error rd) (λ e rd'. fail e)
        else fail (unexpected c)

    -- `startup` of a new connection.
    unfoldable pub startup : Bytes → Option (Result Failure (Conn × Bytes))
    unfolding receive on_startup write_startup
    startup rd =
        receive on_startup (suc (length rd))
          (record {
            process_id = pos 0;
            secret_key = pos 0;
            written = write_startup cfg.user cfg.database cfg.app_name ∷ [];
          })
          rd
