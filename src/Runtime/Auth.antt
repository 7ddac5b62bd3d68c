-- ===== src/Runtime/Auth.antt =====
-- The mutual authentication of src/runtime/av_auth.cpp. HMAC-SHA256 is a parameter, and so is a
-- stream: what it delivers is a list of bytes, and `writes` says of each write whether it succeeds. A
-- result comes with the bytes that were written.
use Prim.Native.Nat.{bit_xor}
use framelink.Base.{
  ℕ, Bool, not, ◌||◌, Option, none, some, List, [], ◌∷◌, ◌++◌, ltb, ◌==◌, if◌then◌else◌, length,
  take, drop, bit_or, get_or,
}
use framelink.Session.{same_id}
use framelink.Runtime.Rendezvous.{Endpoint}

-- The texts that an error is set to.
pub data AuthError : Type 0 where
  invalid_role write_failed read_failed random_failed role_rejected : AuthError
  server_rejected client_rejected : AuthError

-- "FLAVAUT" and a version.
abbrev pub auth_magic : List ℕ
auth_magic = 70 ∷ 76 ∷ 65 ∷ 86 ∷ 65 ∷ 85 ∷ 84 ∷ 1 ∷ []

-- 'S' and 'C', the directions of a proof.
abbrev pub server_direction : ℕ
server_direction = b'S'

abbrev pub client_direction : ℕ
client_direction = b'C'

-- roleValid()
abbrev pub role_valid : ℕ → Bool
role_valid role = role == b'C' || role == b'A' || role == b'E'

-- equal()
unfoldable pub differences : ℕ → List ℕ → List ℕ → ℕ
differences diff (a ∷ rest) (b ∷ bs) = differences (bit_or diff (bit_xor a b)) rest bs
differences diff _ _ = diff

unfoldable pub equal : List ℕ → List ℕ → Bool
unfolding differences
equal a b = differences 0 a b == 0

-- How an authentication ends, with the bytes of the writes that succeeded.
abbrev pub AuthOutcome : Type 0
AuthOutcome = Option AuthError × List ℕ

-- What the server refuses of the magic and the role that it reads.
abbrev pub bad_hello : ℕ → List ℕ → Bool
bad_hello expected incoming =
    ltb (length incoming) 8
    || not (same_id (take 8 incoming) auth_magic)
    || ltb (length incoming) 9
    || not (get_or incoming 8 0 == expected)

module _ (hmac : List ℕ → List ℕ → List ℕ) where
  -- proof()
  unfoldable pub proof : Endpoint → ℕ → ℕ → List ℕ → List ℕ → List ℕ
  proof e direction role client server =
      hmac e.token (auth_magic ++ direction ∷ role ∷ client ++ server)

  -- The client behind its first three writes, from the bytes that it reads.
  unfoldable pub client_reads : Endpoint → ℕ → List ℕ → Bool → List ℕ → AuthOutcome
  unfolding proof equal
  client_reads e role nonce writes incoming =
      let hello = auth_magic ++ role ∷ nonce in
      let server = take 32 incoming in
      let response = proof e client_direction role nonce server in
      if ltb (length incoming) 64
      then (some read_failed, hello)
      else if not (equal (take 32 (drop 32 incoming)) (proof e server_direction role nonce server))
      then (some server_rejected, hello)
      else if not writes
      then (some write_failed, hello)
      else if ltb (length incoming) 65
      then (some read_failed, hello ++ response)
      else if not (get_or incoming 64 0 == 1)
      then (some client_rejected, hello ++ response)
      else (none, hello ++ response)

  -- authenticateClientCancellable(); `nonce` is what secureRandom() gives.
  unfoldable pub authenticate_client :
      Endpoint → ℕ → Option (List ℕ) → (ℕ → Bool) → List ℕ → AuthOutcome
  unfolding client_reads
  authenticate_client e role none writes incoming =
      (some (if role_valid role then random_failed else invalid_role), [])
  authenticate_client e role (some nonce) writes incoming =
      if not (role_valid role)
      then (some invalid_role, [])
      else if not (writes 0)
      then (some write_failed, [])
      else if not (writes 1)
      then (some write_failed, auth_magic)
      else if not (writes 2)
      then (some write_failed, auth_magic ++ role ∷ [])
      else client_reads e role nonce (writes 3) incoming

  -- The server behind its nonce.
  unfoldable pub server_writes : Endpoint → ℕ → List ℕ → (ℕ → Bool) → List ℕ → AuthOutcome
  unfolding proof equal
  server_writes e expected server writes incoming =
      let client = take 32 (drop 9 incoming) in
      let response = proof e server_direction expected client server in
      if not (writes 0)
      then (some write_failed, [])
      else if not (writes 1)
      then (some write_failed, server)
      else if ltb (length incoming) 73
      then (some read_failed, server ++ response)
      else if not
          (equal (take 32 (drop 41 incoming)) (proof e client_direction expected client server))
      then (some client_rejected, server ++ response)
      else if not (writes 2)
      then (some write_failed, server ++ response)
      else (none, server ++ response ++ 1 ∷ [])

  -- authenticateServerCancellable(); `nonce` is what secureRandom() gives.
  unfoldable pub authenticate_server :
      Endpoint → ℕ → Option (List ℕ) → (ℕ → Bool) → List ℕ → AuthOutcome
  unfolding server_writes
  authenticate_server e expected nonce writes incoming =
      if not (role_valid expected)
      then (some invalid_role, [])
      else if bad_hello expected incoming
      then (some role_rejected, [])
      else if ltb (length incoming) 41
      then (some read_failed, [])
      else elim nonce [
        | none ↦ (some random_failed, [])
        | some server ↦ server_writes e expected server writes incoming
      ]
