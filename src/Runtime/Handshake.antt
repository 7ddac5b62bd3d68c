-- ===== src/Runtime/Handshake.antt =====
-- The two ends of the authentication of src/runtime/av_auth.cpp against one another.
use Prim.Native.Nat.{bit_xor}
use mathlib.Core.List.{append_assoc}
use framelink.Base.{
  ==_refl, take_all, ℕ, zero, suc, ◌+◌, ◌≤◌, ◌≡◌, refl, sym, ap, ap₂, ◌∙◌, subst, Bool, true, false,
  not, none, some, List, [], ◌∷◌, ◌++◌, ltb, ◌==◌, if◌then◌else◌, length, take, drop, bit_or,
  get_or, arith, length-append, length-drop, length-take, take-append, drop-append, drop-drop,
}
use framelink.Base.Bits.{eq_of_xor, xor_self}
use framelink.Base.Masks.{le_of_Within, Within-or, Within-refl}
use framelink.Session.{same_id}
use framelink.Session.Replacement.{same_id-eq}
use framelink.Runtime.Rendezvous.{Endpoint}
use framelink.Runtime.Auth.{
  invalid_role, write_failed, read_failed, role_rejected, server_rejected, client_rejected,
  auth_magic, server_direction, client_direction, role_valid, differences, equal, AuthOutcome,
  proof, client_reads, authenticate_client, bad_hello, server_writes, authenticate_server,
}

or-le : (a b : ℕ) → (a ≤ bit_or a b) × (b ≤ bit_or a b)
or-le a b =
    let parts = (Within-or a b (bit_or a b)).0 (Within-refl (bit_or a b)) in
    (le_of_Within a (bit_or a b) parts.0, le_of_Within b (bit_or a b) parts.1)

differences_zero :
    (d : ℕ) (a b : List ℕ) → differences d a b ≡ 0 → length a ≡ length b → (d ≡ 0) × (a ≡ b)
unfolding differences
differences_zero d [] [] h l = (h, refl)
differences_zero d [] (y ∷ b) h l = absurd (omega (arith, l))
differences_zero d (x ∷ a) [] h l = absurd (omega (arith, l))
differences_zero d (x ∷ a) (y ∷ b) h l =
    let (none_set, same) = differences_zero (bit_or d (bit_xor x y)) a b h (omega (arith, l)) in
    (
      omega (arith, none_set, or-le d (bit_xor x y)),
      ap₂ ◌∷◌ (eq_of_xor x y (omega (arith, none_set, or-le d (bit_xor x y)))) same,
    )

equal-eq : (a b : List ℕ) → length a ≡ length b → equal a b ≡ true → a ≡ b
unfolding equal
equal-eq a b l h = (differences_zero 0 a b (ground (arith, h)) l).1

differences_self : (a : List ℕ) → differences 0 a a ≡ 0
unfolding differences
differences_self [] = refl
differences_self (x ∷ a) = ap (λ d. differences d a a) zeroed ∙ differences_self a
  where
    zeroed : bit_or 0 (bit_xor x x) ≡ 0
    zeroed = ap (bit_or 0) (xor_self x)

equal_self : (a : List ℕ) → equal a a ≡ true
unfolding equal
equal_self a = ap (λ d. d == 0) (differences_self a)

take_first : (n : ℕ) (xs ys : List ℕ) → length xs ≡ n → take n (xs ++ ys) ≡ xs
take_first n xs ys e = subst (λ k. take k (xs ++ ys) ≡ xs) e (take-append xs ys)

drop_first : (n : ℕ) (xs ys : List ℕ) → length xs ≡ n → drop n (xs ++ ys) ≡ ys
drop_first n xs ys e = subst (λ k. drop k (xs ++ ys) ≡ ys) e (drop-append xs ys)

get_or-drop : (n : ℕ) (xs : List ℕ) → get_or xs n 0 ≡ get_or (drop n xs) 0 0
get_or-drop zero xs = refl
get_or-drop (suc n) [] = refl
get_or-drop (suc n) (x ∷ xs) = get_or-drop n xs

-- HMAC-SHA256 gives 32 bytes, and a role is one of the three.
module _ (hmac : List ℕ → List ℕ → List ℕ) (sized : (k m : List ℕ) → length (hmac k m) ≡ 32)
    (e : Endpoint) (role : ℕ) (client server : List ℕ) (valid : role_valid role ≡ true)
    (hc : length client ≡ 32) (hs : length server ≡ 32) where
  abbrev challenge : List ℕ
  challenge = proof hmac e server_direction role client server

  abbrev response : List ℕ
  response = proof hmac e client_direction role client server

  length-proof : (d : ℕ) → length (proof hmac e d role client server) ≡ 32
  unfolding proof
  length-proof d = sized e.token (auth_magic ++ d ∷ role ∷ client ++ server)

  abbrev from_server : List ℕ
  from_server = (server ++ challenge) ++ 1 ∷ []

  abbrev from_client : List ℕ
  from_client = (auth_magic ++ role ∷ client) ++ response

  first_32 : take 32 from_server ≡ server
  first_32 =
      ap (take 32) (append_assoc server challenge (1 ∷ []))
      ∙ take_first 32 server (challenge ++ 1 ∷ []) hs

  behind_32 : drop 32 from_server ≡ challenge ++ 1 ∷ []
  behind_32 =
      ap (drop 32) (append_assoc server challenge (1 ∷ []))
      ∙ drop_first 32 server (challenge ++ 1 ∷ []) hs

  next_32 : take 32 (drop 32 from_server) ≡ challenge
  next_32 =
      ap (take 32) behind_32 ∙ take_first 32 challenge (1 ∷ []) (length-proof server_direction)

  last_byte : get_or from_server 64 0 ≡ 1
  last_byte =
      get_or-drop 64 from_server
      ∙ ap (λ xs. get_or xs 0 0)
          (drop-drop 32 32 from_server
            ∙ ap (drop 32) behind_32
            ∙ drop_first 32 challenge (1 ∷ []) (length-proof server_direction))

  length-from_server : length from_server ≡ 65
  length-from_server = omega (
    arith,
    length-append (server ++ challenge) (1 ∷ []),
    length-append server challenge,
    hs,
    length-proof server_direction,
  )

  client-accepts :
      authenticate_client hmac e role (some client) (λ _. true) from_server ≡ (none, from_client)
  unfolding authenticate_client client_reads
  client-accepts =
      rw (valid, length-from_server)
        (rw next_32 (rw first_32 (rw (equal_self challenge) (rw last_byte refl))))

  behind_hello : drop 9 from_client ≡ client ++ response
  behind_hello = refl

  length-from_client : length from_client ≡ 73
  length-from_client =
      omega (arith, length-append client response, hc, length-proof client_direction)

  server-accepts :
      authenticate_server hmac e role (some server) (λ _. true) from_client ≡ (none, from_server)
  unfolding authenticate_server server_writes same_id
  server-accepts =
      rw (valid, ==_refl role, length-from_client)
        (rw (drop-drop 9 32 from_client) (
          rw (drop_first 32 client response hc) (
            rw (take_first 32 client response hc) (
              rw (take_all 32 response (omega (arith, length-proof client_direction)))
                (rw (equal_self response) refl)))))

-- With an HMAC of 32 bytes, two ends that have the same endpoint, the same valid role and nonces of 32
-- bytes authenticate one another where no write fails: there are messages such that the client, given
-- the server's, accepts and writes its own, and the server, given the client's, accepts and writes
-- its own.
pub authenticate_handshake :
    (hmac : List ℕ → List ℕ → List ℕ)
    → ((k m : List ℕ) → length (hmac k m) ≡ 32)
    → (e : Endpoint) (role : ℕ) (client server : List ℕ) → role_valid role ≡ true
    → length client ≡ 32
    → length server ≡ 32
    → (said heard : List ℕ) × (authenticate_client hmac e role (some client) (λ _. true) heard
        ≡ (none, said))
      × (authenticate_server hmac e role (some server) (λ _. true) said ≡ (none, heard))
authenticate_handshake hmac sized e role client server valid hc hs = (
  from_client hmac sized e role client server valid hc hs,
  from_server hmac sized e role client server valid hc hs,
  client-accepts hmac sized e role client server valid hc hs,
  server-accepts hmac sized e role client server valid hc hs,
)

length-slice : (n m : ℕ) (xs : List ℕ) → n + m ≤ length xs → length (take m (drop n xs)) ≡ m
length-slice n m xs h = length-take m (drop n xs) (omega (arith, length-drop n xs, h))

-- The tests of the server and of the client, in their order.
abbrev server_end :
    Bool → Bool → Bool → Bool → Bool → Bool → Bool → Bool → List ℕ → List ℕ → List ℕ → AuthOutcome
server_end role hello short first second cut other third x y z =
    if role
    then (some invalid_role, [])
    else if hello
    then (some role_rejected, [])
    else if short
    then (some read_failed, [])
    else if first
    then (some write_failed, [])
    else if second
    then (some write_failed, x)
    else if cut
    then (some read_failed, y)
    else if other
    then (some client_rejected, y)
    else if third
    then (some write_failed, y)
    else (none, z)

server_ladder :
    (role hello short first second cut other third : Bool) (x y z out : List ℕ)
    → server_end role hello short first second cut other third x y z ≡ (none, out)
    → (hello ≡ false) × (cut ≡ false) × (other ≡ false) × (z ≡ out)
server_ladder role hello short first second cut other third x y z out h = ground (arith, h)

abbrev client_end :
    Bool
    → Bool
    → Bool
    → Bool
    → Bool
    → Bool
    → Bool
    → Bool
    → Bool
    → List ℕ
    → List ℕ
    → List ℕ
    → List ℕ
    → AuthOutcome
client_end role first second third short other fourth cut last x y z w =
    if role
    then (some invalid_role, [])
    else if first
    then (some write_failed, [])
    else if second
    then (some write_failed, x)
    else if third
    then (some write_failed, y)
    else if short
    then (some read_failed, z)
    else if other
    then (some server_rejected, z)
    else if fourth
    then (some write_failed, z)
    else if cut
    then (some read_failed, w)
    else if last
    then (some client_rejected, w)
    else (none, w)

client_ladder :
    (role first second third short other fourth cut last : Bool) (x y z w out : List ℕ)
    → client_end role first second third short other fourth cut last x y z w ≡ (none, out)
    → (other ≡ false) × (cut ≡ false) × (last ≡ false) × (w ≡ out)
client_ladder role first second third short other fourth cut last x y z w out h = ground (arith, h)

hello_parts :
    (role : ℕ) (incoming : List ℕ)
    → bad_hello role incoming ≡ false
    → (same_id (take 8 incoming) auth_magic ≡ true) × (get_or incoming 8 0 ≡ role)
hello_parts role incoming h = ground (arith, h)

not-false : (b : Bool) → not b ≡ false → b ≡ true
not-false b h = ground (arith, h)

-- What a server has tested when it accepts.
server_tests :
    (hmac : List ℕ → List ℕ → List ℕ) (e : Endpoint) (role : ℕ) (server : List ℕ)
    (writes : ℕ → Bool) (incoming out : List ℕ)
    → authenticate_server hmac e role (some server) writes incoming ≡ (none, out)
    → let client = take 32 (drop 9 incoming) in
      (same_id (take 8 incoming) auth_magic ≡ true)
      × (get_or incoming 8 0 ≡ role)
      × (73 ≤ length incoming)
      × (equal (take 32 (drop 41 incoming)) (proof hmac e client_direction role client server)
          ≡ true)
      × (server ++ proof hmac e server_direction role client server ++ 1 ∷ [] ≡ out)
unfolding authenticate_server server_writes
server_tests hmac e role server writes incoming out h =
    let client = take 32 (drop 9 incoming) in
    let challenge = proof hmac e server_direction role client server in
    let same =
      equal (take 32 (drop 41 incoming)) (proof hmac e client_direction role client server) in
    let (hello, cut, other, wrote) =
      server_ladder (not (role_valid role)) (bad_hello role incoming) (ltb (length incoming) 41)
        (not (writes 0)) (not (writes 1)) (ltb (length incoming) 73) (not same) (not (writes 2))
        server (server ++ challenge) (server ++ challenge ++ 1 ∷ []) out h in
    let (magic, named) = hello_parts role incoming hello in
    (magic, named, ground (arith, cut), not-false same other, wrote)

client_tests :
    (hmac : List ℕ → List ℕ → List ℕ) (e : Endpoint) (role : ℕ) (client : List ℕ)
    (writes : ℕ → Bool) (incoming out : List ℕ)
    → authenticate_client hmac e role (some client) writes incoming ≡ (none, out)
    → let server = take 32 incoming in
      (65 ≤ length incoming)
      × (equal (take 32 (drop 32 incoming)) (proof hmac e server_direction role client server)
          ≡ true)
      × (get_or incoming 64 0 ≡ 1)
      × ((auth_magic ++ role ∷ client) ++ proof hmac e client_direction role client server ≡ out)
unfolding authenticate_client client_reads
client_tests hmac e role client writes incoming out h =
    let server = take 32 incoming in
    let hello = auth_magic ++ role ∷ client in
    let same =
      equal (take 32 (drop 32 incoming)) (proof hmac e server_direction role client server) in
    let (other, cut, last, wrote) =
      client_ladder (not (role_valid role)) (not (writes 0)) (not (writes 1)) (not (writes 2))
        (ltb (length incoming) 64) (not same) (not (writes 3)) (ltb (length incoming) 65)
        (not (get_or incoming 64 0 == 1)) auth_magic (auth_magic ++ role ∷ []) hello
        (hello ++ proof hmac e client_direction role client server) out h in
    (ground (arith, cut), not-false same other, ground (arith, last), wrote)

-- A server that accepts has read the magic, its own role, and a proof of the client: the HMAC under its
-- token of the client's direction, the role, the client's nonce and its own nonce, whoever wrote the
-- bytes. It has written its nonce, its own proof and a one.
pub authenticate_server_sound :
    (hmac : List ℕ → List ℕ → List ℕ)
    → ((k m : List ℕ) → length (hmac k m) ≡ 32)
    → (e : Endpoint) (role : ℕ) (server : List ℕ) (writes : ℕ → Bool) (incoming out : List ℕ)
    → authenticate_server hmac e role (some server) writes incoming ≡ (none, out)
    → let client = take 32 (drop 9 incoming) in
      (take 8 incoming ≡ auth_magic)
      × (get_or incoming 8 0 ≡ role)
      × (take 32 (drop 41 incoming) ≡ proof hmac e client_direction role client server)
      × (out ≡ server ++ proof hmac e server_direction role client server ++ 1 ∷ [])
unfolding proof
authenticate_server_sound hmac sized e role server writes incoming out h =
    let (magic, named, whole, same, wrote) =
      server_tests hmac e role server writes incoming out h in
    (
      same_id-eq (take 8 incoming) auth_magic magic,
      named,
      equal-eq (take 32 (drop 41 incoming)) _
          (length-slice 41 32 incoming (omega (arith, whole)) ∙ sym (sized e.token _)) same,
      sym wrote,
    )

-- A client that accepts has read, behind the server's nonce, a proof of the server under its own
-- token, for its role and both nonces, and then a one.
pub authenticate_client_sound :
    (hmac : List ℕ → List ℕ → List ℕ)
    → ((k m : List ℕ) → length (hmac k m) ≡ 32)
    → (e : Endpoint) (role : ℕ) (client : List ℕ) (writes : ℕ → Bool) (incoming out : List ℕ)
    → authenticate_client hmac e role (some client) writes incoming ≡ (none, out)
    → let server = take 32 incoming in
      (take 32 (drop 32 incoming) ≡ proof hmac e server_direction role client server)
      × (get_or incoming 64 0 ≡ 1)
      × (out ≡ auth_magic ++ role ∷ client ++ proof hmac e client_direction role client server)
unfolding proof
authenticate_client_sound hmac sized e role client writes incoming out h =
    let (whole, same, last, wrote) = client_tests hmac e role client writes incoming out h in
    (
      equal-eq (take 32 (drop 32 incoming)) _
          (length-slice 32 32 incoming (omega (arith, whole)) ∙ sym (sized e.token _)) same,
      last,
      sym wrote,
    )
