-- ===== src/Ipc/Endpoint.antt =====
-- How a channel of src/fl_ipc_posix.cpp comes to be: connecting, accepting and adopting a socket,
-- with every descriptor that is opened or closed on the way.
use native.Mathlib.Decide.{dec_le}
use mathlib.Core.List.{append-nil, append_assoc}
use framelink.Base.{
  ℕ, zero, suc, ◌+◌, ◌*◌, ◌/◌, ◌%◌, ◌≤◌, ◌<◌, ◌≡◌, refl, sym, ◌∙◌, Bool, true, not, ◌||◌, Option,
  none, some, List, [], ◌∷◌, ◌++◌, ltb, leb, ◌==◌, if◌then◌else◌, arith, le→leb, gt→leb, ap, subst,
}
use framelink.Base.Int.{ℤ, pos, negsuc}
use framelink.Ipc.{Channel, no_channel}

-- Listener: its descriptor, or -1.
pub record Listener : Type 0 where
  pub fd : Option ℕ

-- What one round of Channel::connect() meets: socket() fails, connect() succeeds on the descriptor,
-- or it fails.
pub data Attempt : Type 0 where
  no_socket : Attempt
  reached unreached : ℕ → Attempt

abbrev pub channel_at : ℕ → Channel
channel_at fd = record { handle = some fd; connected = true; peer_pid = 0 }

-- A channel with the descriptors that were closed.
abbrev pub Connected : Type 0
Connected = Channel × List ℕ

unfoldable pub connect_once :
    Attempt → ℕ → ℕ → List ℕ → (List ℕ → Option Connected) → Option Connected
connect_once no_socket waited timeout closed rest = some (no_channel, closed)
connect_once (reached fd) waited timeout closed rest = some (channel_at fd, closed)
connect_once (unreached fd) waited timeout closed rest =
    if leb timeout waited then some (no_channel, closed ++ fd ∷ []) else rest (closed ++ fd ∷ [])

-- The loop of Channel::connect(); `attempts` says what each round meets, and `none` is fuel that ran
-- out. A round waits for 25 ms.
unfoldable pub connect_loop : ℕ → (ℕ → Attempt) → ℕ → ℕ → ℕ → List ℕ → Option Connected
connect_loop zero attempts i waited timeout closed = none
connect_loop (suc fuel) attempts i waited timeout closed =
    connect_once (attempts i) waited timeout closed
      (connect_loop fuel attempts (suc i) ((waited + 25) % 4294967296) timeout)

-- Channel::connect()
unfoldable pub connect : ℕ → (ℕ → Attempt) → ℕ → Option Connected
connect fuel attempts timeout = connect_loop fuel attempts 0 0 timeout []

-- What the kernel says of a descriptor: whether it is of type SOCK_SEQPACKET, whether its peer is of
-- family AF_UNIX, whether its flags could be set, whether a time in seconds and microseconds is
-- taken for SO_RCVTIMEO and for SO_SNDTIMEO, and the process at the other end.
pub record SocketAnswers : Type 0 where
  pub seqpacket : Bool
  pub peer_unix : Bool
  pub flags_set : Bool
  pub receive_timeout : ℕ → ℕ → Bool
  pub send_timeout : ℕ → ℕ → Bool
  pub peer : Option ℕ

abbrev pub pid_of : Option ℕ → ℕ
pid_of none = 0
pid_of (some pid) = pid

-- Channel::adoptConnectedFd(), with the descriptor that `owned` closes.
unfoldable pub adopt_connected_fd : SocketAnswers → ℤ → ℕ → Channel × Option ℕ
adopt_connected_fd a (negsuc n) timeout_ms = (no_channel, none)
adopt_connected_fd a (pos fd) timeout_ms =
    if timeout_ms == 0 || ltb 60000 timeout_ms
    then (no_channel, some fd)
    else if not a.seqpacket || not a.peer_unix
    then (no_channel, some fd)
    else if not a.flags_set
    then (no_channel, some fd)
    else if not (a.receive_timeout (timeout_ms / 1000) (timeout_ms % 1000 * 1000))
        || not (a.send_timeout (timeout_ms / 1000) (timeout_ms % 1000 * 1000))
    then (no_channel, some fd)
    else (record { handle = some fd; connected = true; peer_pid = pid_of a.peer }, none)

-- Listener::create(), from what socket() gives and whether bind() and listen() succeed, with the
-- descriptor that is closed.
unfoldable pub create_listener : Option ℕ → Bool → Listener × Option ℕ
create_listener none bound = (record { fd = none }, none)
create_listener (some srv) bound =
    if not bound then (record { fd = none }, some srv) else (record { fd = some srv }, none)

-- Listener::close(), with the descriptor that it closes.
unfoldable pub close_listener : Listener → Listener × Option ℕ
close_listener l = (record { fd = none }, l.fd)

abbrev pub accepted : Option ℕ → Option ℕ → Channel
accepted none peer = no_channel
accepted (some fd) peer = record { handle = some fd; connected = true; peer_pid = pid_of peer }

-- Listener::accept(), from what accept4() and the credentials give.
unfoldable pub accept : Listener → Option ℕ → Option ℕ → Channel
accept l fd peer = elim l.fd [ none ↦ no_channel | some srv ↦ accepted fd peer ]

-- Channel::listen(): the listener is closed on return.
unfoldable pub listen : Option ℕ → Bool → Option ℕ → Option ℕ → Channel × Option ℕ × Option ℕ
unfolding create_listener close_listener accept
listen srv bound fd peer =
    let (l, failed) = create_listener srv bound in (accept l fd peer, failed, (close_listener l).1)

-- The descriptors that the rounds from i on open, over n rounds.
abbrev pub opened_by : (ℕ → Attempt) → ℕ → ℕ → List ℕ
opened_by attempts i zero = []
opened_by attempts i (suc n) = elim (attempts i) [
  | no_socket ↦ opened_by attempts (suc i) n
  | reached fd ↦ fd ∷ opened_by attempts (suc i) n
  | unreached fd ↦ fd ∷ opened_by attempts (suc i) n
]

abbrev pub held : Channel → List ℕ
held c = elim c.handle [ none ↦ [] | some fd ↦ fd ∷ [] ]

abbrev pub Fails : Attempt → Type 0
Fails no_socket = ⊥
Fails (reached fd) = ⊥
Fails (unreached fd) = Unit

-- What the last round leaves in hand.
abbrev pub outcome : Attempt → Channel
outcome (reached fd) = channel_at fd
outcome _ = no_channel

-- The rounds that a connection took from round i on, where it has waited for `waited` ms: each but the
-- last one failed to connect before the timeout, and the last one did not or was too late. What
-- became of the descriptors that they opened.
pub record Ended (attempts : ℕ → Attempt) (limit timeout : ℕ) (closed : List ℕ) (i waited : ℕ)
    (r : Option Connected) : Type 0 where
  pub shut : List ℕ
  pub more : ℕ
  pub before : (j : ℕ) → j < more → Fails (attempts (i + j)) × (waited + 25 * j < timeout)
  pub last : Fails (attempts (i + more)) → timeout ≤ waited + 25 * more
  pub result : r ≡ some (outcome (attempts (i + more)), shut)
  pub few : more + 1 ≤ limit
  pub kept :
      closed ++ opened_by attempts i (suc more) ≡ shut ++ held (outcome (attempts (i + more)))

wait_more :
    (waited timeout : ℕ)
    → timeout ≤ 4294967270
    → waited < timeout
    → (waited + 25) % 4294967296 ≡ waited + 25
wait_more waited timeout few more = omega arith

module _ (attempts : ℕ → Attempt) (i waited timeout fuel : ℕ) (closed : List ℕ)
    (rest : List ℕ → Option Connected) where
  -- One more round before the rounds of `rest`.
  one_more :
      (fd : ℕ)
      → attempts i ≡ unreached fd
      → waited < timeout
      → Ended attempts fuel timeout
          (closed ++ fd ∷ [])
          (suc i)
          (waited + 25)
          (rest (closed ++ fd ∷ []))
      → Ended attempts (suc fuel) timeout closed i waited (rest (closed ++ fd ∷ []))
  one_more fd e early r = record {
    shut = r.shut;
    more = suc r.more;
    before = λ j. earlier j;
    last = λ h. omega (arith, r.last (subst (λ n. Fails (attempts n)) (shift i r.more) h));
    result = r.result ∙ ap (λ n. some (outcome (attempts n), r.shut)) (sym (shift i r.more));
    few = omega (arith, r.few);
    kept =
        rw (e, opened_by)
          (sym (append_assoc closed (fd ∷ []) (opened_by attempts (suc i) (suc r.more))) ∙ r.kept)
        ∙ ap (λ n. r.shut ++ held (outcome (attempts n))) (sym (shift i r.more));
  }
    where
      shift : (i n : ℕ) → i + suc n ≡ suc i + n
      shift i n = omega arith

      failed : Fails (attempts i)
      failed = rw (e, Fails) tt

      zero_more : (n : ℕ) → n + 0 ≡ n
      zero_more n = omega arith

      earlier : (j : ℕ) → j < suc r.more → Fails (attempts (i + j)) × (waited + 25 * j < timeout)
      earlier zero h =
          (subst (λ n. Fails (attempts n)) (sym (zero_more i)) failed, omega (arith, early))
      earlier (suc j) h = (
        subst (λ n. Fails (attempts n)) (sym (shift i j)) (r.before j (omega (arith, h))).0,
        omega (arith, (r.before j (omega (arith, h))).1),
      )

  -- No further round.
  one_last :
      (a : Attempt) (shut : List ℕ)
      → attempts i ≡ a
      → (Fails a → timeout ≤ waited)
      → closed ++ opened_by attempts i 1 ≡ shut ++ held (outcome a)
      → Ended attempts (suc fuel) timeout closed i waited (some (outcome a, shut))
  one_last a shut e late kept = record {
    shut = shut;
    more = 0;
    before = λ j h. absurd (omega (arith, h));
    last = λ h. omega (arith, late (subst Fails here h));
    result = ap (λ b. some (outcome b, shut)) (sym here);
    few = omega arith;
    kept = kept ∙ ap (λ b. shut ++ held (outcome b)) (sym here);
  }
    where
      zero_more : (n : ℕ) → n + 0 ≡ n
      zero_more n = omega arith

      here : attempts (i + 0) ≡ a
      here = ap attempts (zero_more i) ∙ e

  connect_once_ends :
      (a : Attempt)
      → attempts i ≡ a
      → (waited < timeout
          → (fds : List ℕ) → Ended attempts fuel timeout fds (suc i) (waited + 25) (rest fds))
      → Ended attempts
          (suc fuel)
          timeout
          closed
          i
          waited
          (connect_once a waited timeout closed rest)
  unfolding connect_once
  connect_once_ends no_socket e ih =
      one_last no_socket closed e (λ h. elim h [ ]) (rw (e, opened_by) refl)
  connect_once_ends (reached fd) e ih =
      one_last (reached fd) closed e (λ h. elim h [ ]) (rw (e, opened_by) refl)
  connect_once_ends (unreached fd) e ih = elim (dec_le timeout waited) [
    | yes late ↦ rw (le→leb timeout waited late) (
        one_last (unreached fd) (closed ++ fd ∷ []) e (λ _. late)
          (rw (e, opened_by) (sym (append-nil (closed ++ fd ∷ [])))))
    | no early ↦
        rw (gt→leb timeout waited (omega (arith, early)))
          (one_more fd e (omega (arith, early)) (ih (omega (arith, early)) (closed ++ fd ∷ [])))
  ]

connect_loop_ends :
    (fuel : ℕ) (attempts : ℕ → Attempt) (i waited timeout : ℕ) (closed : List ℕ)
    → timeout ≤ 4294967270
    → waited < timeout + 25
    → timeout + 25 ≤ waited + 25 * fuel
    → Ended attempts fuel timeout closed i waited
        (connect_loop fuel attempts i waited timeout closed)
unfolding connect_loop
connect_loop_ends zero attempts i waited timeout closed few w m = absurd (omega (arith, w, m))
connect_loop_ends (suc fuel) attempts i waited timeout closed few w m =
    connect_once_ends attempts i waited timeout fuel closed
      (connect_loop fuel attempts (suc i) ((waited + 25) % 4294967296) timeout) (attempts i) refl
      (λ more fds. rw (wait_more waited timeout few more) (
        connect_loop_ends fuel attempts (suc i) (waited + 25) timeout fds few (omega (arith, more))
          (omega (arith, m))))

-- For a timeout of at most 4294967270 ms, connect() returns after at most timeout / 25 + 2 rounds,
-- whatever each round meets: each round but the last one failed to connect, before the timeout, and
-- the last one connected, had no socket, or came at the timeout or behind it. The channel is that of the
-- last round. Every descriptor that the rounds opened is closed, in order, but for the one that the
-- returned channel holds, which comes last.
pub connect_ends :
    (attempts : ℕ → Attempt) (timeout : ℕ)
    → timeout ≤ 4294967270
    → Ended attempts (timeout / 25 + 2) timeout [] 0 0 (connect (timeout / 25 + 2) attempts timeout)
unfolding connect
connect_ends attempts timeout few =
    connect_loop_ends (timeout / 25 + 2) attempts 0 0 timeout [] few (omega arith) (omega arith)
