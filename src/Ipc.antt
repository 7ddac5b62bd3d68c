-- ===== src/Ipc.antt =====
-- The control channel of src/fl_ipc.h and src/fl_ipc_posix.cpp: a Unix socket that carries one
-- message with its descriptors in one packet. The kernel is an argument: what a call answers is a
-- parameter, and what was closed is a result. A packet has the byte order of a little-endian machine.
pub mod Framing
pub mod Endpoint
use framelink.Base.{
  ℕ, zero, suc, ◌+◌, ◌-◌, ◌*◌, ◌/◌, ◌%◌, Bool, true, false, not, ◌&&◌, ◌||◌, Option, none, some,
  List, [], ◌∷◌, ◌++◌, ltb, leb, ◌==◌, truthy, if◌then◌else◌, length, take, drop,
}
use framelink.Base.Bytes.{put, get}
use framelink.Base.Int.{ℤ, pos, negsuc}
use framelink.Api.{max_pool_size}

-- kMagic, "FLK1"
abbrev pub packet_magic : ℕ
packet_magic = 0x314B4C46

-- kBufferSize
abbrev pub buffer_size : ℕ
buffer_size = 65536

-- kMaxFds
abbrev pub max_fds : ℕ
max_fds = max_pool_size * 4

-- sizeof(MsgHeader)
abbrev pub header_size : ℕ
header_size = 12

-- Message; a type is its number.
pub record Message : Type 0 where
  pub type : ℕ
  pub payload : List ℕ
  pub fds : List ℕ

-- Channel: the descriptor behind `handle_`.
pub record Channel : Type 0 where
  pub handle : Option ℕ
  pub connected : Bool
  pub peer_pid : ℕ

abbrev pub no_channel : Channel
no_channel = record { handle = none; connected = false; peer_pid = 0 }

-- What goes into sendmsg().
pub record Packet : Type 0 where
  pub bytes : List ℕ
  pub fds : List ℕ

-- A control message, with whether it has level SOL_SOCKET and type SCM_RIGHTS, its `cmsg_len`, and
-- the integers in its data.
pub record Control : Type 0 where
  pub rights : Bool
  pub len : ℕ
  pub ints : List ℕ

-- What comes out of recvmsg(): its result, the buffer, whether MSG_TRUNC or MSG_CTRUNC is set, and
-- the control messages.
pub record Arrival : Type 0 where
  pub count : ℤ
  pub bytes : List ℕ
  pub truncated : Bool
  pub controls : List Control

-- Channel::close(), with the descriptor that it closes.
unfoldable pub close_channel : Channel → Channel × Option ℕ
close_channel c = (record c { handle = none; connected = false }, c.handle)

-- The move constructor: the channel moved to, and the one that is left.
unfoldable pub move_channel : Channel → Channel × Channel
move_channel o = (o, record o { handle = none; connected = false })

-- The move assignment of another object: what the target held is closed.
unfoldable pub assign_channel : Channel → Channel → Channel × Channel × Option ℕ
unfolding close_channel
assign_channel this o =
    let (emptied, closed) = close_channel this in
    (
      record emptied { handle = o.handle; connected = o.connected; peer_pid = o.peer_pid },
      record o { handle = none; connected = false },
      closed,
    )

-- A pointer with the number of items that is said to stand there.
abbrev pub missing : Option (List ℕ) → ℕ → Bool
missing none n = truthy n
missing (some xs) n = false

abbrev pub items : Option (List ℕ) → ℕ → List ℕ
items none n = []
items (some xs) n = take n xs

unfoldable pub packet : ℕ → Option (List ℕ) → ℕ → Option (List ℕ) → ℕ → Packet
packet type payload size fds fd_count = record {
  bytes = put 4 packet_magic ++ (put 4 type ++ (put 4 (size % 4294967296) ++ items payload size));
  fds = items fds fd_count;
}

-- The end of sendWithFds(), from what sendmsg() answers.
unfoldable pub sent : Channel → ℕ → ℤ → Channel × Bool
sent c size (negsuc e) = (record c { connected = false }, false)
sent c size (pos n) = (c, n == header_size + size)

-- Channel::sendWithFds(), with the packet that is handed to the kernel.
unfoldable pub send_with_fds :
    (Packet → ℤ)
    → Channel
    → ℕ
    → Option (List ℕ)
    → ℕ
    → Option (List ℕ)
    → ℕ
    → Channel × Bool × Option Packet
unfolding sent
send_with_fds sendmsg c type payload size fds fd_count =
    let p = packet type payload size fds fd_count in
    let (c', done) = sent c size (sendmsg p) in
    if not c.connected || ltb max_fds fd_count || missing fds fd_count || missing payload size
    then (c, false, none)
    else if ltb (buffer_size - header_size) size
    then (c, false, none)
    else (c', done, some p)

-- Channel::send()
abbrev pub send : (Packet → ℤ) → Channel → ℕ → Option (List ℕ) → ℕ → Channel × Bool × Option Packet
send sendmsg c type payload size = send_with_fds sendmsg c type payload size none 0

abbrev pub is_error : ℤ → Bool
is_error (pos n) = false
is_error (negsuc e) = true

abbrev pub bytes_read : ℤ → ℕ
bytes_read (pos n) = n
bytes_read (negsuc e) = 0

-- The descriptors of the control messages; `base` is CMSG_LEN(0).
unfoldable pub collect_fds : ℕ → List Control → List ℕ
collect_fds base [] = []
collect_fds base (m ∷ ms) =
    if not m.rights || ltb m.len base
    then collect_fds base ms
    else take ((m.len - base) / 4) m.ints ++ collect_fds base ms

-- The loop stops at once where recvmsg() failed.
abbrev pub installed : ℕ → Arrival → List ℕ
installed base a = if is_error a.count then [] else collect_fds base a.controls

-- The lambda `reject` of recv(), with the descriptors that it closes.
unfoldable pub reject : Channel → List ℕ → Channel × Option Message × List ℕ
reject c fds = (record c { connected = false }, none, fds)

-- The header's three words, with the bytes behind it.
abbrev pub read_header : List ℕ → ℕ × ℕ × ℕ × List ℕ
read_header bytes =
    let (word, b1) = get 4 bytes in
    let (type, b2) = get 4 b1 in let (size, b3) = get 4 b2 in (word, type, size, b3)

-- The tests of recv() on the result of recvmsg() and on the header.
unfoldable pub judge_arrival :
    Channel → ℕ → List ℕ → Bool → ℕ × ℕ × ℕ × List ℕ → Channel × Option Message × List ℕ
unfolding reject
judge_arrival c n fds truncated (word, type, size, rest) =
    if n == 0 || ltb n header_size || truncated || ltb max_fds (length fds)
    then reject c fds
    else if not (word == packet_magic) || ltb (n - header_size) size
    then reject c fds
    else (c, some (record { type = type; payload = take size rest; fds = fds }), [])

-- Channel::recv(), with the descriptors that it closes.
unfoldable pub recv : ℕ → Channel → Arrival → Channel × Option Message × List ℕ
recv base c a =
    if not c.connected
    then (c, none, [])
    else judge_arrival c (bytes_read a.count) (installed base a) a.truncated (read_header a.bytes)
