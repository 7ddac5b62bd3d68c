-- ===== src/Ipc/Framing.antt =====
-- What sendWithFds() of src/fl_ipc_posix.cpp writes against what recv() reads.
use mathlib.Core.List.{append-nil}
use framelink.Base.{
  ℕ, zero, suc, ◌+◌, ◌-◌, ◌*◌, ◌/◌, ◌≤◌, ◌≡◌, refl, sym, ap, ap₂, subst, ◌∙◌, true, false, Option,
  none, some, List, [], ◌∷◌, ◌++◌, length, take, take_all, arith, length-take, le→ltb, All,
  Bool-cases, inl, inr, if◌then◌else◌,
}
use framelink.Base.Bytes.{put, get-put, length-put_append}
use framelink.Base.Int.{ℤ, pos}
use framelink.Base.Masks.{IsWord}
use framelink.Ipc.{
  packet_magic, buffer_size, max_fds, header_size, Message, Channel, Packet, Arrival, packet,
  send_with_fds, bytes_read, collect_fds, installed, read_header, judge_arrival, recv, Control,
  is_error,
}

-- The kernel's delivery of a packet: all of it, with its descriptors in one control message.
abbrev pub delivered : ℕ → Packet → Arrival
delivered base p = record {
  count = pos (length p.bytes);
  bytes = p.bytes;
  truncated = false;
  controls = record { rights = true; len = base + 4 * length p.fds; ints = p.fds } ∷ [];
}

quarter : (b n : ℕ) → (b + 4 * n - b) / 4 ≡ n
quarter b n = omega arith

collect_fds-delivered :
    (base : ℕ) (fds : List ℕ)
    → collect_fds base (record { rights = true; len = base + 4 * length fds; ints = fds } ∷ [])
      ≡ fds
unfolding collect_fds
collect_fds-delivered base fds = rw (le→ltb (base + 4 * length fds) base (omega arith)) (
    append-nil (take ((base + 4 * length fds - base) / 4) fds)
    ∙ take_all ((base + 4 * length fds - base) / 4) fds (omega (arith, quarter base (length fds))))

read_header-put :
    (type size : ℕ) (rest : List ℕ)
    → IsWord type
    → IsWord size
    → read_header (put 4 packet_magic ++ (put 4 type ++ (put 4 size ++ rest)))
      ≡ (packet_magic, type, size, rest)
read_header-put type size rest ht hs =
    rw (get-put 4 packet_magic (put 4 type ++ (put 4 size ++ rest)) (omega arith))
      (rw (get-put 4 type (put 4 size ++ rest) ht) (rw (get-put 4 size rest hs) refl))

recv-connected :
    (base : ℕ) (c : Channel) (a : Arrival)
    → c.connected ≡ true
    → recv base c a
      ≡ judge_arrival c (bytes_read a.count) (installed base a) a.truncated (read_header a.bytes)
unfolding recv
recv-connected base c a up = ground (arith, up)

-- The descriptors that recvmsg() installs: those of all control messages that carry rights.
abbrev pub granted : List Control → List ℕ
granted [] = []
granted (m ∷ ms) = if m.rights then m.ints ++ granted ms else granted ms

-- What the kernel says of descriptors: the length of a control message counts them, behind the
-- CMSG_LEN(0) of its header, and a recvmsg() that fails installs none.
pub record IsDelivery (base : ℕ) (a : Arrival) : Type 0 where
  pub counted : All (λ m. m.rights ≡ true → m.len ≡ base + 4 * length m.ints) a.controls
  pub failed : is_error a.count ≡ true → granted a.controls ≡ []

collect_fds-granted :
    (base : ℕ) (ms : List Control)
    → All (λ m. m.rights ≡ true → m.len ≡ base + 4 * length m.ints) ms
    → collect_fds base ms ≡ granted ms
unfolding collect_fds
collect_fds-granted base [] sized = refl
collect_fds-granted base (m ∷ ms) (here, there) = elim (Bool-cases m.rights) [
  | inr other ↦ rw (other, collect_fds-granted base ms there) refl
  | inl carries ↦
      rw (carries, here carries, le→ltb (base + 4 * length m.ints) base (omega arith))
        (ap₂ ◌++◌
          (take_all ((base + 4 * length m.ints - base) / 4) m.ints
            (omega (arith, quarter base (length m.ints))))
          (collect_fds-granted base ms there))
]

installed-granted :
    (base : ℕ) (a : Arrival) → IsDelivery base a → installed base a ≡ granted a.controls
installed-granted base a d = elim (Bool-cases (is_error a.count)) [
  | inl error ↦ rw error (sym (d.failed error))
  | inr fine ↦ rw fine (collect_fds-granted base a.controls d.counted)
]

-- What becomes of an arrival with its descriptors: a message, with the channel as it was, or a refusal.
pub record Disposed (installed : List ℕ) (c : Channel) (a : Arrival)
    (r : Channel × Option Message × List ℕ) : Type 0 where
  pub shut : (m : Message) → r.1 ≡ some m → r.2 ≡ []
  pub fds : (m : Message) → r.1 ≡ some m → m.fds ≡ installed
  pub kept : (m : Message) → r.1 ≡ some m → r.0 ≡ c
  pub few : (m : Message) → r.1 ≡ some m → length m.fds ≤ max_fds
  pub whole : (m : Message) → r.1 ≡ some m → a.truncated ≡ false
  pub inside : (m : Message) → r.1 ≡ some m → header_size + length m.payload ≤ bytes_read a.count
  pub refused : r.1 ≡ none → r.2 ≡ installed
  pub lost : r.1 ≡ none → r.0.connected ≡ false

length-take_le : (n : ℕ) (xs : List ℕ) → length (take n xs) ≤ n
length-take_le zero xs = omega arith
length-take_le (suc n) [] = omega arith
length-take_le (suc n) (x ∷ xs) = omega (arith, length-take_le n xs)

judge_arrival-Disposed :
    (fds : List ℕ) (c : Channel) (a : Arrival) (h : ℕ × ℕ × ℕ × List ℕ)
    → Disposed fds c a (judge_arrival c (bytes_read a.count) fds a.truncated h)
unfolding judge_arrival
judge_arrival-Disposed fds c a (word, type, size, rest) = record {
  shut = λ m e. ground (arith, e);
  fds = λ m e. ground (arith, e);
  kept = λ m e. ground (arith, e);
  few = λ m e. ground (arith, e);
  whole = λ m e. ground (arith, e);
  inside = λ m e. ground (arith, e, length-take_le size rest);
  refused = λ e. ground (arith, e);
  lost = λ e. ground (arith, e);
}

-- For every arrival at a connected channel, where the kernel counts the descriptors of a control message
-- in its length and installs none where recvmsg() fails, recv() either returns a message or refuses. A message
-- owns exactly the descriptors that the kernel installed, those of every control message that carries
-- rights, at most kMaxFds of them, was not truncated, has a payload inside the bytes that were read, and nothing is closed and the channel stays as it
-- was. A refusal closes exactly the descriptors that the kernel installed and disconnects.
pub recv-Disposed :
    (base : ℕ) (c : Channel) (a : Arrival)
    → IsDelivery base a
    → c.connected ≡ true
    → Disposed (granted a.controls) c a (recv base c a)
recv-Disposed base c a delivery up =
    subst (Disposed (granted a.controls) c a)
      (sym (
        recv-connected base c a up
        ∙ ap (λ fds. judge_arrival c (bytes_read a.count) fds a.truncated (read_header a.bytes))
            (installed-granted base a delivery)))
      (judge_arrival-Disposed (granted a.controls) c a (read_header a.bytes))

-- The packet of a message whose arguments passed the checks of sendWithFds().
module _ (base type size : ℕ) (payload fds : List ℕ) (ht : IsWord type)
    (hs : size ≤ buffer_size - header_size) (hp : size ≤ length payload)
    (hf : length fds ≤ max_fds) where
  abbrev message : Message
  message = record { type = type; payload = take size payload; fds = fds }

  abbrev header : List ℕ → List ℕ
  header rest = put 4 packet_magic ++ (put 4 type ++ (put 4 size ++ rest))

  packet_lem :
      packet type (some payload) size (some fds) (length fds)
      ≡ record { bytes = header (take size payload); fds = fds }
  unfolding packet
  packet_lem =
      ap₂
        (λ k f. record {
          bytes = put 4 packet_magic ++ (put 4 type ++ (put 4 k ++ take size payload));
          fds = f;
        })
        (omega arith) (take_all (length fds) fds (omega arith))

  length-header : length (header (take size payload)) ≡ header_size + size
  length-header = simp length-put_append (omega (arith, length-take size payload hp))

  judge_arrival-header :
      (c : Channel) (n : ℕ)
      → n ≡ header_size + size
      → judge_arrival c n fds false (packet_magic, type, size, take size payload)
        ≡ (c, some message, [])
  unfolding judge_arrival
  judge_arrival-header c n e =
      ground (arith, take_all size (take size payload) (length-take_le size payload))

  recv-delivered :
      (c : Channel)
      → c.connected ≡ true
      → recv base c (delivered base (packet type (some payload) size (some fds) (length fds)))
        ≡ (c, some message, [])
  recv-delivered c up =
      ap (λ p. recv base c (delivered base p)) packet_lem
      ∙ recv-connected base c
          (delivered base (record { bytes = header (take size payload); fds = fds })) up
      ∙ ap₂ (λ f w. judge_arrival c (length (header (take size payload))) f false w)
          (collect_fds-delivered base fds)
          (read_header-put type size (take size payload) ht (omega arith))
      ∙ judge_arrival-header c (length (header (take size payload))) length-header

sent_lem :
    (sendmsg : Packet → ℤ) (c c' : Channel) (type size : ℕ) (payload fds : List ℕ) (p : Packet)
    → send_with_fds sendmsg c type (some payload) size (some fds) (length fds) ≡ (c', true, some p)
    → (size ≤ buffer_size - header_size)
      × (length fds ≤ max_fds)
      × (packet type (some payload) size (some fds) (length fds) ≡ p)
unfolding send_with_fds
sent_lem sendmsg c c' type size payload fds p h = ground (arith, h)

-- Where sendWithFds() of a word for a type, with that many payload bytes and descriptors at its
-- pointers, answers that it sent the message, recv() of a connected channel reads from the whole
-- packet the same type, the payload bytes that were asked for and the same descriptors, and stays
-- connected.
pub recv-send_with_fds :
    (base : ℕ) (sendmsg : Packet → ℤ) (c c' d : Channel) (type size : ℕ) (payload fds : List ℕ)
    (p : Packet)
    → IsWord type
    → size ≤ length payload
    → d.connected ≡ true
    → send_with_fds sendmsg c type (some payload) size (some fds) (length fds) ≡ (c', true, some p)
    → recv base d (delivered base p)
      ≡ (d, some (record { type = type; payload = take size payload; fds = fds }), [])
recv-send_with_fds base sendmsg c c' d type size payload fds p ht hp up h =
    let (small, few, made) = sent_parts in
    subst
      (λ q.
        recv base d (delivered base q)
        ≡ (d, some (record { type = type; payload = take size payload; fds = fds }), []))
      made (recv-delivered base type size payload fds ht small hp few d up)
  where
    sent_parts :
        (size ≤ buffer_size - header_size)
        × (length fds ≤ max_fds)
        × (packet type (some payload) size (some fds) (length fds) ≡ p)
    sent_parts = sent_lem sendmsg c c' type size payload fds p h
