-- ===== src/Ledger.antt =====
-- The reader ledger of a channel, src/fl_read_ledger.hpp: a ring of retained frames and a table of
-- reader tokens. Each method takes the ledger and returns it with the result and with what it
-- writes through its out parameter.
pub mod Window
pub mod Owners
pub mod Invariant
pub mod Retire
pub mod Tokens
pub mod Held
use framelink.Base.{
  ℕ, zero, suc, ◌+◌, ◌-◌, ◌%◌, Bool, true, false, not, ◌&&◌, ◌||◌, Option, none, some, List, [],
  ◌∷◌, ltb, leb, ◌==◌, truthy, if◌then◌else◌, replicate,
}
use framelink.Base.Int.{pos}
use framelink.Api.{FlResult, ok, invalid, busy, internal, Frame, max_pool_size, u64_max}

-- ReadLedger::MaxReaders
abbrev pub max_readers : ℕ
max_readers = 256

-- struct Frame: a retained frame with its ring generation and its number of readers.
pub record Entry : Type 0 where
  pub frame : Frame
  pub generation : ℕ
  pub readers : ℕ

-- struct Reader: free when its token is 0.
pub record Reader : Type 0 where
  pub token : ℕ
  pub frame : ℕ
  pub pending : Bool

pub record Retirement : Type 0 where
  pub generation : ℕ
  pub value : ℕ

-- `next_token` is the static counter, which all ledgers of the process share.
pub record Ledger : Type 0 where
  pub frames : ℕ → Entry
  pub readers : List Reader
  pub head : ℕ
  pub count : ℕ
  pub generation : ℕ
  pub last_value : ℕ
  pub next_token : ℕ

abbrev pub no_frame : Frame
no_frame = record { slot = 0; image = 0; pts_ns = pos 0; sequence = 0; ready_value = 0 }

abbrev pub no_entry : Entry
no_entry = record { frame = no_frame; generation = 0; readers = 0 }

abbrev pub no_reader : Reader
no_reader = record { token = 0; frame = 0; pending = false }

abbrev pub no_retirement : Retirement
no_retirement = record { generation = 0; value = 0 }

-- A write to one cell of the ring's array.
abbrev pub update : (ℕ → Entry) → ℕ → Entry → ℕ → Entry
update fs i e j = if j == i then e else fs j

-- The table and the ring as constructed; the counter starts at 1.
unfoldable pub new : ℕ → Ledger
new next = record {
  frames = λ _. no_entry;
  readers = replicate max_readers no_reader;
  head = 0;
  count = 0;
  generation = 0;
  last_value = 0;
  next_token = next;
}

-- token(): 0 once the counter is exhausted. The counter then stands still.
unfoldable pub draw_token : ℕ → ℕ × ℕ
draw_token n = if n == u64_max then (0, n) else (n, n + 1)

abbrev pub same : Bool → Bool → Bool
same true b = b
same false b = not b

-- The first entry of the table with this token and this state.
unfoldable pub find_in : ℕ → Bool → List Reader → Option Reader
find_in t p [] = none
find_in t p (r ∷ rs) = if r.token == t && same r.pending p then some r else find_in t p rs

-- find(): token 0 marks free entries and is never found.
unfoldable pub find : ℕ → Bool → List Reader → Option Reader
unfolding find_in
find t p rs = if t == 0 then none else find_in t p rs

-- A write through the pointer that `find` returned.
unfoldable pub write_at : ℕ → Bool → Reader → List Reader → List Reader
write_at t p x [] = []
write_at t p x (r ∷ rs) = if r.token == t && same r.pending p then x ∷ rs else r ∷ write_at t p x rs

-- A write to the first free entry, if there is one.
unfoldable pub place : Reader → List Reader → Option (List Reader)
place x [] = none
place x (r ∷ rs) =
    let rest : Option (List Reader) = elim (place x rs) [
      | none ↦ none
      | some rs' ↦ some (r ∷ rs')
    ] in
    if r.token == 0 then some (x ∷ rs) else rest

-- ++frames_[f].readers
abbrev pub more_readers : Entry → Entry
more_readers e = record e { readers = e.readers + 1 }

-- --frames_[f].readers
abbrev pub fewer_readers : Entry → Entry
fewer_readers e = record e { readers = e.readers - 1 }

-- addReader()
unfoldable pub add_reader : Ledger → ℕ → Ledger × FlResult × Option ℕ
add_reader l f =
    let (t, next) = draw_token l.next_token in
    elim (place (record { token = t; frame = f; pending = false }) l.readers) [
      | none ↦ (l, busy, none)
      | some rs ↦ if t == 0 then (record l { next_token = next }, internal, none) else (
        record l {
          frames = update l.frames f (more_readers (l.frames f));
          readers = rs;
          next_token = next;
        },
        ok,
        some t,
      )
    ]

abbrev pub empty : Ledger → Bool
empty l = l.count == 0

unfoldable pub reset_epoch : Ledger → Ledger
reset_epoch l = if empty l then record l { generation = 0; last_value = 0 } else l

-- The loop over the retained frames, n of them from position h on.
unfoldable pub holds_slot : (ℕ → Entry) → ℕ → ℕ → ℕ → Bool
holds_slot fs h zero slot = false
holds_slot fs h (suc n) slot = (fs (h % 16)).frame.slot == slot || holds_slot fs (suc h) n slot

-- The position behind the last retained frame.
abbrev pub tail : Ledger → ℕ
tail l = (l.head + l.count) % 16

abbrev pub opened : Ledger → ℕ → Frame → Ledger
opened l generation frame = record l {
  frames =
      update l.frames (tail l) (record { frame = frame; generation = generation; readers = 0 });
}

-- The end of acquire(), by the result of addReader().
abbrev pub close_acquire :
    ℕ → ℕ → Frame → Ledger × FlResult × Option ℕ → Ledger × FlResult × Option ℕ
close_acquire f generation frame (l, ok, o) = (
  record l { generation = generation; last_value = frame.ready_value; count = l.count + 1 },
  ok,
  o,
)
close_acquire f generation frame (l, r, o) =
    (record l { frames = update l.frames f no_entry }, r, none)

abbrev pub unusable : ℕ → Frame → Bool
unusable generation frame =
    generation == 0 || frame.image == 0 || frame.ready_value == 0 || leb max_pool_size frame.slot

-- The checks of acquire(), in its order; `none` lets the frame in.
unfoldable pub refusal : Ledger → ℕ → Frame → Option FlResult
refusal l generation frame =
    if unusable generation frame
    then some invalid
    else if l.count == 16
    then some busy
    else if not (l.generation == generation) && truthy l.count
    then some busy
    else if l.generation == generation && leb frame.ready_value l.last_value
    then some invalid
    else if holds_slot l.frames l.head l.count frame.slot
    then some busy
    else none

unfoldable pub acquire : Ledger → ℕ → Frame → Ledger × FlResult × Option ℕ
unfolding refusal
acquire l generation frame = elim (refusal l generation frame) [
  | some r ↦ (l, r, none)
  | none ↦ close_acquire (tail l) generation frame (add_reader (opened l generation frame) (tail l))
]

unfoldable pub retain : Ledger → ℕ → Ledger × FlResult × Option ℕ
retain l source = elim (find source false l.readers) [
  | none ↦ (l, invalid, none)
  | some r ↦ add_reader l r.frame
]

-- get(): the frame and the generation of a live token.
unfoldable pub get : Ledger → ℕ → Option (Frame × ℕ)
get l t = elim (find t false l.readers) [
  | none ↦ none
  | some r ↦ some ((l.frames r.frame).frame, (l.frames r.frame).generation)
]

-- The body that complete() and finishDeferred() share.
unfoldable pub finish : Bool → Ledger → ℕ → Ledger × FlResult
finish p l t = elim (find t p l.readers) [
  | none ↦ (l, invalid)
  | some r ↦ (
    record l {
      frames = update l.frames r.frame (fewer_readers (l.frames r.frame));
      readers = write_at t p no_reader l.readers;
    },
    ok,
  )
]

unfoldable pub complete : Ledger → ℕ → Ledger × FlResult
unfolding finish
complete l t = finish false l t

unfoldable pub finish_deferred : Ledger → ℕ → Ledger × FlResult
unfolding finish
finish_deferred l t = finish true l t

unfoldable pub defer : Ledger → ℕ → Ledger × FlResult
defer l t = elim (find t false l.readers) [
  | none ↦ (l, invalid)
  | some r ↦ (record l { readers = write_at t false (record r { pending = true }) l.readers }, ok)
]

-- The loop of retirement(): it stops at the first frame that still has a reader.
unfoldable pub scan : (ℕ → Entry) → ℕ → ℕ → Retirement → Retirement
scan fs h zero acc = acc
scan fs h (suc n) acc =
    let e = fs (h % 16) in
    let rest =
      scan fs (suc h) n (record { generation = e.generation; value = e.frame.ready_value }) in
    if truthy e.readers then acc else rest

unfoldable pub retirement : Ledger → Retirement
unfolding scan
retirement l = scan l.frames l.head l.count no_retirement

abbrev pub pop : Ledger → Ledger
pop l = record l {
  frames = update l.frames l.head no_entry;
  head = (l.head + 1) % 16;
  count = l.count - 1;
}

-- The `while (count_)` of retired(), on the count as fuel: each round takes one frame.
unfoldable pub drop_retired : ℕ → ℕ → Ledger → Ledger
drop_retired zero v l = l
drop_retired (suc n) v l =
    let e = l.frames l.head in
    let rest = drop_retired n v (pop l) in
    if truthy e.readers || ltb v e.frame.ready_value then l else rest

unfoldable pub retired : Ledger → Retirement → Ledger × FlResult
retired l v =
    let ready = retirement l in
    if v.value == 0 || not (v.value == ready.value) || not (v.generation == ready.generation)
    then (l, invalid)
    else (drop_retired l.count v.value l, ok)
