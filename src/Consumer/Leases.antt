-- ===== src/Consumer/Leases.antt =====
-- The read leases of a consumer, src/fl_read_api.inc over the reader ledger, with the retirement helpers of
-- src/framelink_linux.cpp.
use framelink.Base.{
  ℕ, ◌-◌, Bool, false, not, ◌&&◌, ◌||◌, Option, none, some, List, [], ◌∷◌, ltb, leb, ◌==◌,
  if◌then◌else◌, length, get_or,
}
use framelink.Api.{
  FlResult, ok, format_unsupported, disconnected, not_found, invalid, busy, internal, Frame,
}
use framelink.Ledger.{
  Ledger, empty, acquire, retain, get, complete, defer, finish_deferred, retirement, retired,
}
use framelink.Metadata.{FrameMetadata, has_flag}
use framelink.Producer.{Release}
use framelink.Consumer.{
  Consumer, Completion, gpu_sync, defer_release, track_arrival, is_held, no_longer_held, after_send,
}

-- Whether the frame is the one that is held, with its image.
abbrev pub is_held_image : Consumer → Frame → Bool
is_held_image c f =
    is_held c f && ltb f.slot (length c.images) && f.image == get_or c.images f.slot 0

abbrev pub with_readers : Consumer → Ledger → Consumer
with_readers c l = record c { readers = l }

-- flLeaseFrame behind the ledger, by the result of acquire().
abbrev pub close_lease : Consumer → Ledger × FlResult × Option ℕ → Consumer × FlResult × Option ℕ
close_lease c (l, ok, lease) = (no_longer_held (with_readers c l), ok, lease)
close_lease c (l, r, lease) = (with_readers c l, r, lease)

-- flLeaseFrame
unfoldable pub lease_frame : Consumer → Frame → Consumer × FlResult × Option ℕ
lease_frame c f =
    if not (has_flag c.flags defer_release) || has_flag c.flags gpu_sync
    then (c, invalid, none)
    else if not (is_held_image c f)
    then (c, invalid, none)
    else close_lease c (acquire c.readers c.info.generation f)

-- flRetainReadLease
unfoldable pub retain_read_lease : Consumer → ℕ → Consumer × FlResult × Option ℕ
retain_read_lease c lease =
    let (l, r, retained) = retain c.readers lease in (with_readers c l, r, retained)

-- flReadLeaseFrame
unfoldable pub read_lease_frame : Consumer → ℕ → FlResult × Option (Frame × ℕ)
read_lease_frame c lease = elim (get c.readers lease) [
  | none ↦ (invalid, none)
  | some x ↦ (ok, some x)
]

-- flCompleteReadLease
unfoldable pub complete_read_lease : Consumer → ℕ → Consumer × FlResult
complete_read_lease c lease = let (l, r) = complete c.readers lease in (with_readers c l, r)

-- A write to the first free entry of leaseCompletions, if there is one.
unfoldable pub place_completion : Completion → List Completion → Option (List Completion)
place_completion x [] = none
place_completion x (e ∷ es) =
    let rest : Option (List Completion) = elim (place_completion x es) [
      | none ↦ none
      | some es' ↦ some (e ∷ es')
    ] in
    if e.token == 0 then some (x ∷ es) else rest

-- The end of flCompleteReadLeaseSyncFd, by the result of defer().
abbrev pub close_defer : Consumer → List Completion → Ledger × FlResult → Consumer × FlResult
close_defer c es (l, ok) = (record c { readers = l; completions = es }, ok)
close_defer c es (l, r) = (with_readers c l, r)

-- flCompleteReadLeaseSyncFd behind the search for a free entry.
abbrev pub defer_placed : Bool → Consumer → ℕ → Option (List Completion) → Consumer × FlResult
defer_placed duplicated c lease none = (c, busy)
defer_placed duplicated c lease (some es) =
    if duplicated then close_defer c es (defer c.readers lease) else (c, invalid)

-- flCompleteReadLeaseSyncFd, with whether fcntl() duplicates the descriptor.
unfoldable pub complete_read_lease_sync_fd : Bool → Consumer → ℕ → ℕ → Consumer × FlResult
complete_read_lease_sync_fd duplicated c lease fd = elim (get c.readers lease) [
  | none ↦ (c, invalid)
  | some _ ↦
      defer_placed duplicated c lease
        (place_completion (record { token = lease; fd = some fd }) c.completions)
]

-- What poll() says of a fence's descriptor.
pub data Polled : Type 0 where
  poll_failed interrupted still_waiting broken signalled other_event : Polled

abbrev pub no_completion : Completion
no_completion = record { token = 0; fd = none }

abbrev pub poll_fd : (ℕ → Polled) → Option ℕ → Polled
poll_fd polled none = still_waiting
poll_fd polled (some fd) = polled fd

-- A signalled entry is freed where finishDeferred() succeeds.
abbrev pub close_poll : Completion → Ledger × FlResult → Ledger × FlResult × Completion
close_poll e (l, ok) = (l, ok, no_completion)
close_poll e (l, r) = (l, r, e)

-- The entry e that was polled in pollLeaseCompletions(): what becomes of the ledger and of the entry.
unfoldable pub poll_one : Polled → Ledger → Completion → Ledger × FlResult × Completion
poll_one poll_failed l e = (l, internal, e)
poll_one broken l e = (l, internal, e)
poll_one signalled l e = close_poll e (finish_deferred l e.token)
poll_one _ l e = (l, ok, e)

abbrev pub poll_skipped :
    Completion → Ledger × FlResult × List Completion → Ledger × FlResult × List Completion
poll_skipped e (l, r, es) = (l, r, e ∷ es)

-- The loop of pollLeaseCompletions() behind an entry; it ends where one fails.
abbrev pub poll_further :
    (Ledger → Ledger × FlResult × List Completion)
    → List Completion
    → Ledger × FlResult × Completion
    → Ledger × FlResult × List Completion
poll_further rest es (l, ok, e) = poll_skipped e (rest l)
poll_further rest es (l, r, e) = (l, r, e ∷ es)

-- pollLeaseCompletions()
unfoldable pub poll_completions :
    (ℕ → Polled) → Ledger → List Completion → Ledger × FlResult × List Completion
unfolding poll_one
poll_completions polled l [] = (l, ok, [])
poll_completions polled l (e ∷ es) =
    let rest = poll_completions polled l es in
    if e.token == 0
    then poll_skipped e rest
    else poll_further (λ l'. poll_completions polled l' es) es (poll_one (poll_fd polled e.fd) l e)

-- retireReadLeases(): `sent` is whether the link takes the message, which goes to a peer that is up.
unfoldable pub retire_read_leases : Bool → Consumer → ℕ → Consumer × FlResult × Option Release
retire_read_leases sent c value =
    let r : Release = record { value = value; fd = none } in
    if c.peer_connected && not sent
    then (after_send false c, disconnected, none)
    else (record c { retired = value }, ok, (if c.peer_connected then some r else none))

-- flCollectReadLeases behind retirement(), by the result of retireReadLeases().
abbrev pub close_collect :
    Consumer × FlResult × Option Release → ℕ × ℕ → Consumer × FlResult × Option Release
close_collect (c, ok, message) (generation, value) =
    let (l, r) = retired c.readers (record { generation = generation; value = value }) in
    (with_readers c l, r, message)
close_collect (c, r, message) v = (c, r, message)

-- flCollectReadLeases behind the completions that were polled.
abbrev pub collect_retired : Bool → Consumer → Consumer × FlResult × Option Release
collect_retired sent c =
    let v = retirement c.readers in
    if v.value == 0
    then (c, (if empty c.readers then ok else busy), none)
    else close_collect (retire_read_leases sent c v.value) (v.generation, v.value)

-- flCollectReadLeases, by what pollLeaseCompletions() returned.
abbrev pub collect_polled :
    Bool → Consumer → Ledger × FlResult × List Completion → Consumer × FlResult × Option Release
collect_polled sent c (l, ok, es) =
    collect_retired sent (record c { readers = l; completions = es })
collect_polled sent c (l, r, es) = (record c { readers = l; completions = es }, r, none)

-- flCollectReadLeases
unfoldable pub collect_read_leases :
    Bool → (ℕ → Polled) → Consumer → Consumer × FlResult × Option Release
unfolding poll_completions retire_read_leases
collect_read_leases sent polled c =
    collect_polled sent c (poll_completions polled c.readers c.completions)

-- flFrameAgeNs
unfoldable pub frame_age_ns : ℕ → Consumer → Frame → FlResult × Option ℕ
frame_age_ns now c f =
    if not (has_flag c.flags track_arrival)
    then (format_unsupported, none)
    else if not (is_held_image c f)
    then (invalid, none)
    else (ok, some (if leb c.held_arrival now then now - c.held_arrival else 0))

-- flQueryConsumerFlags
unfoldable pub query_consumer_flags : Consumer → ℕ
query_consumer_flags c = c.flags

-- flGetFrameMetadata
unfoldable pub get_frame_metadata : Consumer → Frame → FlResult × Option FrameMetadata
get_frame_metadata c f =
    if not (is_held_image c f)
    then (invalid, none)
    else if c.held_metadata.version == 0
    then (not_found, none)
    else (ok, some c.held_metadata)
