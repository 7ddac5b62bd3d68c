-- ===== src/Session/Message.antt =====
-- The configuration message of src/framelink_session.cpp: flSessionEncode and flSessionDecode. An
-- `flSessionId` is its 16 bytes.
pub mod RoundTrip
use framelink.Base.{
  ℕ, zero, suc, ◌+◌, ◌-◌, ◌≤◌, ◌<◌, ◌≡◌, refl, sym, ap, subst, ◌∙◌, Bool, true, false, not, ◌&&◌,
  ◌||◌, Option, none, some, List, [], ◌∷◌, ◌++◌, ltb, leb, ◌==◌, truthy, if◌then◌else◌, length,
  replicate, take, drop, take-append, drop-append, all, arith, length-append, length-replicate,
  Bool-cases, inl, inr,
}
use framelink.Base.Bytes.{put, get, get-put, length-put_append, AreBytes}
use framelink.Base.Int.{ℤ, pos, negsuc}
use framelink.Base.Masks.{IsWord}
use framelink.Session.{
  SessionResult, ok, invalid, version_error, time_range, Config, VideoFormat, AudioFormat, validate,
  version_valid, version_one, is_negative,
}
use framelink.Session.Clock.{i64_max}

-- FL_SESSION_WIRE_SIZE
abbrev pub session_wire_size : ℕ
session_wire_size = 160

-- "FVS1" for version 1, "FVS2" for the version with optional tracks.
abbrev pub session_magic : ℕ → ℕ
session_magic version = if version == version_one then 0x31535646 else 0x32535646

-- uint64_t(c->epochNs)
abbrev pub epoch_word : ℤ → ℕ
epoch_word (pos n) = n
epoch_word (negsuc n) = 18446744073709551615 - n

abbrev pub put_video : VideoFormat → List ℕ → List ℕ
put_video v rest =
    put 4 v.format
    ++ (put 4 v.width ++ (put 4 v.height ++ (put 4 v.fps_num ++ (put 4 v.fps_den ++ rest))))

abbrev pub put_audio : AudioFormat → List ℕ → List ℕ
put_audio a rest = put 4 a.pcm ++ (put 4 a.rate ++ (put 4 a.layout ++ rest))

-- The fields behind the version; the buffer is zeroed first.
unfoldable pub put_fields : Config → List ℕ
put_fields c =
    c.session_id
    ++ (c.clock_id
        ++ (put 8 c.generation
            ++ (put 4 c.video_track
                ++ (put 4 c.audio_track
                    ++ put_video c.video (
                        put_audio c.audio (
                          put 8 (epoch_word c.epoch_ns)
                          ++ (put 4 c.video_queue_frames
                              ++ (put 4 c.audio_queue_ms
                                  ++ (put 4 c.connect_timeout_ms
                                      ++ (put 4 c.idle_timeout_ms ++ replicate 48 0))))))))))

unfoldable pub session_to_wire : Config → List ℕ
session_to_wire c = put 4 (session_magic c.version) ++ (put 4 c.version ++ put_fields c)

abbrev pub or_bytes_of :
    SessionResult → SessionResult × Option (List ℕ) → SessionResult × Option (List ℕ)
or_bytes_of ok next = next
or_bytes_of r next = (r, none)

-- flSessionEncode, with the size of the buffer at `data` if that is given.
unfoldable pub session_encode : Option Config → Option ℕ → SessionResult × Option (List ℕ)
session_encode c none = (invalid, none)
session_encode none (some size) =
    if size == session_wire_size
    then or_bytes_of (validate none) (invalid, none)
    else (invalid, none)
session_encode (some c) (some size) =
    if size == session_wire_size
    then or_bytes_of (validate (some c)) (ok, some (session_to_wire c))
    else (invalid, none)

unfoldable pub get_video : List ℕ → VideoFormat × List ℕ
get_video bs =
    let (format, b1) = get 4 bs in
    let (width, b2) = get 4 b1 in
    let (height, b3) = get 4 b2 in
    let (fps_num, b4) = get 4 b3 in
    let (fps_den, b5) = get 4 b4 in
    (
      record {
        format = format;
        width = width;
        height = height;
        fps_num = fps_num;
        fps_den = fps_den;
      },
      b5,
    )

unfoldable pub get_audio : List ℕ → AudioFormat × List ℕ
get_audio bs =
    let (pcm, b1) = get 4 bs in
    let (rate, b2) = get 4 b1 in
    let (layout, b3) = get 4 b2 in (record { pcm = pcm; rate = rate; layout = layout }, b3)

-- The fields behind the version, the epoch's word, and the bytes left.
unfoldable pub get_fields : ℕ → List ℕ → Config × ℕ × List ℕ
get_fields version bs =
    let b1 = drop 16 bs in
    let (generation, b3) = get 8 (drop 16 b1) in
    let (video_track, b4) = get 4 b3 in
    let (audio_track, b5) = get 4 b4 in
    let (video, b6) = get_video b5 in
    let (audio, b7) = get_audio b6 in
    let (epoch, b8) = get 8 b7 in
    let (video_queue, b9) = get 4 b8 in
    let (audio_queue, b10) = get 4 b9 in
    let (connect, b11) = get 4 b10 in
    let (idle, b12) = get 4 b11 in
    (
      record {
        version = version;
        session_id = take 16 bs;
        clock_id = take 16 b1;
        generation = generation;
        video_track = video_track;
        audio_track = audio_track;
        video = video;
        audio = audio;
        epoch_ns = pos epoch;
        video_queue_frames = video_queue;
        audio_queue_ms = audio_queue;
        connect_timeout_ms = connect;
        idle_timeout_ms = idle;
      },
      epoch,
      b12,
    )

abbrev pub or_config : SessionResult → SessionResult × Option Config → SessionResult × Option Config
or_config ok next = next
or_config r next = (r, none)

abbrev pub close_session : Config × ℕ × List ℕ → SessionResult × Option Config
close_session (c, epoch, rest) =
    if ltb i64_max epoch
    then (time_range, none)
    else if not (all (λ b. b == 0) rest)
    then (invalid, none)
    else or_config (validate (some c)) (ok, some c)

-- flSessionDecode of the bytes at `data`, whose number is the size given.
unfoldable pub session_decode : Option (List ℕ) → Bool → SessionResult × Option Config
session_decode none to = (invalid, none)
session_decode (some bs) to =
    let (magic, b1) = get 4 bs in
    let (version, b2) = get 4 b1 in
    if not to || not (length bs == session_wire_size)
    then (invalid, none)
    else if not (magic == 0x31535646) && not (magic == 0x32535646)
    then (invalid, none)
    else if not (version_valid version) || not (magic == session_magic version)
    then (version_error, none)
    else close_session (get_fields version b2)
