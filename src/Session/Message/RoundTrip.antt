-- ===== src/Session/Message/RoundTrip.antt =====
-- What flSessionEncode of src/framelink_session.cpp writes, flSessionDecode reads back.
use framelink.Base.{
  ℕ, ◌≤◌, ◌<◌, ◌≡◌, refl, sym, ap, subst, true, false, not, ◌&&◌, some, List, ◌++◌, ◌==◌, ==_refl,
  le→ltb, length, replicate, take, drop, take-append, drop-append, arith, length-append, ◌^◌,
}
use framelink.Base.Bytes.{put, get-put, length-put_append}
use framelink.Base.Int.{pos}
use framelink.Base.Masks.{IsWord}
use framelink.Session.{ok, Config, validate, version_valid}
use framelink.Session.Clock.{i64_max}
use framelink.Session.Message.{
  session_wire_size, session_magic, epoch_word, put_video, put_audio, put_fields, session_to_wire,
  session_encode, get_video, get_audio, get_fields, session_decode,
}

-- The fields have the sizes of their C types.
pub record HasFields (c : Config) : Type 0 where
  pub version : IsWord c.version
  pub session_id : length c.session_id ≡ 16
  pub clock_id : length c.clock_id ≡ 16
  pub generation : c.generation < 2 ^ 64
  pub video_track : IsWord c.video_track
  pub audio_track : IsWord c.audio_track
  pub format : IsWord c.video.format
  pub width : IsWord c.video.width
  pub height : IsWord c.video.height
  pub fps_num : IsWord c.video.fps_num
  pub fps_den : IsWord c.video.fps_den
  pub pcm : IsWord c.audio.pcm
  pub rate : IsWord c.audio.rate
  pub layout : IsWord c.audio.layout
  pub video_queue : IsWord c.video_queue_frames
  pub audio_queue : IsWord c.audio_queue_ms
  pub connect : IsWord c.connect_timeout_ms
  pub idle : IsWord c.idle_timeout_ms

get_video-put :
    (c : Config) (rest : List ℕ)
    → HasFields c
    → get_video (put_video c.video rest) ≡ (c.video, rest)
unfolding get_video
get_video-put c rest w = rw (get-put 4 c.video.format _ w.format) (
    rw (get-put 4 c.video.width _ w.width) (
      rw (get-put 4 c.video.height _ w.height) (
        rw (get-put 4 c.video.fps_num _ w.fps_num)
          (rw (get-put 4 c.video.fps_den rest w.fps_den) refl))))

get_audio-put :
    (c : Config) (rest : List ℕ)
    → HasFields c
    → get_audio (put_audio c.audio rest) ≡ (c.audio, rest)
unfolding get_audio
get_audio-put c rest w =
    rw (get-put 4 c.audio.pcm _ w.pcm)
      (rw (get-put 4 c.audio.rate _ w.rate) (rw (get-put 4 c.audio.layout rest w.layout) refl))

take_id : (id rest : List ℕ) → length id ≡ 16 → take 16 (id ++ rest) ≡ id
take_id id rest l = subst (λ n. take n (id ++ rest) ≡ id) l (take-append id rest)

drop_id : (id rest : List ℕ) → length id ≡ 16 → drop 16 (id ++ rest) ≡ rest
drop_id id rest l = subst (λ n. drop n (id ++ rest) ≡ rest) l (drop-append id rest)

-- The bytes behind each group of fields.
abbrev after_epoch : Config → List ℕ
after_epoch c =
    put 4 c.video_queue_frames
    ++ (put 4 c.audio_queue_ms
        ++ (put 4 c.connect_timeout_ms ++ (put 4 c.idle_timeout_ms ++ replicate 48 0)))

abbrev after_video : Config → ℕ → List ℕ
after_video c e = put_audio c.audio (put 8 e ++ after_epoch c)

abbrev after_ids : Config → ℕ → List ℕ
after_ids c e =
    put 8 c.generation
    ++ (put 4 c.video_track ++ (put 4 c.audio_track ++ put_video c.video (after_video c e)))

abbrev with_epoch : Config → ℕ → Config
with_epoch c e = record c { epoch_ns = pos e }

get_fields-put :
    (c : Config) (e : ℕ)
    → HasFields c
    → e ≤ i64_max
    → get_fields c.version (c.session_id ++ (c.clock_id ++ after_ids c e))
      ≡ (with_epoch c e, e, replicate 48 0)
unfolding get_fields
get_fields-put c e w small = rw (take_id c.session_id (c.clock_id ++ after_ids c e) w.session_id) (
    rw (drop_id c.session_id (c.clock_id ++ after_ids c e) w.session_id) (
      rw (take_id c.clock_id (after_ids c e) w.clock_id) (
        rw (drop_id c.clock_id (after_ids c e) w.clock_id) (
          rw (get-put 8 c.generation _ w.generation) (
            rw (get-put 4 c.video_track _ w.video_track) (
              rw (get-put 4 c.audio_track _ w.audio_track) (
                rw (get_video-put c (after_video c e) w) (
                  rw (get_audio-put c (put 8 e ++ after_epoch c) w) (
                    rw (get-put 8 e (after_epoch c) (omega (arith, small))) (
                      rw (get-put 4 c.video_queue_frames _ w.video_queue) (
                        rw (get-put 4 c.audio_queue_ms _ w.audio_queue) (
                          rw (get-put 4 c.connect_timeout_ms _ w.connect)
                            (rw (get-put 4 c.idle_timeout_ms _ w.idle) refl)))))))))))))

put_fields_lem :
    (c : Config) (e : ℕ)
    → c.epoch_ns ≡ pos e
    → put_fields c ≡ c.session_id ++ (c.clock_id ++ after_ids c e)
unfolding put_fields
put_fields_lem c e h =
    ap
      (λ z.
        c.session_id
        ++ (c.clock_id
            ++ (put 8 c.generation
                ++ (put 4 c.video_track
                    ++ (put 4 c.audio_track
                        ++ put_video c.video
                            (put_audio c.audio (put 8 (epoch_word z) ++ after_epoch c)))))))
      h

length-fields :
    (c : Config) (e : ℕ)
    → HasFields c
    → length (c.session_id ++ (c.clock_id ++ after_ids c e)) ≡ 152
length-fields c e w = omega (
  arith,
  length-append c.session_id (c.clock_id ++ after_ids c e),
  w.session_id,
  length-append c.clock_id (after_ids c e),
  w.clock_id,
  after,
)
  where
    after : length (after_ids c e) ≡ 120
    after = simp length-put_append (omega arith)

version_of_valid : (c : Config) → validate (some c) ≡ ok → version_valid c.version ≡ true
unfolding validate
version_of_valid c h = ground (arith, h)

magic_word : (v : ℕ) → session_magic v < 4294967296
magic_word v = ground arith

magic_known :
    (v : ℕ) → (not (session_magic v == 0x31535646) && not (session_magic v == 0x32535646)) ≡ false
magic_known v = ground arith

pub session_encode_parts :
    (c : Config) (bs : List ℕ)
    → session_encode (some c) (some session_wire_size) ≡ (ok, some bs)
    → (validate (some c) ≡ ok) × (session_to_wire c ≡ bs)
unfolding session_encode
session_encode_parts c bs h = ground (arith, h)

session_decode-to_wire :
    (c : Config) (e : ℕ)
    → HasFields c
    → c.epoch_ns ≡ pos e
    → e ≤ i64_max
    → validate (some c) ≡ ok
    → session_decode (some (session_to_wire c)) true ≡ (ok, some c)
unfolding session_decode session_to_wire
session_decode-to_wire c e w epoch small valid = rw (put_fields_lem c e epoch) (
    rw (get-put 4 (session_magic c.version) (put 4 c.version ++ body) (magic_word c.version)) (
      rw (get-put 4 c.version body w.version) (
        rw size (
          rw (magic_known c.version) (
            rw (known, ==_refl (session_magic c.version))
              (rw (get_fields-put c e w small)
                (rw (le→ltb i64_max e small) (rw whole (rw valid refl)))))))))
  where
    body : List ℕ
    body = c.session_id ++ (c.clock_id ++ after_ids c e)

    known : version_valid c.version ≡ true
    known = version_of_valid c valid

    whole : with_epoch c e ≡ c
    whole i = record c { epoch_ns = sym epoch i }

    size : length (put 4 (session_magic c.version) ++ (put 4 c.version ++ body)) ≡ 160
    size = omega (
      arith,
      length-put_append 4 (session_magic c.version) (put 4 c.version ++ body),
      length-put_append 4 c.version body,
      length-fields c e w,
    )

-- A configuration whose fields have the sizes of their C types, with an epoch that is not
-- negative, survives the wire: what the encoder writes for it decodes to it.
pub session_decode-encode :
    (c : Config) (e : ℕ) (bs : List ℕ)
    → HasFields c
    → c.epoch_ns ≡ pos e
    → e ≤ i64_max
    → session_encode (some c) (some session_wire_size) ≡ (ok, some bs)
    → session_decode (some bs) true ≡ (ok, some c)
session_decode-encode c e bs w epoch small h =
    let (valid, written) = session_encode_parts c bs h in
    subst (λ t. session_decode (some t) true ≡ (ok, some c)) written
      (session_decode-to_wire c e w epoch small valid)
