-- ===== src/Examples/Sessions.antt =====
-- A session of src/gst/framelink_session_context.cpp and the event channel of
-- src/gst/fl_gst_event_channel.hpp.
use framelink.Base.{
  ℕ, zero, suc, ◌+◌, ◌*◌, ◌/◌, ◌%◌, ◌^◌, ◌<◌, ◌≡◌, refl, ap, ◌∙◌, true, false, none, some, List, [],
  ◌∷◌, ◌++◌, length, length-append, replicate, arith,
}
use native.Mathlib.Numerals.{towards_suc}
use framelink.Base.Int.{pos, negsuc}
use framelink.Session.{Config}
use framelink.Session.Clock.{ClockMapping}
use framelink.Gst.Events.{VideoEvent, BigEndian}
use framelink.Gst.Events.Fifo.{
  Op, new_link, no_events, link_run, fifo_run, sent_of, received_of, each, send, deliver, cut,
  receive,
}
use framelink.Gst.Events.Simulation.{run_refines}
use framelink.Gst.Events.Order.{link_run_ordered}
use framelink.Gst.{Coordinator, zero_config, session_map_pts, register_track}
use framelink.Gst.Media.{claim_audio_stream, publish_audio, publish_events}
use framelink.Gst.Publishing.{HasTypes, publish-act_all}
use framelink.Gst.Calls.{act, act_all, cancels, readies, registers, claims}
use framelink.Gst.Generations.{Refuses, act_all-Refuses, map_pts-act_all, claim_audio_stream_once}

abbrev be_put : ℕ → ℕ → List ℕ
be_put zero v = []
be_put (suc n) v = be_put n (v / 256) ++ (v % 256) ∷ []

abbrev be_get : ℕ → ℕ → List ℕ → ℕ
be_get zero acc bs = acc
be_get (suc n) acc [] = acc
be_get (suc n) acc (b ∷ bs) = be_get n (acc * 256 + b) bs

length-be_put : (n v : ℕ) → length (be_put n v) ≡ n
length-be_put zero v = refl
length-be_put (suc n) v =
    omega (arith, length-append (be_put n (v / 256)) (v % 256 ∷ []), length-be_put n (v / 256))

be_get-append :
    (n acc : ℕ) (xs ys : List ℕ) → length xs ≡ n → be_get n acc (xs ++ ys) ≡ be_get n acc xs
be_get-append zero acc [] ys l = refl
be_get-append zero acc (x ∷ xs) ys l = refl
be_get-append (suc n) acc [] ys l = absurd (omega (arith, l))
be_get-append (suc n) acc (x ∷ xs) ys l = be_get-append n (acc * 256 + x) xs ys (omega (arith, l))

be_get-last :
    (n acc d : ℕ) (xs : List ℕ)
    → length xs ≡ n
    → be_get (suc n) acc (xs ++ d ∷ []) ≡ be_get n acc xs * 256 + d
be_get-last zero acc d [] l = refl
be_get-last zero acc d (x ∷ xs) l = absurd (omega (arith, l))
be_get-last (suc n) acc d [] l = absurd (omega (arith, l))
be_get-last (suc n) acc d (x ∷ xs) l = be_get-last n (acc * 256 + x) d xs (omega (arith, l))

byte_more : (n : ℕ) → 2 ^ (8 * suc n) ≡ 256 * 2 ^ (8 * n)
byte_more n = ap (λ (t : ℕ). 2 ^ t) (omega arith) ∙ eight (8 * n)
  where
    eight : (s : ℕ) → 2 ^ (s + 8) ≡ 256 * 2 ^ s
    eight s = simp towards_suc (omega arith)

be_get-put : (n v : ℕ) → v < 2 ^ (8 * n) → be_get n 0 (be_put n v) ≡ v
be_get-put zero v h = omega (arith, h)
be_get-put (suc n) v h =
    be_get-last n 0 (v % 256) (be_put n (v / 256)) (length-be_put n (v / 256))
    ∙ omega (arith, be_get-put n (v / 256) (omega (arith, h, byte_more n)))

be_get-put_append :
    (n v : ℕ) (rest : List ℕ) → v < 2 ^ (8 * n) → be_get n 0 (be_put n v ++ rest) ≡ v
be_get-put_append n v rest h =
    be_get-append n 0 (be_put n v) rest (length-be_put n v) ∙ be_get-put n v h

be_get_zeros : (n : ℕ) (rest : List ℕ) → be_get n 0 (replicate n 0 ++ rest) ≡ 0
be_get_zeros zero rest = refl
be_get_zeros (suc n) rest = be_get_zeros n rest

abbrev big_endian : BigEndian
big_endian = record {
  write = be_put;
  read = λ n bs. be_get n 0 bs;
  length-write = length-be_put;
  read-write = be_get-put_append;
  read_zeros = be_get_zeros;
}

abbrev gap : VideoEvent
gap = record { kind = 1; after_frames = 4; pts_ns = 1000; duration_ns = 40 }

abbrev end_of_video : VideoEvent
end_of_video = record { kind = 4; after_frames = 9; pts_ns = 5000; duration_ns = 0 }

abbrev exchange : List Op
exchange = send gap true ∷ send end_of_video true ∷ deliver ∷ receive 5 ∷ deliver ∷ cut ∷ []

run_refines_example :
    link_run big_endian (new_link 1 2 6 1500) exchange ≡ fifo_run no_events exchange
run_refines_example = run_refines big_endian 1 2 6 1500 exchange (omega arith) (omega arith)

link_run_ordered_example :
    (rest : List VideoEvent) × (each sent_of (link_run big_endian (new_link 1 2 6 1500) exchange)
      ≡ each received_of (link_run big_endian (new_link 1 2 6 1500) exchange) ++ rest)
link_run_ordered_example =
    link_run_ordered big_endian 1 2 6 1500 exchange (omega arith) (omega arith)

abbrev config : Config
config = record zero_config {
  version = 2;
  session_id = replicate 16 1;
  clock_id = replicate 16 2;
  generation = 6;
  audio_track = 7;
  audio = record { pcm = 1; rate = 48000; layout = 2 };
  epoch_ns = pos 1000;
  audio_queue_ms = 200;
  connect_timeout_ms = 500;
  idle_timeout_ms = 500;
}

abbrev clock_mapping : ClockMapping
clock_mapping = record {
  source_clock = replicate 16 2;
  target_clock = replicate 16 3;
  source_anchor_ns = pos 400;
  target_anchor_ns = pos 9000;
  uncertainty_ns = 20;
}

config-HasTypes : (g : ℕ) → g < 2 ^ 64 → HasTypes (record config { generation = g })
config-HasTypes g word = record {
  fields = record {
    version = omega arith;
    session_id = refl;
    clock_id = refl;
    generation = word;
    video_track = omega arith;
    audio_track = omega arith;
    format = omega arith;
    width = omega arith;
    height = omega arith;
    fps_num = omega arith;
    fps_den = omega arith;
    pcm = omega arith;
    rate = omega arith;
    layout = omega arith;
    video_queue = omega arith;
    audio_queue = omega arith;
    connect = omega arith;
    idle = omega arith;
  };
  epoch = omega arith;
}

-- A session in its sixth generation, with a mapping and a claimed audio stream.
abbrev session : Coordinator
session = record {
  required = 2;
  registered = 0;
  tracks_ready = 0;
  configured = true;
  is_cancelled = false;
  mapped = true;
  video_ended = false;
  video_frames = 0;
  video_last_pts = negsuc 0;
  mapping = clock_mapping;
  max_uncertainty = 50;
  audio_connection = some 21;
  audio_producer = true;
  audio_claimed = false;
  events = none;
  config = config;
}

act_all-Refuses_example : Refuses 5 (act_all big_endian session (readies 2 5 ∷ cancels ∷ []))
act_all-Refuses_example =
    act_all-Refuses big_endian session (readies 2 5 ∷ cancels ∷ []) 5 refl (omega arith)

publish-act_all_example :
    (publish_audio
        (act_all big_endian session (registers 2 ∷ []))
        (some (record config { generation = 5 }))
        (some 9)
        true
      ≡ (act_all big_endian session (registers 2 ∷ []), false))
    × (publish_events
          (act_all big_endian session (registers 2 ∷ []))
          (some (record config { generation = 5 }))
          (some 9)
          true
        ≡ (act_all big_endian session (registers 2 ∷ []), false))
unfolding act_all act register_track
publish-act_all_example =
    publish-act_all big_endian session (registers 2 ∷ []) (record config { generation = 5 })
      (some 9) true refl (config-HasTypes 5 (omega arith)) (config-HasTypes 6 (omega arith))
      (omega arith)

map_pts-act_all_example :
    session_map_pts (act_all big_endian session (registers 2 ∷ claims true 6 ∷ [])) 6 (pos 800) true
    ≡ session_map_pts session 6 (pos 800) true
unfolding act_all act register_track claim_audio_stream
map_pts-act_all_example =
    map_pts-act_all big_endian session (registers 2 ∷ claims true 6 ∷ []) 6 (pos 800) true refl refl
      refl refl refl

claim_audio_stream_once_example :
    (claim_audio_stream
      (act_all big_endian (record session { audio_claimed = true }) (registers 2 ∷ []))
      true
      6).1
    ≡ none
unfolding claim_audio_stream
claim_audio_stream_once_example =
    claim_audio_stream_once big_endian session (record session { audio_claimed = true })
      (registers 2 ∷ []) 6 21 true true refl
