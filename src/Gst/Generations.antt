-- ===== src/Gst/Generations.antt =====
-- The generations of a session in src/gst/framelink_session_context.cpp: what a call leaves of the
-- generation before it, and what an older generation still gets.
use framelink.Base.{
  ℕ, ◌<◌, ◌≡◌, ◌≢◌, refl, sym, ◌∙◌, Bool, true, false, not, Option, none, some, List, ◌==◌,
  if◌then◌else◌, arith, ◌∷◌, ltb, ◌||◌,
}
use framelink.Base.Int.{ℤ}
use framelink.Session.{Config, Capabilities, SessionResult, validate_replacement}
use framelink.Session.Replacement.{replacement_parts}
use framelink.Session.Clock.{ClockMapping, map_pts}
use framelink.Gst.Events.{GstResult, ready, cancelled, invalid, stale, BigEndian, VideoEvent}
use framelink.Gst.{
  Coordinator, track_ready, set_mapping, wait_round, session_map_pts, map_running_time, mapped_pts,
  configure, accepts, replacement_refusal, wait, wait_rounds,
}
use framelink.Gst.Media.{
  claim_audio_stream, video_eos, given, event_channel, has_event_stream, send_on, send_video_event,
  receive_on, receive_video_event, peek_video_end, wait_end_round, wait_end_rounds, wait_video_eos,
}
use framelink.Gst.Calls.{Call, act_all, Kept, kept, newer}
use framelink.Gst.Later.{Later-configured, Later-generation, act_all-Later}

-- What a session gives to a generation that it has left behind.
pub record Refuses (g : ℕ) (t : Coordinator) : Type 0 where
  pub track : (n : ℕ) → ((track_ready t n g).0 ≡ t) × ((track_ready t n g).1 ≢ ready)
  pub waiter :
      wait_round t g ≡ (if t.is_cancelled then some (cancelled, none) else some (stale, none))
  pub install :
      (m : Option ClockMapping) (e : ℕ)
      → ((set_mapping t g m e).0 ≡ t) × ((set_mapping t g m e).1 ≢ ready)
  pub mapping : (pts : ℤ) (out : Bool) → (session_map_pts t g pts out).1 ≡ none
  pub running : (pts : ℤ) (need out : Bool) → (map_running_time t g pts need out).1 ≡ none
  pub claim : (producer : Bool) → claim_audio_stream t producer g ≡ (t, none)
  pub end :
      (frames : ℕ) (pts : ℤ)
      → ((video_eos t g frames pts).0 ≡ t) × ((video_eos t g frames pts).1 ≢ ready)
  pub events : event_channel t g ≡ none
  pub stream : has_event_stream t g ≡ false
  pub send :
      (be : BigEndian) (e : Option VideoEvent) (done : Bool)
      → send_video_event be t g e done ≡ (t, invalid, none)
  pub receive :
      (timeout : ℕ) (out : Bool) → receive_video_event t g timeout out ≡ (t, invalid, none)
  pub peek : (out : Bool) → peek_video_end t g out ≡ (invalid, none)
  pub wait :
      (states : List Coordinator) (timeout : ℕ) (out : Bool)
      → wait (t ∷ states) g timeout out ≡ (
          if not out || g == 0 || timeout == 0 || ltb 60000 timeout
          then (invalid, none)
          else if t.is_cancelled
          then (cancelled, none)
          else (stale, none))
  pub wait_end :
      (states : List Coordinator) (timeout : ℕ) (out : Bool)
      → wait_video_eos t states g timeout out ≡ (
          if not out || ltb 60000 timeout
          then (invalid, none)
          else if t.is_cancelled
          then (cancelled, none)
          else (stale, none))
  pub replace :
      (c : Config) (p q : Option Capabilities)
      → ((configure t (some (record c { generation = g })) p q).0 ≡ t)
        × ((configure t (some (record c { generation = g })) p q).1 ≢ ready)

not_newer :
    (c n : Config)
    → n.generation < c.generation
    → accepts (validate_replacement (some c) (some n)) ≡ false
not_newer c n h =
    accepts-not (validate_replacement (some c) (some n))
      (λ e. omega (arith, (replacement_parts c n e).generation, h))
  where
    accepts-not : (r : SessionResult) → ¬ (r ≡ SessionResult.ok) → accepts r ≡ false
    accepts-not SessionResult.ok h = elim (h refl) [ ]
    accepts-not _ h = refl

not_ready : (r : SessionResult) → replacement_refusal r ≢ ready
not_ready SessionResult.stale e = cc e
not_ready _ e = cc e

-- A configuration of a generation that is left behind is refused.
refused_configuration :
    (t : Coordinator) (g : ℕ) (c : Config) (p q : Option Capabilities)
    → t.configured ≡ true
    → g < t.config.generation
    → ((configure t (some (record c { generation = g })) p q).0 ≡ t)
      × ((configure t (some (record c { generation = g })) p q).1 ≢ ready)
unfolding configure
refused_configuration t g c p q up h =
    let old = not_newer t.config (record c { generation = g }) h in
    let refusal =
      not_ready (validate_replacement (some t.config) (some (record c { generation = g }))) in
    ground (arith, up, old, refusal)

Refuses-left :
    (g : ℕ) (t : Coordinator) → t.configured ≡ true → g < t.config.generation → Refuses g t
unfolding track_ready wait_round set_mapping session_map_pts map_running_time claim_audio_stream
    video_eos event_channel has_event_stream send_video_event send_on receive_video_event receive_on
    peek_video_end wait wait_rounds wait_video_eos wait_end_rounds wait_end_round
Refuses-left g t up h = record {
  track = λ n. ground (arith, up, h);
  waiter = ground (arith, up, h);
  install = λ m e. refused_mapping m e;
  mapping = λ pts out. ground (arith, up, h);
  running = λ pts need out. ground (arith, up, h);
  claim = λ producer. ground (arith, up, h);
  end = λ frames pts. ground (arith, up, h);
  events = no_channel;
  stream = rw no_channel refl;
  send = λ be e done. sends be e done;
  receive = λ timeout out. rw no_channel refl;
  peek = λ out. rw (no_channel, peek_video_end) refl;
  wait = λ states timeout out. ground (arith, up, h);
  wait_end = λ states timeout out. ground (arith, up, h);
  replace = λ c p q. refused_configuration t g c p q up h;
}
  where
    no_channel : event_channel t g ≡ none
    no_channel = ground (arith, up, h)

    sends :
        (be : BigEndian) (e : Option VideoEvent) (done : Bool)
        → send_video_event be t g e done ≡ (t, invalid, none)
    sends be none done = refl
    sends be (some e) done = rw no_channel refl

    refused_mapping :
        (m : Option ClockMapping) (e : ℕ)
        → ((set_mapping t g m e).0 ≡ t) × ((set_mapping t g m e).1 ≢ ready)
    refused_mapping none e = (refl, λ k. cc)
    refused_mapping (some m) e = ground (arith, up, h)

-- Once a configured session has left a generation behind, no sequence of calls brings it back:
-- behind them, each call that takes it as a generation, and a new configuration with it, is refused
-- and changes nothing. A track is not ready for it, a waiter for the tracks or for the end of the
-- video with valid arguments gets a cancellation or that it is stale, and it gets no mapping, no
-- mapped time, no audio stream, no end of the video, and no event channel to send on, to receive
-- from or to look at.
pub act_all-Refuses :
    (be : BigEndian) (s : Coordinator) (cs : List Call) (g : ℕ)
    → s.configured ≡ true
    → g < s.config.generation
    → Refuses g (act_all be s cs)
act_all-Refuses be s cs g up h =
    let later = act_all-Later be s cs up in
    Refuses-left g (act_all be s cs) (Later-configured later)
      (omega (arith, h, Later-generation later))

-- A mapped PTS by what a generation fixes.
abbrev live_map : Config → ClockMapping → ℕ → ℕ → ℤ → Bool → GstResult × Option ℤ
live_map c m e g pts out =
    if not out
    then (invalid, none)
    else if not (c.generation == g)
    then (stale, none)
    else mapped_pts (map_pts (some c) (some m) e pts true)

session_map_pts-live :
    (s : Coordinator) (g : ℕ) (pts : ℤ) (out : Bool)
    → s.configured ≡ true
    → s.mapped ≡ true
    → s.is_cancelled ≡ false
    → session_map_pts s g pts out ≡ live_map s.config s.mapping s.max_uncertainty g pts out
unfolding session_map_pts
session_map_pts-live s g pts out up m live = ground (arith, up, m, live)

mapped_alike :
    (s t : Coordinator) (g : ℕ) (pts : ℤ) (out : Bool)
    → s.configured ≡ true
    → t.configured ≡ true
    → s.mapped ≡ true
    → s.is_cancelled ≡ false
    → t.is_cancelled ≡ false
    → Kept s t
    → session_map_pts t g pts out ≡ session_map_pts s g pts out
mapped_alike s t g pts out us ut m cs ct k =
    session_map_pts-live t g pts out ut (k.mapped m) ct
    ∙ (λ i. live_map (k.config i) (k.mapping m i) (k.certain m i) g pts out)
    ∙ sym (session_map_pts-live s g pts out us m cs)

-- Within a generation there is one mapping: behind any calls that leave a mapped session in its
-- generation and not cancelled, a PTS is mapped as before, for every generation that is asked for.
pub map_pts-act_all :
    (be : BigEndian) (s : Coordinator) (cs : List Call) (g : ℕ) (pts : ℤ) (out : Bool)
    → s.configured ≡ true
    → s.mapped ≡ true
    → s.is_cancelled ≡ false
    → (act_all be s cs).is_cancelled ≡ false
    → (act_all be s cs).config.generation ≡ s.config.generation
    → session_map_pts (act_all be s cs) g pts out ≡ session_map_pts s g pts out
map_pts-act_all be s cs g pts out up m live live' same = elim (act_all-Later be s cs up) [
  | kept up' k ↦ mapped_alike s (act_all be s cs) g pts out up up' m live live' k
  | newer up' more ↦ absurd (omega (arith, more, same))
]

claimed_parts :
    (s s' : Coordinator) (g k : ℕ) (producer : Bool)
    → claim_audio_stream s producer g ≡ (s', some k)
    → (s'.configured ≡ true)
      × (s'.config.generation ≡ g)
      × (given s'.audio_connection ≡ true)
      × (s'.audio_claimed ≡ true)
unfolding claim_audio_stream
claimed_parts s s' g k producer h = ground (arith, h)

claimed_again :
    (t : Coordinator) (g : ℕ) (other : Bool)
    → t.audio_claimed ≡ true
    → (claim_audio_stream t other g).1 ≡ none
unfolding claim_audio_stream
claimed_again t g other h = ground (arith, h)

claimed_stale :
    (t : Coordinator) (g : ℕ) (other : Bool)
    → g < t.config.generation
    → (claim_audio_stream t other g).1 ≡ none
unfolding claim_audio_stream
claimed_stale t g other h = ground (arith, h)

-- An audio stream that was claimed for a generation is not given out again for it, to either side
-- and behind any calls.
pub claim_audio_stream_once :
    (be : BigEndian) (s s' : Coordinator) (cs : List Call) (g k : ℕ) (producer other : Bool)
    → claim_audio_stream s producer g ≡ (s', some k)
    → (claim_audio_stream (act_all be s' cs) other g).1 ≡ none
claim_audio_stream_once be s s' cs g k producer other h =
    let (up, gen, conn, taken) = claimed_parts s s' g k producer h in
    elim (act_all-Later be s' cs up) [
      | kept up' kept' ↦ claimed_again (act_all be s' cs) g other (kept'.claimed conn taken)
      | newer up' more ↦ claimed_stale (act_all be s' cs) g other (omega (arith, gen, more))
    ]
