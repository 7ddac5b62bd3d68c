-- ===== src/Gst/Later.antt =====
-- What a call of src/gst/framelink_session_context.cpp leaves of the generation before it.
use framelink.Base.{
  ℕ, ◌≤◌, ◌<◌, ◌≡◌, refl, ap, ◌∙◌, Bool, true, false, not, ◌&&◌, ◌||◌, Option, none, some, List, [],
  ◌∷◌, ◌==◌, if◌then◌else◌, arith, bit_or, bit_and, truthy,
}
use framelink.Base.Int.{ℤ, pos}
use framelink.Session.{Config, Capabilities, validate_replacement, validate_selection}
use framelink.Session.Replacement.{same_id-eq}
use framelink.Session.Clock.{ClockMapping, map_pts, anchors_differ}
use framelink.Gst.Events.{
  GstResult, VideoEvent, BigEndian, EventChannel, send_event, receive_event, new_events,
}
use framelink.Gst.{
  Coordinator, Configured, configure, register_track, track_ready, cancel, set_mapping, accepts,
  other_mapping, is_stale, tracks_of, is_track,
}
use framelink.Gst.Media.{
  get_config, note_failure, publish_audio, claim_audio_stream, video_eos, publish_events,
  send_video_event, receive_video_event, same_config, given, event_channel, has_failed, bad_end,
  send_on, receive_on,
}
use framelink.Gst.Calls.{
  Call, configures, registers, readies, cancels, maps, reads, publishes, claims, ends, opens, sends,
  receives, act, act_all, Kept, Later, kept, newer,
}

newer_generation :
    (a b : Config)
    → accepts (validate_replacement (some a) (some b)) ≡ true
    → a.generation < b.generation
unfolding validate_replacement
newer_generation a b h = ground (arith, h)

anchors_eq : (a b : ℤ) → anchors_differ a b ≡ false → a ≡ b
anchors_eq a b h = ground (arith, h)

same_mapping :
    (s : Coordinator) (m : ClockMapping) (e : ℕ)
    → other_mapping s m e ≡ false
    → (m ≡ s.mapping) × (e ≡ s.max_uncertainty)
same_mapping s m e h = (
  λ i. record {
    source_clock = same_id-eq m.source_clock s.mapping.source_clock (ground (arith, h)) i;
    target_clock = same_id-eq m.target_clock s.mapping.target_clock (ground (arith, h)) i;
    source_anchor_ns =
        anchors_eq m.source_anchor_ns s.mapping.source_anchor_ns (ground (arith, h)) i;
    target_anchor_ns =
        anchors_eq m.target_anchor_ns s.mapping.target_anchor_ns (ground (arith, h)) i;
    uncertainty_ns = uncertainty i;
  },
  ground (arith, h),
)
  where
    uncertainty : m.uncertainty_ns ≡ s.mapping.uncertainty_ns
    uncertainty = ground (arith, h)

abbrev pair : Coordinator × GstResult → Coordinator
pair r = r.0

module _ (s : Coordinator) (up : s.configured ≡ true) where
  -- A call that writes none of the fields that a generation fixes.
  untouched :
      (t : Coordinator)
      → t.configured ≡ s.configured
      → t.config ≡ s.config
      → t.mapped ≡ s.mapped
      → t.mapping ≡ s.mapping
      → t.max_uncertainty ≡ s.max_uncertainty
      → t.audio_connection ≡ s.audio_connection
      → (s.audio_claimed ≡ true → t.audio_claimed ≡ true)
      → Later s t
  untouched t c config mapped mapping certain connection claimed = kept (c ∙ up) (record {
    config = config;
    mapped = λ h. mapped ∙ h;
    mapping = λ h. mapping;
    certain = λ h. certain;
    connection = λ h. connection;
    claimed = λ h. claimed;
  })

  same : Later s s
  same = untouched s refl refl refl refl refl refl (λ h. h)

  Later-if :
      {X : Type 0} (f : X → Coordinator) (b : Bool) (x y : X)
      → (b ≡ true → Later s (f x))
      → (b ≡ false → Later s (f y))
      → Later s (f (if b then x else y))
  Later-if f true x y h k = h refl
  Later-if f false x y h k = k refl

  configure-Later : (c : Option Config) (p q : Option Capabilities) → Later s (configure s c p q).0
  unfolding configure
  configure-Later none p q = same
  configure-Later (some c) p q =
      Later-if (λ (r : Configured). r.0) (not (accepts (validate_selection (some c) p q))) _ _
        (λ _. same)
        (λ _.
          Later-if (λ (r : Configured). r.0) (not (tracks_of c == s.required)) _ _ (λ _. same)
            (λ _.
              Later-if (λ (r : Configured). r.0)
                (s.configured && not (accepts (validate_replacement (some s.config) (some c)))) _ _
                (λ _. same)
                (λ h. newer refl (newer_generation s.config c (ground (arith, h, up))))))

  set_mapping-Later : (g : ℕ) (m : Option ClockMapping) (e : ℕ) → Later s (set_mapping s g m e).0
  unfolding set_mapping
  set_mapping-Later g none e = same
  set_mapping-Later g (some m) e =
      Later-if (λ (r : Coordinator × GstResult). r.0) s.is_cancelled _ _ (λ _. same)
        (λ _.
          Later-if (λ (r : Coordinator × GstResult). r.0) (is_stale s g) _ _ (λ _. same)
            (λ _.
              Later-if (λ (r : Coordinator × GstResult). r.0)
                (not (accepts (map_pts (some s.config) (some m) e (pos 0) true).0)) _ _ (λ _. same)
                (λ _.
                  Later-if (λ (r : Coordinator × GstResult). r.0) (s.mapped && other_mapping s m e)
                    _ _ (λ _. same)
                    (λ h. kept up (record {
                      config = refl;
                      mapped = λ _. refl;
                      mapping = λ k. (same_mapping s m e (agrees k h)).0;
                      certain = λ k. (same_mapping s m e (agrees k h)).1;
                      connection = λ _. refl;
                      claimed = λ _ k. k;
                    })))))
    where
      agrees :
          s.mapped ≡ true → (s.mapped && other_mapping s m e) ≡ false → other_mapping s m e ≡ false
      agrees k h = ground (arith, k, h)

  register_track-Later : (track : ℕ) → Later s (register_track s track).0
  unfolding register_track
  register_track-Later track =
      Later-if pair (not (is_track track)) _ _ (λ _. same)
        (λ _.
          Later-if pair
            (not (truthy (bit_and s.required track)) || truthy (bit_and s.registered track)) _ _
            (λ _. same)
            (λ _.
              untouched (record s { registered = bit_or s.registered track }) refl refl refl refl
                refl refl (λ h. h)))

  track_ready-Later : (track g : ℕ) → Later s (track_ready s track g).0
  unfolding track_ready
  track_ready-Later track g =
      Later-if pair (not (is_track track)) _ _ (λ _. same)
        (λ _.
          Later-if pair s.is_cancelled _ _ (λ _. same)
            (λ _.
              Later-if pair (is_stale s g) _ _ (λ _. same)
                (λ _.
                  Later-if pair (not (truthy (bit_and s.registered track))) _ _ (λ _. same)
                    (λ _.
                      untouched (record s { tracks_ready = bit_or s.tracks_ready track }) refl refl
                        refl refl refl refl (λ h. h)))))

  get_config-Later : (out : Bool) → Later s (get_config s out).0
  unfolding get_config note_failure
  get_config-Later false = same
  get_config-Later true =
      Later-if (λ (r : Coordinator × Option ℕ). r.0) (has_failed s.events) _ _
        (λ _.
          untouched (record s { is_cancelled = true; tracks_ready = 0 }) refl refl refl refl refl
            refl (λ h. h))
        (λ _. same)

  publish_audio-Later :
      (c : Option Config) (stream : Option ℕ) (producer : Bool)
      → Later s (publish_audio s c stream producer).0
  unfolding publish_audio
  publish_audio-Later none stream producer = same
  publish_audio-Later (some c) none producer = same
  publish_audio-Later (some c) (some stream) producer =
      Later-if (λ (r : Coordinator × Bool). r.0)
        (s.is_cancelled
          || not s.configured
          || given s.audio_connection
          || not (same_config c s.config))
        _ _ (λ _. same)
        (λ h. kept up (record {
          config = refl;
          mapped = λ k. k;
          mapping = λ _. refl;
          certain = λ _. refl;
          connection = λ k. absurd (taken h k);
          claimed = λ k _. absurd (taken h k);
        }))
    where
      taken :
          (s.is_cancelled
              || not s.configured
              || given s.audio_connection
              || not (same_config c s.config))
            ≡ false
          → given s.audio_connection ≡ true
          → ⊥
      taken h k = ground (arith, h, k)

  claim-Later : (producer : Bool) (g : ℕ) → Later s (claim_audio_stream s producer g).0
  unfolding claim_audio_stream
  claim-Later producer g =
      Later-if (λ (r : Coordinator × Option ℕ). r.0)
        (s.is_cancelled
          || is_stale s g
          || not (given s.audio_connection)
          || not (if producer then s.audio_producer else not s.audio_producer)
          || s.audio_claimed)
        _ _ (λ _. same)
        (λ _.
          untouched (record s { audio_claimed = true }) refl refl refl refl refl refl (λ _. refl))

  video_eos-Later : (g frames : ℕ) (pts : ℤ) → Later s (video_eos s g frames pts).0
  unfolding video_eos
  video_eos-Later g frames pts =
      Later-if pair (bad_end frames pts) _ _ (λ _. same)
        (λ _.
          Later-if pair s.is_cancelled _ _ (λ _. same)
            (λ _.
              Later-if pair (is_stale s g) _ _ (λ _. same)
                (λ _.
                  Later-if pair (s.config.video_track == 0) _ _ (λ _. same)
                    (λ _.
                      Later-if pair
                        (s.video_ended
                          && (not (s.video_frames == frames)
                              || anchors_differ s.video_last_pts pts))
                        _ _ (λ _. same)
                        (λ _.
                          untouched
                            (record s {
                              video_ended = true;
                              video_frames = frames;
                              video_last_pts = pts;
                            })
                            refl refl refl refl refl refl (λ h. h))))))

  events_untouched : (e : Option EventChannel) → Later s (record s { events = e })
  events_untouched e = untouched (record s { events = e }) refl refl refl refl refl refl (λ h. h)

  publish_events-Later :
      (c : Option Config) (stream : Option ℕ) (producer : Bool)
      → Later s (publish_events s c stream producer).0
  unfolding publish_events
  publish_events-Later none stream producer = same
  publish_events-Later (some c) none producer = same
  publish_events-Later (some c) (some stream) producer =
      Later-if (λ (r : Coordinator × Bool). r.0)
        (s.is_cancelled || not s.configured || given s.events || not (same_config c s.config)) _ _
        (λ _. same)
        (λ _. events_untouched (some (new_events stream producer c.generation c.idle_timeout_ms)))

  send_on-Later :
      (be : BigEndian) (e : VideoEvent) (done : Bool) (o : Option EventChannel)
      → Later s (send_on be s e done o).0
  unfolding send_on
  send_on-Later be e done none = same
  send_on-Later be e done (some c) = events_untouched (some (send_event be c e done).0)

  send_video_event-Later :
      (be : BigEndian) (g : ℕ) (e : Option VideoEvent) (done : Bool)
      → Later s (send_video_event be s g e done).0
  unfolding send_video_event
  send_video_event-Later be g none done = same
  send_video_event-Later be g (some e) done = send_on-Later be e done (event_channel s g)

  receive_on-Later :
      (t : ℕ) (out : Bool) (o : Option EventChannel) → Later s (receive_on s t out o).0
  unfolding receive_on
  receive_on-Later t out none = same
  receive_on-Later t false (some c) = same
  receive_on-Later t true (some c) = events_untouched (some (receive_event c t).0)

  act-Later : (be : BigEndian) (c : Call) → Later s (act be s c)
  unfolding act cancel receive_video_event
  act-Later be (configures c p q) = configure-Later c p q
  act-Later be (registers track) = register_track-Later track
  act-Later be (readies track g) = track_ready-Later track g
  act-Later be cancels = untouched (cancel s).0 refl refl refl refl refl refl (λ h. h)
  act-Later be (maps g m e) = set_mapping-Later g m e
  act-Later be (reads out) = get_config-Later out
  act-Later be (publishes c stream producer) = publish_audio-Later c stream producer
  act-Later be (claims producer g) = claim-Later producer g
  act-Later be (ends g frames pts) = video_eos-Later g frames pts
  act-Later be (opens c stream producer) = publish_events-Later c stream producer
  act-Later be (sends g e done) = send_video_event-Later be g e done
  act-Later be (receives g t out) = receive_on-Later t out (event_channel s g)

Kept-trans : (s t u : Coordinator) → Kept s t → Kept t u → Kept s u
Kept-trans s t u h k = record {
  config = k.config ∙ h.config;
  mapped = λ m. k.mapped (h.mapped m);
  mapping = λ m. k.mapping (h.mapped m) ∙ h.mapping m;
  certain = λ m. k.certain (h.mapped m) ∙ h.certain m;
  connection = λ c. k.connection (still c) ∙ h.connection c;
  claimed = λ c m. k.claimed (still c) (h.claimed c m);
}
  where
    still : given s.audio_connection ≡ true → given t.audio_connection ≡ true
    still c = ap given (h.connection c) ∙ c

Later-trans : (s t u : Coordinator) → Later s t → Later t u → Later s u
Later-trans s t u (kept up h) (kept up' k) = kept up' (Kept-trans s t u h k)
Later-trans s t u (kept up h) (newer up' k) =
    newer up' (omega (arith, k, ap (λ (c : Config). c.generation) h.config))
Later-trans s t u (newer up h) (kept up' k) =
    newer up' (omega (arith, h, ap (λ (c : Config). c.generation) k.config))
Later-trans s t u (newer up h) (newer up' k) = newer up' (omega (arith, h, k))

pub Later-configured : {s t : Coordinator} → Later s t → t.configured ≡ true
Later-configured (kept up h) = up
Later-configured (newer up h) = up

pub act_all-Later :
    (be : BigEndian) (s : Coordinator) (cs : List Call)
    → s.configured ≡ true
    → Later s (act_all be s cs)
unfolding act_all
act_all-Later be s [] up = same s up
act_all-Later be s (c ∷ cs) up =
    let step = act-Later s up be c in
    Later-trans s (act be s c) (act_all be (act be s c) cs) step
      (act_all-Later be (act be s c) cs (Later-configured step))

pub Later-generation : {s t : Coordinator} → Later s t → s.config.generation ≤ t.config.generation
Later-generation (kept up h) = omega (arith, ap (λ (c : Config). c.generation) h.config)
Later-generation (newer up h) = omega (arith, h)
