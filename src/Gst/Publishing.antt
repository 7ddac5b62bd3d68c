-- ===== src/Gst/Publishing.antt =====
-- The streams that src/gst/framelink_session_context.cpp takes for a configuration: which configuration
-- a stream may be published under.
use framelink.Base.{
  ℕ, ◌≤◌, ◌<◌, ◌≡◌, refl, sym, ap, subst, ◌∙◌, Bool, true, false, Option, none, some, List,
  Bool-cases, inl, inr, arith,
}
use framelink.Base.Int.{ℤ, pos, negsuc}
use framelink.Session.{SessionResult, Config, validate}
use framelink.Session.Clock.{i64_max}
use framelink.Session.Message.{session_encode, session_decode, session_wire_size}
use framelink.Session.Message.RoundTrip.{HasFields, session_decode-encode, session_encode_parts}
use framelink.Session.Replacement.{same_id-eq}
use framelink.Gst.Events.{BigEndian}
use framelink.Gst.{Coordinator}
use framelink.Gst.Media.{same_message, same_config, publish_audio, publish_events}
use framelink.Gst.Calls.{Call, act_all}
use framelink.Gst.Later.{Later-generation, act_all-Later}

-- An int64_t.
abbrev pub IsI64 : ℤ → Type 0
IsI64 (pos n) = n ≤ i64_max
IsI64 (negsuc n) = n ≤ i64_max

-- The fields of a configuration have the sizes of their C types.
pub record HasTypes (c : Config) : Type 0 where
  pub fields : HasFields c
  pub epoch : IsI64 c.epoch_ns

-- The epoch of a valid configuration is not negative.
valid_epoch :
    (c : Config) (z : ℤ)
    → c.epoch_ns ≡ z
    → validate (some c) ≡ SessionResult.ok
    → (n : ℕ) × (c.epoch_ns ≡ pos n)
unfolding validate
valid_epoch c (pos n) e valid = (n, e)
valid_epoch c (negsuc n) e valid = absurd (ground (arith, e, valid))

decoded :
    (c : Config) (bs : List ℕ)
    → HasTypes c
    → session_encode (some c) (some session_wire_size) ≡ (SessionResult.ok, some bs)
    → session_decode (some bs) true ≡ (SessionResult.ok, some c)
decoded c bs t h =
    let (n, epoch) = valid_epoch c c.epoch_ns refl (session_encode_parts c bs h).0 in
    session_decode-encode c n bs t.fields epoch (subst IsI64 epoch t.epoch) h

-- Configurations that the comparison takes to be the same are the same.
pub same_config-eq : (c d : Config) → HasTypes c → HasTypes d → same_config c d ≡ true → c ≡ d
same_config-eq c d tc td h =
    compared (session_encode (some c) (some session_wire_size))
      (session_encode (some d) (some session_wire_size)) refl refl h
  where
    whole : Config → SessionResult × Option Config → Config
    whole z (r, some x) = x
    whole z (r, none) = z

    compared :
        (x y : SessionResult × Option (List ℕ))
        → session_encode (some c) (some session_wire_size) ≡ x
        → session_encode (some d) (some session_wire_size) ≡ y
        → same_message x y ≡ true
        → c ≡ d
    compared (SessionResult.ok, some a) (SessionResult.ok, some b) ec ed same = ap (whole c) (
        sym (decoded c a tc ec)
        ∙ ap (λ m. session_decode (some m) true) (same_id-eq a b same)
        ∙ decoded d b td ed)
    compared _ _ ec ed same = cc same

refused :
    (c : Config) (t : Coordinator) (stream : Option ℕ) (producer : Bool)
    → HasTypes c
    → HasTypes t.config
    → c.generation < t.config.generation
    → (publish_audio t (some c) stream producer ≡ (t, false))
      × (publish_events t (some c) stream producer ≡ (t, false))
unfolding publish_audio publish_events
refused c t none producer tc td h = (refl, refl)
refused c t (some k) producer tc td h = elim (Bool-cases (same_config c t.config)) [
  | inl same ↦
      absurd
        (omega (arith, ap (λ (x : Config). x.generation) (same_config-eq c t.config tc td same), h))
  | inr other ↦ (ground (arith, other), ground (arith, other))
]

-- A stream for a configuration of a generation that a configured session has left behind is
-- refused, for audio and for events, and behind any calls, where the fields of that configuration
-- and of the session's have the sizes of their C types.
pub publish-act_all :
    (be : BigEndian) (s : Coordinator) (cs : List Call) (c : Config) (stream : Option ℕ)
    (producer : Bool)
    → s.configured ≡ true
    → HasTypes c
    → HasTypes (act_all be s cs).config
    → c.generation < s.config.generation
    → (publish_audio (act_all be s cs) (some c) stream producer ≡ (act_all be s cs, false))
      × (publish_events (act_all be s cs) (some c) stream producer ≡ (act_all be s cs, false))
publish-act_all be s cs c stream producer up tc td old =
    refused c (act_all be s cs) stream producer tc td
      (omega (arith, old, Later-generation (act_all-Later be s cs up)))
