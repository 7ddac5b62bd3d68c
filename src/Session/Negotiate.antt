-- ===== src/Session/Negotiate.antt =====
-- flSessionNegotiate of src/framelink_session.cpp: the exact intersection of two offers, in the
-- producer's order, with 48 kHz audio first.
use framelink.Base.{
  ◌≡◌, ◌⊎◌, refl, sym, ap, ◌∙◌, subst, Bool, true, false, not, ◌||◌, ◌&&◌, Option, none, some, List,
  [], ◌∷◌, ◌==◌, ==_iff, truthy, arith, if◌then◌else◌, all, any, any_self, any_intro, All, All-map,
  Bool-cases, inl, inr, length,
}
use framelink.Session.{
  SessionResult, ok, invalid, version_error, incompatible, VideoFormat, AudioFormat, Capabilities,
  Config, no_video, no_audio, video_valid, audio_valid, video_eq, audio_eq, caps, same_test,
  validate, accept_offer, validate_selection,
}

-- The first format of fs that cs has too, unless one is chosen already.
unfoldable pub pick_video : VideoFormat → List VideoFormat → List VideoFormat → VideoFormat
pick_video chosen [] cs = chosen
pick_video chosen (f ∷ fs) cs =
    let rest = pick_video (if any (video_eq f) cs then f else chosen) fs cs in
    if truthy chosen.width then chosen else rest

-- One round of the audio search; the preferred round takes only 48 kHz.
unfoldable pub pick_audio : Bool → AudioFormat → List AudioFormat → List AudioFormat → AudioFormat
pick_audio preferred chosen [] cs = chosen
pick_audio preferred chosen (f ∷ fs) cs =
    let skip = preferred && not (f.rate == 48000) in
    let rest = pick_audio preferred (if not skip && any (audio_eq f) cs then f else chosen) fs cs in
    if truthy chosen.rate then chosen else rest

abbrev pub picked_audio : List AudioFormat → List AudioFormat → AudioFormat
picked_audio fs cs = pick_audio false (pick_audio true no_audio fs cs) fs cs

abbrev pub same_tracks : Capabilities → Capabilities → Bool
same_tracks p c =
    same_test (truthy (length p.video)) (truthy (length c.video))
    && same_test (truthy (length p.audio)) (truthy (length c.audio))

abbrev pub choose : Capabilities → Capabilities → SessionResult × Option (VideoFormat × AudioFormat)
choose p c =
    let v = pick_video no_video p.video c.video in
    let a = picked_audio p.audio c.audio in
    if (truthy (length p.video) && v.width == 0) || (truthy (length p.audio) && a.rate == 0)
    then (incompatible, none)
    else (ok, some (v, a))

abbrev pub or_none :
    SessionResult
    → SessionResult × Option (VideoFormat × AudioFormat)
    → SessionResult × Option (VideoFormat × AudioFormat)
or_none ok next = next
or_none r next = (r, none)

-- flSessionNegotiate; `to` says whether both out pointers are given.
unfoldable pub negotiate :
    Option Capabilities
    → Option Capabilities
    → Bool
    → SessionResult × Option (VideoFormat × AudioFormat)
negotiate p c false = (invalid, none)
negotiate (some p) (some c) true = or_none (caps (some p)) (
    or_none (caps (some c)) (
      if not (p.version == c.version)
      then (version_error, none)
      else if not (same_tracks p c)
      then (incompatible, none)
      else choose p c))
negotiate p c true = or_none (caps p) (or_none (caps c) (invalid, none))

video_eq_refl : (v : VideoFormat) → video_eq v v ≡ true
unfolding video_eq
video_eq_refl v = ground arith

audio_eq_refl : (a : AudioFormat) → audio_eq a a ≡ true
unfolding audio_eq
audio_eq_refl a = ground arith

-- Whether the offers have a format in common.
abbrev pub common_video : List VideoFormat → List VideoFormat → Bool
common_video fs cs = any (λ f. any (video_eq f) cs) fs

abbrev pub common_audio : List AudioFormat → List AudioFormat → Bool
common_audio fs cs = any (λ f. any (audio_eq f) cs) fs

pick_video-chosen :
    (w : VideoFormat) (fs cs : List VideoFormat) → truthy w.width ≡ true → pick_video w fs cs ≡ w
unfolding pick_video
pick_video-chosen w [] cs h = refl
pick_video-chosen w (f ∷ fs) cs h = rw h refl

video_width : (f : VideoFormat) → video_valid f ≡ true → truthy f.width ≡ true
unfolding video_valid
video_width f h = ground arith

audio_rate : (f : AudioFormat) → audio_valid f ≡ true → truthy f.rate ≡ true
unfolding audio_valid
audio_rate f h = ground arith

-- The search ends with a format exactly when there is a common one.
pick_video-found :
    (fs cs : List VideoFormat)
    → all video_valid fs ≡ true
    → truthy (pick_video no_video fs cs).width ≡ common_video fs cs
unfolding pick_video
pick_video-found [] cs h = refl
pick_video-found (f ∷ fs) cs h =
    ground (arith, video_width f, pick_video-chosen f fs cs, pick_video-found fs cs)

-- What the searches end with is the start, or an entry that passed the test.
pick_video-ind :
    (P : VideoFormat → Type 0) (w : VideoFormat) (fs cs : List VideoFormat)
    → P w
    → All (λ f. any (video_eq f) cs ≡ true → P f) fs
    → P (pick_video w fs cs)
unfolding pick_video
pick_video-ind P w [] cs base step = base
pick_video-ind P w (f ∷ fs) cs base step = elim (Bool-cases (truthy w.width)) [
  | inl done ↦ rw done base
  | inr open_still ↦ rw open_still (
      pick_video-ind P (if any (video_eq f) cs then f else w) fs cs
        (next (any (video_eq f) cs) refl) step.1)
]
  where
    next : (b : Bool) → any (video_eq f) cs ≡ b → P (if b then f else w)
    next true e = step.0 e
    next false e = base

pick_audio-ind :
    (P : AudioFormat → Type 0) (pr : Bool) (w : AudioFormat) (fs cs : List AudioFormat)
    → P w
    → All (λ f. (pr && not (f.rate == 48000)) ≡ false → any (audio_eq f) cs ≡ true → P f) fs
    → P (pick_audio pr w fs cs)
unfolding pick_audio
pick_audio-ind P pr w [] cs base step = base
pick_audio-ind P pr w (f ∷ fs) cs base step = elim (Bool-cases (truthy w.rate)) [
  | inl done ↦ rw done base
  | inr open_still ↦ rw open_still (
      pick_audio-ind P pr
        (if not (pr && not (f.rate == 48000)) && any (audio_eq f) cs then f else w) fs cs
        (next (pr && not (f.rate == 48000)) (any (audio_eq f) cs) refl refl) step.1)
]
  where
    next :
        (b d : Bool)
        → (pr && not (f.rate == 48000)) ≡ b
        → any (audio_eq f) cs ≡ d
        → P (if not b && d then f else w)
    next true d e q = base
    next false false e q = base
    next false true e q = step.0 e q

abbrev VideoOffered : List VideoFormat → List VideoFormat → VideoFormat → Type 0
VideoOffered fs cs x =
    (x ≡ no_video) ⊎ ((any (video_eq x) fs ≡ true) × (any (video_eq x) cs ≡ true))

abbrev AudioOffered : List AudioFormat → List AudioFormat → AudioFormat → Type 0
AudioOffered fs cs x =
    (x ≡ no_audio) ⊎ ((any (audio_eq x) fs ≡ true) × (any (audio_eq x) cs ≡ true))

pick_video-offered : (fs cs : List VideoFormat) → VideoOffered fs cs (pick_video no_video fs cs)
pick_video-offered fs cs = pick_video-ind (VideoOffered fs cs) no_video fs cs (inl refl) (
    All-map (λ f. any (video_eq f) fs ≡ true)
      (λ f. any (video_eq f) cs ≡ true → VideoOffered fs cs f) fs (λ f h k. inr (h, k))
      (any_self video_eq fs video_eq_refl))

picked_audio-offered : (fs cs : List AudioFormat) → AudioOffered fs cs (picked_audio fs cs)
picked_audio-offered fs cs =
    pick_audio-ind (AudioOffered fs cs) false _ fs cs
      (pick_audio-ind (AudioOffered fs cs) true no_audio fs cs (inl refl) (
        All-map (λ f. any (audio_eq f) fs ≡ true)
          (λ f.
            (true && not (f.rate == 48000)) ≡ false
            → any (audio_eq f) cs ≡ true
            → AudioOffered fs cs f)
          fs (λ f h _ k. inr (h, k)) (any_self audio_eq fs audio_eq_refl)))
      (All-map (λ f. any (audio_eq f) fs ≡ true)
        (λ f. false ≡ false → any (audio_eq f) cs ≡ true → AudioOffered fs cs f) fs
        (λ f h _ k. inr (h, k)) (any_self audio_eq fs audio_eq_refl))

pick_audio-chosen :
    (pr : Bool) (w : AudioFormat) (fs cs : List AudioFormat)
    → truthy w.rate ≡ true
    → pick_audio pr w fs cs ≡ w
unfolding pick_audio
pick_audio-chosen pr w [] cs h = refl
pick_audio-chosen pr w (f ∷ fs) cs h = rw h refl

pick_audio-found :
    (w : AudioFormat) (fs cs : List AudioFormat)
    → all audio_valid fs ≡ true
    → truthy (pick_audio false w fs cs).rate ≡ (truthy w.rate || common_audio fs cs)
unfolding pick_audio
pick_audio-found w [] cs h = ground arith
pick_audio-found w (f ∷ fs) cs h =
    ground (arith, audio_rate f, pick_audio-chosen false f fs cs, pick_audio-found w fs cs)

-- Whether the offers have a 48 kHz format in common.
abbrev pub common_48k : List AudioFormat → List AudioFormat → Bool
common_48k fs cs = any (λ f. f.rate == 48000 && any (audio_eq f) cs) fs

pick_audio-preferred :
    (fs cs : List AudioFormat)
    → common_48k fs cs ≡ true
    → truthy (pick_audio true no_audio fs cs).rate ≡ true
unfolding pick_audio
pick_audio-preferred [] cs h = absurd (no h)
  where
    no : false ≡ true → ⊥
    no h = cc h
pick_audio-preferred (f ∷ fs) cs h =
    ground (arith, pick_audio-preferred fs cs, pick_audio-chosen true f fs cs)

pick_audio-kind :
    (fs cs : List AudioFormat)
    → (pick_audio true no_audio fs cs ≡ no_audio) ⊎ ((pick_audio true no_audio fs cs).rate ≡ 48000)
pick_audio-kind fs cs =
    pick_audio-ind (λ x. (x ≡ no_audio) ⊎ (x.rate ≡ 48000)) true no_audio fs cs (inl refl)
      (All-map (λ f. any (audio_eq f) fs ≡ true)
        (λ f.
          (true && not (f.rate == 48000)) ≡ false
          → any (audio_eq f) cs ≡ true
          → (f ≡ no_audio) ⊎ (f.rate ≡ 48000))
        fs (λ f h k _. inr (ground arith)) (any_self audio_eq fs audio_eq_refl))

picked_audio_48k :
    (fs cs : List AudioFormat) → common_48k fs cs ≡ true → (picked_audio fs cs).rate ≡ 48000
picked_audio_48k fs cs h =
    let found = pick_audio-preferred fs cs h in
    ap (λ (x : AudioFormat). x.rate)
      (pick_audio-chosen false (pick_audio true no_audio fs cs) fs cs found)
    ∙ elim (pick_audio-kind fs cs) [
      | inl e ↦ absurd (impossible (sym found ∙ ap (λ (x : AudioFormat). truthy x.rate) e))
      | inr e ↦ e
    ]
  where
    impossible : true ≡ false → ⊥
    impossible h = cc h

picked_audio-found :
    (fs cs : List AudioFormat)
    → all audio_valid fs ≡ true
    → truthy (picked_audio fs cs).rate ≡ common_audio fs cs
picked_audio-found fs cs h =
    pick_audio-found (pick_audio true no_audio fs cs) fs cs h ∙ elim first_round [
      | inl e ↦ ap (λ (x : AudioFormat). truthy x.rate || common_audio fs cs) e
      | inr e ↦ rw e (or_true (truthy (pick_audio true no_audio fs cs).rate))
    ]
  where
    or_true : (b : Bool) → (b || true) ≡ true
    or_true b = ground arith

    first_round : (pick_audio true no_audio fs cs ≡ no_audio) ⊎ (common_audio fs cs ≡ true)
    first_round =
        pick_audio-ind (λ x. (x ≡ no_audio) ⊎ (common_audio fs cs ≡ true)) true no_audio fs cs
          (inl refl)
          (All-map (λ f. any (audio_eq f) cs ≡ true → common_audio fs cs ≡ true)
            (λ f.
              (true && not (f.rate == 48000)) ≡ false
              → any (audio_eq f) cs ≡ true
              → (f ≡ no_audio) ⊎ (common_audio fs cs ≡ true))
            fs (λ f k _ q. inr (k q)) (any_intro (λ f. any (audio_eq f) cs) fs))

caps_parts :
    (c : Capabilities)
    → caps (some c) ≡ ok
    → (all video_valid c.video ≡ true) × (all audio_valid c.audio ≡ true)
unfolding caps
caps_parts c h = ground arith

negotiate-choose :
    (p c : Capabilities)
    → caps (some p) ≡ ok
    → caps (some c) ≡ ok
    → p.version ≡ c.version
    → same_tracks p c ≡ true
    → negotiate (some p) (some c) true ≡ choose p c
unfolding negotiate
negotiate-choose p c vp vc e t = rw (vp, vc, (==_iff p.version c.version).1 e, t) refl

-- Of two valid offers of one version with the same tracks, the negotiation succeeds exactly when each
-- track that is offered has a common format. Otherwise it is incompatible.
pub negotiate_common :
    (p c : Capabilities)
    → caps (some p) ≡ ok
    → caps (some c) ≡ ok
    → p.version ≡ c.version
    → same_tracks p c ≡ true
    → (negotiate (some p) (some c) true).0 ≡ (
        if (truthy (length p.video) && not (common_video p.video c.video))
          || (truthy (length p.audio) && not (common_audio p.audio c.audio))
        then incompatible
        else ok)
negotiate_common p c vp vc e t =
    let (vv, va) = caps_parts p vp in
    rw (negotiate-choose p c vp vc e t)
      (ground (arith, pick_video-found p.video c.video vv, picked_audio-found p.audio c.audio va))

negotiated :
    (p c : Capabilities) (v : VideoFormat) (a : AudioFormat)
    → negotiate (some p) (some c) true ≡ (ok, some (v, a))
    → (caps (some p) ≡ ok)
      × (caps (some c) ≡ ok)
      × (p.version ≡ c.version)
      × (same_tracks p c ≡ true)
      × (choose p c ≡ (ok, some (v, a)))
unfolding negotiate
negotiated p c v a h = ground arith

chosen_parts :
    (p c : Capabilities) (v : VideoFormat) (a : AudioFormat)
    → choose p c ≡ (ok, some (v, a))
    → (pick_video no_video p.video c.video ≡ v)
      × (picked_audio p.audio c.audio ≡ a)
      × (truthy (length p.video) ≡ true → truthy v.width ≡ true)
      × (truthy (length p.audio) ≡ true → truthy a.rate ≡ true)
chosen_parts p c v a h = ground arith

-- Where the offers have a 48 kHz format in common, the negotiated audio is 48 kHz.
pub negotiate_48k :
    (p c : Capabilities) (v : VideoFormat) (a : AudioFormat)
    → negotiate (some p) (some c) true ≡ (ok, some (v, a))
    → common_48k p.audio c.audio ≡ true
    → a.rate ≡ 48000
negotiate_48k p c v a h k =
    let (vp, vc, e, t, made) = negotiated p c v a h in
    let (_, picked, _, _) = chosen_parts p c v a made in
    ap (λ (x : AudioFormat). x.rate) (sym picked) ∙ picked_audio_48k p.audio c.audio k

-- Where a negotiation succeeds, a configuration passes the check of a selection against both offers
-- if it is valid, has the version of the first offer, the negotiated formats, and a video and an
-- audio track just where the first offer has formats for one.
pub validate_selection-negotiate :
    (p q : Capabilities) (v : VideoFormat) (a : AudioFormat) (c : Config)
    → negotiate (some p) (some q) true ≡ (ok, some (v, a))
    → validate (some c) ≡ ok
    → c.version ≡ p.version
    → c.video ≡ v
    → c.audio ≡ a
    → truthy c.video_track ≡ truthy (length p.video)
    → truthy c.audio_track ≡ truthy (length p.audio)
    → validate_selection (some c) (some p) (some q) ≡ ok
unfolding validate_selection accept_offer
validate_selection-negotiate p q v a c h vc ver ev ea tv ta =
    let (vp, vq, e, t, made) = negotiated p q v a h in
    let (pv, pa, wide, loud) = chosen_parts p q v a made in
    let video =
      subst (VideoOffered p.video q.video) (pv ∙ sym ev) (pick_video-offered p.video q.video) in
    let audio =
      subst (AudioOffered p.audio q.audio) (pa ∙ sym ea) (picked_audio-offered p.audio q.audio) in
    ground (arith, ap (λ (x : VideoFormat). x.width) ev, ap (λ (x : AudioFormat). x.rate) ea)
