-- ===== src/Session/Clock.antt =====
-- Media time of src/framelink_session.cpp: flSessionMapPts and flSessionSampleOffset. Sums of
-- `int64_t` are checked before they are made; `uint64_t` products and sums keep their wrap-around.
use native.Mathlib.Nat.{mul-add-div, div-add-mod, mod-lt}
use native.Mathlib.Decide.{dec_le}
use framelink.Base.{
  le→leb, gt→leb, le→ltb, ℕ, ◌+◌, ◌-◌, ◌*◌, ◌/◌, ◌%◌, ◌≤◌, ◌<◌, ◌≡◌, refl, ap, ◌∙◌, Bool, true,
  false, not, ◌||◌, ◌&&◌, Option, none, some, List, ltb, leb, truthy, arith, if◌then◌else◌,
}
use framelink.Base.Int.{ℤ, pos, negsuc, ◌+ℤ◌, ◌-ℤ◌, ltb_ℤ, sub_ℕ}
use framelink.Session.{
  SessionResult, ok, invalid, incompatible, time_range, Config, validate, same_id, id_valid,
  is_negative,
}

-- INT64_MAX
abbrev pub i64_max : ℕ
i64_max = 9223372036854775807

-- INT64_MIN
abbrev pub i64_min : ℤ
i64_min = negsuc 9223372036854775807

abbrev pub u64 : ℕ → ℕ
u64 n = n % 18446744073709551616

-- flClockMapping
pub record ClockMapping : Type 0 where
  pub source_clock : List ℕ
  pub target_clock : List ℕ
  pub source_anchor_ns : ℤ
  pub target_anchor_ns : ℤ
  pub uncertainty_ns : ℕ

-- add(): none where the sum would overflow.
unfoldable pub add : ℤ → ℤ → Option ℤ
unfolding ◌+ℤ◌ ◌-ℤ◌
add a b =
    if (ltb_ℤ (pos 0) b && ltb_ℤ (pos i64_max -ℤ b) a) || (is_negative b && ltb_ℤ a (i64_min -ℤ b))
    then none
    else some (a +ℤ b)

abbrev pub bad_mapping : Config → ClockMapping → ℤ → Bool
bad_mapping c m pts =
    is_negative pts
    || not (same_id c.clock_id m.source_clock)
    || not (id_valid m.target_clock)
    || is_negative m.source_anchor_ns
    || is_negative m.target_anchor_ns

abbrev pub anchors_differ : ℤ → ℤ → Bool
anchors_differ a b = ltb_ℤ a b || ltb_ℤ b a

-- One clock maps to itself by the identity alone.
abbrev pub bad_identity : ClockMapping → Bool
bad_identity m =
    same_id m.source_clock m.target_clock
    && (anchors_differ m.source_anchor_ns m.target_anchor_ns || truthy m.uncertainty_ns)

abbrev pub in_order : Option ℤ → SessionResult × Option ℤ
in_order none = (time_range, none)
in_order (some r) = if is_negative r then (time_range, none) else (ok, some r)

infixl 5 ◌>>=◌
abbrev ◌>>=◌ : Option ℤ → (ℤ → Option ℤ) → Option ℤ
none >>= f = none
some a >>= f = f a

-- The three checked sums.
unfoldable pub mapped : ℤ → ℤ → ℤ → ℤ → Option ℤ
unfolding add
mapped epoch pts source target = do
  absolute ← add epoch pts
  result ← add absolute (pos 0 -ℤ source)
  add result target

abbrev pub or_fail_with : SessionResult → SessionResult × Option ℤ → SessionResult × Option ℤ
or_fail_with ok next = next
or_fail_with r next = (r, none)

-- flSessionMapPts; `to` says whether the out pointer is given.
unfoldable pub map_pts :
    Option Config → Option ClockMapping → ℕ → ℤ → Bool → SessionResult × Option ℤ
map_pts none m max_error pts to = or_fail_with (validate none) (invalid, none)
map_pts (some c) none max_error pts to = or_fail_with (validate (some c)) (invalid, none)
map_pts (some c) (some m) max_error pts to = or_fail_with (validate (some c)) (
    if not to || bad_mapping c m pts
    then (invalid, none)
    else if ltb max_error m.uncertainty_ns
    then (incompatible, none)
    else if bad_identity m
    then (invalid, none)
    else in_order (mapped c.epoch_ns pts m.source_anchor_ns m.target_anchor_ns))

-- flSessionSampleOffset
unfoldable pub sample_offset : ℕ → ℕ → Bool → SessionResult × Option ℕ
sample_offset index rate to =
    let seconds = index / rate in
    let part = u64 (index % rate * 1000000000) / rate in
    let result = u64 (u64 (seconds * 1000000000) + part) in
    if not to || ltb rate 8000 || ltb 192000 rate
    then (invalid, none)
    else if ltb (i64_max / 1000000000) seconds
    then (time_range, none)
    else if ltb i64_max result
    then (time_range, none)
    else (ok, some result)

add_pos :
    (a b : ℕ)
    → a ≤ i64_max
    → b ≤ i64_max
    → add (pos a) (pos b) ≡ (if leb (a + b) i64_max then some (pos (a + b)) else none)
unfolding add
add_pos a b ha hb = ground arith

add_neg : (a s : ℕ) → a ≤ i64_max → s ≤ i64_max → add (pos a) (pos 0 -ℤ pos s) ≡ some (sub_ℕ a s)
unfolding add
add_neg a s ha hs = ground arith

add_sub :
    (a s t : ℕ)
    → a ≤ i64_max
    → s ≤ i64_max
    → t ≤ i64_max
    → add (sub_ℕ a s) (pos t) ≡ (if leb (a + t) (i64_max + s) then some (sub_ℕ (a + t) s) else none)
unfolding add
add_sub a s t ha hs ht = ground arith

in_order_sub :
    (x s : ℕ)
    → in_order (some (sub_ℕ x s))
      ≡ (if leb s x then (ok, some (pos (x - s))) else (time_range, none))
in_order_sub x s = ground arith

mapped-some :
    (e p s t : ℕ)
    → e ≤ i64_max
    → p ≤ i64_max
    → e + p ≤ i64_max
    → s ≤ i64_max
    → t ≤ i64_max
    → mapped (pos e) (pos p) (pos s) (pos t)
      ≡ (if leb (e + p + t) (i64_max + s) then some (sub_ℕ (e + p + t) s) else none)
unfolding mapped
mapped-some e p s t he hp hep hs ht =
    rw (add_pos e p he hp, le→leb (e + p) i64_max hep)
      (rw (add_neg (e + p) s hep hs) (add_sub (e + p) s t hep hs ht))

mapped-none :
    (e p s t : ℕ)
    → e ≤ i64_max
    → p ≤ i64_max
    → i64_max < e + p
    → mapped (pos e) (pos p) (pos s) (pos t) ≡ none
unfolding mapped
mapped-none e p s t he hp over = rw (add_pos e p he hp, gt→leb (e + p) i64_max over) refl

-- Whether the mapped time and its first sum are in the range of `int64_t`.
abbrev pub in_range : ℕ → ℕ → ℕ → ℕ → Bool
in_range e p s t = leb (e + p) i64_max && leb s (e + p + t) && leb (e + p + t) (i64_max + s)

mapped_lem :
    (e p s t : ℕ)
    → e ≤ i64_max
    → p ≤ i64_max
    → s ≤ i64_max
    → t ≤ i64_max
    → in_order (mapped (pos e) (pos p) (pos s) (pos t))
      ≡ (if in_range e p s t then (ok, some (pos (e + p + t - s))) else (time_range, none))
mapped_lem e p s t he hp hs ht = elim (dec_le (e + p) i64_max) [
  | yes small ↦
      rw (mapped-some e p s t he hp small hs ht) (ground (arith, in_order_sub (e + p + t) s))
  | no over ↦ rw (mapped-none e p s t he hp (omega (arith, over))) (ground arith)
]

-- A valid request with times in the range of `int64_t` maps a PTS to epoch + PTS - source anchor +
-- target anchor, and answers with a range error exactly when epoch + PTS or the mapped time leaves
-- the range of a nonnegative `int64_t`.
pub map_pts_lem :
    (c : Config) (m : ClockMapping) (max_error e p s t : ℕ)
    → validate (some c) ≡ ok
    → bad_mapping c m (pos p) ≡ false
    → m.uncertainty_ns ≤ max_error
    → bad_identity m ≡ false
    → (c.epoch_ns ≡ pos e) × (e ≤ i64_max)
    → p ≤ i64_max
    → (m.source_anchor_ns ≡ pos s) × (s ≤ i64_max)
    → (m.target_anchor_ns ≡ pos t) × (t ≤ i64_max)
    → map_pts (some c) (some m) max_error (pos p) true
      ≡ (if in_range e p s t then (ok, some (pos (e + p + t - s))) else (time_range, none))
unfolding map_pts
map_pts_lem c m max_error e p s t valid mapping certain identity (epoch, he) hp (source, hs)
      (target, ht) =
    rw (valid, mapping, le→ltb max_error m.uncertainty_ns certain, identity)
      (ap₃ (λ a b d. in_order (mapped a (pos p) b d)) epoch source target
        ∙ mapped_lem e p s t he hp hs ht)
  where
    ap₃ :
        {A B C D : Type 0} (f : A → B → C → D) {a a' : A} {b b' : B} {c c' : C}
        → a ≡ a'
        → b ≡ b'
        → c ≡ c'
        → f a b c ≡ f a' b' c'
    ap₃ f x y z i = f (x i) (y i) (z i)

exact_split :
    (index rate : ℕ)
    → 0 < rate
    → index * 1000000000 / rate ≡ index / rate * 1000000000 + index % rate * 1000000000 / rate
exact_split index rate pos_rate =
    ap (λ (n : ℕ). n / rate) (whole (div-add-mod index rate))
    ∙ mul-add-div pos_rate (index / rate * 1000000000) (index % rate * 1000000000)
  where
    whole :
        rate * (index / rate) + index % rate ≡ index
        → index * 1000000000 ≡ rate * (index / rate * 1000000000) + index % rate * 1000000000
    whole h = omega (arith, h)

-- The timestamp of a sample is floor(index * 10^9 / rate), and the range error is answered exactly
-- when that exceeds INT64_MAX. No `uint64_t` product or sum wraps on the way.
pub sample_offset_lem :
    (index rate : ℕ)
    → 8000 ≤ rate
    → rate ≤ 192000
    → sample_offset index rate true ≡ (
        if leb (index * 1000000000 / rate) i64_max
        then (ok, some (index * 1000000000 / rate))
        else (time_range, none))
unfolding sample_offset
sample_offset_lem index rate low high =
    let small : index % rate < rate = mod-lt index (omega arith) in
    let part_le : index % rate * 1000000000 / rate < 1000000000 =
      div_small (index % rate) rate small (omega arith) in
    ground (arith, exact_split index rate (omega arith), small, part_le)
  where
    div_small : (s r : ℕ) → s < r → 0 < r → s * 1000000000 / r < 1000000000
    div_small s r lt pos_r = grind arith
