-- ===== src/Producer/Submitted.antt =====
-- A submitted slot of src/framelink_linux.cpp under the releases and the waits of flAcquireBuffer.
use framelink.Base.{
  ℕ, zero, suc, ◌+◌, ◌-◌, ◌%◌, ◌≤◌, ◌<◌, ◌≡◌, ◌≢◌, ap, subst, ◌∙◌, Bool, true, false, not, ◌&&◌,
  Option, none, some, List, [], ◌∷◌, ltb, leb, if◌then◌else◌, length, get_or, get_or-set_ne, All,
  arith, Bool-cases, Option-cases, inl, inr,
}
use framelink.Api.{FlResult, timeout, disconnected, u64_max}
use framelink.References.{References, is_busy}
use framelink.Producer.{
  Release, Producer, Buffer, Message, frame_released, other_type, Round, advance, with_advance,
  push_back, apply_release, drain, first_free, take_free, after_drain, acquire_loop, acquire_buffer,
  fence_ready,
}

-- The releases are below v.
abbrev pub AreBelow : ℕ → List Release → Type 0
AreBelow v = All (λ (r : Release). r.value < v)

-- The slot holds a submitted frame whose value v neither is nor will be reached by the releases that
-- were received.
pub record IsSubmitted (p : Producer) (i v : ℕ) : Type 0 where
  pub value : get_or p.submit_values i 0 ≡ v
  pub unconsumed : p.consumed < v
  pub waiting : AreBelow v p.releases
  pub published : v < u64_max

abbrev pub MessageBelow : ℕ → Message → Type 0
MessageBelow v other_type = Unit
MessageBelow v (frame_released r) = r.value < v

abbrev pub RoundBelow : ℕ → Round → Type 0
RoundBelow v r = All (λ m. MessageBelow v m.1) r.received

pub advance-AreBelow :
    (v : ℕ) (ready : ℕ → Bool) (c : ℕ) (rs : List Release)
    → c < v
    → AreBelow v rs
    → ((advance ready c rs).0 < v) × AreBelow v (advance ready c rs).1
unfolding advance
advance-AreBelow v ready c [] h a = (h, tt)
advance-AreBelow v ready c (r ∷ rs) h a = elim (Bool-cases (fence_ready ready r.fd)) [
  | inl e ↦ rw e (
      advance-AreBelow v ready (if ltb c r.value then r.value else c) rs (higher c r.value h a.0)
        a.1)
  | inr e ↦ rw e (h, a)
]
  where
    higher : (c w : ℕ) → c < v → w < v → (if ltb c w then w else c) < v
    higher c w h k = ground arith

pub push_back-AreBelow :
    (v : ℕ) (rs : List Release) (r : Release)
    → AreBelow v rs
    → r.value < v
    → AreBelow v (push_back rs r)
push_back-AreBelow v [] r a h = (h, tt)
push_back-AreBelow v (x ∷ rs) r a h = (a.0, push_back-AreBelow v rs r a.1 h)

with_advance-IsSubmitted :
    (p : Producer) (i v : ℕ) (ready : ℕ → Bool)
    → IsSubmitted p i v
    → IsSubmitted (with_advance ready p) i v
with_advance-IsSubmitted p i v ready s =
    let (below, waiting) = advance-AreBelow v ready p.consumed p.releases s.unconsumed s.waiting in
    record { value = s.value; unconsumed = below; waiting = waiting; published = s.published }

drain-IsSubmitted :
    (p : Producer) (i v : ℕ) (ms : List ((ℕ → Bool) × Message))
    → IsSubmitted p i v
    → All (λ m. MessageBelow v m.1) ms
    → IsSubmitted (drain p ms) i v
unfolding drain
drain-IsSubmitted p i v [] s a = s
drain-IsSubmitted p i v ((ready, other_type) ∷ ms) s a = drain-IsSubmitted p i v ms s a.1
drain-IsSubmitted p i v ((ready, frame_released r) ∷ ms) s a =
    drain-IsSubmitted (apply_release ready p (frame_released r)) i v ms
      (with_advance-IsSubmitted (record p { releases = push_back p.releases r }) i v ready
        (record {
          value = s.value;
          unconsumed = s.unconsumed;
          waiting = push_back-AreBelow v p.releases r s.waiting a.0;
          published = s.published;
        }))
      a.1

-- The slot that the scan finds is free.
pub first_free_lem :
    (refs : References) (c k j : ℕ) (vs : List ℕ)
    → first_free refs c k vs ≡ some j
    → (k ≤ j) × (j - k < length vs) × (get_or vs (j - k) 0 ≤ c) × (is_busy refs j ≡ false)
unfolding first_free
first_free_lem refs c k j [] h = cc
first_free_lem refs c k j (v ∷ vs) h = elim (Bool-cases (leb v c && not (is_busy refs k))) [
  | inl free ↦
      here (subst (λ b. (if b then some k else first_free refs c (suc k) vs) ≡ some j) free h) free
  | inr taken ↦ further (
      first_free_lem refs c (suc k) j vs
        (subst (λ b. (if b then some k else first_free refs c (suc k) vs) ≡ some j) taken h))
]
  where
    here :
        some k ≡ some j
        → (leb v c && not (is_busy refs k)) ≡ true
        → (k ≤ j)
          × (j - k < length (v ∷ vs))
          × (get_or (v ∷ vs) (j - k) 0 ≤ c)
          × (is_busy refs j ≡ false)
    here e free =
        let same : k ≡ j = cc in
        subst
          (λ n.
            (k ≤ n)
            × (n - k < length (v ∷ vs))
            × (get_or (v ∷ vs) (n - k) 0 ≤ c)
            × (is_busy refs n ≡ false))
          same at_k
      where
        at_k :
            (k ≤ k)
            × (k - k < length (v ∷ vs))
            × (get_or (v ∷ vs) (k - k) 0 ≤ c)
            × (is_busy refs k ≡ false)
        at_k =
            let start : 0 ≡ k - k = omega arith in
            (
              omega arith,
              omega arith,
              subst (λ n. get_or (v ∷ vs) n 0 ≤ c) start (ground (arith, free)),
              ground (arith, free),
            )

    further :
        (suc k ≤ j)
          × (j - suc k < length vs)
          × (get_or vs (j - suc k) 0 ≤ c)
          × (is_busy refs j ≡ false)
        → (k ≤ j)
          × (j - k < length (v ∷ vs))
          × (get_or (v ∷ vs) (j - k) 0 ≤ c)
          × (is_busy refs j ≡ false)
    further (le, lt, below, idle) =
        let down : suc (j - suc k) ≡ j - k = omega (arith, le) in
        (
          omega (arith, le),
          omega (arith, le, lt),
          subst (λ n. get_or (v ∷ vs) n 0 ≤ c) down below,
          idle,
        )

abbrev NotGranted : ℕ → Option Buffer → Type 0
NotGranted i none = Unit
NotGranted i (some b) = b.slot ≢ i

-- What an acquisition leaves of the slot, where it ends.
abbrev pub Kept : ℕ → ℕ → Option (Producer × FlResult × Option Buffer) → Type 0
Kept i v none = Unit
Kept i v (some x) = IsSubmitted x.0 i v × NotGranted i x.2

take_free-Kept : (p : Producer) (i v : ℕ) → IsSubmitted p i v → Kept i v (take_free p)
unfolding take_free
take_free-Kept p i v s =
    elim (Option-cases (first_free p.references p.consumed 0 p.submit_values)) [
      | inl nothing ↦ rw (nothing, Kept) tt
      | inr (j, found) ↦
          let (_, _, free, _) = first_free_lem p.references p.consumed 0 j p.submit_values found in
          let free_value : get_or p.submit_values j 0 ≤ p.consumed =
            subst (λ n. get_or p.submit_values n 0 ≤ p.consumed) (minus_zero j) free in
          let other : j ≢ i = λ e. taken j e free_value in
          rw (found, Kept)
            (
              record {
                value = get_or-set_ne p.submit_values j i u64_max 0 other ∙ s.value;
                unconsumed = s.unconsumed;
                waiting = s.waiting;
                published = s.published;
              },
              other,
            )
    ]
  where
    minus_zero : (j : ℕ) → j - 0 ≡ j
    minus_zero j = omega arith

    taken : (j : ℕ) → j ≡ i → get_or p.submit_values j 0 ≤ p.consumed → ⊥
    taken j e le = omega (arith, le, ap (λ n. get_or p.submit_values n 0) e, s.value, s.unconsumed)

Kept-if :
    (i v : ℕ) (b : Bool) (x y : Option (Producer × FlResult × Option Buffer))
    → Kept i v x
    → Kept i v y
    → Kept i v (if b then x else y)
Kept-if i v true x y h k = h
Kept-if i v false x y h k = k

Kept-or :
    (i v : ℕ) (x y : Option (Producer × FlResult × Option Buffer))
    → Kept i v x
    → Kept i v y
    → Kept i v (elim x [ some taken ↦ some taken | none ↦ y ])
Kept-or i v none y h k = k
Kept-or i v (some x) y h k = h

acquire_loop-Kept :
    (fuel waited limit : ℕ) (rounds : ℕ → Round) (p : Producer) (i v : ℕ)
    → IsSubmitted p i v
    → ((w : ℕ) → RoundBelow v (rounds w))
    → Kept i v (acquire_loop fuel waited limit rounds p)
unfolding acquire_loop
acquire_loop-Kept zero waited limit rounds p i v s below = tt
acquire_loop-Kept (suc n) waited limit rounds p i v s below =
    Kept-if i v (not (rounds waited).connected)
      (some (after_drain p (rounds waited), disconnected, none)) _ (drained, tt)
      (Kept-or i v (take_free advanced) _ (take_free-Kept advanced i v ready) (
        Kept-if i v (leb limit waited) (some (advanced, timeout, none)) _ (ready, tt)
          (acquire_loop-Kept n ((waited + 2) % 4294967296) limit rounds advanced i v ready below)))
  where
    advanced : Producer
    advanced = with_advance (rounds waited).ready (after_drain p (rounds waited))

    drained : IsSubmitted (after_drain p (rounds waited)) i v
    drained =
        let d = drain-IsSubmitted p i v (rounds waited).received s (below waited) in
        record {
          value = d.value;
          unconsumed = d.unconsumed;
          waiting = d.waiting;
          published = d.published;
        }

    ready : IsSubmitted advanced i v
    ready =
        with_advance-IsSubmitted (after_drain p (rounds waited)) i v (rounds waited).ready drained

pub acquire_buffer-Kept :
    (fuel limit : ℕ) (rounds : ℕ → Round) (p : Producer) (i v : ℕ)
    → IsSubmitted p i v
    → ((w : ℕ) → RoundBelow v (rounds w))
    → Kept i v (acquire_buffer fuel limit rounds p)
unfolding acquire_buffer
acquire_buffer-Kept fuel limit rounds p i v s below =
    Kept-if i v (not p.connected) (some (p, disconnected, none))
      (acquire_loop fuel 0 limit rounds p) (s, tt)
      (acquire_loop-Kept fuel 0 limit rounds p i v s below)
