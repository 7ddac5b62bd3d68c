-- ===== src/Producer/Rounds.antt =====
-- The wait in flAcquireBuffer of src/framelink_linux.cpp: what a round hands out, that a release frees
-- the slots up to its value, and that the wait ends.
use framelink.Base.{
  ℕ, zero, suc, ◌+◌, ◌-◌, ◌*◌, ◌/◌, ◌%◌, ◌≤◌, ◌<◌, ◌≡◌, ◌≢◌, sym, subst, Bool, true, false, not,
  ◌&&◌, Option, none, some, List, [], ◌∷◌, leb, if◌then◌else◌, length, get_or, get_or-set_self,
  get_or-set_ne, arith, Bool-cases, Option-cases, inl, inr,
}
use framelink.Api.{FlResult, u64_max}
use framelink.References.{References, is_busy}
use framelink.Producer.{
  Release, Producer, Buffer, frame_released, Round, advance, push_back, apply_release, first_free,
  take_free, acquire_loop, acquire_buffer,
}
use framelink.Producer.Submitted.{first_free_lem}

loop_ends :
    (fuel waited limit : ℕ) (rounds : ℕ → Round) (p : Producer)
    → limit + 2 ≤ waited + 2 * fuel
    → waited ≤ limit + 1
    → limit < 4294967295
    → acquire_loop fuel waited limit rounds p ≢ none
unfolding acquire_loop
loop_ends zero waited limit rounds p enough early small = absurd (omega (arith, enough, early))
loop_ends (suc n) waited limit rounds p enough early small =
    Ends_if (not (rounds waited).connected) _ _ (λ e. cc e)
      (Ends_or (take_free _) _ (elim (Bool-cases (leb limit waited)) [
        | inl late ↦ rw late (λ e. cc e)
        | inr more ↦ rw more (
            loop_ends n ((waited + 2) % 4294967296) limit rounds _ (enough_left more)
              (still_early more) small)
      ]))
  where
    Ends_if :
        (b : Bool) (x y : Option (Producer × FlResult × Option Buffer))
        → x ≢ none
        → y ≢ none
        → (if b then x else y) ≢ none
    Ends_if true x y h k = h
    Ends_if false x y h k = k

    Ends_or :
        (x y : Option (Producer × FlResult × Option Buffer))
        → y ≢ none
        → elim x [ some taken ↦ some taken | none ↦ y ] ≢ none
    Ends_or none y k = k
    Ends_or (some x) y k = λ e. cc e

    enough_left : leb limit waited ≡ false → limit + 2 ≤ (waited + 2) % 4294967296 + 2 * n
    enough_left h = ground (arith, h, enough, small)

    still_early : leb limit waited ≡ false → (waited + 2) % 4294967296 ≤ limit + 1
    still_early h = ground (arith, h, small)

-- The wait for a buffer ends: with a timeout below UINT32_MAX milliseconds, one round for every two
-- of them and two more are enough, whatever the consumer sends, as long as each round receives
-- finitely many messages.
acquire_buffer_ends :
    (fuel limit : ℕ) (rounds : ℕ → Round) (p : Producer)
    → limit < 4294967295
    → limit / 2 + 2 ≤ fuel
    → acquire_buffer fuel limit rounds p ≢ none
unfolding acquire_buffer
acquire_buffer_ends fuel limit rounds p small enough = elim (Bool-cases p.connected) [
  | inl up ↦ rw up (loop_ends fuel 0 limit rounds _ (omega (arith, enough)) (omega arith) small)
  | inr down ↦ rw down (λ e. cc e)
]

-- What a scan that hands out a slot says of it and of slot j.
abbrev Handed : Producer → ℕ → Option (Producer × FlResult × Option Buffer) → Type 0
Handed p j (some (q, r, some b)) =
    (get_or p.submit_values b.slot 0 ≤ p.consumed)
    × (is_busy p.references b.slot ≡ false)
    × (get_or q.submit_values b.slot 0 ≡ u64_max)
    × (j ≢ b.slot → get_or q.submit_values j 0 ≡ get_or p.submit_values j 0)
Handed p j _ = Unit

take_free-Handed : (p : Producer) (j : ℕ) → Handed p j (take_free p)
unfolding take_free
take_free-Handed p j = elim (Option-cases (first_free p.references p.consumed 0 p.submit_values)) [
  | inl nothing ↦ rw (nothing, Handed) tt
  | inr (i, found) ↦
      let (_, inside, free, idle) =
        first_free_lem p.references p.consumed 0 i p.submit_values found in
      rw (found, Handed)
        (
          subst (λ n. get_or p.submit_values n 0 ≤ p.consumed) (minus_zero i) free,
          idle,
          get_or-set_self p.submit_values i u64_max 0
              (subst (λ n. n < length p.submit_values) (minus_zero i) inside),
          λ other. get_or-set_ne p.submit_values i j u64_max 0 (λ e. other (sym e)),
        )
]
  where
    minus_zero : (n : ℕ) → n - 0 ≡ n
    minus_zero n = omega arith

-- A slot that is handed out was not referenced, and its last frame was consumed or never submitted.
-- It is reserved from then on, and the other slots keep their values.
pub take_free_lem :
    (p q : Producer) (r : FlResult) (b : Buffer) (j : ℕ)
    → take_free p ≡ some (q, r, some b)
    → j ≢ b.slot
    → (get_or p.submit_values b.slot 0 ≤ p.consumed)
      × (is_busy p.references b.slot ≡ false)
      × (get_or q.submit_values b.slot 0 ≡ u64_max)
      × (get_or q.submit_values j 0 ≡ get_or p.submit_values j 0)
take_free_lem p q r b j taken other =
    let (free, idle, reserved, others) = subst (Handed p j) taken (take_free-Handed p j) in
    (free, idle, reserved, others other)

first_free_finds :
    (refs : References) (c k d : ℕ) (vs : List ℕ)
    → d < length vs
    → get_or vs d 0 ≤ c
    → is_busy refs (k + d) ≡ false
    → first_free refs c k vs ≢ none
unfolding first_free
first_free_finds refs c k d [] inside free idle = absurd (omega (arith, inside))
first_free_finds refs c k zero (v ∷ vs) inside free idle =
    let here : is_busy refs k ≡ false = subst (λ n. is_busy refs n ≡ false) (plus_zero k) idle in
    ground (arith, free, here)
  where
    plus_zero : (n : ℕ) → n + 0 ≡ n
    plus_zero n = omega arith
first_free_finds refs c k (suc d) (v ∷ vs) inside free idle =
    let there : is_busy refs (suc k + d) ≡ false =
      subst (λ n. is_busy refs n ≡ false) (shift k d) idle in
    let rest = first_free_finds refs c (suc k) d vs (omega (arith, inside)) free there in
    elim (Bool-cases (leb v c && not (is_busy refs k))) [
      | inl found ↦ rw found (λ e. cc e)
      | inr further ↦ rw further rest
    ]
  where
    shift : (k d : ℕ) → k + suc d ≡ suc k + d
    shift k d = omega arith

advance_covers :
    (ready : ℕ → Bool) (c v : ℕ) (rs : List Release)
    → rs ≡ []
    → v ≤ (advance ready c (push_back rs (record { value = v; fd = none }))).0
unfolding advance
advance_covers ready c v [] e = ground arith
advance_covers ready c v (r ∷ rs) e = absurd (cc e)

-- A release of the value V, with no fence and behind no other release, frees each slot of the ring
-- whose frame was submitted under V or an earlier value: while one of them is not referenced, a
-- scan succeeds.
pub take_free-apply_release :
    (ready : ℕ → Bool) (p : Producer) (v i : ℕ)
    → p.releases ≡ []
    → i < length p.submit_values
    → get_or p.submit_values i 0 ≤ v
    → is_busy p.references i ≡ false
    → take_free (apply_release ready p (frame_released (record { value = v; fd = none }))) ≢ none
unfolding take_free apply_release
take_free-apply_release ready p v i empty inside old idle =
    elim (Option-cases (first_free p.references covered 0 p.submit_values)) [
      | inl nothing ↦ absurd (
          first_free_finds p.references covered 0 i p.submit_values inside
            (omega (arith, old, advance_covers ready p.consumed v p.releases empty))
            (subst (λ n. is_busy p.references n ≡ false) (zero_plus i) idle) nothing)
      | inr (j, found) ↦ rw (take_free, found) (λ e. cc e)
    ]
  where
    covered : ℕ
    covered = (advance ready p.consumed (push_back p.releases (record { value = v; fd = none }))).0

    zero_plus : (n : ℕ) → n ≡ 0 + n
    zero_plus n = omega arith
