-- ===== src/Ledger/Retire.antt =====
-- Ordered retirement, retirement() and retired() of src/fl_read_ledger.hpp: on a timeline fence a
-- completed later frame must not retire an earlier one that is still read.
use framelink.Base.{
  ℕ, zero, suc, ◌+◌, ◌-◌, ◌%◌, ◌≤◌, ◌<◌, ◌≡◌, ◌≢◌, refl, sym, ap, ◌∙◌, Bool, true, false, some,
  List, [], ◌∷◌, ◌==◌, ==_refl, ==_ne, truthy, if◌then◌else◌, arith, subst, Bool-cases, inl, inr,
  All,
}
use framelink.Api.{ok, invalid}
use framelink.Ledger.{
  Entry, Reader, Ledger, Retirement, no_retirement, find, pop, retired, retirement, update,
  no_entry,
}
use framelink.Ledger.Window.{
  window, entries, drop_done, last_done, scan-window, entries-drop_retired,
}
use framelink.Ledger.Invariant.{Inv, live}
use framelink.Ledger.Invariant.Order.{Ordered}
use framelink.Ledger.Invariant.Methods.{find-live}
use framelink.Ledger.Invariant.Runs.{drop_retired-keeps, pop-Inv}

entry_from :
    (P : Entry → Type 0) (fs : ℕ → Entry) (h n i : ℕ)
    → i < n
    → All P (window fs h n)
    → P (fs ((h + i) % 16))
entry_from P fs h zero i lt a = elim lt [ ]
entry_from P fs h (suc n) zero lt a = subst (λ k. P (fs k)) (omega arith) a.0
entry_from P fs h (suc n) (suc i) lt a =
    subst (λ k. P (fs k)) (omega arith) (entry_from P fs (suc h) n i (omega arith) a.1)

-- An entry of the window, by its position in the ring.
pub entry_at :
    (P : Entry → Type 0) (l : Ledger) (f : ℕ)
    → Inv l
    → live l.head l.count f ≡ true
    → All P (entries l)
    → P (l.frames f)
entry_at P l f v alive a =
    subst (λ k. P (l.frames k)) (position l.head l.count f v.head_lt alive)
      (entry_from P l.frames l.head l.count ((f + 16 - l.head) % 16) (offset l.head l.count f alive)
        a)
  where
    position : (h n f : ℕ) → h < 16 → live h n f ≡ true → (h + (f + 16 - h) % 16) % 16 ≡ f
    position h n f lt alive = ground arith

    offset : (h n f : ℕ) → live h n f ≡ true → (f + 16 - h) % 16 < n
    offset h n f alive = ground arith

All-above :
    (k lo hi g : ℕ) (es : List Entry)
    → k ≤ lo
    → Ordered lo hi g es
    → All (λ e. k < e.frame.ready_value) es
All-above k lo hi g [] le o = tt
All-above k lo hi g (e ∷ es) le o =
    (omega (arith, o.0), All-above k e.frame.ready_value hi g es (omega (arith, o.0)) o.4)

abbrev pub HeldAbove : ℕ → Entry → Type 0
HeldAbove k e = truthy e.readers ≡ true → k < e.frame.ready_value

held_of_above :
    (k : ℕ) (es : List Entry) → All (λ e. k < e.frame.ready_value) es → All (HeldAbove k) es
held_of_above k [] a = tt
held_of_above k (e ∷ es) a = ((λ _. a.0), held_of_above k es a.1)

pub last_done_held :
    (acc : Retirement) (lo hi g : ℕ) (es : List Entry)
    → acc.value ≤ lo
    → Ordered lo hi g es
    → All (HeldAbove (last_done acc es).value) es
last_done_held acc lo hi g [] le o = tt
last_done_held acc lo hi g (e ∷ es) le o = elim (Bool-cases (truthy e.readers)) [
  | inl held ↦
      subst (λ k. All (HeldAbove k) (e ∷ es)) (sym (stays held))
        (held_of_above acc.value (e ∷ es) (All-above acc.value lo hi g (e ∷ es) le o))
  | inr idle ↦
      subst (λ k. All (HeldAbove k) (e ∷ es)) (sym (goes_on idle))
        (
          (λ held. absurd (true≢false (sym held ∙ idle))),
          last_done_held next e.frame.ready_value hi g es (omega arith) o.4,
        )
]
  where
    stays : truthy e.readers ≡ true → (last_done acc (e ∷ es)).value ≡ acc.value
    stays held = rw held refl

    next : Retirement
    next = record { generation = e.generation; value = e.frame.ready_value }

    goes_on : truthy e.readers ≡ false → (last_done acc (e ∷ es)).value ≡ (last_done next es).value
    goes_on idle = rw idle refl

    true≢false : true ≢ false
    true≢false e = cc e

last_done_ge :
    (acc : Retirement) (hi g : ℕ) (es : List Entry)
    → Ordered acc.value hi g es
    → acc.value ≤ (last_done acc es).value
last_done_ge acc hi g [] o = omega arith
last_done_ge acc hi g (e ∷ es) o = ground (
  arith,
  last_done_ge (record { generation = e.generation; value = e.frame.ready_value }) hi g es o.4,
)

pub retirement-window : (l : Ledger) → retirement l ≡ last_done no_retirement (entries l)
unfolding retirement
retirement-window l = scan-window l.frames l.head l.count no_retirement

-- In a ledger with the invariant the retirement value lies below the ready value of every frame
-- that a token, live or deferred, still owns: what retires on the fence is no longer read.
pub retirement-lt-reader :
    (l : Ledger) (t : ℕ) (p : Bool) (r : Reader)
    → Inv l
    → find t p l.readers ≡ some r
    → (retirement l).value < (l.frames r.frame).frame.ready_value
retirement-lt-reader l t p r v found =
    let (alive, held) = find-live l t p r v found in
    rw (retirement-window l) (
      entry_at (HeldAbove (last_done no_retirement (entries l)).value) l r.frame v alive
        (last_done_held no_retirement 0 l.last_value l.generation (entries l) (omega arith)
          v.ordered)
        (truthy_pos held))
  where
    truthy_pos : {n : ℕ} → 0 < n → truthy n ≡ true
    truthy_pos h = ground arith

-- The retained frames behind the leading ones without readers.
abbrev pub drop_idle : List Entry → List Entry
drop_idle [] = []
drop_idle (e ∷ es) = if truthy e.readers then e ∷ es else drop_idle es

drop_done-idle :
    (acc : Retirement) (hi g : ℕ) (es : List Entry)
    → Ordered acc.value hi g es
    → drop_done (last_done acc es).value es ≡ drop_idle es
drop_done-idle acc hi g [] o = refl
drop_done-idle acc hi g (e ∷ es) o =
    let next : Retirement = record { generation = e.generation; value = e.frame.ready_value } in
    ground (arith, last_done_ge next hi g es o.4, drop_done-idle next hi g es o.4)

drop_idle_none :
    (acc : Retirement) (hi g : ℕ) (es : List Entry)
    → Ordered acc.value hi g es
    → (last_done acc es).value ≡ acc.value
    → drop_idle es ≡ es
drop_idle_none acc hi g [] o h = refl
drop_idle_none acc hi g (e ∷ es) o h =
    let next : Retirement = record { generation = e.generation; value = e.frame.ready_value } in
    ground (arith, last_done_ge next hi g es o.4)

-- In a ledger with the invariant, acknowledging the retirement that it offers takes exactly the
-- leading frames without readers. It answers ok where a retirement is offered, and invalid where
-- none is.
pub entries-retired :
    (l : Ledger)
    → Inv l
    → (entries (retired l (retirement l)).0 ≡ drop_idle (entries l))
      × ((retired l (retirement l)).1 ≡ (if (retirement l).value == 0 then invalid else ok))
unfolding retired
entries-retired l v = elim (Bool-cases ((retirement l).value == 0)) [
  | inl none_done ↦ (
    rw none_done (
        sym (
          drop_idle_none no_retirement l.last_value l.generation (entries l) v.ordered
            (ap (λ r. r.value) (sym (retirement-window l)) ∙ zero_of none_done))),
    rw none_done refl,
  )
  | inr some_done ↦
      rw (some_done, ==_refl (retirement l).value, ==_refl (retirement l).generation)
        (
          entries-drop_retired l.count (retirement l).value l v.head_lt refl v.count_le
              ∙ ap (λ r. drop_done r.value (entries l)) (retirement-window l)
              ∙ drop_done-idle no_retirement l.last_value l.generation (entries l) v.ordered,
          refl,
        )
]
  where
    zero_of : {n : ℕ} → (n == 0) ≡ true → n ≡ 0
    zero_of e = ground arith

-- In a ledger with the invariant, acknowledging any retirement leaves the reader table and the
-- frame of every token that is still in use as they were.
pub retired-keeps-frame :
    (l : Ledger) (t : ℕ) (p : Bool) (r : Reader) (a : Retirement)
    → Inv l
    → find t p l.readers ≡ some r
    → ((retired l a).0.readers ≡ l.readers) × ((retired l a).0.frames r.frame ≡ l.frames r.frame)
unfolding retired
retired-keeps-frame l t p r a v found =
    let kept = drop_retired-keeps Same keep l.count a.value l refl (v, refl, refl) in
    ground (arith, kept)
  where
    Same : Ledger → Type 0
    Same m = Inv m × (m.readers ≡ l.readers) × (m.frames r.frame ≡ l.frames r.frame)

    keep :
        (m : Ledger) (n : ℕ)
        → Same m
        → m.count ≡ suc n
        → (m.frames m.head).readers ≡ 0
        → Same (pop m)
    keep m n (w, readers, frame) c idle =
        let still = find-live m t p r w (rw readers found) in
        (pop-Inv m n w c idle, readers, other still.1 idle ∙ frame)
      where
        other :
            0 < (m.frames r.frame).readers
            → (m.frames m.head).readers ≡ 0
            → update m.frames m.head no_entry r.frame ≡ m.frames r.frame
        other held idle =
            rw (==_ne r.frame m.head (λ e. omega (arith, ap (λ k. (m.frames k).readers) e))) refl
