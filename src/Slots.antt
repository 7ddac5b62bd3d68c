-- ===== src/Slots.antt =====
-- The walk over a set of slot channels, src/framelink_slots.cpp. It is written against the public API: the
-- opening of a channel and the request for a geometry are parameters, and so is the clock.
use framelink.Base.{
  ℕ, zero, suc, ◌+◌, ◌-◌, ◌≤◌, ◌<◌, ◌≡◌, Bool, true, false, not, ◌&&◌, ◌||◌, Option, none, some,
  ◌==◌, if◌then◌else◌,
}
use framelink.Api.{FlResult, ok, not_found, invalid, busy}

-- What a sweep comes to: a slot with its channel, an error, or whether a channel existed.
pub data Sweep : Type 0 where
  took : ℕ → ℕ → Sweep
  failed : FlResult → Sweep
  exhausted : Bool → Sweep

-- What flOpenProducer gives: a channel, by its address, or another result than FL_OK.
pub data Opened : Type 0 where
  opened : ℕ → Opened
  refused : FlResult → Opened

-- One slot of the sweep, by what its opening gives; `rest` is the walk behind it.
abbrev pub visit : ℕ → Bool → (Bool → Sweep) → Opened → Sweep
visit i any_existed rest (opened c) = took i c
visit i any_existed rest (refused busy) = rest true
visit i any_existed rest (refused not_found) = rest any_existed
visit i any_existed rest (refused r) = failed r

-- The loop over the slots from i on, n of them.
unfoldable pub sweep : (ℕ → Opened) → ℕ → ℕ → Bool → Sweep
sweep open_slot i zero any_existed = exhausted any_existed
sweep open_slot i (suc n) any_existed =
    visit i any_existed (λ seen. sweep open_slot (suc i) n seen) (open_slot i)

-- Whether the taken channel is asked for a geometry; the answer is not used.
abbrev pub asks : ℕ → ℕ → Bool
asks w h = not (w == 0) && not (h == 0)

-- What flOpenProducerSlot hands out: the slot, its channel, and whether flRequestGeometry was called on it.
abbrev pub Slot : Type 0
Slot = ℕ × ℕ × Bool

-- flOpenProducerSlot on fuel: `attempts` opens the slots in each sweep, `late` says whether the
-- deadline has passed behind it. none where the fuel runs out.
unfoldable pub open_loop :
    ℕ → ℕ → (ℕ → ℕ → Opened) → (ℕ → Bool) → ℕ → ℕ → ℕ → Option (FlResult × Option Slot)
unfolding sweep
open_loop zero k attempts late w h slots = none
open_loop (suc n) k attempts late w h slots =
    let rest = open_loop n (suc k) attempts late w h slots in
    elim (sweep (attempts k) 0 slots false) [
      | took i c ↦ some (ok, some (i, c, asks w h))
      | failed r ↦ some (r, none)
      | exhausted any_existed ↦
          if late k then some ((if any_existed then busy else not_found), none) else rest
    ]

unfoldable pub open_producer_slot :
    ℕ → (ℕ → ℕ → Opened) → (ℕ → Bool) → ℕ → ℕ → ℕ → Option (FlResult × Option Slot)
unfolding open_loop
open_producer_slot fuel attempts late w h slots =
    if slots == 0 then some (invalid, none) else open_loop fuel 0 attempts late w h slots

-- Whether a slot is passed over, and whether it is because it is occupied.
abbrev pub is_passed : Opened → Bool
is_passed (opened c) = false
is_passed (refused busy) = true
is_passed (refused not_found) = true
is_passed (refused r) = false

abbrev pub is_occupied : Opened → Bool
is_occupied (opened c) = false
is_occupied (refused busy) = true
is_occupied (refused r) = false

-- Whether n slots from i on are all passed over, and whether one of them is occupied.
abbrev pub all_passed : (ℕ → Opened) → ℕ → ℕ → Bool
all_passed open_slot i zero = true
all_passed open_slot i (suc n) = is_passed (open_slot i) && all_passed open_slot (suc i) n

abbrev pub any_occupied : (ℕ → Opened) → ℕ → ℕ → Bool
any_occupied open_slot i zero = false
any_occupied open_slot i (suc n) = is_occupied (open_slot i) || any_occupied open_slot (suc i) n

-- What a sweep over n slots from i on means. A slot that is taken or that ends it is the first that is neither
-- occupied nor missing.
abbrev pub Outcome : (ℕ → Opened) → ℕ → ℕ → Bool → Sweep → Type 0
Outcome open_slot i n seen (took j c) =
    (i ≤ j) × (j < i + n) × (open_slot j ≡ opened c) × (all_passed open_slot i (j - i) ≡ true)
Outcome open_slot i n seen (failed r) =
    (j : ℕ) × (i ≤ j)
    × (j < i + n)
    × (open_slot j ≡ refused r)
    × (all_passed open_slot i (j - i) ≡ true)
Outcome open_slot i n seen (exhausted b) =
    (all_passed open_slot i n ≡ true) × (b ≡ (seen || any_occupied open_slot i n))
