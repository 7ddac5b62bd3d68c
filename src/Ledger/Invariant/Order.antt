-- ===== src/Ledger/Invariant/Order.antt =====
-- The order of the retained frames of src/fl_read_ledger.hpp.
use framelink.Base.{
  ℕ, zero, suc, ◌+◌, ◌%◌, ◌≤◌, ◌<◌, ◌≡◌, refl, ap₂, ◌∙◌, Bool, false, ◌||◌, List, [], ◌∷◌, ◌++◌,
  ◌==◌, arith,
}
use framelink.Api.{Frame}
use framelink.Ledger.{Entry, update}
use framelink.Ledger.Window.{window, slot_taken, drop_done, window-update, window-snoc}

-- Ready values rise from above lo up to hi, all frames are of one generation, and no two are in the
-- same slot.
abbrev pub Ordered : ℕ → ℕ → ℕ → List Entry → Type 0
Ordered lo hi g [] = Unit
Ordered lo hi g (e ∷ es) =
    (lo < e.frame.ready_value)
    × (e.frame.ready_value ≤ hi)
    × (e.generation ≡ g)
    × (slot_taken e.frame.slot es ≡ false)
    × Ordered e.frame.ready_value hi g es

pub Ordered-mono :
    (lo lo' hi g : ℕ) (es : List Entry) → lo' ≤ lo → Ordered lo hi g es → Ordered lo' hi g es
Ordered-mono lo lo' hi g [] le o = tt
Ordered-mono lo lo' hi g (e ∷ es) le o = (omega (arith, o.0), o.1, o.2, o.3, o.4)

slot_taken-snoc :
    (s : ℕ) (es : List Entry) (new : Entry)
    → slot_taken s (es ++ new ∷ []) ≡ (slot_taken s es || new.frame.slot == s)
slot_taken-snoc s [] new = ground arith
slot_taken-snoc s (e ∷ es) new = ground (arith, slot_taken-snoc s es new)

pub Ordered-snoc :
    (lo hi g : ℕ) (es : List Entry) (new : Entry)
    → Ordered lo hi g es
    → lo < new.frame.ready_value
    → hi < new.frame.ready_value
    → new.generation ≡ g
    → slot_taken new.frame.slot es ≡ false
    → Ordered lo new.frame.ready_value g (es ++ new ∷ [])
Ordered-snoc lo hi g [] new o lt above same free = (lt, omega arith, same, refl, tt)
Ordered-snoc lo hi g (e ∷ es) new o lt above same free =
    ground
      (arith, slot_taken-snoc e.frame.slot es new, Ordered-snoc e.frame.ready_value hi g es new o.4)

pub Ordered-drop_done :
    (v lo hi g : ℕ) (es : List Entry) → Ordered lo hi g es → Ordered lo hi g (drop_done v es)
Ordered-drop_done v lo hi g [] o = tt
Ordered-drop_done v lo hi g (e ∷ es) o =
    ground (arith, Ordered-drop_done v lo hi g es, Ordered-mono e.frame.ready_value lo hi g es)

-- Two arrays whose cells differ in their reader counts alone.
abbrev pub SameFrames : (ℕ → Entry) → (ℕ → Entry) → Type 0
SameFrames fs gs = (f : ℕ) → ((fs f).frame ≡ (gs f).frame) × ((fs f).generation ≡ (gs f).generation)

module _ (fs gs : ℕ → Entry) (same : SameFrames fs gs) where
  slot_taken-same : (s h n : ℕ) → slot_taken s (window fs h n) ≡ slot_taken s (window gs h n)
  slot_taken-same s h zero = refl
  slot_taken-same s h (suc n) =
      ap₂ (λ (x : Frame) (b : Bool). x.slot == s || b) (same (h % 16)).0
        (slot_taken-same s (suc h) n)

  pub Ordered-same :
      (lo hi g h n : ℕ) → Ordered lo hi g (window fs h n) → Ordered lo hi g (window gs h n)
  Ordered-same lo hi g h zero o = tt
  Ordered-same lo hi g h (suc n) o = ground (
    arith,
    same (h % 16),
    slot_taken-same (fs (h % 16)).frame.slot (suc h) n,
    Ordered-same (fs (h % 16)).frame.ready_value hi g (suc h) n o.4,
  )

-- A frame is put behind the last one.
pub window-push :
    (fs : ℕ → Entry) (h n : ℕ) (e : Entry)
    → n < 16
    → window (update fs ((h + n) % 16) e) h (suc n) ≡ window fs h n ++ e ∷ []
window-push fs h n e small =
    window-snoc (update fs ((h + n) % 16) e) h n
    ∙ ap₂ (λ ws x. ws ++ x ∷ []) (window-update fs h n ((h + n) % 16) e (λ i l q. omega (arith, q)))
        written
  where
    written : update fs ((h + n) % 16) e ((h + n) % 16) ≡ e
    written = ground arith
