-- ===== src/Ledger/Window.antt =====
-- The abstract view of the ring of src/fl_read_ledger.hpp: the list of the retained frames, oldest
-- first.
use framelink.Base.{
  ℕ, zero, suc, ◌+◌, ◌%◌, ◌≤◌, ◌<◌, ◌≡◌, ◌≢◌, refl, sym, Bool-cases, inl, inr, ap, ap₂, ◌∙◌, Bool,
  true, false, ◌||◌, List, [], ◌∷◌, ◌++◌, ltb, ◌==◌, truthy, if◌then◌else◌, arith, Bool-cases,
}
use framelink.Ledger.{
  Entry, Retirement, Ledger, update, holds_slot, scan, drop_retired, pop, no_entry,
}

-- n frames from position h on.
abbrev pub window : (ℕ → Entry) → ℕ → ℕ → List Entry
window fs h zero = []
window fs h (suc n) = fs (h % 16) ∷ window fs (suc h) n

-- The retained frames of a ledger.
abbrev pub entries : Ledger → List Entry
entries l = window l.frames l.head l.count

pub window-mod : (fs : ℕ → Entry) (h k n : ℕ) → h % 16 ≡ k % 16 → window fs h n ≡ window fs k n
window-mod fs h k zero e = refl
window-mod fs h k (suc n) e = ap₂ ◌∷◌ (ap fs e) (window-mod fs (suc h) (suc k) n (omega arith))

-- A write outside the window does not show in it.
pub window-update :
    (fs : ℕ → Entry) (h n k : ℕ) (e : Entry)
    → ((i : ℕ) → i < n → (h + i) % 16 ≢ k)
    → window (update fs k e) h n ≡ window fs h n
window-update fs h zero k e apart = refl
window-update fs h (suc n) k e apart =
    ap₂ ◌∷◌ here
      (window-update fs (suc h) n k e (λ i l. λ q. apart (suc i) (omega arith) (omega (arith, q))))
  where
    here : update fs k e (h % 16) ≡ fs (h % 16)
    here = ground (arith, apart 0)

pub window-snoc :
    (fs : ℕ → Entry) (h n : ℕ) → window fs h (suc n) ≡ window fs h n ++ fs ((h + n) % 16) ∷ []
window-snoc fs h zero = ap (λ t. fs t ∷ []) (omega arith)
window-snoc fs h (suc n) =
    ap (◌∷◌ (fs (h % 16)))
      (window-snoc fs (suc h) n ∙ ap (λ t. window fs (suc h) n ++ fs t ∷ []) (omega arith))

-- The search for an occupied slot, on the list.
abbrev pub slot_taken : ℕ → List Entry → Bool
slot_taken slot [] = false
slot_taken slot (e ∷ es) = e.frame.slot == slot || slot_taken slot es

pub holds_slot-window :
    (fs : ℕ → Entry) (h n slot : ℕ) → holds_slot fs h n slot ≡ slot_taken slot (window fs h n)
unfolding holds_slot
holds_slot-window fs h zero slot = refl
holds_slot-window fs h (suc n) slot =
    ap (λ t. (fs (h % 16)).frame.slot == slot || t) (holds_slot-window fs (suc h) n slot)

-- The last of the leading frames that no reader holds, or `acc` where the first one is held.
abbrev pub last_done : Retirement → List Entry → Retirement
last_done acc [] = acc
last_done acc (e ∷ es) =
    if truthy e.readers
    then acc
    else last_done (record { generation = e.generation; value = e.frame.ready_value }) es

pub scan-window :
    (fs : ℕ → Entry) (h n : ℕ) (acc : Retirement) → scan fs h n acc ≡ last_done acc (window fs h n)
unfolding scan
scan-window fs h zero acc = refl
scan-window fs h (suc n) acc =
    ap (λ t. if truthy (fs (h % 16)).readers then acc else t) (scan-window fs (suc h) n _)

-- The frames that remain when the leading ones of value at most v without readers are taken.
abbrev pub drop_done : ℕ → List Entry → List Entry
drop_done v [] = []
drop_done v (e ∷ es) =
    if truthy e.readers || ltb v e.frame.ready_value then e ∷ es else drop_done v es

drop_kept :
    (v : ℕ) (e : Entry) (es : List Entry)
    → (truthy e.readers || ltb v e.frame.ready_value) ≡ true
    → drop_done v (e ∷ es) ≡ e ∷ es
drop_kept v e es h = rw h

drop_gone :
    (v : ℕ) (e : Entry) (es : List Entry)
    → (truthy e.readers || ltb v e.frame.ready_value) ≡ false
    → drop_done v (e ∷ es) ≡ drop_done v es
drop_gone v e es h = rw h

pub entries-pop :
    (l : Ledger) (n : ℕ)
    → l.head < 16
    → l.count ≡ suc n
    → n < 16
    → entries (pop l) ≡ window l.frames (suc l.head) n
entries-pop l n h c small =
    ap (window (update l.frames l.head no_entry) ((l.head + 1) % 16)) (omega (arith, c))
    ∙ window-update l.frames ((l.head + 1) % 16) n l.head no_entry (λ i i_lt e. omega (arith, e))
    ∙ window-mod l.frames ((l.head + 1) % 16) (suc l.head) n (omega arith)

entries-suc :
    (l : Ledger) (n : ℕ)
    → l.head < 16
    → l.count ≡ suc n
    → entries l ≡ l.frames l.head ∷ window l.frames (suc l.head) n
entries-suc l n h c =
    ap (window l.frames l.head) c
    ∙ ap (λ t. l.frames t ∷ window l.frames (suc l.head) n) (omega arith)

-- The loop of retired() takes exactly those frames.
pub entries-drop_retired :
    (n v : ℕ) (l : Ledger)
    → l.head < 16
    → l.count ≡ n
    → n ≤ 16
    → entries (drop_retired n v l) ≡ drop_done v (entries l)
unfolding drop_retired
entries-drop_retired zero v l h c small = ap (window l.frames l.head) c ∙ rw c refl
entries-drop_retired (suc n) v l h c small =
    let e = l.frames l.head in
    let rest =
      entries-drop_retired n v (pop l) (omega arith) (omega (arith, c)) (omega arith)
      ∙ ap (drop_done v) (entries-pop l n h c (omega arith)) in
    let split = entries-suc l n h c in
    elim (Bool-cases (truthy e.readers || ltb v e.frame.ready_value)) [
      | inl held ↦ rw held (split ∙ sym (ap (drop_done v) split ∙ drop_kept v e _ held))
      | inr done ↦ rw done (rest ∙ sym (ap (drop_done v) split ∙ drop_gone v e _ done))
    ]
