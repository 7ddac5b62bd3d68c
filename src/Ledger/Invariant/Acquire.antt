-- ===== src/Ledger/Invariant/Acquire.antt =====
-- acquire() and retain() of src/fl_read_ledger.hpp keep the ledger's invariant.
use framelink.Base.{
  ℕ, suc, ◌+◌, ◌%◌, ◌≤◌, ◌<◌, ◌≡◌, ◌≢◌, ◌⊎◌, refl, sym, ap, ap₂, ◌∙◌, false, none, some, List, [],
  ◌∷◌, ◌++◌, ==_refl, arith, subst, Option-cases, inl, inr,
}
use framelink.Api.{Frame}
use framelink.Ledger.{
  Entry, Reader, Ledger, no_entry, update, find, holds_slot, opened, close_acquire, refusal,
  acquire, retain, tail, more_readers,
}
use framelink.Ledger.Window.{window, entries, window-update, holds_slot-window}
use framelink.Ledger.Invariant.{Inv}
use framelink.Ledger.Invariant.Methods.{Added, add_reader_cases, find-live}
use framelink.Ledger.Invariant.Order.{Ordered, Ordered-snoc, Ordered-same, window-push}

pub retain-Inv : (l : Ledger) (t : ℕ) → Inv l → Inv (retain l t).0
unfolding retain
retain-Inv l t v = elim (Option-cases (find t false l.readers)) [
  | inl e ↦ rw (e, retain) v
  | inr (r, e) ↦
      rw (e, retain)
        (add_reader_cases (λ o. Inv o.0) l r.frame v.next_pos v.fresh v.distinct v v (shared r e))
]
  where
    shared :
        (r : Reader)
        → find t false l.readers ≡ some r
        → (rs : List Reader) → Added l r.frame rs
        → Inv (record l {
          frames = update l.frames r.frame (more_readers (l.frames r.frame));
          readers = rs;
          next_token = l.next_token + 1;
        })
    shared r e rs added = record {
      head_lt = v.head_lt;
      count_le = v.count_le;
      ordered =
          Ordered-same l.frames (update l.frames r.frame (more_readers (l.frames r.frame)))
            (λ f. ground arith) 0 l.last_value l.generation l.head l.count v.ordered;
      counted = λ f. ground (arith, v.counted f, added.owned f);
      cleared = λ f dead. ground (arith, v.cleared f dead, find-live l t false r v e);
      fresh = added.fresh_after;
      distinct = added.distinct_after;
      next_pos = omega arith;
    }

-- What holds of a frame that the checks of acquire() let in.
pub record Admitted (l : Ledger) (generation : ℕ) (frame : Frame) : Type 0 where
  pub pos : 0 < frame.ready_value
  pub room : l.count < 16
  pub epoch : (l.count ≡ 0) ⊎ ((l.generation ≡ generation) × (l.last_value < frame.ready_value))
  pub free_slot : holds_slot l.frames l.head l.count frame.slot ≡ false

pub refusal-none :
    (l : Ledger) (generation : ℕ) (frame : Frame)
    → l.count ≤ 16
    → refusal l generation frame ≡ none
    → Admitted l generation frame
unfolding refusal
refusal-none l generation frame small h = ground arith

tail_cleared : (l : Ledger) → Inv l → l.count < 16 → (l.frames (tail l)).readers ≡ 0
tail_cleared l v room = v.cleared (tail l) (ground (arith, v.head_lt))

abbrev entry : ℕ → Frame → Entry
entry g frame = record { frame = frame; generation = g; readers = 0 }

abbrev taken : ℕ → Frame → Entry
taken g frame = record { frame = frame; generation = g; readers = 1 }

module _ (l : Ledger) (g : ℕ) (frame : Frame) (v : Inv l) (a : Admitted l g frame) where
  before_tail : (i : ℕ) → i < l.count → (l.head + i) % 16 ≢ tail l
  before_tail i lt e = omega (arith, a.room, v.head_lt, e)

  window-opened : (e : Entry) → window (update l.frames (tail l) e) l.head l.count ≡ entries l
  window-opened e = window-update l.frames l.head l.count (tail l) e before_tail

  put_back :
      Inv
        (record (opened l g frame) { frames = update (opened l g frame).frames (tail l) no_entry })
  put_back = record {
    head_lt = v.head_lt;
    count_le = v.count_le;
    ordered =
        rw (window-update (opened l g frame).frames l.head l.count (tail l) no_entry before_tail)
          (rw (window-opened (entry g frame)) v.ordered);
    counted = λ f. ground (arith, v.counted f, tail_cleared l v a.room);
    cleared = λ f dead. ground (arith, v.cleared f dead);
    fresh = v.fresh;
    distinct = v.distinct;
    next_pos = v.next_pos;
  }

  Ordered-after : Ordered 0 frame.ready_value g (entries l ++ taken g frame ∷ [])
  Ordered-after = elim a.epoch [
    | inl none_held ↦ rw (none_held, entries) (a.pos, omega arith, refl, refl, tt)
    | inr (same, above) ↦
        Ordered-snoc 0 l.last_value g (entries l) (taken g frame)
          (subst (λ t. Ordered 0 l.last_value t (entries l)) same v.ordered) a.pos above refl
          (sym (holds_slot-window l.frames l.head l.count frame.slot) ∙ a.free_slot)
  ]

  taken_lem : more_readers ((opened l g frame).frames (tail l)) ≡ taken g frame
  taken_lem = rw (==_refl (tail l)) refl

  window-let_in :
      window
        (update
          (opened l g frame).frames
          (tail l)
          (more_readers ((opened l g frame).frames (tail l))))
        l.head
        (l.count + 1)
      ≡ entries l ++ taken g frame ∷ []
  window-let_in =
      let more : l.count + 1 ≡ suc l.count = omega arith in
      ap₂ (λ e n. window (update (opened l g frame).frames (tail l) e) l.head n) taken_lem more
      ∙ window-push (opened l g frame).frames l.head l.count (taken g frame) a.room
      ∙ ap (λ ws. ws ++ taken g frame ∷ []) (window-opened (entry g frame))

  let_in :
      (rs : List Reader)
      → Added (opened l g frame) (tail l) rs
      → Inv (record l {
        frames =
            update
              (opened l g frame).frames
              (tail l)
              (more_readers ((opened l g frame).frames (tail l)));
        readers = rs;
        next_token = l.next_token + 1;
        generation = g;
        last_value = frame.ready_value;
        count = l.count + 1;
      })
  let_in rs added = record {
    head_lt = v.head_lt;
    count_le = omega (arith, a.room);
    ordered = subst (Ordered 0 frame.ready_value g) (sym window-let_in) Ordered-after;
    counted = λ f. ground (arith, v.counted f, added.owned f, tail_cleared l v a.room);
    cleared = λ f dead. ground (arith, v.cleared f, v.head_lt, a.room);
    fresh = added.fresh_after;
    distinct = added.distinct_after;
    next_pos = omega arith;
  }

pub acquire-Inv : (l : Ledger) (g : ℕ) (frame : Frame) → Inv l → Inv (acquire l g frame).0
unfolding acquire
acquire-Inv l g frame v = elim (Option-cases (refusal l g frame)) [
  | inr (r, e) ↦ rw (e, acquire) v
  | inl e ↦
      let a = refusal-none l g frame v.count_le e in
      rw (e, acquire)
        (add_reader_cases (λ o. Inv (close_acquire (tail l) g frame o).0) (opened l g frame)
          (tail l) v.next_pos v.fresh v.distinct (put_back l g frame v a) (put_back l g frame v a)
          (let_in l g frame v a))
]
