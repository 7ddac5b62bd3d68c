-- ===== src/Ledger/Held.antt =====
-- Values below the frames that a ledger of src/fl_read_ledger.hpp still has readers of, and what each
-- method leaves of them.
use framelink.Base.{
  ℕ, suc, ◌+◌, ◌≤◌, ◌<◌, ◌≡◌, ◌⊎◌, refl, sym, ◌∙◌, Bool, true, false, Option, none, some, List, [],
  ◌∷◌, ◌==◌, arith, subst, Bool-cases, Option-cases, inl, inr,
}
use framelink.Api.{Frame, FlResult, ok}
use framelink.Ledger.{
  Entry, Reader, Ledger, Retirement, no_retirement, no_entry, update, find, acquire, retain, finish,
  complete, finish_deferred, defer, retirement, retired, pop, tail, opened, close_acquire, refusal,
  more_readers, fewer_readers,
}
use framelink.Ledger.Window.{entries, last_done}
use framelink.Ledger.Invariant.{Inv, live}
use framelink.Ledger.Invariant.Order.{Ordered}
use framelink.Ledger.Invariant.Methods.{Added, add_reader_cases, find-live, finish-Inv, defer-Inv}
use framelink.Ledger.Invariant.Acquire.{retain-Inv}
use framelink.Ledger.Invariant.Runs.{drop_retired-keeps, retired-Inv}
use framelink.Ledger.Retire.{entry_at, HeldAbove, last_done_held, retirement-window}

-- What holds of each frame that has a reader.
abbrev pub Holds : (Frame → Type 0) → Ledger → Type 0
Holds P l = (f : ℕ) → 0 < (l.frames f).readers → P (l.frames f).frame

-- Each frame that has a reader has a ready value above w.
abbrev pub IsAbove : ℕ → Ledger → Type 0
IsAbove w = Holds (λ frame. w < frame.ready_value)

-- What a method that takes no frame in leaves: what holds of the frames with readers, and the last value.
abbrev pub Keeps : (Frame → Type 0) → Ledger → Ledger → Type 0
Keeps P l m = Holds P m × (m.last_value ≡ l.last_value)

-- A write that leaves the frames, or clears the readers.
rewritten :
    (P : Frame → Type 0) (fs gs : ℕ → Entry)
    → ((f : ℕ) → 0 < (fs f).readers → P (fs f).frame)
    → ((f : ℕ) → 0 < (gs f).readers → ((gs f).frame ≡ (fs f).frame) × (0 < (fs f).readers))
    → (f : ℕ) → 0 < (gs f).readers
    → P (gs f).frame
rewritten P fs gs a same f h = let (e, held) = same f h in subst P (sym e) (a f held)

pub retain-Keeps :
    (P : Frame → Type 0) (l : Ledger) (t : ℕ) → Inv l → Holds P l → Keeps P l (retain l t).0
unfolding retain
retain-Keeps P l t v a = elim (Option-cases (find t false l.readers)) [
  | inl e ↦ rw (e, retain) (a, refl)
  | inr (r, e) ↦
      rw (e, retain)
        (add_reader_cases (λ o. Keeps P l o.0) l r.frame v.next_pos v.fresh v.distinct (a, refl)
          (a, refl) (λ rs added. (shared r (find-live l t false r v e).1, refl)))
]
  where
    shared :
        (r : Reader)
        → 0 < (l.frames r.frame).readers
        → (f : ℕ) → 0 < (update l.frames r.frame (more_readers (l.frames r.frame)) f).readers
        → P (update l.frames r.frame (more_readers (l.frames r.frame)) f).frame
    shared r held =
        rewritten P l.frames (update l.frames r.frame (more_readers (l.frames r.frame))) a
          (λ f h. (ground arith, ground (arith, held, h)))

pub finish-Keeps :
    (P : Frame → Type 0) (p : Bool) (l : Ledger) (t : ℕ) → Holds P l → Keeps P l (finish p l t).0
unfolding finish
finish-Keeps P p l t a = elim (Option-cases (find t p l.readers)) [
  | inl e ↦ rw (e, finish) (a, refl)
  | inr (r, e) ↦
      rw (e, finish)
        (
          rewritten P l.frames (update l.frames r.frame (fewer_readers (l.frames r.frame))) a
              (λ f h. (ground arith, ground (arith, h))),
          refl,
        )
]

pub defer-Keeps : (P : Frame → Type 0) (l : Ledger) (t : ℕ) → Holds P l → Keeps P l (defer l t).0
unfolding defer
defer-Keeps P l t a = elim (Option-cases (find t false l.readers)) [
  | inl e ↦ rw (e, defer) (a, refl)
  | inr (r, e) ↦ rw (e, defer) (a, refl)
]

pub retired-Keeps :
    (P : Frame → Type 0) (l : Ledger) (r : Retirement)
    → Inv l
    → Holds P l
    → Keeps P l (retired l r).0
unfolding retired
retired-Keeps P l r v a =
    let kept = drop_retired-keeps (Keeps P l) popped l.count r.value l refl (a, refl) in
    ground (arith, kept)
  where
    popped :
        (m : Ledger) (n : ℕ)
        → Keeps P l m
        → m.count ≡ suc n
        → (m.frames m.head).readers ≡ 0
        → Keeps P l (pop m)
    popped m n (b, last) c idle = (
      rewritten P m.frames (update m.frames m.head no_entry) b
          (λ f h. (ground (arith, h), ground (arith, h))),
      last,
    )

-- The value that retires is below that of each frame with a reader.
pub retirement-IsAbove : (l : Ledger) → Inv l → IsAbove (retirement l).value l
retirement-IsAbove l v f held = rw (retirement-window l) (
    entry_at (HeldAbove (last_done no_retirement (entries l)).value) l f v alive
      (last_done_held no_retirement 0 l.last_value l.generation (entries l) (omega arith) v.ordered)
      (ground (arith, held)))
  where
    alive : live l.head l.count f ≡ true
    alive = elim (Bool-cases (live l.head l.count f)) [
      | inl e ↦ e
      | inr dead ↦ elim (never (v.cleared f dead)) [ ]
    ]
      where
        never : (l.frames f).readers ≡ 0 → ⊥
        never e = omega (arith, e, held)

last_done_le :
    (acc : Retirement) (lo hi g : ℕ) (es : List Entry)
    → acc.value ≤ hi
    → Ordered lo hi g es
    → (last_done acc es).value ≤ hi
last_done_le acc lo hi g [] le o = le
last_done_le acc lo hi g (e ∷ es) le o =
    let next : Retirement = record { generation = e.generation; value = e.frame.ready_value } in
    ground (arith, le, last_done_le next e.frame.ready_value hi g es o.1 o.4)

pub retirement-le-last : (l : Ledger) → Inv l → (retirement l).value ≤ l.last_value
retirement-le-last l v =
    rw (retirement-window l)
      (last_done_le no_retirement 0 l.last_value l.generation (entries l) (omega arith) v.ordered)

-- What acquire() leaves: the frame is the last one where it is let in.
pub record Taken (P : Frame → Type 0) (l : Ledger) (frame : Frame)
    (o : Ledger × FlResult × Option ℕ) : Type 0 where
  pub above : Holds P o.0
  pub last : (o.0.last_value ≡ l.last_value) ⊎ ((o.1 ≡ ok) × (o.0.last_value ≡ frame.ready_value))

pub acquire-Taken :
    (P : Frame → Type 0) (l : Ledger) (g : ℕ) (frame : Frame)
    → Inv l
    → Holds P l
    → P frame
    → Taken P l frame (acquire l g frame)
unfolding acquire
acquire-Taken P l g frame v a here = elim (Option-cases (refusal l g frame)) [
  | inr (r, e) ↦ rw (e, acquire) (record { above = a; last = inl refl })
  | inl e ↦
      rw (e, acquire)
        (add_reader_cases (λ o. Taken P l frame (close_acquire (tail l) g frame o))
          (opened l g frame) (tail l) v.next_pos v.fresh v.distinct put_back put_back let_in)
]
  where
    put_back :
        {r : FlResult}
        → Taken P l frame (
          record (opened l g frame) { frames = update (opened l g frame).frames (tail l) no_entry },
          r,
          none,
        )
    put_back = record {
      above =
          rewritten P l.frames (update (opened l g frame).frames (tail l) no_entry) a
            (λ f h. (ground (arith, h), ground (arith, h)));
      last = inl refl;
    }

    let_in :
        (rs : List Reader)
        → Added (opened l g frame) (tail l) rs
        → Taken P l frame (
            close_acquire (tail l) g frame (
              record (opened l g frame) {
                frames =
                    update
                      (opened l g frame).frames
                      (tail l)
                      (more_readers ((opened l g frame).frames (tail l)));
                readers = rs;
                next_token = l.next_token + 1;
              },
              ok,
              some l.next_token,
            ))
    let_in rs added = record {
      above = λ f h. elim (Bool-cases (f == tail l)) [
        | inl same ↦ subst P (sym (the_frame f same)) here
        | inr other ↦ subst P (sym (another f other)) (a f (still f other h))
      ];
      last = inr (refl, refl);
    }
      where
        fs : ℕ → Entry
        fs =
            update (opened l g frame).frames (tail l)
              (more_readers ((opened l g frame).frames (tail l)))

        the_frame : (f : ℕ) → (f == tail l) ≡ true → (fs f).frame ≡ frame
        the_frame f e = ground (arith, e)

        another : (f : ℕ) → (f == tail l) ≡ false → (fs f).frame ≡ (l.frames f).frame
        another f e = ground (arith, e)

        still : (f : ℕ) → (f == tail l) ≡ false → 0 < (fs f).readers → 0 < (l.frames f).readers
        still f e h = ground (arith, e, h)

-- What a ledger becomes by calls that take no frame in.
pub record Retains (l m : Ledger) : Type 1 where
  pub inv : Inv l → Inv m
  pub last : Inv l → m.last_value ≡ l.last_value
  pub above : (P : Frame → Type 0) → Inv l → Holds P l → Holds P m

pub Retains-refl : (l : Ledger) → Retains l l
Retains-refl l = record { inv = λ v. v; last = λ v. refl; above = λ P v a. a }

pub Retains-trans : (l m n : Ledger) → Retains l m → Retains m n → Retains l n
Retains-trans l m n r s = record {
  inv = λ v. s.inv (r.inv v);
  last = λ v. s.last (r.inv v) ∙ r.last v;
  above = λ P v a. s.above P (r.inv v) (r.above P v a);
}

pub same_readers : (l m : Ledger) → m ≡ l → Retains l m
same_readers l m e = subst (Retains l) (sym e) (Retains-refl l)

-- Each retained frame that has a reader has a value.
pub IsAbove-zero : (l : Ledger) → Inv l → IsAbove 0 l
IsAbove-zero l v f h = omega (arith, retirement-IsAbove l v f h)

pub retain-Retains : (l : Ledger) (t : ℕ) → Retains l (retain l t).0
retain-Retains l t = record {
  inv = retain-Inv l t;
  last = λ v. (retain-Keeps (λ frame. 0 < frame.ready_value) l t v (IsAbove-zero l v)).1;
  above = λ P v a. (retain-Keeps P l t v a).0;
}

finish-Retains : (p : Bool) (l : Ledger) (t : ℕ) → Retains l (finish p l t).0
finish-Retains p l t = record {
  inv = finish-Inv p l t;
  last = λ v. (finish-Keeps (λ frame. 0 < frame.ready_value) p l t (IsAbove-zero l v)).1;
  above = λ P v a. (finish-Keeps P p l t a).0;
}

pub defer-Retains : (l : Ledger) (t : ℕ) → Retains l (defer l t).0
defer-Retains l t = record {
  inv = defer-Inv l t;
  last = λ v. (defer-Keeps (λ frame. 0 < frame.ready_value) l t (IsAbove-zero l v)).1;
  above = λ P v a. (defer-Keeps P l t a).0;
}

pub retired-Retains : (l : Ledger) (r : Retirement) → Retains l (retired l r).0
retired-Retains l r = record {
  inv = retired-Inv l r;
  last = λ v. (retired-Keeps (λ frame. 0 < frame.ready_value) l r v (IsAbove-zero l v)).1;
  above = λ P v a. (retired-Keeps P l r v a).0;
}

pub complete-Retains : (l : Ledger) (t : ℕ) → Retains l (complete l t).0
unfolding complete
complete-Retains l t = finish-Retains false l t

pub finish_deferred-Retains : (l : Ledger) (t : ℕ) → Retains l (finish_deferred l t).0
unfolding finish_deferred
finish_deferred-Retains l t = finish-Retains true l t
