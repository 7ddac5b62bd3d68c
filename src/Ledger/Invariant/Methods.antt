-- ===== src/Ledger/Invariant/Methods.antt =====
-- Each method of src/fl_read_ledger.hpp keeps the ledger's invariant.
use framelink.Base.{
  ℕ, ◌+◌, ◌<◌, ◌≡◌, ◌≢◌, ◌∙◌, Bool, true, false, Option, none, some, List, ◌==◌, ==_ne,
  if◌then◌else◌, arith, Bool-cases, Option-cases, inl, inr,
}
use framelink.Api.{FlResult, ok, busy, internal, u64_max}
use framelink.Ledger.{
  Reader, Ledger, no_reader, update, draw_token, find_in, find, write_at, place, add_reader, finish,
  complete, finish_deferred, defer, more_readers, fewer_readers,
}
use framelink.Ledger.Owners.{
  owners, Below, Distinct, Lacks-Below, Below-mono, owners-find_in, owners-free, owners-mark,
  owners-place, All-write_at, All-place, All-find_in, Distinct-free, Distinct-mark, Distinct-place,
}
use framelink.Ledger.Invariant.{Inv, live}
use framelink.Ledger.Invariant.Order.{Ordered-same}

find_in_of_find :
    (t : ℕ) (p : Bool) (rs : List Reader) (r : Reader)
    → find t p rs ≡ some r
    → (t ≢ 0) × (find_in t p rs ≡ some r)
unfolding find
find_in_of_find t p rs r h = ground arith

-- The frame of a live token is retained.
pub find-live :
    (l : Ledger) (t : ℕ) (p : Bool) (r : Reader)
    → Inv l
    → find t p l.readers ≡ some r
    → (live l.head l.count r.frame ≡ true) × (0 < (l.frames r.frame).readers)
find-live l t p r v h =
    let (nz, found) = find_in_of_find t p l.readers r h in
    ground (arith, owners-find_in t p l.readers r nz found, v.counted r.frame, v.cleared r.frame)

pub finish-Inv : (p : Bool) (l : Ledger) (t : ℕ) → Inv l → Inv (finish p l t).0
unfolding finish
finish-Inv p l t v = elim (Option-cases (find t p l.readers)) [
  | inl e ↦ rw (e, finish) v
  | inr (r, e) ↦ rw (e, finish) (freed r e)
]
  where
    freed :
        (r : Reader)
        → find t p l.readers ≡ some r
        → Inv (record l {
          frames = update l.frames r.frame (fewer_readers (l.frames r.frame));
          readers = write_at t p no_reader l.readers;
        })
    freed r e =
        let (nz, found) = find_in_of_find t p l.readers r e in
        record {
          head_lt = v.head_lt;
          count_le = v.count_le;
          ordered =
              Ordered-same l.frames (update l.frames r.frame (fewer_readers (l.frames r.frame)))
                (λ f. ground arith) 0 l.last_value l.generation l.head l.count v.ordered;
          counted = λ f.
              ground
                (arith, v.counted f, v.counted r.frame, owners-free t p l.readers r f nz found);
          cleared = λ f dead. ground (arith, v.cleared f dead);
          fresh =
              All-write_at (λ x. x.token < l.next_token) t p no_reader l.readers v.next_pos v.fresh;
          distinct = Distinct-free t p l.readers v.distinct;
          next_pos = v.next_pos;
        }

pub complete-Inv : (l : Ledger) (t : ℕ) → Inv l → Inv (complete l t).0
unfolding complete
complete-Inv l t v = finish-Inv false l t v

pub finish_deferred-Inv : (l : Ledger) (t : ℕ) → Inv l → Inv (finish_deferred l t).0
unfolding finish_deferred
finish_deferred-Inv l t v = finish-Inv true l t v

pub defer-Inv : (l : Ledger) (t : ℕ) → Inv l → Inv (defer l t).0
unfolding defer
defer-Inv l t v = elim (Option-cases (find t false l.readers)) [
  | inl e ↦ rw (e, defer) v
  | inr (r, e) ↦ rw (e, defer) (marked r e)
]
  where
    marked :
        (r : Reader)
        → find t false l.readers ≡ some r
        → Inv (record l { readers = write_at t false (record r { pending = true }) l.readers })
    marked r e =
        let (nz, found) = find_in_of_find t false l.readers r e in
        record {
          head_lt = v.head_lt;
          count_le = v.count_le;
          ordered = v.ordered;
          counted = λ f. owners-mark t l.readers r f found ∙ v.counted f;
          cleared = v.cleared;
          fresh =
              All-write_at (λ x. x.token < l.next_token) t false (record r { pending = true })
                l.readers
                (All-find_in (λ x. x.token < l.next_token) t false l.readers r found v.fresh)
                v.fresh;
          distinct = Distinct-mark t l.readers r found v.distinct;
          next_pos = v.next_pos;
        }

-- What a successful addReader() does: one fresh token, one more reader of the frame.
pub record Added (l : Ledger) (f : ℕ) (rs : List Reader) : Type 0 where
  pub placed :
      place (record { token = l.next_token; frame = f; pending = false }) l.readers ≡ some rs
  pub owned : (g : ℕ) → owners g rs ≡ (if f == g then 1 else 0) + owners g l.readers
  pub fresh_after : Below (l.next_token + 1) rs
  pub distinct_after : Distinct rs

draw_spent : (n : ℕ) → (n == u64_max) ≡ true → draw_token n ≡ (0, n)
unfolding draw_token
draw_spent n e = rw e

draw_fresh : (n : ℕ) → (n == u64_max) ≡ false → draw_token n ≡ (n, n + 1)
unfolding draw_token
draw_fresh n e = rw e

-- The three outcomes of addReader().
pub add_reader_cases :
    (Q : Ledger × FlResult × Option ℕ → Type 0) (l : Ledger) (f : ℕ)
    → 0 < l.next_token
    → Below l.next_token l.readers
    → Distinct l.readers
    → Q (l, busy, none)
    → Q (l, internal, none)
    → ((rs : List Reader)
        → Added l f rs
        → Q (
          record l {
            frames = update l.frames f (more_readers (l.frames f));
            readers = rs;
            next_token = l.next_token + 1;
          },
          ok,
          some l.next_token,
        ))
    → Q (add_reader l f)
unfolding add_reader
add_reader_cases Q l f pos fresh distinct full spent added =
    elim (Bool-cases (l.next_token == u64_max)) [
      | inl e ↦ elim (Option-cases (place (reader 0) l.readers)) [
        | inl none_free ↦ rw (draw_spent l.next_token e, none_free, add_reader) full
        | inr (rs, placed) ↦
            rw (draw_spent l.next_token e, placed, add_reader)
              (rw (draw_spent l.next_token e) spent)
      ]
      | inr e ↦ elim (Option-cases (place (reader l.next_token) l.readers)) [
        | inl none_free ↦ rw (draw_fresh l.next_token e, none_free, add_reader) full
        | inr (rs, placed) ↦
            rw (draw_fresh l.next_token e, placed, add_reader)
              (rw (draw_fresh l.next_token e, ==_ne l.next_token 0 (omega arith))
                (added rs (drawn e rs placed)))
      ]
    ]
  where
    reader : ℕ → Reader
    reader t = record { token = t; frame = f; pending = false }

    drawn :
        (l.next_token == u64_max) ≡ false
        → (rs : List Reader) → place (reader l.next_token) l.readers ≡ some rs
        → Added l f rs
    drawn e rs placed = record {
      placed = placed;
      owned = λ g. owners-place (reader l.next_token) l.readers rs g placed ∙ ground arith;
      fresh_after =
          All-place (λ x. x.token < l.next_token + 1) (reader l.next_token) l.readers rs placed
            (omega arith)
            (Below-mono l.next_token (l.next_token + 1) l.readers (omega arith) fresh);
      distinct_after =
          Distinct-place (reader l.next_token) l.readers rs placed
            (Lacks-Below l.next_token l.readers fresh) distinct;
    }
