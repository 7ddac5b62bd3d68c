-- ===== src/Ledger/Invariant/Runs.antt =====
-- Histories of a reader ledger of src/fl_read_ledger.hpp: its methods in any order, between which the
-- other ledgers of the process draw tokens.
use framelink.Base.{
  ℕ, zero, suc, ◌%◌, ◌≤◌, ◌<◌, ◌≡◌, refl, sym, Bool, true, false, ◌||◌, List, [], ◌∷◌, ltb, ◌==◌,
  truthy, arith, subst, Bool-cases, inl, inr, replicate,
}
use framelink.Api.{Frame}
use framelink.Ledger.{
  Ledger, Retirement, no_reader, new, draw_token, acquire, retain, complete, finish_deferred, defer,
  drop_retired, pop, retired, reset_epoch, max_readers,
}
use framelink.Ledger.Window.{window, entries-pop}
use framelink.Ledger.Owners.{owners, Below, Below-mono, Distinct}
use framelink.Ledger.Invariant.{Inv}
use framelink.Ledger.Invariant.Order.{Ordered, Ordered-mono}
use framelink.Ledger.Invariant.Methods.{complete-Inv, finish_deferred-Inv, defer-Inv}
use framelink.Ledger.Invariant.Acquire.{acquire-Inv, retain-Inv}

-- The oldest frame may go once it has no readers.
pub pop-Inv :
    (l : Ledger) (n : ℕ) → Inv l → l.count ≡ suc n → (l.frames l.head).readers ≡ 0 → Inv (pop l)
pop-Inv l n v c none_left = record {
  head_lt = omega arith;
  count_le = omega (arith, v.count_le);
  ordered =
      subst (Ordered 0 l.last_value l.generation)
        (sym (entries-pop l n v.head_lt c (omega (arith, v.count_le))))
        (behind l.generation l.last_value (
          subst (λ k. Ordered 0 l.last_value l.generation (window l.frames l.head k)) c v.ordered));
  counted = λ f. ground (arith, v.counted f);
  cleared = λ f dead. ground (arith, v.cleared f, v.head_lt, v.count_le);
  fresh = v.fresh;
  distinct = v.distinct;
  next_pos = v.next_pos;
}
  where
    behind :
        (g hi : ℕ)
        → Ordered 0 hi g (window l.frames l.head (suc n))
        → Ordered 0 hi g (window l.frames (suc l.head) n)
    behind g hi o =
        Ordered-mono (l.frames (l.head % 16)).frame.ready_value 0 hi g
          (window l.frames (suc l.head) n) (omega arith) o.4

-- A property that popping a frame without readers keeps holds behind the loop of retired().
pub drop_retired-keeps {ℓ} :
    (P : Ledger → Type ℓ)
    → ((l : Ledger) (n : ℕ) → P l → l.count ≡ suc n → (l.frames l.head).readers ≡ 0 → P (pop l))
    → (n v : ℕ) (l : Ledger) → l.count ≡ n
    → P l
    → P (drop_retired n v l)
unfolding drop_retired
drop_retired-keeps P keep zero v l c h = h
drop_retired-keeps P keep (suc n) v l c h =
    elim (Bool-cases
      (truthy (l.frames l.head).readers || ltb v (l.frames l.head).frame.ready_value)) [
        | inl stop ↦ rw stop h
        | inr go ↦ rw go (
            drop_retired-keeps P keep n v (pop l) (omega (arith, c))
              (keep l n h c (no_readers (l.frames l.head).readers _ go)))
      ]
  where
    no_readers : (n : ℕ) (b : Bool) → (truthy n || b) ≡ false → n ≡ 0
    no_readers n b e = ground arith

pub retired-Inv : (l : Ledger) (r : Retirement) → Inv l → Inv (retired l r).0
unfolding retired
retired-Inv l r v = ground (arith, drop_retired-keeps Inv pop-Inv l.count r.value l refl v)

pub reset_epoch-Inv : (l : Ledger) → Inv l → Inv (reset_epoch l)
unfolding reset_epoch
reset_epoch-Inv l v = elim (Bool-cases (l.count == 0)) [
  | inl e ↦ rw (e, reset_epoch) (emptied (==_zero l.count e))
  | inr e ↦ rw (e, reset_epoch) v
]
  where
    ==_zero : (n : ℕ) → (n == 0) ≡ true → n ≡ 0
    ==_zero n e = ground arith

    emptied : l.count ≡ 0 → Inv (record l { generation = 0; last_value = 0 })
    emptied e = record {
      head_lt = v.head_lt;
      count_le = v.count_le;
      ordered = subst (λ k. Ordered 0 0 0 (window l.frames l.head k)) (sym e) tt;
      counted = v.counted;
      cleared = v.cleared;
      fresh = v.fresh;
      distinct = v.distinct;
      next_pos = v.next_pos;
    }

-- The counter after n draws.
drawn : ℕ → ℕ → ℕ
drawn zero k = k
drawn (suc n) k = drawn n (draw_token k).1

le-drawn : (n k : ℕ) → k ≤ drawn n k
unfolding drawn draw_token
le-drawn zero k = omega arith
le-drawn (suc n) k = ground (arith, le-drawn n (draw_token k).1)

-- The calls of one ledger. `draws n` stands for n tokens drawn by the other ledgers.
pub data Call : Type 0 where
  acquires : ℕ → Frame → Call
  retains completes defers finishes draws : ℕ → Call
  retires : Retirement → Call
  resets : Call

unfoldable pub step : Ledger → Call → Ledger
unfolding drawn
step l (acquires g frame) = (acquire l g frame).0
step l (retains t) = (retain l t).0
step l (completes t) = (complete l t).0
step l (defers t) = (defer l t).0
step l (finishes t) = (finish_deferred l t).0
step l (draws n) = record l { next_token = drawn n l.next_token }
step l (retires r) = (retired l r).0
step l resets = reset_epoch l

unfoldable pub run : Ledger → List Call → Ledger
unfolding step
run l [] = l
run l (c ∷ cs) = run (step l c) cs

pub step-Inv : (l : Ledger) (c : Call) → Inv l → Inv (step l c)
unfolding step
step-Inv l (acquires g frame) v = acquire-Inv l g frame v
step-Inv l (retains t) v = retain-Inv l t v
step-Inv l (completes t) v = complete-Inv l t v
step-Inv l (defers t) v = defer-Inv l t v
step-Inv l (finishes t) v = finish_deferred-Inv l t v
step-Inv l (draws n) v = record {
  head_lt = v.head_lt;
  count_le = v.count_le;
  ordered = v.ordered;
  counted = v.counted;
  cleared = v.cleared;
  fresh =
      Below-mono l.next_token (drawn n l.next_token) l.readers (le-drawn n l.next_token) v.fresh;
  distinct = v.distinct;
  next_pos = omega (arith, v.next_pos, le-drawn n l.next_token);
}
step-Inv l (retires r) v = retired-Inv l r v
step-Inv l resets v = reset_epoch-Inv l v

run-Inv : (l : Ledger) (cs : List Call) → Inv l → Inv (run l cs)
unfolding run
run-Inv l [] v = v
run-Inv l (c ∷ cs) v = run-Inv (step l c) cs (step-Inv l c v)

no_owners : (n f : ℕ) → owners f (replicate n no_reader) ≡ 0
no_owners zero f = refl
no_owners (suc n) f = omega (arith, no_owners n f)

none-Below : (n k : ℕ) → 0 < k → Below k (replicate n no_reader)
none-Below zero k h = tt
none-Below (suc n) k h = (h, none-Below n k h)

none-Distinct : (n : ℕ) → Distinct (replicate n no_reader)
none-Distinct zero = tt
none-Distinct (suc n) = ((λ e. cc), none-Distinct n)

pub new-Inv : (next : ℕ) → 0 < next → Inv (new next)
unfolding new
new-Inv next h = record {
  head_lt = omega arith;
  count_le = omega arith;
  ordered = tt;
  counted = no_owners max_readers;
  cleared = λ f _. refl;
  fresh = none-Below max_readers next h;
  distinct = none-Distinct max_readers;
  next_pos = h;
}

-- After any history of a new ledger whose token counter starts above 0, the retained frames are of
-- one generation, in distinct slots and with rising ready values, every frame's reader count is
-- the number of tokens that own it, frames that are not retained have no reader, and the tokens in
-- use are distinct and were all drawn.
pub run-new-Inv : (next : ℕ) (cs : List Call) → 0 < next → Inv (run (new next) cs)
run-new-Inv next cs h = run-Inv (new next) cs (new-Inv next h)
