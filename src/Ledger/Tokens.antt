-- ===== src/Ledger/Tokens.antt =====
-- What a reader token stands for in src/fl_read_ledger.hpp, from the call that hands it out to the
-- one that takes it back.
use framelink.Base.{
  ℕ, ◌+◌, ◌<◌, ◌≡◌, ◌≢◌, refl, sym, ap, ◌∙◌, Bool, true, false, Option, none, some, List, [], ◌∷◌,
  ==_ne, ==_refl, arith, Option-cases, inl, inr,
}
use framelink.Api.{Frame, FlResult, ok, invalid, busy, internal}
use framelink.Ledger.{
  Entry, Reader, Ledger, no_reader, find_in, find, place, write_at, get, acquire, complete, finish,
  opened, close_acquire, refusal, tail, update, more_readers, fewer_readers,
}
use framelink.Ledger.Owners.{Below, Distinct, Lacks}
use framelink.Ledger.Invariant.{Inv}
use framelink.Ledger.Invariant.Methods.{find-live, Added, add_reader_cases}
use framelink.Ledger.Invariant.Acquire.{refusal-none}

-- The fresh token is found, and no other search changes.
find_in-place :
    (n f : ℕ) (rs rs' : List Reader)
    → n ≢ 0
    → Below n rs
    → place (record { token = n; frame = f; pending = false }) rs ≡ some rs'
    → find_in n false rs' ≡ some (record { token = n; frame = f; pending = false })
unfolding find_in place
find_in-place n f [] rs' nz b e = cc
find_in-place n f (x ∷ rs) [] nz b e = ground arith
find_in-place n f (x ∷ rs) (y ∷ rs') nz b e = ground (arith, find_in-place n f rs rs' nz b.1)

find_in-place_other :
    (n f t : ℕ) (p : Bool) (rs rs' : List Reader)
    → t ≢ n
    → t ≢ 0
    → place (record { token = n; frame = f; pending = false }) rs ≡ some rs'
    → find_in t p rs' ≡ find_in t p rs
unfolding find_in place
find_in-place_other n f t p [] rs' ne nz e = cc
find_in-place_other n f t p (x ∷ rs) [] ne nz e = ground arith
find_in-place_other n f t p (x ∷ rs) (y ∷ rs') ne nz e =
    ground (arith, find_in-place_other n f t p rs rs' ne nz)

-- A freed token is not found again in any state.
find_in-Lacks :
    (t u : ℕ) (p : Bool) (rs : List Reader) → t ≢ 0 → t ≡ u → Lacks u rs → find_in t p rs ≡ none
unfolding find_in
find_in-Lacks t u p [] nz e l = refl
find_in-Lacks t u p (x ∷ rs) nz e l = ground (arith, find_in-Lacks t u p rs nz e l.1)

find_in-free :
    (t : ℕ) (p q : Bool) (rs : List Reader) (r : Reader)
    → t ≢ 0
    → Distinct rs
    → find_in t p rs ≡ some r
    → find_in t q (write_at t p no_reader rs) ≡ none
unfolding find_in write_at
find_in-free t p q [] r nz d h = cc
find_in-free t p q (x ∷ rs) r nz d h = ground (
  arith,
  find_in-free t p q rs r nz d.1,
  find_in-Lacks t x.token q rs nz,
  find_in-Lacks t x.token p rs nz,
)

find_in-free_other :
    (t u : ℕ) (p q : Bool) (rs : List Reader)
    → u ≢ t
    → u ≢ 0
    → find_in u q (write_at t p no_reader rs) ≡ find_in u q rs
unfolding find_in write_at
find_in-free_other t u p q [] ne nz = refl
find_in-free_other t u p q (x ∷ rs) ne nz = ground (arith, find_in-free_other t u p q rs ne nz)

find_in-mark :
    (t : ℕ) (rs : List Reader) (r : Reader)
    → t ≢ 0
    → Distinct rs
    → find_in t false rs ≡ some r
    → (find_in t true (write_at t false (record r { pending = true }) rs)
        ≡ some (record r { pending = true }))
      × (find_in t false (write_at t false (record r { pending = true }) rs) ≡ none)
unfolding find_in write_at
find_in-mark t [] r nz d h = cc
find_in-mark t (x ∷ rs) r nz d h = ground (
  arith,
  find_in-mark t rs r nz d.1,
  find_in-Lacks t x.token false rs nz,
  find_in-Lacks t x.token true rs nz,
)

find_of : (t : ℕ) (p : Bool) (rs : List Reader) → t ≢ 0 → find t p rs ≡ find_in t p rs
unfolding find
find_of t p rs nz = rw (==_ne t 0 nz) refl

find_pos : (t : ℕ) (p : Bool) (rs : List Reader) (r : Reader) → find t p rs ≡ some r → t ≢ 0
unfolding find
find_pos t p rs r h = ground arith

find-place_other :
    (n f t : ℕ) (p : Bool) (rs rs' : List Reader)
    → t ≢ n
    → place (record { token = n; frame = f; pending = false }) rs ≡ some rs'
    → find t p rs' ≡ find t p rs
unfolding find
find-place_other n f t p rs rs' ne h = ground (arith, find_in-place_other n f t p rs rs' ne)

find-free_other :
    (t u : ℕ) (p q : Bool) (rs : List Reader)
    → u ≢ t
    → find u q (write_at t p no_reader rs) ≡ find u q rs
unfolding find
find-free_other t u p q rs ne = ground (arith, find_in-free_other t u p q rs ne)

-- What get() reads of two ledgers that find the same entry, with the same frame in its place.
get_same :
    (l m : Ledger) (t : ℕ)
    → find t false m.readers ≡ find t false l.readers
    → ((r : Reader)
        → find t false l.readers ≡ some r
        → ((m.frames r.frame).frame ≡ (l.frames r.frame).frame)
          × ((m.frames r.frame).generation ≡ (l.frames r.frame).generation))
    → get m t ≡ get l t
unfolding get
get_same l m t e same_frame = elim (Option-cases (find t false l.readers)) [
  | inl h ↦ rw (e, h, get) refl
  | inr (r, h) ↦ rw (e, h, get) (ground (arith, same_frame r h))
]

get_found :
    (l : Ledger) (t : ℕ) (r : Reader)
    → find t false l.readers ≡ some r
    → get l t ≡ some ((l.frames r.frame).frame, (l.frames r.frame).generation)
unfolding get
get_found l t r h = rw (h, get) refl

get_missing : (l : Ledger) (t : ℕ) → find t false l.readers ≡ none → get l t ≡ none
unfolding get
get_missing l t h = rw (h, get) refl

finish_found :
    (p : Bool) (l : Ledger) (t : ℕ) (r : Reader)
    → find t p l.readers ≡ some r
    → finish p l t ≡ (
      record l {
        frames = update l.frames r.frame (fewer_readers (l.frames r.frame));
        readers = write_at t p no_reader l.readers;
      },
      ok,
    )
unfolding finish
finish_found p l t r h = rw (h, finish) refl

finish_missing :
    (p : Bool) (l : Ledger) (t : ℕ) → find t p l.readers ≡ none → finish p l t ≡ (l, invalid)
unfolding finish
finish_missing p l t h = rw (h, finish) refl

freed_once :
    (l : Ledger) (t : ℕ) (r : Reader) (q : Bool)
    → Inv l
    → find t false l.readers ≡ some r
    → find t q (write_at t false no_reader l.readers) ≡ none
freed_once l t r q v h =
    let nz = find_pos t false l.readers r h in
    find_of t q (write_at t false no_reader l.readers) nz
    ∙ find_in-free t false q l.readers r nz v.distinct (sym (find_of t false l.readers nz) ∙ h)

completed :
    (l : Ledger) (t : ℕ) (r : Reader)
    → Inv l
    → find t false l.readers ≡ some r
    → ((complete l t).1 ≡ ok)
      × (get (complete l t).0 t ≡ none)
      × ((complete (complete l t).0 t).1 ≡ invalid)
      × ((u : ℕ) → u ≢ t → get (complete l t).0 u ≡ get l u)
unfolding complete
completed l t r v h =
    let gone = freed_once l t r false v h in
    rw (finish_found false l t r h)
      (refl, get_missing _ t gone, ap (λ o. o.1) (finish_missing false _ t gone), others)
  where
    others :
        (u : ℕ)
        → u ≢ t
        → get
            (record l {
              frames = update l.frames r.frame (fewer_readers (l.frames r.frame));
              readers = write_at t false no_reader l.readers;
            })
            u
          ≡ get l u
    others u ne =
        get_same l _ u (find-free_other t u false false l.readers ne) (λ s _. ground arith)

refusal-not_ok : (l : Ledger) (g : ℕ) (frame : Frame) → refusal l g frame ≢ some ok
unfolding refusal
refusal-not_ok l g frame = ground arith

module _ (l : Ledger) (g : ℕ) (frame : Frame) (v : Inv l) where
  -- What acquire() answers when it lets a frame in.
  Granted : Ledger × FlResult × Option ℕ → Type 0
  Granted o =
      o.1 ≡ ok
      → (o.2 ≡ some l.next_token)
        × (get o.0 l.next_token ≡ some (frame, g))
        × ((u : ℕ) → u ≢ l.next_token → get o.0 u ≡ get l u)

  granted :
      l.count < 16
      → (rs : List Reader) → Added (opened l g frame) (tail l) rs
      → Granted (
        record l {
          frames =
              update
                (opened l g frame).frames
                (tail l)
                (more_readers ((opened l g frame).frames (tail l)));
          readers = rs;
          next_token = l.next_token + 1;
          generation = g;
          last_value = frame.ready_value;
          count = l.count + 1;
        },
        ok,
        some l.next_token,
      )
  unfolding Granted
  granted room rs added _ = (refl, mine, others)
    where
      fs : ℕ → Entry
      fs =
          update (opened l g frame).frames (tail l)
            (more_readers ((opened l g frame).frames (tail l)))

      m : Ledger
      m = record l {
        frames = fs;
        readers = rs;
        next_token = l.next_token + 1;
        generation = g;
        last_value = frame.ready_value;
        count = l.count + 1;
      }

      nz : l.next_token ≢ 0
      nz e = omega (arith, v.next_pos, e)

      mine : get m l.next_token ≡ some (frame, g)
      mine =
          get_found m l.next_token _ (
            find_of l.next_token false rs nz
            ∙ find_in-place l.next_token (tail l) l.readers rs nz v.fresh added.placed)
          ∙ rw (==_refl (tail l)) refl

      others : (u : ℕ) → u ≢ l.next_token → get m u ≡ get l u
      others u ne =
          get_same l m u
            (find-place_other l.next_token (tail l) u false l.readers rs ne added.placed)
            (λ r h. ground (arith, find-live l u false r v h, v.head_lt, room))

  not-Granted : (k : Ledger) (r : FlResult) (o : Option ℕ) → r ≢ ok → Granted (k, r, o)
  unfolding Granted
  not-Granted k r o ne e = absurd (ne e)

acquired :
    (l : Ledger) (g : ℕ) (frame : Frame)
    → Inv l
    → (acquire l g frame).1 ≡ ok
    → ((acquire l g frame).2 ≡ some l.next_token)
      × (get (acquire l g frame).0 l.next_token ≡ some (frame, g))
      × ((u : ℕ) → u ≢ l.next_token → get (acquire l g frame).0 u ≡ get l u)
unfolding Granted acquire
acquired l g frame v = elim (Option-cases (refusal l g frame)) [
  | inr (r, e) ↦ rw (e, acquire) (λ is_ok. absurd (refusal-not_ok l g frame (e ∙ ap some is_ok)))
  | inl e ↦
      let a = refusal-none l g frame v.count_le e in
      rw (e, acquire)
        (add_reader_cases (λ o. Granted l g frame v (close_acquire (tail l) g frame o))
          (opened l g frame) (tail l) v.next_pos v.fresh v.distinct
          (not-Granted l g frame v _ busy none (λ q. cc q))
          (not-Granted l g frame v _ internal none (λ q. cc q)) (granted l g frame v a.room))
]

-- In a ledger with the invariant, a frame that acquire() lets in is read under the fresh token
-- that it hands out, with the generation given, and every other token reads what it read before.
pub acquire-get :
    (l : Ledger) (g u : ℕ) (frame : Frame)
    → Inv l
    → (acquire l g frame).1 ≡ ok
    → u ≢ l.next_token
    → ((acquire l g frame).2 ≡ some l.next_token)
      × (get (acquire l g frame).0 l.next_token ≡ some (frame, g))
      × (get (acquire l g frame).0 u ≡ get l u)
acquire-get l g u frame v is_ok other =
    let (token, read, others) = acquired l g frame v is_ok in (token, read, others u other)

-- In a ledger with the invariant a token is completed once: the completion of a live token
-- succeeds, behind it the token reads nothing and a second completion is invalid, and every other
-- token reads what it read before.
pub complete_once :
    (l : Ledger) (t u : ℕ) (r : Reader)
    → Inv l
    → find t false l.readers ≡ some r
    → u ≢ t
    → ((complete l t).1 ≡ ok)
      × (get (complete l t).0 t ≡ none)
      × ((complete (complete l t).0 t).1 ≡ invalid)
      × (get (complete l t).0 u ≡ get l u)
complete_once l t u r v found other =
    let (done, gone, again, others) = completed l t r v found in (done, gone, again, others u other)
