-- ===== src/System/Start.antt =====
-- Where the two halves of a channel of src/framelink_linux.cpp begin to agree: a producer that attaches and adopts the
-- ring that the consumer hands over.
use framelink.Base.{
  ℕ, suc, ◌<◌, ◌≡◌, refl, sym, ap, subst, ◌∙◌, Bool, true, false, not, ◌||◌, Option, none, some,
  List, [], ◌∷◌, if◌then◌else◌, length, length-replicate, arith, ◌+◌, ◌%◌, replicate,
}
use framelink.Api.{FlResult, ok}
use framelink.Ledger.{Ledger, empty, reset_epoch}
use framelink.Ledger.Invariant.{Inv, live}
use framelink.Ledger.Invariant.Runs.{reset_epoch-Inv}
use framelink.Ring.{RingDesc, RingInfo, Dmabuf, adopted_ring}
use framelink.Producer.{Producer, fence_ready}
use framelink.Producer.Attach.{
  new_images, with_ring, adopt_into, import_ring, new_producer, opened_with, receive_ring,
  ring_description,
}
use framelink.Consumer.{
  Consumer, Welcome, no_answer, busy_answer, ring_sent, in_use, attach, with_retired, new_timeline,
}
use framelink.Consumer.Timeline.{Timeline, newest}
use framelink.System.Invariant.{Agree, Counts, next_value}

length-new_images :
    (fresh : ℕ → ℕ) (i : ℕ) (ds : List Dmabuf) → length (new_images fresh i ds) ≡ length ds
unfolding new_images
length-new_images fresh i [] = refl
length-new_images fresh i (d ∷ ds) = ap suc (length-new_images fresh (suc i) ds)

-- A producer that has submitted nothing and received nothing.
pub record IsNew (p : Producer) : Type 0 where
  pub ready_value : p.ready_value ≡ 0
  pub consumed : p.consumed ≡ 0
  pub submitting : p.submitting_value ≡ 0
  pub releases : p.releases ≡ []
  pub submit_values : p.submit_values ≡ replicate (length p.images) 0
  pub connected : p.connected ≡ true

with_ring-Counts :
    (fresh : ℕ → ℕ) (next features : ℕ) (x : RingInfo × List Dmabuf)
    → Counts (with_ring fresh (new_producer next features) x)
      × IsNew (with_ring fresh (new_producer next features) x)
unfolding new_producer
with_ring-Counts fresh next features (info, ds) = (
  record {
    begun = omega arith;
    publishable = omega arith;
    consumed = omega arith;
    waiting = tt;
    sized = length-replicate (length ds) 0 ∙ sym (length-new_images fresh 0 ds);
  },
  record {
    ready_value = refl;
    consumed = refl;
    submitting = refl;
    releases = refl;
    submit_values = ap (λ n. replicate n 0) (sym (length-new_images fresh 0 ds));
    connected = refl;
  },
)

-- What holds of a channel that was opened.
abbrev Opens : (Producer → Type 0) → FlResult × Option Producer → Type 0
Opens P (r, none) = Unit
Opens P (r, some p) = P p

receive_ring-Counts :
    (fresh : ℕ → ℕ) (next features : ℕ) (rd : RingDesc) (fds : List ℕ)
    → Opens
        (λ q. Counts q × IsNew q)
        (receive_ring fresh (new_producer next features) (some (ring_description rd, fds)))
unfolding receive_ring import_ring
receive_ring-Counts fresh next features rd fds = opened (adopted_ring rd fds)
  where
    opened :
        (o : Option (RingInfo × List Dmabuf))
        → Opens
            (λ q. Counts q × IsNew q)
            (opened_with (adopt_into fresh (new_producer next features) o))
    opened none = tt
    opened (some x) = with_ring-Counts fresh next features x

-- A consumer that has no frame and waits for none, on a new generation of the ring of another one.
pub record HasNone (c d : Consumer) : Type 0 where
  pub timeline : Timeline d
  pub no_pending : d.has_pending ≡ false
  pub none_held : d.frame_held ≡ false
  pub none_leased : (f : ℕ) → (d.readers.frames f).readers ≡ 0
  pub no_value : d.held_ready ≡ 0
  pub none_retired : d.retired ≡ 0
  pub no_releases : d.releases ≡ []
  pub no_pending_fd : d.pending_fd ≡ none
  pub no_held_fd : d.held_fd ≡ none
  pub generation : d.info.generation ≡ (c.info.generation + 1) % 18446744073709551616
  pub images : d.images ≡ c.images
  pub dmabufs : d.dmabufs ≡ c.dmabufs
  pub connected : d.peer_connected ≡ true
  pub present : d.peer_gone ≡ false

reset_last : (l : Ledger) → empty l ≡ true → (reset_epoch l).last_value ≡ 0
unfolding reset_epoch
reset_last l e = rw e refl

reset_frames : (l : Ledger) (f : ℕ) → ((reset_epoch l).frames f).readers ≡ (l.frames f).readers
unfolding reset_epoch
reset_frames l f = ground arith

free_readers : (c : Consumer) (b : Bool) → (in_use c || not b) ≡ false → empty c.readers ≡ true
unfolding in_use
free_readers c b h = ground (arith, h)

free_frame : (c : Consumer) (b : Bool) → (in_use c || not b) ≡ false → c.frame_held ≡ false
unfolding in_use
free_frame c b h = ground (arith, h)

-- What attach() makes of the consumer where it hands the ring over.
abbrev Attaches : Consumer → Consumer × Welcome → Type 0
Attaches c (d, no_answer) = Unit
Attaches c (d, busy_answer) = Unit
Attaches c (d, ring_sent message) = HasNone c d

Attaches-if :
    (c : Consumer) (b : Bool) (x y : Consumer × Welcome)
    → Attaches c x
    → (b ≡ false → Attaches c y)
    → Attaches c (if b then x else y)
Attaches-if c true x y h k = h
Attaches-if c false x y h k = k refl

new_timeline-HasNone :
    (b c : Consumer) (features : ℕ)
    → Inv c.readers
    → empty c.readers ≡ true
    → c.frame_held ≡ false
    → c.info ≡ b.info
    → c.images ≡ b.images
    → c.dmabufs ≡ b.dmabufs
    → HasNone b (record (new_timeline features c) { peer_connected = true; peer_gone = false })
new_timeline-HasNone b c features v none_leased none_held same images dmabufs = record {
  timeline = record {
    inv = reset_epoch-Inv c.readers v;
    last = omega (arith, reset_last c.readers none_leased);
    last_held = λ h. cc (h, none_held);
    pending = λ h. cc h;
  };
  no_pending = refl;
  none_held = none_held;
  none_leased = λ f. reset_readers f (v.cleared f (dead f));
  no_value = refl;
  none_retired = refl;
  no_releases = refl;
  no_pending_fd = refl;
  no_held_fd = refl;
  generation = ap (λ (i : RingInfo). (i.generation + 1) % 18446744073709551616) same;
  images = images;
  dmabufs = dmabufs;
  connected = refl;
  present = refl;
}
  where
    dead : (f : ℕ) → live c.readers.head c.readers.count f ≡ false
    dead f = ground (arith, none_leased)

    reset_readers :
        (f : ℕ) → (c.readers.frames f).readers ≡ 0 → ((reset_epoch c.readers).frames f).readers ≡ 0
    reset_readers f z = reset_frames c.readers f ∙ z

attach-HasNone :
    (ready : ℕ → Bool) (c : Consumer) (features : ℕ)
    → Inv c.readers
    → Attaches c (attach ready true c features)
unfolding attach
attach-HasNone ready c features v =
    Attaches-if c (in_use (with_retired ready c) || not (fence_ready ready c.pending_fd))
      (with_retired ready c, busy_answer) _ tt
      (λ idle.
        new_timeline-HasNone c (with_retired ready c) features v
          (free_readers (with_retired ready c) (fence_ready ready c.pending_fd) idle)
          (free_frame (with_retired ready c) (fence_ready ready c.pending_fd) idle) refl refl refl)

-- Where a consumer, whose ledger is well-formed, hands its ring to a producer that attaches, and
-- the producer adopts it, the consumer has no frame pending, held or leased, waits for no release,
-- has begun its values anew, keeps its images, and is in its next generation (modulo 2^64). The
-- producer has published and received nothing, and with no frame and no value under way yet, the
-- two agree.
pub attach-Agree :
    (ready : ℕ → Bool) (c d : Consumer) (message : RingDesc × List ℕ) (fresh : ℕ → ℕ)
    (next features : ℕ) (p : Producer)
    → Inv c.readers
    → attach ready true c features ≡ (d, ring_sent message)
    → receive_ring fresh (new_producer next features) (some (ring_description message.0, message.1))
      ≡ (ok, some p)
    → HasNone c d × IsNew p × Agree (record { producer = p; consumer = d; queue = []; told = [] })
attach-Agree ready c d message fresh next features p v attached opened =
    let n : HasNone c d = subst (Attaches c) attached (attach-HasNone ready c features v) in
    let (counts, new) : Counts p × IsNew p =
      subst (Opens (λ q. Counts q × IsNew q)) opened
        (receive_ring-Counts fresh next features message.0 message.1) in
    (
      n,
      new,
      record {
        counts = counts;
        timeline = n.timeline;
        below = tt;
        rising = first_value n counts;
        queued = tt;
        owned = record {
          pending = λ h. cc (h, n.no_pending);
          held = λ h. cc (h, n.none_held);
          leased = λ f h. absurd (omega (arith, h, n.none_leased f));
        };
      },
    )
  where
    first_value : HasNone c d → Counts p → newest d < next_value p
    first_value n counts =
        let none_there = n.no_pending in
        let zero_value = n.no_value in
        let above = counts.consumed in ground (arith, none_there, zero_value, above)
