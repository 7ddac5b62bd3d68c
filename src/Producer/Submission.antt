-- ===== src/Producer/Submission.antt =====
-- flSubmit of src/framelink_linux.cpp: a submitted frame has a fresh value, and its slot is the
-- consumer's.
use framelink.Base.{
  ℕ, ◌+◌, ◌-◌, ◌≤◌, ◌<◌, ◌≡◌, refl, sym, subst, Bool, true, not, ◌&&◌, some, ltb, ◌==◌, length, set,
  get_or-set_self, arith,
}
use framelink.Base.Int.{ℤ}
use framelink.Api.{ok, u64_max}
use framelink.Producer.{
  Producer, Buffer, is_reservation, begin_submit, end_submit, submit, no_slot, requires_metadata,
  metadata_of,
}
use framelink.Metadata.{frame_message}
use framelink.Producer.Submitted.{IsSubmitted, AreBelow}

-- The checks of flBeginSubmit behind that of the buffer.
abbrev pub may_begin : Producer → Buffer → Bool
may_begin p b =
    p.connected
    && p.submitting_value == 0
    && not (requires_metadata p.peer_features && (metadata_of p b).version == 0)
    && ltb p.ready_value (u64_max - 1)

begin_submit_passed :
    (p : Producer) (b : Buffer)
    → is_reservation p b ≡ true
    → may_begin p b ≡ true
    → begin_submit p b ≡ (
      record p {
        submitting_slot = b.slot;
        submitting_value = p.ready_value + 1;
        ready_value = p.ready_value + 1;
      },
      ok,
      some (p.ready_value + 1),
    )
unfolding begin_submit
begin_submit_passed p b reserved may = ground (arith, reserved, may)

end_submit_passed :
    (p : Producer) (b : Buffer) (value : ℕ) (pts : ℤ)
    → is_reservation p b ≡ true
    → p.connected ≡ true
    → value ≡ p.submitting_value
    → b.slot ≡ p.submitting_slot
    → 0 < value
    → end_submit true p b value pts ≡ (
      record p {
        submit_values = set p.submit_values b.slot value;
        submitting_value = 0;
        submitting_slot = no_slot;
      },
      ok,
      some
          (frame_message (record { slot = b.slot; value = value; pts_ns = pts }) (metadata_of p b)),
    )
unfolding end_submit
end_submit_passed p b value pts reserved up same slot positive =
    ground (arith, reserved, up, same, slot, positive)

-- A reserved buffer that may be submitted, on a link that takes the message, is announced under
-- the next value, its slot then belongs to the consumer under that value, and the next submission
-- may begin. The values that were consumed or wait to be are at most the last one.
pub submit-IsSubmitted :
    (p : Producer) (b : Buffer) (pts : ℤ)
    → is_reservation p b ≡ true
    → may_begin p b ≡ true
    → length p.submit_values ≡ length p.images
    → p.consumed ≤ p.ready_value
    → AreBelow (p.ready_value + 1) p.releases
    → ((submit true p b pts).1 ≡ ok)
      × ((submit true p b pts).2
          ≡ some (
              frame_message
                (record { slot = b.slot; value = p.ready_value + 1; pts_ns = pts })
                (metadata_of p b)))
      × IsSubmitted (submit true p b pts).0 b.slot (p.ready_value + 1)
      × ((submit true p b pts).0.submitting_value ≡ 0)
unfolding submit is_reservation
submit-IsSubmitted p b pts reserved may sized consumed waiting =
    rw (begin_submit_passed p b reserved may) (
      rw (end_submit_passed begun b (p.ready_value + 1) pts reserved up refl refl (omega arith)) (
        refl,
        refl,
        record {
          value =
              get_or-set_self p.submit_values b.slot (p.ready_value + 1) 0
                (subst (λ n. b.slot < n) (sym sized) inside);
          unconsumed = omega (arith, consumed);
          waiting = waiting;
          published = room;
        },
        refl,
      ))
  where
    begun : Producer
    begun = record p {
      submitting_slot = b.slot;
      submitting_value = p.ready_value + 1;
      ready_value = p.ready_value + 1;
    }

    up : p.connected ≡ true
    up = ground (arith, may)

    room : p.ready_value + 1 < u64_max
    room = ground (arith, may)

    inside : b.slot < length p.images
    inside = ground (arith, reserved)
