-- ===== src/Examples/Rings.antt =====
-- A ring of two slots of a producer of src/framelink_linux.cpp, and references of
-- src/fl_buffer_refs.hpp.
use framelink.Base.{ℕ, ◌≡◌, ◌≢◌, ◌≤◌, refl, true, false, none, some, List, [], ◌∷◌, arith}
use framelink.Base.Int.{pos}
use framelink.Api.{ok, u64_max}
use framelink.References.{no_references, is_busy, max_references}
use framelink.References.Counts.{
  ReferenceCall, retains, releases, reference_run, reference_run-counts, held, in_use,
}
use framelink.Metadata.{no_metadata, frame_message}
use framelink.Producer.{
  Producer, Buffer, Round, frame_released, no_slot, take_free, first_free, reserve, acquire_buffer,
  acquire_loop, apply_release, advance, drain, is_reservation, submit,
}
use framelink.Producer.Submitted.{IsSubmitted}
use framelink.Producer.Ownership.{act_all, acquire_buffer-act_all}
use framelink.Producer.Rounds.{take_free-apply_release}
use framelink.Producer.Submission.{submit-IsSubmitted}

abbrev calls : List ReferenceCall
calls = retains 3 ∷ retains 3 ∷ releases 1 ∷ []

reference_run-counts_example :
    ((reference_run (no_references 1) calls).counts 3
      ≡ held 3 (reference_run (no_references 1) calls).entries)
    × ((reference_run (no_references 1) calls).total
        ≡ in_use (reference_run (no_references 1) calls).entries)
    × ((reference_run (no_references 1) calls).total ≤ max_references)
reference_run-counts_example = reference_run-counts 1 3 calls (omega arith)

-- Slot 0 was submitted under the value 1, slot 1 is reserved.
abbrev ring : Producer
ring = record {
  info = record { width = 64; height = 32; format = 1; generation = 1 };
  dmabufs = [];
  images = 70 ∷ 71 ∷ [];
  submit_values = 1 ∷ u64_max ∷ [];
  consumed = 0;
  ready_value = 1;
  submitting_slot = no_slot;
  submitting_value = 0;
  releases = [];
  references = no_references 1;
  slot_metadata = no_metadata ∷ no_metadata ∷ [];
  peer_features = 1;
  connected = true;
}

abbrev spare : Producer
spare = record ring { submit_values = 1 ∷ 0 ∷ [] }

abbrev quiet : ℕ → Round
quiet _ = record { received = []; connected = true; ready = λ _. false }

abbrev second : Buffer
second = record { slot = 1; image = 71 }

abbrev spare_taken : Producer
spare_taken = (reserve spare 1).0

spare_grants : take_free spare ≡ some (spare_taken, ok, some second)
unfolding take_free first_free is_busy no_references
spare_grants = refl

spare_acquires : acquire_buffer 3 2 quiet (act_all spare []) ≡ some (spare_taken, ok, some second)
unfolding acquire_buffer acquire_loop take_free first_free is_busy no_references drain advance
    act_all
spare_acquires = refl

spare-IsSubmitted : IsSubmitted spare 0 1
spare-IsSubmitted = record {
  value = refl;
  unconsumed = omega arith;
  waiting = tt;
  published = omega arith;
}

acquire_buffer-act_all_example : second.slot ≢ 0
acquire_buffer-act_all_example =
    acquire_buffer-act_all spare spare_taken [] 0 1 3 2 quiet second spare-IsSubmitted tt (λ _. tt)
      spare_acquires

unreferenced : is_busy ring.references 0 ≡ false
unfolding is_busy no_references
unreferenced = refl

take_free-apply_release_example :
    take_free (apply_release (λ _. false) ring (frame_released (record { value = 1; fd = none })))
    ≢ none
take_free-apply_release_example =
    take_free-apply_release (λ _. false) ring 1 0 refl (omega arith) (omega arith) unreferenced

reserved_second : is_reservation ring second ≡ true
unfolding is_reservation
reserved_second = refl

submit-IsSubmitted_example :
    ((submit true ring second (pos 9)).1 ≡ ok)
    × ((submit true ring second (pos 9)).2
        ≡ some (frame_message (record { slot = 1; value = 2; pts_ns = pos 9 }) no_metadata))
    × IsSubmitted (submit true ring second (pos 9)).0 1 2
    × ((submit true ring second (pos 9)).0.submitting_value ≡ 0)
submit-IsSubmitted_example =
    submit-IsSubmitted ring second (pos 9) reserved_second refl refl (omega arith) tt
