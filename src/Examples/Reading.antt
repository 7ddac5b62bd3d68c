-- ===== src/Examples/Reading.antt =====
-- A short history of a reader ledger of src/fl_read_ledger.hpp.
use framelink.Base.{
  ℕ, ◌≡◌, ◌<◌, ◌≢◌, refl, false, none, some, List, [], ◌∷◌, arith, if◌then◌else◌, ◌==◌,
}
use framelink.Base.Int.{pos}
use framelink.Api.{Frame, ok, invalid}
use framelink.Ledger.{
  Ledger, Reader, new, find, acquire, add_reader, draw_token, place, holds_slot, complete, get,
  retirement, retired, write_at,
}
use framelink.Ledger.Window.{entries}
use framelink.Ledger.Invariant.{Inv}
use framelink.Ledger.Invariant.Runs.{Call, acquires, completes, run, run-new-Inv}
use framelink.Ledger.Retire.{retirement-lt-reader, entries-retired, drop_idle}
use framelink.Ledger.Tokens.{complete_once}

abbrev frame_at : ℕ → ℕ → Frame
frame_at slot value = record {
  slot = slot;
  image = 7;
  pts_ns = pos 0;
  sequence = value;
  ready_value = value;
}

-- Two frames, of which the first one is completed and the second one is still read.
abbrev history : List Call
history = acquires 3 (frame_at 2 5) ∷ acquires 3 (frame_at 4 6) ∷ completes 1 ∷ []

abbrev half_read : Ledger
half_read = run (new 1) history

half_read-Inv : Inv half_read
half_read-Inv = run-new-Inv 1 history (omega arith)

second_reader : Reader
second_reader = record { token = 2; frame = 1; pending = false }

found_second : find 2 false half_read.readers ≡ some second_reader
unfolding find new run acquire add_reader draw_token place holds_slot complete second_reader
    write_at
found_second = refl

third_ok : (acquire half_read 3 (frame_at 5 7)).1 ≡ ok
unfolding find new run acquire add_reader draw_token place holds_slot complete write_at
third_ok = refl

run-new-Inv_example : Inv (run (new 1) history)
run-new-Inv_example = run-new-Inv 1 history (omega arith)

retirement-lt-reader_example : (retirement half_read).value < (half_read.frames 1).frame.ready_value
unfolding second_reader
retirement-lt-reader_example =
    retirement-lt-reader half_read 2 false second_reader half_read-Inv found_second

entries-retired_example :
    (entries (retired half_read (retirement half_read)).0 ≡ drop_idle (entries half_read))
    × ((retired half_read (retirement half_read)).1
        ≡ (if (retirement half_read).value == 0 then invalid else ok))
entries-retired_example = entries-retired half_read half_read-Inv

fresh_token : 2 ≢ half_read.next_token
unfolding find new run acquire add_reader draw_token place holds_slot complete write_at
fresh_token e = absurd (omega (arith, e))

complete_once_example :
    ((complete half_read 2).1 ≡ ok)
    × (get (complete half_read 2).0 2 ≡ none)
    × ((complete (complete half_read 2).0 2).1 ≡ invalid)
    × (get (complete half_read 2).0 9 ≡ get half_read 9)
complete_once_example =
    complete_once half_read 2 9 second_reader half_read-Inv found_second
      (λ (e : 9 ≡ 2). omega (arith, e))
