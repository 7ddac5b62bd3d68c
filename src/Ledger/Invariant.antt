-- ===== src/Ledger/Invariant.antt =====
-- What every method of src/fl_read_ledger.hpp keeps: the order of the retained frames, and the
-- agreement of the ring with the reader table.
pub mod Order
pub mod Methods
pub mod Acquire
pub mod Runs
use framelink.Base.{ℕ, ◌+◌, ◌-◌, ◌%◌, ◌≤◌, ◌<◌, ◌≡◌, Bool, false, ◌&&◌, ltb}
use framelink.Ledger.{Ledger}
use framelink.Ledger.Window.{entries}
use framelink.Ledger.Owners.{owners, Below, Distinct}
use Order.{Ordered}

-- Whether position f holds one of the n frames from position h on.
abbrev pub live : ℕ → ℕ → ℕ → Bool
live h n f = ltb f 16 && ltb ((f + 16 - h) % 16) n

pub record Inv (l : Ledger) : Type 0 where
  pub head_lt : l.head < 16
  pub count_le : l.count ≤ 16
  pub ordered : Ordered 0 l.last_value l.generation (entries l)
  -- a frame's reader count is the number of tokens that own it
  pub counted : (f : ℕ) → owners f l.readers ≡ (l.frames f).readers
  -- only retained frames have readers
  pub cleared : (f : ℕ) → live l.head l.count f ≡ false → (l.frames f).readers ≡ 0
  pub fresh : Below l.next_token l.readers
  pub distinct : Distinct l.readers
  pub next_pos : 0 < l.next_token
