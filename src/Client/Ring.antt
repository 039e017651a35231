-- ===== src/Client/Ring.antt =====
-- crates/boa-client/src/audio/ring.rs: the queue of samples between a callback and a thread. A
-- sample is only moved. The indices are atomic, with one producer and one consumer: each operation
-- here is one call of one side, seen whole.
pub mod Cells
pub mod Fifo
pub mod Size
use boa_voice.Prelude.{
  ℕ, zero, suc, ◌+◌, ◌-◌, ◌*◌, ◌%◌, ◌^◌, List, [], ◌∷◌, leb, if◌then◌else◌, length, get_or, set,
  take, replicate, min, max,
}

pub record Ring (A : Type 0) : Type 0 where
  pub cells : List A
  pub read : ℕ
  pub write : ℕ
  pub mask : ℕ

-- `usize::next_power_of_two`: from `p` up by doubling.
unfoldable pub doubled_to : ℕ → ℕ → ℕ → ℕ
doubled_to zero p wanted = p
doubled_to (suc rounds) p wanted =
    let more = doubled_to rounds (2 * p) wanted in if leb wanted p then p else more

-- A `usize` has 64 bits, so 64 rounds are enough.
unfoldable pub next_power_of_two : ℕ → ℕ
unfolding doubled_to
next_power_of_two wanted = doubled_to 64 1 wanted

-- `x & mask`. The mask is a power of two less one, so that this is a remainder.
abbrev pub masked : ℕ → ℕ → ℕ
masked x mask = x % (mask + 1)

-- `usize::wrapping_sub`
abbrev pub wrapping_sub : ℕ → ℕ → ℕ
wrapping_sub a b = (a + 2 ^ 64 - b) % 2 ^ 64

module _ {A : Type 0} (silence : A) where
  -- `Ring::new`
  unfoldable pub new : ℕ → Ring A
  new wanted =
      let capacity = max (next_power_of_two wanted) 2 in
      record { cells = replicate capacity silence; read = 0; write = 0; mask = capacity - 1 }

  -- `Ring::capacity`
  abbrev pub capacity : Ring A → ℕ
  capacity r = length r.cells - 1

  -- `Ring::len`
  abbrev pub len : Ring A → ℕ
  len r = masked (wrapping_sub r.write r.read) r.mask

  -- The loop of `push`: one sample to each cell from `at` on.
  unfoldable pub store_from : List A → ℕ → ℕ → List A → List A
  store_from cells mask at [] = cells
  store_from cells mask at (sample ∷ rest) =
      store_from (set cells (masked at mask) sample) mask (at + 1) rest

  -- `Ring::push`: how many samples were taken, and the ring.
  unfoldable pub push : Ring A → List A → ℕ × Ring A
  unfolding store_from
  push r samples =
      let free = capacity r - len r in
      let taken = min (length samples) free in
      (
        taken,
        record r {
          cells = store_from r.cells r.mask r.write (take taken samples);
          write = masked (r.write + taken) r.mask;
        },
      )

  -- The loop of `pop`: the samples of `taken` cells from `at` on.
  unfoldable pub load_from : List A → ℕ → ℕ → ℕ → List A
  load_from cells mask at zero = []
  load_from cells mask at (suc taken) =
      get_or cells (masked at mask) silence ∷ load_from cells mask (at + 1) taken

  -- `Ring::pop` into a buffer for `wanted` samples: what is written to its front, and the ring.
  unfoldable pub pop : Ring A → ℕ → List A × Ring A
  unfolding load_from
  pop r wanted =
      let taken = min wanted (len r) in
      (load_from r.cells r.mask r.read taken, record r { read = masked (r.read + taken) r.mask })

  -- `Ring::clear`
  unfoldable pub clear : Ring A → Ring A
  clear r = record r { read = r.write }
