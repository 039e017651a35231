-- ===== src/Client/Ring/Fifo.antt =====
-- The ring is a bounded queue, crates/boa-client/src/audio/ring.rs.
use boa_voice.Prelude.{
  ℕ, ◌+◌, ◌-◌, ◌*◌, ◌%◌, ◌^◌, ◌≤◌, ◌≡◌, refl, List, [], ◌++◌, arith, length, take, drop, min, sym,
  ap, ◌∙◌, length-take,
}
use mathlib.Core.Path.{ap₂}
use native.Mathlib.Nat.{mod-lt, mod-add-mod}
use boa_voice.Client.Ring.{Ring, capacity, len, push, pop, clear, store_from, load_from, masked}
use boa_voice.Client.Ring.Cells.{
  load_from-append, load_from-mod, store_from-mod, length-load_from, length-store_from,
  load_from-other, load_from-store_from, distance, take-self-append, drop-self-append, take-min,
  drop-min, ahead, back,
}

-- The size is a power of two, which `wrapping_sub` and the mask rest on, and the indices are in it.
pub record Valid {A : Type 0} (r : Ring A) : Type 0 where
  pub size : length r.cells ≡ r.mask + 1
  pub laps : ℕ
  pub power : (r.mask + 1) * laps ≡ 2 ^ 64
  pub read_in : r.read ≤ r.mask
  pub write_in : r.write ≤ r.mask

module _ {A : Type 0} (silence : A) where
  -- The samples waiting, oldest first.
  pub contents : Ring A → List A
  contents r = load_from silence r.cells r.mask r.read (len silence r)

  pub length-contents : (r : Ring A) → length (contents r) ≡ len silence r
  unfolding contents
  length-contents r = length-load_from silence r.cells r.mask r.read (len silence r)

  len_lem :
      (r : Ring A) → Valid r → len silence r ≡ (r.write + (r.mask + 1) - r.read) % (r.mask + 1)
  len_lem r v = distance r.mask v.laps v.power r.read r.write v.read_in v.write_in

  len-le : (r : Ring A) → Valid r → len silence r ≤ r.mask
  len-le r v =
      omega (
        arith,
        len_lem r v,
        mod-lt (r.write + (r.mask + 1) - r.read) {m = r.mask + 1} (omega arith),
      )

  -- The writer stands as far ahead of the reader as there are samples.
  writer : (r : Ring A) → Valid r → (r.read + len silence r) % (r.mask + 1) ≡ r.write
  writer r v =
      ap (λ n. (r.read + n) % (r.mask + 1)) (len_lem r v)
      ∙ back r.mask r.read r.write v.read_in v.write_in

  -- The ring after `n` samples are read, and after some are written.
  len-read :
      (r : Ring A) (n : ℕ)
      → Valid r
      → n ≤ len silence r
      → len silence (record r { read = masked (r.read + n) r.mask }) ≡ len silence r - n
  len-read r n v few =
      let at = (r.read + n) % (r.mask + 1) in
      let inside : at ≤ r.mask =
        omega (arith, mod-lt (r.read + n) {m = r.mask + 1} (omega arith)) in
      let on : (at + (len silence r - n)) % (r.mask + 1) ≡ r.write =
        mod-add-mod (r.read + n) (r.mask + 1) (len silence r - n)
        ∙ (ap (λ k. k % (r.mask + 1)) (omega arith) ∙ writer r v) in
      distance r.mask v.laps v.power at r.write inside v.write_in
      ∙ (ap (λ w. (w + (r.mask + 1) - at) % (r.mask + 1)) (sym on)
          ∙ ahead r.mask at (len silence r - n) inside (omega (arith, len-le r v)))

  len-write :
      (r : Ring A) (cells : List A) (n : ℕ)
      → Valid r
      → len silence r + n ≤ r.mask
      → len silence (record r { cells = cells; write = masked (r.write + n) r.mask })
        ≡ len silence r + n
  len-write r cells n v fits =
      let at = (r.write + n) % (r.mask + 1) in
      let inside : at ≤ r.mask =
        omega (arith, mod-lt (r.write + n) {m = r.mask + 1} (omega arith)) in
      let on : at ≡ (r.read + (len silence r + n)) % (r.mask + 1) =
        ap (λ w. (w + n) % (r.mask + 1)) (sym (writer r v))
        ∙ (mod-add-mod (r.read + len silence r) (r.mask + 1) n
            ∙ ap (λ k. k % (r.mask + 1)) (omega arith)) in
      distance r.mask v.laps v.power r.read at v.read_in inside
      ∙ (ap (λ w. (w + (r.mask + 1) - r.read) % (r.mask + 1)) on
          ∙ ahead r.mask r.read (len silence r + n) v.read_in (omega arith))

  -- `pop` takes the oldest samples, as many as are wanted and there, and leaves the others in order.
  pub pop-contents :
      (r : Ring A) (wanted : ℕ)
      → Valid r
      → ((pop silence r wanted).0 ≡ take wanted (contents r))
        × (contents (pop silence r wanted).1 ≡ drop wanted (contents r))
        × Valid (pop silence r wanted).1
  unfolding pop contents
  pop-contents r wanted v =
      let n = min wanted (len silence r) in
      let at = (r.read + n) % (r.mask + 1) in
      let parts : contents r
          ≡ load_from silence r.cells r.mask r.read n
            ++ load_from silence r.cells r.mask (r.read + n) (len silence r - n) =
        ap (load_from silence r.cells r.mask r.read) (omega arith)
        ∙ load_from-append silence r.cells r.mask r.read n (len silence r - n) in
      let counted = length-contents r in
      let size = length-load_from silence r.cells r.mask r.read n in
      (
        sym (
            sym (take-min wanted (contents r))
            ∙ (ap (λ k. take (min wanted k) (contents r)) counted
                ∙ (ap (take n) parts ∙ take-self-append _ _ n size))),
        ap (load_from silence r.cells r.mask at) (len-read r n v (omega arith))
            ∙ (load_from-mod silence r.cells r.mask (r.read + n) (len silence r - n)
                ∙ sym (
                    sym (drop-min wanted (contents r))
                    ∙ (ap (λ k. drop (min wanted k) (contents r)) counted
                        ∙ (ap (drop n) parts ∙ drop-self-append _ _ n size)))),
        record {
          size = v.size;
          laps = v.laps;
          power = v.power;
          read_in = omega (arith, mod-lt (r.read + n) {m = r.mask + 1} (omega arith));
          write_in = v.write_in;
        },
      )

  -- `push` appends as many samples as there is room for, counts them, and keeps those that waited.
  pub push-contents :
      (r : Ring A) (samples : List A)
      → Valid r
      → ((push silence r samples).0
          ≡ min (length samples) (capacity silence r - length (contents r)))
        × (contents (push silence r samples).1
            ≡ contents r ++ take (push silence r samples).0 samples)
        × Valid (push silence r samples).1
  unfolding push contents
  push-contents r samples v =
      let n = min (length samples) (capacity silence r - len silence r) in
      let put = take n samples in
      let put_size : length put ≡ n = omega (arith, length-take n samples) in
      let cells = store_from silence r.cells r.mask r.write put in
      let fits : len silence r + n ≤ r.mask = omega (arith, v.size, len-le r v) in
      let same : cells ≡ store_from silence r.cells r.mask (r.read + len silence r) put =
        ap (λ w. store_from silence r.cells r.mask w put) (sym (writer r v))
        ∙ store_from-mod silence put r.cells r.mask (r.read + len silence r) in
      let old : load_from silence cells r.mask r.read (len silence r) ≡ contents r =
        ap (λ c. load_from silence c r.mask r.read (len silence r)) same
        ∙ load_from-other silence (len silence r) put r.cells r.mask (r.read + len silence r) r.read
            (omega arith) (omega arith) in
      let fresh : load_from silence cells r.mask (r.read + len silence r) n ≡ put =
        ap (λ c. load_from silence c r.mask (r.read + len silence r) n) same
        ∙ (ap
              (load_from silence (store_from silence r.cells r.mask (r.read + len silence r) put)
                r.mask (r.read + len silence r))
              (sym put_size)
            ∙ load_from-store_from silence put r.cells r.mask (r.read + len silence r) v.size
                (omega arith)) in
      (
        ap (λ k. min (length samples) (capacity silence r - k)) (sym (length-contents r)),
        ap (load_from silence cells r.mask r.read) (len-write r cells n v fits)
            ∙ (load_from-append silence cells r.mask r.read (len silence r) n
                ∙ ap₂ (λ a b. a ++ b) old fresh),
        record {
          size = length-store_from silence put r.cells r.mask r.write ∙ v.size;
          laps = v.laps;
          power = v.power;
          read_in = v.read_in;
          write_in = omega (arith, mod-lt (r.write + n) {m = r.mask + 1} (omega arith));
        },
      )

  pub contents-empty : (r : Ring A) → r.read ≡ r.write → r.write ≤ r.mask → contents r ≡ []
  unfolding contents load_from
  contents-empty r e inside =
      let none_left : len silence r ≡ 0 = rw e (omega (arith, inside)) in
      ap (load_from silence r.cells r.mask r.read) none_left ∙ refl

  -- `clear` leaves nothing waiting.
  pub clear-contents :
      (r : Ring A) → Valid r → (contents (clear silence r) ≡ []) × Valid (clear silence r)
  unfolding clear
  clear-contents r v = (
    contents-empty (record r { read = r.write }) refl v.write_in,
    record {
      size = v.size;
      laps = v.laps;
      power = v.power;
      read_in = v.write_in;
      write_in = v.write_in;
    },
  )
