-- ===== src/Buffer/Laws.antt =====
-- A circular buffer counts as a queue of at most len / 2 bytes.
use chat_server.Base.{
  ℕ, ◌+◌, ◌-◌, ◌/◌, ◌%◌, ◌≤◌, ◌<◌, ◌≡◌, refl, true, some, arith, leb, ltb, Bool-cases, inl, inr,
}
use chat_server.Builtin.Slices.{u64, sub64, Slice, unsafe_slice, slice_left_right}
use chat_server.Buffer.{
  CircularBuffer, consume, produce, reset, remaining_slice, remaining_space, unconsumed_len,
  unconsumed_slice,
}

-- The bytes from head to tail are unconsumed: at most half of the buffer, from its first half on.
pub record IsBuffer (cb : CircularBuffer) : Type 0 where
  pub small : cb.len < u64
  pub ordered : cb.head ≤ cb.tail
  pub room : cb.tail ≤ cb.head + cb.len / 2
  pub first_half : cb.head ≤ cb.len / 2

pub data Op : Type 0 where
  producing : ℕ → Op
  consuming : ℕ → Op
  resetting : Op

abbrev pub step : Op → CircularBuffer → CircularBuffer
step (producing n) cb = produce cb n
step (consuming n) cb = consume cb n
step resetting cb = reset cb

-- As many bytes as there is room for, or as there are.
abbrev pub Fits : Op → CircularBuffer → Type 0
Fits (producing n) cb = n ≤ remaining_space cb
Fits (consuming n) cb = n ≤ unconsumed_len cb
Fits resetting cb = Unit {0}

-- The same on the number of bytes alone.
abbrev pub counted : Op → ℕ → ℕ
counted (producing n) m = m + n
counted (consuming n) m = m - n
counted resetting m = 0

-- A buffer that is well formed, with the given number of bytes to consume and room for the rest.
pub record Holds (cb : CircularBuffer) (half : ℕ) (n : ℕ) : Type 0 where
  pub buffer : IsBuffer cb
  pub length_is : unconsumed_len cb ≡ n
  pub space_is : remaining_space cb + n ≡ half
  pub same_half : cb.len / 2 ≡ half

sub64_exact : (a b : ℕ) → b ≤ a → a < u64 → sub64 a b ≡ a - b
sub64_exact a b le lt = omega arith

mod64_exact : (a : ℕ) → a < u64 → a % u64 ≡ a
mod64_exact a lt = omega arith

-- What the counters are worth.
counts-Holds :
    (cb : CircularBuffer) (half n : ℕ)
    → IsBuffer cb
    → cb.len / 2 ≡ half
    → cb.tail ≡ cb.head + n
    → Holds cb half n
unfolding remaining_space unconsumed_len
counts-Holds cb half n i h e =
    let l : sub64 cb.tail cb.head ≡ n =
      rw (sub64_exact cb.tail cb.head i.ordered (omega (arith, i.room, i.first_half, i.small)))
        (omega arith) in
    record {
      buffer = i;
      length_is = l;
      space_is =
          rw (l, sub64_exact (cb.len / 2) n (omega (arith, i.room)) (omega (arith, i.small)))
            (omega (arith, i.room));
      same_half = h;
    }

holds : (cb : CircularBuffer) → IsBuffer cb → Holds cb (cb.len / 2) (cb.tail - cb.head)
holds cb i = counts-Holds cb (cb.len / 2) (cb.tail - cb.head) i refl (omega (arith, i.ordered))

-- With as many bytes as fit every operation leaves a well formed buffer, and changes the number of
-- unconsumed bytes as that of a queue; the room left is the rest of half the buffer.
pub step-Holds :
    (o : Op) (cb : CircularBuffer)
    → IsBuffer cb
    → Fits o cb
    → Holds (step o cb) (cb.len / 2) (counted o (unconsumed_len cb))
unfolding consume produce reset
step-Holds (producing n) cb i f =
    let h = holds cb i in
    let e =
      mod64_exact (cb.tail + n)
        (omega (arith, h.length_is, h.space_is, i.room, i.first_half, i.small)) in
    rw (h.length_is) (
      counts-Holds (produce cb n) (cb.len / 2) (cb.tail - cb.head + n)
        (record {
          small = i.small;
          ordered = rw e (omega (arith, i.ordered));
          room = rw e (omega (arith, h.space_is, i.ordered));
          first_half = i.first_half;
        })
        refl (rw e (omega (arith, i.ordered))))
step-Holds (consuming n) cb i f =
    let h = holds cb i in
    let e = mod64_exact (cb.head + n) (omega (arith, h.length_is, i.room, i.first_half, i.small)) in
    let m = cb.tail - cb.head - n in
    rw (h.length_is, e)
      (elim (Bool-cases (ltb (cb.len / 2) (cb.head + n))) [
        | inl over ↦
            rw
              (
                over,
                sub64_exact (cb.head + n) (cb.len / 2) (ground arith)
                    (omega (arith, h.length_is, i.room, i.first_half, i.small)),
                sub64_exact cb.tail (cb.len / 2) (ground (arith, h.length_is, i.ordered))
                    (omega (arith, i.room, i.first_half, i.small)),
              )
              (counts-Holds
                (record cb { head = cb.head + n - cb.len / 2; tail = cb.tail - cb.len / 2 })
                (cb.len / 2) m
                (record {
                  small = i.small;
                  ordered = ground (arith, h.length_is, i.ordered);
                  room = ground (arith, h.length_is, i.room);
                  first_half = ground (arith, h.length_is, i.room, i.first_half);
                })
                refl (ground (arith, h.length_is, i.ordered)))
        | inr fits ↦ rw fits (
            counts-Holds (record cb { head = cb.head + n }) (cb.len / 2) m
              (record {
                small = i.small;
                ordered = omega (arith, h.length_is, i.ordered);
                room = omega (arith, i.room);
                first_half = ground arith;
              })
              refl (omega (arith, h.length_is, i.ordered)))
      ])
step-Holds resetting cb i f =
    counts-Holds (reset cb) (cb.len / 2) 0
      (record {
        small = i.small;
        ordered = omega arith;
        room = omega arith;
        first_half = omega arith;
      })
      refl refl

-- In a well formed buffer the slice to write to starts where the unconsumed bytes end, has the
-- length of the room that is left, and ends within the buffer; the assert of its bounds holds.
pub remaining_slice_follows :
    (cb : CircularBuffer)
    → IsBuffer cb
    → (s : Slice) × (remaining_slice cb ≡ some s)
      × (s.base ≡ (unconsumed_slice cb).base + (unconsumed_slice cb).len)
      × (s.len ≡ remaining_space cb)
      × (s.base + s.len ≤ cb.buf + cb.len)
unfolding remaining_slice slice_left_right unsafe_slice unconsumed_slice
remaining_slice_follows cb i =
    let h = holds cb i in
    let e = mod64_exact (cb.head + cb.len / 2) (omega (arith, i.first_half, i.small)) in
    let fits : leb (cb.head + cb.len / 2) cb.len ≡ true = ground (arith, i.first_half) in
    let l =
      sub64_exact (cb.head + cb.len / 2) cb.tail i.room (omega (arith, i.first_half, i.small)) in
    rw (e, fits, l)
      (
        _,
        refl,
        omega (arith, h.length_is, i.ordered),
        omega (arith, h.space_is, i.ordered, i.room),
        omega (arith, i.room, i.first_half),
      )
