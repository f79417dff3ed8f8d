-- ===== src/RingBuffer.antt =====
-- `ringbuffer.RingBuffer[T]` of ringbuffer/ringbuffer.go. One call of a blocking method is a
-- sequence of attempts under the lock; an attempt that reaches `cond.Wait` changes nothing and
-- replies `waiting`. The zero value of `T`, which `Pop` writes over what it takes, is a parameter.
-- Indices stay below `cap` and `count` below or at `cap`, a Go `int`, so no sum wraps.
use kit4go.Common.{
  ℕ, zero, suc, ◌+◌, ◌-◌, ◌%◌, Bool, true, false, ◌&&◌, ◌||◌, not, List, [], ◌∷◌, ◌==◌,
  if◌then◌else◌, set, get_or, replicate,
}
use kit4go.Common.Int.{ℤ, pos, negsuc, ltb_ℤ, pos_part}
pub mod Window
pub mod Fifo
pub mod Valid
pub mod Drain
pub mod Refine
mod Tests

pub record RingBuffer {ℓ} (A : Type ℓ) : Type ℓ where
  pub buf : List A
  pub head : ℕ
  pub tail : ℕ
  pub count : ℕ
  pub cap : ℕ
  pub closed : Bool

-- What one attempt returns: `done` a nil error or `true`, `refused` a `false`, `err_closed` is
-- `ErrClosed`, `waiting` the sleep in `cond.Wait`.
pub data Status : Type 0 where
  done refused err_closed waiting : Status

module _ {ℓ} {A : Type ℓ} (zero_value : A) where
  -- `New`
  pub new : ℤ → RingBuffer A
  new capacity =
      let n = if ltb_ℤ capacity (pos 1) then 1 else pos_part capacity in
      record {
        buf = replicate n zero_value;
        head = 0;
        tail = 0;
        count = 0;
        cap = n;
        closed = false;
      }

  -- the write that `Push` and `TryPush` share
  pub write : RingBuffer A → A → RingBuffer A
  write rb item = record rb {
    buf = set rb.buf rb.head item;
    head = (rb.head + 1) % rb.cap;
    count = rb.count + 1;
  }

  -- one attempt of `Push`
  pub push : RingBuffer A → A → Status × RingBuffer A
  unfolding write
  push rb item =
      if rb.count == rb.cap && not rb.closed
      then (waiting, rb)
      else if rb.closed
      then (err_closed, rb)
      else (done, write rb item)

  pub try_push : RingBuffer A → A → Status × RingBuffer A
  unfolding write
  try_push rb item =
      if rb.count == rb.cap || rb.closed then (refused, rb) else (done, write rb item)

  -- the read that `Pop` and `TryPop` share: the item, and the buffer with its slot cleared
  pub read : RingBuffer A → A × RingBuffer A
  read rb = (
    get_or rb.buf rb.tail zero_value,
    record rb {
      buf = set rb.buf rb.tail zero_value;
      tail = (rb.tail + 1) % rb.cap;
      count = rb.count - 1;
    },
  )

  -- one attempt of `Pop`
  pub pop : RingBuffer A → Status × A × RingBuffer A
  unfolding read
  pop rb =
      if rb.count == 0 && not rb.closed
      then (waiting, zero_value, rb)
      else if rb.count == 0 && rb.closed
      then (err_closed, zero_value, rb)
      else let (item, rb') = read rb in (done, item, rb')

  pub try_pop : RingBuffer A → Status × A × RingBuffer A
  unfolding read
  try_pop rb =
      if rb.count == 0
      then (refused, zero_value, rb)
      else let (item, rb') = read rb in (done, item, rb')

  -- the loop of `Drain`, with the rounds that are left
  pub drain_loop : ℕ → List A → ℕ → ℕ → List A × List A × ℕ
  drain_loop zero buf tail cap = ([], buf, tail)
  drain_loop (suc n) buf tail cap =
      let (out, buf', tail') = drain_loop n (set buf tail zero_value) ((tail + 1) % cap) cap in
      (get_or buf tail zero_value ∷ out, buf', tail')

  pub drain : RingBuffer A → List A × RingBuffer A
  unfolding drain_loop
  drain rb =
      let (out, buf', tail') = drain_loop rb.count rb.buf rb.tail rb.cap in
      (out, record rb { buf = buf'; tail = tail'; head = tail'; count = 0 })

  pub close : RingBuffer A → RingBuffer A
  close rb = record rb { closed = true }

  pub len : RingBuffer A → ℕ
  len rb = rb.count

  pub is_full : RingBuffer A → Bool
  is_full rb = rb.count == rb.cap

  pub is_empty : RingBuffer A → Bool
  is_empty rb = rb.count == 0
