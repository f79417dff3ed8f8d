-- ===== src/RingBuffer/Valid.antt =====
-- The representation invariant of `RingBuffer`, and that every call keeps it.
use native.Mathlib.Nat.{mod-lt, mod-add-mod}
use kit4go.RingBuffer.{RingBuffer, new, write, read, push, pop, try_push, try_pop, close}
use kit4go.Common.Int.{ℤ, pos, negsuc}
use kit4go.Common.{
  zero, suc, ◌+◌, ◌-◌, ◌%◌, ◌≤◌, ◌<◌, ◌≡◌, sym, ap, ◌∙◌, ◌≢◌, arith, length, length-set,
  length-replicate,
}

pub record IsValid {ℓ} {A : Type ℓ} (rb : RingBuffer A) : Type ℓ where
  pub storage : length rb.buf ≡ rb.cap
  pub positive : 0 < rb.cap
  pub tail_in : rb.tail < rb.cap
  pub count_in : rb.count ≤ rb.cap
  pub head_at : rb.head ≡ (rb.tail + rb.count) % rb.cap

module _ {ℓ} {A : Type ℓ} (z : A) where
  pub new-IsValid : (capacity : ℤ) → IsValid (new z capacity)
  unfolding new
  new-IsValid (pos zero) = omega arith
  new-IsValid (pos (suc n)) = ground (arith, length-replicate n z)
  new-IsValid (negsuc n) = grind arith

  module _ {rb : RingBuffer A} (v : IsValid rb) where
    pub write-IsValid : (x : A) → rb.count ≢ rb.cap → IsValid (write z rb x)
    unfolding write
    write-IsValid x h = record {
      storage = length-set rb.buf rb.head x ∙ v.storage;
      positive = v.positive;
      tail_in = v.tail_in;
      count_in = omega arith;
      head_at =
          rw v.head_at
            (mod-add-mod (rb.tail + rb.count) rb.cap 1 ∙ ap (λ k. k % rb.cap) (omega arith));
    }

    pub read-IsValid : rb.count ≢ 0 → IsValid (read z rb).1
    unfolding read
    read-IsValid h = record {
      storage = length-set rb.buf rb.tail z ∙ v.storage;
      positive = v.positive;
      tail_in = mod-lt (rb.tail + 1) v.positive;
      count_in = omega arith;
      head_at =
          v.head_at
          ∙ ap (λ k. k % rb.cap) (omega arith)
          ∙ sym (mod-add-mod (rb.tail + 1) rb.cap (rb.count - 1));
    }

    -- Every method keeps the invariant, on each of its branches.
    pub push-IsValid : (x : A) → IsValid (push z rb x).1
    unfolding push
    push-IsValid x = ground (arith, write-IsValid x)

    pub try_push-IsValid : (x : A) → IsValid (try_push z rb x).1
    unfolding try_push
    try_push-IsValid x = ground (arith, write-IsValid x)

    pub pop-IsValid : IsValid (pop z rb).2
    unfolding pop
    pop-IsValid = ground (arith, read-IsValid)

    pub try_pop-IsValid : IsValid (try_pop z rb).2
    unfolding try_pop
    try_pop-IsValid = ground (arith, read-IsValid)

    pub close-IsValid : IsValid (close z rb)
    unfolding close
    close-IsValid = ground arith
