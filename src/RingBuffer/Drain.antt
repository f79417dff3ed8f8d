-- ===== src/RingBuffer/Drain.antt =====
-- The loop of `Drain`: what it takes out, and the slots that it leaves.
use native.Mathlib.Nat.{mod-lt, mod-eq_of_lt, add-zero}
use native.Mathlib.Nat.{mod-mod}
use native.Mathlib.Numerals.{add-one}
use kit4go.RingBuffer.{RingBuffer, drain_loop, drain}
use kit4go.RingBuffer.Window.{window, window-congr, window-set_outside}
use kit4go.RingBuffer.Valid.{IsValid}
use kit4go.Common.{
  ℕ, zero, suc, ◌+◌, ◌%◌, ◌≤◌, ◌<◌, ◌≡◌, refl, sym, ap, ap₂, ◌∙◌, List, ◌∷◌, arith, length, set,
  length-set, get_or, mod-ne,
}

module _ {ℓ} {A : Type ℓ} (z : A) where
  -- A slot just read is not met again within a turn.
  pub window-set_read :
      (cap t n : ℕ) (buf : List A)
      → t < cap
      → n < cap
      → window z cap (set buf t z) (suc t) n ≡ window z cap buf (suc t) n
  window-set_read cap t n buf h hn =
      window-set_outside z cap buf t z (suc t) n
        (λ k lt e. mod-ne t (suc t + k) cap (omega arith) (omega arith) (mod-eq_of_lt h ∙ e))

  module _ (cap : ℕ) where
    -- The loop hands out the window of the next `n` slots, in order.
    pub drain_loop-window :
        (n t : ℕ) (buf : List A)
        → t < cap
        → n ≤ cap
        → (drain_loop z n buf t cap).0 ≡ window z cap buf t n
    unfolding drain_loop
    drain_loop-window zero t buf h hn = refl
    drain_loop-window (suc n) t buf h hn =
        ap₂ ◌∷◌ (ap (λ i. get_or buf i z) (sym (mod-eq_of_lt h))) (
          drain_loop-window n ((t + 1) % cap) (set buf t z) (mod-lt (t + 1) (omega arith))
            (omega arith)
          ∙ window-congr z cap (set buf t z) ((t + 1) % cap) (suc t) n
              (rw add-one (mod-mod (suc t) cap))
          ∙ window-set_read cap t n buf h hn)

    pub length-drain_loop :
        (n t : ℕ) (buf : List A) → length (drain_loop z n buf t cap).1 ≡ length buf
    unfolding drain_loop
    length-drain_loop zero t buf = refl
    length-drain_loop (suc n) t buf =
        length-drain_loop n ((t + 1) % cap) (set buf t z) ∙ length-set buf t z

    -- The read position stays in the storage.
    pub drain_loop-tail-lt : (n t : ℕ) (buf : List A) → t < cap → (drain_loop z n buf t cap).2 < cap
    unfolding drain_loop
    drain_loop-tail-lt zero t buf h = h
    drain_loop-tail-lt (suc n) t buf h =
        drain_loop-tail-lt n ((t + 1) % cap) (set buf t z) (mod-lt (t + 1) (omega arith))

  pub drain-IsValid : {rb : RingBuffer A} → IsValid rb → IsValid (drain z rb).1
  unfolding drain
  drain-IsValid {rb} v = record {
    storage = length-drain_loop rb.cap rb.count rb.tail rb.buf ∙ v.storage;
    positive = v.positive;
    tail_in = drain_loop-tail-lt rb.cap rb.count rb.tail rb.buf v.tail_in;
    count_in = omega arith;
    head_at =
        rw add-zero
          (sym (mod-eq_of_lt (drain_loop-tail-lt rb.cap rb.count rb.tail rb.buf v.tail_in)));
  }
