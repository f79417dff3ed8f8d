-- ===== src/RingBuffer/Refine.antt =====
-- A valid ring buffer is the bounded list of its live items.
use native.Mathlib.Nat.{mod-eq_of_lt, mod-mod}
use native.Mathlib.Nat.{mod-lt}
use native.Mathlib.Numerals.{add-one}
use kit4go.RingBuffer.{RingBuffer, done, write, read, push, pop, try_push, try_pop, drain, close}
use kit4go.RingBuffer.Fifo
use kit4go.RingBuffer.Fifo.{Fifo, Op, Reply}
use kit4go.RingBuffer.Window.{
  window, length-window, window-congr, window_snoc, window_of_ne_zero, window-set_outside,
}
use kit4go.RingBuffer.Valid.{
  IsValid, push-IsValid, try_push-IsValid, pop-IsValid, try_pop-IsValid, close-IsValid,
}
use kit4go.RingBuffer.Drain.{window-set_read, drain_loop-window, drain-IsValid}
use kit4go.Common.{
  suc, ◌+◌, ◌-◌, ◌%◌, ◌≡◌, refl, sym, ap, ap₂, ◌∙◌, ◌≢◌, List, [], ◌∷◌, ◌++◌, arith, ℕ_discrete,
  ◌==◌, if◌then◌else◌, length, set, get_or, get_or-set_self, mod-ne,
}

module _ {A : Type 0} (z : A) where
  -- the live items, oldest first
  abbrev pub contents : RingBuffer A → List A
  contents rb = window z rb.cap rb.buf rb.tail rb.count

  -- what a caller sees of the buffer
  abbrev pub view : RingBuffer A → Fifo A
  view rb = record { items = contents rb; limit = rb.cap; shut = rb.closed }

  -- one attempt, as the code answers it
  pub step : RingBuffer A → Op A → Reply A × RingBuffer A
  step rb (Op.push x) = let (s, rb') = push z rb x in ((s, []), rb')
  step rb (Op.try_push x) = let (s, rb') = try_push z rb x in ((s, []), rb')
  step rb Op.pop = let (s, x, rb') = pop z rb in ((s, if rb.count == 0 then [] else x ∷ []), rb')
  step rb Op.try_pop =
      let (s, x, rb') = try_pop z rb in ((s, if rb.count == 0 then [] else x ∷ []), rb')
  step rb Op.drain = let (out, rb') = drain z rb in ((done, out), rb')
  step rb Op.close = ((done, []), close z rb)

  pub run : RingBuffer A → List (Op A) → List (Reply A)
  run rb [] = []
  run rb (o ∷ os) = let (r, rb') = step rb o in r ∷ run rb' os

  module _ {rb : RingBuffer A} (v : IsValid rb) where
    contents-write : (x : A) → rb.count ≢ rb.cap → contents (write z rb x) ≡ contents rb ++ (x ∷ [])
    unfolding write
    contents-write x h = rw add-one (
        window_snoc z rb.cap buf' rb.tail rb.count
        ∙ ap₂ (λ l a. l ++ (a ∷ []))
            (window-set_outside z rb.cap rb.buf rb.head x rb.tail rb.count (λ k lt e.
              mod-ne (rb.tail + k) (rb.tail + rb.count) rb.cap (omega arith) (omega arith)
                (sym e ∙ v.head_at)))
            (ap (λ i. get_or buf' i z) (sym v.head_at)
              ∙ get_or-set_self rb.buf rb.head x z
                  (omega (arith, mod-lt (rb.tail + rb.count) v.positive))))
      where
        buf' : List A
        buf' = set rb.buf rb.head x

    contents-read : rb.count ≢ 0 → contents rb ≡ (read z rb).0 ∷ contents (read z rb).1
    unfolding read
    contents-read h =
        window_of_ne_zero z rb.cap rb.buf rb.tail rb.count h
        ∙ ap₂ ◌∷◌ (ap (λ i. get_or rb.buf i z) (mod-eq_of_lt v.tail_in)) (
            sym (
              window-congr z rb.cap buf' ((rb.tail + 1) % rb.cap) (suc rb.tail) (rb.count - 1)
                (rw add-one (mod-mod (suc rb.tail) rb.cap))
              ∙ window-set_read z rb.cap rb.tail (rb.count - 1) rb.buf v.tail_in (omega arith)))
      where
        buf' : List A
        buf' = set rb.buf rb.tail z

    contents_of_zero : rb.count ≡ 0 → contents rb ≡ []
    contents_of_zero e = ap (window z rb.cap rb.buf rb.tail) e

    contents-drain : ((drain z rb).0 ≡ contents rb) × (contents (drain z rb).1 ≡ [])
    unfolding drain
    contents-drain = (drain_loop-window z rb.cap rb.count rb.tail rb.buf v.tail_in v.count_in, refl)

    length-contents : length (contents rb) ≡ rb.count
    length-contents = length-window z rb.cap rb.buf rb.tail rb.count

    -- One attempt replies as the bounded list does, and leaves the buffer holding that list.
    pub step_refines :
        (o : Op A) → let (r, rb') = step rb o in (r, view rb') ≡ Fifo.step (view rb) o
    unfolding step Fifo.step push try_push pop try_pop drain close
    step_refines (Op.push x) = ground (arith, contents-write x, length-contents)
    step_refines (Op.try_push x) = ground (arith, contents-write x, length-contents)
    step_refines Op.pop = elim (ℕ_discrete rb.count 0) [
      | yes e ↦ ground (arith, contents_of_zero e)
      | no h ↦ ground (arith, contents-read h)
    ]
    step_refines Op.try_pop = elim (ℕ_discrete rb.count 0) [
      | yes e ↦ ground (arith, contents_of_zero e)
      | no h ↦ ground (arith, contents-read h)
    ]
    step_refines Op.drain =
        ap (λ out. ((done, out), record (view rb) { items = [] })) contents-drain.0
    step_refines Op.close = refl

    pub step-IsValid : (o : Op A) → IsValid (step rb o).1
    unfolding step
    step-IsValid (Op.push x) = push-IsValid z v x
    step-IsValid (Op.try_push x) = try_push-IsValid z v x
    step-IsValid Op.pop = pop-IsValid z v
    step-IsValid Op.try_pop = try_pop-IsValid z v
    step-IsValid Op.drain = drain-IsValid z v
    step-IsValid Op.close = close-IsValid z v

  -- Any sequence of attempts on a valid buffer is answered as the bounded list of its items answers it. After Close
  -- the list takes no item and still hands out those that are left, by TryPop too.
  pub run_refines :
      (os : List (Op A)) {rb : RingBuffer A} → IsValid rb → run rb os ≡ Fifo.run (view rb) os
  unfolding run Fifo.run
  run_refines [] v = refl
  run_refines (o ∷ os) v = rw (run_refines os (step-IsValid v o), ← step_refines v o)
