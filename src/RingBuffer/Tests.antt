-- ===== src/RingBuffer/Tests.antt =====
-- A ring buffer of three slots that has gone round once, and its calls.
use kit4go.RingBuffer.{RingBuffer, done, err_closed, waiting}
use kit4go.RingBuffer.Fifo
use kit4go.RingBuffer.Fifo.{Fifo, Op}
use kit4go.RingBuffer.Valid.{IsValid}
use kit4go.RingBuffer.Refine.{run, view, run_refines}
use kit4go.Common.{ℕ, ◌≡◌, refl, false, List, [], ◌∷◌, arith}

abbrev wrapped : RingBuffer ℕ
wrapped = record { buf = 9 ∷ 0 ∷ 8 ∷ []; head = 1; tail = 2; count = 2; cap = 3; closed = false }

abbrev script : List (Op ℕ)
script =
    Op.push 5 ∷ Op.push 6 ∷ Op.pop ∷ Op.try_push 7 ∷ Op.close ∷ Op.push 1 ∷ Op.drain ∷ Op.pop ∷ []

wrapped-IsValid : IsValid wrapped
wrapped-IsValid = omega arith

run-wrapped :
    Fifo.run (view 0 wrapped) script
    ≡ (done, [])
      ∷ (waiting, [])
      ∷ (done, 8 ∷ [])
      ∷ (done, [])
      ∷ (done, [])
      ∷ (err_closed, [])
      ∷ (done, 9 ∷ 5 ∷ 7 ∷ [])
      ∷ (err_closed, [])
      ∷ []
unfolding Fifo.run Fifo.step
run-wrapped = refl

run_refines_example : run 0 wrapped script ≡ Fifo.run (view 0 wrapped) script
run_refines_example = run_refines 0 script wrapped-IsValid
