-- ===== src/Batcher/Tests.antt =====
-- A run of batcher/batcher.go, and its theorems at concrete inputs.
use kit4go.Batcher.{
  Pc, Phase, Batcher, buffer_size, fresh, new, safe_flush, flush, add_and_maybe_flush, take_item,
  drained, at_caller, accept, Event, act_add, caller_act, any_locked, is_locked, act_in, act, run,
}
use kit4go.Batcher.Batches.{batches_lem, close_flushes}
use kit4go.Batcher.Steps.{concat, AllSized}
use kit4go.Batcher.Stranded.{NoClose, late_send, late_send_lem}
use kit4go.Common.Int.{pos}
use kit4go.Common.{ℕ, ◌≡◌, refl, Bool, false, none, some, List, [], ◌∷◌, ◌++◌, ◌==◌, length}

abbrev panics : List ℕ → Bool
panics xs = length xs == 1

abbrev callers : List (Pc ℕ)
callers = Pc.idle ∷ Pc.idle ∷ []

-- batches of two at most
abbrev pairs : Batcher ℕ
pairs = record {
  max_size = 2;
  buffer_cap = 2;
  queue = [];
  buf = [];
  phase = Phase.waiting;
  done = false;
  recovered = 0;
  adders = callers;
  accepted = [];
  flushed = [];
}

made : new (pos 2) none callers ≡ some pairs
unfolding new fresh buffer_size
made = refl

-- three items, and a `Close` up to its last drain
abbrev three : List (Event ℕ)
three =
    Event.add 0 7
    ∷ Event.lock 0
    ∷ Event.send 0
    ∷ Event.add 1 8
    ∷ Event.lock 1
    ∷ Event.hand_over 1
    ∷ Event.send 1
    ∷ Event.receive
    ∷ Event.receive
    ∷ Event.add 0 9
    ∷ Event.lock 0
    ∷ Event.send 0
    ∷ Event.close
    ∷ Event.notice
    ∷ Event.receive
    ∷ Event.drain_end
    ∷ Event.close_lock
    ∷ []

three_flushed : (run panics three pairs).flushed ≡ (7 ∷ 8 ∷ []) ∷ (9 ∷ []) ∷ []
unfolding run act act_in caller_act act_add at_caller accept take_item add_and_maybe_flush drained
    flush safe_flush any_locked is_locked
three_flushed = refl

three_held : (run panics three pairs).phase ≡ Phase.last_drain
unfolding run act act_in caller_act act_add at_caller accept take_item add_and_maybe_flush drained
    flush safe_flush any_locked is_locked
three_held = refl

three_empty : (run panics three pairs).queue ≡ []
unfolding run act act_in caller_act act_add at_caller accept take_item add_and_maybe_flush drained
    flush safe_flush any_locked is_locked
three_empty = refl

batches_lem_example :
    (concat (run panics three pairs).flushed
        ++ ((run panics three pairs).buf ++ (run panics three pairs).queue)
      ≡ (run panics three pairs).accepted)
    × AllSized (run panics three pairs).max_size (run panics three pairs).flushed
batches_lem_example = batches_lem panics (pos 2) none callers pairs three made

close_flushes_example :
    concat (act panics Event.drain_end (run panics three pairs)).flushed
    ≡ (run panics three pairs).accepted
close_flushes_example =
    close_flushes panics (pos 2) none callers pairs three made three_held three_empty

late_send_lem_example :
    ((run panics (late_send 7) (fresh 2 2 (Pc.idle ∷ []))).accepted ≡ 7 ∷ [])
    × ((run panics (late_send 7 ++ (Event.tick ∷ [])) (fresh 2 2 (Pc.idle ∷ []))).flushed ≡ [])
unfolding NoClose
late_send_lem_example = late_send_lem panics 1 1 7 (Event.tick ∷ []) tt
