-- ===== src/Batcher.antt =====
-- `batcher.Batcher[T]` of batcher/batcher.go as the channel and lock operations of its goroutines, one at a
-- time: the callers of `Add`, the collector, and the calls of `Close`. The buffered channel is a queue; where it
-- is empty an item may also go straight to the collector, as it does in an unbuffered one. `buf` is the batch that
-- the collector builds and, once the collector has stopped, the one that a `Close` builds under the write lock.
-- The ticks and the requests of `Flush` come at any time. `panics` tells for which batches the flush callback
-- panics; what it does else is that it was given the batch. `accepted` lists the items of the calls of `Add` that
-- returned true, for the statements.
use kit4go.Common.Int.{ℤ, pos, negsuc, pos_part}
use kit4go.Common.Words.{add64}
use kit4go.Common.{
  ℕ, Bool, true, false, ◌||◌, Option, none, some, List, [], ◌∷◌, ◌++◌, ltb, leb, ◌==◌,
  if◌then◌else◌, length, get_elem?, set,
}
pub mod Steps
pub mod Batches
pub mod Stranded
mod Tests

-- a call of `Add`: none, one past the look at `done`, or one that holds the read lock
pub data Pc (T : Type 0) : Type 0 where
  idle : Pc T
  entered locked : T → Pc T

-- the collector: at its select, in the loop of a `Flush` request, in the loop after `done`, or stopped; and, once
-- it has stopped, whether a `Close` holds the write lock
pub data Phase : Type 0 where
  waiting flushing draining stopped last_drain : Phase

pub record Batcher (T : Type 0) : Type 0 where
  pub max_size : ℕ
  pub buffer_cap : ℕ
  pub queue : List T
  pub buf : List T
  pub phase : Phase
  pub done : Bool
  pub recovered : ℕ
  pub adders : List (Pc T)
  pub accepted : List T
  pub flushed : List (List T)

-- the capacity of `WithBufferSize`, if it is given
unfoldable pub buffer_size : ℕ → Option ℤ → ℕ
buffer_size max_size none = max_size
buffer_size max_size (some (pos n)) = n
buffer_size max_size (some (negsuc n)) = max_size

unfoldable pub fresh : {T : Type 0} → ℕ → ℕ → List (Pc T) → Batcher T
fresh max_size buffer_cap adders = record {
  max_size = max_size;
  buffer_cap = buffer_cap;
  queue = [];
  buf = [];
  phase = Phase.waiting;
  done = false;
  recovered = 0;
  adders = adders;
  accepted = [];
  flushed = [];
}

-- `New`; none is the panic
unfoldable pub new : {T : Type 0} → ℤ → Option ℤ → List (Pc T) → Option (Batcher T)
unfolding buffer_size fresh
new max_size size adders =
    if pos_part max_size == 0
    then none
    else some (fresh (pos_part max_size) (buffer_size (pos_part max_size) size) adders)

unfoldable pub is_locked : {T : Type 0} → Pc T → Bool
is_locked Pc.idle = false
is_locked (Pc.entered x) = false
is_locked (Pc.locked x) = true

unfoldable pub any_locked : {T : Type 0} → List (Pc T) → Bool
unfolding is_locked
any_locked [] = false
any_locked (pc ∷ pcs) = let rest = any_locked pcs in is_locked pc || rest

-- `Add` of an item by the `i`-th caller; its read lock, its send, its send straight to the collector, and its
-- return of false; a tick; a request of `Flush`; a receive; the end of a drain; the look of the collector at
-- `done`; `Close`, and its write lock
pub data Event (T : Type 0) : Type 0 where
  add : ℕ → T → Event T
  lock send hand_over refuse : ℕ → Event T
  tick request receive drain_end notice close close_lock : Event T

module _ {T : Type 0} where
  unfoldable pub at_caller : ℕ → Pc T → Batcher T → Batcher T
  at_caller i pc b = record b { adders = set b.adders i pc }

  -- the send of an accepted item
  unfoldable pub accept : ℕ → T → Batcher T → Batcher T
  unfolding at_caller
  accept i x b =
      at_caller i Pc.idle
        (record b { queue = b.queue ++ (x ∷ []); accepted = b.accepted ++ (x ∷ []) })

module _ {T : Type 0} (panics : List T → Bool) where
  -- `safeFlush`, and the new batch
  unfoldable pub safe_flush : Batcher T → Batcher T
  safe_flush b = record b {
    flushed = b.flushed ++ (b.buf ∷ []);
    buf = [];
    recovered = if panics b.buf then add64 b.recovered 1 else b.recovered;
  }

  unfoldable pub flush : Batcher T → Batcher T
  unfolding safe_flush
  flush b = if length b.buf == 0 then b else safe_flush b

  unfoldable pub add_and_maybe_flush : T → Batcher T → Batcher T
  unfolding safe_flush
  add_and_maybe_flush x b =
      let b' = record b { buf = b.buf ++ (x ∷ []) } in
      if leb b.max_size (length b'.buf) then safe_flush b' else b'

  -- the receive of an item, by the collector or by `Close`
  unfoldable pub take_item : Batcher T → Batcher T
  unfolding add_and_maybe_flush
  take_item b = elim b.queue [ [] ↦ b | x ∷ xs ↦ add_and_maybe_flush x (record b { queue = xs }) ]

  -- the end of a drain, when the channel is empty, for what comes next
  unfoldable pub drained : Phase → Batcher T → Batcher T
  unfolding flush
  drained next b = elim b.queue [ [] ↦ record (flush b) { phase = next } | x ∷ xs ↦ b ]

  unfoldable pub act_add : Event T → Phase → Pc T → Batcher T → Batcher T
  unfolding at_caller accept add_and_maybe_flush
  act_add (Event.add i x) phase Pc.idle b = if b.done then b else at_caller i (Pc.entered x) b
  act_add (Event.lock i) Phase.last_drain (Pc.entered x) b = b
  act_add (Event.lock i) phase (Pc.entered x) b = at_caller i (Pc.locked x) b
  act_add (Event.send i) phase (Pc.locked x) b =
      if ltb (length b.queue) b.buffer_cap then accept i x b else b
  act_add (Event.hand_over i) Phase.stopped (Pc.locked x) b = b
  act_add (Event.hand_over i) Phase.last_drain (Pc.locked x) b = b
  act_add (Event.hand_over i) phase (Pc.locked x) b =
      if length b.queue == 0
      then add_and_maybe_flush x
          (at_caller i Pc.idle (record b { accepted = b.accepted ++ (x ∷ []) }))
      else b
  act_add (Event.refuse i) phase (Pc.locked x) b = if b.done then at_caller i Pc.idle b else b
  act_add e phase pc b = b

  unfoldable pub caller_act : Event T → ℕ → Batcher T → Batcher T
  unfolding act_add
  caller_act e i b = elim (get_elem? b.adders i) [ none ↦ b | some pc ↦ act_add e b.phase pc b ]

  unfoldable pub act_in : Phase → Event T → Batcher T → Batcher T
  unfolding caller_act flush take_item drained
  act_in Phase.waiting Event.tick b = flush b
  act_in Phase.waiting Event.request b = record b { phase = Phase.flushing }
  act_in Phase.waiting Event.notice b = if b.done then record b { phase = Phase.draining } else b
  act_in Phase.stopped Event.receive b = b
  act_in phase Event.receive b = take_item b
  act_in Phase.flushing Event.drain_end b = drained Phase.waiting b
  act_in Phase.draining Event.drain_end b = drained Phase.stopped b
  act_in Phase.last_drain Event.drain_end b = drained Phase.stopped b
  act_in phase Event.close b = record b { done = true }
  act_in Phase.stopped Event.close_lock b =
      if any_locked b.adders then b else record b { phase = Phase.last_drain }
  act_in phase (Event.add i x) b = caller_act (Event.add i x) i b
  act_in phase (Event.lock i) b = caller_act (Event.lock i) i b
  act_in phase (Event.send i) b = caller_act (Event.send i) i b
  act_in phase (Event.hand_over i) b = caller_act (Event.hand_over i) i b
  act_in phase (Event.refuse i) b = caller_act (Event.refuse i) i b
  act_in phase e b = b

  unfoldable pub act : Event T → Batcher T → Batcher T
  unfolding act_in
  act e b = act_in b.phase e b

  unfoldable pub run : List (Event T) → Batcher T → Batcher T
  unfolding act
  run [] b = b
  run (e ∷ es) b = run es (act e b)
