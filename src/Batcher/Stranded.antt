-- ===== src/Batcher/Stranded.antt =====
-- A call of `Add` in batcher/batcher.go that looked at `done` before a `Close` and sends after it.
use kit4go.Batcher.{
  Pc, Phase, Batcher, fresh, flush, drained, at_caller, accept, Event, act_add, caller_act,
  any_locked, is_locked, act_in, act, run,
}
use kit4go.Common.{
  ℕ, suc, ◌≡◌, refl, sym, ap, ◌∙◌, inl, inr, Bool, true, List, [], ◌∷◌, ◌++◌, arith, ltb,
  Option-cases, get_elem?, subst,
}

module _ {T : Type 0} where
  -- no further `Close` takes the write lock
  unfoldable pub NoClose : List (Event T) → Type 0
  NoClose [] = Unit
  NoClose (Event.close_lock ∷ es) = ⊥
  NoClose (e ∷ es) = NoClose es

  -- the look at `done`, the whole of a `Close`, and then the read lock and the send
  abbrev pub late_send : T → List (Event T)
  late_send x =
      Event.add 0 x
      ∷ Event.close
      ∷ Event.notice
      ∷ Event.drain_end
      ∷ Event.close_lock
      ∷ Event.drain_end
      ∷ Event.lock 0
      ∷ Event.send 0
      ∷ []

module _ {T : Type 0} (panics : List T → Bool) where
  run-append :
      (es fs : List (Event T)) (b : Batcher T)
      → run panics (es ++ fs) b ≡ run panics fs (run panics es b)
  unfolding run
  run-append [] fs b = refl
  run-append (e ∷ es) fs b = run-append es fs (act panics e b)

  abbrev IsStill : Batcher T → Batcher T → Type 0
  IsStill b b' = (b'.phase ≡ Phase.stopped) × (b'.flushed ≡ b.flushed)

  act_add-IsStill :
      (e : Event T) (pc : Pc T) (b : Batcher T)
      → b.phase ≡ Phase.stopped
      → IsStill b (act_add panics e Phase.stopped pc b)
  unfolding act_add at_caller accept
  act_add-IsStill (Event.add i x) Pc.idle b h = ground (arith, h)
  act_add-IsStill (Event.lock i) (Pc.entered x) b h = (h, refl)
  act_add-IsStill (Event.send i) (Pc.locked x) b h = ground (arith, h)
  act_add-IsStill (Event.hand_over i) (Pc.locked x) b h = (h, refl)
  act_add-IsStill (Event.refuse i) (Pc.locked x) b h = ground (arith, h)
  act_add-IsStill e pc b h = (h, refl)

  caller_act-IsStill :
      (e : Event T) (i : ℕ) (b : Batcher T)
      → b.phase ≡ Phase.stopped
      → IsStill b (caller_act panics e i b)
  unfolding caller_act
  caller_act-IsStill e i b h = elim (Option-cases (get_elem? b.adders i)) [
    | inl none_there ↦ rw (none_there, caller_act) (h, refl)
    | inr (pc, there) ↦
        rw (there, caller_act)
          (subst (λ (p : Phase). IsStill b (act_add panics e p pc b)) (sym h)
            (act_add-IsStill e pc b h))
  ]

  act_in-IsStill :
      (e : Event T) (es : List (Event T)) (b : Batcher T)
      → NoClose (e ∷ es)
      → b.phase ≡ Phase.stopped
      → NoClose es × IsStill b (act_in panics Phase.stopped e b)
  unfolding act_in NoClose
  act_in-IsStill (Event.add i x) es b no_close h =
      (no_close, caller_act-IsStill (Event.add i x) i b h)
  act_in-IsStill (Event.lock i) es b no_close h =
      (no_close, caller_act-IsStill (Event.lock i) i b h)
  act_in-IsStill (Event.send i) es b no_close h =
      (no_close, caller_act-IsStill (Event.send i) i b h)
  act_in-IsStill (Event.hand_over i) es b no_close h =
      (no_close, caller_act-IsStill (Event.hand_over i) i b h)
  act_in-IsStill (Event.refuse i) es b no_close h =
      (no_close, caller_act-IsStill (Event.refuse i) i b h)
  act_in-IsStill Event.close_lock es b no_close h = absurd no_close
  act_in-IsStill e es b no_close h = (no_close, (h, refl))

  run-IsStill :
      (es : List (Event T)) (b : Batcher T)
      → NoClose es
      → b.phase ≡ Phase.stopped
      → IsStill b (run panics es b)
  unfolding run act
  run-IsStill [] b no_close h = (h, refl)
  run-IsStill (e ∷ es) b no_close h =
      let (rest, still) = act_in-IsStill e es b no_close h in
      let moved : IsStill b (act panics e b) =
        subst (λ (p : Phase). IsStill b (act_in panics p e b)) (sym h) still in
      let (phase, flushed) = run-IsStill es (act panics e b) rest moved.0 in
      (phase, flushed ∙ moved.1)

  late_send-stops :
      (max_size room : ℕ) (x : T)
      → let b = run panics (late_send x) (fresh (suc max_size) (suc room) (Pc.idle ∷ [])) in
        (b.accepted ≡ x ∷ []) × (b.flushed ≡ []) × (b.phase ≡ Phase.stopped)
  unfolding run act act_in caller_act act_add at_caller accept drained flush any_locked is_locked
      fresh
  late_send-stops max_size room x =
      let fits : ltb 0 (suc room) ≡ true = ground arith in rw fits (refl, refl, refl)

  -- For every size of the batches, every buffer that is not empty, and every item there is a schedule in which a call
  -- of `Add` returns true after `Close` has returned; and whatever happens then, short of the write lock of one
  -- more `Close`, the item is accepted and nothing is flushed.
  pub late_send_lem :
      (max_size room : ℕ) (x : T) (es : List (Event T))
      → NoClose es
      → ((run panics (late_send x) (fresh (suc max_size) (suc room) (Pc.idle ∷ []))).accepted
          ≡ x ∷ [])
        × ((run panics (late_send x ++ es) (fresh (suc max_size) (suc room) (Pc.idle ∷ []))).flushed
            ≡ [])
  late_send_lem max_size room x es no_close =
      let start = fresh (suc max_size) (suc room) (Pc.idle ∷ []) in
      let (accepted, flushed, phase) = late_send-stops max_size room x in
      let (stays, same) = run-IsStill es (run panics (late_send x) start) no_close phase in
      (
        accepted,
        ap (λ (b : Batcher T). b.flushed) (run-append (late_send x) es start) ∙ same ∙ flushed,
      )
