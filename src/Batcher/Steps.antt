-- ===== src/Batcher/Steps.antt =====
-- What every step of the goroutines of batcher/batcher.go keeps.
use kit4go.Batcher.{
  Pc, Phase, Batcher, safe_flush, flush, add_and_maybe_flush, take_item, drained, at_caller, accept,
  Event, act_add, caller_act, any_locked, act_in, act, run,
}
use kit4go.Common.{
  ℕ, ◌+◌, ◌≤◌, ◌<◌, ◌≡◌, refl, sym, ap, ◌∙◌, ◌⊎◌, inl, inr, Bool, true, List, [], ◌∷◌, ◌++◌,
  append-nil, append_assoc, arith, ltb, leb, ◌==◌, if◌then◌else◌, Bool-cases, Option-cases, length,
  get_elem?, set, length-append,
}

module _ {T : Type 0} where
  unfoldable pub concat : List (List T) → List T
  concat [] = []
  concat (xs ∷ xss) = xs ++ concat xss

  -- no batch is empty or above the size
  unfoldable pub AllSized : ℕ → List (List T) → Type 0
  AllSized max_size [] = Unit
  AllSized max_size (xs ∷ xss) = (0 < length xs) × (length xs ≤ max_size) × AllSized max_size xss

  pub concat-append :
      (xss : List (List T)) (xs : List T) → concat (xss ++ (xs ∷ [])) ≡ concat xss ++ xs
  unfolding concat
  concat-append [] xs = append-nil xs
  concat-append (ys ∷ xss) xs =
      ap (λ zs. ys ++ zs) (concat-append xss xs) ∙ sym (append_assoc ys (concat xss) xs)

  AllSized-append :
      (max_size : ℕ) (xss : List (List T)) (xs : List T)
      → AllSized max_size xss
      → 0 < length xs
      → length xs ≤ max_size
      → AllSized max_size (xss ++ (xs ∷ []))
  unfolding AllSized
  AllSized-append max_size [] xs all h k = (h, k, tt)
  AllSized-append max_size (ys ∷ xss) xs all h k =
      (all.0, all.1, AllSized-append max_size xss xs all.2 h k)

  pub no_items : (xs : List T) → length xs == 0 ≡ true → xs ≡ []
  no_items [] h = refl
  no_items (x ∷ xs) h = ground arith

  List-cases : (xs : List T) → (xs ≡ []) ⊎ ((x : T) × (ys : List T) × (xs ≡ x ∷ ys))
  List-cases [] = inl refl
  List-cases (x ∷ ys) = inr (x, ys, refl)

  -- What every schedule keeps: the flushed batches, the batch that is built and the channel hold the accepted items
  -- in order.
  abbrev pub Sound : Batcher T → Type 0
  Sound b =
      (0 < b.max_size)
      × (concat b.flushed ++ (b.buf ++ b.queue) ≡ b.accepted)
      × (length b.buf < b.max_size)
      × AllSized b.max_size b.flushed

module _ {T : Type 0} (panics : List T → Bool) where
  safe_flush-Sound :
      (b : Batcher T)
      → 0 < b.max_size
      → concat b.flushed ++ (b.buf ++ b.queue) ≡ b.accepted
      → 0 < length b.buf
      → length b.buf ≤ b.max_size
      → AllSized b.max_size b.flushed
      → Sound (safe_flush panics b)
  unfolding safe_flush
  safe_flush-Sound b some_size order some_item small sized = (
    some_size,
    ap (λ zs. zs ++ b.queue) (concat-append b.flushed b.buf)
        ∙ append_assoc (concat b.flushed) b.buf b.queue
        ∙ order,
    some_size,
    AllSized-append b.max_size b.flushed b.buf sized some_item small,
  )

  flush-Sound : (b : Batcher T) → Sound b → Sound (flush panics b)
  unfolding flush
  flush-Sound b h = elim (Bool-cases (length b.buf == 0)) [
    | inl empty ↦ rw empty h
    | inr some_item ↦
        rw some_item (safe_flush-Sound b h.0 h.1 (ground arith) (omega (arith, h.2)) h.3)
  ]

  add_and_maybe_flush-Sound :
      (x : T) (b : Batcher T)
      → 0 < b.max_size
      → concat b.flushed ++ ((b.buf ++ (x ∷ [])) ++ b.queue) ≡ b.accepted
      → length b.buf < b.max_size
      → AllSized b.max_size b.flushed
      → Sound (add_and_maybe_flush panics x b)
  unfolding add_and_maybe_flush
  add_and_maybe_flush-Sound x b some_size order small sized =
      let size : length (b.buf ++ (x ∷ [])) ≡ length b.buf + 1 = length-append b.buf (x ∷ []) in
      elim (Bool-cases (leb b.max_size (length (b.buf ++ (x ∷ []))))) [
        | inl full ↦ rw full (
            safe_flush-Sound (record b { buf = b.buf ++ (x ∷ []) }) some_size order
              (omega (arith, size)) (omega (arith, size, small)) sized)
        | inr room ↦ rw room (some_size, order, ground arith, sized)
      ]

  take_item-Sound : (b : Batcher T) → Sound b → Sound (take_item panics b)
  unfolding take_item
  take_item-Sound b h = elim (List-cases b.queue) [
    | inl e ↦ rw (e, take_item) h
    | inr (x, xs, e) ↦
        let order : concat b.flushed ++ ((b.buf ++ (x ∷ [])) ++ xs) ≡ b.accepted =
          ap (λ zs. concat b.flushed ++ zs) (append_assoc b.buf (x ∷ []) xs)
          ∙ ap (λ zs. concat b.flushed ++ (b.buf ++ zs)) (sym e)
          ∙ h.1 in
        rw (e, take_item) (add_and_maybe_flush-Sound x (record b { queue = xs }) h.0 order h.2 h.3)
  ]

  drained-Sound : (next : Phase) (b : Batcher T) → Sound b → Sound (drained panics next b)
  unfolding drained
  drained-Sound next b h = elim (List-cases b.queue) [
    | inl e ↦ rw (e, drained) (flush-Sound b h)
    | inr (x, xs, e) ↦ rw (e, drained) h
  ]

  accept-Sound : (i : ℕ) (x : T) (b : Batcher T) → Sound b → Sound (accept i x b)
  unfolding accept at_caller
  accept-Sound i x b h = (
    h.0,
    ap (λ zs. concat b.flushed ++ zs) (sym (append_assoc b.buf b.queue (x ∷ [])))
        ∙ sym (append_assoc (concat b.flushed) (b.buf ++ b.queue) (x ∷ []))
        ∙ ap (λ zs. zs ++ (x ∷ [])) h.1,
    h.2,
    h.3,
  )

  hand_over-Sound :
      (i : ℕ) (x : T) (b : Batcher T)
      → Sound b
      → Sound (
          if length b.queue == 0
          then add_and_maybe_flush panics x
              (at_caller i Pc.idle (record b { accepted = b.accepted ++ (x ∷ []) }))
          else b)
  unfolding at_caller
  hand_over-Sound i x b h = elim (Bool-cases (length b.queue == 0)) [
    | inr busy ↦ rw busy h
    | inl empty ↦
        let e = no_items b.queue empty in
        let order : concat b.flushed ++ ((b.buf ++ (x ∷ [])) ++ b.queue) ≡ b.accepted ++ (x ∷ []) =
          ap (λ zs. concat b.flushed ++ zs)
            (ap (λ q. (b.buf ++ (x ∷ [])) ++ q) e
              ∙ append-nil (b.buf ++ (x ∷ []))
              ∙ ap (λ zs. zs ++ (x ∷ [])) (sym (append-nil b.buf) ∙ ap (λ q. b.buf ++ q) (sym e)))
          ∙ sym (append_assoc (concat b.flushed) (b.buf ++ b.queue) (x ∷ []))
          ∙ ap (λ zs. zs ++ (x ∷ [])) h.1 in
        rw empty (
          add_and_maybe_flush-Sound x
            (record b { accepted = b.accepted ++ (x ∷ []); adders = set b.adders i Pc.idle }) h.0
            order h.2 h.3)
  ]

  act_add-Sound :
      (e : Event T) (phase : Phase) (pc : Pc T) (b : Batcher T)
      → Sound b
      → Sound (act_add panics e phase pc b)
  unfolding act_add at_caller
  act_add-Sound (Event.add i x) phase Pc.idle b h = elim (Bool-cases b.done) [
    | inl shut ↦ rw shut h
    | inr live ↦ rw live h
  ]
  act_add-Sound (Event.lock i) Phase.last_drain (Pc.entered x) b h = h
  act_add-Sound (Event.lock i) phase (Pc.entered x) b h = h
  act_add-Sound (Event.send i) phase (Pc.locked x) b h =
      elim (Bool-cases (ltb (length b.queue) b.buffer_cap)) [
        | inl room ↦ rw room (accept-Sound i x b h)
        | inr full ↦ rw full h
      ]
  act_add-Sound (Event.hand_over i) Phase.stopped (Pc.locked x) b h = h
  act_add-Sound (Event.hand_over i) Phase.last_drain (Pc.locked x) b h = h
  act_add-Sound (Event.hand_over i) phase (Pc.locked x) b h = hand_over-Sound i x b h
  act_add-Sound (Event.refuse i) phase (Pc.locked x) b h = elim (Bool-cases b.done) [
    | inl shut ↦ rw shut h
    | inr live ↦ rw live h
  ]
  act_add-Sound e phase pc b h = h

  caller_act-Sound :
      (e : Event T) (i : ℕ) (b : Batcher T) → Sound b → Sound (caller_act panics e i b)
  unfolding caller_act
  caller_act-Sound e i b h = elim (Option-cases (get_elem? b.adders i)) [
    | inl none_there ↦ rw (none_there, caller_act) h
    | inr (pc, there) ↦ rw (there, caller_act) (act_add-Sound e b.phase pc b h)
  ]

  act_in-Sound :
      (phase : Phase) (e : Event T) (b : Batcher T) → Sound b → Sound (act_in panics phase e b)
  unfolding act_in
  act_in-Sound Phase.waiting Event.tick b h = flush-Sound b h
  act_in-Sound Phase.waiting Event.request b h = h
  act_in-Sound Phase.waiting Event.notice b h = elim (Bool-cases b.done) [
    | inl shut ↦ rw shut h
    | inr live ↦ rw live h
  ]
  act_in-Sound Phase.stopped Event.receive b h = h
  act_in-Sound phase Event.receive b h = take_item-Sound b h
  act_in-Sound Phase.flushing Event.drain_end b h = drained-Sound Phase.waiting b h
  act_in-Sound Phase.draining Event.drain_end b h = drained-Sound Phase.stopped b h
  act_in-Sound Phase.last_drain Event.drain_end b h = drained-Sound Phase.stopped b h
  act_in-Sound phase Event.close b h = h
  act_in-Sound Phase.stopped Event.close_lock b h = elim (Bool-cases (any_locked b.adders)) [
    | inl held ↦ rw held h
    | inr free ↦ rw free h
  ]
  act_in-Sound phase (Event.add i x) b h = caller_act-Sound (Event.add i x) i b h
  act_in-Sound phase (Event.lock i) b h = caller_act-Sound (Event.lock i) i b h
  act_in-Sound phase (Event.send i) b h = caller_act-Sound (Event.send i) i b h
  act_in-Sound phase (Event.hand_over i) b h = caller_act-Sound (Event.hand_over i) i b h
  act_in-Sound phase (Event.refuse i) b h = caller_act-Sound (Event.refuse i) i b h
  act_in-Sound phase e b h = h

  pub run-Sound : (es : List (Event T)) (b : Batcher T) → Sound b → Sound (run panics es b)
  unfolding run act
  run-Sound [] b h = h
  run-Sound (e ∷ es) b h = run-Sound es (act panics e b) (act_in-Sound b.phase e b h)
