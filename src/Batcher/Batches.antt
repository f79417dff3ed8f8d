-- ===== src/Batcher/Batches.antt =====
-- batcher/batcher.go flushes what it accepts, in order, once, and in batches of the right size.
use mathlib.Core.Option.{some-injective}
use kit4go.Batcher.{
  Pc, Phase, Batcher, buffer_size, fresh, new, safe_flush, flush, drained, Event, act_in, act, run,
}
use kit4go.Batcher.Steps.{concat, AllSized, concat-append, no_items, Sound, run-Sound}
use kit4go.Common.Int.{ℤ, pos_part}
use kit4go.Common.{
  ◌≡◌, refl, sym, ap, ◌∙◌, inl, inr, Bool, Option, some, List, [], ◌++◌, append-nil, arith, ◌==◌,
  Bool-cases, length, subst,
}

module _ {T : Type 0} (panics : List T → Bool) where
  drained-flushes :
      (b : Batcher T)
      → concat b.flushed ++ b.buf ≡ b.accepted
      → b.queue ≡ []
      → concat (drained panics Phase.stopped b).flushed ≡ b.accepted
  unfolding drained flush safe_flush
  drained-flushes b whole empty = elim (Bool-cases (length b.buf == 0)) [
    | inl none_left ↦
        let e = no_items b.buf none_left in
        rw (empty, drained)
          (rw none_left
            (sym (append-nil (concat b.flushed)) ∙ ap (λ q. concat b.flushed ++ q) (sym e) ∙ whole))
    | inr some_left ↦ rw (empty, drained) (rw some_left (concat-append b.flushed b.buf ∙ whole))
  ]

  drain_end-flushes :
      (b : Batcher T)
      → Sound b
      → b.phase ≡ Phase.last_drain
      → b.queue ≡ []
      → concat (act panics Event.drain_end b).flushed ≡ b.accepted
  unfolding act act_in
  drain_end-flushes b h held empty =
      let whole : concat b.flushed ++ b.buf ≡ b.accepted =
        ap (λ zs. concat b.flushed ++ zs)
          (sym (append-nil b.buf) ∙ ap (λ q. b.buf ++ q) (sym empty))
        ∙ h.1 in
      ap (λ (p : Phase). concat (act_in panics p Event.drain_end b).flushed) held
      ∙ drained-flushes b whole empty

  new-Sound :
      (max_size : ℤ) (size : Option ℤ) (adders : List (Pc T)) (b : Batcher T)
      → new max_size size adders ≡ some b
      → Sound b
  unfolding new fresh concat AllSized
  new-Sound max_size size adders b e = elim (Bool-cases (pos_part max_size == 0)) [
    | inl refused ↦ ground arith
    | inr given ↦
        let cap = buffer_size (pos_part max_size) size in
        let made : new max_size size adders ≡ some (fresh (pos_part max_size) cap adders) =
          rw given refl in
        subst Sound (some-injective _ _ (sym made ∙ e)) (ground arith, refl, ground arith, tt)
  ]

  -- For a batcher that `New` made, under every interleaving of the operations of the calls of `Add`, the collector
  -- and the calls of `Close`, with ticks and requests to flush at any time, whether the flush callback panics or not:
  -- the flushed batches, then the batch that is built, then the channel hold exactly the items of the calls of
  -- `Add` that returned true, in the order of their sends; and every flushed batch has from 1 to maxSize items.
  pub batches_lem :
      (max_size : ℤ) (size : Option ℤ) (adders : List (Pc T)) (b : Batcher T) (es : List (Event T))
      → new max_size size adders ≡ some b
      → (concat (run panics es b).flushed ++ ((run panics es b).buf ++ (run panics es b).queue)
          ≡ (run panics es b).accepted)
        × AllSized (run panics es b).max_size (run panics es b).flushed
  batches_lem max_size size adders b es made =
      let h = run-Sound panics es b (new-Sound max_size size adders b made) in (h.1, h.3)

  -- From the same start: when a `Close` that holds the write lock finds the channel empty, and so returns, every item
  -- accepted until then has been flushed.
  pub close_flushes :
      (max_size : ℤ) (size : Option ℤ) (adders : List (Pc T)) (b : Batcher T) (es : List (Event T))
      → new max_size size adders ≡ some b
      → (run panics es b).phase ≡ Phase.last_drain
      → (run panics es b).queue ≡ []
      → concat (act panics Event.drain_end (run panics es b)).flushed ≡ (run panics es b).accepted
  close_flushes max_size size adders b es made held empty =
      drain_end-flushes (run panics es b)
        (run-Sound panics es b (new-Sound max_size size adders b made)) held empty
