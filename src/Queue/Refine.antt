-- ===== src/Queue/Refine.antt =====
-- The queue of queue/queue.go answers as a list of its elements does.
use kit4go.Queue.{
  Queue, new, enqueue, compact, dequeue, front, back, len, is_empty, clear, to_slice,
}
use kit4go.Queue.Calls.{Op, Reply, done, item, number, test, slice, last, list_step, list_run}
use kit4go.Common.{
  ℕ, zero, suc, ◌-◌, ◌/◌, ◌≤◌, ◌<◌, ◌≡◌, refl, sym, ap, ap₂, ◌∙◌, inl, inr, true, false, some, List,
  [], ◌∷◌, ◌++◌, arith, ltb, leb, leb→le, Bool-cases, length, set, length-append, length-set,
  get_or, drop, length-drop,
}

module _ {A : Type 0} where
  -- the same calls on the queue
  unfoldable pub step : A → Op A → Queue A → Reply A × Queue A
  step z (Op.enqueue v) q = (done, enqueue v q)
  step z Op.dequeue q = let (found, q') = dequeue z q in (item found, q')
  step z Op.front q = (item (front z q), q)
  step z Op.back q = (item (back z q), q)
  step z Op.len q = (number (len q), q)
  step z Op.is_empty q = (test (is_empty q), q)
  step z Op.clear q = (done, clear q)
  step z Op.to_slice q = (slice (to_slice q), q)

  unfoldable pub run : A → List (Op A) → Queue A → List (Reply A)
  unfolding step
  run z [] q = []
  run z (o ∷ os) q = let (r, q') = step z o q in r ∷ run z os q'

  abbrev pub IsValid : Queue A → Type 0
  IsValid q = q.head ≤ length q.items

  drop-append : (i : ℕ) (xs ys : List A) → i ≤ length xs → drop i (xs ++ ys) ≡ drop i xs ++ ys
  drop-append zero xs ys h = refl
  drop-append (suc i) [] ys h = absurd (omega arith)
  drop-append (suc i) (x ∷ xs) ys h = drop-append i xs ys (omega arith)

  drop-at :
      (z : A) (i : ℕ) (xs : List A) → i < length xs → drop i xs ≡ get_or xs i z ∷ drop (suc i) xs
  drop-at z i [] h = absurd (omega arith)
  drop-at z zero (x ∷ xs) h = refl
  drop-at z (suc i) (x ∷ xs) h = drop-at z i xs (omega arith)

  drop-set : (i : ℕ) (xs : List A) (v : A) → drop (suc i) (set xs i v) ≡ drop (suc i) xs
  drop-set i [] v = refl
  drop-set zero (x ∷ xs) v = refl
  drop-set (suc i) (x ∷ xs) v = drop-set i xs v

  drop-end : (i : ℕ) (xs : List A) → length xs ≤ i → drop i xs ≡ []
  drop-end zero [] h = refl
  drop-end zero (x ∷ xs) h = absurd (omega arith)
  drop-end (suc i) [] h = refl
  drop-end (suc i) (x ∷ xs) h = drop-end i xs (omega arith)

  last-get_or : (z : A) (n : ℕ) (xs : List A) → length xs ≡ suc n → last xs ≡ some (get_or xs n z)
  last-get_or z n [] h = absurd (omega arith)
  last-get_or z zero (x ∷ []) h = refl
  last-get_or z (suc n) (x ∷ []) h = absurd (omega arith)
  last-get_or z zero (x ∷ y ∷ ys) h = absurd (omega arith)
  last-get_or z (suc n) (x ∷ y ∷ ys) h = last-get_or z n (y ∷ ys) (omega arith)

  last-drop :
      (z : A) (n i : ℕ) (xs : List A)
      → i < length xs
      → length xs ≡ suc n
      → last (drop i xs) ≡ some (get_or xs n z)
  last-drop z n zero xs h e = last-get_or z n xs e
  last-drop z n (suc i) [] h e = absurd (omega arith)
  last-drop z n (suc i) (x ∷ []) h e = absurd (omega arith)
  last-drop z zero (suc i) (x ∷ y ∷ ys) h e = absurd (omega arith)
  last-drop z (suc n) (suc i) (x ∷ y ∷ ys) h e =
      last-drop z n i (y ∷ ys) (omega arith) (omega arith)

  compact_lem :
      (q : Queue A) → IsValid q → (to_slice (compact q) ≡ to_slice q) × IsValid (compact q)
  unfolding compact to_slice
  compact_lem q h = elim (Bool-cases (ltb (length q.items / 2) q.head)) [
    | inl e ↦ rw e (refl, omega arith)
    | inr e ↦ rw e (refl, h)
  ]

  enqueue-IsValid : (v : A) (q : Queue A) → IsValid q → IsValid (enqueue v q)
  unfolding enqueue
  enqueue-IsValid v q h = let longer = length-append q.items (v ∷ []) in omega arith

  Refines : A → Op A → Queue A → Type 0
  Refines z o q =
      ((step z o q).0 ≡ (list_step o (to_slice q)).0)
      × (to_slice (step z o q).1 ≡ (list_step o (to_slice q)).1)
      × IsValid (step z o q).1

  step_empty :
      (z : A) (o : Op A) (q : Queue A)
      → IsValid q
      → leb (length q.items) q.head ≡ true
      → drop q.head q.items ≡ []
      → Refines z o q
  unfolding step list_step Refines dequeue front back len is_empty clear to_slice enqueue
  step_empty z (Op.enqueue v) q h e d =
      (refl, drop-append q.head q.items (v ∷ []) h, enqueue-IsValid v q h)
  step_empty z Op.dequeue q h e d = rw (e, dequeue) (rw d (refl, refl, h))
  step_empty z Op.front q h e d = rw (e, front) (rw d (refl, refl, h))
  step_empty z Op.back q h e d = rw (e, back) (rw d (refl, refl, h))
  step_empty z Op.len q h e d = (ap number (sym (length-drop q.head q.items)), refl, h)
  step_empty z Op.is_empty q h e d = rw (e, is_empty) (rw d (refl, refl, h))
  step_empty z Op.clear q h e d = (refl, refl, omega arith)
  step_empty z Op.to_slice q h e d = (refl, refl, h)

  step_more :
      (z : A) (o : Op A) (q : Queue A)
      → q.head < length q.items
      → leb (length q.items) q.head ≡ false
      → drop q.head q.items ≡ get_or q.items q.head z ∷ drop (suc q.head) q.items
      → Refines z o q
  unfolding step list_step Refines dequeue front back len is_empty clear to_slice enqueue
  step_more z (Op.enqueue v) q h e d =
      (refl, drop-append q.head q.items (v ∷ []) (omega arith), enqueue-IsValid v q (omega arith))
  step_more z Op.dequeue q h e d =
      let kept = length-set q.items q.head z in
      let pop_valid : suc q.head ≤ length (set q.items q.head z) = omega arith in
      let popped =
        compact_lem (record { items = set q.items q.head z; head = suc q.head }) pop_valid in
      rw (e, dequeue) (rw d (refl, popped.0 ∙ drop-set q.head q.items z, popped.1))
  step_more z Op.front q h e d = rw (e, front) (rw d (refl, refl, omega arith))
  step_more z Op.back q h e d =
      rw (e, back)
        (
          ap item (sym (last-drop z (length q.items - 1) q.head q.items h (omega arith))),
          refl,
          omega arith,
        )
  step_more z Op.len q h e d = (ap number (sym (length-drop q.head q.items)), refl, omega arith)
  step_more z Op.is_empty q h e d =
      rw (e, is_empty) (rw d (ap test (ground arith), refl, omega arith))
  step_more z Op.clear q h e d = (refl, refl, omega arith)
  step_more z Op.to_slice q h e d = (refl, refl, omega arith)

  step-Refines : (z : A) (o : Op A) (q : Queue A) → IsValid q → Refines z o q
  step-Refines z o q h = elim (Bool-cases (leb (length q.items) q.head)) [
    | inl e ↦ step_empty z o q h e (drop-end q.head q.items (leb→le _ _ e))
    | inr e ↦
        let lt : q.head < length q.items = ground arith in
        step_more z o q lt e (drop-at z q.head q.items lt)
  ]

  run_refines_from :
      (z : A) (os : List (Op A)) (q : Queue A) → IsValid q → run z os q ≡ list_run os (to_slice q)
  unfolding run list_run Refines
  run_refines_from z [] q h = refl
  run_refines_from z (o ∷ os) q h =
      let refined : ((step z o q).0 ≡ (list_step o (to_slice q)).0)
          × (to_slice (step z o q).1 ≡ (list_step o (to_slice q)).1)
          × IsValid (step z o q).1 =
        step-Refines z o q h in
      ap₂ (λ r rs. r ∷ rs) refined.0
        (run_refines_from z os (step z o q).1 refined.2 ∙ ap (list_run os) refined.1)

  -- Any calls on a queue made of some values answer as they do on the list of these values: the slide of
  -- the elements to the front never shows.
  pub calls_lem :
      (z : A) (os : List (Op A)) (vals : List A) → run z os (new vals) ≡ list_run os vals
  unfolding new to_slice
  calls_lem z os vals = run_refines_from z os (new vals) (omega arith)
