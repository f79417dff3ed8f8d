-- ===== src/MultiMap/Buckets.antt =====
-- A multimap of multimap/multimap.go behaves as the function that gives each key its values.
use mathlib.Core.Logic.{ite, if_pos, if_neg}
use kit4go.Common.Assoc.{
  lookup, put, erase, lookup-put_self, lookup-put_ne, lookup-erase_self, lookup-erase_ne,
}
use kit4go.MultiMap.{
  MultiMap, new, bucket_of, behind, drop_first, get, add, add_all, set as set_bucket, delete,
  delete_value, clear,
}
use kit4go.Common.{
  ℕ, suc, ◌≡◌, refl, sym, ap, ap₂, ◌∙◌, inl, inr, Bool, true, false, Option, none, some, List, [],
  ◌∷◌, ◌++◌, arith, ◌==◌, if◌then◌else◌, Bool-cases, Option-cases, length, take, drop, subst,
}

pub data Call (K V : Type 0) : Type 0 where
  call_add : K → V → Call K V
  call_add_all call_set : K → List V → Call K V
  call_delete : K → Call K V
  call_delete_value : K → V → Call K V
  call_clear : Call K V

unfoldable pub one_on : Option ℕ → Option ℕ
one_on none = none
one_on (some i) = some (suc i)

module _ {K V : Type 0} (dec : Discrete K) (dec_value : Discrete V) where
  -- the map after a call, and whether `DeleteValue` found its value
  unfoldable pub call : Call K V → MultiMap K V → MultiMap K V × Bool
  call (Call.call_add k v) mm = (add dec k v mm, true)
  call (Call.call_add_all k vs) mm = (add_all dec k vs mm, true)
  call (Call.call_set k vs) mm = (set_bucket dec k vs mm, true)
  call (Call.call_delete k) mm = (delete dec k mm, true)
  call (Call.call_delete_value k v) mm = delete_value dec dec_value k v mm
  call Call.call_clear mm = (clear mm, true)

  -- a function with a new value at one key
  unfoldable pub at : K → List V → (K → List V) → K → List V
  at k vs f j = ite (dec k j) vs (f j)

  -- the place of the first occurrence of a value
  unfoldable pub index_of : V → List V → Option ℕ
  unfolding one_on
  index_of v [] = none
  index_of v (x ∷ xs) = ite (dec_value x v) (some 0) (one_on (index_of v xs))

  -- the values without the one at that place, if there is one
  abbrev pub without : List V → Option ℕ → Option (List V)
  without xs none = none
  without xs (some i) = some (take i xs ++ drop (suc i) xs)

  without-one_on :
      (x : V) (xs : List V) (place : Option ℕ)
      → without (x ∷ xs) (one_on place) ≡ behind x (without xs place)
  unfolding behind one_on
  without-one_on x xs none = refl
  without-one_on x xs (some i) = refl

  drop_first-index_of :
      (v : V) (xs : List V) → drop_first dec_value v xs ≡ without xs (index_of v xs)
  unfolding drop_first index_of
  drop_first-index_of v [] = refl
  drop_first-index_of v (x ∷ xs) = elim (dec_value x v) [
    | yes e ↦
        if_pos (dec_value x v) e _ _
        ∙ ap (without (x ∷ xs)) (sym (if_pos (dec_value x v) e (some 0) (one_on (index_of v xs))))
    | no ne ↦
        if_neg (dec_value x v) ne _ _
        ∙ ap (behind x) (drop_first-index_of v xs)
        ∙ sym (without-one_on x xs (index_of v xs))
        ∙ ap (without (x ∷ xs)) (sym (if_neg (dec_value x v) ne (some 0) (one_on (index_of v xs))))
  ]

  -- the same calls on functions
  unfoldable pub promise : Call K V → (K → List V) → (K → List V) × Bool
  unfolding at index_of
  promise (Call.call_add k v) f = (at k (f k ++ (v ∷ [])) f, true)
  promise (Call.call_add_all k vs) f = (at k (f k ++ vs) f, true)
  promise (Call.call_set k vs) f = (at k vs f, true)
  promise (Call.call_delete k) f = (at k [] f, true)
  promise (Call.call_delete_value k v) f = elim (without (f k) (index_of v (f k))) [
    | none ↦ (f, false)
    | some rest ↦ (at k rest f, true)
  ]
  promise Call.call_clear f = ((λ j. []), true)

  Shows : MultiMap K V → (K → List V) → Type 0
  Shows mm f = (j : K) → get dec j mm ≡ f j

  put-Shows :
      (k : K) (vs : List V) (mm : MultiMap K V) (f : K → List V)
      → Shows mm f
      → Shows (record mm { m = put dec k vs mm.m }) (at k vs f)
  unfolding Shows get at bucket_of
  put-Shows k vs mm f h j = elim (dec k j) [
    | yes e ↦
        let stored =
          ap (λ (i : K). lookup dec i (put dec k vs mm.m)) (sym e)
          ∙ lookup-put_self dec k vs mm.m in
        ap bucket_of stored ∙ sym (if_pos (dec k j) e vs (f j))
    | no ne ↦
        ap bucket_of (lookup-put_ne dec j k vs mm.m (λ e. ne (sym e)))
        ∙ h j
        ∙ sym (if_neg (dec k j) ne vs (f j))
  ]

  erase-Shows :
      (k : K) (mm : MultiMap K V) (f : K → List V)
      → Shows mm f
      → Shows (record mm { m = erase dec k mm.m }) (at k [] f)
  unfolding Shows get at bucket_of
  erase-Shows k mm f h j = elim (dec k j) [
    | yes e ↦
        let gone =
          ap (λ (i : K). lookup dec i (erase dec k mm.m)) (sym e) ∙ lookup-erase_self dec k mm.m in
        ap bucket_of gone ∙ sym (if_pos (dec k j) e [] (f j))
    | no ne ↦
        ap bucket_of (lookup-erase_ne dec j k mm.m (λ e. ne (sym e)))
        ∙ h j
        ∙ sym (if_neg (dec k j) ne [] (f j))
  ]

  no_values : (vs : List V) → length vs == 0 ≡ true → vs ≡ []
  no_values [] h = refl
  no_values (v ∷ vs) h = ground arith

  set-Shows :
      (k : K) (vs : List V) (mm : MultiMap K V) (f : K → List V)
      → Shows mm f
      → Shows
          (record mm { m = if length vs == 0 then erase dec k mm.m else put dec k vs mm.m })
          (at k vs f)
  unfolding Shows
  set-Shows k vs mm f h = elim (Bool-cases (length vs == 0)) [
    | inl empty ↦
        subst
          (λ (us : List V).
            Shows (record mm { m = if length vs == 0 then erase dec k mm.m else put dec k vs mm.m })
              (at k us f))
          (sym (no_values vs empty)) (rw empty (erase-Shows k mm f h))
    | inr given ↦ rw given (put-Shows k vs mm f h)
  ]

  abbrev Agree : MultiMap K V × Bool → (K → List V) × Bool → Type 0
  Agree r p = Shows r.0 p.0 × (r.1 ≡ p.1)

  delete_value_absent :
      (k : K) (v : V) (mm : MultiMap K V)
      → lookup dec k mm.m ≡ none
      → delete_value dec dec_value k v mm ≡ (mm, false)
  unfolding delete_value
  delete_value_absent k v mm absent = rw (absent, delete_value) refl

  delete_value_there :
      (k : K) (v : V) (mm : MultiMap K V) (bucket : List V)
      → lookup dec k mm.m ≡ some bucket
      → delete_value dec dec_value k v mm ≡ (elim (drop_first dec_value v bucket) [
        | none ↦ (mm, false)
        | some rest ↦ (
          record mm { m = if length rest == 0 then erase dec k mm.m else put dec k rest mm.m },
          true,
        )
      ])
  unfolding delete_value
  delete_value_there k v mm bucket there = rw (there, delete_value) refl

  promise_missing :
      (k : K) (v : V) (f : K → List V)
      → without (f k) (index_of v (f k)) ≡ none
      → promise (Call.call_delete_value k v) f ≡ (f, false)
  unfolding promise
  promise_missing k v f missing = rw (missing, promise) refl

  promise_found :
      (k : K) (v : V) (f : K → List V) (rest : List V)
      → without (f k) (index_of v (f k)) ≡ some rest
      → promise (Call.call_delete_value k v) f ≡ (at k rest f, true)
  unfolding promise
  promise_found k v f rest found = rw (found, promise) refl

  delete_value-Agree :
      (k : K) (v : V) (mm : MultiMap K V) (f : K → List V)
      → Shows mm f
      → Agree (delete_value dec dec_value k v mm) (promise (Call.call_delete_value k v) f)
  unfolding Shows get bucket_of drop_first
  delete_value-Agree k v mm f h = elim (Option-cases (lookup dec k mm.m)) [
    | inl absent ↦
        let none_there : without (f k) (index_of v (f k)) ≡ none =
          sym (drop_first-index_of v (f k))
          ∙ ap (drop_first dec_value v) (sym (h k) ∙ ap bucket_of absent) in
        subst (λ r. Agree r (promise (Call.call_delete_value k v) f))
          (sym (delete_value_absent k v mm absent))
          (subst (Agree (mm, false)) (sym (promise_missing k v f none_there)) (h, refl))
    | inr (bucket, there) ↦
        let same : f k ≡ bucket = sym (h k) ∙ ap bucket_of there in
        elim (Option-cases (drop_first dec_value v bucket)) [
          | inl missing ↦
              let gone =
                sym (drop_first-index_of v (f k)) ∙ ap (drop_first dec_value v) same ∙ missing in
              let code : delete_value dec dec_value k v mm ≡ (mm, false) =
                delete_value_there k v mm bucket there ∙ rw missing refl in
              subst (λ r. Agree r (promise (Call.call_delete_value k v) f)) (sym code)
                (subst (Agree (mm, false)) (sym (promise_missing k v f gone)) (h, refl))
          | inr (rest, found) ↦
              let left = record mm {
                m = if length rest == 0 then erase dec k mm.m else put dec k rest mm.m;
              } in
              let kept =
                sym (drop_first-index_of v (f k)) ∙ ap (drop_first dec_value v) same ∙ found in
              let code : delete_value dec dec_value k v mm ≡ (left, true) =
                delete_value_there k v mm bucket there ∙ rw found refl in
              subst (λ r. Agree r (promise (Call.call_delete_value k v) f)) (sym code)
                (subst (Agree (left, true)) (sym (promise_found k v f rest kept))
                  (set-Shows k rest mm f h, refl))
        ]
  ]

  call-Shows :
      (c : Call K V) (mm : MultiMap K V) (f : K → List V)
      → Shows mm f
      → Shows (call c mm).0 (promise c f).0 × ((call c mm).1 ≡ (promise c f).1)
  unfolding call promise add add_all set_bucket delete clear Shows get bucket_of lookup
  call-Shows (Call.call_add k v) mm f h = (
    subst
        (λ (vs : List V).
          Shows (record mm { m = put dec k (get dec k mm ++ (v ∷ [])) mm.m }) (at k vs f))
        (ap (λ (vs : List V). vs ++ (v ∷ [])) (h k))
        (put-Shows k (get dec k mm ++ (v ∷ [])) mm f h),
    refl,
  )
  call-Shows (Call.call_add_all k vs) mm f h = (
    subst
        (λ (us : List V). Shows (record mm { m = put dec k (get dec k mm ++ vs) mm.m }) (at k us f))
        (ap (λ (us : List V). us ++ vs) (h k)) (put-Shows k (get dec k mm ++ vs) mm f h),
    refl,
  )
  call-Shows (Call.call_set k vs) mm f h = (set-Shows k vs mm f h, refl)
  call-Shows (Call.call_delete k) mm f h = (erase-Shows k mm f h, refl)
  call-Shows (Call.call_delete_value k v) mm f h = delete_value-Agree k v mm f h
  call-Shows Call.call_clear mm f h = ((λ j. refl), refl)

  unfoldable pub run : List (Call K V) → MultiMap K V → MultiMap K V × List Bool
  run [] mm = (mm, [])
  run (c ∷ cs) mm = let (mm', answers) = run cs (call c mm).0 in (mm', (call c mm).1 ∷ answers)

  unfoldable pub promise_run : List (Call K V) → (K → List V) → (K → List V) × List Bool
  promise_run [] f = (f, [])
  promise_run (c ∷ cs) f =
      let (f', answers) = promise_run cs (promise c f).0 in (f', (promise c f).1 ∷ answers)

  new-Shows : Shows new (λ k. [])
  unfolding Shows get new bucket_of lookup
  new-Shows j = refl

  run-Shows :
      (cs : List (Call K V)) (mm : MultiMap K V) (f : K → List V)
      → Shows mm f
      → Shows (run cs mm).0 (promise_run cs f).0 × ((run cs mm).1 ≡ (promise_run cs f).1)
  unfolding run promise_run
  run-Shows [] mm f h = (h, refl)
  run-Shows (c ∷ cs) mm f h =
      let (shown, answer) = call-Shows c mm f h in
      let (all, answers) = run-Shows cs (call c mm).0 (promise c f).0 shown in
      (all, ap₂ ◌∷◌ answer answers)

  -- After any calls on a new multimap, `Get` of every key gives the values that the function from keys to values gives,
  -- on which the same calls act: `Add` and `AddAll` append, `Set` replaces, `Delete` and `Clear` leave nothing,
  -- `DeleteValue` drops the element at the first place that has the value; and each `DeleteValue` answered whether there was one.
  pub calls_refine :
      (cs : List (Call K V)) (j : K)
      → (get dec j (run cs new).0 ≡ (promise_run cs (λ k. [])).0 j)
        × ((run cs new).1 ≡ (promise_run cs (λ k. [])).1)
  unfolding Shows
  calls_refine cs j =
      let (shown, answers) = run-Shows cs new (λ k. []) new-Shows in (shown j, answers)
