-- ===== src/Fsm/Reach.antt =====
-- What `Send` of fsm/fsm.go does with a transition, by its four answers.
use kit4go.Fsm.{
  Rule, Machine, Sent, Fired, left, entered, heard, find_rule, accepts, act, fired, send,
}
use kit4go.Common.{
  ◌≡◌, refl, sym, ap, ◌∙◌, ◌⊎◌, inl, inr, Bool, true, false, Option, none, some, List, [], ◌∷◌,
  ◌++◌, map, arith, if◌then◌else◌, Bool-cases, Option-cases,
}

-- `r` is one of the rules
abbrev pub Among : {S E C Err : Type 0} → Rule S E C Err → List (Rule S E C Err) → Type 0
Among r [] = ⊥
Among r (x ∷ xs) = (x ≡ r) ⊎ Among r xs

-- A rule of the machine for its state and the event.
pub record IsRuleFor {S E C Err : Type 0} (m : Machine S E C Err) (event : E) (r : Rule S E C Err)
    : Type 0 where
  pub among : Among r m.rules
  pub from_here : r.source ≡ m.current
  pub for_event : r.event ≡ event

module _ {S E C Err : Type 0} (dec_s : Discrete S) (dec_e : Discrete E) where
  -- a rule that is found is one of the rules, and it is for the state and the event
  pub find_rule_lem :
      (from : S) (event : E) (rs : List (Rule S E C Err)) {r : Rule S E C Err}
      → find_rule dec_s dec_e from event rs ≡ some r
      → Among r rs × (r.source ≡ from) × (r.event ≡ event)
  unfolding find_rule
  find_rule_lem from event [] {r = r} e = absurd (ground arith)
  find_rule_lem from event (x ∷ xs) {r = r} e =
      let later : find_rule dec_s dec_e from event xs ≡ some r
          → Among r xs × (r.source ≡ from) × (r.event ≡ event) =
        find_rule_lem from event xs in
      ground arith

  find_rule-none :
      (from : S) (event : E) (rs : List (Rule S E C Err)) (r : Rule S E C Err)
      → find_rule dec_s dec_e from event rs ≡ none
      → Among r rs
      → r.source ≡ from
      → r.event ≡ event
      → ⊥
  unfolding find_rule
  find_rule-none from event [] r e there same for_it = elim there [ ]
  find_rule-none from event (x ∷ xs) r e (inl here) same for_it =
      let source : x.source ≡ from = ap (λ (q : Rule S E C Err). q.source) here ∙ same in
      let on : x.event ≡ event = ap (λ (q : Rule S E C Err). q.event) here ∙ for_it in
      ground (arith, source, on, e)
  find_rule-none from event (x ∷ xs) r e (inr there) same for_it =
      let rest : find_rule dec_s dec_e from event xs ≡ none → ⊥ =
        λ h. find_rule-none from event xs r h there same for_it in
      ground (arith, rest, e)

  -- What a call of `Send` may answer and leave. `during` is what happens to the machine while the action runs.
  pub data Step (event : E) (ctx : C) (during : Machine S E C Err → Machine S E C Err)
      (m : Machine S E C Err) : Sent Err × Machine S E C Err × List (Fired S E) → Type 0 where
    missing :
        ((r : Rule S E C Err) → ¬ (IsRuleFor m event r))
        → Step event ctx during m (Sent.no_transition, m, [])
    refused :
        (r : Rule S E C Err) (guard : C → Bool)
        → IsRuleFor m event r
        → r.guard ≡ some guard
        → guard ctx ≡ false
        → Step event ctx during m (Sent.guard_rejected, m, [])
    failed :
        (r : Rule S E C Err) (action : C → Option Err) (err : Err)
        → IsRuleFor m event r
        → (r.guard ≡ none) ⊎ ((guard : C → Bool) × (r.guard ≡ some guard) × (guard ctx ≡ true))
        → r.action ≡ some action
        → action ctx ≡ some err
        → Step event ctx during m (Sent.action_failed err, during m, [])
    taken :
        (r : Rule S E C Err)
        → IsRuleFor m event r
        → (r.guard ≡ none) ⊎ ((guard : C → Bool) × (r.guard ≡ some guard) × (guard ctx ≡ true))
        → (r.action ≡ none)
          ⊎ ((action : C → Option Err) × (r.action ≡ some action) × (action ctx ≡ none))
        → Step event ctx during m (
          Sent.sent,
          record (during m) { current = r.target },
          (if (during m).on_exit m.current then left m.current ∷ [] else [])
              ++ ((if (during m).on_enter r.target then entered r.target ∷ [] else [])
                  ++ map (λ i. heard i m.current r.target event) (during m).listeners),
        )

  accepts_free : (r : Rule S E C Err) (ctx : C) → r.guard ≡ none → accepts r ctx ≡ true
  unfolding accepts
  accepts_free r ctx free = rw (free, accepts) refl

  accepts_by :
      (r : Rule S E C Err) (ctx : C) (guard : C → Bool)
      → r.guard ≡ some guard
      → accepts r ctx ≡ guard ctx
  unfolding accepts
  accepts_by r ctx guard is = rw (is, accepts) refl

  act_by :
      (r : Rule S E C Err) (ctx : C) (action : C → Option Err)
      → r.action ≡ some action
      → act r ctx ≡ action ctx
  unfolding act
  act_by r ctx action is = rw (is, act) refl

  act_free : (r : Rule S E C Err) (ctx : C) → r.action ≡ none → act r ctx ≡ none
  unfolding act
  act_free r ctx free = rw (free, act) refl

  act-cases :
      (r : Rule S E C Err) (ctx : C)
      → ((err : Err) × (act r ctx ≡ some err)
          × ((action : C → Option Err) × (r.action ≡ some action) × (action ctx ≡ some err)))
        ⊎ ((act r ctx ≡ none)
            × ((r.action ≡ none)
                ⊎ ((action : C → Option Err) × (r.action ≡ some action) × (action ctx ≡ none))))
  act-cases r ctx = elim (Option-cases r.action) [
    | inl free ↦ inr (act_free r ctx free, inl free)
    | inr (action, is) ↦ elim (Option-cases (action ctx)) [
      | inl fine ↦ inr (act_by r ctx action is ∙ fine, inr (action, is, fine))
      | inr (err, fails) ↦ inl (err, act_by r ctx action is ∙ fails, (action, is, fails))
    ]
  ]

  accepts-true :
      (r : Rule S E C Err) (ctx : C)
      → accepts r ctx ≡ true
      → (r.guard ≡ none) ⊎ ((guard : C → Bool) × (r.guard ≡ some guard) × (guard ctx ≡ true))
  unfolding accepts
  accepts-true r ctx h = elim (Option-cases r.guard) [
    | inl free ↦ inl free
    | inr (guard, is) ↦ inr (guard, is, sym (accepts_by r ctx guard is) ∙ h)
  ]

  accepts-false :
      (r : Rule S E C Err) (ctx : C)
      → accepts r ctx ≡ false
      → (guard : C → Bool) × (r.guard ≡ some guard) × (guard ctx ≡ false)
  unfolding accepts
  accepts-false r ctx h = elim (Option-cases r.guard) [
    | inl free ↦ absurd (ground (arith, accepts_free r ctx free, h))
    | inr (guard, is) ↦ (guard, is, sym (accepts_by r ctx guard is) ∙ h)
  ]

  -- `Send` answers in one of four ways. There is no transition, and the machine is as it was: then no rule is for its
  -- state and the event. Or there is a rule for them. Its guard rejects the context, and the machine is as it was; or it
  -- has no guard or one that accepts the context, and its action fails with the error that is returned, which leaves
  -- what the action's time left; or it has no action or one that succeeds, and then the current state is the rule's
  -- target, and the hooks and the listeners were called, in order.
  pub send-Step :
      (event : E) (ctx : C) (during : Machine S E C Err → Machine S E C Err) (m : Machine S E C Err)
      → Step event ctx during m (send dec_s dec_e event ctx during m)
  unfolding send fired
  send-Step event ctx during m =
      elim (Option-cases (find_rule dec_s dec_e m.current event m.rules)) [
        | inl none_ ↦
            rw (none_, send)
              (missing (λ r for_it.
                find_rule-none m.current event m.rules r none_ for_it.among for_it.from_here
                  for_it.for_event))
        | inr (r, found) ↦ sent_by r found
      ]
    where
      is_for :
          (r : Rule S E C Err)
          → find_rule dec_s dec_e m.current event m.rules ≡ some r
          → IsRuleFor m event r
      is_for r found =
          let (among, here, on) = find_rule_lem m.current event m.rules found in
          record { among = among; from_here = here; for_event = on }

      sent_by :
          (r : Rule S E C Err)
          → find_rule dec_s dec_e m.current event m.rules ≡ some r
          → Step event ctx during m (send dec_s dec_e event ctx during m)
      sent_by r found =
          rw (found, send)
            (elim (Bool-cases (accepts r ctx)) [
              | inr rejects ↦
                  let (guard, is, says) = accepts-false r ctx rejects in
                  rw rejects (refused r guard (is_for r found) is says)
              | inl ok ↦ rw ok (elim (act-cases r ctx) [
                | inl (err, fails, (action, is, says)) ↦
                    rw (fails, act)
                      (failed r action err (is_for r found) (accepts-true r ctx ok) is says)
                | inr (done, way) ↦
                    rw (done, act) (taken r (is_for r found) (accepts-true r ctx ok) way)
              ])
            ])
