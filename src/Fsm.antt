-- ===== src/Fsm.antt =====
-- `fsm.Machine` of fsm/fsm.go. States and events are only compared, so their types are parameters with
-- decidable equality; `C` is the context and `Err` an action's error. The map of rules is a list of
-- rules with distinct keys. A hook or a listener shows as what it is called with.
use mathlib.Core.Logic.{ite}
use kit4go.Common.{
  ℕ, Bool, true, false, Option, none, some, List, [], ◌∷◌, ◌++◌, map, if◌then◌else◌,
}
mod Tests
pub mod Rules
pub mod Reach

-- a nil guard accepts, a nil action does nothing
pub record Rule (S E C Err : Type 0) : Type 0 where
  pub source : S
  pub event : E
  pub guard : Option (C → Bool)
  pub action : Option (C → Option Err)
  pub target : S

-- what `Send` returns: nil, or one of its errors
pub data Sent (Err : Type 0) : Type 0 where
  sent no_transition guard_rejected : Sent Err
  action_failed : Err → Sent Err

-- a call of an exit hook, an entry hook, or a listener by its number
pub data Fired (S E : Type 0) : Type 0 where
  left entered : S → Fired S E
  heard : ℕ → S → S → E → Fired S E

pub record Machine (S E C Err : Type 0) : Type 0 where
  pub current : S
  pub rules : List (Rule S E C Err)
  pub on_enter : S → Bool
  pub on_exit : S → Bool
  pub listeners : List ℕ

module _ {S E C Err : Type 0} where
  -- `rule.Guard == nil || rule.Guard(ctx)`
  unfoldable pub accepts : Rule S E C Err → C → Bool
  accepts r ctx = elim r.guard [ none ↦ true | some g ↦ g ctx ]

  -- the error of `rule.Action`, if there is one
  unfoldable pub act : Rule S E C Err → C → Option Err
  act r ctx = elim r.action [ none ↦ none | some a ↦ a ctx ]

  unfoldable pub listen : ℕ → Machine S E C Err → Machine S E C Err
  listen i m = record m { listeners = m.listeners ++ (i ∷ []) }

  -- the hooks and the listeners of a transition, in order
  unfoldable pub fired : S → S → E → Machine S E C Err → List (Fired S E)
  fired from to event m =
      (if m.on_exit from then left from ∷ [] else [])
      ++ ((if m.on_enter to then entered to ∷ [] else [])
          ++ map (λ i. heard i from to event) m.listeners)

module _ {S E C Err : Type 0} (dec_s : Discrete S) (dec_e : Discrete E) where
  -- `m.rules[ruleKey{from, event}]`
  unfoldable pub find_rule : S → E → List (Rule S E C Err) → Option (Rule S E C Err)
  find_rule from event [] = none
  find_rule from event (r ∷ rs) =
      ite (dec_s r.source from) (ite (dec_e r.event event) (some r) (find_rule from event rs))
        (find_rule from event rs)

  -- the loop of `New`: `none` is the error for two rules with one key
  unfoldable pub add_rules :
      List (Rule S E C Err) → List (Rule S E C Err) → Option (List (Rule S E C Err))
  unfolding find_rule
  add_rules known [] = some known
  add_rules known (r ∷ rs) =
      let rest = add_rules (r ∷ known) rs in
      elim (find_rule r.source r.event known) [ some r' ↦ none | none ↦ rest ]

  unfoldable pub new : S → List (Rule S E C Err) → Option (Machine S E C Err)
  unfolding add_rules
  new initial rs = elim (add_rules [] rs) [
    | none ↦ none
    | some known ↦ some (record {
      current = initial;
      rules = known;
      on_enter = λ s. false;
      on_exit = λ s. false;
      listeners = [];
    })
  ]

  -- `Send`. While the action runs the data lock is free: `during` is what happens to the machine then.
  unfoldable pub send :
      E
      → C
      → (Machine S E C Err → Machine S E C Err)
      → Machine S E C Err
      → Sent Err × Machine S E C Err × List (Fired S E)
  unfolding find_rule accepts act fired
  send event ctx during m = elim (find_rule m.current event m.rules) [
    | none ↦ (no_transition, m, [])
    | some r ↦
        if accepts r ctx
        then (elim (act r ctx) [
          | some err ↦ (action_failed err, during m, [])
          | none ↦
              let m' = record (during m) { current = r.target } in
              (sent, m', fired m.current r.target event m')
        ])
        else (guard_rejected, m, [])
  ]

  unfoldable pub can : E → C → Machine S E C Err → Bool
  unfolding find_rule accepts
  can event ctx m = elim (find_rule m.current event m.rules) [
    | none ↦ false
    | some r ↦ accepts r ctx
  ]

  -- `OnEnter` and `OnExit`
  unfoldable pub on_enter_hook : S → Machine S E C Err → Machine S E C Err
  on_enter_hook s m = record m { on_enter = λ t. ite (dec_s t s) true (m.on_enter t) }

  unfoldable pub on_exit_hook : S → Machine S E C Err → Machine S E C Err
  on_exit_hook s m = record m { on_exit = λ t. ite (dec_s t s) true (m.on_exit t) }

  -- the events of the rules from a state, as `AvailableEvents` collects them
  unfoldable pub events_from : S → List (Rule S E C Err) → List E
  events_from s [] = []
  events_from s (r ∷ rs) =
      let rest = events_from s rs in ite (dec_s r.source s) (r.event ∷ rest) rest

  unfoldable pub available_events : Machine S E C Err → List E
  unfolding events_from
  available_events m = events_from m.current m.rules
