-- ===== src/Fsm/Rules.antt =====
-- The table of rules: what `New` accepts, and what `Send`, `Can` and `AvailableEvents` find in it.
use kit4go.Fsm.{no_transition, guard_rejected, Machine, send, can}
use kit4go.Common.{◌≡◌, ◌≢◌, ◌↔◌, true, arith}

module _ {S E C Err : Type 0} (dec_s : Discrete S) (dec_e : Discrete E) where
  -- `Can` is true exactly when `Send` does not refuse the event for want of a rule or by its guard.
  pub can-send :
      (event : E) (ctx : C) (during : Machine S E C Err → Machine S E C Err) (m : Machine S E C Err)
      → (can dec_s dec_e event ctx m ≡ true) ↔ (
          ((send dec_s dec_e event ctx during m).0 ≢ no_transition)
          × ((send dec_s dec_e event ctx during m).0 ≢ guard_rejected))
  unfolding can send
  can-send event ctx during m = ground arith
