-- ===== src/MultiMap/Tests.antt =====
-- A run of multimap/multimap.go, and its theorem at a concrete input.
use kit4go.Common.Assoc.{lookup, put, erase}
use kit4go.MultiMap.{
  new, bucket_of, behind, drop_first, get, add, add_all, set as set_bucket, delete_value, keys,
  keys_of,
}
use kit4go.MultiMap.Buckets.{Call, call, run, promise_run, calls_refine}
use kit4go.Common.{ℕ, ◌≡◌, refl, List, [], ◌∷◌, ℕ_discrete}

abbrev calls : List (Call ℕ ℕ)
calls =
    Call.call_add 1 10
    ∷ Call.call_add_all 2 (20 ∷ 21 ∷ [])
    ∷ Call.call_add 1 11
    ∷ Call.call_delete_value 1 10
    ∷ Call.call_delete_value 2 10
    ∷ Call.call_set 3 []
    ∷ []

calls_left :
    (run ℕ_discrete ℕ_discrete calls new).0 ≡ record { m = (1, 11 ∷ []) ∷ (2, 20 ∷ 21 ∷ []) ∷ [] }
unfolding run call add add_all set_bucket delete_value drop_first behind get bucket_of new lookup
    put erase ℕ_discrete
calls_left = refl

-- an empty `AddAll` leaves a key without values
empty_bucket : keys (add_all ℕ_discrete 4 [] (new {K = ℕ} {V = ℕ})) ≡ []
unfolding keys keys_of add_all get bucket_of new lookup put
empty_bucket = refl

calls_refine_example :
    (get ℕ_discrete 1 (run ℕ_discrete ℕ_discrete calls new).0
      ≡ (promise_run ℕ_discrete ℕ_discrete calls (λ k. [])).0 1)
    × ((run ℕ_discrete ℕ_discrete calls new).1
        ≡ (promise_run ℕ_discrete ℕ_discrete calls (λ k. [])).1)
calls_refine_example = calls_refine ℕ_discrete ℕ_discrete calls 1
