-- ===== src/Auction.antt =====
-- `auction.Resolve` and `auction.ResolveMultiSlot` of auction/auction.go. A price is an int64 in the
-- source, here a natural number; prices are only compared. `sort.SliceStable` is a parameter, which gets the
-- comparison of the source; `IsStableSort` is what its documentation says. `A` is the type of what a bid carries.
use kit4go.Common.{
  ℕ, zero, suc, Bool, true, false, Option, none, some, List, [], ◌∷◌, ltb, leb, if◌then◌else◌,
  length,
}
mod Tests
pub mod Prices
pub mod Winner

pub record Bid (A : Type 0) : Type 0 where
  pub bidder : A
  pub price : ℕ

pub record Result (A : Type 0) : Type 0 where
  pub winner : Option (Bid A)
  pub clearing_price : ℕ
  pub bid_count : ℕ
  pub valid_count : ℕ

-- the bids that meet the floor
unfoldable pub valid_bids : {A : Type 0} → ℕ → List (Bid A) → List (Bid A)
valid_bids floor [] = []
valid_bids floor (b ∷ bids) =
    let rest = valid_bids floor bids in if leb floor b.price then b ∷ rest else rest

-- what the winner at the front of a list of sorted bids pays
unfoldable pub clearing : {A : Type 0} → ℕ → List (Bid A) → ℕ
clearing floor [] = floor
clearing floor (b ∷ rest) = if ltb floor b.price then b.price else floor

-- `none` is `ErrNoValidBids`; the result is returned beside it
unfoldable pub resolve_sorted : {A : Type 0} → ℕ → ℕ → List (Bid A) → Bool × Result A
unfolding clearing
resolve_sorted total floor [] =
    (false, record { winner = none; clearing_price = 0; bid_count = total; valid_count = 0 })
resolve_sorted total floor (w ∷ rest) = (
  true,
  record {
    winner = some w;
    clearing_price = clearing floor rest;
    bid_count = total;
    valid_count = suc (length rest);
  },
)

-- the loop of `ResolveMultiSlot`, over the bids from slot `i` on
unfoldable pub fill_slots : {A : Type 0} → ℕ → ℕ → ℕ → ℕ → List (Bid A) → List (Result A)
unfolding clearing
fill_slots total valid floor zero bids = []
fill_slots total valid floor (suc slots) [] = []
fill_slots total valid floor (suc slots) (w ∷ rest) =
    record {
      winner = some w;
      clearing_price = clearing floor rest;
      bid_count = total;
      valid_count = valid;
    }
    ∷ fill_slots total valid floor slots rest

-- the `less` function of both sorts, `valid[i].Price > valid[j].Price`
abbrev pub dearer : {A : Type 0} → Bid A → Bid A → Bool
dearer a b = ltb b.price a.price

module _ {A : Type 0} (stable_sort : (Bid A → Bid A → Bool) → List (Bid A) → List (Bid A)) where
  unfoldable pub resolve : List (Bid A) → ℕ → Bool × Result A
  unfolding resolve_sorted
  resolve bids floor =
      resolve_sorted (length bids) floor (stable_sort dearer (valid_bids floor bids))

  -- `none` is `ErrNoValidBids`
  unfoldable pub resolve_multi_slot : List (Bid A) → ℕ → ℕ → Option (List (Result A))
  unfolding fill_slots
  resolve_multi_slot bids floor zero = some []
  resolve_multi_slot bids floor (suc slots) = elim (valid_bids floor bids) [
    | [] ↦ none
    | b ∷ bs ↦
        some (
          fill_slots (length bids) (length (b ∷ bs)) floor (suc slots)
            (stable_sort dearer (b ∷ bs)))
  ]
