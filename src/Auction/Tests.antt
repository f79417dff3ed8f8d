-- ===== src/Auction/Tests.antt =====
-- An insertion sort keeps the promise of `sort.SliceStable`, and an auction with a tie.
use kit4go.Auction.{Bid, dearer, resolve, valid_bids}
use kit4go.Auction.Prices.{
  Descending-InOrder, equals_of-at_price, Among, Descending, at_price, IsStableSort,
}
use kit4go.Auction.Winner.{IsWinner, resolve_lem}
use kit4go.Common.{
  ℕ, suc, ◌<◌, max, ◌≡◌, refl, sym, ap, ◌∙◌, ◌⊎◌, Bool, true, false, some, List, [], ◌∷◌, arith,
  ◌==◌, if◌then◌else◌, length, subst,
}

module _ {A : Type 0} where
  abbrev insert : (Bid A → Bid A → Bool) → Bid A → List (Bid A) → List (Bid A)
  insert less b [] = b ∷ []
  insert less b (x ∷ xs) = let rest = insert less b xs in if less x b then x ∷ rest else b ∷ x ∷ xs

  abbrev insertion_sort : (Bid A → Bid A → Bool) → List (Bid A) → List (Bid A)
  insertion_sort less [] = []
  insertion_sort less (b ∷ bids) = insert less b (insertion_sort less bids)

  abbrev highest : List (Bid A) → ℕ
  highest [] = 0
  highest (b ∷ bids) = max b.price (highest bids)

  length-insert : (b : Bid A) (xs : List (Bid A)) → length (insert dearer b xs) ≡ suc (length xs)
  length-insert b [] = refl
  length-insert b (x ∷ xs) = let rest = length-insert b xs in ground arith

  at_price-insert :
      (p : ℕ) (b : Bid A) (xs : List (Bid A))
      → at_price p (insert dearer b xs) ≡ at_price p (b ∷ xs)
  unfolding at_price
  at_price-insert p b [] = refl
  at_price-insert p b (x ∷ xs) = let rest = at_price-insert p b xs in ground arith

  Descending-insert :
      (top : ℕ) (b : Bid A) (xs : List (Bid A))
      → Descending top xs
      → Descending (max b.price top) (insert dearer b xs)
  Descending-insert top b [] d = (omega arith, tt)
  Descending-insert top b (x ∷ xs) (h, d) =
      let below : b.price < x.price → Descending x.price (insert dearer b xs) = λ lt.
        subst (λ t. Descending t (insert dearer b xs)) (omega arith)
          (Descending-insert x.price b xs d) in
      ground arith

  insertion_sort-in_order :
      (bids : List (Bid A)) → Descending (highest bids) (insertion_sort dearer bids)
  insertion_sort-in_order [] = tt
  insertion_sort-in_order (b ∷ bids) =
      Descending-insert (highest bids) b (insertion_sort dearer bids) (insertion_sort-in_order bids)

  length-insertion_sort : (bids : List (Bid A)) → length (insertion_sort dearer bids) ≡ length bids
  length-insertion_sort [] = refl
  length-insertion_sort (b ∷ bids) =
      length-insert b (insertion_sort dearer bids) ∙ ap suc (length-insertion_sort bids)

  insertion_sort-stable :
      (bids : List (Bid A)) (p : ℕ) → at_price p (insertion_sort dearer bids) ≡ at_price p bids
  unfolding at_price
  insertion_sort-stable [] p = refl
  insertion_sort-stable (b ∷ bids) p =
      at_price-insert p b (insertion_sort dearer bids)
      ∙ ap (λ rest. if b.price == p then b ∷ rest else rest) (insertion_sort-stable bids p)

  insertion_sort-IsStableSort : IsStableSort dearer (insertion_sort dearer)
  insertion_sort-IsStableSort = record {
    in_order = λ bids.
        Descending-InOrder (highest bids) (insertion_sort dearer bids)
          (insertion_sort-in_order bids);
    same_length = length-insertion_sort;
    stable = λ bids a.
        equals_of-at_price a (insertion_sort dearer bids)
        ∙ insertion_sort-stable bids a.price
        ∙ sym (equals_of-at_price a bids);
  }

abbrev bids : List (Bid ℕ)
bids =
    record { bidder = 1; price = 30 }
    ∷ record { bidder = 2; price = 50 }
    ∷ record { bidder = 3; price = 9 }
    ∷ record { bidder = 4; price = 50 }
    ∷ []

clearing-bids : (resolve insertion_sort bids 10).1.clearing_price ≡ 50
unfolding resolve valid_bids
clearing-bids = refl

resolve_lem_example :
    ((w : Bid ℕ) × ((resolve insertion_sort bids 10).0 ≡ true)
      × ((resolve insertion_sort bids 10).1.winner ≡ some w)
      × IsWinner bids 10 w (resolve insertion_sort bids 10).1.clearing_price)
    ⊎ (((resolve insertion_sort bids 10).0 ≡ false) × ((b : Bid ℕ) → Among b bids → b.price < 10))
resolve_lem_example = resolve_lem insertion_sort insertion_sort-IsStableSort bids 10
