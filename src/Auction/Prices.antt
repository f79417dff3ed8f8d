-- ===== src/Auction/Prices.antt =====
-- Bids by their price, and what a stable sort of them promises.
use kit4go.Auction.{Bid, dearer, valid_bids}
use kit4go.Common.{
  ℕ, ◌≤◌, ◌<◌, ◌≡◌, refl, ◌≢◌, ◌⊎◌, Bool, false, ◌||◌, List, [], ◌∷◌, arith, ◌==◌, if◌then◌else◌,
  length,
}

-- one of the bids
abbrev pub Among : {A : Type 0} → Bid A → List (Bid A) → Type 0
Among b [] = ⊥
Among b (x ∷ xs) = (x ≡ b) ⊎ Among b xs

-- in order of price from the highest, and none above `top`
abbrev pub Descending : {A : Type 0} → ℕ → List (Bid A) → Type 0
Descending top [] = Unit
Descending top (b ∷ bids) = (b.price ≤ top) × Descending b.price bids

-- the bids of a price, in their order
unfoldable pub at_price : {A : Type 0} → ℕ → List (Bid A) → List (Bid A)
at_price p [] = []
at_price p (b ∷ bids) = let rest = at_price p bids in if b.price == p then b ∷ rest else rest

-- a comparison puts none of the bids before this one
abbrev pub NoneBefore : {A : Type 0} → (Bid A → Bid A → Bool) → Bid A → List (Bid A) → Type 0
NoneBefore less b [] = Unit
NoneBefore less b (c ∷ bids) = (less c b ≡ false) × NoneBefore less b bids

-- no bid is before an earlier one
abbrev pub InOrder : {A : Type 0} → (Bid A → Bid A → Bool) → List (Bid A) → Type 0
InOrder less [] = Unit
InOrder less (b ∷ bids) = NoneBefore less b bids × InOrder less bids

-- the bids that are neither before nor after a bid, in their order
unfoldable pub equals_of :
    {A : Type 0} → (Bid A → Bid A → Bool) → Bid A → List (Bid A) → List (Bid A)
equals_of less a [] = []
equals_of less a (b ∷ bids) =
    let rest = equals_of less a bids in if less a b || less b a then rest else b ∷ rest

-- what the documentation of `sort.SliceStable` says: the result is in the order of the comparison, and equal
-- elements keep theirs
pub record IsStableSort {A : Type 0} (less : Bid A → Bid A → Bool)
    (sort : List (Bid A) → List (Bid A)) : Type 0 where
  pub in_order : (bids : List (Bid A)) → InOrder less (sort bids)
  pub same_length : (bids : List (Bid A)) → length (sort bids) ≡ length bids
  pub stable :
      (bids : List (Bid A)) (a : Bid A) → equals_of less a (sort bids) ≡ equals_of less a bids

module _ {A : Type 0} where
  -- For the comparison of the auction these are the bids of one price, and the order is from the highest.
  pub equals_of-at_price :
      (a : Bid A) (bids : List (Bid A)) → equals_of dearer a bids ≡ at_price a.price bids
  unfolding equals_of at_price
  equals_of-at_price a [] = refl
  equals_of-at_price a (b ∷ bids) = let later = equals_of-at_price a bids in ground arith

  pub InOrder-Descending :
      (b : Bid A) (bids : List (Bid A))
      → NoneBefore dearer b bids
      → InOrder dearer bids
      → Descending b.price bids
  InOrder-Descending b [] none_before order = tt
  InOrder-Descending b (c ∷ bids) (here, later) (none_before, order) =
      (ground (arith, here), InOrder-Descending c bids none_before order)

  Descending-NoneBefore :
      (b : Bid A) (top : ℕ) (bids : List (Bid A))
      → top ≤ b.price
      → Descending top bids
      → NoneBefore dearer b bids
  Descending-NoneBefore b top [] h d = tt
  Descending-NoneBefore b top (c ∷ bids) h (le, d) =
      (ground arith, Descending-NoneBefore b c.price bids (omega arith) d)

  pub Descending-InOrder :
      (top : ℕ) (bids : List (Bid A)) → Descending top bids → InOrder dearer bids
  Descending-InOrder top [] d = tt
  Descending-InOrder top (b ∷ bids) (le, d) =
      (Descending-NoneBefore b b.price bids (omega arith) d, Descending-InOrder b.price bids d)

  pub at_price-above :
      (top p : ℕ) (bids : List (Bid A)) → Descending top bids → top < p → at_price p bids ≡ []
  unfolding at_price
  at_price-above top p [] d h = refl
  at_price-above top p (b ∷ bids) (le, d) h =
      let later = at_price-above b.price p bids d (omega arith) in ground arith

  pub at_price-Among : (b : Bid A) (bids : List (Bid A)) → Among b bids → at_price b.price bids ≢ []
  unfolding at_price
  at_price-Among b [] m = absurd m
  at_price-Among b (x ∷ bids) m =
      let later : Among b bids → at_price b.price bids ≢ [] = at_price-Among b bids in ground arith

  pub Among-at_price :
      (p : ℕ) (bids : List (Bid A)) {c : Bid A} {rest : List (Bid A)}
      → at_price p bids ≡ c ∷ rest
      → Among c bids × (c.price ≡ p)
  unfolding at_price
  Among-at_price p [] e = absurd (ground arith)
  Among-at_price p (x ∷ bids) {c = c} {rest = rest} e =
      let later : at_price p bids ≡ c ∷ rest → Among c bids × (c.price ≡ p) =
        Among-at_price p bids in
      ground arith

  pub Descending-Among :
      (top : ℕ) (bids : List (Bid A)) (c : Bid A)
      → Descending top bids
      → Among c bids
      → c.price ≤ top
  Descending-Among top [] c d m = absurd m
  Descending-Among top (x ∷ bids) c (h, d) m =
      let later : Among c bids → c.price ≤ x.price = Descending-Among x.price bids c d in
      ground arith

  pub valid_bids-Among :
      (floor : ℕ) (b : Bid A) (bids : List (Bid A))
      → floor ≤ b.price
      → Among b bids
      → Among b (valid_bids floor bids)
  unfolding valid_bids
  valid_bids-Among floor b [] h m = m
  valid_bids-Among floor b (x ∷ bids) h m =
      let later : Among b bids → Among b (valid_bids floor bids) =
        valid_bids-Among floor b bids h in
      ground arith

  pub Among-bids :
      (floor : ℕ) (b : Bid A) (bids : List (Bid A)) → Among b (valid_bids floor bids) → Among b bids
  unfolding valid_bids
  Among-bids floor b [] m = m
  Among-bids floor b (x ∷ bids) m =
      let later : Among b (valid_bids floor bids) → Among b bids = Among-bids floor b bids in
      ground arith

  pub Among-valid_bids :
      (floor : ℕ) (b : Bid A) (bids : List (Bid A))
      → Among b (valid_bids floor bids)
      → floor ≤ b.price
  unfolding valid_bids
  Among-valid_bids floor b [] m = absurd m
  Among-valid_bids floor b (x ∷ bids) m =
      let later : Among b (valid_bids floor bids) → floor ≤ b.price =
        Among-valid_bids floor b bids in
      ground arith

  pub at_price-valid_bids :
      (floor p : ℕ) (bids : List (Bid A))
      → floor ≤ p
      → at_price p (valid_bids floor bids) ≡ at_price p bids
  unfolding at_price valid_bids
  at_price-valid_bids floor p [] h = refl
  at_price-valid_bids floor p (x ∷ bids) h =
      let later = at_price-valid_bids floor p bids h in ground arith
