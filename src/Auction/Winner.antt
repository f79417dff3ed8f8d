-- ===== src/Auction/Winner.antt =====
-- Who wins an auction of auction/auction.go, and what the winner pays.
use kit4go.Auction.{
  Bid, Result, dearer, valid_bids, clearing, resolve_sorted, resolve, fill_slots,
  resolve_multi_slot,
}
use kit4go.Auction.Prices.{
  InOrder, InOrder-Descending, equals_of-at_price, at_price-above, Among-bids, Among, Descending,
  at_price, IsStableSort, at_price-Among, Among-at_price, Descending-Among, valid_bids-Among,
  Among-valid_bids, at_price-valid_bids,
}
use kit4go.Common.{
  ℕ, zero, suc, ◌≤◌, ◌<◌, min, ◌≡◌, refl, sym, ap, ◌∙◌, ◌≢◌, ◌⊎◌, inl, inr, Bool, true, false, none,
  some, List, [], ◌∷◌, arith, dec_lt, ltb, leb, leb→le, Bool-cases, length, subst,
}

-- the winner of an auction, and what it pays: the second highest price, or the floor if that is higher. No other bid
-- is above what the winner pays, and this is the floor or the price of another bid (where it is the winner's own
-- price, there are two bids of that price).
pub record IsWinner {A : Type 0} (bids : List (Bid A)) (floor : ℕ) (w : Bid A) (pays : ℕ)
    : Type 0 where
  pub highest : (b : Bid A) → Among b bids → b.price ≤ w.price
  pub first : (rest : List (Bid A)) × (at_price w.price bids ≡ w ∷ rest)
  pub meets_floor : floor ≤ w.price
  pub floor_paid : floor ≤ pays
  pub at_most_bid : pays ≤ w.price
  pub no_higher :
      (b : Bid A)
      → Among b bids
      → pays < b.price
      → (b.price ≡ w.price) × (at_price w.price bids ≡ w ∷ [])
  pub charged :
      (pays ≡ floor)
      ⊎ ((b : Bid A) × Among b bids
          × (b.price ≡ pays)
          × ((pays < w.price) ⊎ ((rest : List (Bid A)) × (at_price w.price bids ≡ w ∷ b ∷ rest))))

module _ {A : Type 0} where
  clearing-Descending :
      (floor top : ℕ) (bids : List (Bid A))
      → floor ≤ top
      → Descending top bids
      → (floor ≤ clearing floor bids) × (clearing floor bids ≤ top)
  unfolding clearing
  clearing-Descending floor top [] h d = (omega arith, h)
  clearing-Descending floor top (b ∷ bids) h (le, d) = ground arith

  clearing-above :
      (floor top : ℕ) (bids : List (Bid A))
      → Descending top bids
      → Descending (clearing floor bids) bids
  unfolding clearing
  clearing-above floor top [] d = tt
  clearing-above floor top (b ∷ bids) (le, d) = (ground arith, d)

  -- what the winner at the front pays is the floor, or the price of the bid behind it
  clearing-cases :
      (floor : ℕ) (bids : List (Bid A))
      → (clearing floor bids ≡ floor)
        ⊎ ((b : Bid A) × (rest : List (Bid A)) × (bids ≡ b ∷ rest)
            × (clearing floor bids ≡ b.price))
  unfolding clearing
  clearing-cases floor [] = inl refl
  clearing-cases floor (b ∷ bids) = elim (Bool-cases (ltb floor b.price)) [
    | inl above ↦ inr (b, bids, refl, rw above refl)
    | inr below ↦ inl (rw below refl)
  ]

  List-cases :
      (bids : List (Bid A))
      → (bids ≡ []) ⊎ ((c : Bid A) × (rest : List (Bid A)) × (bids ≡ c ∷ rest))
  List-cases [] = inl refl
  List-cases (c ∷ rest) = inr (c, rest, refl)

  at_price-cons :
      (p : ℕ) (b : Bid A) (bids : List (Bid A))
      → b.price ≡ p
      → at_price p (b ∷ bids) ≡ b ∷ at_price p bids
  unfolding at_price
  at_price-cons p b bids h = ground arith

  second_Among :
      (p : ℕ) (bids : List (Bid A)) {w b : Bid A} {rest : List (Bid A)}
      → at_price p bids ≡ w ∷ b ∷ rest
      → Among b bids
  unfolding at_price
  second_Among p [] e = absurd (ground arith)
  second_Among p (x ∷ bids) {w = w} {b = b} {rest = rest} e =
      let later : at_price p bids ≡ w ∷ b ∷ rest → Among b bids = second_Among p bids in
      let behind : at_price p bids ≡ b ∷ rest → Among b bids = λ h. (Among-at_price p bids h).0 in
      ground arith

  length-zero : (bids : List (Bid A)) → length bids ≡ 0 → bids ≡ []
  length-zero [] h = refl
  length-zero (b ∷ bids) h = absurd (ground arith)

  head_of :
      (bids : List (Bid A)) → bids ≢ [] → (c : Bid A) × (rest : List (Bid A)) × (bids ≡ c ∷ rest)
  head_of [] h = absurd (h refl)
  head_of (c ∷ rest) h = (c, rest, refl)

  abbrev result : List (Bid A) → ℕ → Bid A → List (Bid A) → ℕ → Bool × Result A
  result bids floor w rest valid = (
    true,
    record {
      winner = some w;
      clearing_price = clearing floor rest;
      bid_count = length bids;
      valid_count = valid;
    },
  )

  module _ {sort : List (Bid A) → List (Bid A)} (sorts : IsStableSort dearer sort) where
    stable_price :
        (bids : List (Bid A)) (b : Bid A) → at_price b.price (sort bids) ≡ at_price b.price bids
    stable_price bids b =
        sym (equals_of-at_price b (sort bids)) ∙ sorts.stable bids b ∙ equals_of-at_price b bids

    sorted_order :
        (bids : List (Bid A)) {w : Bid A} {rest : List (Bid A)}
        → sort bids ≡ w ∷ rest
        → Descending w.price rest
    sorted_order bids {w = w} {rest = rest} e =
        let order : InOrder dearer (w ∷ rest) = subst (InOrder dearer) e (sorts.in_order bids) in
        InOrder-Descending w rest order.0 order.1

    -- a bid that meets the floor has its price in the sorted list
    price_kept :
        (floor : ℕ) (bids : List (Bid A)) (b : Bid A)
        → Among b bids
        → floor ≤ b.price
        → (c : Bid A) × Among c (sort (valid_bids floor bids)) × (c.price ≡ b.price)
    price_kept floor bids b m h =
        let valid = valid_bids floor bids in
        let (c, rest, e) =
          head_of (at_price b.price valid)
            (at_price-Among b valid (valid_bids-Among floor b bids h m)) in
        let found = Among-at_price b.price (sort valid) (stable_price valid b ∙ e) in
        (c, found.0, found.1)

    sorted_highest :
        (floor : ℕ) (bids : List (Bid A)) {w : Bid A} {rest : List (Bid A)}
        → sort (valid_bids floor bids) ≡ w ∷ rest
        → floor ≤ w.price
        → (b : Bid A) → Among b bids
        → b.price ≤ w.price
    sorted_highest floor bids {w = w} {rest = rest} e h b m =
        elim (Bool-cases (leb floor b.price)) [
          | inr below ↦ ground arith
          | inl valid ↦
              let (c, among, same) = price_kept floor bids b m (leb→le floor b.price valid) in
              let inside : Among c (w ∷ rest) = subst (Among c) e among in
              let order = sorted_order (valid_bids floor bids) e in
              let below : Among c rest → c.price ≤ w.price =
                Descending-Among w.price rest c order in
              ground arith
        ]

    at_price-head :
        (floor : ℕ) (bids : List (Bid A)) {w : Bid A} {rest : List (Bid A)}
        → sort (valid_bids floor bids) ≡ w ∷ rest
        → at_price w.price (valid_bids floor bids) ≡ w ∷ at_price w.price rest
    unfolding at_price
    at_price-head floor bids {w = w} {rest = rest} e =
        sym (stable_price (valid_bids floor bids) w) ∙ ap (at_price w.price) e ∙ ground arith

    none_valid :
        (floor : ℕ) (bids : List (Bid A))
        → sort (valid_bids floor bids) ≡ []
        → (b : Bid A) → Among b bids
        → b.price < floor
    none_valid floor bids e b m = elim (Bool-cases (leb floor b.price)) [
      | inr below ↦ ground arith
      | inl valid ↦
          let (c, among, same) = price_kept floor bids b m (leb→le floor b.price valid) in
          absurd (subst (Among c) e among)
    ]

    -- a bid above what the winner pays is the winner
    only_winner_above :
        (floor : ℕ) (bids : List (Bid A)) {w : Bid A} {rest : List (Bid A)}
        → sort (valid_bids floor bids) ≡ w ∷ rest
        → Descending w.price rest
        → floor ≤ clearing floor rest
        → at_price w.price bids ≡ w ∷ at_price w.price rest
        → (b : Bid A) → Among b bids
        → clearing floor rest < b.price
        → (b.price ≡ w.price) × (at_price w.price bids ≡ w ∷ [])
    only_winner_above floor bids {w = w} {rest = rest} e order met at_top b m above =
        let (c, among, same) = price_kept floor bids b m (omega (arith, met, above)) in
        let inside : Among c (w ∷ rest) = subst (Among c) e among in
        let tail = clearing-above floor w.price rest order in
        let not_behind : Among c rest → c.price ≤ clearing floor rest =
          Descending-Among (clearing floor rest) rest c tail in
        let is_top : b.price ≡ w.price = ground arith in
        (
          is_top,
          at_top
              ∙ ap (λ (bs : List (Bid A)). w ∷ bs)
                  (at_price-above (clearing floor rest) w.price rest tail
                    (omega (arith, is_top, above))),
        )

    charged_price :
        (floor : ℕ) (bids : List (Bid A)) {w : Bid A} {rest : List (Bid A)}
        → sort (valid_bids floor bids) ≡ w ∷ rest
        → Descending w.price rest
        → at_price w.price bids ≡ w ∷ at_price w.price rest
        → (clearing floor rest ≡ floor)
          ⊎ ((b : Bid A) × Among b bids
              × (b.price ≡ clearing floor rest)
              × ((clearing floor rest < w.price)
                  ⊎ ((more : List (Bid A)) × (at_price w.price bids ≡ w ∷ b ∷ more))))
    charged_price floor bids {w = w} {rest = rest} e order at_top =
        elim (clearing-cases floor rest) [
          | inl at_floor ↦ inl at_floor
          | inr (c, more, is, pays) ↦
              let valid = valid_bids floor bids in
              let second : Descending w.price (c ∷ more) = subst (Descending w.price) is order in
              let in_sorted : Among c (w ∷ rest) = inr (subst (Among c) (sym is) (inl refl)) in
              let there = subst (Among c) (sym e) in_sorted in
              let (d, others, found) =
                head_of (at_price c.price valid)
                  (λ gone. at_price-Among c (sort valid) there (stable_price valid c ∙ gone)) in
              let (d_among, d_price) = Among-at_price c.price valid found in
              elim (dec_lt (clearing floor rest) w.price) [
                | yes less ↦ inr (d, Among-bids floor d bids d_among, d_price ∙ sym pays, inl less)
                | no equal ↦
                    let tied : c.price ≡ w.price = omega (arith, second.0, pays, equal) in
                    let both : at_price w.price bids ≡ w ∷ c ∷ at_price w.price more =
                      at_top
                      ∙ ap (λ (bs : List (Bid A)). w ∷ at_price w.price bs) is
                      ∙ ap (λ (bs : List (Bid A)). w ∷ bs) (at_price-cons w.price c more tied) in
                    inr (
                      c,
                      second_Among w.price bids both,
                      sym pays,
                      inr (at_price w.price more, both),
                    )
              ]
        ]

    sorted-IsWinner :
        (floor : ℕ) (bids : List (Bid A)) {w : Bid A} {rest : List (Bid A)}
        → sort (valid_bids floor bids) ≡ w ∷ rest
        → IsWinner bids floor w (clearing floor rest)
    sorted-IsWinner floor bids {w = w} {rest = rest} e =
        let valid = valid_bids floor bids in
        let at_head = at_price-head floor bids e in
        let met = Among-valid_bids floor w bids (Among-at_price w.price valid at_head).0 in
        let order = sorted_order valid e in
        let paid = clearing-Descending floor w.price rest met order in
        let at_top : at_price w.price bids ≡ w ∷ at_price w.price rest =
          sym (at_price-valid_bids floor w.price bids met) ∙ at_head in
        record {
          highest = sorted_highest floor bids e met;
          first = (at_price w.price rest, at_top);
          meets_floor = met;
          floor_paid = paid.0;
          at_most_bid = paid.1;
          no_higher = only_winner_above floor bids e order paid.0 at_top;
          charged = charged_price floor bids e order at_top;
        }

  module _ (sort : (Bid A → Bid A → Bool) → List (Bid A) → List (Bid A))
      (sorts : IsStableSort dearer (sort dearer)) where
    -- With a stable sort: when `Resolve` returns no error, its winner has the highest price of all
    -- bids and is the first of them with this price, which meets the floor. The clearing price is the highest price of the
    -- other bids, or the floor if no other bid is above it. When it returns the error, no bid meets the floor.
    pub resolve_lem :
        (bids : List (Bid A)) (floor : ℕ)
        → ((w : Bid A) × ((resolve sort bids floor).0 ≡ true)
            × ((resolve sort bids floor).1.winner ≡ some w)
            × IsWinner bids floor w (resolve sort bids floor).1.clearing_price)
          ⊎ (((resolve sort bids floor).0 ≡ false) × ((b : Bid A) → Among b bids → b.price < floor))
    unfolding resolve resolve_sorted
    resolve_lem bids floor = elim (List-cases (sort dearer (valid_bids floor bids))) [
      | inl e ↦ rw (e, resolve) (inr (refl, none_valid sorts floor bids e))
      | inr (w, rest, e) ↦ rw (e, resolve) (inl (w, refl, refl, sorted-IsWinner sorts floor bids e))
    ]

    fill_slots-length :
        (total valid floor slots : ℕ) (bids : List (Bid A))
        → length (fill_slots total valid floor slots bids) ≡ min slots (length bids)
    unfolding fill_slots
    fill_slots-length total valid floor zero bids = omega arith
    fill_slots-length total valid floor (suc slots) [] = omega arith
    fill_slots-length total valid floor (suc slots) (b ∷ bids) =
        let more = fill_slots-length total valid floor slots bids in omega arith

    -- With a stable sort and for at least one slot, `ResolveMultiSlot` returns the error exactly when
    -- `Resolve` does. Otherwise its first result is that of `Resolve`, and there is a result for each
    -- slot that has a valid bid.
    pub resolve_multi_slot_lem :
        (bids : List (Bid A)) (floor slots : ℕ)
        → ((resolve_multi_slot sort bids floor (suc slots) ≡ none)
            × ((resolve sort bids floor).0 ≡ false))
          ⊎ ((r : Result A) × (rs : List (Result A)) × (resolve_multi_slot sort bids floor
                  (suc slots)
                ≡ some (r ∷ rs))
              × (resolve sort bids floor ≡ (true, r))
              × (length (r ∷ rs) ≡ min (suc slots) r.valid_count))
    unfolding resolve_multi_slot resolve resolve_sorted
    resolve_multi_slot_lem bids floor slots = elim (List-cases (valid_bids floor bids)) [
      | inl e ↦
          let none_left : sort dearer [] ≡ [] =
            length-zero (sort dearer []) (sorts.same_length []) in
          rw (e, resolve_multi_slot, resolve) (rw none_left (inl (refl, refl)))
      | inr (v, vs, e) ↦ elim (List-cases (sort dearer (v ∷ vs))) [
        | inl e' ↦
            let zero_length : 0 ≡ suc (length vs) =
              sym (ap length e') ∙ sorts.same_length (v ∷ vs) in
            absurd (omega arith)
        | inr (w, rest, e') ↦
            let kept : suc (length rest) ≡ suc (length vs) =
              sym (ap length e') ∙ sorts.same_length (v ∷ vs) in
            let filled = fill_slots-length (length bids) (length (v ∷ vs)) floor slots rest in
            rw (e, resolve_multi_slot, resolve)
              (rw e' (inr (_, _, refl, ap (result bids floor w rest) kept, omega arith)))
      ]
    ]
