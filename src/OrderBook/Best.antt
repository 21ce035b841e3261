-- ===== src/OrderBook/Best.antt =====
-- The best prices: the first level of each side.
use perpl_dex_sdk.Prelude.{
  ◌==◌, ==_iff, some_inj, subst, ◌∙◌, ap, ◌≤◌, ◌≡◌, true, some, [], ◌∷◌, arith, ltb, if◌then◌else◌,
  Bool-cases, inl, inr,
}
use perpl_dex_sdk.Amount.{Amount}
use perpl_dex_sdk.Types.{OrderId, OrderSide, ask, bid}
use perpl_dex_sdk.Table
use perpl_dex_sdk.Table.{Table}
use perpl_dex_sdk.Table.Sorted.{is_sorted, behind_all}
use perpl_dex_sdk.BookKeys.{upwards, downwards, up_tied, down_tied}
use perpl_dex_sdk.BookOrder.{BookOrder, order_side}
use perpl_dex_sdk.BookLevel.{BookLevel}
use perpl_dex_sdk.OrderBook.{OrderBook, get_order, get_level, best_ask, best_bid, first_key_value}
use perpl_dex_sdk.OrderBook.Rep.{Rep, Queues}
use perpl_dex_sdk.OrderBook.Placed.{place}
use perpl_dex_sdk.OrderBook.Reached.{Reached, Reached-IsOrdered}

module _ {U : Type 0} ⦃d : Amount U⦄ where
  -- A level of a sorted side has no better price than the first one.
  ask_behind_first :
      (m : Table U (BookLevel U)) (price size p : U) (l : BookLevel U)
      → is_sorted upwards m ≡ true
      → first_key_value m ≡ some (price, size)
      → Table.get upwards p m ≡ some l
      → d.units price ≤ d.units p
  unfolding first_key_value Table.get
  ask_behind_first [] price size p l o e h = absurd (cc e)
  ask_behind_first ((j, w) ∷ m) price size p l o e h =
      let first : d.units j ≡ d.units price = ap (λ (x : U × U). d.units x.0) (some_inj e) in
      elim (Bool-cases (d.units p == d.units j)) [
        | inl same ↦ ground (arith, first, ==_iff (d.units p) (d.units j))
        | inr other ↦
            let before : ltb (d.units j) (d.units p) ≡ true =
              behind_all upwards ltb d.lt_units j p l m (ground arith) (
                subst (λ t. (if t then some w else Table.get upwards p m) ≡ some l)
                  (up_tied p j ∙ other) h) in
            ground (arith, first)
      ]

  bid_behind_first :
      (m : Table U (BookLevel U)) (price size p : U) (l : BookLevel U)
      → is_sorted downwards m ≡ true
      → first_key_value m ≡ some (price, size)
      → Table.get downwards p m ≡ some l
      → d.units p ≤ d.units price
  unfolding first_key_value Table.get
  bid_behind_first [] price size p l o e h = absurd (cc e)
  bid_behind_first ((j, w) ∷ m) price size p l o e h =
      let first : d.units j ≡ d.units price = ap (λ (x : U × U). d.units x.0) (some_inj e) in
      elim (Bool-cases (d.units p == d.units j)) [
        | inl same ↦ ground (arith, first, ==_iff (d.units p) (d.units j))
        | inr other ↦
            let before : ltb (d.units p) (d.units j) ≡ true =
              behind_all downwards (λ x y. ltb y x) (λ x y. d.lt_units y x) j p l m (ground arith)
                (subst (λ t. (if t then some w else Table.get downwards p m) ≡ some l)
                  (down_tied p j ∙ other) h) in
            ground (arith, first)
      ]

  level_of :
      {b : OrderBook U} {q : Queues} (rep : Rep b q) (id : OrderId) (node : BookOrder U)
      (s : OrderSide)
      → get_order id b ≡ some node
      → order_side node ≡ s
      → (l : BookLevel U) × (get_level s node.order.price b ≡ some l)
  level_of {b} {q} rep id node s found e =
      let at = place rep id node found in
      (at.level, subst (λ t. get_level t node.order.price b ≡ some at.level) e at.has_level)

  -- On a book that some calls have made from the new one, and that holds the queues `q`: where
  -- `best_ask` is a price, no sell order of the book has a lower one.
  pub best_ask-lowest :
      {b : OrderBook U} {q : Queues} (reached : Reached b) (rep : Rep b q) (price size : U)
      → best_ask b ≡ some (price, size)
      → (id : OrderId) (node : BookOrder U) → get_order id b ≡ some node
      → order_side node ≡ ask
      → d.units price ≤ d.units node.order.price
  unfolding best_ask get_level
  best_ask-lowest {b} reached rep price size e id node found s =
      let (l, has) = level_of rep id node ask found s in
      ask_behind_first b.asks price size node.order.price l (Reached-IsOrdered reached).asks_are e
        has

  -- On a book that some calls have made from the new one, and that holds the queues `q`: where
  -- `best_bid` is a price, no buy order of the book has a higher one.
  pub best_bid-highest :
      {b : OrderBook U} {q : Queues} (reached : Reached b) (rep : Rep b q) (price size : U)
      → best_bid b ≡ some (price, size)
      → (id : OrderId) (node : BookOrder U) → get_order id b ≡ some node
      → order_side node ≡ bid
      → d.units node.order.price ≤ d.units price
  unfolding best_bid get_level
  best_bid-highest {b} reached rep price size e id node found s =
      let (l, has) = level_of rep id node bid found s in
      bid_behind_first b.bids price size node.order.price l (Reached-IsOrdered reached).bids_are e
        has
