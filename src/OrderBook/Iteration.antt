-- ===== src/OrderBook/Iteration.antt =====
-- `LevelOrdersIter` of src/state/l3_book/mod.rs, and the orders of a side in price-time priority. A
-- run of the iterator takes fuel: `none` means that it ran out.
use mathlib.Core.Option
use perpl_dex_sdk.Prelude.{ℕ, zero, suc, Option, none, some, List, [], ◌∷◌, ◌++◌, length}
use perpl_dex_sdk.Amount.{Amount}
use perpl_dex_sdk.Types.{OrderId}
use perpl_dex_sdk.Table.{Table}
use perpl_dex_sdk.BookOrder.{BookOrder}
use perpl_dex_sdk.BookLevel.{BookLevel}
use perpl_dex_sdk.OrderBook.{OrderBook, get_order}

module _ {U : Type 0} ⦃d : Amount U⦄ where
  -- `LevelOrdersIter::next`: the item, and the identifier that the iterator holds afterwards.
  unfoldable pub iter_next : OrderBook U → Option OrderId → Option (BookOrder U) × Option OrderId
  iter_next b none = (none, none)
  iter_next b (some id) = elim (get_order id b) [
    | none ↦ (none, some id)
    | some order ↦ (some order, order.next)
  ]

  -- The iterator run to its end.
  unfoldable pub collect : ℕ → OrderBook U → Option OrderId → Option (List (BookOrder U))
  collect zero b current = none
  collect (suc fuel) b current =
      let (item, current') = iter_next b current in
      elim item [
        | none ↦ some []
        | some order ↦ Option.map (λ rest. order ∷ rest) (collect fuel b current')
      ]

  unfoldable pub total_orders : OrderBook U → ℕ
  total_orders b = length b.orders

  unfoldable pub level_orders : ℕ → OrderBook U → BookLevel U → Option (List (BookOrder U))
  unfolding collect
  level_orders fuel b level = collect fuel b level.head

  -- `values().flat_map(level_orders)`
  unfoldable pub flat_map_orders :
      ℕ → OrderBook U → Table U (BookLevel U) → Option (List (BookOrder U))
  flat_map_orders fuel b [] = some []
  flat_map_orders fuel b ((price, level) ∷ rest) =
      Option.bind (level_orders fuel b level)
        λ here. Option.map (λ others. here ++ others) (flat_map_orders fuel b rest)

  unfoldable pub ask_orders : ℕ → OrderBook U → Option (List (BookOrder U))
  unfolding flat_map_orders
  ask_orders fuel b = flat_map_orders fuel b b.asks

  unfoldable pub bid_orders : ℕ → OrderBook U → Option (List (BookOrder U))
  unfolding flat_map_orders
  bid_orders fuel b = flat_map_orders fuel b b.bids
