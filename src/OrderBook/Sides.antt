-- ===== src/OrderBook/Sides.antt =====
-- The orders of a whole side: level by level from the best price, and in each level in queue order.
use mathlib.Core.Option
use perpl_dex_sdk.Prelude.{ℕ, ◌<◌, ◌≡◌, refl, some, List, [], ◌∷◌, ◌++◌, map, ap, ◌∙◌}
use mathlib.Core.Path.{ap₂}
use perpl_dex_sdk.Amount.{Amount}
use perpl_dex_sdk.Types.{OrderId, OrderSide, ask, bid}
use perpl_dex_sdk.Table.{Table}
use perpl_dex_sdk.Table.Sorted.{Found, is_sorted-Found}
use perpl_dex_sdk.BookKeys.{upwards, downwards}
use perpl_dex_sdk.BookOrder.{BookOrder}
use perpl_dex_sdk.BookLevel.{BookLevel}
use perpl_dex_sdk.OrderBook.{OrderBook, get_level}
use perpl_dex_sdk.OrderBook.Iteration.{flat_map_orders, ask_orders, bid_orders, total_orders}
use perpl_dex_sdk.OrderBook.Rep.{Rep, Queues}
use perpl_dex_sdk.OrderBook.Reached.{Reached, Reached-IsOrdered}
use perpl_dex_sdk.OrderBook.Walk.{level_orders-queue, ids}

map-append {ℓ κ} :
    {A : Type ℓ} {B : Type κ} (f : A → B) (xs ys : List A) → map f (xs ++ ys) ≡ map f xs ++ map f ys
map-append f [] ys = refl
map-append f (x ∷ xs) ys = ap (λ zs. f x ∷ zs) (map-append f xs ys)

module _ {U : Type 0} ⦃d : Amount U⦄ where
  -- The queues of some levels of a side, one behind the other.
  abbrev pub queues_of : Queues → OrderSide → Table U (BookLevel U) → List OrderId
  queues_of q s [] = []
  queues_of q s ((price, level) ∷ m) = q s (d.units price) ++ queues_of q s m

  -- Each of some levels is read in the book.
  abbrev Levels : OrderBook U → OrderSide → Table U (BookLevel U) → Type 0
  Levels b s [] = Unit
  Levels b s ((price, level) ∷ m) = (get_level s price b ≡ some level) × Levels b s m

  module _ {b : OrderBook U} {q : Queues} (rep : Rep b q) (fuel : ℕ)
      (enough : total_orders b < fuel) where
    flat_map_orders-queues :
        (s : OrderSide) (m : Table U (BookLevel U))
        → Levels b s m
        → (os : List (BookOrder U)) × (flat_map_orders fuel b m ≡ some os)
          × (ids os ≡ queues_of q s m)
    unfolding flat_map_orders Option.bind
    flat_map_orders-queues s [] f = ([], refl, refl)
    flat_map_orders-queues s ((price, level) ∷ m) f =
        let (os, run, all) = level_orders-queue rep s price level fuel f.0 enough in
        let (others, runs, rest) = flat_map_orders-queues s m f.1 in
        (
          os ++ others,
          rw (run, runs),
          map-append (λ (o : BookOrder U). o.order.order_id) os others
              ∙ ap₂ (λ xs ys. xs ++ ys) all rest,
        )

    asks-Found : (m : Table U (BookLevel U)) → Found upwards m b.asks → Levels b ask m
    unfolding get_level
    asks-Found [] f = tt
    asks-Found ((price, level) ∷ m) f = (f.0, asks-Found m f.1)

    bids-Found : (m : Table U (BookLevel U)) → Found downwards m b.bids → Levels b bid m
    unfolding get_level
    bids-Found [] f = tt
    bids-Found ((price, level) ∷ m) f = (f.0, bids-Found m f.1)

    pub side_orders-queues :
        Reached b
        → ((os : List (BookOrder U)) × (ask_orders fuel b ≡ some os)
            × (ids os ≡ queues_of q ask b.asks))
          × ((os : List (BookOrder U)) × (bid_orders fuel b ≡ some os)
              × (ids os ≡ queues_of q bid b.bids))
    unfolding ask_orders bid_orders
    side_orders-queues reached =
        let o = Reached-IsOrdered reached in
        (
          flat_map_orders-queues ask b.asks
              (asks-Found b.asks (is_sorted-Found upwards b.asks o.asks_are)),
          flat_map_orders-queues bid b.bids
              (bids-Found b.bids (is_sorted-Found downwards b.bids o.bids_are)),
        )
