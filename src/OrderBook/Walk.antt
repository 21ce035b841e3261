-- ===== src/OrderBook/Walk.antt =====
-- The iterator over a level visits its queue in order, and ends: fuel for one more step than the book
-- has orders is enough.
use mathlib.Core.Path.{ap₂}
use perpl_dex_sdk.Prelude.{
  ℕ, zero, suc, ◌<◌, ◌≤◌, ◌≡◌, ◌≢◌, ==_refl, refl, true, Option, none, some, List, [], ◌∷◌, map,
  arith, first, length, ap, subst, ◌∙◌, has, Distinct, drop_all, Distinct-drop_all, has-drop_all,
  length-drop_all, drop_all-absent, Bool-cases, inl, inr,
}
use perpl_dex_sdk.Amount.{Amount}
use perpl_dex_sdk.Types.{OrderId, OrderSide}
use perpl_dex_sdk.Table
use perpl_dex_sdk.Table.{Table}
use perpl_dex_sdk.BookKeys.{by_id}
use perpl_dex_sdk.BookOrder.{BookOrder}
use perpl_dex_sdk.BookLevel.{BookLevel}
use perpl_dex_sdk.OrderBook.{OrderBook, get_order, get_level}
use perpl_dex_sdk.OrderBook.Iteration.{collect, level_orders, total_orders, iter_next}
use perpl_dex_sdk.OrderBook.Queue.{Seg, Seg-member}
use perpl_dex_sdk.OrderBook.Rep.{Rep, Holds, LevelIs, Queues, nodes}

-- Distinct keys of a table are no more than its entries.
length-le-table :
    {V : Type 0} (m : Table ℕ V) (xs : List ℕ)
    → Distinct xs
    → ((y : ℕ) → has y xs ≡ true → Table.get by_id y m ≢ none)
    → length xs ≤ length m
unfolding Table.get
length-le-table [] [] dis inside = omega arith
length-le-table [] (x ∷ xs) dis inside = absurd (inside x (ground (arith, ==_refl x)) refl)
length-le-table ((j, w) ∷ m) xs dis inside =
    let shorter =
      length-le-table m (drop_all j xs) (Distinct-drop_all j xs dis)
        (λ y h. ground (arith, has-drop_all y j xs, inside y)) in
    elim (Bool-cases (has j xs)) [
      | inl h ↦ omega (arith, shorter, length-drop_all j xs dis h)
      | inr out ↦ omega (arith, shorter, ap length (drop_all-absent j xs out))
    ]

module _ {U : Type 0} ⦃d : Amount U⦄ where
  abbrev pub ids : List (BookOrder U) → List OrderId
  ids os = map (λ (o : BookOrder U). o.order.order_id) os

  iter_next-some :
      (b : OrderBook U) (x : OrderId) (node : BookOrder U)
      → get_order x b ≡ some node
      → iter_next b (some x) ≡ (some node, node.next)
  unfolding iter_next
  iter_next-some b x node e = rw (e, iter_next)

  collect_step :
      (b : OrderBook U) (fuel : ℕ) (x : OrderId) (node : BookOrder U) (os : List (BookOrder U))
      → get_order x b ≡ some node
      → collect fuel b node.next ≡ some os
      → collect (suc fuel) b (some x) ≡ some (node ∷ os)
  unfolding collect
  collect_step b fuel x node os e rest = ground (arith, iter_next-some b x node e, rest)

  -- From the first node of a segment the iterator visits all of it.
  collect-Seg :
      (b : OrderBook U) (s : OrderSide) (k : ℕ) (fuel : ℕ) (p : Option OrderId) (xs : List OrderId)
      → Seg (nodes b) s k p xs none
      → length xs < fuel
      → (os : List (BookOrder U)) × (collect fuel b (first xs none) ≡ some os) × (ids os ≡ xs)
  unfolding collect iter_next
  collect-Seg b s k zero p xs a enough = absurd (omega arith)
  collect-Seg b s k (suc fuel) p [] a enough = ([], refl, refl)
  collect-Seg b s k (suc fuel) p (x ∷ xs) a enough =
      let (os, run, all) = collect-Seg b s k fuel (some x) xs a.1 (omega arith) in
      (
        a.0.node ∷ os,
        collect_step b fuel x a.0.node os a.0.found (ap (collect fuel b) a.0.next_is ∙ run),
        ap₂ (λ i is. i ∷ is) a.0.id_is all,
      )

  module _ {b : OrderBook U} {q : Queues} (rep : Rep b q) where
    -- No queue is longer than the order map.
    pub length-queue : (s : OrderSide) (k : ℕ) → length (q s k) ≤ total_orders b
    unfolding total_orders get_order
    length-queue s k =
        length-le-table b.orders (q s k) (rep.distinct s k)
          λ y m e. cc ((Seg-member (nodes b) s k none (q s k) none y (rep.linked s k) m).1, e)

    -- On a book that holds the queues `q`, iterating one of its levels, with more fuel than the book
    -- has orders, ends with the orders of the level's queue in queue order.
    pub level_orders-queue :
        (s : OrderSide) (price : U) (level : BookLevel U) (fuel : ℕ)
        → get_level s price b ≡ some level
        → total_orders b < fuel
        → (os : List (BookOrder U)) × (level_orders fuel b level ≡ some os)
          × (ids os ≡ q s (d.units price))
    unfolding level_orders
    level_orders-queue s price level fuel e enough =
        let holds : Holds (nodes b) (q s (d.units price)) level =
          subst (LevelIs (nodes b) (q s (d.units price))) e (rep.levels s price) in
        rw holds.head_is (
          collect-Seg b s (d.units price) fuel none (q s (d.units price))
            (rep.linked s (d.units price)) (omega (arith, length-queue s (d.units price))))
