-- ===== src/Perpetual/Routing.antt =====
-- What `update_order` of a contract makes of the queues of its book, on each of its four routes.
use mathlib.Core.Option
use mathlib.Core.Path.{ap₂}
use perpl_dex_sdk.Prelude.{
  ==_iff, ℕ, ◌+◌, ◌≤◌, ◌≡◌, refl, true, false, some, [], ◌∷◌, ◌++◌, arith, ◌==◌, Bool-cases, inl,
  inr, ap, sym, subst, Result, ok, and_then_ok, map_err_ok, drop_all,
}
use perpl_dex_sdk.Amount.{Amount}
use perpl_dex_sdk.Types.{PerpetualId, OrderId, OrderSide, side}
use perpl_dex_sdk.Order.{Order}
use perpl_dex_sdk.BookError.{OrderBookError}
use perpl_dex_sdk.BookOrder.{BookOrder, order_side}
use perpl_dex_sdk.DexError.{order_book}
use perpl_dex_sdk.OrderBook.{OrderBook, get_order, get_order_data}
use perpl_dex_sdk.OrderBook.Ops
use perpl_dex_sdk.OrderBook.Ops.{remove_order_by_id, move_to_back}
use perpl_dex_sdk.OrderBook.Queue.{total}
use perpl_dex_sdk.OrderBook.Rep.{Rep, Queues, nodes, requeue, same_level, same_side}
use perpl_dex_sdk.OrderBook.Member.{queue_of}
use perpl_dex_sdk.OrderBook.Add.{add_order-Rep}
use perpl_dex_sdk.OrderBook.Remove.{remove_order_by_id-Rep, total-remove_order_by_id}
use perpl_dex_sdk.OrderBook.Move.{move_to_back-Rep}
use perpl_dex_sdk.OrderBook.Update.{update_order-Rep}
use perpl_dex_sdk.Perpetual.Orders.{
  Route, reprice, enlarge, renew, amend, route, renewed, routed, update_book, update_order, on_book,
}
use perpl_dex_sdk.Perpetual.{Perpetual}
use perpl_dex_sdk.Numbers.{Numbers}

other_price : (s s' : OrderSide) (k k' : ℕ) → (k == k') ≡ false → same_level s k s' k' ≡ false
other_price s s' k k' ne = elim (Bool-cases (same_side s s')) [ inl e ↦ rw (e, ne) | inr e ↦ rw e ]

module _ {U : Type 0} ⦃d : Amount U⦄ where
  -- The queues that a route leaves: a new price takes the order out of its queue and puts it behind
  -- the queue of its new level, a larger size or a new expiry behind its own queue, and any other
  -- change leaves the queues as they are.
  abbrev pub route_queues : Route → Order U → BookOrder U → Queues → Queues
  route_queues reprice order node q =
      let q' =
        requeue q (order_side node) (d.units node.order.price)
          (drop_all order.order_id (queue_of q node)) in
      requeue q' (side order.type) (d.units order.price)
        (q (side order.type) (d.units order.price) ++ order.order_id ∷ [])
  route_queues enlarge order node q =
      requeue q (order_side node) (d.units node.order.price)
        (drop_all order.order_id (queue_of q node) ++ order.order_id ∷ [])
  route_queues renew order node q =
      requeue q (order_side node) (d.units node.order.price)
        (drop_all order.order_id (queue_of q node) ++ order.order_id ∷ [])
  route_queues amend order node q = q

  found_data :
      (b : OrderBook U) (id : OrderId) (node : BookOrder U)
      → get_order id b ≡ some node
      → get_order_data id b ≡ some node.order
  unfolding get_order_data
  found_data b id node e = ap (Option.map (λ (o : BookOrder U). o.order)) e

  module _ {b : OrderBook U} {q : Queues} (rep : Rep b q) (order : Order U) (node : BookOrder U)
      (found : get_order order.order_id b ≡ some node) where
    -- What each route leaves behind.
    abbrev pub Routed : Route → OrderBook U × Result (OrderBookError U) (Unit {0}) → Type 0
    Routed r out =
        (out.1 ≡ ok tt)
        × Rep out.0 (route_queues r order node q)
        × (Option.map (λ (o : BookOrder U). o.order) (get_order order.order_id out.0) ≡ some order)

    reprice-Routed :
        (d.units node.order.price == d.units order.price) ≡ false
        → d.eq order.size d.zero ≡ false
        → d.eq order.price d.zero ≡ false
        → total (nodes b) (q (side order.type) (d.units order.price)) + d.units order.size ≤ d.cap
        → Routed reprice (routed reprice order b)
    unfolding routed
    reprice-Routed new_price sized priced small =
        let ne =
          other_price (order_side node) (side order.type) (d.units node.order.price)
            (d.units order.price) new_price in
        let s = side order.type in
        let k = d.units order.price in
        let gone = remove_order_by_id-Rep rep order.order_id node found in
        let stays = total-remove_order_by_id rep order.order_id node found s k ne in
        let b1 = (remove_order_by_id order.order_id b).0 in
        let q1 =
          requeue q (order_side node) (d.units node.order.price)
            (drop_all order.order_id (queue_of q node)) in
        let target : q1 s k ≡ q s k = rw ne in
        let added =
          add_order-Rep gone.1 order gone.2
            (subst (λ xs. total (nodes b1) xs + d.units order.size ≤ d.cap) (sym target)
              (omega (arith, stays, small)))
            sized priced in
        rw
          (and_then_ok (remove_order_by_id order.order_id b) node.order
            (λ _ b'. Ops.add_order order b') gone.0)
          (
            added.0,
            subst
                (λ xs. Rep (Ops.add_order order b1).0 (requeue q1 s k (xs ++ order.order_id ∷ [])))
                target added.1,
            added.2,
          )

    module _ (sized : d.eq order.size d.zero ≡ false) (priced : d.eq order.price d.zero ≡ false)
        (same_type : side order.type ≡ order_side node)
        (small : total (nodes b) (q (side order.type) (d.units order.price)) + d.units order.size
          ≤ d.cap) where
      -- With the order's price as it was.
      module _ (same_price : (d.units node.order.price == d.units order.price) ≡ true) where
        old_price : d.units order.price ≡ d.units node.order.price
        old_price = ground (arith, ==_iff (d.units node.order.price) (d.units order.price))

        fits :
            total (nodes b) (queue_of q node) + d.units order.size ≤ d.cap + d.units node.order.size
        fits =
            let own : q (side order.type) (d.units order.price) ≡ queue_of q node =
              ap₂ q same_type old_price in
            omega (arith, small, ap (total (nodes b)) own)

        moved-Routed : Routed enlarge (move_to_back order b)
        moved-Routed = move_to_back-Rep rep order node found same_type old_price fits

        amend-Routed : Routed amend (Ops.update_order order b)
        amend-Routed =
            let done = update_order-Rep rep order node found same_type old_price fits sized in
            (done.0, done.1, ap (Option.map (λ (o : BookOrder U). o.order)) done.2)

        kept-Routed : Routed (route node.order order) (routed (route node.order order) order b)
        unfolding routed route
        kept-Routed =
            rw (d.eq_units node.order.price order.price, same_price)
              (elim (Bool-cases (d.lt node.order.size order.size)) [
                | inl larger ↦ rw larger moved-Routed
                | inr rest ↦ rw rest (elim (Bool-cases (renewed node.order order)) [
                  | inl h ↦ rw h moved-Routed
                  | inr h ↦ rw h amend-Routed
                ])
              ])

      routed-Routed : Routed (route node.order order) (routed (route node.order order) order b)
      unfolding routed route
      routed-Routed = elim (Bool-cases (d.units node.order.price == d.units order.price)) [
        | inl same ↦ kept-Routed same
        | inr other ↦
            rw (d.eq_units node.order.price order.price, other)
              (reprice-Routed other sized priced small)
      ]

      update_book_lem :
          {R : Type 0} (id : PerpetualId)
          → update_book {R = R} id order b ≡ ((routed (route node.order order) order b).0, ok tt)
      unfolding update_book
      update_book_lem id =
          rw (found_data b order.order_id node found)
            (map_err_ok order_book (routed (route node.order order) order b) tt routed-Routed.0)

module _ (n : Numbers) {R : Type 0} where
  open n use {UD64, ud64}

  pub update_order-route_queues :
      (p : Perpetual n) (q : Queues) (order : Order UD64) (node : BookOrder UD64)
      → Rep ⦃d = ud64⦄ p.l3_book q
      → get_order ⦃d = ud64⦄ order.order_id p.l3_book ≡ some node
      → ud64.eq order.size ud64.zero ≡ false
      → ud64.eq order.price ud64.zero ≡ false
      → side order.type ≡ order_side node
      → total ⦃d = ud64⦄ (nodes ⦃d = ud64⦄ p.l3_book) (q (side order.type) (ud64.units order.price))
          + ud64.units order.size
        ≤ ud64.cap
      → ((update_order n {R = R} order p).1 ≡ ok tt)
        × Rep ⦃d = ud64⦄
            (update_order n {R = R} order p).0.l3_book
            (route_queues ⦃d = ud64⦄ (route ⦃d = ud64⦄ node.order order) order node q)
        × (get_order_data ⦃d = ud64⦄ order.order_id (update_order n {R = R} order p).0.l3_book
            ≡ some order)
  unfolding update_order on_book get_order_data
  update_order-route_queues p q order node rep found sized priced same_type small =
      let book = routed-Routed ⦃d = ud64⦄ rep order node found sized priced same_type small in
      let run =
        update_book_lem ⦃d = ud64⦄ rep order node found sized priced same_type small {R = R} p.id in
      rw run (refl, book.1, book.2)
