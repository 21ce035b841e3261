-- ===== src/OrderBook/Update.antt =====
-- `update_order`: new data for an order that keeps its place.
use mathlib.Core.Option
use perpl_dex_sdk.Prelude.{
  ◌+◌, ◌≤◌, ◌≡◌, refl, true, false, none, some, List, arith, ◌==◌, ==_iff, ==_refl, if◌then◌else◌,
  has, ap, ◌∙◌, subst, ok,
}
use perpl_dex_sdk.Amount.{Amount}
use perpl_dex_sdk.Types.{OrderId, OrderSide, side}
use perpl_dex_sdk.Order.{Order}
use perpl_dex_sdk.BookOrder.{BookOrder, order_side, update_order as update_node}
use perpl_dex_sdk.BookLevel.{BookLevel, update_size}
use perpl_dex_sdk.OrderBook.{OrderBook, get_order, get_level, modify_level, modify_order}
use perpl_dex_sdk.OrderBook.Ops.{update_order}
use perpl_dex_sdk.OrderBook.Queue.{Nodes, total, Seg-frame, size_at, size_of, alter}
use perpl_dex_sdk.OrderBook.View.{
  get_order-modify_order, get_order-modify_level, get_level-modify_order, get_level-modify_level,
}
use perpl_dex_sdk.OrderBook.Rep.{
  Rep, Holds, LevelIs, Queues, nodes, same_level, same_level_refl, Requeued, Rep-requeue,
}
use perpl_dex_sdk.OrderBook.Member.{
  queue_of, LevelIs-key, requeue_self, level_of_nonempty, member_elsewhere, Seg-update_order,
  total_change, size-le-total,
}

module _ {U : Type 0} ⦃d : Amount U⦄ where
  -- The book that a successful update leaves.
  unfoldable pub updated : Order U → BookOrder U → OrderBook U → OrderBook U
  updated order node b =
      modify_level (order_side node) node.order.price (update_size node.order.size order.size)
        (modify_order order.order_id (update_node order) b)

  get_order-updated :
      (order : Order U) (node : BookOrder U) (b : OrderBook U) (y : OrderId)
      → get_order y (updated order node b) ≡ alter order.order_id (update_node order) (nodes b) y
  unfolding updated
  get_order-updated order node b y =
      get_order-modify_level (order_side node) node.order.price _ _ y
      ∙ get_order-modify_order _ _ b y

  get_level-updated :
      (order : Order U) (node : BookOrder U) (b : OrderBook U) (s : OrderSide) (p : U)
      → get_level s p (updated order node b) ≡ (
          if same_level (order_side node) (d.units node.order.price) s (d.units p)
          then Option.map (update_size node.order.size order.size) (get_level s p b)
          else get_level s p b)
  unfolding updated
  get_level-updated order node b s p = ground (
    arith,
    get_level-modify_level (order_side node) node.order.price
        (update_size node.order.size order.size) (modify_order order.order_id (update_node order) b)
        s p,
    get_level-modify_order order.order_id (update_node order) b s p,
  )

  update_size-Holds :
      (h g : Nodes U) (xs : List OrderId) (old new : U) (l : BookLevel U)
      → total g xs + d.units old ≡ total h xs + d.units new
      → d.units old ≤ total h xs
      → total g xs ≤ d.cap
      → Holds h xs l
      → Holds g xs (update_size old new l)
  unfolding update_size
  update_size-Holds h g xs old new l e le small a = record {
    head_is = a.head_is;
    tail_is = a.tail_is;
    size_is = omega (
      arith,
      a.size_is,
      d.units_sub l.cached_size old (omega (arith, a.size_is)),
      d.units_add (d.sub l.cached_size old) new
          (omega (arith, a.size_is, d.units_sub l.cached_size old (omega (arith, a.size_is)))),
    );
    count_is = a.count_is;
    nonempty = a.nonempty;
  }

  module _ {b : OrderBook U} {q : Queues} (rep : Rep b q) (order : Order U) (node : BookOrder U)
      (found : get_order order.order_id b ≡ some node)
      (same_type : side order.type ≡ order_side node)
      (same_price : d.units order.price ≡ d.units node.order.price)
      (small : total (nodes b) (queue_of q node) + d.units order.size
        ≤ d.cap + d.units node.order.size) where
    member : has order.order_id (queue_of q node) ≡ true
    member = rep.queued order.order_id node found

    after : OrderBook U
    after = updated order node b

    size_before : size_at (nodes b) order.order_id ≡ d.units node.order.size
    size_before = ap size_of found

    order_after : get_order order.order_id after ≡ some (record node { order = order })
    unfolding after update_node
    order_after =
        get_order-updated order node b order.order_id
        ∙ ground (arith, found, ==_refl order.order_id)

    size_after : size_at (nodes after) order.order_id ≡ d.units order.size
    size_after = ap size_of order_after

    others_after : (y : OrderId) → (order.order_id == y) ≡ false → get_order y after ≡ get_order y b
    unfolding after
    others_after y ne = get_order-updated order node b y ∙ rw ne

    total_after :
        total (nodes after) (queue_of q node) + d.units node.order.size
        ≡ total (nodes b) (queue_of q node) + d.units order.size
    total_after = omega (
      arith,
      size_before,
      size_after,
      total_change (nodes b) (nodes after) order.order_id (queue_of q node)
          (rep.distinct (order_side node) (d.units node.order.price)) member
          (λ y m ne. ap size_of (others_after y ne)),
    )

    level_before :
        (l : BookLevel U) × (get_level (order_side node) node.order.price b ≡ some l)
        × Holds (nodes b) (queue_of q node) l
    level_before =
        level_of_nonempty (nodes b) (queue_of q node) order.order_id _ member
          (rep.levels (order_side node) node.order.price)

    level_after :
        LevelIs (nodes after) (queue_of q node) (get_level (order_side node) node.order.price after)
    unfolding after
    level_after =
        let (l, e, a) = level_before in
        rw
          (
            get_level-updated order node b (order_side node) node.order.price,
            same_level_refl (order_side node) (d.units node.order.price),
            e,
          )
          (update_size-Holds (nodes b) (nodes after) (queue_of q node) node.order.size order.size l
            total_after
            (omega
              (arith, size_before, size-le-total (nodes b) order.order_id (queue_of q node) member))
            (omega (arith, total_after)) a)

    Requeued-updated :
        Requeued b q
          (order_side node)
          (d.units node.order.price)
          order.order_id
          (queue_of q node)
          after
    unfolding after
    Requeued-updated = record {
      spared = λ y out. others_after y;
      elsewhere =
          member_elsewhere rep (order_side node) (d.units node.order.price) order.order_id member;
      linked =
          Seg-frame _ _ _ _ none (queue_of q node) none (λ y m. get_order-updated order node b y)
            (Seg-update_order (nodes b) (order_side node) (d.units node.order.price) none
              (queue_of q node) none order same_type same_price
              (rep.linked (order_side node) (d.units node.order.price)));
      distinct = rep.distinct (order_side node) (d.units node.order.price);
      level = λ price e. LevelIs-key _ _ _ node.order.price price _ e level_after;
      other_levels = λ s' price ne. get_level-updated order node b s' price ∙ rw ne;
      kept = λ y o e t. ground (arith, member, ==_iff order.order_id y);
    }

    pub order-updated :
        get_order order.order_id (updated order node b) ≡ some (record node { order = order })
    unfolding after
    order-updated = order_after

    pub Rep-updated : Rep (updated order node b) q
    unfolding after
    Rep-updated =
        subst (Rep (updated order node b))
          (requeue_self q (order_side node) (d.units node.order.price))
          (Rep-requeue rep Requeued-updated)

    update_order-updated :
        d.eq order.size d.zero ≡ false → update_order order b ≡ (updated order node b, ok tt)
    unfolding update_order updated
    update_order-updated positive =
        let (l, e, a) = level_before in
        rw (
          positive,
          found,
          get_level-modify_order order.order_id (update_node order) b (order_side node)
              node.order.price,
          e,
        )

    -- On a book that holds the queues `q`, `update_order` of a known order, on its side and at its
    -- price, to a size that is not zero and has room at its level: it succeeds, the order carries
    -- the new data between its old links, and every queue stays as it is.
    pub update_order-Rep :
        d.eq order.size d.zero ≡ false
        → ((update_order order b).1 ≡ ok tt)
          × Rep (update_order order b).0 q
          × (get_order order.order_id (update_order order b).0
              ≡ some (record node { order = order }))
    unfolding after
    update_order-Rep positive = rw (update_order-updated positive) (refl, Rep-updated, order_after)
