-- ===== src/Exchange/Fills.antt =====
-- What a fill does to a maker's order, by `fill_maker` of src/state/exchange.rs: against the queues of
-- the contract's book.
use mathlib.Core.Option
use perpl_dex_sdk.Prelude.{
  ◌+◌, ◌-◌, ◌≤◌, ◌≡◌, refl, true, false, some, none, arith, ap, subst, Bool-cases, inl, inr,
  ==_refl, if◌then◌else◌, Result, ok, err, drop_all, map_err_ok,
}
use perpl_dex_sdk.Types.{side}
use perpl_dex_sdk.Numbers.{Numbers}
use perpl_dex_sdk.Order.{Order, updated}
use perpl_dex_sdk.BookOrder.{BookOrder, order_side}
use perpl_dex_sdk.OrderBook.{OrderBook, get_order, get_order_data}
use perpl_dex_sdk.OrderBook.Ops.{remove_order_by_id}
use perpl_dex_sdk.OrderBook.Queue.{total}
use perpl_dex_sdk.OrderBook.Rep.{Rep, Queues, requeue, nodes}
use perpl_dex_sdk.OrderBook.Member.{queue_of}
use perpl_dex_sdk.OrderBook.Remove.{remove_order_by_id-Rep}
use perpl_dex_sdk.DexError.{DexError, order_not_found}
use perpl_dex_sdk.Perpetual.{Perpetual}
use perpl_dex_sdk.Perpetual.Orders.{amend, route, update_order, remove_order}
use perpl_dex_sdk.Perpetual.Routing.{update_order-route_queues, route_queues}
use perpl_dex_sdk.StateEvents.{StateEvents, OrderEventType, removed}
use perpl_dex_sdk.Emit.{request_of, order_event}
use perpl_dex_sdk.Exchange.Handler.{◌>>=◌, ◌>>◌, gets, call_expect, expected}
use perpl_dex_sdk.Exchange.Lookup.{Env}
use perpl_dex_sdk.Exchange.OnOrders.{fill_maker}

expected_ok {ℓ κ μ} :
    {E : Type ℓ} {S : Type κ} {A : Type μ} (r : S × Result E A) (a : A)
    → r.1 ≡ ok a
    → expected r ≡ some (r.0, ok a)
expected_ok (s, ok b) a h = ap (λ x. some (s, x)) h
expected_ok (s, err e) a h = absurd (cc h)

module _ (n : Numbers) (env : Env n) (node : BookOrder n.UD64) (fill_size : n.UD64) where
  open n use {UD64, ud64}

  -- What is left of the order.
  abbrev pub filled_order : Order UD64
  filled_order =
      updated env.instant (request_of n env.ctx) none (some (ud64.sub node.order.size fill_size))
        none node.order

  left_units :
      ud64.lt fill_size node.order.size ≡ true
      → ud64.units (ud64.sub node.order.size fill_size)
        ≡ ud64.units node.order.size - ud64.units fill_size
  left_units h =
      ground
        (arith, ud64.lt_units fill_size node.order.size, ud64.units_sub node.order.size fill_size)

  amends :
      ud64.lt fill_size node.order.size ≡ true → route ⦃d = ud64⦄ node.order filled_order ≡ amend
  unfolding route updated
  amends h = ground (
    arith,
    left_units h,
    ud64.lt_units fill_size node.order.size,
    ud64.lt_units node.order.size (ud64.sub node.order.size fill_size),
    ud64.eq_units node.order.price node.order.price,
    ==_refl (ud64.units node.order.price),
    ==_refl node.order.expiry_block,
  )

module _ (n : Numbers) (R : Type 0) (env : Env n) (p : Perpetual n) (q : Queues)
    (node : BookOrder n.UD64) (fill_size : n.UD64) where
  open n use {UD64, ud64}

  -- A fill of less than the order's size.
  partial_fill :
      Rep ⦃d = ud64⦄ p.l3_book q
      → get_order ⦃d = ud64⦄ node.order.order_id p.l3_book ≡ some node
      → ud64.eq node.order.price ud64.zero ≡ false
      → total ⦃d = ud64⦄
            (nodes ⦃d = ud64⦄ p.l3_book)
            (q (side node.order.type) (ud64.units node.order.price))
          + ud64.units node.order.size
        ≤ ud64.cap
      → ud64.lt fill_size node.order.size ≡ true
      → ((update_order n {R = R} (filled_order n env node fill_size) p).1 ≡ ok tt)
        × Rep ⦃d = ud64⦄ (update_order n {R = R} (filled_order n env node fill_size) p).0.l3_book q
        × (get_order_data ⦃d = ud64⦄ node.order.order_id
              (update_order n {R = R} (filled_order n env node fill_size) p).0.l3_book
            ≡ some (filled_order n env node fill_size))
  unfolding updated
  partial_fill rep found priced room less =
      let units = left_units n env node fill_size less in
      let rest = filled_order n env node fill_size in
      let out =
        update_order-route_queues n {R = R} p q rest node rep found
          (ground (
            arith,
            units,
            ud64.units_zero,
            ud64.lt_units fill_size node.order.size,
            ud64.eq_units (ud64.sub node.order.size fill_size) ud64.zero,
          ))
          priced refl (ground (arith, units, room)) in
      (
        out.0,
        subst
            (λ r.
              Rep ⦃d = ud64⦄ (update_order n {R = R} rest p).0.l3_book
                (route_queues ⦃d = ud64⦄ r rest node q))
            (amends n env node fill_size less) out.1,
        out.2,
      )

  abbrev book_without : OrderBook UD64
  book_without = (remove_order_by_id ⦃d = ud64⦄ node.order.order_id p.l3_book).0

  full_fill :
      Rep ⦃d = ud64⦄ p.l3_book q
      → get_order ⦃d = ud64⦄ node.order.order_id p.l3_book ≡ some node
      → remove_order n {R = R} node.order.order_id p
        ≡ (record p { l3_book = book_without }, ok node.order)
  unfolding remove_order
  full_fill rep found =
      let out = remove_order_by_id-Rep ⦃d = ud64⦄ rep node.order.order_id node found in
      ap
        (λ (r : OrderBook UD64 × Result (DexError UD64 R) (Order UD64)).
          (record p { l3_book = r.0 }, r.1))
        (map_err_ok (λ _. order_not_found p.id node.order.order_id)
          (remove_order_by_id ⦃d = ud64⦄ node.order.order_id p.l3_book) node.order out.0)

  -- On a contract whose book holds the queues `q`, the fill of an order of the book, which has a price
  -- and room at its level, never meets the panic of `expect("order exists")`. A fill of less than the
  -- order's size leaves it in its place in the queue with the rest of its size; any other fill takes
  -- it out of the book and out of its queue, and leaves all other queues.
  pub fill_maker-queues :
      Rep ⦃d = ud64⦄ p.l3_book q
      → get_order ⦃d = ud64⦄ node.order.order_id p.l3_book ≡ some node
      → ud64.eq node.order.price ud64.zero ≡ false
      → total ⦃d = ud64⦄
            (nodes ⦃d = ud64⦄ p.l3_book)
            (q (side node.order.type) (ud64.units node.order.price))
          + ud64.units node.order.size
        ≤ ud64.cap
      → (p' : Perpetual n) × (event : StateEvents n) × (fill_maker n {R = R} env node.order
            fill_size p
          ≡ some (p', ok event))
        × Rep ⦃d = ud64⦄ p'.l3_book (
            if ud64.lt fill_size node.order.size
            then q
            else requeue q
                (order_side node)
                (ud64.units node.order.price)
                (drop_all node.order.order_id (queue_of ⦃d = ud64⦄ q node)))
        × (get_order_data ⦃d = ud64⦄ node.order.order_id p'.l3_book ≡ (
            if ud64.lt fill_size node.order.size
            then some (filled_order n env node fill_size)
            else none))
  unfolding fill_maker ◌>>◌ ◌>>=◌ call_expect gets get_order_data
  fill_maker-queues rep found priced room = elim (Bool-cases (ud64.lt fill_size node.order.size)) [
    | inl less ↦
        let out = partial_fill rep found priced room less in
        let rest = filled_order n env node fill_size in
        let run = expected_ok (update_order n {R = R} rest p) tt out.0 in
        rw less (
          (update_order n {R = R} rest p).0,
          order_event n env.ctx
              (OrderEventType.updated none (some (ud64.sub node.order.size fill_size)) none)
              node.order (update_order n {R = R} rest p).0,
          rw run refl,
          out.1,
          out.2,
        )
    | inr all ↦
        let out = remove_order_by_id-Rep ⦃d = ud64⦄ rep node.order.order_id node found in
        rw all (
          record p { l3_book = book_without },
          order_event n env.ctx removed node.order (record p { l3_book = book_without }),
          rw (full_fill rep found) refl,
          out.1,
          ap (Option.map (λ (o : BookOrder UD64). o.order)) out.2,
        )
  ]
