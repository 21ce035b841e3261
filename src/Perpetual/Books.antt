-- ===== src/Perpetual/Books.antt =====
-- The calls of src/state/perpetual.rs into the book are changes of the book's own operations.
use perpl_dex_sdk.Prelude.{List, Result, ok, err, and_then, map_err}
use perpl_dex_sdk.Amount.{Amount}
use perpl_dex_sdk.Types.{PerpetualId, OrderId}
use perpl_dex_sdk.Numbers.{Numbers}
use perpl_dex_sdk.Order.{Order}
use perpl_dex_sdk.DexError.{order_not_found, order_book}
use perpl_dex_sdk.OrderBook.{OrderBook, get_order_data}
use perpl_dex_sdk.OrderBook.Ops
use perpl_dex_sdk.OrderBook.Snapshot
use perpl_dex_sdk.OrderBook.Ops.{remove_order_by_id, move_to_back}
use perpl_dex_sdk.OrderBook.Ordered.{or_fail-keeps}
use perpl_dex_sdk.OrderBook.Reached.{Reached, adds, updates, removes, moves, loads}
use perpl_dex_sdk.Perpetual.{Perpetual}
use perpl_dex_sdk.Perpetual.Orders.{
  Route, reprice, enlarge, renew, amend, route, routed, update_book, add_order, update_order,
  remove_order, add_orders_from_snapshot,
}

map_err-keeps {ℓ κ μ ν ρ} :
    {E : Type ℓ} {F : Type κ} {A : Type μ} {S : Type ν} (P : S → Type ρ) (f : E → F)
    (r : S × Result E A)
    → P r.0
    → P (map_err f r).0
map_err-keeps P f (s, ok a) h = h
map_err-keeps P f (s, err e) h = h

and_then-keeps {ℓ κ μ ν ρ} :
    {E : Type ℓ} {A : Type κ} {B : Type μ} {S : Type ν} (P : S → Type ρ) (r : S × Result E A)
    (k : A → S → S × Result E B)
    → P r.0
    → ((a : A) (s : S) → P s → P (k a s).0)
    → P (and_then r k).0
and_then-keeps P (s, ok a) k h hk = hk a s h
and_then-keeps P (s, err e) k h hk = h

module _ {U : Type 0} ⦃d : Amount U⦄ where
  routed-Reached :
      (r : Route) (order : Order U) (b : OrderBook U) → Reached b → Reached (routed r order b).0
  unfolding routed
  routed-Reached reprice order b h =
      and_then-keeps Reached (remove_order_by_id order.order_id b) _ (removes order.order_id h)
        λ _ s hs. adds order hs
  routed-Reached enlarge order b h = moves order h
  routed-Reached renew order b h = moves order h
  routed-Reached amend order b h = updates order h

  update_book-Reached :
      (R : Type 0) (id : PerpetualId) (order : Order U) (b : OrderBook U)
      → Reached b
      → Reached (update_book {R = R} id order b).0
  unfolding update_book
  update_book-Reached R id order b h =
      or_fail-keeps Reached (get_order_data order.order_id b) (order_not_found id order.order_id) b
        _ h
        λ prev.
          map_err-keeps Reached order_book (routed (route prev order) order b)
            (routed-Reached (route prev order) order b h)

module _ (n : Numbers) (R : Type 0) where
  pub add_order-Reached :
      (order : Order n.UD64) (p : Perpetual n)
      → Reached ⦃d = n.ud64⦄ p.l3_book
      → Reached ⦃d = n.ud64⦄ (add_order n {R = R} order p).0.l3_book
  unfolding add_order
  add_order-Reached order p h =
      map_err-keeps (Reached ⦃d = n.ud64⦄) order_book (Ops.add_order ⦃d = n.ud64⦄ order p.l3_book)
        (adds order h)

  pub update_order-Reached :
      (order : Order n.UD64) (p : Perpetual n)
      → Reached ⦃d = n.ud64⦄ p.l3_book
      → Reached ⦃d = n.ud64⦄ (update_order n {R = R} order p).0.l3_book
  unfolding update_order
  update_order-Reached order p h = update_book-Reached ⦃d = n.ud64⦄ R p.id order p.l3_book h

  pub remove_order-Reached :
      (id : OrderId) (p : Perpetual n)
      → Reached ⦃d = n.ud64⦄ p.l3_book
      → Reached ⦃d = n.ud64⦄ (remove_order n {R = R} id p).0.l3_book
  unfolding remove_order
  remove_order-Reached id p h =
      map_err-keeps (Reached ⦃d = n.ud64⦄) (λ _. order_not_found p.id id)
        (remove_order_by_id ⦃d = n.ud64⦄ id p.l3_book) (removes id h)

  pub add_orders_from_snapshot-Reached :
      (orders : List (Order n.UD64)) (p : Perpetual n)
      → Reached ⦃d = n.ud64⦄ p.l3_book
      → Reached ⦃d = n.ud64⦄ (add_orders_from_snapshot n {R = R} orders p).0.l3_book
  unfolding add_orders_from_snapshot
  add_orders_from_snapshot-Reached orders p h =
      map_err-keeps (Reached ⦃d = n.ud64⦄) order_book
        (Snapshot.add_orders_from_snapshot ⦃d = n.ud64⦄ orders p.l3_book) (loads orders h)
