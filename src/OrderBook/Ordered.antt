-- ===== src/OrderBook/Ordered.antt =====
-- The levels of each side stand in the order of their prices, whatever the operations do.
use perpl_dex_sdk.Prelude.{
  ◌∙◌, ◌≡◌, Result, or_fail, refl, Bool, true, false, Option, none, some, if◌then◌else◌,
  Option-cases, inl, inr,
}
use perpl_dex_sdk.Amount.{Amount}
use perpl_dex_sdk.Types.{OrderId, OrderSide, ask, bid, side}
use perpl_dex_sdk.Table.Sorted.{is_sorted, is_sorted-insert, is_sorted-remove, is_sorted-modify}
use perpl_dex_sdk.BookKeys.{upwards, downwards}
use perpl_dex_sdk.Order.{Order}
use perpl_dex_sdk.BookError.{OrderBookError}
use perpl_dex_sdk.BookOrder
use perpl_dex_sdk.BookOrder.{BookOrder, order_side, set_next}
use perpl_dex_sdk.BookLevel
use perpl_dex_sdk.BookLevel.{BookLevel, set_head}
use perpl_dex_sdk.OrderBook
use perpl_dex_sdk.OrderBook.{
  OrderBook, get_order, get_level, modify_level, get_or_create_level, insert_level, remove_level,
  modify_order, insert_order, drop_order, modify_linked, unlink_node, link_at_tail, best_ask,
  best_bid, first_key_value,
}
use perpl_dex_sdk.OrderBook.Ops.{
  append_order, add_order, update_order, remove_order_by_id, move_behind_tail, move_to_back, detach,
  is_id, relink_last,
}

-- What holds after both branches, and after a call that may fail.
pub if-keeps {ℓ κ} :
    {T : Type ℓ} (P : T → Type κ) (c : Bool) (x y : T) → P x → P y → P (if c then x else y)
if-keeps P true x y a b = a
if-keeps P false x y a b = b

pub or_fail-keeps {ℓ κ μ ν ρ} :
    {E : Type ℓ} {A : Type κ} {B : Type μ} {S : Type ν} (P : S → Type ρ) (o : Option A) (e : E)
    (s : S) (k : A → S × Result E B)
    → P s
    → ((a : A) → P (k a).0)
    → P (or_fail o e s k).0
or_fail-keeps P none e s k a h = a
or_fail-keeps P (some x) e s k a h = h x

module _ {U : Type 0} ⦃d : Amount U⦄ where
  -- The levels of both sides stand in the order of their prices.
  pub record IsOrdered (b : OrderBook U) : Type 0 where
    pub asks_are : is_sorted upwards b.asks ≡ true
    pub bids_are : is_sorted downwards b.bids ≡ true

  IsOrdered-modify_level :
      (s : OrderSide) (price : U) (f : BookLevel U → BookLevel U) (b : OrderBook U)
      → IsOrdered b
      → IsOrdered (modify_level s price f b)
  unfolding modify_level
  IsOrdered-modify_level ask price f b o = record {
    asks_are = is_sorted-modify upwards price f b.asks ∙ o.asks_are;
    bids_are = o.bids_are;
  }
  IsOrdered-modify_level bid price f b o = record {
    asks_are = o.asks_are;
    bids_are = is_sorted-modify downwards price f b.bids ∙ o.bids_are;
  }

  pub IsOrdered-insert_level :
      (s : OrderSide) (price : U) (l : BookLevel U) (b : OrderBook U)
      → IsOrdered b
      → IsOrdered (insert_level s price l b)
  unfolding insert_level
  IsOrdered-insert_level ask price l b o = record {
    asks_are = is_sorted-insert upwards price l b.asks o.asks_are;
    bids_are = o.bids_are;
  }
  IsOrdered-insert_level bid price l b o = record {
    asks_are = o.asks_are;
    bids_are = is_sorted-insert downwards price l b.bids o.bids_are;
  }

  IsOrdered-remove_level :
      (s : OrderSide) (price : U) (b : OrderBook U)
      → IsOrdered b
      → IsOrdered (remove_level s price b)
  unfolding remove_level
  IsOrdered-remove_level ask price b o = record {
    asks_are = is_sorted-remove upwards price b.asks o.asks_are;
    bids_are = o.bids_are;
  }
  IsOrdered-remove_level bid price b o = record {
    asks_are = o.asks_are;
    bids_are = is_sorted-remove downwards price b.bids o.bids_are;
  }

  IsOrdered-modify_order :
      (id : OrderId) (f : BookOrder U → BookOrder U) (b : OrderBook U)
      → IsOrdered b
      → IsOrdered (modify_order id f b)
  unfolding modify_order
  IsOrdered-modify_order id f b o = record { asks_are = o.asks_are; bids_are = o.bids_are }

  IsOrdered-modify_linked :
      (id : Option OrderId) (f : BookOrder U → BookOrder U) (b : OrderBook U)
      → IsOrdered b
      → IsOrdered (modify_linked id f b)
  unfolding modify_linked
  IsOrdered-modify_linked none f b o = o
  IsOrdered-modify_linked (some id) f b o = IsOrdered-modify_order id f b o

  IsOrdered-unlink_node :
      (p n : Option OrderId) (b : OrderBook U) → IsOrdered b → IsOrdered (unlink_node p n b)
  unfolding unlink_node
  IsOrdered-unlink_node p n b o = IsOrdered-modify_linked n _ _ (IsOrdered-modify_linked p _ b o)

  pub IsOrdered-insert_order :
      (id : OrderId) (node : BookOrder U) (b : OrderBook U)
      → IsOrdered b
      → IsOrdered (insert_order id node b)
  unfolding insert_order
  IsOrdered-insert_order id node b o = record { asks_are = o.asks_are; bids_are = o.bids_are }

  IsOrdered-drop_order :
      (id : OrderId) (b : OrderBook U) → IsOrdered b → IsOrdered (drop_order id b)
  unfolding drop_order
  IsOrdered-drop_order id b o = record { asks_are = o.asks_are; bids_are = o.bids_are }

  created :
      (found : Option (BookLevel U)) (b' : OrderBook U) {b : OrderBook U}
      → IsOrdered b'
      → IsOrdered b
      → IsOrdered (
          (elim found as (λ x. BookLevel U × OrderBook U) [
            | some l ↦ (l, b)
            | none ↦ (BookLevel.new, b')
          ]).1)
  created none b' o' o = o'
  created (some l) b' o' o = o

  IsOrdered-get_or_create_level :
      (s : OrderSide) (price : U) (b : OrderBook U)
      → IsOrdered b
      → IsOrdered (get_or_create_level s price b).1
  unfolding get_or_create_level
  IsOrdered-get_or_create_level s price b o =
      created (get_level s price b) (insert_level s price BookLevel.new b)
        (IsOrdered-insert_level s price BookLevel.new b o) o

  IsOrdered-link_at_tail :
      (s : OrderSide) (price : U) (t : Option OrderId) (id : OrderId) (size : U) (b : OrderBook U)
      → IsOrdered b
      → IsOrdered (link_at_tail s price t id size b)
  unfolding link_at_tail
  IsOrdered-link_at_tail s price t id size b o =
      IsOrdered-modify_level s price _ _
        (IsOrdered-get_or_create_level s price _ (IsOrdered-modify_linked t _ b o))

  IsOrdered-append_order :
      (order : Order U) (b : OrderBook U) → IsOrdered b → IsOrdered (append_order order b)
  unfolding append_order
  IsOrdered-append_order order b o = IsOrdered-link_at_tail _ _ _ _ _ _ (
      IsOrdered-insert_order _ _ _
        (IsOrdered-get_or_create_level (side order.type) order.price b o))

  abbrev Leaves : {A : Type 0} → OrderBook U × Result (OrderBookError U) A → Type 0
  Leaves out = IsOrdered out.0

  -- Whether they succeed or fail, `add_order`, `update_order`, `remove_order_by_id` and
  -- `move_to_back` keep the levels of both sides in the order of their prices.
  pub add_order-IsOrdered :
      (order : Order U) (b : OrderBook U) → IsOrdered b → IsOrdered (add_order order b).0
  unfolding add_order
  add_order-IsOrdered order b o = if-keeps Leaves (d.eq order.size d.zero) _ _ o (
      if-keeps Leaves (d.eq order.price d.zero) _ _ o
        (elim (Option-cases (get_order order.order_id b)) [
          | inl e ↦ rw e (IsOrdered-append_order order b o)
          | inr (node, e) ↦ rw e o
        ]))

  pub update_order-IsOrdered :
      (order : Order U) (b : OrderBook U) → IsOrdered b → IsOrdered (update_order order b).0
  unfolding update_order
  update_order-IsOrdered order b o = if-keeps Leaves (d.eq order.size d.zero) _ _ o (
      or_fail-keeps IsOrdered (get_order order.order_id b) _ b _ o λ node.
        or_fail-keeps IsOrdered
          (get_level (order_side node) node.order.price
            (modify_order order.order_id (BookOrder.update_order order) b))
          _ _ _ (IsOrdered-modify_order _ _ b o)
          (λ l. IsOrdered-modify_level _ _ _ _ (IsOrdered-modify_order _ _ b o)))

  pub remove_order_by_id-IsOrdered :
      (id : OrderId) (b : OrderBook U) → IsOrdered b → IsOrdered (remove_order_by_id id b).0
  unfolding remove_order_by_id
  remove_order_by_id-IsOrdered id b o = or_fail-keeps IsOrdered (get_order id b) _ b _ o λ node.
      let price = node.order.price in
      let s = order_side node in
      let b1 = unlink_node node.prev node.next b in
      let o1 = IsOrdered-unlink_node node.prev node.next b o in
      let change = detach id node.prev node.next node.order.size in
      or_fail-keeps IsOrdered (get_level s price b1) _ b1 _ o1 λ level.
        let b2 = modify_level s price change b1 in
        let o2 = IsOrdered-modify_level s price change b1 o1 in
        let gone = BookLevel.is_empty (change level) in
        let b3 = if gone then remove_level s price b2 else b2 in
        let o3 = if-keeps IsOrdered gone _ _ (IsOrdered-remove_level s price b2 o2) o2 in
        or_fail-keeps IsOrdered (get_order id b3) _ b3 _ o3 λ removed. IsOrdered-drop_order id b3 o3

  move_behind_tail-IsOrdered :
      (order : Order U) (node : BookOrder U) (b : OrderBook U)
      → IsOrdered b
      → IsOrdered (move_behind_tail order node b).0
  unfolding move_behind_tail
  move_behind_tail-IsOrdered order node b o =
      let id = order.order_id in
      let price = node.order.price in
      let s = order_side node in
      let b1 = unlink_node node.prev node.next b in
      let o1 = IsOrdered-unlink_node node.prev node.next b o in
      let change : BookLevel U → BookLevel U =
        λ l. if is_id id l.head then set_head node.next l else l in
      or_fail-keeps IsOrdered (get_level s price b1) _ b1 _ o1 λ level.
        let b2 = modify_level s price change b1 in
        let b3 = modify_linked level.tail (set_next (some id)) b2 in
        let b4 = modify_order id (relink_last order level.tail) b3 in
        let o4 = IsOrdered-modify_order id (relink_last order level.tail) b3 (
          IsOrdered-modify_linked level.tail (set_next (some id)) b2
            (IsOrdered-modify_level s price change b1 o1)) in
        or_fail-keeps IsOrdered (get_level s price b4) _ b4 _ o4
          λ _. IsOrdered-modify_level s price _ b4 o4

  pub move_to_back-IsOrdered :
      (order : Order U) (b : OrderBook U) → IsOrdered b → IsOrdered (move_to_back order b).0
  unfolding move_to_back
  move_to_back-IsOrdered order b o =
      let id = order.order_id in
      or_fail-keeps IsOrdered (get_order id b) _ b _ o λ node.
        let price = node.order.price in
        let s = order_side node in
        or_fail-keeps IsOrdered (get_level s price b) _ b _ o λ level.
          let b' = modify_order id (BookOrder.update_order order) b in
          let o' = IsOrdered-modify_order id (BookOrder.update_order order) b o in
          if-keeps Leaves (is_id id level.tail) _ _
            (or_fail-keeps IsOrdered (get_level s price b') _ b' _ o'
              λ _. IsOrdered-modify_level s price _ b' o')
            (move_behind_tail-IsOrdered order node b o)

  pub IsOrdered-new : IsOrdered OrderBook.new
  unfolding OrderBook.new
  IsOrdered-new = record { asks_are = refl; bids_are = refl }
