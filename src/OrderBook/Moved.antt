-- ===== src/OrderBook/Moved.antt =====
-- The book that `move_to_back` leaves of an order that is not the last of its level, and what it holds.
use mathlib.Core.Option
use perpl_dex_sdk.Prelude.{
  ◌+◌, ◌≤◌, ◌≡◌, refl, true, false, Option, none, some, List, [], ◌∷◌, ◌++◌, arith, ◌==◌, ==_refl,
  if◌then◌else◌, has, first, last, last-append, first-snoc, is_empty-snoc, length-append, is_empty,
  ap, sym, ◌∙◌,
}
use perpl_dex_sdk.Amount.{Amount}
use perpl_dex_sdk.Types.{OrderId, OrderSide}
use perpl_dex_sdk.Order.{Order}
use perpl_dex_sdk.BookOrder.{BookOrder, order_side, set_next}
use perpl_dex_sdk.BookLevel.{BookLevel, update_size, set_tail, set_head}
use perpl_dex_sdk.OrderBook.{
  OrderBook, get_order, get_level, modify_level, unlink_node, modify_order, modify_linked,
}
use perpl_dex_sdk.OrderBook.Ops.{is_id, relink_last}
use perpl_dex_sdk.OrderBook.Queue.{
  Nodes, total, total-append, total_frame, size_at, alter, alter_linked, unlinked,
}
use perpl_dex_sdk.OrderBook.View.{
  get_order-modify_level, get_order-modify_order, get_order-modify_linked, get_order-unlink_node,
  get_level-modify_level, get_level-modify_order, get_level-modify_linked, get_level-unlink_node,
  alter_linked-cong,
}
use perpl_dex_sdk.OrderBook.Rep.{Holds, nodes, same_level}
use perpl_dex_sdk.OrderBook.Remove.{first_without, last_without, is_id-last}

-- The tail of a queue is another order than the given member.
pub back_nonempty :
    (id : OrderId) (xs ys : List OrderId) (t : Option OrderId)
    → t ≡ last (xs ++ id ∷ ys) none
    → is_id id t ≡ false
    → is_empty ys ≡ false
back_nonempty id xs [] t e ne = absurd (cc (e ∙ last-append xs (id ∷ []) none, ne, ==_refl id))
back_nonempty id xs (y ∷ ys) t e ne = refl

pub back_empty :
    (id : OrderId) (xs ys : List OrderId) (t : Option OrderId)
    → has id ys ≡ false
    → t ≡ last (xs ++ id ∷ ys) none
    → is_id id t ≡ true
    → ys ≡ []
back_empty id xs [] t out e same = refl
back_empty id xs (y ∷ ys) t out e same =
    absurd (cc (e ∙ last-append xs (id ∷ y ∷ ys) none, same, is_id-last id (y ∷ ys) out))

pub tail_stays :
    (id : OrderId) (xs ys : List OrderId) (t : Option OrderId)
    → has id ys ≡ false
    → t ≡ last (xs ++ id ∷ ys) none
    → is_id id t ≡ false
    → t ≡ last (xs ++ ys) none
tail_stays id xs ys t out e ne = e ∙ sym (rw (rw e at ne)) ∙ last_without id xs ys out

module _ {U : Type 0} ⦃d : Amount U⦄ where
  module _ (order : Order U) (node : BookOrder U) (level : BookLevel U) (b : OrderBook U) where
    abbrev drop_head : BookLevel U → BookLevel U
    drop_head l = if is_id order.order_id l.head then set_head node.next l else l

    abbrev close_level : BookLevel U → BookLevel U
    close_level l = update_size node.order.size order.size (set_tail (some order.order_id) l)

    abbrev book1 : OrderBook U
    book1 = unlink_node node.prev node.next b

    abbrev book2 : OrderBook U
    book2 = modify_level (order_side node) node.order.price drop_head book1

    abbrev book3 : OrderBook U
    book3 = modify_linked level.tail (set_next (some order.order_id)) book2

    abbrev book4 : OrderBook U
    book4 = modify_order order.order_id (relink_last order level.tail) book3

    -- The book that a move of an order that is not the tail leaves.
    abbrev pub moved : OrderBook U
    moved = modify_level (order_side node) node.order.price close_level book4

    pub get_order-moved :
        (y : OrderId)
        → get_order y moved
          ≡ alter order.order_id
              (relink_last order level.tail)
              (alter_linked level.tail
                (set_next (some order.order_id))
                (unlinked node.prev node.next (nodes b)))
              y
    get_order-moved y =
        let relink = relink_last order level.tail in
        let next = set_next (some order.order_id) in
        get_order-modify_level (order_side node) node.order.price close_level book4 y
        ∙ get_order-modify_order order.order_id relink book3 y
        ∙ ap (λ (o : Option (BookOrder U)). if order.order_id == y then Option.map relink o else o)
            (get_order-modify_linked level.tail next book2 y
              ∙ alter_linked-cong level.tail next (nodes book2)
                  (unlinked node.prev node.next (nodes b)) y
                  (get_order-modify_level (order_side node) node.order.price drop_head book1 y
                    ∙ get_order-unlink_node node.prev node.next b y))

    pub get_level-book4 :
        (s : OrderSide) (p : U)
        → get_level s p book4 ≡ (
            if same_level (order_side node) (d.units node.order.price) s (d.units p)
            then Option.map drop_head (get_level s p b)
            else get_level s p b)
    get_level-book4 s p = ground (
      arith,
      get_level-modify_order order.order_id (relink_last order level.tail) book3 s p,
      get_level-modify_linked level.tail (set_next (some order.order_id)) book2 s p,
      get_level-modify_level (order_side node) node.order.price drop_head book1 s p,
      get_level-unlink_node node.prev node.next b s p,
    )

    pub get_level-moved :
        (s : OrderSide) (p : U)
        → get_level s p moved ≡ (
            if same_level (order_side node) (d.units node.order.price) s (d.units p)
            then Option.map (λ l. close_level (drop_head l)) (get_level s p b)
            else get_level s p b)
    get_level-moved s p = ground (
      arith,
      get_level-modify_level (order_side node) node.order.price close_level book4 s p,
      get_level-book4 s p,
    )

  drop_head_fields :
      (id : OrderId) (n : Option OrderId) (l : BookLevel U)
      → let l' = if is_id id l.head then set_head n l else l in
        (l'.head ≡ (if is_id id l.head then n else l.head))
        × (l'.tail ≡ l.tail)
        × (l'.cached_size ≡ l.cached_size)
        × (l'.cached_count ≡ l.cached_count)
  unfolding set_head
  drop_head_fields id n l = ground arith

  -- The level after the move.
  pub moved-Holds :
      (h g : Nodes U) (xs ys : List OrderId) (id : OrderId) (n : Option OrderId) (old new : U)
      (l : BookLevel U)
      → has id xs ≡ false
      → n ≡ first ys none
      → is_empty ys ≡ false
      → ((y : OrderId) → has y (xs ++ ys) ≡ true → size_at g y ≡ size_at h y)
      → size_at h id ≡ d.units old
      → size_at g id ≡ d.units new
      → total h (xs ++ id ∷ ys) + d.units new ≤ d.cap + d.units old
      → Holds h (xs ++ id ∷ ys) l
      → Holds g
          ((xs ++ ys) ++ id ∷ [])
          (update_size old new (set_tail (some id) (if is_id id l.head then set_head n l else l)))
  unfolding update_size set_tail
  moved-Holds h g xs ys id n old new l out en some_ys same old_is new_is small a =
      let fields = drop_head_fields id n l in
      let before = total-append h xs (id ∷ ys) in
      let size_is : d.units l.cached_size ≡ total h xs + (d.units old + total h ys) =
        omega (arith, a.size_is, before, old_is) in
      let less = d.units_sub l.cached_size old (omega (arith, size_is)) in
      record {
        head_is =
            fields.0
            ∙ rw (a.head_is, en) (first_without id xs ys out)
            ∙ sym (first-snoc xs ys (id ∷ []) some_ys);
        tail_is = sym (last-append (xs ++ ys) (id ∷ []) none);
        size_is =
            ap (λ s. d.units (d.add (d.sub s old) new)) fields.2
            ∙ omega (
              arith,
              size_is,
              before,
              old_is,
              new_is,
              less,
              total-append h xs ys,
              total-append g (xs ++ ys) (id ∷ []),
              total_frame h g (xs ++ ys) same,
              d.units_add (d.sub l.cached_size old) new
                  (omega (arith, size_is, less, before, old_is)),
            );
        count_is =
            fields.3
            ∙ omega (
              arith,
              a.count_is,
              length-append xs (id ∷ ys),
              length-append (xs ++ ys) (id ∷ []),
              length-append xs ys,
            );
        nonempty = is_empty-snoc (xs ++ ys) id;
      }
