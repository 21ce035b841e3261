-- ===== src/OrderBook/Move.antt =====
-- `move_to_back`: an order with new data goes behind the others of its level.
use mathlib.Core.Option
use mathlib.Core.List.{append-nil}
use perpl_dex_sdk.Prelude.{
  ◌+◌, ◌≤◌, ◌≡◌, refl, true, false, Option, none, some, List, [], ◌∷◌, ◌++◌, arith, ◌==◌, ==_iff,
  ==_refl, has, last, is_empty, has-append, Bool-cases, inl, inr, ap, sym, ◌∙◌, subst, ok, drop_all,
  Distinct-snoc,
}
use perpl_dex_sdk.Amount.{Amount}
use perpl_dex_sdk.Types.{OrderId, side}
use perpl_dex_sdk.Order.{Order}
use perpl_dex_sdk.BookOrder.{BookOrder, order_side, set_next, set_prev, update_order as update_node}
use perpl_dex_sdk.OrderBook.{OrderBook, get_order, get_level}
use perpl_dex_sdk.OrderBook.Ops.{is_id, relink_last, move_behind_tail, move_to_back}
use perpl_dex_sdk.OrderBook.Queue.{
  Seg-snoc, total, size_at, size_of, alter, alter_linked, unlinked, alter-last, size-set_next,
}
use perpl_dex_sdk.OrderBook.View.{get_level-modify_order, get_level-unlink_node}
use perpl_dex_sdk.OrderBook.Rep.{
  Rep, LevelIs, Queues, nodes, requeue, same_level_refl, Requeued, Rep-requeue,
}
use perpl_dex_sdk.OrderBook.Member.{queue_of, LevelIs-key, member_elsewhere, requeue_self}
use perpl_dex_sdk.OrderBook.Placed.{
  Placed, place, size-unlinked, spared_by_unlink, unlinked_outside, away_rest, rest_has,
}
use perpl_dex_sdk.OrderBook.Update.{updated, Rep-updated, order-updated}
use perpl_dex_sdk.OrderBook.Moved.{
  back_empty, get_level-moved, get_level-book4, moved, moved-Holds, back_nonempty, tail_stays,
  get_order-moved,
}

module _ {U : Type 0} ⦃d : Amount U⦄ where
  module _ {b : OrderBook U} {q : Queues} (rep : Rep b q) (order : Order U) (node : BookOrder U)
      (found : get_order order.order_id b ≡ some node)
      (same_type : side order.type ≡ order_side node)
      (same_price : d.units order.price ≡ d.units node.order.price)
      (small : total (nodes b) (queue_of q node) + d.units order.size
        ≤ d.cap + d.units node.order.size) where
    at : Placed b q order.order_id node
    at = place rep order.order_id node found

    module _ (behind : is_id order.order_id at.level.tail ≡ false) where
      after : OrderBook U
      after = moved order node at.level b

      rest : List OrderId
      rest = at.front ++ at.back

      some_back : is_empty at.back ≡ false
      some_back =
          back_nonempty order.order_id at.front at.back at.level.tail at.holds.tail_is behind

      tail_is : at.level.tail ≡ last (at.front ++ at.back) none
      tail_is =
          tail_stays order.order_id at.front at.back at.level.tail at.out_back at.holds.tail_is
            behind

      rest_after :
          (y : OrderId)
          → (order.order_id == y) ≡ false
          → get_order y after
            ≡ alter_linked
                (last (at.front ++ at.back) none)
                (set_next (some order.order_id))
                (unlinked node.prev node.next (nodes b))
                y
      unfolding after
      rest_after y ne =
          get_order-moved order node at.level b y
          ∙ rw ne (
              ap
                (λ (t : Option OrderId).
                  alter_linked t (set_next (some order.order_id))
                    (unlinked node.prev node.next (nodes b)) y)
                tail_is)

      own_after :
          get_order order.order_id after
          ≡ some (relink_last order (last (at.front ++ at.back) none) node)
      unfolding after
      own_after =
          let next = set_next (some order.order_id) in
          let h = unlinked node.prev node.next (nodes b) in
          get_order-moved order node at.level b order.order_id
          ∙ ap
              (λ (t : Option OrderId).
                alter order.order_id (relink_last order t) (alter_linked t next h) order.order_id)
              tail_is
          ∙ rw (
            ==_refl order.order_id,
            alter-last next h (at.front ++ at.back) order.order_id at.out,
            unlinked_outside at order.order_id at.out,
            found,
          )

      size_after :
          (y : OrderId)
          → has y (at.front ++ at.back) ≡ true
          → size_at (nodes after) y ≡ size_at (nodes b) y
      size_after y m =
          ap size_of (rest_after y (ground (arith, at.out, ==_iff order.order_id y)))
          ∙ size-set_next (last (at.front ++ at.back) none) (some order.order_id)
              (unlinked node.prev node.next (nodes b)) y
          ∙ size-unlinked node.prev node.next (nodes b) y

      level_after :
          LevelIs
            (nodes after)
            ((at.front ++ at.back) ++ order.order_id ∷ [])
            (get_level (order_side node) node.order.price after)
      unfolding after relink_last update_node set_next set_prev
      level_after =
          rw
            (
              get_level-moved order node at.level b (order_side node) node.order.price,
              same_level_refl (order_side node) (d.units node.order.price),
              at.has_level,
            )
            (moved-Holds (nodes b) (nodes after) at.front at.back order.order_id node.next
              node.order.size order.size at.level at.out_front at.next_is some_back size_after
              (ap size_of found) (ap size_of own_after)
              (subst
                (λ xs. total (nodes b) xs + d.units order.size ≤ d.cap + d.units node.order.size)
                at.splits small)
              at.holds)

      Requeued-moved :
          Requeued b q
            (order_side node)
            (d.units node.order.price)
            order.order_id
            ((at.front ++ at.back) ++ order.order_id ∷ [])
            after
      unfolding after relink_last update_node set_next set_prev
      Requeued-moved = record {
        spared = λ y away ne.
            rest_after y ne
            ∙ alter-last (set_next (some order.order_id)) _ (at.front ++ at.back) y
                (away_rest at y away)
            ∙ spared_by_unlink at y away;
        elsewhere =
            member_elsewhere rep (order_side node) (d.units node.order.price) order.order_id
              at.member;
        linked =
            Seg-snoc (unlinked node.prev node.next (nodes b)) (nodes after) (order_side node)
              (d.units node.order.price) (at.front ++ at.back) order.order_id at.distinct_without
              at.linked_without
              (λ y m. rest_after y (ground (arith, at.out, ==_iff order.order_id y)))
              (record {
                node = relink_last order (last (at.front ++ at.back) none) node;
                found = own_after;
                prev_is = refl;
                next_is = refl;
                side_is = same_type;
                key_is = same_price;
                id_is = refl;
              });
        distinct = Distinct-snoc (at.front ++ at.back) order.order_id at.distinct_without at.out;
        level = λ price e. LevelIs-key _ _ _ node.order.price price after e level_after;
        other_levels = λ s' price ne. get_level-moved order node at.level b s' price ∙ rw ne;
        kept = λ y o e t. elim (Bool-cases (order.order_id == y)) [
          | inl same ↦
              rw (has-append y (at.front ++ at.back) (order.order_id ∷ []))
                (ground (arith, same, ==_iff order.order_id y))
          | inr ne ↦ rw (
            has-append y (at.front ++ at.back) (order.order_id ∷ []),
            rest_has at y (ground arith) ne,
          )
        ];
      }

      move_behind_tail_lem : move_behind_tail order node b ≡ (after, ok tt)
      unfolding move_behind_tail after
      move_behind_tail_lem = rw (
        get_level-unlink_node node.prev node.next b (order_side node) node.order.price,
        at.has_level,
        get_level-book4 order node at.level b (order_side node) node.order.price,
        same_level_refl (order_side node) (d.units node.order.price),
        at.has_level,
      )

    -- The queues after a move.
    abbrev back_queues : Queues
    back_queues =
        requeue q (order_side node) (d.units node.order.price)
          (drop_all order.order_id (queue_of q node) ++ order.order_id ∷ [])

    -- An order that is the tail already is updated in place.
    at_tail_queues : is_id order.order_id at.level.tail ≡ true → q ≡ back_queues
    at_tail_queues last_one =
        let empty =
          back_empty order.order_id at.front at.back at.level.tail at.out_back at.holds.tail_is
            last_one in
        sym (requeue_self q (order_side node) (d.units node.order.price))
        ∙ ap (requeue q (order_side node) (d.units node.order.price)) (
            at.splits
            ∙ ap (λ ys. at.front ++ order.order_id ∷ ys) empty
            ∙ sym (
                ap (λ xs. xs ++ order.order_id ∷ [])
                  (at.without ∙ ap (λ ys. at.front ++ ys) empty ∙ append-nil at.front)))

    move_to_back_tail :
        is_id order.order_id at.level.tail ≡ true
        → move_to_back order b ≡ (updated order node b, ok tt)
    unfolding move_to_back updated
    move_to_back_tail last_one = rw (
      found,
      at.has_level,
      last_one,
      get_level-modify_order order.order_id (update_node order) b (order_side node)
          node.order.price,
      at.has_level,
    )

    move_to_back_behind :
        (behind : is_id order.order_id at.level.tail ≡ false)
        → move_to_back order b ≡ (moved order node at.level b, ok tt)
    unfolding move_to_back after
    move_to_back_behind behind = rw (found, at.has_level, behind) (move_behind_tail_lem behind)

    -- On a book that holds the queues `q`, `move_to_back` of a known order, on its side and at its
    -- price, with room for the new size at its level: it succeeds, the order carries the new data
    -- and stands behind all others of its queue, and every other queue stays.
    pub move_to_back-Rep :
        ((move_to_back order b).1 ≡ ok tt)
        × Rep (move_to_back order b).0 (
            requeue q
              (order_side node)
              (d.units node.order.price)
              (drop_all order.order_id (queue_of q node) ++ order.order_id ∷ []))
        × (Option.map
              (λ (o : BookOrder U). o.order)
              (get_order order.order_id (move_to_back order b).0)
            ≡ some order)
    unfolding after relink_last update_node
    move_to_back-Rep = elim (Bool-cases (is_id order.order_id at.level.tail)) [
      | inl last_one ↦ rw (move_to_back_tail last_one) (
        refl,
        subst (Rep (updated order node b)) (at_tail_queues last_one)
            (Rep-updated rep order node found same_type same_price small),
        ap (Option.map (λ o. o.order))
            (order-updated rep order node found same_type same_price small),
      )
      | inr behind ↦
          rw (move_to_back_behind behind, at.without)
            (
              refl,
              Rep-requeue rep (Requeued-moved behind),
              ap (Option.map (λ o. o.order)) (own_after behind),
            )
    ]
