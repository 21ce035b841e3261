-- ===== src/OrderBook/Failures.antt =====
-- The error paths of the operations on a book.
use perpl_dex_sdk.Prelude.{
  ◌≡◌, refl, Bool, true, false, Option, none, some, if◌then◌else◌, Option-cases, inl, inr, ap, sym,
  ◌∙◌, subst, Result, ok, err, or_fail,
}
use perpl_dex_sdk.Amount.{Amount}
use perpl_dex_sdk.Types.{OrderId}
use perpl_dex_sdk.Order.{Order}
use perpl_dex_sdk.BookError.{OrderBookError}
use perpl_dex_sdk.BookOrder
use perpl_dex_sdk.BookOrder.{BookOrder, order_side, set_next}
use perpl_dex_sdk.BookLevel.{BookLevel, set_head}
use perpl_dex_sdk.OrderBook.{
  OrderBook, get_order, get_level, modify_level, modify_order, modify_linked, unlink_node,
}
use perpl_dex_sdk.OrderBook.Ops.{
  is_id, relink_last, add_order, update_order, remove_order_by_id, move_behind_tail, move_to_back,
}
use perpl_dex_sdk.OrderBook.Rep.{Rep, Queues, same_level_refl}
use perpl_dex_sdk.OrderBook.Placed.{place}
use perpl_dex_sdk.OrderBook.Ordered.{if-keeps}
use perpl_dex_sdk.OrderBook.Remove.{remove_order_by_id-Rep}
use perpl_dex_sdk.OrderBook.View.{
  get_level-modify_order, get_level-unlink_node, get_level-modify_level, get_level-modify_linked,
}

abbrev pub failed {ℓ κ} : {E : Type ℓ} {A : Type κ} → Result E A → Bool
failed (ok a) = false
failed (err e) = true

-- A call of the book's operations.
pub data Call (U : Type 0) : Type 0 where
  adds : Order U → Call U
  updates : Order U → Call U
  removes : OrderId → Call U
  moves : Order U → Call U

-- A lookup that finds something goes on.
or_fail_found {ℓ κ μ ν} :
    {E : Type ℓ} {A : Type κ} {B : Type μ} {S : Type ν} (o : Option A) (a : A) (e : E) (s : S)
    (k : A → S × Result E B)
    → o ≡ some a
    → or_fail o e s k ≡ k a
or_fail_found o a e s k h = ap (λ o. or_fail o e s k) h

module _ {U : Type 0} ⦃d : Amount U⦄ where
  -- A call with its result: whether it failed, and the book that it left.
  abbrev pub run : Call U → OrderBook U → OrderBook U × Bool
  run (adds order) b = let (b', r) = add_order order b in (b', failed r)
  run (updates order) b = let (b', r) = update_order order b in (b', failed r)
  run (removes id) b = let (b', r) = remove_order_by_id id b in (b', failed r)
  run (moves order) b = let (b', r) = move_to_back order b in (b', failed r)

  -- A failing call leaves `b`.
  abbrev Restores {ℓ} :
      {A : Type ℓ} → OrderBook U → OrderBook U × Result (OrderBookError U) A → Type 0
  Restores b out = failed out.1 ≡ true → out.0 ≡ b

  or_fail-Restores :
      {A B : Type 0} (b : OrderBook U) (o : Option A) (e : OrderBookError U)
      (k : A → OrderBook U × Result (OrderBookError U) B)
      → ((a : A) → o ≡ some a → Restores b (k a))
      → Restores b (or_fail o e b k)
  or_fail-Restores b none e k h f = refl
  or_fail-Restores b (some a) e k h f = h a refl f

  -- Where the lookup is known to find something.
  found-Restores :
      {A B : Type 0} (b s : OrderBook U) (o : Option A) (a : A) (e : OrderBookError U)
      (k : A → OrderBook U × Result (OrderBookError U) B)
      → o ≡ some a
      → Restores b (k a)
      → Restores b (or_fail o e s k)
  found-Restores b s o a e k h r = subst (Restores b) (sym (or_fail_found o a e s k h)) r

  add_order-Restores : (order : Order U) (b : OrderBook U) → Restores b (add_order order b)
  unfolding add_order
  add_order-Restores order b =
      if-keeps (Restores b) (d.eq order.size d.zero) _ _ (λ _. refl)
        (if-keeps (Restores b) (d.eq order.price d.zero) _ _ (λ _. refl)
          (elim (Option-cases (get_order order.order_id b)) [
            | inl e ↦ rw e (λ h. absurd (cc h))
            | inr (node, e) ↦ rw e (λ _. refl)
          ]))

  module _ {b : OrderBook U} {q : Queues} (rep : Rep b q) where
    update_order-Restores : (order : Order U) → Restores b (update_order order b)
    unfolding update_order
    update_order-Restores order =
        if-keeps (Restores b) (d.eq order.size d.zero) _ _ (λ _. refl)
          (or_fail-Restores b (get_order order.order_id b) _ _ λ node found.
            let at = place rep order.order_id node found in
            found-Restores b _ _ at.level _ _
              (get_level-modify_order order.order_id (BookOrder.update_order order) b
                  (order_side node) node.order.price
                ∙ at.has_level)
              (λ h. absurd (cc h)))

    unknown : (id : OrderId) → get_order id b ≡ none → (remove_order_by_id id b).0 ≡ b
    unfolding remove_order_by_id
    unknown id e = rw e

    remove_order_by_id-Restores : (id : OrderId) → Restores b (remove_order_by_id id b)
    remove_order_by_id-Restores id h = elim (Option-cases (get_order id b)) [
      | inl e ↦ unknown id e
      | inr (node, e) ↦
          let succeeds = ap failed (remove_order_by_id-Rep rep id node e).0 in
          absurd (cc (succeeds, h))
    ]

    move_behind_tail-Restores :
        (order : Order U) (node : BookOrder U) (level : BookLevel U)
        → get_level (order_side node) node.order.price b ≡ some level
        → Restores b (move_behind_tail order node b)
    unfolding move_behind_tail
    move_behind_tail-Restores order node level has =
        let id = order.order_id in
        let price = node.order.price in
        let s = order_side node in
        let b1 = unlink_node node.prev node.next b in
        let change : BookLevel U → BookLevel U =
          λ l. if is_id id l.head then set_head node.next l else l in
        let b2 = modify_level s price change b1 in
        let b3 = modify_linked level.tail (set_next (some id)) b2 in
        let has1 = get_level-unlink_node node.prev node.next b s price ∙ has in
        let has4 : get_level s price (modify_order id (relink_last order level.tail) b3)
            ≡ some (change level) =
          get_level-modify_order id (relink_last order level.tail) b3 s price
          ∙ get_level-modify_linked level.tail (set_next (some id)) b2 s price
          ∙ get_level-modify_level s price change b1 s price
          ∙ rw (same_level_refl s (d.units price), has1) in
        found-Restores b b1 (get_level s price b1) level _ _ has1
          (found-Restores b _ _ (change level) _ _ has4 (λ h. absurd (cc h)))

    move_to_back-Restores : (order : Order U) → Restores b (move_to_back order b)
    unfolding move_to_back
    move_to_back-Restores order = or_fail-Restores b (get_order order.order_id b) _ _ λ node found.
        let at = place rep order.order_id node found in
        found-Restores b _ _ at.level _ _ at.has_level (
          if-keeps (Restores b) (is_id order.order_id at.level.tail) _ _
            (found-Restores b _ _ at.level _ _
              (get_level-modify_order order.order_id (BookOrder.update_order order) b
                  (order_side node) node.order.price
                ∙ at.has_level)
              (λ h. absurd (cc h)))
            (move_behind_tail-Restores order node at.level at.has_level))

    -- On a book that holds queues, a call of `add_order`, `update_order`, `remove_order_by_id` or
    -- `move_to_back` that fails leaves the book as it was.
    pub run-failed : (c : Call U) → (run c b).1 ≡ true → (run c b).0 ≡ b
    run-failed (adds order) h = add_order-Restores order b h
    run-failed (updates order) h = update_order-Restores order h
    run-failed (removes id) h = remove_order_by_id-Restores id h
    run-failed (moves order) h = move_to_back-Restores order h
