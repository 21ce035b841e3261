-- ===== src/OrderBook/View.antt =====
-- What the primitive writes of the book change: the order read under an identifier, and the level
-- read under a side and a price.
use mathlib.Core.Option
use perpl_dex_sdk.Prelude.{
  ◌≡◌, refl, true, Option, none, some, arith, ◌==◌, if◌then◌else◌, ==_iff, ap, sym, ◌∙◌,
}
use perpl_dex_sdk.Amount.{Amount}
use perpl_dex_sdk.Types.{OrderId, OrderSide, ask, bid}
use perpl_dex_sdk.Table.Laws.{get-insert, get-remove, get-modify, get-key}
use perpl_dex_sdk.BookKeys.{by_id, upwards, downwards}
use perpl_dex_sdk.BookOrder.{BookOrder, set_prev, set_next}
use perpl_dex_sdk.BookLevel
use perpl_dex_sdk.BookLevel.{BookLevel}
use perpl_dex_sdk.OrderBook.{
  OrderBook, get_order, get_level, modify_level, insert_level, get_or_create_level, remove_level,
  modify_order, insert_order, drop_order, modify_linked, unlink_node,
}
use perpl_dex_sdk.OrderBook.Queue.{Nodes, alter, alter_linked, unlinked}
use perpl_dex_sdk.OrderBook.Rep.{same_level, nodes}

module _ {U : Type 0} ⦃d : Amount U⦄ where
  pub get_order-modify_order :
      (id : OrderId) (f : BookOrder U → BookOrder U) (b : OrderBook U) (y : OrderId)
      → get_order y (modify_order id f b) ≡ alter id f (nodes b) y
  unfolding get_order modify_order
  get_order-modify_order id f b y = get-modify by_id y id f b.orders

  pub get_order-modify_linked :
      (o : Option OrderId) (f : BookOrder U → BookOrder U) (b : OrderBook U) (y : OrderId)
      → get_order y (modify_linked o f b) ≡ alter_linked o f (nodes b) y
  unfolding modify_linked
  get_order-modify_linked none f b y = refl
  get_order-modify_linked (some id) f b y = get_order-modify_order id f b y

  pub alter_linked-cong :
      (o : Option OrderId) (f : BookOrder U → BookOrder U) (h g : Nodes U) (y : OrderId)
      → h y ≡ g y
      → alter_linked o f h y ≡ alter_linked o f g y
  alter_linked-cong none f h g y e = e
  alter_linked-cong (some i) f h g y e =
      ap (λ (n : Option (BookOrder U)). if i == y then Option.map f n else n) e

  pub get_order-unlink_node :
      (p n : Option OrderId) (b : OrderBook U) (y : OrderId)
      → get_order y (unlink_node p n b) ≡ unlinked p n (nodes b) y
  unfolding unlink_node
  get_order-unlink_node p n b y =
      get_order-modify_linked n (set_prev p) (modify_linked p (set_next n) b) y
      ∙ alter_linked-cong n (set_prev p) (nodes (modify_linked p (set_next n) b))
          (alter_linked p (set_next n) (nodes b)) y (get_order-modify_linked p (set_next n) b y)

  pub get_order-insert_order :
      (id : OrderId) (node : BookOrder U) (b : OrderBook U) (y : OrderId)
      → get_order y (insert_order id node b) ≡ (if id == y then some node else get_order y b)
  unfolding get_order insert_order
  get_order-insert_order id node b y = get-insert by_id y id node b.orders

  pub get_order-drop_order :
      (id : OrderId) (b : OrderBook U) (y : OrderId)
      → get_order y (drop_order id b) ≡ (if id == y then none else get_order y b)
  unfolding get_order drop_order
  get_order-drop_order id b y = get-remove by_id y id b.orders

  pub get_level-insert_order :
      (id : OrderId) (node : BookOrder U) (b : OrderBook U) (s : OrderSide) (p : U)
      → get_level s p (insert_order id node b) ≡ get_level s p b
  unfolding get_level insert_order
  get_level-insert_order id node b ask p = refl
  get_level-insert_order id node b bid p = refl

  pub get_level-drop_order :
      (id : OrderId) (b : OrderBook U) (s : OrderSide) (p : U)
      → get_level s p (drop_order id b) ≡ get_level s p b
  unfolding get_level drop_order
  get_level-drop_order id b ask p = refl
  get_level-drop_order id b bid p = refl

  pub get_level-modify_order :
      (id : OrderId) (f : BookOrder U → BookOrder U) (b : OrderBook U) (s : OrderSide) (p : U)
      → get_level s p (modify_order id f b) ≡ get_level s p b
  unfolding get_level modify_order
  get_level-modify_order id f b ask p = refl
  get_level-modify_order id f b bid p = refl

  pub get_level-modify_linked :
      (o : Option OrderId) (f : BookOrder U → BookOrder U) (b : OrderBook U) (s : OrderSide) (p : U)
      → get_level s p (modify_linked o f b) ≡ get_level s p b
  unfolding modify_linked
  get_level-modify_linked none f b s p = refl
  get_level-modify_linked (some id) f b s p = get_level-modify_order id f b s p

  pub get_level-unlink_node :
      (i n : Option OrderId) (b : OrderBook U) (s : OrderSide) (p : U)
      → get_level s p (unlink_node i n b) ≡ get_level s p b
  unfolding unlink_node
  get_level-unlink_node i n b s p = ground (
    arith,
    get_level-modify_linked n (set_prev i) (modify_linked i (set_next n) b) s p,
    get_level-modify_linked i (set_next n) b s p,
  )

  pub get_order-modify_level :
      (s : OrderSide) (p : U) (f : BookLevel U → BookLevel U) (b : OrderBook U) (y : OrderId)
      → get_order y (modify_level s p f b) ≡ get_order y b
  unfolding get_order modify_level
  get_order-modify_level ask p f b y = refl
  get_order-modify_level bid p f b y = refl

  pub get_order-remove_level :
      (s : OrderSide) (p : U) (b : OrderBook U) (y : OrderId)
      → get_order y (remove_level s p b) ≡ get_order y b
  unfolding get_order remove_level
  get_order-remove_level ask p b y = refl
  get_order-remove_level bid p b y = refl

  pub get_level-modify_level :
      (s : OrderSide) (p : U) (f : BookLevel U → BookLevel U) (b : OrderBook U) (s' : OrderSide)
      (p' : U)
      → get_level s' p' (modify_level s p f b) ≡ (
          if same_level s (d.units p) s' (d.units p')
          then Option.map f (get_level s' p' b)
          else get_level s' p' b)
  unfolding get_level modify_level
  get_level-modify_level ask p f b ask p' = get-modify upwards p' p f b.asks
  get_level-modify_level bid p f b bid p' = get-modify downwards p' p f b.bids
  get_level-modify_level ask p f b bid p' = refl
  get_level-modify_level bid p f b ask p' = refl

  pub get_level-remove_level :
      (s : OrderSide) (p : U) (b : OrderBook U) (s' : OrderSide) (p' : U)
      → get_level s' p' (remove_level s p b)
        ≡ (if same_level s (d.units p) s' (d.units p') then none else get_level s' p' b)
  unfolding get_level remove_level
  get_level-remove_level ask p b ask p' = get-remove upwards p' p b.asks
  get_level-remove_level bid p b bid p' = get-remove downwards p' p b.bids
  get_level-remove_level ask p b bid p' = refl
  get_level-remove_level bid p b ask p' = refl

  pub get_level-key :
      (s : OrderSide) (p p' : U) (b : OrderBook U)
      → d.units p ≡ d.units p'
      → get_level s p b ≡ get_level s p' b
  unfolding get_level
  get_level-key ask p p' b e = get-key upwards p p' b.asks e
  get_level-key bid p p' b e = get-key downwards p p' b.bids e

  pub get_level-same :
      (s : OrderSide) (p : U) (s' : OrderSide) (p' : U) (b : OrderBook U)
      → same_level s (d.units p) s' (d.units p') ≡ true
      → get_level s' p' b ≡ get_level s p b
  get_level-same ask p ask p' b e =
      get_level-key ask p' p b (sym ((==_iff (d.units p) (d.units p')).0 e))
  get_level-same bid p bid p' b e =
      get_level-key bid p' p b (sym ((==_iff (d.units p) (d.units p')).0 e))
  get_level-same ask p bid p' b e = absurd (cc)
  get_level-same bid p ask p' b e = absurd (cc)

  pub get_level-insert_level :
      (s : OrderSide) (p : U) (l : BookLevel U) (b : OrderBook U) (s' : OrderSide) (p' : U)
      → get_level s' p' (insert_level s p l b)
        ≡ (if same_level s (d.units p) s' (d.units p') then some l else get_level s' p' b)
  unfolding get_level insert_level
  get_level-insert_level ask p l b ask p' = get-insert upwards p' p l b.asks
  get_level-insert_level bid p l b bid p' = get-insert downwards p' p l b.bids
  get_level-insert_level ask p l b bid p' = refl
  get_level-insert_level bid p l b ask p' = refl

  get_order-insert_level :
      (s : OrderSide) (p : U) (l : BookLevel U) (b : OrderBook U) (y : OrderId)
      → get_order y (insert_level s p l b) ≡ get_order y b
  unfolding get_order insert_level
  get_order-insert_level ask p l b y = refl
  get_order-insert_level bid p l b y = refl

  -- `entry(..).or_default()` as an option of the level that was there.
  abbrev pub level_or_new : Option (BookLevel U) → BookLevel U
  level_or_new none = BookLevel.new
  level_or_new (some l) = l

  pub get_or_create_level-level :
      (s : OrderSide) (p : U) (b : OrderBook U)
      → (get_or_create_level s p b).0 ≡ level_or_new (get_level s p b)
  unfolding get_or_create_level
  get_or_create_level-level s p b = ground arith

  pub get_order-get_or_create_level :
      (s : OrderSide) (p : U) (b : OrderBook U) (y : OrderId)
      → get_order y (get_or_create_level s p b).1 ≡ get_order y b
  unfolding get_or_create_level
  get_order-get_or_create_level s p b y =
      ground (arith, get_order-insert_level s p BookLevel.new b y)

  pub get_level-get_or_create_level :
      (s : OrderSide) (p : U) (b : OrderBook U) (s' : OrderSide) (p' : U)
      → get_level s' p' (get_or_create_level s p b).1 ≡ (
          if same_level s (d.units p) s' (d.units p')
          then some (level_or_new (get_level s p b))
          else get_level s' p' b)
  unfolding get_or_create_level
  get_level-get_or_create_level s p b s' p' =
      ground (arith, get_level-insert_level s p BookLevel.new b s' p', get_level-same s p s' p' b)
