-- ===== src/OrderBook/Rep.antt =====
-- The abstract book: a queue of order identifiers for each side and price key. `Rep b q` says that
-- the book `b` holds the queues `q`: links, levels, cached totals and the order map agree.
use perpl_dex_sdk.Prelude.{
  ℕ, ◌%◌, ◌^◌, ◌≡◌, refl, Bool, true, false, ◌&&◌, ◌||◌, Option, none, some, List, [], arith, ◌==◌,
  ==_iff, ==_refl, if◌then◌else◌, has, Distinct, first, last, length, is_empty, Bool-cases,
  some_inj, inl, inr, ap, sym, ◌∙◌, subst,
}
use perpl_dex_sdk.Amount.{Amount}
use perpl_dex_sdk.Types.{OrderId, OrderSide, ask, bid}
use perpl_dex_sdk.BookOrder.{BookOrder, order_side}
use perpl_dex_sdk.BookLevel.{BookLevel}
use perpl_dex_sdk.Table
use perpl_dex_sdk.OrderBook
use perpl_dex_sdk.OrderBook.{OrderBook, get_order, get_level}
use perpl_dex_sdk.OrderBook.Queue.{
  Nodes, Seg, total, total_frame, Seg-frame, Seg-member, size_at, size_of,
}

abbrev pub same_side : OrderSide → OrderSide → Bool
same_side ask ask = true
same_side bid bid = true
same_side ask bid = false
same_side bid ask = false

abbrev pub same_level : OrderSide → ℕ → OrderSide → ℕ → Bool
same_level s k s' k' = same_side s s' && (k == k')

pub same_level_eq :
    (s : OrderSide) (k : ℕ) (s' : OrderSide) (k' : ℕ)
    → same_level s k s' k' ≡ true
    → (s ≡ s') × (k ≡ k')
same_level_eq ask k ask k' h = (refl, (==_iff k k').0 h)
same_level_eq bid k bid k' h = (refl, (==_iff k k').0 h)
same_level_eq ask k bid k' h = absurd (cc)
same_level_eq bid k ask k' h = absurd (cc)

pub same_level_refl : (s : OrderSide) (k : ℕ) → same_level s k s k ≡ true
same_level_refl ask k = ==_refl k
same_level_refl bid k = ==_refl k

pub same_level_of :
    (s : OrderSide) (k : ℕ) (s' : OrderSide) (k' : ℕ)
    → s ≡ s'
    → k ≡ k'
    → same_level s k s' k' ≡ true
same_level_of s k s' k' p e =
    subst (λ t. same_level s k t k' ≡ true) p
      (subst (λ j. same_level s k s j ≡ true) e (same_level_refl s k))

-- What holds at a level holds at the same level.
pub at_level {ℓ} :
    (P : OrderSide → ℕ → Type ℓ) (s : OrderSide) (k : ℕ) (s' : OrderSide) (k' : ℕ)
    → same_level s k s' k' ≡ true
    → P s k
    → P s' k'
at_level P s k s' k' e h =
    let eqs = same_level_eq s k s' k' e in subst (λ t. P t k') eqs.0 (subst (P s) eqs.1 h)

abbrev pub Queues : Type 0
Queues = OrderSide → ℕ → List OrderId

-- The queues with one of them replaced.
abbrev pub requeue : Queues → OrderSide → ℕ → List OrderId → Queues
requeue q s k xs s' k' = if same_level s k s' k' then xs else q s' k'

module _ {U : Type 0} ⦃d : Amount U⦄ where
  abbrev pub nodes : OrderBook U → Nodes U
  nodes b y = get_order y b

  pub record Holds (h : Nodes U) (xs : List OrderId) (l : BookLevel U) : Type 0 where
    pub head_is : l.head ≡ first xs none
    pub tail_is : l.tail ≡ last xs none
    pub size_is : d.units l.cached_size ≡ total h xs
    pub count_is : l.cached_count ≡ length xs % 2 ^ 32
    pub nonempty : is_empty xs ≡ false

  abbrev pub LevelIs : Nodes U → List OrderId → Option (BookLevel U) → Type 0
  LevelIs h xs none = xs ≡ []
  LevelIs h xs (some l) = Holds h xs l

  pub record Rep (b : OrderBook U) (q : Queues) : Type 0 where
    pub linked : (s : OrderSide) (k : ℕ) → Seg (nodes b) s k none (q s k) none
    pub distinct : (s : OrderSide) (k : ℕ) → Distinct (q s k)
    pub levels :
        (s : OrderSide) (price : U) → LevelIs (nodes b) (q s (d.units price)) (get_level s price b)
    pub queued :
        (y : OrderId) (o : BookOrder U)
        → nodes b y ≡ some o
        → has y (q (order_side o) (d.units o.order.price)) ≡ true

  pub LevelIs-frame :
      (h g : Nodes U) (xs : List OrderId) (l : Option (BookLevel U))
      → ((y : OrderId) → has y xs ≡ true → size_at g y ≡ size_at h y)
      → LevelIs h xs l
      → LevelIs g xs l
  LevelIs-frame h g xs none same a = a
  LevelIs-frame h g xs (some l) same a = record {
    head_is = a.head_is;
    tail_is = a.tail_is;
    size_is = a.size_is ∙ sym (total_frame h g xs same);
    count_is = a.count_is;
    nonempty = a.nonempty;
  }

  -- Two levels share no order.
  pub Seg-apart :
      (h : Nodes U) (s s' : OrderSide) (k k' : ℕ) (xs ys : List OrderId) (y : OrderId)
      → Seg h s k none xs none
      → Seg h s' k' none ys none
      → same_level s k s' k' ≡ false
      → has y ys ≡ true
      → has y xs ≡ false
  Seg-apart h s s' k k' xs ys y a b ne m = elim (Bool-cases (has y xs)) [
    | inr out ↦ out
    | inl m' ↦
        let u = Seg-member h s k none xs none y a m' in
        let v = Seg-member h s' k' none ys none y b m in
        let e : u.0 ≡ v.0 = some_inj (sym u.1 ∙ v.1) in
        let t =
          same_level_of s k s' k' (sym u.2 ∙ ap order_side e ∙ v.2)
            (sym u.3 ∙ ap (λ (o : BookOrder U). d.units o.order.price) e ∙ v.3) in
        absurd (cc (t, ne))
  ]

  -- What an operation on the level `s`, `k` and the order `id` may do.
  pub record Requeued (b : OrderBook U) (q : Queues) (s : OrderSide) (k : ℕ) (id : OrderId)
      (xs : List OrderId) (c : OrderBook U) : Type 0 where
    pub spared : (y : OrderId) → has y (q s k) ≡ false → (id == y) ≡ false → nodes c y ≡ nodes b y
    pub elsewhere :
        (s' : OrderSide) (k' : ℕ) → same_level s k s' k' ≡ false → has id (q s' k') ≡ false
    pub linked : Seg (nodes c) s k none xs none
    pub distinct : Distinct xs
    pub level : (price : U) → d.units price ≡ k → LevelIs (nodes c) xs (get_level s price c)
    pub other_levels :
        (s' : OrderSide) (price : U)
        → same_level s k s' (d.units price) ≡ false
        → get_level s' price c ≡ get_level s' price b
    pub kept :
        (y : OrderId) (o : BookOrder U)
        → nodes c y ≡ some o
        → (has y (q s k) || (id == y)) ≡ true
        → has y xs ≡ true

  module _ {b : OrderBook U} {q : Queues} {s : OrderSide} {k : ℕ} {id : OrderId} {xs : List OrderId}
      {c : OrderBook U} (rep : Rep b q) (op : Requeued b q s k id xs c) where
    same_elsewhere :
        (s' : OrderSide) (k' : ℕ) (y : OrderId)
        → same_level s k s' k' ≡ false
        → has y (q s' k') ≡ true
        → nodes c y ≡ nodes b y
    same_elsewhere s' k' y ne m =
        op.spared y
          (Seg-apart (nodes b) s s' k k' (q s k) (q s' k') y (rep.linked s k) (rep.linked s' k') ne
            m)
          (ground (arith, op.elsewhere s' k' ne))

    -- The orders of the other levels keep their sizes.
    pub total-elsewhere :
        (s' : OrderSide) (k' : ℕ)
        → same_level s k s' k' ≡ false
        → total (nodes c) (q s' k') ≡ total (nodes b) (q s' k')
    total-elsewhere s' k' ne =
        total_frame (nodes b) (nodes c) (q s' k') (λ y m. ap size_of (same_elsewhere s' k' y ne m))

    requeue-linked :
        (s' : OrderSide) (k' : ℕ) → Seg (nodes c) s' k' none (requeue q s k xs s' k') none
    requeue-linked s' k' = elim (Bool-cases (same_level s k s' k')) [
      | inl e ↦ rw e (at_level (λ t j. Seg (nodes c) t j none xs none) s k s' k' e op.linked)
      | inr e ↦ rw e (
          Seg-frame (nodes b) (nodes c) s' k' none (q s' k') none
            (λ y m. same_elsewhere s' k' y e m) (rep.linked s' k'))
    ]

    requeue-levels :
        (s' : OrderSide) (price : U)
        → LevelIs (nodes c) (requeue q s k xs s' (d.units price)) (get_level s' price c)
    requeue-levels s' price = elim (Bool-cases (same_level s k s' (d.units price))) [
      | inl e ↦ rw e (
          at_level (λ t j. d.units price ≡ j → LevelIs (nodes c) xs (get_level t price c)) s k s'
            (d.units price) e (op.level price) refl)
      | inr e ↦ rw e (
          subst (LevelIs (nodes c) (q s' (d.units price))) (sym (op.other_levels s' price e)) (
            LevelIs-frame (nodes b) (nodes c) (q s' (d.units price)) (get_level s' price b)
              (λ y m. ap size_of (same_elsewhere s' (d.units price) y e m)) (rep.levels s' price)))
    ]

    requeue-queued :
        (y : OrderId) (o : BookOrder U)
        → nodes c y ≡ some o
        → has y (requeue q s k xs (order_side o) (d.units o.order.price)) ≡ true
    requeue-queued y o e = elim (Bool-cases (has y (q s k) || (id == y))) [
      | inl t ↦
          let m = op.kept y o e t in
          let u = Seg-member (nodes c) s k none xs none y op.linked m in
          let same : u.0 ≡ o = some_inj (sym u.1 ∙ e) in
          rw
            (same_level_of s k (order_side o) (d.units o.order.price) (sym u.2 ∙ ap order_side same)
              (sym u.3 ∙ ap (λ (o : BookOrder U). d.units o.order.price) same))
            m
      | inr t ↦
          let old = op.spared y (ground arith) (ground arith) in
          let m = rep.queued y o (sym old ∙ e) in
          elim (Bool-cases (same_level s k (order_side o) (d.units o.order.price))) [
            | inr f ↦ rw f m
            | inl f ↦
                let eqs = same_level_eq s k (order_side o) (d.units o.order.price) f in
                let here : has y (q s k) ≡ true =
                  subst (λ t. has y (q t k) ≡ true) (sym eqs.0)
                    (subst (λ j. has y (q (order_side o) j) ≡ true) (sym eqs.1) m) in
                absurd (ground arith)
          ]
    ]

    -- The book after the operation holds the queues with that one replaced.
    pub Rep-requeue : Rep c (requeue q s k xs)
    Rep-requeue = record {
      linked = requeue-linked;
      distinct = λ s' k'. ground (arith, op.distinct, rep.distinct s' k');
      levels = requeue-levels;
      queued = requeue-queued;
    }

  pub level_of_new : (s : OrderSide) (price : U) → get_level s price OrderBook.new ≡ none
  unfolding OrderBook.new get_level Table.get
  level_of_new ask price = refl
  level_of_new bid price = refl

  -- The new book holds no order.
  pub Rep-new : Rep OrderBook.new (λ s k. [])
  unfolding OrderBook.new get_order Table.get
  Rep-new = record {
    linked = λ s k. tt;
    distinct = λ s k. tt;
    levels = λ s price. rw (level_of_new s price);
    queued = λ y o e. absurd (cc e);
  }
