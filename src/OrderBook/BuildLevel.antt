-- ===== src/OrderBook/BuildLevel.antt =====
-- The level that `add_orders_from_snapshot` of src/state/l3_book/mod.rs builds from orders whose links
-- form a queue: its ends are those of the queue, and its totals the sums.
use perpl_dex_sdk.Prelude.{
  ℕ, ◌+◌, ◌%◌, ◌^◌, ◌≤◌, ◌≡◌, refl, Bool, true, false, not, none, some, map_or, is_some, List, [],
  ◌∷◌, ◌++◌, has, has-append, Distinct, Distinct-split, Distinct-without, split, first, last,
  last-has, first-has, last-append, length, length-append, arith, ◌==◌, ==_iff, ==_refl, is_empty,
  Bool-cases, Option-cases, some_inj, inl, inr, ap, sym, ◌∙◌, subst,
}
use perpl_dex_sdk.Amount.{Amount}
use perpl_dex_sdk.Types.{OrderId, OrderSide}
use perpl_dex_sdk.Table
use perpl_dex_sdk.Table.{Table}
use perpl_dex_sdk.BookKeys.{by_id}
use perpl_dex_sdk.BookOrder.{BookOrder}
use perpl_dex_sdk.BookLevel
use perpl_dex_sdk.BookLevel.{BookLevel, set_head, set_tail, add_size}
use perpl_dex_sdk.OrderBook.Queue.{Nodes, Seg, Seg-Node, total, total-append, size_of}
use perpl_dex_sdk.OrderBook.Rep.{Holds}
use perpl_dex_sdk.OrderBook.Snapshot.{find_id, is_end, add_sizes, build_level}

abbrev pub SameIds : List ℕ → List ℕ → Type 0
SameIds xs ys = (y : ℕ) → has y xs ≡ has y ys

find_id-only :
    (test : OrderId → Bool) (ids : List OrderId) (z : OrderId)
    → has z ids ≡ true
    → ((y : OrderId) → has y ids ≡ true → test y ≡ (z == y))
    → find_id test ids ≡ some z
unfolding find_id
find_id-only test [] z h only = absurd (cc h)
find_id-only test (i ∷ ids) z h only = elim (Bool-cases (z == i)) [
  | inl e ↦ rw (only i (ground (arith, ==_refl i)), e) (ap some (sym ((==_iff z i).0 e)))
  | inr e ↦
      rw (only i (ground (arith, ==_refl i)), e)
        (find_id-only test ids z (ground arith) (λ y m. only y (ground arith)))
]

SameIds-without :
    (x : ℕ) (xs before after : List ℕ)
    → Distinct (x ∷ xs)
    → Distinct (before ++ x ∷ after)
    → SameIds (x ∷ xs) (before ++ x ∷ after)
    → SameIds xs (before ++ after)
SameIds-without x xs before after dis dis' same y =
    let free = Distinct-split before x after dis' in
    elim (Bool-cases (y == x)) [
      | inl e ↦
          let e' = (==_iff y x).0 e in
          rw e' (ground (arith, dis.0, free.0, free.1, has-append x before after))
      | inr e ↦ ground (arith, same y, has-append y before (x ∷ after), has-append y before after)
    ]

pub no_ids : (ys : List ℕ) → SameIds [] ys → ys ≡ []
no_ids [] same = refl
no_ids (y ∷ ys) same = absurd (ground (arith, same y, ==_refl y))

last_of {ℓ} : {A : Type ℓ} (xs : List A) (a : A) → (p : A) × (last xs (some a) ≡ some p)
last_of [] a = (a, refl)
last_of (x ∷ xs) a = last_of xs x

-- In a list that starts with `z`, the link to the entry before `y` leads out only at `z`.
leads_back :
    (ids front : List ℕ) (y z : ℕ) (rest : List ℕ)
    → ((i : ℕ) → has i front ≡ true → has i ids ≡ true)
    → first (front ++ y ∷ rest) none ≡ some z
    → has y front ≡ false
    → map_or true (λ p. not (has p ids)) (last front none) ≡ (z == y)
leads_back ids [] y z rest inside e out = let same = some_inj e in ground (arith, same)
leads_back ids (x ∷ front) y z rest inside e out =
    let (p, k) = last_of front x in
    let same : x ≡ z = some_inj e in
    let kept = inside p (last-has (x ∷ front) p k) in rw k (ground (arith, kept, same))

-- In a list that ends with `z`, the link to the entry behind `y` leads out only at `z`.
leads_on :
    (ids front : List ℕ) (y z : ℕ) (back : List ℕ)
    → ((i : ℕ) → has i back ≡ true → has i ids ≡ true)
    → last (front ++ y ∷ back) none ≡ some z
    → has y back ≡ false
    → map_or true (λ p. not (has p ids)) (first back none) ≡ (z == y)
leads_on ids front y z [] inside e out =
    let same = some_inj (sym (last-append front (y ∷ []) none) ∙ e) in ground (arith, same)
leads_on ids front y z (w ∷ back) inside e out =
    let m = last-has (w ∷ back) z (sym (last-append front (y ∷ w ∷ back) none) ∙ e) in
    let kept = inside w (ground (arith, ==_refl w)) in
    elim (Bool-cases (z == y)) [
      | inr ne ↦ rw (kept, ne) refl
      | inl same ↦
          let here : has y (w ∷ back) ≡ true =
            subst (λ i. has i (w ∷ back) ≡ true) ((==_iff z y).0 same) m in
          absurd (cc (here, out))
    ]

module _ {U : Type 0} ⦃d : Amount U⦄ where
  -- Two lists of the same identifiers, each without repetition, have the same sums.
  total-SameIds :
      (h : Nodes U) (xs ys : List OrderId)
      → Distinct xs
      → Distinct ys
      → SameIds xs ys
      → (total h xs ≡ total h ys) × (length xs ≡ length ys)
  total-SameIds h [] ys dis dis' same = rw (no_ids ys same) (refl, refl)
  total-SameIds h (x ∷ xs) ys dis dis' same =
      let parts = split x ys (sym (same x) ∙ ground (arith, ==_refl x)) in
      let dis'' = subst Distinct parts.splits dis' in
      let (t, l) =
        total-SameIds h xs (parts.before ++ parts.after) dis.1
          (Distinct-without parts.before x parts.after dis'')
          (SameIds-without x xs parts.before parts.after dis dis''
            (subst (SameIds (x ∷ xs)) parts.splits same)) in
      rw parts.splits (
        omega (
          arith,
          t,
          total-append h parts.before parts.after,
          total-append h parts.before (x ∷ parts.after),
        ),
        omega (
          arith,
          l,
          length-append parts.before parts.after,
          length-append parts.before (x ∷ parts.after),
        ),
      )

  -- Where an order of a queue stands in it.
  record Stands (h : Nodes U) (xs : List OrderId) (y : OrderId) : Type 0 where
    front : List OrderId
    back : List OrderId
    splits : xs ≡ front ++ y ∷ back
    node : BookOrder U
    found : h y ≡ some node
    prev_is : node.prev ≡ last front none
    next_is : node.next ≡ first back none
    out_front : has y front ≡ false
    out_back : has y back ≡ false

  stands :
      (h : Nodes U) (s : OrderSide) (k : ℕ) (xs : List OrderId) (y : OrderId)
      → Distinct xs
      → Seg h s k none xs none
      → has y xs ≡ true
      → Stands h xs y
  stands h s k xs y dis linked m =
      let parts = split y xs m in
      let own =
        Seg-Node h s k parts.before parts.after y
          (subst (λ zs. Seg h s k none zs none) parts.splits linked) in
      let free = Distinct-split parts.before y parts.after (subst Distinct parts.splits dis) in
      record {
        front = parts.before;
        back = parts.after;
        splits = parts.splits;
        node = own.node;
        found = own.found;
        prev_is = own.prev_is;
        next_is = own.next_is;
        out_front = free.0;
        out_back = free.1;
      }

  module _ (nodes : Table OrderId (BookOrder U)) (s : OrderSide) (k : ℕ) (ids xs : List OrderId)
      (z : OrderId) (dis : Distinct xs)
      (linked : Seg (λ y. Table.get by_id y nodes) s k none xs none) (same : SameIds ids xs) where
    abbrev node_at : Nodes U
    node_at y = Table.get by_id y nodes

    in_ids : (i : OrderId) → has i xs ≡ true → has i ids ≡ true
    in_ids i m = same i ∙ m

    head_test :
        first xs none ≡ some z
        → (y : OrderId) → has y ids ≡ true
        → is_end (λ o. o.prev) ids nodes y ≡ (z == y)
    unfolding is_end
    head_test e y m =
        let at = stands node_at s k xs y dis linked (sym (same y) ∙ m) in
        rw (at.found, at.prev_is)
          (leads_back ids at.front y z at.back
            (λ i n.
              in_ids i
                (ap (has i) at.splits ∙ ground (arith, n, has-append i at.front (y ∷ at.back))))
            (sym (ap (λ zs. first zs none) at.splits) ∙ e) at.out_front)

    tail_test :
        last xs none ≡ some z
        → (y : OrderId) → has y ids ≡ true
        → is_end (λ o. o.next) ids nodes y ≡ (z == y)
    unfolding is_end
    tail_test e y m =
        let at = stands node_at s k xs y dis linked (sym (same y) ∙ m) in
        rw (at.found, at.next_is)
          (leads_on ids at.front y z at.back
            (λ i n.
              in_ids i
                (ap (has i) at.splits ∙ ground (arith, n, has-append i at.front (y ∷ at.back))))
            (sym (ap (λ zs. last zs none) at.splits) ∙ e) at.out_back)

    head_found : first xs none ≡ some z → find_id (is_end (λ o. o.prev) ids nodes) ids ≡ some z
    head_found e =
        find_id-only (is_end (λ o. o.prev) ids nodes) ids z (in_ids z (first-has xs z e))
          (head_test e)

    tail_found : last xs none ≡ some z → find_id (is_end (λ o. o.next) ids nodes) ids ≡ some z
    tail_found e =
        find_id-only (is_end (λ o. o.next) ids nodes) ids z (in_ids z (last-has xs z e))
          (tail_test e)

  record Sums (h : Nodes U) (ids : List OrderId) (n : ℕ) (old new : BookLevel U) : Type 0 where
    head_stays : new.head ≡ old.head
    tail_stays : new.tail ≡ old.tail
    sizes : d.units new.cached_size ≡ d.units old.cached_size + total h ids
    counts : new.cached_count ≡ (n + length ids) % 2 ^ 32

  add_sizes-Sums :
      (nodes : Table OrderId (BookOrder U)) (ids : List OrderId) (n : ℕ) (l : BookLevel U)
      → ((y : OrderId) → has y ids ≡ true → is_some (Table.get by_id y nodes) ≡ true)
      → d.units l.cached_size + total (λ y. Table.get by_id y nodes) ids ≤ d.cap
      → l.cached_count ≡ n % 2 ^ 32
      → Sums (λ y. Table.get by_id y nodes) ids n l (add_sizes nodes ids l)
  unfolding add_sizes add_size
  add_sizes-Sums nodes [] n l known room c = record {
    head_stays = refl;
    tail_stays = refl;
    sizes = omega arith;
    counts = omega (arith, c);
  }
  add_sizes-Sums nodes (id ∷ ids) n l known room c =
      elim (Option-cases (Table.get by_id id nodes)) [
        | inl none_is ↦ absurd (cc (none_is, known id (ground (arith, ==_refl id))))
        | inr (o, found) ↦
            let size : size_of (Table.get by_id id nodes) ≡ d.units o.order.size =
              ap size_of found in
            let added = d.units_add l.cached_size o.order.size (omega (arith, room, size)) in
            let rest =
              add_sizes-Sums nodes ids (n + 1) (add_size o.order.size l)
                (λ y m. known y (ground (arith, m))) (omega (arith, room, size, added))
                (omega (arith, c)) in
            rw found record {
              head_stays = rest.head_stays;
              tail_stays = rest.tail_stays;
              sizes = omega (arith, rest.sizes, added, size);
              counts = rest.counts ∙ omega arith;
            }
      ]

  -- From orders whose links form the queue `xs`, in any order, comes the level of that queue.
  pub build_level-Holds :
      (nodes : Table OrderId (BookOrder U)) (s : OrderSide) (k : ℕ) (ids xs : List OrderId)
      → Distinct ids
      → Distinct xs
      → Seg (λ y. Table.get by_id y nodes) s k none xs none
      → SameIds ids xs
      → is_empty xs ≡ false
      → total (λ y. Table.get by_id y nodes) xs ≤ d.cap
      → Holds (λ y. Table.get by_id y nodes) xs (build_level nodes ids)
  unfolding build_level BookLevel.new set_head set_tail
  build_level-Holds nodes s k ids [] dis dis' linked same full room = absurd (cc full)
  build_level-Holds nodes s k ids (x ∷ xs) dis dis' linked same full room =
      let (z, last_is) = last_of xs x in
      let head = head_found nodes s k ids (x ∷ xs) x dis' linked same refl in
      let tail = tail_found nodes s k ids (x ∷ xs) z dis' linked same last_is in
      let (sizes, lengths) =
        total-SameIds (λ y. Table.get by_id y nodes) ids (x ∷ xs) dis dis' same in
      let start =
        set_tail (find_id (is_end (λ o. o.next) ids nodes) ids)
          (set_head (find_id (is_end (λ o. o.prev) ids nodes) ids) BookLevel.new) in
      let sums =
        add_sizes-Sums nodes ids 0 start
          (λ y m.
            let own =
              stands (λ y. Table.get by_id y nodes) s k (x ∷ xs) y dis' linked (sym (same y) ∙ m) in
            ap is_some own.found)
          (omega (arith, room, sizes, d.units_zero)) refl in
      record {
        head_is = sums.head_stays ∙ head;
        tail_is = sums.tail_stays ∙ tail ∙ sym last_is;
        size_is = omega (arith, sums.sizes, sizes, d.units_zero);
        count_is = sums.counts ∙ rw lengths (omega arith);
        nonempty = refl;
      }
