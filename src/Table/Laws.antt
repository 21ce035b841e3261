-- ===== src/Table/Laws.antt =====
-- A table as a function of the classes of its keys, and its order.
use mathlib.Core.Option
use perpl_dex_sdk.Prelude.{◌≡◌, none, some, [], ◌∷◌, ◌==◌, if◌then◌else◌, arith, refl}
use perpl_dex_sdk.Table.{Ranking, Table, get, insert, remove, modify}

module _ {K V : Type 0} (r : Ranking K) where
  -- What `insert` writes is read under every equal key, and nowhere else.
  pub get-insert :
      (p k : K) (v : V) (m : Table K V)
      → get r p (insert r k v m) ≡ (if r.key k == r.key p then some v else get r p m)
  unfolding get insert
  get-insert p k v [] = ground (arith, r.tied_iff p k)
  get-insert p k v ((j, w) ∷ m) =
      ground (arith, r.tied_iff p k, r.tied_iff p j, r.tied_iff k j, get-insert p k v m)

  pub get-remove :
      (p k : K) (m : Table K V)
      → get r p (remove r k m) ≡ (if r.key k == r.key p then none else get r p m)
  unfolding get remove
  get-remove p k [] = ground arith
  get-remove p k ((j, w) ∷ m) = ground (arith, r.tied_iff p j, r.tied_iff k j, get-remove p k m)

  pub get-modify :
      (p k : K) (f : V → V) (m : Table K V)
      → get r p (modify r k f m)
        ≡ (if r.key k == r.key p then Option.map f (get r p m) else get r p m)
  unfolding get modify
  get-modify p k f [] = ground arith
  get-modify p k f ((j, w) ∷ m) = ground (arith, r.tied_iff p j, r.tied_iff k j, get-modify p k f m)

  -- Equal keys read the same.
  pub get-key : (p k : K) (m : Table K V) → r.key p ≡ r.key k → get r p m ≡ get r k m
  unfolding get
  get-key p k [] h = refl
  get-key p k ((j, w) ∷ m) h = ground (arith, r.tied_iff p j, r.tied_iff k j, get-key p k m)
