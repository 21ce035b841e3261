-- ===== src/Exchange/Tracking.antt =====
-- Lookups of positions in a valid state, and new marks for them, in src/state/exchange.rs.
use mathlib.Core.Option
use perpl_dex_sdk.Prelude.{
  ◌≡◌, refl, true, Option, some, none, is_some, List, ◌∷◌, Result, ok, ◌∙◌, ◌==◌, ==_refl,
  if◌then◌else◌, Option-cases, inl, inr,
}
use perpl_dex_sdk.Types.{PerpetualId, AccountId}
use perpl_dex_sdk.Numbers.{Numbers}
use perpl_dex_sdk.Table
use perpl_dex_sdk.Table.Each.{Each-get, keys, key_in-get}
use perpl_dex_sdk.Table.Laws.{get-modify}
use perpl_dex_sdk.BookKeys.{by_id}
use perpl_dex_sdk.Converters.{from_unsigned}
use perpl_dex_sdk.Position.{Position, apply_mark_price}
use perpl_dex_sdk.Perpetual.{Perpetual, update_mark_price}
use perpl_dex_sdk.StateEvents.{StateEvents, mark_price_updated}
use perpl_dex_sdk.Exchange.{Exchange, on_positions}
use perpl_dex_sdk.Exchange.Positions.{position_of, positions_in}
use perpl_dex_sdk.Exchange.Handler.{◌>>=◌, ◌>>◌, pure, gets, modify, convert, borrowed}
use perpl_dex_sdk.Exchange.Lookup.{Env, On, position_at, perpetual, perpetual_at}
use perpl_dex_sdk.Exchange.OnContracts.{mark_updated, mark_positions, remarked}
use perpl_dex_sdk.Exchange.Valid.{IsPosition, IsAccount, IsValid}

borrowed-total {ℓ κ μ ν} :
    {E : Type ℓ} {S : Type κ} {A : Type μ} {T : Type ν} (put : T → S) (o : Option (T × Result E A))
    → is_some o ≡ true
    → is_some (borrowed put o) ≡ true
borrowed-total put none h = absurd (cc h)
borrowed-total put (some (t, r)) h = refl

module _ (n : Numbers) {R : Type 0} where
  -- In a valid state the lookup of a position never meets the panic of `expect("perpetual found")`:
  -- where what is done with the position does not panic, the lookup does not.
  pub position_at-total :
      {A : Type 0} (id : AccountId) (pid : PerpetualId) (f : On n R (Position n × Perpetual n) A)
      (e : Exchange n)
      → IsValid n e
      → ((s : Position n × Perpetual n) → is_some (f s) ≡ true)
      → is_some (position_at n id pid f e) ≡ true
  unfolding position_at
  position_at-total id pid f e v total = elim (Option-cases (Table.get by_id id e.accounts)) [
    | inl h ↦ rw (h, position_at) refl
    | inr (a, h) ↦ elim (Option-cases (Table.get by_id pid a.positions)) [
      | inl i ↦ rw (h, i, position_at) refl
      | inr (pos, i) ↦
          let account =
            Each-get (IsAccount n (keys e.perpetuals)) id a e.accounts h v.accounts_are in
          let own =
            Each-get (IsPosition n (keys e.perpetuals) id) pid pos a.positions i
              account.positions_are in
          let (p, l) = key_in-get pid e.perpetuals own.is_tracked in
          rw (h, i, l, position_at) (borrowed-total _ (f (pos, p)) (total (pos, p)))
    ]
  ]

module _ (n : Numbers) (R : Type 0) (env : Env n) (perp_id price_pns : n.U256) (e : Exchange n)
    (id : PerpetualId) (p : Perpetual n) (mark : n.UD64) where
  -- The state behind a new mark.
  abbrev marked : Exchange n
  marked = record e {
    perpetuals = Table.modify by_id id (λ _. update_mark_price n env.instant mark p) e.perpetuals;
    accounts = (on_positions n (remarked n env mark) id e.accounts).0;
  }

  -- The mark of a position.
  abbrev pub at_mark : Position n → Position n
  at_mark = apply_mark_price n env.instant mark

  mark_updated-marked :
      n.to_u32 perp_id ≡ some id
      → Table.get by_id id e.perpetuals ≡ some p
      → p.id ≡ id
      → from_unsigned n p.price_converter price_pns ≡ some mark
      → (events : List (StateEvents n)) × (mark_updated n {R = R} env perp_id price_pns e
          ≡ some (marked, ok events))
  unfolding mark_updated perpetual perpetual_at mark_positions update_mark_price convert gets modify
      pure ◌>>=◌ ◌>>◌
  mark_updated-marked h k own price =
      let events = (on_positions n (remarked n env mark) id e.accounts).1 in
      (
        StateEvents.perpetual (record { perpetual_id = id; type = mark_price_updated mark })
            ∷ events,
        rw (h, convert, k, perpetual_at, price, own) refl,
      )

  -- A new mark of a tracked contract that the contract's converter reads is taken over by the contract
  -- and by the positions in it of all tracked accounts; every other position stays as it is.
  pub mark_updated-at_mark :
      n.to_u32 perp_id ≡ some id
      → Table.get by_id id e.perpetuals ≡ some p
      → p.id ≡ id
      → from_unsigned n p.price_converter price_pns ≡ some mark
      → (e' : Exchange n) × (events : List (StateEvents n)) × (mark_updated n {R = R} env perp_id
            price_pns e
          ≡ some (e', ok events))
        × (Table.get by_id id e'.perpetuals ≡ some (update_mark_price n env.instant mark p))
        × ((account : AccountId) (pid : PerpetualId)
            → position_of n e'.accounts account pid ≡ (
                if id == pid
                then Option.map at_mark (position_of n e.accounts account pid)
                else position_of n e.accounts account pid))
  unfolding remarked
  mark_updated-at_mark h k own price =
      let (events, run) = mark_updated-marked h k own price in
      (
        marked,
        events,
        run,
        get-modify by_id id id (λ _. update_mark_price n env.instant mark p) e.perpetuals
            ∙ rw (==_refl id, k) refl,
        λ account pid. positions_in n (remarked n env mark) id pid account e.accounts,
      )
