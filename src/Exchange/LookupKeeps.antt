-- ===== src/Exchange/LookupKeeps.antt =====
-- What the lookups of src/state/exchange.rs keep: a closure that keeps what it borrows keeps the state.
use perpl_dex_sdk.Prelude.{
  ◌≡◌, refl, ◌⊎◌, arith, true, List, not, ◌&&◌, is_some, sym, ◌∙◌, subst, Bool-cases, inl, inr,
  Option-cases, has,
}
use perpl_dex_sdk.Types.{PerpetualId, AccountId, StateInstant}
use perpl_dex_sdk.Numbers.{Numbers}
use perpl_dex_sdk.Table
use perpl_dex_sdk.Table.Each.{keys-modify, Each-get, Each-modify, Each-insert, get-key_in}
use perpl_dex_sdk.BookKeys.{by_id}
use perpl_dex_sdk.Order.{Order}
use perpl_dex_sdk.Position.{Position}
use perpl_dex_sdk.Perpetual.{Perpetual}
use perpl_dex_sdk.Account.{Account, from_event}
use perpl_dex_sdk.Exchange.{Exchange, ensure_account}
use perpl_dex_sdk.Exchange.Lookup.{
  Env, On, must_ctx, err_ctx, account_at, perpetual_at, account, perpetual, order_id_of, order,
  both_at, account_perpetual, position_at, position,
}
use perpl_dex_sdk.Exchange.Keeps.{
  Leaves, Keeps, Keeps-bind, Keeps-then, Keeps-pure, Keeps-gets, Keeps-modify, Keeps-convert,
  Keeps-or_error, Leaves-borrowed,
}
use perpl_dex_sdk.Exchange.Valid.{Frame, IsContract, IsPosition, IsAccount, Tracks}

module _ (n : Numbers) (tracked : List PerpetualId) (frame : Frame) where
  -- The contracts of a state that got another one under a key.
  recontracted :
      (id : PerpetualId) (p : Perpetual n) (e : Exchange n)
      → IsContract n id p
      → Tracks n tracked frame e
      → Tracks n tracked frame
          (record e { perpetuals = Table.modify by_id id (λ _. p) e.perpetuals })
  recontracted id p e c t = record {
    contracts_are = Each-modify (IsContract n) id p e.perpetuals c t.contracts_are;
    tracked_are = keys-modify by_id id (λ _. p) e.perpetuals ∙ t.tracked_are;
    accounts_are = t.accounts_are;
    instant_is = t.instant_is;
    track_all_is = t.track_all_is;
    listed_are = t.listed_are;
  }

  reaccounted :
      (id : AccountId) (a : Account n) (e : Exchange n)
      → IsAccount n tracked id a
      → Tracks n tracked frame e
      → Tracks n tracked frame (record e { accounts = Table.modify by_id id (λ _. a) e.accounts })
  reaccounted id a e c t = record {
    contracts_are = t.contracts_are;
    tracked_are = t.tracked_are;
    accounts_are = Each-modify (IsAccount n tracked) id a e.accounts c t.accounts_are;
    instant_is = t.instant_is;
    track_all_is = t.track_all_is;
    listed_are =
        subst (λ ks. (frame.track_all ≡ true) ⊎ (ks ≡ frame.listed))
          (sym (keys-modify by_id id (λ _. a) e.accounts)) t.listed_are;
  }

  pub inserted :
      (id : AccountId) (a : Account n) (e : Exchange n)
      → e.track_all_accounts ≡ true
      → IsAccount n tracked id a
      → Tracks n tracked frame e
      → Tracks n tracked frame (record e { accounts = Table.insert by_id id a e.accounts })
  inserted id a e all c t = record {
    contracts_are = t.contracts_are;
    tracked_are = t.tracked_are;
    accounts_are = Each-insert (IsAccount n tracked) id a e.accounts c t.accounts_are;
    instant_is = t.instant_is;
    track_all_is = t.track_all_is;
    listed_are = inl (sym t.track_all_is ∙ all);
  }

  pub from_event-IsAccount :
      (at : StateInstant) (id : AccountId) (address : n.Address)
      → IsAccount n tracked id (from_event n at id address)
  unfolding from_event
  from_event-IsAccount at id address = record { id_is = refl; positions_are = tt }

  ensure_account-Tracks :
      (id : AccountId) (e : Exchange n)
      → Tracks n tracked frame e
      → Tracks n tracked frame (ensure_account n id e)
  unfolding ensure_account
  ensure_account-Tracks id e t =
      elim (Bool-cases (e.track_all_accounts && not (is_some (Table.get by_id id e.accounts)))) [
        | inl h ↦ rw h (inserted id _ e (ground arith) (from_event-IsAccount _ id n.zero_address) t)
        | inr h ↦ rw h t
      ]

  -- What an account and a contract that are borrowed together keep.
  abbrev pub Both : AccountId → PerpetualId → Account n × Perpetual n → Type 0
  Both id contract s =
      IsAccount n tracked id s.0 × IsContract n contract s.1 × (has contract tracked ≡ true)

  -- What a position and its contract keep.
  abbrev pub Held : AccountId → PerpetualId → Position n × Perpetual n → Type 0
  Held id contract s = IsPosition n tracked id contract s.0 × IsContract n contract s.1

  repositioned :
      (id : AccountId) (pid : PerpetualId) (a : Account n) (p : Position n)
      → IsPosition n tracked id pid p
      → IsAccount n tracked id a
      → IsAccount n tracked id
          (record a { positions = Table.modify by_id pid (λ _. p) a.positions })
  repositioned id pid a p c t = record {
    id_is = t.id_is;
    positions_are = Each-modify (IsPosition n tracked id) pid p a.positions c t.positions_are;
  }

module _ (n : Numbers) {R : Type 0} (tracked : List PerpetualId) (frame : Frame) where
  account_at-Leaves :
      {A : Type 0} (id : AccountId) (f : On n R (Account n) A)
      → Keeps (IsAccount n tracked id) f
      → (e : Exchange n) → Tracks n tracked frame e
      → Leaves (Tracks n tracked frame) (account_at n id f e)
  unfolding account_at
  account_at-Leaves id f k e t = elim (Option-cases (Table.get by_id id e.accounts)) [
    | inl h ↦ rw (h, account_at) t
    | inr (a, h) ↦
        rw (h, account_at)
          (Leaves-borrowed (Tracks n tracked frame) (IsAccount n tracked id) _ (f a)
            (k.keeps a (Each-get (IsAccount n tracked) id a e.accounts h t.accounts_are))
            (λ a' c. reaccounted n tracked frame id a' e c t))
  ]

  pub account_at-Keeps :
      {A : Type 0} (id : AccountId) (f : On n R (Account n) A)
      → Keeps (IsAccount n tracked id) f
      → Keeps (Tracks n tracked frame) (account_at n id f)
  account_at-Keeps id f k = record { keeps = account_at-Leaves id f k }

  perpetual_at-Leaves :
      {A : Type 0} (id : PerpetualId) (f : On n R (Perpetual n) A)
      → Keeps (IsContract n id) f
      → (e : Exchange n) → Tracks n tracked frame e
      → Leaves (Tracks n tracked frame) (perpetual_at n id f e)
  unfolding perpetual_at
  perpetual_at-Leaves id f k e t = elim (Option-cases (Table.get by_id id e.perpetuals)) [
    | inl h ↦ rw (h, perpetual_at) t
    | inr (p, h) ↦
        rw (h, perpetual_at)
          (Leaves-borrowed (Tracks n tracked frame) (IsContract n id) _ (f p)
            (k.keeps p (Each-get (IsContract n) id p e.perpetuals h t.contracts_are))
            (λ p' c. recontracted n tracked frame id p' e c t))
  ]

  pub perpetual_at-Keeps :
      {A : Type 0} (id : PerpetualId) (f : On n R (Perpetual n) A)
      → Keeps (IsContract n id) f
      → Keeps (Tracks n tracked frame) (perpetual_at n id f)
  perpetual_at-Keeps id f k = record { keeps = perpetual_at-Leaves id f k }

  pub account-Keeps :
      {A : Type 0} (id : n.U256) (f : On n R (Account n) A)
      → ((account : AccountId) → Keeps (IsAccount n tracked account) f)
      → Keeps (Tracks n tracked frame) (account n id f)
  unfolding account
  account-Keeps id f k = Keeps-bind (Keeps-convert _) λ account.
      Keeps-then (Keeps-modify _ (ensure_account-Tracks n tracked frame account))
        (account_at-Keeps account f (k account))

  pub perpetual-Keeps :
      {A : Type 0} (id : n.U256) (f : On n R (Perpetual n) A)
      → ((contract : PerpetualId) → Keeps (IsContract n contract) f)
      → Keeps (Tracks n tracked frame) (perpetual n id f)
  unfolding perpetual
  perpetual-Keeps id f k =
      Keeps-bind (Keeps-convert _) λ contract. perpetual_at-Keeps contract f (k contract)

  pub order_id_of-Keeps :
      {S : Type 0} (P : S → Type 0) (id : n.U256) → Keeps P (order_id_of n {R = R} id)
  unfolding order_id_of
  order_id_of-Keeps P id = Keeps-bind (Keeps-convert _) λ raw. (Keeps-convert _)

  pub order-Keeps :
      {A : Type 0} (perp_id ord_id : n.U256) (f : Order n.UD64 → On n R (Perpetual n) A)
      → ((o : Order n.UD64) (contract : PerpetualId) → Keeps (IsContract n contract) (f o))
      → Keeps (Tracks n tracked frame) (order n perp_id ord_id f)
  unfolding order
  order-Keeps perp_id ord_id f k =
      Keeps-bind (order_id_of-Keeps (Tracks n tracked frame) ord_id) λ id.
        perpetual-Keeps perp_id _ λ contract.
          Keeps-bind (Keeps-gets _) λ p. Keeps-bind (Keeps-or_error _ _) λ o. k o contract

  both_at-Leaves :
      {A : Type 0} (id : AccountId) (pid : PerpetualId) (f : On n R (Account n × Perpetual n) A)
      → Keeps (Both n tracked frame id pid) f
      → (e : Exchange n) → Tracks n tracked frame e
      → Leaves (Tracks n tracked frame) (both_at n id pid f e)
  unfolding both_at
  both_at-Leaves id pid f k e t = elim (Option-cases (Table.get by_id id e.accounts)) [
    | inl h ↦ rw (h, both_at) t
    | inr (a, h) ↦ elim (Option-cases (Table.get by_id pid e.perpetuals)) [
      | inl l ↦ rw (h, l, both_at) t
      | inr (p, l) ↦
          rw (h, l, both_at)
            (Leaves-borrowed (Tracks n tracked frame) (Both n tracked frame id pid) _ (f (a, p))
              (k.keeps (a, p)
                (
                  Each-get (IsAccount n tracked) id a e.accounts h t.accounts_are,
                  Each-get (IsContract n) pid p e.perpetuals l t.contracts_are,
                  subst (λ ks. has pid ks ≡ true) t.tracked_are (get-key_in pid p e.perpetuals l),
                ))
              (λ s c.
                reaccounted n tracked frame id s.0
                  (record e { perpetuals = Table.modify by_id pid (λ _. s.1) e.perpetuals }) c.0
                  (recontracted n tracked frame pid s.1 e c.1 t)))
    ]
  ]

  pub account_perpetual-Keeps :
      {A : Type 0} (acc_id perp_id : n.U256) (f : On n R (Account n × Perpetual n) A)
      → ((id : AccountId) (pid : PerpetualId) → Keeps (Both n tracked frame id pid) f)
      → Keeps (Tracks n tracked frame) (account_perpetual n acc_id perp_id f)
  unfolding account_perpetual
  account_perpetual-Keeps acc_id perp_id f k = Keeps-bind (Keeps-convert _) λ id.
      Keeps-then (Keeps-modify _ (ensure_account-Tracks n tracked frame id))
        (Keeps-bind (Keeps-convert _) λ pid. record { keeps = both_at-Leaves id pid f (k id pid) })

  position_at-Leaves :
      {A : Type 0} (id : AccountId) (pid : PerpetualId) (f : On n R (Position n × Perpetual n) A)
      → Keeps (Held n tracked frame id pid) f
      → (e : Exchange n) → Tracks n tracked frame e
      → Leaves (Tracks n tracked frame) (position_at n id pid f e)
  unfolding position_at
  position_at-Leaves id pid f k e t = elim (Option-cases (Table.get by_id id e.accounts)) [
    | inl h ↦ rw (h, position_at) t
    | inr (a, h) ↦
        let ta = Each-get (IsAccount n tracked) id a e.accounts h t.accounts_are in
        elim (Option-cases (Table.get by_id pid a.positions)) [
          | inl i ↦ rw (h, i, position_at) t
          | inr (pos, i) ↦ elim (Option-cases (Table.get by_id pid e.perpetuals)) [
            | inl l ↦ rw (h, i, l, position_at) tt
            | inr (p, l) ↦
                rw (h, i, l, position_at)
                  (Leaves-borrowed (Tracks n tracked frame) (Held n tracked frame id pid) _
                    (f (pos, p))
                    (k.keeps (pos, p)
                      (
                        Each-get (IsPosition n tracked id) pid pos a.positions i ta.positions_are,
                        Each-get (IsContract n) pid p e.perpetuals l t.contracts_are,
                      ))
                    (λ s c.
                      reaccounted n tracked frame id
                        (record a { positions = Table.modify by_id pid (λ _. s.0) a.positions })
                        (record e { perpetuals = Table.modify by_id pid (λ _. s.1) e.perpetuals })
                        (repositioned n tracked frame id pid a s.0 c.0 ta)
                        (recontracted n tracked frame pid s.1 e c.1 t)))
          ]
        ]
  ]

  pub position-Keeps :
      {A : Type 0} (acc_id perp_id : n.U256) (f : On n R (Position n × Perpetual n) A)
      → ((id : AccountId) (pid : PerpetualId) → Keeps (Held n tracked frame id pid) f)
      → Keeps (Tracks n tracked frame) (position n acc_id perp_id f)
  unfolding position
  position-Keeps acc_id perp_id f k = Keeps-bind (Keeps-convert _) λ id.
      Keeps-then (Keeps-modify _ (ensure_account-Tracks n tracked frame id)) (
        Keeps-bind (Keeps-convert _)
          λ pid. record { keeps = position_at-Leaves id pid f (k id pid) })

  pub must_ctx-Keeps : (env : Env n) → Keeps (Tracks n tracked frame) (must_ctx n {R = R} env)
  unfolding must_ctx
  must_ctx-Keeps env = (Keeps-or_error _ _)

  pub err_ctx-Keeps : (env : Env n) → Keeps (Tracks n tracked frame) (err_ctx n {R = R} env)
  unfolding err_ctx
  err_ctx-Keeps env =
      Keeps-bind (must_ctx-Keeps env) λ c. Keeps-bind (Keeps-gets _) λ b. (Keeps-pure _)
