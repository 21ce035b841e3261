-- ===== src/Exchange/PositionsKeep.antt =====
-- The handlers of src/state/exchange.rs for positions keep the state valid.
use perpl_dex_sdk.Prelude.{◌≡◌, true, Bool, List, has, subst, sym, ◌∙◌}
use perpl_dex_sdk.Types.{PerpetualId, AccountId}
use perpl_dex_sdk.Numbers.{Numbers}
use perpl_dex_sdk.Table
use perpl_dex_sdk.Table.Each.{Each-insert, Each-remove}
use perpl_dex_sdk.BookKeys.{by_id}
use perpl_dex_sdk.Position
use perpl_dex_sdk.Position.{
  Position, update_deposit, PositionType, update_type, update_entry_price, update_size,
  update_premium_pnl, apply_mark_price, apply_maintenance_margin,
}
use perpl_dex_sdk.Perpetual.{Perpetual, update_open_interest}
use perpl_dex_sdk.DexError.{DexError}
use perpl_dex_sdk.Account.{Account, update_balance}
use perpl_dex_sdk.Exchange.RawEvents.{
  IncreasePositionCollateral, PositionOpened, PositionClosed, PositionUnwound,
  PositionUnwoundWithoutPayment,
}
use perpl_dex_sdk.Exchange.Handler.{modify, on_first, on_second}
use perpl_dex_sdk.Exchange.Lookup.{Env}
use perpl_dex_sdk.Exchange.OnPositions.{
  interest, take_position, open_position, position_opened, close_position, unwind_position,
  unwind_unpaid, credit_position, increase_collateral, position_closed, position_unwound,
  position_unwound_without_payment, position_credited, collateral_increased,
}
use perpl_dex_sdk.Exchange.Keeps.{
  Keeps, Keeps-bind, Keeps-then, Keeps-modify, Keeps-if, Keeps-gets, Keeps-pure, Keeps-convert,
  Keeps-or_error, Keeps-reads, Keeps-beside, Keeps-on_first, Keeps-on_second, keeps_rules,
}
use perpl_dex_sdk.Exchange.Valid.{Frame, IsContract, IsPosition, IsAccount, Tracks}
use perpl_dex_sdk.Exchange.LookupKeeps.{Both, Held, account_perpetual-Keeps, position-Keeps}
use perpl_dex_sdk.Exchange.AccountsKeep.{update_balance-Keeps}
use perpl_dex_sdk.Exchange.ContractsKeep.{method-Keeps}
use perpl_dex_sdk.Exchange.OrdersKeep.{balanced-Keeps}
use perpl_dex_sdk.Exchange.MethodsKeep.{update_deposit-Keeps}

module _ (n : Numbers) (tracked : List PerpetualId) where
  -- A new position of the account and the contract.
  opened_lem :
      (id : AccountId) (pid : PerpetualId) (a : Account n) (p : Perpetual n) (pos : Position n)
      → has pid tracked ≡ true
      → IsAccount n tracked id a
      → IsContract n pid p
      → pos.account_id ≡ id
      → pos.perpetual_id ≡ pid
      → IsAccount n tracked id (record a { positions = Table.insert by_id p.id pos a.positions })
  opened_lem id pid a p pos t ha hp ida idp = record {
    id_is = ha.id_is;
    positions_are =
        Each-insert (IsPosition n tracked id) p.id pos a.positions
          (record {
            contract_is = idp ∙ sym hp.id_is;
            account_is = ida;
            is_tracked = subst (λ k. has k tracked ≡ true) (sym hp.id_is) t;
          })
          ha.positions_are;
  }

module _ (n : Numbers) {R : Type 0} (tracked : List PerpetualId) (frame : Frame) (env : Env n) where
  open n use {U256, UD64}

  interest-Keeps :
      (id : PerpetualId) (long : Bool) (prev new : UD64)
      → Keeps (IsContract n id) (interest n {R = R} env long prev new)
  unfolding interest update_open_interest
  interest-Keeps id long prev new =
      Keeps-if long (Keeps-then (method-Keeps n id env.instant _ search) (Keeps-gets _))
        (Keeps-pure _)

  -- The open interest, beside the account and beside the position.
  interest_in_pair :
      (id : AccountId) (pid : PerpetualId) (long : Bool) (prev new : UD64)
      → Keeps (Both n tracked frame id pid) (on_second (interest n {R = R} env long prev new))
  interest_in_pair id pid long prev new = Keeps-on_second (Both n tracked frame id pid) λ a.
      Keeps-beside (IsContract n pid) (IsAccount n tracked id a × (has pid tracked ≡ true))
        (λ s h. (h.1, (h.0, h.2))) (λ s q f. (f.0, q, f.1)) (interest-Keeps pid long prev new)

  pub interest_in_position :
      (id : AccountId) (pid : PerpetualId) (long : Bool) (prev new : UD64)
      → Keeps (Held n tracked frame id pid) (on_second (interest n {R = R} env long prev new))
  interest_in_position id pid long prev new = Keeps-on_second (Held n tracked frame id pid) λ p.
      Keeps-beside (IsContract n pid) (IsPosition n tracked id pid p) (λ s h. (h.1, h.0))
        (λ s q f. (f, q)) (interest-Keeps pid long prev new)

  take_position-Keeps :
      (id : AccountId) (pid : PerpetualId)
      → Keeps (Both n tracked frame id pid) (take_position n {R = R} env)
  unfolding take_position
  take_position-Keeps id pid = Keeps-bind (Keeps-gets _) λ s. Keeps-bind (Keeps-or_error _ _) λ pos.
      Keeps-then
        (Keeps-modify _ λ s h. (
          record {
            id_is = h.0.id_is;
            positions_are =
                Each-remove (IsPosition n tracked id) s.1.id s.0.positions h.0.positions_are;
          },
          h.1,
          h.2,
        ))
        (Keeps-pure _)

  open_position-Keeps :
      (e : PositionOpened n) (id : AccountId) (pid : PerpetualId)
      → Keeps (Both n tracked frame id pid) (open_position n {R = R} env e)
  unfolding open_position Position.opened
  open_position-Keeps e id pid =
      Keeps-reads (λ (a : Account n). a.id ≡ id) (λ s. s.0) (λ s h. h.0.id_is)
        λ acc ida.
          Keeps-reads (λ (p : Perpetual n). p.id ≡ pid) (λ s. s.1) (λ s h. h.1.id_is)
            λ perp idp. Keeps-bind (Keeps-convert _) λ type.
              Keeps-bind (Keeps-convert _) λ entry_price. Keeps-bind (Keeps-convert _) λ size.
                Keeps-bind (Keeps-convert _) λ deposit.
                  Keeps-bind (interest_in_pair id pid _ _ _) λ opened_interest.
                    Keeps-then
                      (Keeps-modify _ λ s h.
                        (opened_lem n tracked id pid s.0 s.1 _ h.2 h.0 h.1 ida idp, h.1, h.2))
                      (Keeps-pure _)

  pub position_opened-Keeps :
      (e : PositionOpened n) → Keeps (Tracks n tracked frame) (position_opened n {R = R} env e)
  unfolding position_opened
  position_opened-Keeps e =
      Keeps-bind
        (account_perpetual-Keeps n tracked frame e.account_id e.perp_id _ (open_position-Keeps e))
        (search keeps_rules)

  close_position-Keeps :
      (e : PositionClosed n) (id : AccountId) (pid : PerpetualId)
      → Keeps (Both n tracked frame id pid) (close_position n {R = R} env e)
  unfolding close_position
  close_position-Keeps e id pid =
      Keeps-bind (take_position-Keeps id pid)
        (search (keeps_rules, interest_in_pair) depth 24 fits 3000)

  pub position_closed-Keeps :
      (e : PositionClosed n) → Keeps (Tracks n tracked frame) (position_closed n {R = R} env e)
  unfolding position_closed
  position_closed-Keeps e =
      Keeps-bind
        (account_perpetual-Keeps n tracked frame e.account_id e.perp_id _ (close_position-Keeps e))
        (search keeps_rules)

  paid-Keeps :
      (id : AccountId) (pid : PerpetualId) (b : n.UD128)
      → Keeps {E = DexError UD64 R}
          (Both n tracked frame id pid)
          (on_first (modify (update_balance n env.instant b)))
  paid-Keeps id pid b = Keeps-on_first (Both n tracked frame id pid) λ p.
      Keeps-beside (IsAccount n tracked id) (IsContract n pid p × (has pid tracked ≡ true))
        (λ s h. (h.0, (h.1, h.2))) (λ s q f. (q, f.0, f.1))
        (update_balance-Keeps n tracked env.instant id b)

  unwind_position-Keeps :
      (e : PositionUnwound n) (id : AccountId) (pid : PerpetualId)
      → Keeps (Both n tracked frame id pid) (unwind_position n {R = R} env e)
  unfolding unwind_position
  unwind_position-Keeps e id pid =
      Keeps-bind (take_position-Keeps id pid)
        (search (keeps_rules, interest_in_pair, paid-Keeps) depth 24 fits 3000)

  pub position_unwound-Keeps :
      (e : PositionUnwound n) → Keeps (Tracks n tracked frame) (position_unwound n {R = R} env e)
  unfolding position_unwound
  position_unwound-Keeps e =
      Keeps-bind
        (account_perpetual-Keeps n tracked frame e.account_id e.perp_id _ (unwind_position-Keeps e))
        (search keeps_rules)

  unwind_unpaid-Keeps :
      (e : PositionUnwoundWithoutPayment n) (id : AccountId) (pid : PerpetualId)
      → Keeps (Both n tracked frame id pid) (unwind_unpaid n {R = R} env e)
  unfolding unwind_unpaid
  unwind_unpaid-Keeps e id pid =
      Keeps-bind (take_position-Keeps id pid)
        (search (keeps_rules, interest_in_pair) depth 24 fits 3000)

  pub position_unwound_without_payment-Keeps :
      (e : PositionUnwoundWithoutPayment n)
      → Keeps (Tracks n tracked frame) (position_unwound_without_payment n {R = R} env e)
  unfolding position_unwound_without_payment
  position_unwound_without_payment-Keeps e =
      Keeps-bind
        (account_perpetual-Keeps n tracked frame e.account_id e.perp_id _ (unwind_unpaid-Keeps e))
        (search keeps_rules)

  credit_position-Keeps :
      (d : U256) (id : AccountId) (pid : PerpetualId)
      → Keeps (Held n tracked frame id pid) (credit_position n {R = R} env d)
  unfolding credit_position
  credit_position-Keeps d id pid = search (keeps_rules, update_deposit-Keeps)

  pub position_credited-Keeps :
      (p a d : U256) → Keeps (Tracks n tracked frame) (position_credited n {R = R} env p a d)
  unfolding position_credited
  position_credited-Keeps p a d =
      Keeps-bind (position-Keeps n tracked frame a p _ (credit_position-Keeps d))
        (search keeps_rules)

  increase_collateral-Keeps :
      (e : IncreasePositionCollateral n) (id : AccountId) (pid : PerpetualId)
      → Keeps (Held n tracked frame id pid) (increase_collateral n {R = R} env e)
  unfolding increase_collateral
  increase_collateral-Keeps e id pid = search (keeps_rules, update_deposit-Keeps)

  pub collateral_increased-Keeps :
      (e : IncreasePositionCollateral n)
      → Keeps (Tracks n tracked frame) (collateral_increased n {R = R} env e)
  unfolding collateral_increased
  collateral_increased-Keeps e =
      Keeps-bind
        (position-Keeps n tracked frame e.account_id e.perp_id _ (increase_collateral-Keeps e))
        λ event.
          Keeps-bind (balanced-Keeps n tracked frame env e.account_id e.balance_cns)
            (search keeps_rules)
