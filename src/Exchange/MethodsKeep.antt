-- ===== src/Exchange/MethodsKeep.antt =====
-- The methods of src/state/position.rs leave a position's account and contract.
use perpl_dex_sdk.Prelude.{◌≡◌, refl, List, sym, ◌∙◌}
use perpl_dex_sdk.Types.{PerpetualId, AccountId, StateInstant}
use perpl_dex_sdk.Numbers.{Numbers}
use perpl_dex_sdk.Position.{
  Position, PositionType, update_type, update_entry_price, update_size, update_deposit,
  update_premium_pnl, apply_mark_price, apply_maintenance_margin,
}
use perpl_dex_sdk.Exchange.Handler.{modify, on_first}
use perpl_dex_sdk.Exchange.Keeps.{
  Keeps, Keeps-modify, Keeps-beside, Keeps-on_first, keeps_rules, Keeps-bind, Keeps-then,
  Keeps-pure, Keeps-gets, Keeps-convert, Keeps-or_error, Keeps-if, Keeps-elim,
}
use perpl_dex_sdk.Exchange.Valid.{Frame, IsContract, IsPosition}
use perpl_dex_sdk.Exchange.LookupKeeps.{Held}

module _ (n : Numbers) {E : Type 0} (tracked : List PerpetualId) (frame : Frame) where
  -- A method of a position that leaves its account and its contract.
  pub position_method-Keeps :
      (id : AccountId) (pid : PerpetualId) (f : Position n → Position n)
      → ((p : Position n) → p.perpetual_id ≡ (f p).perpetual_id)
      → ((p : Position n) → p.account_id ≡ (f p).account_id)
      → Keeps {E = E} (Held n tracked frame id pid) (on_first (modify f))
  position_method-Keeps id pid f hp ha = Keeps-on_first (Held n tracked frame id pid) λ p.
      Keeps-beside (IsPosition n tracked id pid) (IsContract n pid p) (λ s h. (h.0, h.1))
        (λ s q c. (q, c))
        (Keeps-modify f λ s h. record {
          contract_is = sym (hp s) ∙ h.contract_is;
          account_is = sym (ha s) ∙ h.account_is;
          is_tracked = h.is_tracked;
        })

module _ (n : Numbers) {E : Type 0} (tracked : List PerpetualId) (frame : Frame) (at : StateInstant)
    (id : AccountId) (pid : PerpetualId) where
  pub update_type-Keeps :
      (v : PositionType)
      → Keeps {E = E} (Held n tracked frame id pid) (on_first (modify (update_type n at v)))
  unfolding update_type
  update_type-Keeps v = position_method-Keeps n tracked frame id pid _ (λ p. refl) (λ p. refl)

  pub update_entry_price-Keeps :
      (v : n.UD64)
      → Keeps {E = E} (Held n tracked frame id pid) (on_first (modify (update_entry_price n at v)))
  unfolding update_entry_price
  update_entry_price-Keeps v =
      position_method-Keeps n tracked frame id pid _ (λ p. refl) (λ p. refl)

  pub update_size-Keeps :
      (v : n.UD64)
      → Keeps {E = E} (Held n tracked frame id pid) (on_first (modify (update_size n at v)))
  unfolding update_size
  update_size-Keeps v = position_method-Keeps n tracked frame id pid _ (λ p. refl) (λ p. refl)

  pub update_deposit-Keeps :
      (v : n.UD128)
      → Keeps {E = E} (Held n tracked frame id pid) (on_first (modify (update_deposit n at v)))
  unfolding update_deposit
  update_deposit-Keeps v = position_method-Keeps n tracked frame id pid _ (λ p. refl) (λ p. refl)

  pub apply_mark_price-Keeps :
      (v : n.UD64)
      → Keeps {E = E} (Held n tracked frame id pid) (on_first (modify (apply_mark_price n at v)))
  unfolding apply_mark_price
  apply_mark_price-Keeps v = position_method-Keeps n tracked frame id pid _ (λ p. refl) (λ p. refl)

  pub apply_maintenance_margin-Keeps :
      (v : n.UD64)
      → Keeps {E = E}
          (Held n tracked frame id pid)
          (on_first (modify (apply_maintenance_margin n at v)))
  unfolding apply_maintenance_margin
  apply_maintenance_margin-Keeps v =
      position_method-Keeps n tracked frame id pid _ (λ p. refl) (λ p. refl)

  pub update_premium_pnl-Keeps :
      (v : Position n → n.D256)
      → Keeps {E = E}
          (Held n tracked frame id pid)
          (on_first (modify (λ p. update_premium_pnl n at (v p) p)))
  unfolding update_premium_pnl
  update_premium_pnl-Keeps v =
      position_method-Keeps n tracked frame id pid _ (λ p. refl) (λ p. refl)

  pub reset_premium_pnl-Keeps :
      (v : n.D256)
      → Keeps {E = E} (Held n tracked frame id pid) (on_first (modify (update_premium_pnl n at v)))
  unfolding update_premium_pnl
  reset_premium_pnl-Keeps v = position_method-Keeps n tracked frame id pid _ (λ p. refl) (λ p. refl)

pub ruleset position_rules = (
  keeps_rules, update_type-Keeps, update_entry_price-Keeps, update_size-Keeps, update_deposit-Keeps,
  apply_mark_price-Keeps, apply_maintenance_margin-Keeps, update_premium_pnl-Keeps,
  reset_premium_pnl-Keeps,
)
