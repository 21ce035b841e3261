-- ===== src/Exchange/Valid.antt =====
-- What always holds of a state of src/state/exchange.rs.
use perpl_dex_sdk.Prelude.{◌≡◌, refl, ◌⊎◌, inr, Bool, true, List, sym, subst, has}
use perpl_dex_sdk.Types.{PerpetualId, AccountId, StateInstant}
use perpl_dex_sdk.Numbers.{Numbers}
use perpl_dex_sdk.Table.Each.{Each, keys}
use perpl_dex_sdk.OrderBook.Reached.{Reached}
use perpl_dex_sdk.Position.{Position}
use perpl_dex_sdk.Perpetual.{Perpetual}
use perpl_dex_sdk.Perpetual.Funding.{FundingIsSet}
use perpl_dex_sdk.Account.{Account}
use perpl_dex_sdk.Exchange.{Exchange}

-- What the handlers of a block leave: the instant of the state, and the accounts that it lists, unless
-- it tracks all of them.
pub record Frame : Type 0 where
  pub instant : StateInstant
  pub track_all : Bool
  pub listed : List AccountId

module _ (n : Numbers) where
  -- The contract that is tracked as `id`, with a book that the operations of the book have made.
  pub record IsContract (id : PerpetualId) (p : Perpetual n) : Type 0 where
    pub id_is : p.id ≡ id
    pub book_is : Reached ⦃d = n.ud64⦄ p.l3_book
    pub funding_is : FundingIsSet n p

  -- The position of `account` in the tracked contract `id`.
  pub record IsPosition (tracked : List PerpetualId) (account : AccountId) (id : PerpetualId)
      (p : Position n) : Type 0 where
    pub contract_is : p.perpetual_id ≡ id
    pub account_is : p.account_id ≡ account
    pub is_tracked : has id tracked ≡ true

  pub record IsAccount (tracked : List PerpetualId) (id : AccountId) (a : Account n) : Type 0 where
    pub id_is : a.id ≡ id
    pub positions_are : Each (IsPosition tracked id) a.positions

  -- A state that tracks some contracts, in a frame.
  pub record Tracks (tracked : List PerpetualId) (frame : Frame) (e : Exchange n) : Type 0 where
    pub contracts_are : Each IsContract e.perpetuals
    pub tracked_are : keys e.perpetuals ≡ tracked
    pub accounts_are : Each (IsAccount tracked) e.accounts
    pub instant_is : e.instant ≡ frame.instant
    pub track_all_is : e.track_all_accounts ≡ frame.track_all
    pub listed_are : (frame.track_all ≡ true) ⊎ (keys e.accounts ≡ frame.listed)

  abbrev pub frame_of : Exchange n → Frame
  frame_of e = record {
    instant = e.instant;
    track_all = e.track_all_accounts;
    listed = keys e.accounts;
  }

  abbrev pub IsValid : Exchange n → Type 0
  IsValid e = Tracks (keys e.perpetuals) (frame_of e) e

  pub Tracks-IsValid :
      (tracked : List PerpetualId) (frame : Frame) (e : Exchange n)
      → Tracks tracked frame e
      → IsValid e
  Tracks-IsValid tracked frame e t = record {
    contracts_are = t.contracts_are;
    tracked_are = refl;
    accounts_are = subst (λ ks. Each (IsAccount ks) e.accounts) (sym t.tracked_are) t.accounts_are;
    instant_is = refl;
    track_all_is = refl;
    listed_are = inr refl;
  }
