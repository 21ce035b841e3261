-- ===== src/Examples/Blocks.antt =====
-- Blocks on the exchange of one contract and one account.
use perpl_dex_sdk.Prelude.{ℕ, ◌≡◌, refl, Option, none, some, [], ◌∷◌, Result, ok, unwrap_or, inr}
use perpl_dex_sdk.Types.{instant_ge, instant_lt}
use perpl_dex_sdk.Table
use perpl_dex_sdk.DexError.{DexError}
use perpl_dex_sdk.OrderBook.Reached.{fresh, adds}
use perpl_dex_sdk.Account.{update_balance}
use perpl_dex_sdk.Exchange.{Exchange, ensure_account}
use perpl_dex_sdk.Exchange.RawEvents.{ExchangeEvents, RawEvent, RawBlockEvents}
use perpl_dex_sdk.Exchange.Handler.{◌>>=◌, ◌>>◌, pure, gets, modify, convert}
use perpl_dex_sdk.Exchange.Lookup.{account_at, account}
use perpl_dex_sdk.Exchange.OnAccounts.{collateral_moved, on_account, rebalance}
use perpl_dex_sdk.Exchange.Dispatch.{handle, apply_raw_event, next_context}
use perpl_dex_sdk.Exchange.Block.{apply_all, apply_events, reset_context, StateBlockEvents}
use perpl_dex_sdk.Converters.{from_unsigned128}
use perpl_dex_sdk.Exchange.Valid.{IsValid}
use perpl_dex_sdk.Exchange.Instants.{
  Outcome, Holds, apply_events-Outcome, apply_events-Holds, apply_events-again,
}
use perpl_dex_sdk.Examples.Scale.{scale}
use perpl_dex_sdk.Examples.Positions.{at}
use perpl_dex_sdk.Examples.Books.{ask_of}
use perpl_dex_sdk.Examples.Exchanges.{exchange}

-- A deposit to account 7 in block 50.
abbrev deposit : RawEvent scale
deposit = record {
  tx_hash = 9;
  tx_index = 1;
  log_index = 4;
  event = ExchangeEvents.collateral_deposit 7 500;
}

abbrev block : RawBlockEvents scale
block = record { instant = at 50; events = deposit ∷ [] }

pub exchange-IsValid : IsValid scale exchange
exchange-IsValid = record {
  contracts_are = (
    record {
      id_is = refl;
      book_is = adds (ask_of 2 7) (adds (ask_of 1 5) fresh);
      funding_is = record { rate_is = refl; payment_is = refl };
    },
    tt,
  );
  tracked_are = refl;
  accounts_are = (
    record {
      id_is = refl;
      positions_are = (record { contract_is = refl; account_is = refl; is_tracked = refl }, tt);
    },
    tt,
  );
  instant_is = refl;
  track_all_is = refl;
  listed_are = inr refl;
}

abbrev ran : Exchange scale × Result (DexError ℕ ℕ) (Option (StateBlockEvents scale))
ran = unwrap_or (apply_events scale block exchange) (exchange, ok none)

ran_is : apply_events scale {R = ℕ} block exchange ≡ some (ran.0, ran.1)
unfolding apply_events apply_all apply_raw_event reset_context next_context handle collateral_moved
    on_account rebalance account account_at ensure_account ◌>>=◌ ◌>>◌ pure gets modify convert
    from_unsigned128 update_balance Table.get Table.modify instant_ge instant_lt
ran_is = refl

apply_events-Outcome_example : Outcome scale ℕ exchange block ran.0 ran.1
apply_events-Outcome_example =
    apply_events-Outcome scale ℕ block exchange ran.0 ran.1 exchange-IsValid ran_is

apply_events-Holds_example : Holds scale exchange ran.0
apply_events-Holds_example =
    apply_events-Holds scale ℕ block exchange ran.0 ran.1 exchange-IsValid ran_is

abbrev given : Result (DexError ℕ ℕ) (Option (StateBlockEvents scale)) → StateBlockEvents scale
given (ok (some b)) = b
given _ = record { instant = at 0; events = [] }

ran_again : apply_events scale {R = ℕ} block exchange ≡ some (ran.0, ok (some (given ran.1)))
unfolding apply_events apply_all apply_raw_event reset_context next_context handle collateral_moved
    on_account rebalance account account_at ensure_account ◌>>=◌ ◌>>◌ pure gets modify convert
    from_unsigned128 update_balance Table.get Table.modify instant_ge instant_lt
ran_again = refl

apply_events-again_example : apply_events scale {R = ℕ} block ran.0 ≡ some (ran.0, ok none)
apply_events-again_example =
    apply_events-again scale ℕ block exchange ran.0 (given ran.1) exchange-IsValid ran_again
