-- ===== src/Exchange/Block.antt =====
-- src/state/exchange.rs: `apply_events`, the events of one block.
use perpl_dex_sdk.Prelude.{
  ℕ, ◌+◌, Option, none, some, map_or, false, List, [], ◌∷◌, ◌++◌, ltb, is_empty, if◌then◌else◌, ok,
  err,
}
use perpl_dex_sdk.Types.{StateInstant, instant_ge}
use perpl_dex_sdk.Numbers.{Numbers}
use perpl_dex_sdk.DexError.{block_out_of_order}
use perpl_dex_sdk.BlockEvents
use perpl_dex_sdk.BlockEvents.{BlockEvents, EventContext}
use perpl_dex_sdk.StateEvents.{StateEvents, OrderContext}
use perpl_dex_sdk.Exchange.{Exchange, commit}
use perpl_dex_sdk.Exchange.RawEvents.{RawEvent, RawBlockEvents}
use perpl_dex_sdk.Exchange.Lookup.{On}
use perpl_dex_sdk.Exchange.Handler.{◌>>=◌, pure}
use perpl_dex_sdk.Exchange.Dispatch.{apply_raw_event}

abbrev pub StateBlockEvents : Numbers → Type 0
StateBlockEvents n = BlockEvents (EventContext n (List (StateEvents n)))

module _ (n : Numbers) where
  -- `order_context.take()` at the boundary of a transaction.
  unfoldable pub reset_context : Option ℕ → ℕ → Option (OrderContext n) → Option (OrderContext n)
  reset_context prev_tx_index tx_index ctx =
      if map_or false (λ idx. ltb idx tx_index) prev_tx_index then none else ctx

module _ (n : Numbers) {R : Type 0} where
  -- The loop over the events of the block, with the events of the state that it produces.
  unfoldable pub apply_all :
      StateInstant
      → List (RawEvent n)
      → Option ℕ
      → Option (OrderContext n)
      → On n R (Exchange n) (List (EventContext n (List (StateEvents n))))
  unfolding apply_raw_event reset_context
  apply_all instant [] prev_tx_index ctx e = some (e, ok [])
  apply_all instant (event ∷ events) prev_tx_index ctx e =
      elim (apply_raw_event n {R = R} instant event
        (reset_context n prev_tx_index event.tx_index ctx) e) [
          | none ↦ none
          | some (outcome, ctx') ↦ elim outcome.1 [
            | err error ↦ some (outcome.0, err error)
            | ok result ↦
                (do
                  rest ← apply_all instant events (some event.tx_index) ctx'
                  pure (if is_empty result then rest else BlockEvents.pass n event result ∷ rest))
                  outcome.0
          ]
        ]

  unfoldable pub apply_events : RawBlockEvents n → On n R (Exchange n) (Option (StateBlockEvents n))
  unfolding apply_all
  apply_events block e =
      if instant_ge e.instant block.instant
      then some (e, ok none)
      else if ltb (e.instant.block_number + 1) block.instant.block_number
      then some
          (e, err (block_out_of_order (e.instant.block_number + 1) block.instant.block_number))
      else (do
        state_events ← apply_all block.instant block.events none none
        committed ← λ e. let (e', events) = commit n block.instant e in some (e', ok events)
        pure (some (record { instant = block.instant; events = state_events ++ committed })))
          e
