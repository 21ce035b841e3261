-- ===== src/Fill.antt =====
-- src/fill/types.rs: trades, each one taker order with the maker fills that it matched.
pub mod Listener
pub mod Trades
pub mod Batch
use mathlib.Core.List.{List, []}
use perpl_dex_sdk.Prelude.{ℕ, Bool, Option, none, some, ◌∷◌, map, is_empty, length, if◌then◌else◌}
use perpl_dex_sdk.Amount.{Amount}
use perpl_dex_sdk.Types.{StateInstant, PerpetualId, AccountId, OrderId, OrderSide}
use perpl_dex_sdk.Numbers.{Numbers}

pub record MakerFill (n : Numbers) : Type 0 where
  pub log_index : ℕ
  pub maker_account_id : AccountId
  pub maker_order_id : OrderId
  pub price : n.UD64
  pub size : n.UD64
  pub fee : n.UD64

pub record TakerTrade (n : Numbers) : Type 0 where
  pub tx_hash : n.B256
  pub tx_index : ℕ
  pub perpetual_id : PerpetualId
  pub taker_account_id : AccountId
  pub taker_side : OrderSide
  pub taker_fee : n.UD64
  pub maker_fills : List (MakerFill n)

pub record BlockTrades (n : Numbers) : Type 0 where
  pub instant : StateInstant
  pub trades : List (TakerTrade n)

-- `iter().sum()`: from zero, in the order of the list.
module _ {U : Type 0} ⦃d : Amount U⦄ where
  sum_from : U → List U → U
  sum_from acc [] = acc
  sum_from acc (x ∷ xs) = sum_from (d.add acc x) xs

  unfoldable pub sum : List U → U
  unfolding sum_from
  sum xs = sum_from d.zero xs

module _ (n : Numbers) where
  open n use {UD64, ud64, mul64, div64}

  unfoldable pub total_size : TakerTrade n → UD64
  total_size t = sum ⦃d = ud64⦄ (map (λ f. f.size) t.maker_fills)

  unfoldable pub avg_price : TakerTrade n → Option UD64
  unfolding total_size
  avg_price t =
      if is_empty t.maker_fills
      then none
      else (let total_value = sum ⦃d = ud64⦄ (map (λ f. mul64 f.price f.size) t.maker_fills) in
          let total_size = total_size t in
          if ud64.eq total_size ud64.zero then none else some (div64 total_value total_size))

  unfoldable pub total_maker_fees : TakerTrade n → UD64
  total_maker_fees t = sum ⦃d = ud64⦄ (map (λ f. f.fee) t.maker_fills)

  -- `is_empty` and `len` of a block's trades.
  unfoldable pub has_no_trades : BlockTrades n → Bool
  has_no_trades b = is_empty b.trades

  unfoldable pub len : BlockTrades n → ℕ
  len b = length b.trades
