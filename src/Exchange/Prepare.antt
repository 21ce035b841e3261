-- ===== src/Exchange/Prepare.antt =====
-- src/types/request.rs: an order request of a client, and the descriptor that the contract takes.
use perpl_dex_sdk.Prelude.{
  ℕ, zero, suc, ◌<◌, ◌^◌, ◌≡◌, ◌≢◌, refl, Bool, Option, none, some, unwrap_or, ◌>>=◌,
}
use perpl_dex_sdk.Types.{
  RequestId, PerpetualId, OrderId, AccountId, RequestType, StateInstant, OrderType,
  request_type_code, order_type_of_request, nonzero,
}
use perpl_dex_sdk.Types.Requests.{request_type_from-code}
use perpl_dex_sdk.Numbers.{Numbers, WordLaws}
use perpl_dex_sdk.Table
use perpl_dex_sdk.BookKeys.{by_id}
use perpl_dex_sdk.Converters.{from_unsigned, to_unsigned, to_unsigned128}
use perpl_dex_sdk.Perpetual.{Perpetual, Converter}
use perpl_dex_sdk.StateEvents.{OrderContext}
use perpl_dex_sdk.Exchange.{Exchange}
use perpl_dex_sdk.Exchange.RawEvents
use perpl_dex_sdk.Exchange.Requests.{context_of, placed}

module _ (n : Numbers) where
  open n use {UD64, UD128, U256}

  pub record OrderRequest : Type 0 where
    pub request_id : RequestId
    pub perp_id : PerpetualId
    pub type : RequestType
    pub order_id : Option OrderId
    pub price : UD64
    pub size : UD64
    pub expiry_block : Option ℕ
    pub post_only : Bool
    pub fill_or_kill : Bool
    pub immediate_or_cancel : Bool
    pub max_matches : Option ℕ
    pub leverage : UD64
    pub last_exec_block : Option ℕ
    pub amount : Option UD128

  -- The struct `OrderDesc` of abi/dex/Exchange.json.
  pub record OrderDesc : Type 0 where
    pub order_desc_id : U256
    pub perp_id : U256
    pub order_type : ℕ
    pub order_id : U256
    pub price_pns : U256
    pub lot_lns : U256
    pub expiry_block : U256
    pub post_only : Bool
    pub fill_or_kill : Bool
    pub immediate_or_cancel : Bool
    pub max_matches : U256
    pub leverage_hdths : U256
    pub last_execution_block : U256
    pub amount_cns : U256

  -- `amount.zip(collateral_converter).map(..).unwrap_or_default()`
  unfoldable pub amount_of : Option UD128 → Option Converter → U256
  amount_of none conv = n.zero_U256
  amount_of (some a) none = n.zero_U256
  amount_of (some a) (some conv) = to_unsigned128 n conv a

  unfoldable pub to_order_desc :
      Converter → Converter → Converter → Option Converter → OrderRequest → OrderDesc
  unfolding amount_of
  to_order_desc price_converter size_converter leverage_converter collateral_converter r = record {
    order_desc_id = n.of_u64 r.request_id;
    perp_id = n.of_u64 r.perp_id;
    order_type = request_type_code r.type;
    order_id = n.of_u64 (unwrap_or r.order_id 0);
    price_pns = to_unsigned n price_converter r.price;
    lot_lns = to_unsigned n size_converter r.size;
    expiry_block = n.of_u64 (unwrap_or r.expiry_block 0);
    post_only = r.post_only;
    fill_or_kill = r.fill_or_kill;
    immediate_or_cancel = r.immediate_or_cancel;
    max_matches = n.of_u64 (unwrap_or r.max_matches 0);
    leverage_hdths = to_unsigned n leverage_converter r.leverage;
    last_execution_block = n.of_u64 (unwrap_or r.last_exec_block 0);
    amount_cns = amount_of r.amount collateral_converter;
  }

  -- `none` is the panic of `expect("known perpetual")`.
  unfoldable pub prepare : Exchange n → OrderRequest → Option OrderDesc
  unfolding to_order_desc
  prepare e r = do
    perp ← Table.get by_id r.perp_id e.perpetuals
    some (
        to_order_desc perp.price_converter perp.size_converter perp.leverage_converter
          (some e.collateral_converter) r)

  -- The event `OrderRequest` by which the contract answers a descriptor from an account.
  abbrev pub answer : AccountId → OrderDesc → RawEvents.OrderRequest n
  answer account_id d = record {
    perp_id = d.perp_id;
    account_id = n.of_u64 account_id;
    order_desc_id = d.order_desc_id;
    order_id = d.order_id;
    order_type = d.order_type;
    price_pns = d.price_pns;
    expiry_block = d.expiry_block;
    post_only = d.post_only;
    fill_or_kill = d.fill_or_kill;
    immediate_or_cancel = d.immediate_or_cancel;
    leverage_hdths = d.leverage_hdths;
  }

  same_order_id : (o : Option OrderId) → o ≢ some 0 → nonzero (unwrap_or o 0) ≡ o
  same_order_id none h = refl
  same_order_id (some zero) h = absurd (h refl)
  same_order_id (some (suc m)) h = refl

  -- A request of a tracked contract, whose numbers fit their types and whose price and leverage the
  -- contract's converters can write, is prepared; and when the contract answers it, the order that is
  -- placed with an identifier and a size is the one that was asked for: its request, account, type,
  -- price, leverage, expiry and flags.
  pub prepare-placed :
      (words : WordLaws n) (e : Exchange n) (p : Perpetual n) (r : OrderRequest)
      (account : AccountId) (at : StateInstant) (id : OrderId) (size : UD64) (type : OrderType)
      → Table.get by_id r.perp_id e.perpetuals ≡ some p
      → r.request_id < 2 ^ 64
      → r.perp_id < 2 ^ 32
      → account < 2 ^ 32
      → unwrap_or r.order_id 0 < 2 ^ 16
      → r.order_id ≢ some 0
      → unwrap_or r.expiry_block 0 < 2 ^ 64
      → order_type_of_request r.type ≡ some type
      → from_unsigned n p.price_converter (to_unsigned n p.price_converter r.price) ≡ some r.price
      → from_unsigned n p.leverage_converter (to_unsigned n p.leverage_converter r.leverage)
        ≡ some r.leverage
      → (desc : OrderDesc) × (ctx : OrderContext n) × (prepare e r ≡ some desc)
        × (context_of n (answer account desc) ≡ some ctx)
        × (ctx.perpetual_id ≡ r.perp_id)
        × (ctx.order_id ≡ r.order_id)
        × (placed n at ctx id size p.price_converter p.leverage_converter
            ≡ some (record {
              instant = at;
              request_id = some r.request_id;
              order_id = id;
              type = type;
              account_id = account;
              price = r.price;
              size = size;
              expiry_block = unwrap_or r.expiry_block 0;
              leverage = r.leverage;
              post_only = some r.post_only;
              fill_or_kill = some r.fill_or_kill;
              immediate_or_cancel = some r.immediate_or_cancel;
              prev_order_id = none;
              next_order_id = none;
            }))
  unfolding prepare context_of placed
  prepare-placed words e p r account at id size type tracked rid pid aid oid own exp is price lev =
      (
        to_order_desc p.price_converter p.size_converter p.leverage_converter
            (some e.collateral_converter) r,
        record {
          perpetual_id = r.perp_id;
          account_id = account;
          request_id = r.request_id;
          order_id = nonzero (unwrap_or r.order_id 0);
          type = r.type;
          price = to_unsigned n p.price_converter r.price;
          expiry_block = unwrap_or r.expiry_block 0;
          leverage = to_unsigned n p.leverage_converter r.leverage;
          post_only = r.post_only;
          fill_or_kill = r.fill_or_kill;
          immediate_or_cancel = r.immediate_or_cancel;
        },
        rw tracked refl,
        rw
            (
              words.u32_back r.perp_id pid,
              words.u32_back account aid,
              words.u64_back r.request_id rid,
              words.u16_back (unwrap_or r.order_id 0) oid,
              request_type_from-code r.type,
              words.u64_back (unwrap_or r.expiry_block 0) exp,
            )
            refl,
        refl,
        same_order_id r.order_id own,
        rw (is, price, lev) refl,
      )
