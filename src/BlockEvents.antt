-- ===== src/BlockEvents.antt =====
-- src/types/event.rs: the events of a block, each with the transaction that it stands in.
use perpl_dex_sdk.Prelude.{ℕ, List}
use perpl_dex_sdk.Types.{StateInstant}
use perpl_dex_sdk.Numbers.{Numbers}

pub record BlockEvents {ℓ} (T : Type ℓ) : Type ℓ where
  pub instant : StateInstant
  pub events : List T

pub record EventContext {ℓ} (n : Numbers) (T : Type ℓ) : Type ℓ where
  pub tx_hash : n.B256
  pub tx_index : ℕ
  pub log_index : ℕ
  pub event : T

module _ {ℓ} (n : Numbers) {T : Type ℓ} where
  unfoldable pub empty : T → EventContext n T
  empty event = record { tx_hash = n.zero_b256; tx_index = 0; log_index = 0; event = event }

  unfoldable pub pass {κ} : {O : Type κ} → EventContext n T → O → EventContext n O
  pass c other = record {
    tx_hash = c.tx_hash;
    tx_index = c.tx_index;
    log_index = c.log_index;
    event = other;
  }
