-- ===== src/BookLevel.antt =====
-- src/state/l3_book/level.rs: a price level with its cached totals. The count is a `u32`, with the
-- wrap-around of a release build.
use perpl_dex_sdk.Prelude.{ℕ, ◌+◌, ◌-◌, ◌%◌, ◌^◌, Bool, Option, none, is_some, not}
use perpl_dex_sdk.Amount.{Amount}
use perpl_dex_sdk.Types.{OrderId}

pub record BookLevel (U : Type 0) : Type 0 where
  pub head : Option OrderId
  pub tail : Option OrderId
  pub cached_size : U
  pub cached_count : ℕ

module _ {U : Type 0} where
  unfoldable pub is_empty : BookLevel U → Bool
  is_empty l = not (is_some l.head)

  unfoldable pub set_head : Option OrderId → BookLevel U → BookLevel U
  set_head head l = record l { head = head }

  unfoldable pub set_tail : Option OrderId → BookLevel U → BookLevel U
  set_tail tail l = record l { tail = tail }

module _ {U : Type 0} ⦃d : Amount U⦄ where
  unfoldable pub new : BookLevel U
  new = record { head = none; tail = none; cached_size = d.zero; cached_count = 0 }

  unfoldable pub add_size : U → BookLevel U → BookLevel U
  add_size size l = record l {
    cached_size = d.add l.cached_size size;
    cached_count = (l.cached_count + 1) % 2 ^ 32;
  }

  unfoldable pub sub_size : U → BookLevel U → BookLevel U
  sub_size size l = record l {
    cached_size = d.sub l.cached_size size;
    cached_count = (l.cached_count + 2 ^ 32 - 1) % 2 ^ 32;
  }

  unfoldable pub update_size : U → U → BookLevel U → BookLevel U
  update_size old_size new_size l = record l {
    cached_size = d.add (d.sub l.cached_size old_size) new_size;
  }
