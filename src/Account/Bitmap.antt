-- ===== src/Account/Bitmap.antt =====
-- `perpetuals_with_position`: the perpetuals that a `PositionBitMap` names, in four banks of bits.
-- A bank is a 256-bit integer of the crate `alloy`, read as the number of its value.
use perpl_dex_sdk.Prelude.{
  ℕ, zero, suc, ◌+◌, ◌-◌, ◌/◌, ◌%◌, ◌^◌, ◌≤◌, ◌<◌, ◌≡◌, Bool, false, ◌&&◌, ◌||◌, List, [], ◌∷◌,
  ◌++◌, arith, ◌==◌, ltb, leb, if◌then◌else◌, has, has-append, ==_iff, ◌⊎◌, Bool-cases, inl, inr,
  ap,
}
use perpl_dex_sdk.Types.{PerpetualId}

pub record PositionBitMap : Type 0 where
  pub bank1 : ℕ
  pub bank2 : ℕ
  pub bank3 : ℕ
  pub bank4 : ℕ

-- `bank.bit(i)`
unfoldable pub bit : ℕ → ℕ → Bool
bit bank i = (bank / 2 ^ i) % 2 == 1

-- `count_ones`, of the bits from `i` on, `m` of them.
unfoldable pub count_ones : ℕ → ℕ → ℕ → ℕ
count_ones bank i zero = 0
count_ones bank i (suc m) = (if bit bank i then 1 else 0) + count_ones bank (suc i) m

-- `range.filter_map(..)` of a bank, for the bits from `i` on, `m` of them.
unfoldable pub bank_perpetuals : ℕ → ℕ → ℕ → ℕ → List PerpetualId
bank_perpetuals offs bank i zero = []
bank_perpetuals offs bank i (suc m) =
    let rest = bank_perpetuals offs bank (suc i) m in if bit bank i then (offs + i) ∷ rest else rest

-- A bank behind `filter(|(.., count)| *count > 0)`.
unfoldable pub filtered_bank : ℕ → ℕ → ℕ → List PerpetualId
filtered_bank offs range bank =
    if ltb 0 (count_ones bank 0 256) then bank_perpetuals offs bank 0 range else []

unfoldable pub perpetuals_with_position : PositionBitMap → List PerpetualId
perpetuals_with_position bitmap =
    filtered_bank 0 253 bitmap.bank1
    ++ filtered_bank 253 256 bitmap.bank2
    ++ filtered_bank 509 256 bitmap.bank3
    ++ filtered_bank 765 256 bitmap.bank4

-- The bit of a perpetual.
abbrev pub bit_of : PositionBitMap → PerpetualId → Bool
bit_of bitmap p =
    if ltb p 253
    then bit bitmap.bank1 p
    else if ltb p 509
    then bit bitmap.bank2 (p - 253)
    else if ltb p 765
    then bit bitmap.bank3 (p - 509)
    else if ltb p 1021
    then bit bitmap.bank4 (p - 765)
    else false

has-bank_perpetuals :
    (offs bank i m p : ℕ)
    → has p (bank_perpetuals offs bank i m)
      ≡ (leb (offs + i) p && ltb p (offs + i + m) && bit bank (p - offs))
unfolding bank_perpetuals
has-bank_perpetuals offs bank i zero p = ground arith
has-bank_perpetuals offs bank i (suc m) p = elim (Bool-cases (offs + i == p)) [
  | inl e ↦
      let at : p - offs ≡ i = ground arith in
      ground (arith, has-bank_perpetuals offs bank (suc i) m p, ap (bit bank) at)
  | inr e ↦ ground (arith, has-bank_perpetuals offs bank (suc i) m p)
]

-- A bank without ones has no bit.
no_ones : (bank i m j : ℕ) → count_ones bank i m ≡ 0 → i ≤ j → j < i + m → bit bank j ≡ false
unfolding count_ones
no_ones bank i zero j none h k = absurd (omega arith)
no_ones bank i (suc m) j none h k = elim (Bool-cases (i == j)) [
  | inl e ↦ let at : i ≡ j = (==_iff i j).0 e in ground (arith, ap (bit bank) at)
  | inr e ↦ no_ones bank (suc i) m j (ground arith) (ground arith) (ground arith)
]

silent :
    (offs range p : ℕ) (x : Bool)
    → range ≤ 256
    → (x ≡ false) ⊎ ((leb offs p && ltb p (offs + range)) ≡ false)
    → false ≡ (leb offs p && ltb p (offs + range) && x)
silent offs range p x small h = ground arith

has-filtered_bank :
    (offs range bank p : ℕ)
    → range ≤ 256
    → has p (filtered_bank offs range bank)
      ≡ (leb offs p && ltb p (offs + range) && bit bank (p - offs))
unfolding filtered_bank
has-filtered_bank offs range bank p small = elim (Bool-cases (ltb 0 (count_ones bank 0 256))) [
  | inl some_ones ↦ rw some_ones (ground (arith, has-bank_perpetuals offs bank 0 range p))
  | inr none ↦ rw none (
      silent offs range p (bit bank (p - offs)) small
        (elim (Bool-cases (leb offs p && ltb p (offs + range))) [
          | inl inside ↦
              inl (no_ones bank 0 256 (p - offs) (ground arith) (omega arith) (ground arith))
          | inr outside ↦ inr outside
        ]))
]

assembled :
    (p : ℕ) (x1 x2 x3 x4 : Bool)
    → ((leb 0 p && ltb p 253 && x1)
        || (leb 253 p && ltb p 509 && x2)
        || (leb 509 p && ltb p 765 && x3)
        || (leb 765 p && ltb p 1021 && x4))
      ≡ (if ltb p 253
          then x1
          else if ltb p 509
          then x2
          else if ltb p 765
          then x3
          else if ltb p 1021
          then x4
          else false)
assembled p x1 x2 x3 x4 = ground arith

-- The list names a perpetual exactly when its bit is set: the perpetuals up to 252 in the first bank,
-- whose last three bits count for nothing, and 256 more in each of the others.
pub has-perpetuals_with_position :
    (bitmap : PositionBitMap) (p : PerpetualId)
    → has p (perpetuals_with_position bitmap) ≡ bit_of bitmap p
unfolding perpetuals_with_position
has-perpetuals_with_position bitmap p =
    let b1 = filtered_bank 0 253 bitmap.bank1 in
    let b2 = filtered_bank 253 256 bitmap.bank2 in
    let b3 = filtered_bank 509 256 bitmap.bank3 in
    let b4 = filtered_bank 765 256 bitmap.bank4 in
    let from_zero : p - 0 ≡ p = omega arith in
    rw
      (
        has-append p (b1 ++ b2 ++ b3) b4,
        has-append p (b1 ++ b2) b3,
        has-append p b1 b2,
        has-filtered_bank 0 253 bitmap.bank1 p (omega arith),
        has-filtered_bank 253 256 bitmap.bank2 p (omega arith),
        has-filtered_bank 509 256 bitmap.bank3 p (omega arith),
        has-filtered_bank 765 256 bitmap.bank4 p (omega arith),
        from_zero,
      )
      (assembled p (bit bitmap.bank1 p) (bit bitmap.bank2 (p - 253)) (bit bitmap.bank3 (p - 509))
        (bit bitmap.bank4 (p - 765)))
