-- ===== src/Sdk.antt =====
-- What the chain's modules take from the Cosmos SDK and `cosmossdk.io/math`, none of which is in
-- this repository: the operations are fields of `Sdk`, and the documented behaviour that the
-- theorems rely on is stated in the records of laws. `math.Int` is an integer, and a
-- `math.LegacyDec` is the integer that it stores, a multiple of 10^-18; so sums, differences and
-- comparisons of decimals are those of integers, and products and quotients, which round, are
-- fields.
pub mod Model
use vertix.Base.{
  ℕ, suc, ◌+◌, ◌-◌, ◌*◌, ◌/◌, ◌≤◌, ◌≡◌, ◌≢◌, Bool, true, Option, none, some, List, [], ◌∷◌,
  if◌then◌else◌, ltb, length, ◌<◌,
}
use vertix.Base.Bytes.{Bytes, beq, text}
use vertix.Base.Int.{ℤ, pos, negsuc}

pub record Coin : Type 0 where
  pub denom : Bytes
  pub amount : ℕ

abbrev pub Coins : Type 0
Coins = List Coin

-- `coins.AmountOf(denom)`
abbrev pub amount_of : Bytes → Coins → ℕ
amount_of d [] = 0
amount_of d (c ∷ cs) = (if beq d c.denom then c.amount else 0) + amount_of d cs

-- `sdk.NewCoins(sdk.NewCoin(denom, amount))`: a negative amount panics (`none`), and a zero coin
-- is left out. That a malformed denom panics is not modelled: the denoms are a constant and
-- those built from a slug, which are well-formed.
abbrev pub new_coins : Bytes → ℤ → Option Coins
new_coins d (pos n) = if ltb 0 n then some (record { denom = d; amount = n } ∷ []) else some []
new_coins d (negsuc n) = none

-- What can be seen of the bank: the balance of an address in a denom, and the supply of a denom.
pub record Bank : Type 0 where
  pub balance : Bytes → Bytes → ℕ
  pub supply : Bytes → ℕ

-- A send restriction: from, to and the coins; the recipient to use, or an error.
abbrev pub Hook : Type 0
Hook = Bytes → Bytes → Coins → Option Bytes

-- `math.LegacyOneDec()`
abbrev pub one_dec : ℕ
one_dec = 1_000_000_000_000_000_000

-- `math.LegacyNewDecFromInt` and `math.LegacyNewDec`
abbrev pub dec_from_int : ℤ → ℤ
dec_from_int (pos n) = pos (n * one_dec)
dec_from_int (negsuc n) = negsuc (suc n * one_dec - 1)

abbrev pub fee_collector_name : Bytes
fee_collector_name = text "fee_collector"

abbrev pub distribution_name : Bytes
distribution_name = text "distribution"

pub record Sdk : Type 0 where
  -- `math.LegacyNewDecFromStr`, `String`, `Mul`, `Quo`, `TruncateInt`
  pub parse_dec : Bytes → Option ℤ
  pub print_dec : ℤ → Bytes
  pub mul_dec : ℤ → ℤ → ℤ
  pub quo_dec : ℤ → ℤ → ℤ
  -- Does a quotient fit a decimal, so that `Quo` does not panic with "Int overflow"?
  pub quo_fits : ℤ → ℤ → Bool
  pub truncate_dec : ℤ → ℤ
  -- `math.NewIntFromString` and `String`
  pub parse_int : Bytes → Option ℤ
  pub print_int : ℤ → Bytes
  -- `sdk.AccAddressFromBech32`, `sdk.ValAddressFromBech32` and the `String` methods
  pub acc_address : Bytes → Option Bytes
  pub acc_string : Bytes → Bytes
  pub val_address : Bytes → Option Bytes
  pub val_string : Bytes → Bytes
  -- `address.MustLengthPrefix`, which panics on an address of more than 255 bytes
  pub length_prefix : Bytes → Option Bytes
  -- `authtypes.NewModuleAddress`
  pub module_address : Bytes → Bytes
  -- the bank keeper; the restriction is the one that the application has registered
  pub send_coins : Hook → Bank → Bytes → Bytes → Coins → Option Bank
  pub account_to_module : Hook → Bank → Bytes → Bytes → Coins → Option Bank
  pub module_to_account : Hook → Bank → Bytes → Bytes → Coins → Option Bank
  pub module_to_module : Hook → Bank → Bytes → Bytes → Coins → Option Bank
  pub mint_coins : Bank → Bytes → Coins → Option Bank
  pub burn_coins : Bank → Bytes → Coins → Option Bank
  -- `distrKeeper.FundCommunityPool(coins, sender)`
  pub fund_community_pool : Hook → Bank → Coins → Bytes → Option Bank

-- A product with a whole number is exact, and truncation drops the fraction.
pub record DecimalLaws (sdk : Sdk) : Type 0 where
  pub parse-print : (d : ℤ) → sdk.parse_dec (sdk.print_dec d) ≡ some d
  pub mul_whole : (n r : ℕ) → sdk.mul_dec (pos (n * one_dec)) (pos r) ≡ pos (n * r)
  pub truncate_pos : (m : ℕ) → sdk.truncate_dec (pos m) ≡ pos (m / one_dec)

-- A product with a whole number of units is exact on either side, and a quotient is rounded to a
-- neighbour, so it does not leave bounds that the exact quotient keeps.
pub record AverageLaws (sdk : Sdk) : Type 0 where
  pub mul_by_whole : (p w : ℕ) → sdk.mul_dec (pos p) (pos (w * one_dec)) ≡ pos (p * w)
  pub quo_between :
      (x y lo hi : ℕ)
      → 0 < y
      → lo * y ≤ x * one_dec
      → x * one_dec ≤ hi * y
      → (q : ℕ) × (sdk.quo_dec (pos x) (pos y) ≡ pos q) × (lo ≤ q) × (q ≤ hi)

-- 2^315 - 1: a decimal has at most 315 bits.
abbrev pub dec_max : ℕ
dec_max =
    66749594872528440074844428317798503581334516323645399060845050244444366430645017188217565216767

-- A quotient that is not above the greatest decimal fits.
pub record QuotientLaws (sdk : Sdk) : Type 0 where
  pub fits_below :
      (a b : ℕ) → 0 < b → a * one_dec ≤ dec_max * b → sdk.quo_fits (pos a) (pos b) ≡ true

pub record IntLaws (sdk : Sdk) : Type 0 where
  pub parse-print : (n : ℤ) → sdk.parse_int (sdk.print_int n) ≡ some n

-- `sdk.VerifyAddressFormat`: an address has 1 to 255 bytes.
abbrev pub IsAddress : Bytes → Type 0
IsAddress a = (a ≢ []) × (length a < 256)

-- An address is parsed back from its bech32 form, and a length prefix is one byte.
pub record AddressLaws (sdk : Sdk) : Type 0 where
  pub acc_round : (a : Bytes) → IsAddress a → sdk.acc_address (sdk.acc_string a) ≡ some a
  pub val_round : (a : Bytes) → IsAddress a → sdk.val_address (sdk.val_string a) ≡ some a
  pub prefix_short : (a : Bytes) → length a < 256 → sdk.length_prefix a ≡ some (length a ∷ a)
  pub prefix_inv :
      (a p : Bytes) → sdk.length_prefix a ≡ some p → (length a < 256) × (p ≡ length a ∷ a)

-- Coins have moved from one address to another, which may be the same.
pub record Moved (b : Bank) (from to : Bytes) (coins : Coins) (b' : Bank) : Type 0 where
  pub supply_kept : (d : Bytes) → b'.supply d ≡ b.supply d
  pub debited : (d : Bytes) → from ≢ to → b'.balance from d + amount_of d coins ≡ b.balance from d
  pub credited : (d : Bytes) → from ≢ to → b'.balance to d ≡ b.balance to d + amount_of d coins
  pub self_kept : (d : Bytes) → from ≡ to → b'.balance from d ≡ b.balance from d
  pub others_kept : (a d : Bytes) → a ≢ from → a ≢ to → b'.balance a d ≡ b.balance a d

-- Coins have come into being at an address.
pub record Created (b : Bank) (owner : Bytes) (coins : Coins) (b' : Bank) : Type 0 where
  pub supply_up : (d : Bytes) → b'.supply d ≡ b.supply d + amount_of d coins
  pub owner_up : (d : Bytes) → b'.balance owner d ≡ b.balance owner d + amount_of d coins
  pub others_kept : (a d : Bytes) → a ≢ owner → b'.balance a d ≡ b.balance a d

-- Coins of an address have been destroyed.
pub record Destroyed (b : Bank) (owner : Bytes) (coins : Coins) (b' : Bank) : Type 0 where
  pub supply_down : (d : Bytes) → b'.supply d + amount_of d coins ≡ b.supply d
  pub owner_down : (d : Bytes) → b'.balance owner d + amount_of d coins ≡ b.balance owner d
  pub others_kept : (a d : Bytes) → a ≢ owner → b'.balance a d ≡ b.balance a d

-- A restriction that lets coins through, to the address that was asked for.
abbrev pub PassesTo : Hook → Bytes → Bytes → Coins → Type 0
PassesTo hook from to coins = hook from to coins ≡ some to

-- Every send goes through the restriction: it has passed if the send has succeeded, and the
-- coins have gone to the recipient that it returned.
abbrev pub Sent : Hook → Bank → Bytes → Bytes → Coins → Bank → Type 0
Sent hook b from to coins b' =
    (to' : Bytes) × (hook from to coins ≡ some to') × Moved b from to' coins b'

pub record BankLaws (sdk : Sdk) : Type 0 where
  pub send :
      (h : Hook) (b : Bank) (from to : Bytes) (cs : Coins) (b' : Bank)
      → sdk.send_coins h b from to cs ≡ some b'
      → Sent h b from to cs b'
  pub to_module :
      (h : Hook) (b : Bank) (from name : Bytes) (cs : Coins) (b' : Bank)
      → sdk.account_to_module h b from name cs ≡ some b'
      → Sent h b from (sdk.module_address name) cs b'
  pub from_module :
      (h : Hook) (b : Bank) (name to : Bytes) (cs : Coins) (b' : Bank)
      → sdk.module_to_account h b name to cs ≡ some b'
      → Sent h b (sdk.module_address name) to cs b'
  pub between_modules :
      (h : Hook) (b : Bank) (from to : Bytes) (cs : Coins) (b' : Bank)
      → sdk.module_to_module h b from to cs ≡ some b'
      → Sent h b (sdk.module_address from) (sdk.module_address to) cs b'
  pub mint :
      (b : Bank) (name : Bytes) (cs : Coins) (b' : Bank)
      → sdk.mint_coins b name cs ≡ some b'
      → Created b (sdk.module_address name) cs b'
  pub burn :
      (b : Bank) (name : Bytes) (cs : Coins) (b' : Bank)
      → sdk.burn_coins b name cs ≡ some b'
      → Destroyed b (sdk.module_address name) cs b'
  pub fund :
      (h : Hook) (b : Bank) (cs : Coins) (from : Bytes) (b' : Bank)
      → sdk.fund_community_pool h b cs from ≡ some b'
      → Sent h b from (sdk.module_address distribution_name) cs b'
