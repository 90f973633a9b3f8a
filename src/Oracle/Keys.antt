-- ===== src/Oracle/Keys.antt =====
-- x/oracle/types/keys.go. The keys of the prices, counters and delegations are a prefix and then
-- the pair or the address, to the end.
pub mod Parsing
use vertix.Base.{
  ℕ, zero, suc, ◌+◌, ◌-◌, Bool, true, false, not, ◌||◌, Option, none, some, List, [], ◌∷◌, ◌++◌,
  length, take, drop, ltb, leb, ◌==◌, ◌/◌, ◌%◌, if◌then◌else◌,
}
use vertix.Base.Bytes.{Bytes}
use vertix.Base.Int.{ℤ, pos, negsuc, ◌-ℤ◌}
use vertix.Base.Int64.{wrap64, limit_64}
use vertix.Sdk.{Sdk}

module _ (sdk : Sdk) where
  -- `none` is a panic.
  abbrev pub feed_key : Bytes → Bytes → Option Bytes
  feed_key val pair = elim (sdk.length_prefix val) [
    | none ↦ none
    | some p ↦ some ((1 ∷ p) ++ b'/' ∷ pair)
  ]

-- The rest of a feed key, once the validator has been cut off.
unfoldable pub parse_pair : Bytes → Bytes → Option (Bytes × Bytes)
parse_pair val [] = none
parse_pair val (c ∷ pair) = if c == b'/' then some (val, pair) else none

-- The validator, whose length the first byte says.
unfoldable pub parse_validator : Bytes → Option (Bytes × Bytes)
unfolding parse_pair
parse_validator [] = none
parse_validator (n ∷ rest) =
    if ltb (length rest) n then none else parse_pair (take n rest) (drop n rest)

-- `ParseFeedKey`
unfoldable pub parse_feed_key : Bytes → Option (Bytes × Bytes)
unfolding parse_validator
parse_feed_key [] = none
parse_feed_key (k ∷ rest) =
    if ltb (length rest) 2 || not (k == 1) then none else parse_validator rest

abbrev pub aggregated_price_key : Bytes → Bytes
aggregated_price_key pair = 2 ∷ pair

abbrev pub miss_counter_key : Bytes → Bytes
miss_counter_key val = 4 ∷ val

abbrev pub total_windows_key : Bytes → Bytes
total_windows_key val = 5 ∷ val

abbrev pub feeder_to_valoper_key : Bytes → Bytes
feeder_to_valoper_key feeder = 7 ∷ feeder

abbrev pub valoper_to_feeder_key : Bytes → Bytes
valoper_to_feeder_key val = 8 ∷ val

-- `binary.BigEndian.PutUint64`
abbrev pub big_endian : ℕ → ℕ → Bytes → Bytes
big_endian zero n tail = tail
big_endian (suc k) n tail = big_endian k (n / 256) (n % 256 ∷ tail)

-- `uint64(ts.UnixNano())`: the nanoseconds since 1970, in 64 bits.
abbrev pub low_64 : ℤ → ℕ
low_64 (pos n) = n % limit_64
low_64 (negsuc n) = limit_64 - 1 - n % limit_64

unfoldable pub unix_nano : ℕ → ℕ
unix_nano t = low_64 (pos t -ℤ pos 62_135_596_800_000_000_000)

abbrev pub twap_prefix : Bytes → Bytes
twap_prefix pair = (3 ∷ pair) ++ b'/' ∷ []

abbrev pub twap_key : Bytes → ℕ → Bytes
twap_key pair t = (3 ∷ pair) ++ b'/' ∷ big_endian 8 (unix_nano t) []
