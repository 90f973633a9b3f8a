-- ===== src/Sdk/Model.antt =====
-- A small SDK in which every operation of `Sdk` is a concrete function. It is no copy of the real
-- one: it shows that the laws can be met together, and it runs the examples.
use vertix.Base.{
  ℕ, ◌+◌, ◌-◌, ◌*◌, ◌/◌, ◌≤◌, ◌<◌, ◌≡◌, refl, ◌≢◌, Bool, true, ◌&&◌, Option, none, some, [], ◌∷◌,
  if◌then◌else◌, leb, ltb, length, ◌==◌, arith, inl, inr, Option-cases, ◌⊎◌,
}
use vertix.Base.Bytes.{Bytes, beq, beq_iff}
use vertix.Base.Int.{ℤ, pos, negsuc}
use package.vertix.Sdk.{
  Coins, Bank, Hook, Sdk, amount_of, one_dec, distribution_name, DecimalLaws, AverageLaws,
  QuotientLaws, dec_max, IntLaws, AddressLaws, IsAddress, BankLaws, Moved, Created, Destroyed, Sent,
}

-- Numbers are written as a sign and one digit of any size.
abbrev print : ℤ → Bytes
print (pos n) = b'+' ∷ n ∷ []
print (negsuc n) = b'-' ∷ n ∷ []

abbrev parse : Bytes → Option ℤ
parse (s ∷ n ∷ []) = if s == b'+' then some (pos n) else if s == b'-' then some (negsuc n) else none
parse _ = none

-- An address is written as it is.
abbrev address : Bytes → Option Bytes
address [] = none
address (x ∷ a) = some (x ∷ a)

abbrev mul : ℤ → ℤ → ℤ
mul (pos a) (pos b) = pos (a * b / one_dec)
mul _ _ = pos 0

abbrev quo : ℤ → ℤ → ℤ
quo (pos a) (pos b) = pos (a * one_dec / b)
quo _ _ = pos 0

abbrev fits : ℤ → ℤ → Bool
fits (pos a) (pos b) = leb (a * one_dec) (dec_max * b)
fits _ _ = true

abbrev truncate : ℤ → ℤ
truncate (pos a) = pos (a / one_dec)
truncate (negsuc a) = pos 0

-- One byte for the length, and then the address.
abbrev prefixed : Bytes → Option Bytes
prefixed a = if ltb (length a) 256 then some (length a ∷ a) else none

-- Module accounts have addresses that no key controls.
abbrev module_address : Bytes → Bytes
module_address name = 0 ∷ name

covers : Bank → Bytes → Coins → Coins → Bool
covers b a whole [] = true
covers b a whole (c ∷ cs) =
    leb (amount_of c.denom whole) (b.balance a c.denom) && covers b a whole cs

debit : Bytes → Coins → Bank → Bank
debit a cs b = record b {
  balance = λ x d. if beq x a then b.balance x d - amount_of d cs else b.balance x d;
}

credit : Bytes → Coins → Bank → Bank
credit a cs b = record b {
  balance = λ x d. if beq x a then b.balance x d + amount_of d cs else b.balance x d;
}

move : Bytes → Bytes → Coins → Bank → Option Bank
unfolding debit credit covers
move from to cs b = if covers b from cs cs then some (credit to cs (debit from cs b)) else none

abbrev send : Hook → Bank → Bytes → Bytes → Coins → Option Bank
send h b from to cs = elim (h from to cs) [ none ↦ none | some to' ↦ move from to' cs b ]

minted : Bytes → Coins → Bank → Bank
unfolding credit
minted name cs b = record (credit (module_address name) cs b) {
  supply = λ d. b.supply d + amount_of d cs;
}

mint : Bank → Bytes → Coins → Option Bank
unfolding minted
mint b name cs = some (minted name cs b)

covers_supply : Bank → Coins → Coins → Bool
covers_supply b whole [] = true
covers_supply b whole (c ∷ cs) =
    leb (amount_of c.denom whole) (b.supply c.denom) && covers_supply b whole cs

burn : Bank → Bytes → Coins → Option Bank
unfolding debit covers covers_supply
burn b name cs =
    if covers b (module_address name) cs cs && covers_supply b cs cs
    then some
        (record (debit (module_address name) cs b) { supply = λ d. b.supply d - amount_of d cs })
    else none

-- The SDK of the examples.
unfoldable pub sample_sdk : Sdk
unfolding move mint burn
sample_sdk = record {
  parse_dec = parse;
  print_dec = print;
  mul_dec = mul;
  quo_dec = quo;
  quo_fits = fits;
  truncate_dec = truncate;
  parse_int = parse;
  print_int = print;
  acc_address = address;
  acc_string = λ a. a;
  val_address = address;
  val_string = λ a. a;
  length_prefix = prefixed;
  module_address = module_address;
  send_coins = send;
  account_to_module = λ h b from name cs. send h b from (module_address name) cs;
  module_to_account = λ h b name to cs. send h b (module_address name) to cs;
  module_to_module = λ h b from to cs. send h b (module_address from) (module_address to) cs;
  mint_coins = mint;
  burn_coins = burn;
  fund_community_pool = λ h b cs from. send h b from (module_address distribution_name) cs;
}

parse-print : (d : ℤ) → parse (print d) ≡ some d
parse-print (pos n) = refl
parse-print (negsuc n) = refl

mul_whole : (n r : ℕ) → mul (pos (n * one_dec)) (pos r) ≡ pos (n * r)
mul_whole n r = ground arith

pub sample-DecimalLaws : DecimalLaws sample_sdk
unfolding sample_sdk
sample-DecimalLaws = record {
  parse-print = parse-print;
  mul_whole = mul_whole;
  truncate_pos = λ m. refl;
}

mul_by_whole : (p w : ℕ) → mul (pos p) (pos (w * one_dec)) ≡ pos (p * w)
mul_by_whole p w = ground arith

quo_between :
    (x y lo hi : ℕ)
    → 0 < y
    → lo * y ≤ x * one_dec
    → x * one_dec ≤ hi * y
    → (q : ℕ) × (quo (pos x) (pos y) ≡ pos q) × (lo ≤ q) × (q ≤ hi)
quo_between x y lo hi some_y low high = (x * one_dec / y, refl, grind arith, grind arith)

pub sample-AverageLaws : AverageLaws sample_sdk
unfolding sample_sdk
sample-AverageLaws = record { mul_by_whole = mul_by_whole; quo_between = quo_between }

pub sample-QuotientLaws : QuotientLaws sample_sdk
unfolding sample_sdk
sample-QuotientLaws = record { fits_below = λ a b some_b h. ground (arith, h) }

pub sample-IntLaws : IntLaws sample_sdk
unfolding sample_sdk
sample-IntLaws = record { parse-print = parse-print }

address_round : (a : Bytes) → IsAddress a → address a ≡ some a
address_round [] h = absurd (h.0 refl)
address_round (x ∷ a) h = refl

pub sample-AddressLaws : AddressLaws sample_sdk
unfolding sample_sdk
sample-AddressLaws = record {
  acc_round = address_round;
  val_round = address_round;
  prefix_short = λ a h. ground arith;
  prefix_inv = λ a p h. ground arith;
}

covers-le :
    (b : Bank) (a : Bytes) (whole cs : Coins) (d : Bytes)
    → covers b a whole cs ≡ true
    → (amount_of d cs ≡ 0) ⊎ (amount_of d whole ≤ b.balance a d)
unfolding covers
covers-le b a whole [] d h = inl refl
covers-le b a whole (c ∷ cs) d h = grind (arith, covers-le b a whole cs d, beq_iff d c.denom)

covers_supply-le :
    (b : Bank) (whole cs : Coins) (d : Bytes)
    → covers_supply b whole cs ≡ true
    → (amount_of d cs ≡ 0) ⊎ (amount_of d whole ≤ b.supply d)
unfolding covers_supply
covers_supply-le b whole [] d h = inl refl
covers_supply-le b whole (c ∷ cs) d h =
    grind (arith, covers_supply-le b whole cs d, beq_iff d c.denom)

covers_all :
    (b : Bank) (a : Bytes) (cs : Coins) (d : Bytes)
    → covers b a cs cs ≡ true
    → amount_of d cs ≤ b.balance a d
covers_all b a cs d h = grind (arith, covers-le b a cs cs d h)

covers_supply_all :
    (b : Bank) (cs : Coins) (d : Bytes) → covers_supply b cs cs ≡ true → amount_of d cs ≤ b.supply d
covers_supply_all b cs d h = grind (arith, covers_supply-le b cs cs d h)

moved_balance :
    (from to : Bytes) (cs : Coins) (b : Bank) (a d : Bytes)
    → (credit to cs (debit from cs b)).balance a d ≡ (
        let base = (if beq a from then b.balance a d - amount_of d cs else b.balance a d) in
        if beq a to then base + amount_of d cs else base)
unfolding credit debit
moved_balance from to cs b a d = refl

move-Moved :
    (from to : Bytes) (cs : Coins) (b b' : Bank)
    → covers b from cs cs ≡ true
    → credit to cs (debit from cs b) ≡ b'
    → Moved b from to cs b'
unfolding credit debit
move-Moved from to cs b b' h e = rw (← e) (record {
  supply_kept = λ d. refl;
  debited = λ d ne. ground (arith, covers_all b from cs d h, beq_iff from from, beq_iff from to);
  credited = λ d ne. ground (arith, beq_iff to to, beq_iff to from);
  self_kept =
      λ d same. ground (arith, covers_all b from cs d h, beq_iff from from, beq_iff from to);
  others_kept = λ a d nf nt. ground (arith, beq_iff a from, beq_iff a to);
})

send-Sent :
    (h : Hook) (b : Bank) (from to : Bytes) (cs : Coins) (b' : Bank)
    → send h b from to cs ≡ some b'
    → Sent h b from to cs b'
unfolding move
send-Sent h b from to cs b' e = elim (Option-cases (h from to cs)) [
  | inl refused ↦ absurd (ground arith)
  | inr (to', passed) ↦ (to', passed, move-Moved from to' cs b b' (ground arith) (ground arith))
]

mint-Created :
    (b : Bank) (name : Bytes) (cs : Coins) (b' : Bank)
    → mint b name cs ≡ some b'
    → Created b (module_address name) cs b'
unfolding mint minted credit
mint-Created b name cs b' e =
    let same : minted name cs b ≡ b' = cc in
    rw (← same) (record {
      supply_up = λ d. refl;
      owner_up = λ d. ground (arith, beq_iff (module_address name) (module_address name));
      others_kept = λ a d ne. ground (arith, beq_iff a (module_address name));
    })

burnt : Bytes → Coins → Bank → Bank
unfolding debit
burnt name cs b = record (debit (module_address name) cs b) {
  supply = λ d. b.supply d - amount_of d cs;
}

burn-Destroyed :
    (b : Bank) (name : Bytes) (cs : Coins) (b' : Bank)
    → (covers b (module_address name) cs cs && covers_supply b cs cs) ≡ true
    → burnt name cs b ≡ b'
    → Destroyed b (module_address name) cs b'
unfolding burnt debit
burn-Destroyed b name cs b' h e = rw (← e) (record {
  supply_down = λ d. ground (arith, covers_supply_all b cs d);
  owner_down = λ d. ground (
    arith,
    covers_all b (module_address name) cs d,
    beq_iff (module_address name) (module_address name),
  );
  others_kept = λ a d ne. ground (arith, beq_iff a (module_address name));
})

burn_lem :
    (b : Bank) (name : Bytes) (cs : Coins) (b' : Bank)
    → burn b name cs ≡ some b'
    → Destroyed b (module_address name) cs b'
unfolding burn burnt
burn_lem b name cs b' e = burn-Destroyed b name cs b' (ground arith) (ground arith)

pub sample-BankLaws : BankLaws sample_sdk
unfolding sample_sdk
sample-BankLaws = record {
  send = send-Sent;
  to_module = λ h b from name cs. send-Sent h b from (module_address name) cs;
  from_module = λ h b name to cs. send-Sent h b (module_address name) to cs;
  between_modules = λ h b from to cs. send-Sent h b (module_address from) (module_address to) cs;
  mint = mint-Created;
  burn = burn_lem;
  fund = λ h b cs from. send-Sent h b from (module_address distribution_name) cs;
}

-- A restriction that lets everything through.
unfoldable pub pass : Hook
pass from to cs = some to

pub sample_moves :
    (b : Bank) (from to d : Bytes) (n : ℕ)
    → n ≤ b.balance (0 ∷ from) d
    → sample_sdk.module_to_module pass b from to (record { denom = d; amount = n } ∷ []) ≢ none
unfolding sample_sdk move covers pass
sample_moves b from to d n h e = ground (arith, beq_iff d d)

pub sample_burns :
    (b : Bank) (name d : Bytes) (n : ℕ)
    → n ≤ b.balance (0 ∷ name) d
    → n ≤ b.supply d
    → sample_sdk.burn_coins b name (record { denom = d; amount = n } ∷ []) ≢ none
unfolding sample_sdk burn covers covers_supply
sample_burns b name d n h supply e = ground (arith, beq_iff d d)
