-- ===== src/Pricing/Config.antt =====
-- The pricing configuration and the lines of a quote: backend/src/services/sql/pricingConfigSqlService.js
-- (the records and `buildDefaultConfig`), backend/src/constants/locations.js, and the day rate and
-- the deposit of backend/src/utils/pricing. Names shown to customers are left out.
use rent_a_car_v.Base.{
  ℕ, ◌*◌, Bool, true, false, ◌&&◌, ◌||◌, Option, none, some, List, [], ◌∷◌, find, ltb, leb, ◌==◌,
  if◌then◌else◌,
}
use rent_a_car_v.Base.Int.{ℤ, pos}
use rent_a_car_v.Text.{Text, codes}
use rent_a_car_v.Pricing.Double.{hundredths}
use rent_a_car_v.Pricing.Money.{AdjType, round2}

pub record Season : Type 0 where
  pub id : ℕ
  pub start_month : ℕ
  pub start_day : ℕ
  pub end_month : ℕ
  pub end_day : ℕ
  pub adj_type : AdjType
  pub adj_value : ℤ
  pub active : Bool

pub record WeekendRule : Type 0 where
  pub id : ℕ
  pub weekdays : List ℕ
  pub adj_type : AdjType
  pub adj_value : ℤ
  pub active : Bool

pub data DiscountKind : Type 0 where
  long_rental early_booking last_minute : DiscountKind

abbrev pub same_kind : DiscountKind → DiscountKind → Bool
same_kind long_rental long_rental = true
same_kind early_booking early_booking = true
same_kind last_minute last_minute = true
same_kind _ _ = false

pub record DiscountRule : Type 0 where
  pub kind : DiscountKind
  pub threshold : ℤ
  pub adj_type : AdjType
  pub adj_value : ℤ
  pub active : Bool

pub record DepositRule : Type 0 where
  pub default_amount : ℤ
  pub active : Bool

pub data FeeKey : Type 0 where
  hotel_delivery late_return fuel : FeeKey

abbrev pub same_key : FeeKey → FeeKey → Bool
same_key hotel_delivery hotel_delivery = true
same_key late_return late_return = true
same_key fuel fuel = true
same_key _ _ = false

pub record GlobalFee : Type 0 where
  pub key : FeeKey
  pub amount : ℤ
  pub per_day : Bool
  pub active : Bool

pub record Extra : Type 0 where
  pub code : Text
  pub amount : ℤ
  pub per_day : Bool
  pub active : Bool

-- A delivery fee of a location; the list stands for the object `deliveryFeeMap`.
pub record DeliveryFee : Type 0 where
  pub location : Text
  pub fee : ℤ

pub record Config : Type 0 where
  pub seasons : List Season
  pub weekend_rules : List WeekendRule
  pub discount_rules : List DiscountRule
  pub deposit_rules : List DepositRule
  pub delivery_fees : List DeliveryFee
  pub global_fees : List GlobalFee
  pub extras : List Extra

abbrev fee_of : Text → ℕ → DeliveryFee
fee_of l euros = record { location = l; fee = pos (euros * 100) }

abbrev pub default_delivery_fees : List DeliveryFee
default_delivery_fees =
    fee_of (codes "office") 0
    ∷ fee_of (codes "sunny-beach") 25
    ∷ fee_of (codes "sveti-vlas") 30
    ∷ fee_of (codes "nesebar") 30
    ∷ fee_of (codes "burgas") 40
    ∷ fee_of (codes "burgas-airport") 50
    ∷ fee_of (codes "sofia") 100
    ∷ fee_of (codes "sofia-airport") 120
    ∷ fee_of (codes "varna") 80
    ∷ fee_of (codes "varna-airport") 90
    ∷ fee_of (codes "plovdiv") 70
    ∷ fee_of (codes "eleni") 35
    ∷ fee_of (codes "ravda") 20
    ∷ []

abbrev flat_fee : FeeKey → ℕ → GlobalFee
flat_fee k euros = record { key = k; amount = pos (euros * 100); per_day = false; active = true }

abbrev pub default_config : Config
default_config = record {
  seasons = [];
  weekend_rules = [];
  discount_rules = [];
  deposit_rules = record { default_amount = pos 30_000; active = true } ∷ [];
  delivery_fees = default_delivery_fees;
  global_fees = flat_fee hotel_delivery 35 ∷ flat_fee late_return 50 ∷ flat_fee fuel 40 ∷ [];
  extras = [];
}

-- The prices of a car; 0 is a price that is missing.
pub record CarPrices : Type 0 where
  pub tier_1_3 : ℕ
  pub tier_7_31 : ℕ
  pub tier_31_plus : ℕ
  pub price : ℕ

abbrev pub is_set : ℕ → Bool
is_set n = ltb 0 n

unfoldable pub compute_day_price : Option CarPrices → ℕ → ℕ
compute_day_price none days = 0
compute_day_price (some c) days =
    if is_set c.tier_1_3 || (is_set c.tier_7_31 || is_set c.tier_31_plus)
    then (if leb days 3 && is_set c.tier_1_3
        then c.tier_1_3
        else if leb days 31 && is_set c.tier_7_31
        then c.tier_7_31
        else if ltb 31 days && is_set c.tier_31_plus
        then c.tier_31_plus
        else c.price)
    else c.price

unfoldable pub resolve_deposit : Config → ℤ
resolve_deposit cfg = elim (find (λ (d : DepositRule). d.active) cfg.deposit_rules) [
  | none ↦ pos 0
  | some d ↦ round2 (hundredths d.default_amount)
]

-- The code of a line says what it is for; the suffix of the source's code is an argument.
pub data LineCode : Type 0 where
  base_rental delivery_pickup delivery_return : LineCode
  season weekend : ℕ → LineCode
  fee : FeeKey → LineCode
  extra : Text → LineCode
  discount : DiscountKind → LineCode

pub data LineType : Type 0 where
  base surcharge fee_line addon discount_line : LineType

pub record Line : Type 0 where
  pub code : LineCode
  pub amount : ℤ
  pub kind : LineType

abbrev pub line : LineCode → ℤ → LineType → Line
line c a k = record { code = c; amount = a; kind = k }

abbrev pub is_zero : ℤ → Bool
is_zero (pos n) = n == 0
is_zero _ = false

-- `if (amount) lines.push(...)`.
abbrev pub line_unless_zero : LineCode → ℤ → LineType → List Line
line_unless_zero c a k = if is_zero a then [] else line c a k ∷ []
