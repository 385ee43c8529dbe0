-- ===== src/Examples/Nan.antt =====
-- Numbers of internal/parser and internal/analytics that are NaN.
use wealth.Prelude.{
  get_or, insert, same, All, List, Option, Text, [], arith, if◌then◌else◌, is_empty, lit, nat_beq,
  none, refl, some, true, ℕ, ◌-◌, ◌∷◌, ◌≡◌, text_eq,
}
use wealth.Prelude.Float.Fixed.{Fixed, negsuc, pos}
use wealth.Prelude.Float.Nan.{nan-IsIeee, nan_float}
use wealth.Parser.Fields.{Dates, Decimals, Record}
use wealth.Parser.Rows.Laws.{ParsedHave}
use wealth.Parser.N26.{parse_n26}
use wealth.Parser.N26.Amounts.{IsDirected, parse_n26-IsDirected}
use wealth.Parser.Sparkasse.{parse_sparkasse}
use wealth.Parser.Sparkasse.Amounts.{IsBooked, parse_sparkasse-IsBooked}
use wealth.Analytics.Tax.Lots.{TaxLot}
use wealth.Analytics.Tax.Sell.{
  sell_lots, sell_tax, simulate_lots, SellRequest, SellSimResult, lots_by_isin, simulate_sell,
}
use wealth.Analytics.Tax.Sell.Bounds.{IsSound, simulate_sell-IsSound}
use wealth.Analytics.Performance.{CashFlow, calculate_irr, half_way, highest, lowest}
use wealth.Analytics.Performance.Bounds.{IsHalving, IsWithin, calculate_irr-IsWithin}

abbrev Number : Type 0
Number = Option Fixed

abbrev whole : ℕ → Number
whole n = nan_float.literal n 0

-- A small part of `strconv.ParseFloat`: the word NaN, and whole numbers of one digit with a sign.
abbrev digit_value : Text → Option Number
digit_value (c ∷ []) = some (whole (c - b'0'))
digit_value (m ∷ c ∷ []) =
    if nat_beq m b'-' then some (nan_float.sub (whole 0) (whole (c - b'0'))) else none
digit_value (n ∷ a ∷ m ∷ []) = some none
digit_value _ = none

instance abbrev words : Decimals Number
words = record { parse_float = digit_value }

instance abbrev text_dates : Dates Text
text_dates = record { parse_time = λ layout s. if is_empty s then none else some s }

abbrev n26_file : List Record
n26_file =
    (lit "Date" ∷ lit "Payee" ∷ lit "Amount (EUR)" ∷ [])
    ∷ (lit "2024-01-05" ∷ lit "Rewe" ∷ lit "-7" ∷ [])
    ∷ (lit "2024-01-06" ∷ lit "Salary" ∷ lit "NaN" ∷ [])
    ∷ []

parse_n26-IsDirected_example :
    ParsedHave {F = Number} {D = Text} IsDirected (parse_n26 (lit "a") n26_file)
parse_n26-IsDirected_example = parse_n26-IsDirected Text nan-IsIeee (lit "a") n26_file

abbrev sparkasse_file : List Record
sparkasse_file =
    (lit "Auftragskonto" ∷ lit "Buchungstag" ∷ lit "Betrag" ∷ [])
    ∷ (lit "DE00 1234" ∷ lit "05.01.24" ∷ lit "-7" ∷ [])
    ∷ (lit "DE00 1234" ∷ lit "06.01.24" ∷ lit "NaN" ∷ [])
    ∷ []

parse_sparkasse-IsBooked_example :
    ParsedHave {F = Number} {D = Text} IsBooked (parse_sparkasse (lit "a") sparkasse_file)
parse_sparkasse-IsBooked_example = parse_sparkasse-IsBooked Text nan-IsIeee (lit "a") sparkasse_file

abbrev lot : ℕ → TaxLot Number
lot value = record {
  isin = lit "A";
  name = lit "World";
  buy_year = 2020;
  quantity = whole 1;
  cost_basis = whole 10;
  current_value = whole value;
  unrealized_pl = whole 0;
  is_equity_fund = true;
  tax_if_sold = whole 0;
  net_proceeds = whole 0;
  effective_rate = whole 0;
}

abbrev request : SellRequest Number
request = record { isin = lit "A"; amount_eur = whole 60 }

abbrev taxes : List (SellSimResult Number) → List Number
taxes [] = []
taxes (r ∷ rs) = r.estimated_tax ∷ taxes rs

-- A lot of value 0 makes the tax NaN.
worthless : taxes (simulate_sell (lot 0 ∷ lot 70 ∷ []) (request ∷ []) (whole 0)).0 ≡ none ∷ []
unfolding simulate_sell get_or insert same simulate_lots sell_tax sell_lots
worthless = refl

simulate_sell-IsSound_example :
    All
      (IsSound nan-IsIeee (lots_by_isin (lot 0 ∷ lot 70 ∷ []) []))
      (simulate_sell (lot 0 ∷ lot 70 ∷ []) (request ∷ []) none).0
simulate_sell-IsSound_example =
    simulate_sell-IsSound nan-IsIeee (lot 0 ∷ lot 70 ∷ []) (request ∷ []) none

half_way-between :
    (lo hi : Number)
    → nan_float.le lowest lo ≡ true
    → nan_float.le lo hi ≡ true
    → nan_float.le hi highest ≡ true
    → (nan_float.le lo (half_way (lo, hi)) ≡ true) × (nan_float.le (half_way (lo, hi)) hi ≡ true)
half_way-between none hi a h b = ground arith
half_way-between (some x) none a h b = ground arith
half_way-between (some (pos x)) (some (pos y)) a h b = ground arith
half_way-between (some (pos x)) (some (negsuc y)) a h b = ground arith
half_way-between (some (negsuc x)) (some (pos y)) a h b = ground arith
half_way-between (some (negsuc x)) (some (negsuc y)) a h b = ground arith

nan-IsHalving : IsHalving Number
nan-IsHalving = record {
  between = half_way-between;
  low = refl;
  centre = refl;
  high = refl;
  under = refl;
  over = refl;
}

-- A stand-in for `math.Pow`: right for the exponents 0 and 1.
abbrev power : Number → Number → Number
power x t = if nan_float.eq t (whole 0) then whole 1 else x

abbrev loan : List (CashFlow Number)
loan =
    record { date = 0; amount = nan_float.sub (whole 0) (whole 1000) }
    ∷ record { date = 365; amount = whole 1100 }
    ∷ []

calculate_irr-IsWithin_example :
    IsWithin lowest highest (calculate_irr power loan (nan_float.literal 1 1))
calculate_irr-IsWithin_example =
    calculate_irr-IsWithin nan-IsIeee nan-IsHalving power loan (nan_float.literal 1 1) (refl, refl)
