-- ===== src/Cashflow/Rules.antt =====
-- The table `rules`, in its order: the first keyword found decides.
use wealth.Prelude.{List, Text, [], lit, ◌∷◌, text_eq}

-- `Category`, at the values that `IsKnown` accepts
pub data Category : Type 0 where
  salary interest refund housing utilities insurance subscriptions groceries dining : Category
  transport health entertainment shopping tax investment internal other : Category

-- `Bucket`
pub data Bucket : Type 0 where
  income fixed variable transfer : Bucket

abbrev pub Rule : Type 0
Rule = record { keywords : List Text; category : Category }

abbrev pub rule : Category → List Text → Rule
rule c ks = record { keywords = ks; category = c }

abbrev salary_keywords : List Text
salary_keywords =
    lit "GEHALT" ∷ lit "LOHN" ∷ lit "SALARY" ∷ lit "PAYROLL" ∷ lit "BEZÜGE" ∷ lit "BEZUEGE" ∷ []

abbrev interest_keywords : List Text
interest_keywords = lit "ZINSEN" ∷ lit "INTEREST" ∷ []

abbrev refund_keywords : List Text
refund_keywords = lit "ERSTATTUNG" ∷ lit "REFUND" ∷ lit "RÜCKZAHLUNG" ∷ lit "RUECKZAHLUNG" ∷ []

abbrev housing_keywords : List Text
housing_keywords =
    lit "MIETE"
    ∷ lit "KALTMIETE"
    ∷ lit "WARMMIETE"
    ∷ lit "NEBENKOSTEN"
    ∷ lit "HAUSGELD"
    ∷ lit "RENT"
    ∷ []

abbrev pub utilities_keywords : List Text
utilities_keywords =
    lit "STROM"
    ∷ lit "GAS"
    ∷ lit "WASSER"
    ∷ lit "ABWASSER"
    ∷ lit "MUELL"
    ∷ lit "MÜLL"
    ∷ lit "STADTWERKE"
    ∷ lit "VATTENFALL"
    ∷ lit "EON"
    ∷ lit "ENBW"
    ∷ lit "RWE"
    ∷ lit "TELEKOM"
    ∷ lit "VODAFONE"
    ∷ lit "1&1"
    ∷ lit "O2"
    ∷ lit "PYUR"
    ∷ lit "INTERNET"
    ∷ []

abbrev pub insurance_keywords : List Text
insurance_keywords =
    lit "VERSICHERUNG"
    ∷ lit "ALLIANZ"
    ∷ lit "HUK"
    ∷ lit "AXA"
    ∷ lit "ERGO"
    ∷ lit "DEVK"
    ∷ lit "DEBEKA"
    ∷ lit "GENERALI"
    ∷ lit "BARMER"
    ∷ lit "TK"
    ∷ lit "AOK"
    ∷ lit "DAK"
    ∷ lit "KRANKEN"
    ∷ lit "INSURANCE"
    ∷ lit "HAFTPFLICHT"
    ∷ []

abbrev subscriptions_keywords : List Text
subscriptions_keywords =
    lit "NETFLIX"
    ∷ lit "SPOTIFY"
    ∷ lit "AMAZON PRIME"
    ∷ lit "DISNEY"
    ∷ lit "APPLE.COM"
    ∷ lit "GITHUB"
    ∷ lit "ADOBE"
    ∷ lit "MICROSOFT"
    ∷ lit "ICLOUD"
    ∷ lit "DROPBOX"
    ∷ lit "YOUTUBE"
    ∷ lit "PATREON"
    ∷ lit "SUBSCRIPTION"
    ∷ lit "ABO "
    ∷ []

abbrev groceries_keywords : List Text
groceries_keywords =
    lit "REWE"
    ∷ lit "EDEKA"
    ∷ lit "LIDL"
    ∷ lit "ALDI"
    ∷ lit "PENNY"
    ∷ lit "NETTO"
    ∷ lit "KAUFLAND"
    ∷ lit "DM-DROGERIE"
    ∷ lit "ROSSMANN"
    ∷ lit "BIO COMPANY"
    ∷ lit "BUDNI"
    ∷ lit "MARKTKAUF"
    ∷ lit "TEGUT"
    ∷ lit "BACKEREI"
    ∷ lit "BÄCKEREI"
    ∷ lit "BAECKEREI"
    ∷ []

abbrev dining_keywords : List Text
dining_keywords =
    lit "RESTAURANT"
    ∷ lit "MCDONALD"
    ∷ lit "BURGER KING"
    ∷ lit "STARBUCKS"
    ∷ lit "PIZZA"
    ∷ lit "SUSHI"
    ∷ lit "DOENER"
    ∷ lit "DÖNER"
    ∷ lit "DINER"
    ∷ lit "LIEFERANDO"
    ∷ lit "WOLT"
    ∷ lit "UBER EATS"
    ∷ lit "TOO GOOD TO GO"
    ∷ []

abbrev transport_keywords : List Text
transport_keywords =
    lit "DB-VERTRIEB"
    ∷ lit "DEUTSCHE BAHN"
    ∷ lit "BVG"
    ∷ lit "MVV"
    ∷ lit "VRR"
    ∷ lit "RMV"
    ∷ lit "HVV"
    ∷ lit "9-EURO"
    ∷ lit "DEUTSCHLANDTICKET"
    ∷ lit "FLIXBUS"
    ∷ lit "FLIXTRAIN"
    ∷ lit "TANKE"
    ∷ lit "ESSO"
    ∷ lit "ARAL"
    ∷ lit "SHELL"
    ∷ lit "TOTAL"
    ∷ lit "JET"
    ∷ lit "BP-TANK"
    ∷ lit "ADAC"
    ∷ lit "UBER"
    ∷ lit "BOLT"
    ∷ lit "LIME "
    ∷ lit "TIER"
    ∷ []

abbrev health_keywords : List Text
health_keywords =
    lit "APOTHEKE"
    ∷ lit "PHARMACY"
    ∷ lit "ARZT"
    ∷ lit "ZAHNARZT"
    ∷ lit "DOCTOR"
    ∷ lit "PHYSIO"
    ∷ lit "OPTIKER"
    ∷ lit "FIELMANN"
    ∷ []

abbrev entertainment_keywords : List Text
entertainment_keywords =
    lit "KINO"
    ∷ lit "CINEMA"
    ∷ lit "THEATER"
    ∷ lit "KONZERT"
    ∷ lit "TICKETMASTER"
    ∷ lit "EVENTIM"
    ∷ lit "STEAM "
    ∷ lit "PLAYSTATION"
    ∷ lit "XBOX"
    ∷ lit "FITNESS"
    ∷ lit "FITX"
    ∷ lit "MCFIT"
    ∷ lit "URBAN SPORTS"
    ∷ lit "CLEVER FIT"
    ∷ []

abbrev shopping_keywords : List Text
shopping_keywords =
    lit "AMAZON"
    ∷ lit "OTTO "
    ∷ lit "ZALANDO"
    ∷ lit "MEDIAMARKT"
    ∷ lit "SATURN"
    ∷ lit "IKEA"
    ∷ lit "H&M"
    ∷ lit "ZARA"
    ∷ lit "C&A"
    ∷ lit "GALERIA"
    ∷ lit "BAUHAUS"
    ∷ lit "OBI "
    ∷ lit "TOOM"
    ∷ lit "HORNBACH"
    ∷ []

abbrev tax_keywords : List Text
tax_keywords = lit "FINANZAMT" ∷ lit "STEUER" ∷ lit "TAX" ∷ []

abbrev pub rules : List Rule
rules =
    rule salary salary_keywords
    ∷ rule interest interest_keywords
    ∷ rule refund refund_keywords
    ∷ rule housing housing_keywords
    ∷ rule utilities utilities_keywords
    ∷ rule insurance insurance_keywords
    ∷ rule subscriptions subscriptions_keywords
    ∷ rule groceries groceries_keywords
    ∷ rule dining dining_keywords
    ∷ rule transport transport_keywords
    ∷ rule health health_keywords
    ∷ rule entertainment entertainment_keywords
    ∷ rule shopping shopping_keywords
    ∷ rule tax tax_keywords
    ∷ []
