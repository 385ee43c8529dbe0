-- ===== src/Parser/Assets.antt =====
-- internal/parser/classify.go
pub mod Crypto
use wealth.Prelude.{
  List, Text, [], any, contains_text, has_prefix, if◌then◌else◌, lit, to_lower, ◌∷◌,
}

pub data AssetClass : Type 0 where
  etf stock bond fund commodity derivative crypto : AssetClass

-- The lists of keywords of the code, each with its class, in the order in which the code asks.
unfoldable pub derivative_keywords : List Text
derivative_keywords =
    lit "call "
    ∷ lit "put "
    ∷ lit "optionsschein"
    ∷ lit "zertifikat"
    ∷ lit "faktor"
    ∷ lit "knock-out"
    ∷ lit "turbo"
    ∷ lit "leveraged"
    ∷ lit "leverage "
    ∷ lit "mini future"
    ∷ lit "warrant"
    ∷ lit " short "
    ∷ []

unfoldable pub asset_keywords : List (AssetClass × List Text)
asset_keywords =
    (bond, lit "bond" ∷ lit "anleihe" ∷ lit "treasury" ∷ lit "renten" ∷ [])
    ∷ (
      etf,
      lit "etf"
          ∷ lit "ucits"
          ∷ lit "ishares"
          ∷ lit "vanguard"
          ∷ lit "xtrackers"
          ∷ lit "amundi"
          ∷ lit "lyxor"
          ∷ lit "spdr"
          ∷ lit "invesco"
          ∷ [],
    )
    ∷ (fund, lit "fonds" ∷ lit "fund" ∷ lit "deka-" ∷ lit "deka " ∷ [])
    ∷ (commodity, lit "gold" ∷ lit "silver" ∷ lit "commodity" ∷ lit "rohstoff" ∷ lit "euwax" ∷ [])
    ∷ []

-- The loops over the lists.
unfoldable pub first_class : Text → List (AssetClass × List Text) → AssetClass
first_class name [] = stock
first_class name ((class, keywords) ∷ rest) =
    let later = first_class name rest in if any (contains_text name) keywords then class else later

unfoldable pub classify_asset : Text → Text → AssetClass
unfolding asset_keywords derivative_keywords first_class
classify_asset isin name =
    let name_lower = to_lower name in
    if has_prefix isin (lit "CRYPTO:")
    then crypto
    else if any (contains_text name_lower) derivative_keywords
    then derivative
    else if has_prefix name_lower (lit "short ")
    then derivative
    else first_class name_lower asset_keywords
