-- ===== src/Parser/Assets/Crypto.antt =====
-- The assets of class crypto are those with an identifier of the Delta importer.
use wealth.Prelude.{
  Text, [], arith, false, has_prefix, is_empty, lit, refl, same, to_lower, to_upper, trim_space,
  true, ◌++◌, ◌↔◌, ◌∷◌, ◌≡◌, ◌≢◌, text_eq, nat_eq,
}
use wealth.Parser.Delta.{delta_synthetic_isin}
use wealth.Parser.Assets.{asset_keywords, classify_asset, crypto, first_class}

first_class-keywords : (name : Text) → first_class name asset_keywords ≢ crypto
unfolding first_class asset_keywords
first_class-keywords name = ground arith

classify_asset-crypto_iff :
    (isin name : Text)
    → (classify_asset isin name ≡ crypto) ↔ (has_prefix isin (lit "CRYPTO:") ≡ true)
unfolding classify_asset
classify_asset-crypto_iff isin name = ground (arith, first_class-keywords (to_lower name))

has_prefix-append : (p s : Text) → has_prefix (p ++ s) p ≡ true
unfolding has_prefix
has_prefix-append [] s = refl
has_prefix-append (c ∷ p) s = ground (arith, has_prefix-append p s)

-- A crypto asset of a Delta file is classified as crypto whatever its symbol and its name are.
pub classify_asset-delta :
    (base_type symbol name : Text)
    → same (to_upper base_type) (lit "CRYPTO") ≡ true
    → is_empty (trim_space symbol) ≡ false
    → classify_asset (delta_synthetic_isin base_type symbol) name ≡ crypto
unfolding delta_synthetic_isin
classify_asset-delta base_type symbol name e filled =
    (classify_asset-crypto_iff (delta_synthetic_isin base_type symbol) name).1
      (rw (filled, e) (has_prefix-append (lit "CRYPTO:") (to_upper (trim_space symbol))))
