-- ===== src/Cashflow/Shadowed.antt =====
-- The order of `rules`: a keyword that contains a keyword of an earlier rule never decides.
use wealth.Prelude.{
  All, Bool, List, Text, [], arith, contains_text, false, get_elem?, has_prefix, lit, refl, some,
  suc, true, zero, ℕ, ◌++◌, ◌∷◌, ◌≡◌, ◌≢◌,
}
use wealth.Transaction.{TxType, interest}
use wealth.Cashflow.Rules.{
  Category, Rule, groceries, housing, insurance, insurance_keywords, interest, refund, rule, rules,
  salary, subscriptions, utilities, utilities_keywords,
}
use wealth.Cashflow.Classify.{classify, first_match, haystack, mentions}

has_prefix-append : (s p q : Text) → has_prefix s (p ++ q) ≡ true → contains_text s q ≡ true
unfolding has_prefix contains_text
has_prefix-append [] [] q h = h
has_prefix-append [] (b ∷ p) q h = absurd (ground arith)
has_prefix-append (a ∷ s) [] q h = ground arith
has_prefix-append (a ∷ s) (b ∷ p) q h = ground (arith, has_prefix-append s p q)

contains_text-append : (s p q : Text) → contains_text s (p ++ q) ≡ true → contains_text s q ≡ true
unfolding contains_text
contains_text-append [] p q h = has_prefix-append [] p q h
contains_text-append (a ∷ s) p q h =
    ground (arith, has_prefix-append (a ∷ s) p q, contains_text-append s p q)

has_prefix_init : (s p q : Text) → has_prefix s (p ++ q) ≡ true → has_prefix s p ≡ true
unfolding has_prefix
has_prefix_init [] [] q h = refl
has_prefix_init [] (b ∷ p) q h = h
has_prefix_init (a ∷ s) [] q h = refl
has_prefix_init (a ∷ s) (b ∷ p) q h = ground (arith, has_prefix_init s p q)

contains_text_init : (s p q : Text) → contains_text s (p ++ q) ≡ true → contains_text s p ≡ true
unfolding contains_text
contains_text_init [] p q h = has_prefix_init [] p q h
contains_text_init (a ∷ s) p q h =
    ground (arith, has_prefix_init (a ∷ s) p q, contains_text_init s p q)

mentions_of :
    (hay : Text) (ks : List Text) (i : ℕ) (k : Text)
    → get_elem? ks i ≡ some k
    → contains_text hay k ≡ true
    → mentions hay ks ≡ true
mentions_of hay [] i k e h = absurd (cc)
mentions_of hay (j ∷ ks) zero k e h = ground arith
mentions_of hay (j ∷ ks) (suc i) k e h = ground (arith, mentions_of hay ks i k e h)

module _ (P : Category → Bool) (hay : Text) (post : List Rule) where
  first_match_among :
      (pre : List Rule) (r : Rule)
      → mentions hay r.keywords ≡ true
      → All (λ q. P q.category ≡ true) pre
      → P r.category ≡ true
      → P (first_match hay (pre ++ (r ∷ post))) ≡ true
  unfolding first_match
  first_match_among [] r m h k = ground arith
  first_match_among (q ∷ pre) r m (h, hs) k = ground (arith, first_match_among pre r m hs k)

abbrev take {ℓ} : {A : Type ℓ} → ℕ → List A → List A
take zero xs = []
take (suc n) [] = []
take (suc n) (x ∷ xs) = x ∷ take n xs

abbrev drop {ℓ} : {A : Type ℓ} → ℕ → List A → List A
drop zero xs = xs
drop (suc n) [] = []
drop (suc n) (x ∷ xs) = drop n xs

-- The categories of the rules up to the one of the insurances.
abbrev pub is_early : Category → Bool
is_early salary = true
is_early interest = true
is_early refund = true
is_early housing = true
is_early utilities = true
is_early insurance = true
is_early _ = false

first_match_patreon :
    (hay : Text)
    → contains_text hay (lit "PATREON") ≡ true
    → is_early (first_match hay rules) ≡ true
first_match_patreon hay h =
    let eon = contains_text-append hay (lit "PATR") (lit "EON") h in
    first_match_among is_early hay (drop 5 rules) (take 4 rules) (rule utilities utilities_keywords)
      (mentions_of hay utilities_keywords 8 (lit "EON") refl eon) (ground arith) refl

first_match_marktkauf :
    (hay : Text)
    → contains_text hay (lit "MARKTKAUF") ≡ true
    → is_early (first_match hay rules) ≡ true
first_match_marktkauf hay h =
    let tkauf = contains_text-append hay (lit "MARK") (lit "TKAUF") h in
    let tk = contains_text_init hay (lit "TK") (lit "AUF") tkauf in
    first_match_among is_early hay (drop 6 rules) (take 5 rules) (rule insurance insurance_keywords)
      (mentions_of hay insurance_keywords 9 (lit "TK") refl tk) (ground arith) refl

shadowed :
    (hay : Text)
    → (contains_text hay (lit "PATREON") ≡ true → first_match hay rules ≢ subscriptions)
      × (contains_text hay (lit "MARKTKAUF") ≡ true → first_match hay rules ≢ groceries)
shadowed hay = (
  λ h e. ground (arith, first_match_patreon hay h),
  λ h e. ground (arith, first_match_marktkauf hay h),
)

-- The keywords PATREON and MARKTKAUF never decide: a text with one of them is not classified as a
-- subscription and as groceries, since PATREON contains the utility EON and MARKTKAUF the insurer TK.
pub classify_shadowed :
    (type : TxType) (counterparty reference : Text)
    → let hay = haystack counterparty reference in
      let category = classify type counterparty reference in
      (contains_text hay (lit "PATREON") ≡ true → category ≢ subscriptions)
      × (contains_text hay (lit "MARKTKAUF") ≡ true → category ≢ groceries)
unfolding classify
classify_shadowed TxType.deposit counterparty reference = shadowed (haystack counterparty reference)
classify_shadowed TxType.withdrawal counterparty reference =
    shadowed (haystack counterparty reference)
classify_shadowed (TxType.other s) counterparty reference =
    shadowed (haystack counterparty reference)
classify_shadowed _ counterparty reference = ((λ _ e. cc), (λ _ e. cc))
