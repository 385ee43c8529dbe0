-- ===== src/Cashflow/Classify/Laws.antt =====
-- Which categories the keywords can give, and that case does not matter to them.
use mathlib.Core.List.{map-append}
use mathlib.Core.Path.{ap₂}
use wealth.Prelude.{
  All, Bool, List, Text, [], ap, arith, false, refl, sym, to_upper, true, upper_rune, ℕ, ◌++◌, ◌↔◌,
  ◌∙◌, ◌∷◌, ◌≡◌,
}
use wealth.Transaction.{TxType, transfer}
use wealth.Cashflow.Rules.{Bucket, Rule, rules, transfer}
use wealth.Cashflow.Classify.{bucket_of, classify, first_match, haystack}

-- The types whose rows are moves between the user's own pots.
abbrev pub is_own_move : TxType → Bool
is_own_move TxType.transfer = true
is_own_move TxType.transfer_out = true
is_own_move TxType.cash_transfer_in = true
is_own_move TxType.cash_transfer_out = true
is_own_move TxType.buy = true
is_own_move TxType.sell = true
is_own_move TxType.savings_plan = true
is_own_move TxType.fee = true
is_own_move _ = false

abbrev is_transfer : Bucket → Bool
is_transfer transfer = true
is_transfer _ = false

first_match-not_transfer :
    (hay : Text) (rs : List Rule)
    → All (λ r. is_transfer (bucket_of r.category) ≡ false) rs
    → is_transfer (bucket_of (first_match hay rs)) ≡ false
unfolding first_match bucket_of
first_match-not_transfer hay [] h = refl
first_match-not_transfer hay (r ∷ rs) (h, hs) = ground (arith, first_match-not_transfer hay rs hs)

rules-not_transfer : All (λ r. is_transfer (bucket_of r.category) ≡ false) rules
unfolding bucket_of
rules-not_transfer = ground arith

not_transfer_iff : (hay : Text) → (bucket_of (first_match hay rules) ≡ transfer) ↔ (false ≡ true)
not_transfer_iff hay = ground (arith, first_match-not_transfer hay rules rules-not_transfer)

-- A transaction lands in the bucket that is left out of spending exactly if its type says that it
-- is a transfer, a trade, a savings plan or a fee, whatever its texts say.
pub bucket_of-classify-transfer_iff :
    (type : TxType) (counterparty reference : Text)
    → (bucket_of (classify type counterparty reference) ≡ transfer) ↔ (is_own_move type ≡ true)
unfolding classify bucket_of
bucket_of-classify-transfer_iff TxType.deposit counterparty reference =
    not_transfer_iff (haystack counterparty reference)
bucket_of-classify-transfer_iff TxType.withdrawal counterparty reference =
    not_transfer_iff (haystack counterparty reference)
bucket_of-classify-transfer_iff (TxType.other s) counterparty reference =
    not_transfer_iff (haystack counterparty reference)
bucket_of-classify-transfer_iff _ counterparty reference = ground arith

upper_rune-upper_rune : (c : ℕ) → upper_rune (upper_rune c) ≡ upper_rune c
unfolding upper_rune
upper_rune-upper_rune c = ground arith

to_upper-to_upper : (s : Text) → to_upper (to_upper s) ≡ to_upper s
unfolding to_upper
to_upper-to_upper [] = refl
to_upper-to_upper (c ∷ s) = cc (upper_rune-upper_rune c, to_upper-to_upper s)

to_upper-append : (s t : Text) → to_upper (s ++ t) ≡ to_upper s ++ to_upper t
unfolding to_upper
to_upper-append s t = map-append upper_rune s t

to_upper_spaced : (s : Text) → to_upper (b' ' ∷ to_upper s) ≡ to_upper (b' ' ∷ s)
unfolding to_upper
to_upper_spaced s = ap (◌∷◌ b' ') (to_upper-to_upper s)

haystack-to_upper : (a b : Text) → haystack (to_upper a) (to_upper b) ≡ haystack a b
haystack-to_upper a b =
    to_upper-append (to_upper a) (b' ' ∷ to_upper b)
    ∙ ap₂ ◌++◌ (to_upper-to_upper a) (to_upper_spaced b)
    ∙ sym (to_upper-append a (b' ' ∷ b))

-- The category does not depend on the case of the letters.
pub classify-to_upper :
    (type : TxType) (counterparty reference : Text)
    → classify type (to_upper counterparty) (to_upper reference)
      ≡ classify type counterparty reference
unfolding classify
classify-to_upper TxType.deposit counterparty reference =
    ap (λ hay. first_match hay rules) (haystack-to_upper counterparty reference)
classify-to_upper TxType.withdrawal counterparty reference =
    ap (λ hay. first_match hay rules) (haystack-to_upper counterparty reference)
classify-to_upper (TxType.other s) counterparty reference =
    ap (λ hay. first_match hay rules) (haystack-to_upper counterparty reference)
classify-to_upper _ counterparty reference = refl
