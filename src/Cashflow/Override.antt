-- ===== src/Cashflow/Override.antt =====
-- `ResolveCategory`, `IsKnown` and `AllCategories`: a category that the user has set comes first.
use wealth.Prelude.{
  ==_iff, Bool-cases, List, Option, Option-cases, Text, [], ap, arith, false, if◌then◌else◌, inl,
  inr, is_empty, lit, none, not, refl, same, some, ◌==◌, ◌∙◌, ◌∷◌, ◌≡◌, ◌≢◌, text_eq,
}
use wealth.Transaction.{TxType, interest, other, tax}
use wealth.Cashflow.Rules.{
  Category, dining, entertainment, groceries, health, housing, insurance, interest, internal,
  investment, other, refund, salary, shopping, subscriptions, tax, transport, utilities,
}
use wealth.Cashflow.Classify.{classify}

-- The constants `CatSalary` and so on
unfoldable pub name : Category → Text
name salary = lit "salary"
name interest = lit "interest"
name refund = lit "refund"
name housing = lit "housing"
name utilities = lit "utilities"
name insurance = lit "insurance"
name subscriptions = lit "subscriptions"
name groceries = lit "groceries"
name dining = lit "dining"
name transport = lit "transport"
name health = lit "health"
name entertainment = lit "entertainment"
name shopping = lit "shopping"
name tax = lit "tax"
name investment = lit "investment"
name internal = lit "internal"
name other = lit "other"

unfoldable pub all_categories : List Category
all_categories =
    salary ∷ interest ∷ refund ∷ housing ∷ utilities ∷ insurance ∷ subscriptions ∷ groceries
    ∷ dining ∷ transport ∷ health ∷ entertainment ∷ shopping ∷ tax ∷ investment ∷ internal ∷ other
    ∷ []

-- The cases of `IsKnown`, in its order
abbrev cases : List Category
cases =
    salary ∷ interest ∷ refund ∷ housing ∷ utilities ∷ insurance ∷ subscriptions ∷ groceries
    ∷ dining ∷ transport ∷ health ∷ entertainment ∷ shopping ∷ tax ∷ investment ∷ internal ∷ other
    ∷ []

find_name : Text → List Category → Option Category
unfolding name
find_name s [] = none
find_name s (c ∷ cs) = if s == name c then some c else find_name s cs

-- The conversion `Category(s)` with the test `IsKnown`
unfoldable pub known_category : Text → Option Category
unfolding find_name
known_category s = find_name s cases

unfoldable pub resolve_category : Text → TxType → Text → Text → Category
resolve_category override type counterparty reference =
    if not (is_empty override)
    then elim (known_category override) [ some c ↦ c | none ↦ classify type counterparty reference ]
    else classify type counterparty reference

find_name_sound :
    (s : Text) (cs : List Category) (c : Category) → find_name s cs ≡ some c → s ≡ name c
unfolding find_name
find_name_sound s [] c h = absurd (cc)
find_name_sound s (d ∷ cs) c h = elim (Bool-cases (s == name d)) [
  | inl e ↦ (==_iff s (name d)).0 e ∙ ap name (ground arith)
  | inr n ↦ find_name_sound s cs c (ground arith)
]

known_category-name : (c : Category) → known_category (name c) ≡ some c
unfolding known_category same
known_category-name salary = refl
known_category-name _ = refl

name-ne-nil : (c : Category) → is_empty (name c) ≡ false
unfolding name
name-ne-nil salary = refl
name-ne-nil _ = refl

resolve_category_known :
    (c : Category) (type : TxType) (counterparty reference : Text)
    → resolve_category (name c) type counterparty reference ≡ c
unfolding resolve_category
resolve_category_known c type counterparty reference =
    ground (arith, known_category-name c, name-ne-nil c)

-- An override that is the name of a category wins over the keywords; every other override, the
-- empty one included, leaves the decision to them. A string names at most one category.
pub resolve_category_iff :
    (override : Text) (type : TxType) (counterparty reference : Text)
    → ((c : Category)
        → override ≡ name c
        → resolve_category override type counterparty reference ≡ c)
      × (((c : Category) → override ≢ name c)
          → resolve_category override type counterparty reference
            ≡ classify type counterparty reference)
unfolding resolve_category
resolve_category_iff override type counterparty reference = (
  λ c e. rw e (resolve_category_known c type counterparty reference),
  λ unknown. elim (Option-cases (known_category override)) [
    | inl e ↦ ground arith
    | inr (c, e) ↦ absurd (unknown c (unfold known_category in find_name_sound override cases c e))
  ],
)
