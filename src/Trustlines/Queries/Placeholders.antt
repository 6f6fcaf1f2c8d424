-- ===== src/Trustlines/Queries/Placeholders.antt =====
-- What the placeholders of the query stand for.
use stellar_payment_api.Base.{
  ℕ, zero, suc, ◌≡◌, refl, ap, ◌∙◌, String, Option, none, some, List, [], ◌∷◌, ◌++◌, if◌then◌else◌,
  subst, sym, Bool-cases, inl, inr, str_eq, length, length-append, arith,
}
use mathlib.Core.List.{append-nil}
use stellar_payment_api.Trustlines.Queries.{
  Value, text, number, Operator, equals, at_least, at_most, Condition, compares, is_null, Options,
  Draft, begin_query, add_condition, add_given, add_issuer, Query, end_query,
  find_payments_by_asset,
}

-- The parameter at a place, counted from 1.
unfoldable pub param_at : ℕ → List Value → Option Value
param_at place [] = none
param_at zero (v ∷ vs) = none
param_at (suc zero) (v ∷ vs) = some v
param_at (suc (suc n)) (v ∷ vs) = param_at (suc n) vs

-- A condition on values, as it is meant.
pub data Meaning : Type 0 where
  holds : Operator → (column : String) → Value → Meaning
  missing : (column : String) → Meaning

-- What a condition says with the parameters in place.
abbrev pub Means : List Value → Condition → Meaning → Type 0
Means vs (compares op column place) (holds op' column' v) =
    (op ≡ op') × (column ≡ column') × (param_at place vs ≡ some v)
Means vs (compares op column place) (missing column') = ⊥
Means vs (is_null column) (missing column') = column ≡ column'
Means vs (is_null column) (holds op' column' v) = ⊥

abbrev pub AllMean : List Value → List Condition → List Meaning → Type 0
AllMean vs [] [] = Unit
AllMean vs (c ∷ cs) (m ∷ ms) = Means vs c m × AllMean vs cs ms
AllMean vs [] (m ∷ ms) = ⊥
AllMean vs (c ∷ cs) [] = ⊥

-- The filter that the caller asks for, in the order of the options.
unfoldable pub given : Operator → String → Option String → List Meaning
given op column none = []
given op column (some value) = if str_eq value "" then [] else holds op column (text value) ∷ []

unfoldable pub issuer_meaning : Option String → List Meaning
issuer_meaning none = []
issuer_meaning (some issuer) =
    if str_eq issuer ""
    then missing "p.asset_issuer" ∷ []
    else holds equals "p.asset_issuer" (text issuer) ∷ []

unfoldable pub filters : String → String → Option String → Options → List Meaning
filters merchant_id asset_code asset_issuer o =
    ((((holds equals "p.merchant_id" (text merchant_id)
            ∷ holds equals "p.asset" (text asset_code)
            ∷ missing "p.deleted_at"
            ∷ [])
          ++ issuer_meaning asset_issuer)
        ++ given equals "p.status" o.status)
      ++ given at_least "p.created_at" o.date_from)
    ++ given at_most "p.created_at" o.date_to

param_at-append :
    (n : ℕ) (vs ws : List Value) {v : Value}
    → param_at n vs ≡ some v
    → param_at n (vs ++ ws) ≡ some v
unfolding param_at
param_at-append n [] ws e = absurd (cc e)
param_at-append zero (x ∷ vs) ws e = absurd (cc e)
param_at-append (suc zero) (x ∷ vs) ws e = e
param_at-append (suc (suc n)) (x ∷ vs) ws e = param_at-append (suc n) vs ws e

param_at-end :
    (vs : List Value) (v : Value) (ws : List Value)
    → param_at (suc (length vs)) (vs ++ (v ∷ ws)) ≡ some v
unfolding param_at
param_at-end [] v ws = refl
param_at-end (x ∷ vs) v ws = param_at-end vs v ws

param_at-second :
    (vs : List Value) (v w : Value) → param_at (suc (suc (length vs))) (vs ++ (v ∷ w ∷ [])) ≡ some w
unfolding param_at
param_at-second [] v w = refl
param_at-second (x ∷ vs) v w = param_at-second vs v w

AllMean-append :
    (vs ws : List Value) (cs : List Condition) (ms : List Meaning)
    → AllMean vs cs ms
    → AllMean (vs ++ ws) cs ms
AllMean-append vs ws [] [] all = tt
AllMean-append vs ws (compares op column place ∷ cs) (holds op' column' v ∷ ms) ((o, c, at), all) =
    ((o, c, param_at-append place vs ws at), AllMean-append vs ws cs ms all)
AllMean-append vs ws (compares op column place ∷ cs) (missing column' ∷ ms) all = absurd (all.0)
AllMean-append vs ws (is_null column ∷ cs) (missing column' ∷ ms) (c, all) =
    (c, AllMean-append vs ws cs ms all)
AllMean-append vs ws (is_null column ∷ cs) (holds op' column' v ∷ ms) all = absurd (all.0)
AllMean-append vs ws [] (m ∷ ms) all = absurd all
AllMean-append vs ws (compares op column place ∷ cs) [] all = absurd all
AllMean-append vs ws (is_null column ∷ cs) [] all = absurd all

AllMean-end :
    (vs : List Value) (cs : List Condition) (ms : List Meaning) (c : Condition) (m : Meaning)
    → AllMean vs cs ms
    → Means vs c m
    → AllMean vs (cs ++ (c ∷ [])) (ms ++ (m ∷ []))
AllMean-end vs [] [] c m all means = (means, tt)
AllMean-end vs [] (n ∷ ms) c m all means = absurd all
AllMean-end vs (d ∷ cs) [] c m all means = absurd all
AllMean-end vs (d ∷ cs) (n ∷ ms) c m (first, all) means =
    (first, AllMean-end vs cs ms c m all means)

-- The draft says so much, and its index is that of the next parameter.
abbrev IsDraft : Draft → List Meaning → Type 0
IsDraft d ms = AllMean d.params d.conditions ms × (d.param_index ≡ suc (length d.params))

add_condition-IsDraft :
    (op : Operator) (column value : String) (d : Draft) (ms : List Meaning)
    → IsDraft d ms
    → IsDraft (add_condition op column value d) (ms ++ (holds op column (text value) ∷ []))
unfolding add_condition
add_condition-IsDraft op column value d ms (all, next) = (
  AllMean-end (d.params ++ (text value ∷ [])) d.conditions ms (compares op column d.param_index)
      (holds op column (text value)) (AllMean-append d.params (text value ∷ []) d.conditions ms all)
      (
        refl,
        refl,
        ap (λ n. param_at n (d.params ++ (text value ∷ []))) next
            ∙ param_at-end d.params (text value) [],
      ),
  omega (arith, next, length-append d.params (text value ∷ [])),
)

add_given-IsDraft :
    (op : Operator) (column : String) (o : Option String) (d : Draft) (ms : List Meaning)
    → IsDraft d ms
    → IsDraft (add_given op column o d) (ms ++ given op column o)
unfolding add_given given
add_given-IsDraft op column none d ms draft = subst (IsDraft d) (sym (append-nil ms)) draft
add_given-IsDraft op column (some value) d ms draft = elim (Bool-cases (str_eq value "")) [
  | inl empty ↦ rw empty (subst (IsDraft d) (sym (append-nil ms)) draft)
  | inr present ↦ rw present (add_condition-IsDraft op column value d ms draft)
]

add_issuer-IsDraft :
    (o : Option String) (d : Draft) (ms : List Meaning)
    → IsDraft d ms
    → IsDraft (add_issuer o d) (ms ++ issuer_meaning o)
unfolding add_issuer issuer_meaning
add_issuer-IsDraft none d ms draft = subst (IsDraft d) (sym (append-nil ms)) draft
add_issuer-IsDraft (some issuer) d ms (all, next) = elim (Bool-cases (str_eq issuer "")) [
  | inl empty ↦ rw empty (
    AllMean-end d.params d.conditions ms (is_null "p.asset_issuer") (missing "p.asset_issuer") all
        refl,
    next,
  )
  | inr present ↦ rw present (add_condition-IsDraft equals "p.asset_issuer" issuer d ms (all, next))
]

abbrev pub MeansAll : Query → List Meaning → ℕ → ℕ → Type 0
MeansAll q ms limit offset =
    AllMean q.params q.conditions ms
    × (param_at q.limit_place q.params ≡ some (number limit))
    × (param_at q.offset_place q.params ≡ some (number offset))

end_query-MeansAll :
    (limit offset : ℕ) (d : Draft) (ms : List Meaning)
    → IsDraft d ms
    → MeansAll (end_query limit offset d) ms limit offset
unfolding end_query
end_query-MeansAll limit offset d ms (all, next) =
    let rest = number limit ∷ number offset ∷ [] in
    (
      AllMean-append d.params rest d.conditions ms all,
      ap (λ n. param_at n (d.params ++ rest)) next
          ∙ param_at-end d.params (number limit) (number offset ∷ []),
      ap (λ n. param_at n (d.params ++ rest)) (omega (arith, next))
          ∙ param_at-second d.params (number limit) (number offset),
    )

begin_query-IsDraft :
    (merchant_id asset_code : String)
    → IsDraft (begin_query merchant_id asset_code) (
        holds equals "p.merchant_id" (text merchant_id)
        ∷ holds equals "p.asset" (text asset_code)
        ∷ missing "p.deleted_at"
        ∷ [])
unfolding begin_query param_at
begin_query-IsDraft merchant_id asset_code =
    (((refl, refl, refl), ((refl, refl, refl), (refl, tt))), refl)

-- Whatever filters are given: the placeholders of the query stand for the values that the filters
-- name, in their order, those of LIMIT and OFFSET for the limit and the offset; a filter that is
-- missing adds no condition, and an empty issuer asks for payments without one.
pub find_payments_by_asset_lem :
    (merchant_id asset_code : String) (asset_issuer : Option String) (o : Options)
    → MeansAll
        (find_payments_by_asset merchant_id asset_code asset_issuer o)
        (filters merchant_id asset_code asset_issuer o)
        o.limit
        o.offset
unfolding find_payments_by_asset filters
find_payments_by_asset_lem merchant_id asset_code asset_issuer o =
    let d = begin_query merchant_id asset_code in
    let d1 = add_issuer asset_issuer d in
    let d2 = add_given equals "p.status" o.status d1 in
    let d3 = add_given at_least "p.created_at" o.date_from d2 in
    let p1 = add_issuer-IsDraft asset_issuer d _ (begin_query-IsDraft merchant_id asset_code) in
    let p2 = add_given-IsDraft equals "p.status" o.status d1 _ p1 in
    let p3 = add_given-IsDraft at_least "p.created_at" o.date_from d2 _ p2 in
    end_query-MeansAll o.limit o.offset (add_given at_most "p.created_at" o.date_to d3) _
      (add_given-IsDraft at_most "p.created_at" o.date_to d3 _ p3)
