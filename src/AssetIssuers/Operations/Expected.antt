-- ===== src/AssetIssuers/Operations/Expected.antt =====
-- What a verification that passes says of its transaction.
use stellar_payment_api.Base.{
  ◌≢◌, ap, eq_refl, Option-cases, String, false, Option, none, some, List, ◌∷◌, ◌≡◌, ◌⊎◌, inl, inr,
  refl, sym, subst, str_eq, eq_iff, Bool-cases, true, not, arith,
}
use stellar_payment_api.Trustlines.Operations.{Asset, native, credit, or_text}
use stellar_payment_api.AssetIssuers.Operations.{
  payment, change_trust, manage_buy_offer, manage_sell_offer, extract_asset, found_asset,
  found_offer, unrelated, path_payment_strict_receive, path_payment_strict_send,
  create_passive_sell_offer, claim_claimable_balance, Operation, Validators, Expectation, Found,
  passed, first_relevant, operation_type, differs, find_asset, is_native_trustline, check_found,
  check_first, check_operations, verify_asset_issuer_operation,
}

-- The actual value is the expected one, if one is expected.
abbrev pub Meets : String → Option String → Type 0
Meets expected actual = (expected ≡ "") ⊎ (actual ≡ some expected)

differs-Meets :
    (expected : String) (actual : Option String)
    → differs expected actual ≡ false
    → Meets expected actual
unfolding differs
differs-Meets expected none same = inl ((eq_iff expected "").0 (ground (arith, same)))
differs-Meets expected (some actual) same = elim (Bool-cases (str_eq expected "")) [
  | inl any ↦ inl ((eq_iff expected "").0 any)
  | inr given ↦ inr (ground (arith, given, same, eq_iff actual expected))
]

-- The first text if it is there and not empty, and else the other one.
abbrev pub FirstGiven : Option String → Option String → Option String → Type 0
FirstGiven first other chosen =
    ((t : String) × (first ≡ some t) × (t ≢ "") × (chosen ≡ some t))
    ⊎ (((first ≡ none) ⊎ (first ≡ some "")) × (chosen ≡ other))

or_text-FirstGiven : (first other : Option String) → FirstGiven first other (or_text first other)
unfolding or_text
or_text-FirstGiven none other = inr (inl refl, refl)
or_text-FirstGiven (some t) other = elim (Bool-cases (str_eq t "")) [
  | inl empty ↦ inr (inr (ap some ((eq_iff t "").0 empty)), ground (arith, empty))
  | inr given ↦ inl (t, refl, λ e. cc (e, given, eq_refl ""), ground (arith, given))
]

module _ (validators : Validators) where
  found_checked :
      (e : Expectation) (op : Operation) (o : Option Found) (t : String) (f : Found)
      → check_found validators e op o ≡ passed t f
      → (o ≡ some f)
        × (t ≡ operation_type op)
        × (differs e.asset_code f.asset_code ≡ false)
        × (differs e.asset_issuer f.asset_issuer ≡ false)
        × (is_native_trustline op f ≡ false)
  unfolding check_found
  found_checked e op none t f passes = ground (arith, passes)
  found_checked e op (some g) t f passes = ground (arith, passes)

  first_checked :
      (e : Expectation) (o : Option Operation) (t : String) (f : Found)
      → check_first validators e o ≡ passed t f
      → (op : Operation) × (o ≡ some op)
        × (differs e.operation (some (operation_type op)) ≡ false)
        × (check_found validators e op (find_asset validators op) ≡ passed t f)
  unfolding check_first
  first_checked e none t f passes = absurd (cc passes)
  first_checked e (some op) t f passes = (op, refl, ground (arith, passes), ground (arith, passes))

  -- The code and the issuer of an asset, which are valid; a missing asset counts as the native one.
  unfoldable pub Names : Option Asset → Option String → Option String → Type 0
  Names none code issuer = (code ≡ some "XLM") × (issuer ≡ none)
  Names (some native) code issuer = (code ≡ some "XLM") × (issuer ≡ none)
  Names (some (credit c i)) code issuer =
      (code ≡ some c)
      × (issuer ≡ some i)
      × (validators.is_valid_asset_code c ≡ true)
      × (validators.is_valid_public_key i ≡ true)

  -- The code of what is bought, with its issuer, or where it has none that of what is sold.
  abbrev pub ShowsOffer : Option Asset → Option Asset → Found → Type 0
  ShowsOffer selling buying f =
      (bought : Option String) × (sold_code : Option String) × (sold : Option String) × Names buying
        f.asset_code bought
      × Names selling sold_code sold
      × FirstGiven bought sold f.asset_issuer

  -- What an operation shows of an asset and an amount.
  unfoldable pub Shows : Operation → Found → Type 0
  Shows (payment asset amount) f =
      Names asset f.asset_code f.asset_issuer × (f.amount ≡ some amount)
  Shows (change_trust asset) f =
      Names asset f.asset_code f.asset_issuer × (f.asset_code ≢ some "XLM") × (f.amount ≡ none)
  Shows (manage_buy_offer selling buying amount) f =
      ShowsOffer selling buying f × (f.amount ≡ some amount)
  Shows (manage_sell_offer selling buying amount) f =
      ShowsOffer selling buying f × (f.amount ≡ some amount)
  Shows (path_payment_strict_receive asset amount least) f =
      Names asset f.asset_code f.asset_issuer × FirstGiven amount least f.amount
  Shows (path_payment_strict_send asset amount least) f =
      Names asset f.asset_code f.asset_issuer × FirstGiven amount least f.amount
  Shows op f = (f.asset_code ≡ none) × (f.asset_issuer ≡ none) × (f.amount ≡ none)

  extract-Names :
      (asset : Option Asset) (code : String) (issuer : Option String)
      → extract_asset validators asset ≡ some (code, issuer)
      → Names asset (some code) issuer
  unfolding extract_asset Names
  extract-Names none code issuer e = ground (arith, e)
  extract-Names (some native) code issuer e = ground (arith, e)
  extract-Names (some (credit c i)) code issuer e = ground (arith, e)

  found_asset-Names :
      (asset : Option Asset) (amount : Option String) (f : Found)
      → found_asset validators amount (extract_asset validators asset) ≡ some f
      → Names asset f.asset_code f.asset_issuer × (f.amount ≡ amount)
  unfolding found_asset
  found_asset-Names asset amount f e = elim (Option-cases (extract_asset validators asset)) [
    | inl out ↦ ground (arith, e, out)
    | inr ((code, issuer), there) ↦
        let names = extract-Names asset code issuer there in
        let same : f ≡ record { asset_code = some code; asset_issuer = issuer; amount = amount } =
          ground (arith, e, there) in
        subst (λ (x : Found). Names asset x.asset_code x.asset_issuer × (x.amount ≡ amount))
          (sym same) (names, refl)
  ]

  found_offer-ShowsOffer :
      (selling buying : Option Asset) (amount : String) (f : Found)
      → found_offer validators amount
          (extract_asset validators selling)
          (extract_asset validators buying)
        ≡ some f
      → ShowsOffer selling buying f × (f.amount ≡ some amount)
  unfolding found_offer
  found_offer-ShowsOffer selling buying amount f e =
      elim (Option-cases (extract_asset validators selling)) [
        | inl out ↦ ground (arith, e, out)
        | inr ((sold_code, sold), sells) ↦ elim (Option-cases (extract_asset validators buying)) [
          | inl out ↦ ground (arith, e, sells, out)
          | inr ((code, bought), buys) ↦
              let same : f ≡ record {
                asset_code = some code;
                asset_issuer = or_text bought sold;
                amount = some amount;
              } =
                ground (arith, e, sells, buys) in
              subst (λ (x : Found). ShowsOffer selling buying x × (x.amount ≡ some amount))
                (sym same)
                (
                  (
                    bought,
                    some sold_code,
                    sold,
                    extract-Names buying code bought buys,
                    extract-Names selling sold_code sold sells,
                    or_text-FirstGiven bought sold,
                  ),
                  refl,
                )
        ]
      ]

  native_code : (code : Option String) → code ≡ some "XLM" → not (differs "XLM" code) ≡ true
  unfolding differs
  native_code none e = cc e
  native_code (some c) e = ground (arith, e, eq_iff c "XLM")

  -- What is found is what the operation shows, unless it is a trustline to the native asset.
  found-Shows :
      (op : Operation) (f : Found)
      → find_asset validators op ≡ some f
      → is_native_trustline op f ≡ false
      → Shows op f
  unfolding find_asset Shows is_native_trustline
  found-Shows (payment asset amount) f found trustline =
      found_asset-Names asset (some amount) f found
  found-Shows (change_trust asset) f found trustline =
      let (names, none_found) = found_asset-Names asset none f found in
      (names, λ e. cc (native_code f.asset_code e, trustline), none_found)
  found-Shows (manage_buy_offer selling buying amount) f found trustline =
      found_offer-ShowsOffer selling buying amount f found
  found-Shows (manage_sell_offer selling buying amount) f found trustline =
      found_offer-ShowsOffer selling buying amount f found
  found-Shows (path_payment_strict_receive asset amount least) f found trustline =
      let (names, same) = found_asset-Names asset (or_text amount least) f found in
      (names, subst (FirstGiven amount least) (sym same) (or_text-FirstGiven amount least))
  found-Shows (path_payment_strict_send asset amount least) f found trustline =
      let (names, same) = found_asset-Names asset (or_text amount least) f found in
      (names, subst (FirstGiven amount least) (sym same) (or_text-FirstGiven amount least))
  found-Shows create_passive_sell_offer f found trustline = ground (arith, found)
  found-Shows claim_claimable_balance f found trustline = ground (arith, found)
  found-Shows unrelated f found trustline = ground (arith, found)

  -- A verification passes only for a transaction whose first operation on assets is of the expected
  -- type, with the expected code and issuer in the answer where they are given. The answer has the
  -- type of that operation and what it shows: for a payment its asset and amount; for a trustline
  -- its asset, which is not the native one; for an offer its amount and the code of what is bought,
  -- with the issuer of what is bought or, where it has none, of what is sold; for a path payment the
  -- destination asset with the amount or else the least amount; for the other types nothing. Every
  -- code and issuer that is taken from an asset is valid.
  pub passed_operation :
      (e : Expectation) (op : Operation) (ops : List Operation) (t : String) (f : Found)
      → verify_asset_issuer_operation validators e (some (op ∷ ops)) ≡ passed t f
      → (first : Operation) × (first_relevant (op ∷ ops) ≡ some first)
        × Shows first f
        × (t ≡ operation_type first)
        × Meets e.operation (some t)
        × Meets e.asset_code f.asset_code
        × Meets e.asset_issuer f.asset_issuer
  unfolding verify_asset_issuer_operation check_operations
  passed_operation e op ops t f passes =
      let (first, here, same_type, found) =
        first_checked e (first_relevant (op ∷ ops)) t f passes in
      let (asset, type, code, issuer, trustline) =
        found_checked e first (find_asset validators first) t f found in
      (
        first,
        here,
        found-Shows first f asset trustline,
        type,
        subst (λ x. Meets e.operation (some x)) (sym type)
            (differs-Meets e.operation (some (operation_type first)) same_type),
        differs-Meets e.asset_code f.asset_code code,
        differs-Meets e.asset_issuer f.asset_issuer issuer,
      )
