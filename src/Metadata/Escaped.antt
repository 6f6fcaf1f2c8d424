-- ===== src/Metadata/Escaped.antt =====
-- What sanitized metadata holds.
use stellar_payment_api.Base.{
  ℕ, ◌≤◌, ◌<◌, ◌≡◌, refl, Bool, true, false, ◌||◌, [], ◌∷◌, ◌++◌, if◌then◌else◌, ltb, ◌==◌,
  Bool-cases, inl, inr, arith,
}
use stellar_payment_api.SessionRules.{Text, text_eq, any}
use stellar_payment_api.Metadata.{
  proto_key, too_deep, too_many_keys, forbidden_key, Json, plain, text, array, object, Items,
  no_items, item, Members, no_members, member, get_depth, count_keys, is_forbidden_key,
  has_forbidden_key, substring_to, replace_unit, encode, assign, invalid, valid, sanitize_string,
  sanitize_object, sanitize_items, sanitize_members, validate_metadata,
}

-- The units < > " ' /
abbrev pub is_markup : ℕ → Bool
is_markup c = c == 60 || c == 62 || c == 34 || c == 39 || c == 47

any-append : (p : ℕ → Bool) (s t : Text) → any p (s ++ t) ≡ (any p s || any p t)
unfolding any
any-append p [] t = refl
any-append p (c ∷ s) t = ground (arith, any-append p s t)

-- After a replacement the unit is gone, if the entity does not have it.
any-replace_unit :
    (c : ℕ) (e s : Text)
    → any (λ d. d == c) e ≡ false
    → any (λ d. d == c) (replace_unit c e s) ≡ false
unfolding any replace_unit
any-replace_unit c e [] h = refl
any-replace_unit c e (d ∷ s) h = ground (
  arith,
  any-replace_unit c e s h,
  any-append (λ d. d == c) (if d == c then e else d ∷ []) (replace_unit c e s),
)

-- A replacement brings in no unit that neither the text nor the entity has.
any-replace_unit_none :
    (p : ℕ → Bool) (c : ℕ) (e s : Text)
    → any p e ≡ false
    → any p s ≡ false
    → any p (replace_unit c e s) ≡ false
unfolding any replace_unit
any-replace_unit_none p c e [] h k = refl
any-replace_unit_none p c e (d ∷ s) h k = ground (
  arith,
  any-replace_unit_none p c e s h,
  any-append p (if d == c then e else d ∷ []) (replace_unit c e s),
)

any_markup :
    (s : Text)
    → any (λ d. d == 60) s ≡ false
    → any (λ d. d == 62) s ≡ false
    → any (λ d. d == 34) s ≡ false
    → any (λ d. d == 39) s ≡ false
    → any (λ d. d == 47) s ≡ false
    → any is_markup s ≡ false
unfolding any
any_markup [] a b c d e = refl
any_markup (x ∷ s) a b c d e = ground (arith, any_markup s)

any-encode : (s : Text) → any is_markup (encode s) ≡ false
unfolding encode any
any-encode s =
    let keep : (p : ℕ → Bool) (c : ℕ) (e t : Text)
        → any p e ≡ false
        → any p t ≡ false
        → any p (replace_unit c e t) ≡ false =
      any-replace_unit_none in
    any_markup (encode s)
      (keep _ 47 _ _ refl (
        keep _ 39 _ _ refl
          (keep _ 34 _ _ refl (keep _ 62 _ _ refl (any-replace_unit 60 _ _ refl)))))
      (keep _ 47 _ _ refl (keep _ 39 _ _ refl (keep _ 34 _ _ refl (any-replace_unit 62 _ _ refl))))
      (keep _ 47 _ _ refl (keep _ 39 _ _ refl (any-replace_unit 34 _ _ refl)))
      (keep _ 47 _ _ refl (any-replace_unit 39 _ _ refl)) (any-replace_unit 47 _ _ refl)

-- No text and no key of the value has a markup unit.
mutual
  pub IsEscaped : Json → Type 0
  IsEscaped plain = Unit
  IsEscaped (text s) = any is_markup s ≡ false
  IsEscaped (array vs) = ItemsEscaped vs
  IsEscaped (object ms) = MembersEscaped ms

  pub ItemsEscaped : Items → Type 0
  ItemsEscaped no_items = Unit
  ItemsEscaped (item v vs) = IsEscaped v × ItemsEscaped vs

  pub MembersEscaped : Members → Type 0
  MembersEscaped no_members = Unit
  MembersEscaped (member k v ms) = (any is_markup k ≡ false) × IsEscaped v × MembersEscaped ms

assign-MembersEscaped :
    (k : Text) (v : Json) (ms : Members)
    → any is_markup k ≡ false
    → IsEscaped v
    → MembersEscaped ms
    → MembersEscaped (assign k v ms)
unfolding assign IsEscaped
assign-MembersEscaped k v no_members e f m = (e, f, tt)
assign-MembersEscaped k v (member j w ms) e f (a, b, m) = elim (Bool-cases (text_eq j k)) [
  | inl same ↦ rw same (e, f, m)
  | inr other ↦ rw other (a, b, assign-MembersEscaped k v ms e f m)
]

module _ (remove_dangerous : Text → Text) where
  assigned-MembersEscaped :
      (k : Text) (v : Json) (so_far : Members)
      → IsEscaped v
      → MembersEscaped so_far
      → MembersEscaped (
          if is_forbidden_key k
          then so_far
          else assign (sanitize_string remove_dangerous k) v so_far)
  assigned-MembersEscaped k v so_far e m = elim (Bool-cases (is_forbidden_key k)) [
    | inl bad ↦ rw bad m
    | inr good ↦ rw good (
        assign-MembersEscaped (sanitize_string remove_dangerous k) v so_far
          (unfold sanitize_string in any-encode (remove_dangerous (substring_to 1000 k))) e m)
  ]

  mutual
    unfolding sanitize_object sanitize_string IsEscaped

    sanitize_object-IsEscaped : (v : Json) → IsEscaped (sanitize_object remove_dangerous v)
    sanitize_object-IsEscaped plain = tt
    sanitize_object-IsEscaped (text s) = any-encode (remove_dangerous (substring_to 1000 s))
    sanitize_object-IsEscaped (array vs) = sanitize_items-Escaped vs
    sanitize_object-IsEscaped (object ms) = sanitize_members-Escaped ms no_members tt

    sanitize_items-Escaped : (vs : Items) → ItemsEscaped (sanitize_items remove_dangerous vs)
    sanitize_items-Escaped no_items = tt
    sanitize_items-Escaped (item v vs) = (sanitize_object-IsEscaped v, sanitize_items-Escaped vs)

    sanitize_members-Escaped :
        (ms so_far : Members)
        → MembersEscaped so_far
        → MembersEscaped (sanitize_members remove_dangerous ms so_far)
    sanitize_members-Escaped no_members so_far m = m
    sanitize_members-Escaped (member k v ms) so_far m = sanitize_members-Escaped ms _ (
        assigned-MembersEscaped k (sanitize_object remove_dangerous v) so_far
          (sanitize_object-IsEscaped v) m)

  validated-cases :
      (m s : Json) (a b c : Bool)
      → (if a
          then invalid too_deep
          else if b
          then invalid too_many_keys
          else if c
          then invalid forbidden_key
          else valid (sanitize_object remove_dangerous m))
        ≡ valid s
      → (a ≡ false) × (b ≡ false) × (c ≡ false) × (s ≡ sanitize_object remove_dangerous m)
  validated-cases m s true b c e = cc
  validated-cases m s false true c e = cc
  validated-cases m s false false true e = cc
  validated-cases m s false false false e = (refl, refl, refl, ground arith)

  -- Metadata that is accepted is at most four levels deep and has at most 50 keys, none of them
  -- forbidden, and no text or key of what is stored for it has a unit of markup.
  pub validated_metadata :
      (m s : Json)
      → validate_metadata remove_dangerous m ≡ valid s
      → (get_depth m 0 ≤ 4) × (count_keys m ≤ 50) × (has_forbidden_key m ≡ false) × IsEscaped s
  unfolding validate_metadata
  validated_metadata m s e =
      let (shallow, few, free, same) =
        validated-cases m s (ltb 4 (get_depth m 0)) (ltb 50 (count_keys m)) (has_forbidden_key m)
          e in
      (ground (arith, shallow), ground (arith, few), free, rw same (sanitize_object-IsEscaped m))

  -- A key that is not forbidden but becomes `__proto__` when it is cleaned passes the validation,
  -- and its value is assigned to `__proto__`.
  pub proto_key_assigned :
      (k : Text) (v : Json)
      → is_forbidden_key k ≡ false
      → sanitize_string remove_dangerous k ≡ proto_key
      → get_depth v 1 ≤ 4
      → count_keys v < 50
      → has_forbidden_key v ≡ false
      → validate_metadata remove_dangerous (object (member k v no_members))
        ≡ valid (object (member proto_key (sanitize_object remove_dangerous v) no_members))
  unfolding validate_metadata sanitize_object assign get_depth count_keys has_forbidden_key
  proto_key_assigned k v free cleaned shallow few clean = ground (arith, free, cleaned)
