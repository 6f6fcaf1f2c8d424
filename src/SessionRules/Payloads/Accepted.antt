-- ===== src/SessionRules/Payloads/Accepted.antt =====
-- What an accepted body holds.
use stellar_payment_api.Base.{
  ℕ, ◌≤◌, String, false, ◌≡◌, refl, subst, sym, ap, inl, inr, Option, none, some, List, [], ◌∷◌,
  if◌then◌else◌, length, ltb, Bool-cases, Has, str_eq, eq_iff, arith,
}
use stellar_payment_api.SessionRules.{
  Text, Cleaned, sanitize_session_string, Value, node, Fields, end, field, is_forbidden,
  field_too_long, Suspicion, oversized_field, Sanitized, rejected, accepted,
  session_field_max_lengths,
}
use stellar_payment_api.SessionRules.Values.{IsClean, sanitize_session_string-IsClean}
use stellar_payment_api.SessionRules.Payloads.{
  get_field, set_field, as_text, stored, clean_text, sanitize_field, sanitize_from,
  sanitize_scanned, sanitize_session_payload, add_suspicion, find_forbidden_keys,
}
use stellar_payment_api.SessionRules.Payloads.Forbidden.{KeyAt, find_in_fields_complete, node_scan}
use stellar_payment_api.OrderedMap.{Absent, HasDistinctKeys}

get-set_field_ne :
    (name other : String) (v : Value) (fs : Fields)
    → str_eq name other ≡ false
    → get_field other (set_field name v fs) ≡ get_field other fs
unfolding get_field set_field
get-set_field_ne name other v end n = refl
get-set_field_ne name other v (field key w rest) n = ground (
  arith,
  get-set_field_ne name other v rest n,
  eq_iff key name,
  eq_iff key other,
  eq_iff name other,
)

get-set_field :
    (name : String) (v : Value) (fs : Fields) (t : Text)
    → as_text (get_field name (set_field name v fs)) ≡ some t
    → as_text (some v) ≡ some t
unfolding get_field set_field as_text
get-set_field name v end t e = cc
get-set_field name v (field key w rest) t e =
    ground (arith, get-set_field name v rest t, eq_iff key name)

stored_text : (name : String) (s t : Text) → as_text (some (stored name s)) ≡ some t → t ≡ s
unfolding as_text stored
stored_text name [] t e = ground arith
stored_text name (c ∷ s) t e = ground arith

distinct_fields : HasDistinctKeys session_field_max_lengths
distinct_fields = ground arith

module _ (nfc : Text → Text) where
  -- The field is in the accepted payload what it is here.
  abbrev Agrees : String → Fields → Sanitized → Type 0
  Agrees name q (rejected m s r) = ⊥
  Agrees name q (accepted p m s) = get_field name q ≡ get_field name p

  -- A text in the field is clean and not too long.
  abbrev Fits : String → ℕ → Sanitized → Type 0
  Fits name max_length (rejected m s r) = Unit
  Fits name max_length (accepted p m s) =
      (t : Text) → as_text (get_field name p) ≡ some t → (length t ≤ max_length) × IsClean t

  clean_text_others :
      (name other : String) (max_length : ℕ) (o : Option Text) (q p : Fields) (m : List String)
      (s : List Suspicion)
      → str_eq name other ≡ false
      → Agrees other q (clean_text nfc name max_length o p m s)
      → Agrees other q (accepted p m s)
  unfolding clean_text
  clean_text_others name other max_length none q p m s n a = a
  clean_text_others name other max_length (some raw) q p m s n a =
      ground (
        arith,
        get-set_field_ne name other (stored name (sanitize_session_string nfc raw).value) p n,
      )

  kept_text-Fits :
      (name : String) (max_length : ℕ) (c : Cleaned) (p : Fields) (changed : List String)
      (seen : List Suspicion)
      → IsClean c.value
      → Fits name max_length (
          if ltb max_length (length c.value)
          then rejected changed
              (add_suspicion oversized_field seen)
              (field_too_long name max_length)
          else accepted (set_field name (stored name c.value) p) changed seen)
  kept_text-Fits name max_length c p changed seen clean =
      elim (Bool-cases (ltb max_length (length c.value))) [
        | inl e ↦ rw e tt
        | inr e ↦ rw e (λ t h.
            let same =
              stored_text name c.value t (get-set_field name (stored name c.value) p t h) in
            rw same (ground (arith, e), clean))
      ]

  clean_text-Fits :
      (name : String) (max_length : ℕ) (o : Option Text) (p : Fields) (m : List String)
      (s : List Suspicion)
      → as_text (get_field name p) ≡ o
      → Fits name max_length (clean_text nfc name max_length o p m s)
  unfolding clean_text
  clean_text-Fits name max_length none p m s e = λ t h. cc
  clean_text-Fits name max_length (some raw) p m s e =
      kept_text-Fits name max_length (sanitize_session_string nfc raw) p _ _
        (sanitize_session_string-IsClean nfc raw)

  sanitize_field-Fits :
      (name : String) (max_length : ℕ) (r : Sanitized)
      → Fits name max_length (sanitize_field nfc name max_length r)
  unfolding sanitize_field
  sanitize_field-Fits name max_length (rejected m s r) = tt
  sanitize_field-Fits name max_length (accepted p m s) =
      clean_text-Fits name max_length (as_text (get_field name p)) p m s refl

  sanitize_field_others :
      (name other : String) (max_length : ℕ) (q : Fields) (r : Sanitized)
      → str_eq name other ≡ false
      → Agrees other q (sanitize_field nfc name max_length r)
      → Agrees other q r
  unfolding sanitize_field
  sanitize_field_others name other max_length q (rejected m s r) n a = a
  sanitize_field_others name other max_length q (accepted p m s) n a =
      clean_text_others name other max_length (as_text (get_field name p)) q p m s n a

  -- The rounds leave a field alone that is not in their list.
  sanitize_from_others :
      (other : String) (l : List (String × ℕ)) (q : Fields) (m : List String) (s : List Suspicion)
      (r : Sanitized)
      → Absent other l
      → sanitize_from nfc l r ≡ accepted q m s
      → Agrees other q r
  unfolding sanitize_from
  sanitize_from_others other [] q m s r u e = subst (Agrees other q) (sym e) refl
  sanitize_from_others other ((name, max_length) ∷ l) q m s r (n, u) e =
      sanitize_field_others name other max_length q r n
        (sanitize_from_others other l q m s (sanitize_field nfc name max_length r) u e)

  later-Fits :
      (name : String) (max_length : ℕ) (q : Fields) (m : List String) (s : List Suspicion)
      (r : Sanitized)
      → Agrees name q r
      → Fits name max_length r
      → Fits name max_length (accepted q m s)
  later-Fits name max_length q m s (rejected _ _ _) a f = absurd a
  later-Fits name max_length q m s (accepted p _ _) a f = λ t h. f t (rw (← a) h)

  sanitize_from-Fits :
      (name : String) (max_length : ℕ) (l : List (String × ℕ)) (q : Fields) (m : List String)
      (s : List Suspicion) (r : Sanitized)
      → HasDistinctKeys l
      → Has (name, max_length) l
      → sanitize_from nfc l r ≡ accepted q m s
      → Fits name max_length (accepted q m s)
  unfolding sanitize_from
  sanitize_from-Fits name max_length ((n, k) ∷ l) q m s r (u, d) (inl same) e =
      rw (ap (λ x. x.0) same, ap (λ x. x.1) same)
        (later-Fits n k q m s (sanitize_field nfc n k r)
          (sanitize_from_others n l q m s (sanitize_field nfc n k r) u e)
          (sanitize_field-Fits n k r))
  sanitize_from-Fits name max_length ((n, k) ∷ l) q m s r (u, d) (inr there) e =
      sanitize_from-Fits name max_length l q m s (sanitize_field nfc n k r) d there e
  sanitize_from-Fits name max_length [] q m s r d there e = absurd there

  scan_passed :
      (paths : List String) (body p : Fields) (m : List String) (s : List Suspicion)
      → sanitize_scanned nfc paths body ≡ accepted p m s
      → (paths ≡ [])
        × (sanitize_from nfc session_field_max_lengths (accepted body [] []) ≡ accepted p m s)
  unfolding sanitize_scanned
  scan_passed [] body p m s e = (refl, e)
  scan_passed (path ∷ paths) body p m s e = cc

  -- In an accepted payload every known field that holds a text holds a clean one, no longer than
  -- the field's maximum.
  pub accepted_fields :
      (body p : Fields) (m : List String) (s : List Suspicion) (name : String) (max_length : ℕ)
      (t : Text)
      → sanitize_session_payload nfc (node false body) ≡ accepted p m s
      → Has (name, max_length) session_field_max_lengths
      → as_text (get_field name p) ≡ some t
      → (length t ≤ max_length) × IsClean t
  unfolding sanitize_session_payload
  accepted_fields body p m s name max_length t e known h =
      let (clear, looped) = scan_passed (find_forbidden_keys (node false body) "" 0) body p m s e in
      sanitize_from-Fits name max_length session_field_max_lengths p m s (accepted body [] [])
        distinct_fields known looped t h

  -- An accepted payload has in every other field what the body has there.
  accepted_others :
      (body p : Fields) (m : List String) (s : List Suspicion) (other : String)
      → sanitize_session_payload nfc (node false body) ≡ accepted p m s
      → Absent other session_field_max_lengths
      → get_field other p ≡ get_field other body
  unfolding sanitize_session_payload
  accepted_others body p m s other e unknown =
      let (clear, looped) = scan_passed (find_forbidden_keys (node false body) "" 0) body p m s e in
      sanitize_from_others other session_field_max_lengths p m s (accepted body [] []) unknown
        looped

  -- No key of an accepted body is a forbidden one, down to eight levels below the top.
  accepted_keys :
      (body p : Fields) (m : List String) (s : List Suspicion) (key : String) (n : ℕ)
      → sanitize_session_payload nfc (node false body) ≡ accepted p m s
      → KeyAt key n body
      → n ≤ 8
      → is_forbidden key ≡ false
  unfolding sanitize_session_payload
  accepted_keys body p m s key n e there h =
      let (clear, looped) = scan_passed (find_forbidden_keys (node false body) "" 0) body p m s e in
      find_in_fields_complete "" 0 there (omega (arith, h))
        (node_scan false body "" 0 (omega arith) clear)
