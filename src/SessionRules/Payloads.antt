-- ===== src/SessionRules/Payloads.antt =====
-- The sanitizing of a session body: `findForbiddenKeys` and `sanitizeSessionPayload`. The messages
-- of a rejection are left out, its reason and details are kept.
use stellar_payment_api.Base.{
  ℕ, suc, String, Bool, true, false, not, ◌&&◌, ◌||◌, Option, none, some, List, [], ◌∷◌, ◌++◌,
  if◌then◌else◌, length, ltb, leb, str_eq,
}
use stellar_payment_api.SessionRules.{
  Text, Cleaned, sanitize_session_string, Value, undefined, scalar, text, node, Fields, end, field,
  is_forbidden, max_inspection_depth, Reason, malformed_payload, forbidden_key, field_too_long,
  Suspicion, malformed, forbidden, bidi_control, oversized_field, Sanitized, rejected, accepted,
  session_field_max_lengths, is_required,
}
use Prim.Native.String.{◌++◌ as append}
pub mod Forbidden
pub mod Accepted

-- `path ? `${path}.${key}` : key`
unfoldable pub child_path : String → String → String
child_path path key = if str_eq path "" then key else append path (append "." key)

-- `findForbiddenKeys`: the paths it adds to `found`.
unfoldable mutual
  pub find_forbidden_keys : Value → String → ℕ → List String
  find_forbidden_keys undefined path depth = []
  find_forbidden_keys scalar path depth = []
  find_forbidden_keys (text s) path depth = []
  find_forbidden_keys (node is_array fields) path depth =
      if ltb max_inspection_depth depth then [] else find_in_fields fields path depth

  pub find_in_fields : Fields → String → ℕ → List String
  find_in_fields end path depth = []
  find_in_fields (field key v rest) path depth =
      (if is_forbidden key
        then child_path path key ∷ []
        else find_forbidden_keys v (child_path path key) (suc depth))
      ++ find_in_fields rest path depth

-- `payload[field]`
unfoldable pub get_field : String → Fields → Option Value
get_field name end = none
get_field name (field key v rest) = if str_eq key name then some v else get_field name rest

-- `typeof value === "string"`
unfoldable pub as_text : Option Value → Option Text
as_text (some (text s)) = some s
as_text _ = none

-- `payload[field] = value`, for a field that the payload has.
unfoldable pub set_field : String → Value → Fields → Fields
set_field name v end = end
set_field name v (field key w rest) =
    if str_eq key name then field key v rest else field key w (set_field name v rest)

pub same_suspicion : Suspicion → Suspicion → Bool
same_suspicion malformed malformed = true
same_suspicion forbidden forbidden = true
same_suspicion bidi_control bidi_control = true
same_suspicion oversized_field oversized_field = true
same_suspicion _ _ = false

-- `suspicious.add`
pub add_suspicion : Suspicion → List Suspicion → List Suspicion
add_suspicion x [] = x ∷ []
add_suspicion x (y ∷ ys) = if same_suspicion x y then y ∷ ys else y ∷ add_suspicion x ys

-- `value === "" && !REQUIRED_STRING_FIELDS.has(field) ? undefined : value`
unfoldable pub stored : String → Text → Value
stored name [] = if is_required name then text [] else undefined
stored name (c ∷ s) = text (c ∷ s)

module _ (nfc : Text → Text) where
  -- One round of the loop, on the field's text.
  unfoldable pub clean_text :
      String → ℕ → Option Text → Fields → List String → List Suspicion → Sanitized
  clean_text name max_length none payload modified suspicious = accepted payload modified suspicious
  clean_text name max_length (some raw) payload modified suspicious =
      let c = sanitize_session_string nfc raw in
      let seen = if c.had_bidi then add_suspicion bidi_control suspicious else suspicious in
      let changed = if c.changed then modified ++ (name ∷ []) else modified in
      if ltb max_length (length c.value)
      then rejected changed (add_suspicion oversized_field seen) (field_too_long name max_length)
      else accepted (set_field name (stored name c.value) payload) changed seen

  -- A rejection returns early: the later rounds pass it on.
  unfoldable pub sanitize_field : String → ℕ → Sanitized → Sanitized
  sanitize_field name max_length (rejected modified suspicious reason) =
      rejected modified suspicious reason
  sanitize_field name max_length (accepted payload modified suspicious) =
      clean_text name max_length (as_text (get_field name payload)) payload modified suspicious

  unfoldable pub sanitize_from : List (String × ℕ) → Sanitized → Sanitized
  sanitize_from [] r = r
  sanitize_from ((name, max_length) ∷ rest) r =
      sanitize_from rest (sanitize_field name max_length r)

  -- The body after the scan for forbidden keys.
  unfoldable pub sanitize_scanned : List String → Fields → Sanitized
  sanitize_scanned (path ∷ paths) body = rejected [] (forbidden ∷ []) (forbidden_key (path ∷ paths))
  sanitize_scanned [] body = sanitize_from session_field_max_lengths (accepted body [] [])

  -- `sanitizeSessionPayload`; a plain object is a node that is no array.
  unfoldable pub sanitize_session_payload : Value → Sanitized
  sanitize_session_payload (node false body) =
      sanitize_scanned (find_forbidden_keys (node false body) "" 0) body
  sanitize_session_payload (node true body) = rejected [] (malformed ∷ []) malformed_payload
  sanitize_session_payload undefined = rejected [] (malformed ∷ []) malformed_payload
  sanitize_session_payload scalar = rejected [] (malformed ∷ []) malformed_payload
  sanitize_session_payload (text s) = rejected [] (malformed ∷ []) malformed_payload
