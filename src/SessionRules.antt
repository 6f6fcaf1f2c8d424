-- ===== src/SessionRules.antt =====
-- The business rules of payment sessions, backend/src/lib/payment-session-rules.js, with the issuer
-- defaults of backend/src/constants/assetConstants.js.
-- A JavaScript text is the list of its UTF-16 code units. Built-ins that the rules call and that
-- are not written here (`normalize("NFC")`, `toUpperCase`, number arithmetic, the public-key test)
-- are parameters.
use stellar_payment_api.Base.{
  ℕ, suc, ◌+◌, String, Bool, true, false, not, ◌&&◌, ◌||◌, Option, none, some, List, [], ◌∷◌, ◌++◌,
  if◌then◌else◌, length, ltb, leb, ◌==◌, str_eq,
}
pub mod Issuers
pub mod Limits
pub mod Payloads
pub mod Values

abbrev pub Text : Type 0
Text = List ℕ

abbrev pub text_eq : Text → Text → Bool
text_eq [] [] = true
text_eq [] (b ∷ bs) = false
text_eq (a ∷ as') [] = false
text_eq (a ∷ as') (b ∷ bs) = a == b && text_eq as' bs

abbrev pub between : ℕ → ℕ → ℕ → Bool
between lo hi c = leb lo c && leb c hi

-- /[\u0000-\u001F\u007F-\u009F]/
unfoldable pub is_control : ℕ → Bool
is_control c = leb c 0x1f || between 0x7f 0x9f c

-- /[\u202A-\u202E\u2066-\u2069\u200E\u200F]/
unfoldable pub is_bidi : ℕ → Bool
is_bidi c = between 0x202a 0x202e c || between 0x2066 0x2069 c || between 0x200e 0x200f c

-- /[\u200B-\u200D\u2060\uFEFF]/
unfoldable pub is_zero_width : ℕ → Bool
is_zero_width c = between 0x200b 0x200d c || c == 0x2060 || c == 0xfeff

-- What `trim` takes off: white space and line terminators.
unfoldable pub is_space : ℕ → Bool
is_space c =
    between 9 13 c
    || c == 32
    || c == 160
    || c == 0x1680
    || between 0x2000 0x200a c
    || c == 0x2028
    || c == 0x2029
    || c == 0x202f
    || c == 0x205f
    || c == 0x3000
    || c == 0xfeff

-- `replace(pattern, "")` for a class of units.
unfoldable pub strip : (ℕ → Bool) → Text → Text
strip p [] = []
strip p (c ∷ s) = if p c then strip p s else c ∷ strip p s

unfoldable pub trim_start : Text → Text
trim_start [] = []
trim_start (c ∷ s) = if is_space c then trim_start s else c ∷ s

unfoldable pub keep_nonspace : ℕ → Text → Text
keep_nonspace c [] = if is_space c then [] else c ∷ []
keep_nonspace c (d ∷ s) = c ∷ d ∷ s

unfoldable pub trim_end : Text → Text
unfolding keep_nonspace
trim_end [] = []
trim_end (c ∷ s) = keep_nonspace c (trim_end s)

unfoldable pub trim : Text → Text
trim s = trim_end (trim_start s)

unfoldable pub any : (ℕ → Bool) → Text → Bool
any p [] = false
any p (c ∷ s) = p c || any p s

pub record Cleaned : Type 0 where
  pub value : Text
  pub changed : Bool
  pub had_bidi : Bool

module _ (nfc : Text → Text) where
  -- `sanitizeSessionString`
  unfoldable pub sanitize_session_string : Text → Cleaned
  sanitize_session_string raw =
      let value = trim (strip is_control (strip is_zero_width (strip is_bidi (nfc raw)))) in
      record { value = value; changed = not (text_eq value raw); had_bidi = any is_bidi raw }

-- A value of a parsed body. Arrays and objects are nodes: `Object.keys` gives the keys of both.
mutual
  pub data Value : Type 0 where
    undefined : Value
    scalar : Value
    text : List ℕ → Value
    node : (is_array : Bool) → Fields → Value

  pub data Fields : Type 0 where
    end : Fields
    field : String → Value → Fields → Fields

-- `FORBIDDEN_KEYS`
unfoldable pub is_forbidden : String → Bool
is_forbidden key = str_eq key "__proto__" || str_eq key "constructor" || str_eq key "prototype"

abbrev pub max_inspection_depth : ℕ
max_inspection_depth = 8

pub data Reason : Type 0 where
  malformed_payload : Reason
  forbidden_key : (fields : List String) → Reason
  field_too_long : (field_name : String) (max_length : ℕ) → Reason

pub data Suspicion : Type 0 where
  malformed forbidden bidi_control oversized_field : Suspicion

pub data Sanitized : Type 0 where
  rejected : (modified : List String) (suspicious : List Suspicion) → Reason → Sanitized
  accepted : (payload : Fields) (modified : List String) (suspicious : List Suspicion) → Sanitized

-- `SESSION_FIELD_MAX_LENGTHS`, in its order.
abbrev pub session_field_max_lengths : List (String × ℕ)
session_field_max_lengths =
    ("asset", 12)
    ∷ ("asset_issuer", 56)
    ∷ ("recipient", 256)
    ∷ ("description", 1000)
    ∷ ("message", 28)
    ∷ ("memo", 64)
    ∷ ("memo_type", 16)
    ∷ ("webhook_url", 2048)
    ∷ ("client_id", 128)
    ∷ []

-- `REQUIRED_STRING_FIELDS`
unfoldable pub is_required : String → Bool
is_required name = str_eq name "asset" || str_eq name "recipient"
