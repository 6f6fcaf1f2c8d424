-- ===== src/Metadata.antt =====
-- The sanitizing of payment metadata, backend/src/lib/sanitize-metadata.js. A text is the list of
-- its UTF-16 code units. The regular expressions of `DANGEROUS_PATTERNS` are a parameter: what is
-- left of a text after their replacement by "".
use stellar_payment_api.Base.{
  ℕ, zero, suc, ◌+◌, max, Bool, true, false, ◌||◌, List, [], ◌∷◌, ◌++◌, if◌then◌else◌, ltb, ◌==◌,
}
use stellar_payment_api.SessionRules.{Text, text_eq}
pub mod Escaped

-- `null` and what is neither a string nor an object are `plain`.
mutual
  pub data Json : Type 0 where
    plain : Json
    text : List ℕ → Json
    array : Items → Json
    object : Members → Json

  pub data Items : Type 0 where
    no_items : Items
    item : Json → Items → Items

  pub data Members : Type 0 where
    no_members : Members
    member : List ℕ → Json → Members → Members

-- `getDepth`
unfoldable mutual
  pub get_depth : Json → ℕ → ℕ
  get_depth plain d = d
  get_depth (text s) d = d
  get_depth (array no_items) d = d + 1
  get_depth (array (item v vs)) d = max (get_depth v (d + 1)) (items_depth vs (d + 1))
  get_depth (object no_members) d = d + 1
  get_depth (object (member k v ms)) d = max (get_depth v (d + 1)) (members_depth ms (d + 1))

  pub items_depth : Items → ℕ → ℕ
  items_depth no_items d = 0
  items_depth (item v vs) d = max (get_depth v d) (items_depth vs d)

  pub members_depth : Members → ℕ → ℕ
  members_depth no_members d = 0
  members_depth (member k v ms) d = max (get_depth v d) (members_depth ms d)

-- `countKeys`
unfoldable mutual
  pub count_keys : Json → ℕ
  count_keys plain = 0
  count_keys (text s) = 0
  count_keys (array vs) = items_keys vs
  count_keys (object ms) = members_keys ms

  pub items_keys : Items → ℕ
  items_keys no_items = 0
  items_keys (item v vs) = count_keys v + items_keys vs

  pub members_keys : Members → ℕ
  members_keys no_members = 0
  members_keys (member k v ms) = 1 + count_keys v + members_keys ms

-- `FORBIDDEN_KEYS`: __proto__, constructor and prototype.
abbrev pub proto_key : Text
proto_key = 95 ∷ 95 ∷ 112 ∷ 114 ∷ 111 ∷ 116 ∷ 111 ∷ 95 ∷ 95 ∷ []

unfoldable pub is_forbidden_key : Text → Bool
is_forbidden_key k =
    text_eq k proto_key
    || text_eq k (99 ∷ 111 ∷ 110 ∷ 115 ∷ 116 ∷ 114 ∷ 117 ∷ 99 ∷ 116 ∷ 111 ∷ 114 ∷ [])
    || text_eq k (112 ∷ 114 ∷ 111 ∷ 116 ∷ 111 ∷ 116 ∷ 121 ∷ 112 ∷ 101 ∷ [])

-- `hasForbiddenKey`; the keys of an array are its indices.
unfoldable mutual
  pub has_forbidden_key : Json → Bool
  has_forbidden_key plain = false
  has_forbidden_key (text s) = false
  has_forbidden_key (array vs) = items_forbidden vs
  has_forbidden_key (object ms) = members_forbidden ms

  pub items_forbidden : Items → Bool
  items_forbidden no_items = false
  items_forbidden (item v vs) = has_forbidden_key v || items_forbidden vs

  pub members_forbidden : Members → Bool
  members_forbidden no_members = false
  members_forbidden (member k v ms) =
      is_forbidden_key k || has_forbidden_key v || members_forbidden ms

-- `str.substring(0, n)`
unfoldable pub substring_to : ℕ → Text → Text
substring_to zero s = []
substring_to (suc n) [] = []
substring_to (suc n) (c ∷ s) = c ∷ substring_to n s

-- `replace(/c/g, entity)` for one unit.
unfoldable pub replace_unit : ℕ → Text → Text → Text
replace_unit c entity [] = []
replace_unit c entity (d ∷ s) = (if d == c then entity else d ∷ []) ++ replace_unit c entity s

-- The six replacements by &amp; &lt; &gt; &quot; &#x27; &#x2F; in the order of the source.
unfoldable pub encode : Text → Text
encode s = replace_unit 47 (38 ∷ 35 ∷ 120 ∷ 50 ∷ 70 ∷ 59 ∷ []) (
    replace_unit 39 (38 ∷ 35 ∷ 120 ∷ 50 ∷ 55 ∷ 59 ∷ []) (
      replace_unit 34 (38 ∷ 113 ∷ 117 ∷ 111 ∷ 116 ∷ 59 ∷ []) (
        replace_unit 62 (38 ∷ 103 ∷ 116 ∷ 59 ∷ []) (
          replace_unit 60 (38 ∷ 108 ∷ 116 ∷ 59 ∷ [])
            (replace_unit 38 (38 ∷ 97 ∷ 109 ∷ 112 ∷ 59 ∷ []) s)))))

-- `sanitized[key] = value`. The assignment to `__proto__`, which sets the prototype, is kept as an
-- entry like any other.
unfoldable pub assign : Text → Json → Members → Members
assign k v no_members = member k v no_members
assign k v (member j w ms) = if text_eq j k then member k v ms else member j w (assign k v ms)

pub data MetadataFault : Type 0 where
  too_deep too_many_keys forbidden_key : MetadataFault

pub data Validated : Type 0 where
  invalid : MetadataFault → Validated
  valid : (sanitized : Json) → Validated

module _ (remove_dangerous : Text → Text) where
  -- `sanitizeString`
  unfoldable pub sanitize_string : Text → Text
  sanitize_string s = encode (remove_dangerous (substring_to 1000 s))

  -- `sanitizeObject`; `so_far` is the object built up to this member.
  unfoldable mutual
    pub sanitize_object : Json → Json
    sanitize_object plain = plain
    sanitize_object (text s) = text (sanitize_string s)
    sanitize_object (array vs) = array (sanitize_items vs)
    sanitize_object (object ms) = object (sanitize_members ms no_members)

    pub sanitize_items : Items → Items
    sanitize_items no_items = no_items
    sanitize_items (item v vs) = item (sanitize_object v) (sanitize_items vs)

    pub sanitize_members : Members → Members → Members
    sanitize_members no_members so_far = so_far
    sanitize_members (member k v ms) so_far = sanitize_members ms (
        if is_forbidden_key k
        then so_far
        else assign (sanitize_string k) (sanitize_object v) so_far)

  -- `validateMetadata` for an object or an array.
  unfoldable pub validate_metadata : Json → Validated
  validate_metadata m =
      if ltb 4 (get_depth m 0)
      then invalid too_deep
      else if ltb 50 (count_keys m)
      then invalid too_many_keys
      else if has_forbidden_key m
      then invalid forbidden_key
      else valid (sanitize_object m)
