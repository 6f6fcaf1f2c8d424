-- ===== src/Tests/Notes.antt =====
-- The metadata sanitizer at a concrete object.
use stellar_payment_api.Base.{◌≤◌, ◌<◌, ◌≡◌, refl, false, ◌&&◌, [], ◌∷◌, if◌then◌else◌, ◌==◌, arith}
use stellar_payment_api.SessionRules.{Text}
use stellar_payment_api.Metadata.{
  Json, plain, object, no_members, member, get_depth, count_keys, has_forbidden_key,
  is_forbidden_key, proto_key, substring_to, replace_unit, encode, sanitize_string, sanitize_object,
  valid, validate_metadata,
}
use stellar_payment_api.Metadata.Escaped.{IsEscaped, validated_metadata, proto_key_assigned}

-- One of the patterns, "$ne".
abbrev remove_ne : Text → Text
remove_ne [] = []
remove_ne (a ∷ []) = a ∷ []
remove_ne (a ∷ b ∷ []) = a ∷ b ∷ []
remove_ne (a ∷ b ∷ c ∷ s) =
    if a == 36 && b == 110 && c == 101 then remove_ne s else a ∷ remove_ne (b ∷ c ∷ s)

-- __pro$neto__
abbrev disguised : Text
disguised = 95 ∷ 95 ∷ 112 ∷ 114 ∷ 111 ∷ 36 ∷ 110 ∷ 101 ∷ 116 ∷ 111 ∷ 95 ∷ 95 ∷ []

-- { "a": null }
abbrev inner : Json
inner = object (member (97 ∷ []) plain no_members)

disguised_passes : is_forbidden_key disguised ≡ false
unfolding is_forbidden_key
disguised_passes = refl

disguised_becomes_proto : sanitize_string remove_ne disguised ≡ proto_key
unfolding sanitize_string encode replace_unit substring_to
disguised_becomes_proto = refl

inner_is_shallow : get_depth inner 1 ≤ 4
unfolding get_depth
inner_is_shallow = omega arith

inner_is_small : count_keys inner < 50
unfolding count_keys
inner_is_small = omega arith

inner_is_clean : has_forbidden_key inner ≡ false
unfolding has_forbidden_key is_forbidden_key
inner_is_clean = refl

abbrev disguised_object : Json
disguised_object = object (member disguised inner no_members)

abbrev stored_object : Json
stored_object = object (member proto_key (sanitize_object remove_ne inner) no_members)

disguised_is_accepted : validate_metadata remove_ne disguised_object ≡ valid stored_object
disguised_is_accepted =
    proto_key_assigned remove_ne disguised inner disguised_passes disguised_becomes_proto
      inner_is_shallow inner_is_small inner_is_clean

proto_key_assigned_example : validate_metadata remove_ne disguised_object ≡ valid stored_object
proto_key_assigned_example =
    proto_key_assigned remove_ne disguised inner disguised_passes disguised_becomes_proto
      inner_is_shallow inner_is_small inner_is_clean

validated_metadata_example :
    (get_depth disguised_object 0 ≤ 4)
    × (count_keys disguised_object ≤ 50)
    × (has_forbidden_key disguised_object ≡ false)
    × IsEscaped stored_object
validated_metadata_example =
    validated_metadata remove_ne disguised_object stored_object disguised_is_accepted
