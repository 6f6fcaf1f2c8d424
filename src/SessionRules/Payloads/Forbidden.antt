-- ===== src/SessionRules/Payloads/Forbidden.antt =====
-- The scan for forbidden keys against a description of where a key stands in a body.
use stellar_payment_api.Base.{
  ℕ, suc, ◌+◌, ◌≤◌, String, Bool, true, false, ◌≡◌, refl, List, [], ◌∷◌, ◌++◌, if◌then◌else◌, arith,
}
use stellar_payment_api.SessionRules.{Value, node, Fields, field, is_forbidden}
use stellar_payment_api.SessionRules.Payloads.{find_forbidden_keys, find_in_fields, child_path}

-- The key stands in the object, below so many other keys.
pub data KeyAt (key : String) : ℕ → Fields → Type 0 where
  here : {v : Value} {rest : Fields} → KeyAt key 0 (field key v rest)
  inside :
      {n : ℕ} {outer : String} {a : Bool} {fs rest : Fields}
      → KeyAt key n fs
      → KeyAt key (suc n) (field outer (node a fs) rest)
  later :
      {n : ℕ} {other : String} {v : Value} {rest : Fields}
      → KeyAt key n rest
      → KeyAt key n (field other v rest)

append_nil : (xs ys : List String) → xs ++ ys ≡ [] → (xs ≡ []) × (ys ≡ [])
append_nil [] ys e = (refl, e)
append_nil (x ∷ xs) ys e = cc

-- What an empty scan says of the head.
head_scan :
    (b : Bool) (p : String) (xs ys : List String)
    → (if b then p ∷ [] else xs) ++ ys ≡ []
    → (b ≡ false) × (xs ≡ []) × (ys ≡ [])
head_scan true p xs ys e = cc
head_scan false p xs ys e =
    let (none_below, none_after) = append_nil xs ys e in (refl, none_below, none_after)

pub node_scan :
    (a : Bool) (fs : Fields) (path : String) (depth : ℕ)
    → depth ≤ 8
    → find_forbidden_keys (node a fs) path depth ≡ []
    → find_in_fields fs path depth ≡ []
unfolding find_forbidden_keys
node_scan a fs path depth h e = ground arith

pub find_in_fields_complete :
    {key : String} {n : ℕ} {fields : Fields} (path : String) (depth : ℕ)
    → KeyAt key n fields
    → n + depth ≤ 8
    → find_in_fields fields path depth ≡ []
    → is_forbidden key ≡ false
unfolding find_in_fields
find_in_fields_complete {key} path depth (here {v} {rest}) h e =
    (head_scan (is_forbidden key) _ (find_forbidden_keys v (child_path path key) (suc depth))
      (find_in_fields rest path depth) e).0
find_in_fields_complete {key} path depth (inside {n} {outer} {a} {fs} {rest} k) h e =
    let (free, below, after) =
      head_scan (is_forbidden outer) _
        (find_forbidden_keys (node a fs) (child_path path outer) (suc depth))
        (find_in_fields rest path depth) e in
    find_in_fields_complete (child_path path outer) (suc depth) k (omega (arith, h))
      (node_scan a fs (child_path path outer) (suc depth) (omega (arith, h)) below)
find_in_fields_complete {key} path depth (later {n} {other} {v} {rest} k) h e =
    let (free, below, after) =
      head_scan (is_forbidden other) _ (find_forbidden_keys v (child_path path other) (suc depth))
        (find_in_fields rest path depth) e in
    find_in_fields_complete path depth k h after
