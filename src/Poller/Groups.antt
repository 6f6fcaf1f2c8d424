-- ===== src/Poller/Groups.antt =====
-- The grouping of the pending payments in `pollPendingPayments` of
-- backend/src/lib/horizon-poller.js: a JavaScript map from `recipient:asset` to a list, in the
-- order of first insertion.
use stellar_payment_api.Base.{
  String, false, ◌≡◌, List, [], ◌∷◌, ◌++◌, if◌then◌else◌, str_eq, eq_iff, All, arith, ◌∙◌, sym,
}
use Prim.Native.String
use mathlib.Core.List.{append_assoc, append-nil}
use stellar_payment_api.Poller.{Payment}

module _ {Metadata : Type 0} where
  pub group_key : Payment Metadata → String
  group_key p = String.◌++◌ p.recipient (String.◌++◌ ":" p.asset)

  -- `if (!groups.has(key)) groups.set(key, []); groups.get(key).push(p)`
  push_group :
      String
      → Payment Metadata
      → List (String × List (Payment Metadata))
      → List (String × List (Payment Metadata))
  push_group k p [] = (k, p ∷ []) ∷ []
  push_group k p ((j, ps) ∷ gs) =
      if str_eq j k then (j, ps ++ p ∷ []) ∷ gs else (j, ps) ∷ push_group k p gs

  group_from :
      List (String × List (Payment Metadata))
      → List (Payment Metadata)
      → List (String × List (Payment Metadata))
  group_from gs [] = gs
  group_from gs (p ∷ ps) = group_from (push_group (group_key p) p gs) ps

  pub group_payments : List (Payment Metadata) → List (String × List (Payment Metadata))
  group_payments = group_from []

  -- The payments that stand under a key, and those of a list that have the key.
  pub group_of : String → List (String × List (Payment Metadata)) → List (Payment Metadata)
  group_of k [] = []
  group_of k ((j, ps) ∷ gs) = if str_eq j k then ps else group_of k gs

  pub with_key : String → List (Payment Metadata) → List (Payment Metadata)
  with_key k [] = []
  with_key k (p ∷ ps) = if str_eq (group_key p) k then p ∷ with_key k ps else with_key k ps

  group_of-push_group :
      (k j : String) (p : Payment Metadata) (gs : List (String × List (Payment Metadata)))
      → group_of j (push_group k p gs) ≡ group_of j gs ++ (if str_eq k j then p ∷ [] else [])
  unfolding group_of push_group
  group_of-push_group k j p [] = ground arith
  group_of-push_group k j p ((i, ps) ∷ gs) = ground (
    arith,
    eq_iff i k,
    eq_iff i j,
    eq_iff k j,
    append-nil ps,
    append-nil (group_of j gs),
    group_of-push_group k j p gs,
  )

  with_key-cons :
      (k : String) (p : Payment Metadata) (ps : List (Payment Metadata))
      → with_key k (p ∷ ps) ≡ (if str_eq (group_key p) k then p ∷ [] else []) ++ with_key k ps
  unfolding with_key
  with_key-cons k p ps = ground arith

  group_of-group_from :
      (k : String) (ps : List (Payment Metadata)) (gs : List (String × List (Payment Metadata)))
      → group_of k (group_from gs ps) ≡ group_of k gs ++ with_key k ps
  unfolding group_from
  group_of-group_from k [] gs = unfold with_key in sym (append-nil (group_of k gs))
  group_of-group_from k (p ∷ ps) gs =
      group_of-group_from k ps (push_group (group_key p) p gs)
      ∙ rw (group_of-push_group (group_key p) k p gs, with_key-cons k p ps)
          (append_assoc (group_of k gs) _ (with_key k ps))

  -- The group of a key holds exactly the pending payments to that recipient in that asset, each
  -- as often as it is pending, in the order of the fetch.
  group_of-group_payments :
      (k : String) (ps : List (Payment Metadata)) → group_of k (group_payments ps) ≡ with_key k ps
  unfolding group_payments group_of
  group_of-group_payments k ps = group_of-group_from k ps []

  abbrev Absent : String → List (String × List (Payment Metadata)) → Type 0
  Absent k gs = All (λ g. str_eq g.0 k ≡ false) gs

  abbrev pub HasDistinctKeys : List (String × List (Payment Metadata)) → Type 0
  HasDistinctKeys [] = Unit
  HasDistinctKeys ((k, ps) ∷ gs) = All (λ g. str_eq g.0 k ≡ false) gs × HasDistinctKeys gs

  Absent-push_group :
      (k j : String) (p : Payment Metadata) (gs : List (String × List (Payment Metadata)))
      → str_eq k j ≡ false
      → Absent j gs
      → Absent j (push_group k p gs)
  unfolding push_group
  Absent-push_group k j p [] n a = (n, tt)
  Absent-push_group k j p ((i, ps) ∷ gs) n a = ground (arith, Absent-push_group k j p gs n a.1)

  push_group-HasDistinctKeys :
      (k : String) (p : Payment Metadata) (gs : List (String × List (Payment Metadata)))
      → HasDistinctKeys gs
      → HasDistinctKeys (push_group k p gs)
  unfolding push_group
  push_group-HasDistinctKeys k p [] d = (tt, tt)
  push_group-HasDistinctKeys k p ((i, ps) ∷ gs) d = ground (
    arith,
    eq_iff i k,
    eq_iff k i,
    push_group-HasDistinctKeys k p gs d.1,
    Absent-push_group k i p gs,
  )

  group_from-HasDistinctKeys :
      (ps : List (Payment Metadata)) (gs : List (String × List (Payment Metadata)))
      → HasDistinctKeys gs
      → HasDistinctKeys (group_from gs ps)
  unfolding group_from
  group_from-HasDistinctKeys [] gs d = d
  group_from-HasDistinctKeys (p ∷ ps) gs d =
      group_from-HasDistinctKeys ps (push_group (group_key p) p gs)
        (push_group-HasDistinctKeys (group_key p) p gs d)

  -- No key stands twice among the groups.
  group_payments-HasDistinctKeys :
      (ps : List (Payment Metadata)) → HasDistinctKeys (group_payments ps)
  unfolding group_payments
  group_payments-HasDistinctKeys ps = group_from-HasDistinctKeys ps [] tt
