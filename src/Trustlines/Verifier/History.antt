-- ===== src/Trustlines/Verifier/History.antt =====
-- Where the cached results come from, and how many there are.
use stellar_payment_api.Base.{
  ℕ, suc, ◌+◌, ◌≤◌, ◌≡◌, refl, String, Option, none, some, List, [], ◌∷◌, if◌then◌else◌, if_both,
  ltb, leb, str_eq, length, All, Has, arith,
}
use stellar_payment_api.OrderedMap
use stellar_payment_api.OrderedMap.{
  All-set, All-delete, get-All, get-set, length-set-le, length-delete-le,
}
use stellar_payment_api.Trustlines.Verifier.{
  Verification, error_verification, Cached, Request, Cache, cache_key, drop_expired, drop_oldest,
  prune_cache, store, verify_uncached, verify_afresh, verify_after_lookup,
  verify_trustline_signature, verify_all,
}
use stellar_payment_api.Trustlines.Operations.{Validators}

All-drop_expired :
    (P : String × Cached → Type 0) (now : ℕ) (m : Cache) → All P m → All P (drop_expired now m)
unfolding drop_expired
All-drop_expired P now [] holds = tt
All-drop_expired P now ((k, e) ∷ m) (p, holds) =
    let rest = drop_expired now m in
    if_both (All P) (leb (e.timestamp + 300000) now) rest ((k, e) ∷ rest)
      (λ _. All-drop_expired P now m holds) (λ _. (p, All-drop_expired P now m holds))

All-drop_oldest : (P : String × Cached → Type 0) (m : Cache) → All P m → All P (drop_oldest m)
unfolding drop_oldest
All-drop_oldest P [] holds = tt
All-drop_oldest P (e ∷ m) (p, holds) =
    if_both (All P) (leb 1000 (suc (length m))) (drop_oldest m) (e ∷ m)
      (λ _. All-drop_oldest P m holds) (λ _. (p, holds))

pub length-drop_oldest : (m : Cache) → length (drop_oldest m) ≤ 999
unfolding drop_oldest
length-drop_oldest [] = omega arith
length-drop_oldest (e ∷ m) = ground (arith, length-drop_oldest m)

abbrev pub IsSmall : Cache → Type 0
IsSmall m = length m ≤ 1000

module _ (validators : Validators) where
  -- The cached result is what one of the requests gave, at the end of that request.
  abbrev pub StemsFrom : List Request → String × Cached → Type 0
  StemsFrom qs (key, e) =
      (q : Request) × Has q qs
      × (cache_key q ≡ key)
      × (q.ended ≡ e.timestamp)
      × ((verify_uncached validators q).0 ≡ e.result)

  module _ (qs : List Request) where
    store-StemsFrom :
        (q : Request) (m : Cache)
        → Has q qs
        → All (StemsFrom qs) m
        → All (StemsFrom qs) (store q (verify_uncached validators q).0 m)
    unfolding store prune_cache
    store-StemsFrom q m here stems =
        let r = (verify_uncached validators q).0 in
        let pruned = prune_cache q.ended m in
        let e : Cached = record { result = r; timestamp = q.ended } in
        if_both (All (StemsFrom qs)) q.skip_cache m (OrderedMap.set (cache_key q) e pruned)
          (λ _. stems)
          (λ _.
            All-set (StemsFrom qs) (cache_key q) e pruned (q, here, refl, refl, refl)
              (All-drop_oldest (StemsFrom qs) (drop_expired q.ended m)
                (All-drop_expired (StemsFrom qs) q.ended m stems)))

    afresh-StemsFrom :
        (q : Request) (m : Cache)
        → Has q qs
        → All (StemsFrom qs) m
        → All (StemsFrom qs) (verify_afresh validators q m).0
    unfolding verify_afresh
    afresh-StemsFrom q m here stems =
        let (r, stored) = verify_uncached validators q in
        if_both (λ (p : Cache × Verification). All (StemsFrom qs) p.0) stored (store q r m, r)
          (m, r) (λ _. store-StemsFrom q m here stems) (λ _. stems)

    lookup-StemsFrom :
        (q : Request) (o : Option Cached) (m : Cache)
        → Has q qs
        → All (StemsFrom qs) m
        → All (StemsFrom qs) (verify_after_lookup validators q o m).0
    unfolding verify_after_lookup
    lookup-StemsFrom q none m here stems = afresh-StemsFrom q m here stems
    lookup-StemsFrom q (some e) m here stems =
        let fewer = OrderedMap.delete (cache_key q) m in
        if_both (λ (p : Cache × Verification). All (StemsFrom qs) p.0)
          (ltb q.started (e.timestamp + 300000)) (m, e.result) (verify_afresh validators q fewer)
          (λ _. stems)
          (λ _. afresh-StemsFrom q fewer here (All-delete (StemsFrom qs) (cache_key q) m stems))

    verify-StemsFrom :
        (q : Request) (m : Cache)
        → Has q qs
        → All (StemsFrom qs) m
        → All (StemsFrom qs) (verify_trustline_signature validators q m).0
    unfolding verify_trustline_signature
    verify-StemsFrom q m here stems =
        let P = λ (p : Cache × Verification). All (StemsFrom qs) p.0 in
        let looked_up = verify_after_lookup validators q (OrderedMap.get (cache_key q) m) m in
        let afresh = verify_afresh validators q m in
        if_both P (str_eq q.tx_hash "") (m, error_verification)
          (if q.skip_cache then afresh else looked_up) (λ _. stems)
          (λ _.
            if_both P q.skip_cache afresh looked_up (λ _. afresh-StemsFrom q m here stems)
              (λ _. lookup-StemsFrom q (OrderedMap.get (cache_key q) m) m here stems))

    pub verify_all-StemsFrom :
        (rest : List Request) (m : Cache)
        → All (λ q. Has q qs) rest
        → All (StemsFrom qs) m
        → All (StemsFrom qs) (verify_all validators rest m)
    unfolding verify_all
    verify_all-StemsFrom [] m within stems = stems
    verify_all-StemsFrom (q ∷ rest) m (here, within) stems =
        verify_all-StemsFrom rest (verify_trustline_signature validators q m).0 within
          (verify-StemsFrom q m here stems)

  afresh-IsSmall : (q : Request) (m : Cache) → IsSmall m → IsSmall (verify_afresh validators q m).0
  unfolding verify_afresh store prune_cache
  afresh-IsSmall q m small =
      let (r, stored) = verify_uncached validators q in
      let pruned = drop_oldest (drop_expired q.ended m) in
      let e : Cached = record { result = r; timestamp = q.ended } in
      if_both (λ (p : Cache × Verification). IsSmall p.0) stored (store q r m, r) (m, r)
        (λ _.
          if_both IsSmall q.skip_cache m (OrderedMap.set (cache_key q) e pruned) (λ _. small)
            (λ _. omega (
              arith,
              length-set-le (cache_key q) e pruned,
              length-drop_oldest (drop_expired q.ended m),
            )))
        (λ _. small)

  lookup-IsSmall :
      (q : Request) (o : Option Cached) (m : Cache)
      → IsSmall m
      → IsSmall (verify_after_lookup validators q o m).0
  unfolding verify_after_lookup
  lookup-IsSmall q none m small = afresh-IsSmall q m small
  lookup-IsSmall q (some e) m small =
      let fewer = OrderedMap.delete (cache_key q) m in
      if_both (λ (p : Cache × Verification). IsSmall p.0) (ltb q.started (e.timestamp + 300000))
        (m, e.result) (verify_afresh validators q fewer) (λ _. small)
        (λ _. afresh-IsSmall q fewer (omega (arith, small, length-delete-le (cache_key q) m)))

  verify-IsSmall :
      (q : Request) (m : Cache) → IsSmall m → IsSmall (verify_trustline_signature validators q m).0
  unfolding verify_trustline_signature
  verify-IsSmall q m small =
      let P = λ (p : Cache × Verification). IsSmall p.0 in
      let looked_up = verify_after_lookup validators q (OrderedMap.get (cache_key q) m) m in
      let afresh = verify_afresh validators q m in
      if_both P (str_eq q.tx_hash "") (m, error_verification)
        (if q.skip_cache then afresh else looked_up) (λ _. small)
        (λ _.
          if_both P q.skip_cache afresh looked_up (λ _. afresh-IsSmall q m small)
            (λ _. lookup-IsSmall q (OrderedMap.get (cache_key q) m) m small))

  -- However many transactions are verified: the cache of the verifier never holds more than 1000
  -- results.
  pub verify_all-IsSmall :
      (qs : List Request) (m : Cache) → IsSmall m → IsSmall (verify_all validators qs m)
  unfolding verify_all
  verify_all-IsSmall [] m small = small
  verify_all-IsSmall (q ∷ qs) m small =
      verify_all-IsSmall qs (verify_trustline_signature validators q m).0 (verify-IsSmall q m small)
