-- ===== src/Trustlines/Verifier/Answers.antt =====
-- What the verifier answers, with its cache.
use stellar_payment_api.Base.{
  ◌+◌, ◌<◌, ◌≡◌, ◌⊎◌, inl, inr, refl, sym, ap, subst, ◌∙◌, true, false, Option, none, some, List,
  [], ◌∷◌, if◌then◌else◌, if_both, ltb, str_eq, All, Has, arith,
}
use stellar_payment_api.OrderedMap
use stellar_payment_api.OrderedMap.{
  All-set, All-delete, get-All, get-set, length-set-le, length-delete-le,
}
use stellar_payment_api.Trustlines.Verifier.{
  Verification, error_verification, Cached, Request, Cache, cache_key, store, verify_signed,
  verify_uncached, verify_afresh, verify_after_lookup, verify_trustline_signature, verify_all,
}
use stellar_payment_api.Trustlines.Operations.{Signature, Validators}
use stellar_payment_api.Trustlines.Verifier.Genuine.{IsGenuine, verify_uncached-IsGenuine}
use stellar_payment_api.Trustlines.Verifier.History.{StemsFrom, verify_all-StemsFrom}

All-Has : (qs all : List Request) → ((q : Request) → Has q qs → Has q all) → All (λ q. Has q all) qs
All-Has [] all within = tt
All-Has (q ∷ qs) all within =
    (within q (inl refl), All-Has qs all (λ q' here. within q' (inr here)))

module _ (validators : Validators) where
  -- The answer is that of a fresh verification, or of a fresh entry of the cache, or an error.
  abbrev IsAnswer : Request → Cache → Verification → Type 0
  IsAnswer q m r =
      (r ≡ error_verification)
      ⊎ ((r ≡ (verify_uncached validators q).0)
          ⊎ ((e : Cached) × (OrderedMap.get (cache_key q) m ≡ some e)
              × (q.started < e.timestamp + 300000)
              × (r ≡ e.result)))

  afresh_answer :
      (q : Request) (m : Cache)
      → (verify_afresh validators q m).1 ≡ (verify_uncached validators q).0
  unfolding verify_afresh
  afresh_answer q m = ground arith

  lookup-IsAnswer :
      (q : Request) (m : Cache) (o : Option Cached)
      → OrderedMap.get (cache_key q) m ≡ o
      → IsAnswer q m (verify_after_lookup validators q o m).1
  unfolding verify_after_lookup
  lookup-IsAnswer q m none found = inr (inl (afresh_answer q m))
  lookup-IsAnswer q m (some e) found =
      let fewer = OrderedMap.delete (cache_key q) m in
      if_both (λ (p : Cache × Verification). IsAnswer q m p.1)
        (ltb q.started (e.timestamp + 300000)) (m, e.result) (verify_afresh validators q fewer)
        (λ fresh. inr (inr (e, found, ground (arith, fresh), refl)))
        (λ _. inr (inl (afresh_answer q fewer)))

  verify-IsAnswer :
      (q : Request) (m : Cache) → IsAnswer q m (verify_trustline_signature validators q m).1
  unfolding verify_trustline_signature
  verify-IsAnswer q m =
      let P = λ (p : Cache × Verification). IsAnswer q m p.1 in
      let looked_up = verify_after_lookup validators q (OrderedMap.get (cache_key q) m) m in
      let afresh = verify_afresh validators q m in
      if_both P (str_eq q.tx_hash "") (m, error_verification)
        (if q.skip_cache then afresh else looked_up) (λ _. inl refl)
        (λ _.
          if_both P q.skip_cache afresh looked_up (λ _. inr (inl (afresh_answer q m)))
            (λ _. lookup-IsAnswer q m (OrderedMap.get (cache_key q) m) refl))

  -- In every run of the verifier, a valid answer is that of a request with the same cache key, this
  -- one or an earlier one that ended within the last five minutes, whose transaction has a valid
  -- signature and as its first operation on trustlines one of the expected type, with a valid asset
  -- code and issuer.
  pub valid_answer :
      (qs : List Request) (q : Request)
      → (verify_trustline_signature validators q (verify_all validators qs [])).1.valid ≡ true
      → (q' : Request) × Has q' (q ∷ qs)
        × (cache_key q' ≡ cache_key q)
        × ((q' ≡ q) ⊎ (q.started < q'.ended + 300000))
        × IsGenuine validators q'
            (verify_trustline_signature validators q (verify_all validators qs [])).1
  valid_answer qs q ok =
      let m = verify_all validators qs [] in
      let r = (verify_trustline_signature validators q m).1 in
      elim (verify-IsAnswer q m) [
        | inl error ↦ absurd (cc (error, ok))
        | inr (inl own) ↦ (
          q,
          inl refl,
          refl,
          inl refl,
          subst (IsGenuine validators q) (sym own)
              (verify_uncached-IsGenuine validators q (ap (λ x. x.valid) (sym own) ∙ ok)),
        )
        | inr (inr (e, found, fresh, same)) ↦
            let (q', here, key, ended, result) =
              get-All (StemsFrom validators qs) (cache_key q) m found
                (verify_all-StemsFrom validators qs qs [] (All-Has qs qs (λ q' here. here)) tt) in
            let equal = result ∙ sym same in
            (
              q',
              inr here,
              key,
              inr (ground (arith, fresh, ended)),
              subst (IsGenuine validators q') equal
                  (verify_uncached-IsGenuine validators q' (ap (λ x. x.valid) equal ∙ ok)),
            )
      ]

  pub verified_stores :
      (q : Request) (g : Signature) (m : Cache)
      → str_eq q.tx_hash "" ≡ false
      → q.skip_cache ≡ false
      → OrderedMap.get (cache_key q) m ≡ none
      → q.outside.signature ≡ some g
      → g.valid ≡ true
      → verify_trustline_signature validators q m
        ≡ (store q (verify_uncached validators q).0 m, (verify_uncached validators q).0)
  unfolding verify_trustline_signature verify_after_lookup verify_afresh verify_uncached
      verify_signed
  verified_stores q g m hash cached missing signed valid =
      ground (arith, hash, cached, missing, signed, valid)

  pub hit :
      (q : Request) (e : Cached) (m : Cache)
      → str_eq q.tx_hash "" ≡ false
      → q.skip_cache ≡ false
      → OrderedMap.get (cache_key q) m ≡ some e
      → q.started < e.timestamp + 300000
      → (verify_trustline_signature validators q m).1 ≡ e.result
  unfolding verify_trustline_signature verify_after_lookup
  hit q e m hash cached found fresh = ground (arith, hash, cached, found, fresh)
