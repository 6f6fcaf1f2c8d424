-- ===== src/Poller/Configs/Lookups.antt =====
-- How long an answer about a merchant is kept.
use stellar_payment_api.Base.{
  ℕ, ◌-◌, ◌≤◌, String, Option, none, some, List, [], ◌≡◌, refl, eq_refl, arith,
}
use stellar_payment_api.OrderedMap
use stellar_payment_api.OrderedMap.{get-set}
use stellar_payment_api.Poller.Configs.{
  Cached, not_found, null, config, Stamped, ConfigCache, SingleReply, row, lookup_error,
  cache_found, cache_get, cache_set, from_lru, or_not_found, load,
}

module _ {C : Type 0} where
  pub found_fresh :
      (now : ℕ) (id : String) (c : ConfigCache C) (e : Stamped C)
      → now - e.inserted_at ≤ c.ttl_ms
      → (cache_found now id c (some e)).1 ≡ some e.stored
  unfolding cache_found
  found_fresh now id c e h = ground arith

  get-cache_set :
      (now : ℕ) (id : String) (v : Cached C) (c : ConfigCache C)
      → OrderedMap.get id (cache_set now id v c).cache
        ≡ some (record { stored = v; inserted_at = now })
  unfolding cache_set
  get-cache_set now id v c =
      let e : Stamped C = record { stored = v; inserted_at = now } in
      rw (get-set id id e _, eq_refl id)

  -- What a query for the merchant leaves in the module-level cache.
  pub stored_reply : SingleReply C → Cached C
  unfolding or_not_found
  stored_reply (row r) = or_not_found r
  stored_reply lookup_error = not_found

  abbrev pub answer_of : SingleReply C → Option C
  answer_of (row r) = r
  answer_of lookup_error = none

  -- A lookup that asks the database: neither the cycle's cache nor the other knows the merchant.
  pub queried_load :
      (now : ℕ) (id : String) (reply : SingleReply C) (c : ConfigCache C)
      (cycle : List (String × Cached C))
      → OrderedMap.get id cycle ≡ none
      → OrderedMap.get id c.cache ≡ none
      → ((load now id reply c cycle).answer ≡ answer_of reply)
        × ((load now id reply c cycle).lru ≡ cache_set now id (stored_reply reply) c)
  unfolding load cache_get stored_reply
  queried_load now id (row r) c cycle new unknown = ground arith
  queried_load now id lookup_error c cycle new unknown = ground arith

  pub fresh_load :
      (now : ℕ) (id : String) (reply : SingleReply C) (c : ConfigCache C) (v : Option C)
      (x : ConfigCache C × Option (Cached C))
      → x.1 ≡ some (or_not_found v)
      → (from_lru now id reply [] x).answer ≡ v
  unfolding load
  fresh_load now id reply c none (d, none) e = cc
  fresh_load now id reply c none (d, some not_found) e = refl
  fresh_load now id reply c none (d, some null) e = cc
  fresh_load now id reply c none (d, some (config m)) e = cc
  fresh_load now id reply c (some q) (d, none) e = cc
  fresh_load now id reply c (some q) (d, some not_found) e = cc
  fresh_load now id reply c (some q) (d, some null) e = cc
  fresh_load now id reply c (some q) (d, some (config m)) e = ground arith

  pub stored-answer_of :
      (reply : SingleReply C) → stored_reply reply ≡ or_not_found (answer_of reply)
  unfolding stored_reply
  stored-answer_of (row r) = refl
  stored-answer_of lookup_error = refl
