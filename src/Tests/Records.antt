-- ===== src/Tests/Records.antt =====
-- A record cache of one place, and a client of Redis that is closed.
use stellar_payment_api.Base.{ℕ, ◌≡◌, refl, true, false, some, none, List, [], ◌∷◌}
use stellar_payment_api.WriterQueue.Records.{
  Records, nothing, value, create, get_cached_record, set_cached_record, invalidate_cached_record,
  set_memory_cache, evict_if_full, evict_oldest, ttl_ms_of, found, ask_redis, hit, miss, Call, gets,
  sets, invalidates, perform, perform_all,
}

abbrev calls : List (Call ℕ)
calls =
    sets 0 "a" 1 none false
    ∷ sets 5 "b" 2 (some 3) true
    ∷ gets 10 12 "a" (value 7)
    ∷ invalidates "c" false
    ∷ gets 4000 4001 "b" nothing
    ∷ []

abbrev records : Records ℕ
records = perform_all calls (create 1 60000)

-- The third call puts the value of Redis in the place of "b", which the last one misses.
abbrev counts : ℕ × ℕ × ℕ
counts = (records.cache_hits, records.cache_misses, records.cache_errors)

abbrev one_each : ℕ × ℕ × ℕ
one_each = (1, 1, 1)

records_counts : counts ≡ one_each
unfolding perform_all perform set_cached_record set_memory_cache evict_if_full evict_oldest
    ttl_ms_of get_cached_record found ask_redis hit miss create invalidate_cached_record
records_counts = refl
