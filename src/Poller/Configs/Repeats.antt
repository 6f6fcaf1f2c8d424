-- ===== src/Poller/Configs/Repeats.antt =====
-- How long an answer about a merchant is repeated while other merchants are looked up.
use stellar_payment_api.Base.{ℕ, ◌-◌, ◌≤◌, String, Option, List, [], ◌∷◌, ◌≡◌, arith}
use stellar_payment_api.OrderedMap
use stellar_payment_api.Poller.Configs.{
  Cached, Stamped, ConfigCache, SingleReply, cache_found, cache_get, from_cycle, or_not_found, load,
}
use stellar_payment_api.Poller.Configs.Lookups.{found_fresh, fresh_load}
use stellar_payment_api.Poller.Configs.Kept.{Keeps}

-- A lookup of a merchant, with the cache of its cycle.
pub record Lookup (C : Type 0) : Type 0 where
  pub now : ℕ
  pub id : String
  pub reply : SingleReply C
  pub cycle : List (String × Cached C)

module _ {C : Type 0} where
  unfoldable pub load_all : List (Lookup C) → ConfigCache C → ConfigCache C
  load_all [] c = c
  load_all (l ∷ ls) c = load_all ls (load l.now l.id l.reply c l.cycle).lru

  repeated :
      (now : ℕ) (k : String) (later : SingleReply C) (a : Option C) (since n : ℕ)
      (base c : ConfigCache C)
      → now - since ≤ base.ttl_ms
      → Keeps k (record { stored = or_not_found a; inserted_at = since }) n base c
      → (load now k later c []).answer ≡ a
  unfolding load from_cycle cache_get
  repeated now k later a since n base c fresh h =
      let e : Stamped C = record { stored = or_not_found a; inserted_at = since } in
      fresh_load now k later c a (cache_found now k c (OrderedMap.get k c.cache))
        (rw h.recent.0 (found_fresh now k c e (omega (arith, fresh, h.same_ttl))))
