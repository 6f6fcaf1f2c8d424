-- ===== src/Tests/Slots.antt =====
-- Retries that hold slots, with a limit of two.
use stellar_payment_api.Base.{◌≤◌, ◌≡◌, refl, List, [], ◌∷◌, arith}
use stellar_payment_api.RetrySlots.{
  Event, asks, releases, acquire_local_slot, acquire_after, acquire_in, grant, new_set, write,
  remove, is_empty, release, create, extract, asked, released, step, run,
}
use stellar_payment_api.RetrySlots.Tokens.{tokens_for}
use stellar_payment_api.RetrySlots.Limits.{begin, held_by, GrantedOrFull, held_within}

abbrev events : List Event
events = asks "payments" ∷ asks "payments" ∷ releases 1 ∷ asks "payments" ∷ asks "payments" ∷ []

held_within_example :
    (held_by "payments" (run 2 events begin) ≤ 2) × GrantedOrFull 2 "payments" (run 2 events begin)
held_within_example = held_within 2 events "payments" (omega arith)

two_held : held_by "payments" (run 2 events begin) ≡ 2
unfolding held_by tokens_for run step asked released extract acquire_local_slot acquire_after
    acquire_in grant new_set write remove is_empty release create
two_held = refl
