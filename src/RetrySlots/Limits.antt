-- ===== src/RetrySlots/Limits.antt =====
-- How many slots of an operation are held at a time.
use stellar_payment_api.Base.{
  ℕ, ◌≤◌, ◌≡◌, refl, String, false, Option, none, some, List, [], ◌∷◌, eq_refl, length,
  Option-cases, inl, inr, ◌⊎◌, arith,
}
use stellar_payment_api.OrderedMap
use stellar_payment_api.OrderedMap.{get-set, get-Absent, Absent-delete_self, HasDistinctKeys}
use stellar_payment_api.RetrySlots.{
  Slot, Coordinator, World, Event, asks, releases, write, remove, contains, is_empty, grant,
  acquire_in, new_set, acquire_after, acquire_local_slot, release, create, extract, step, run,
}
use stellar_payment_api.RetrySlots.Tokens.{tokens_for, Falls, tokens_at}
use stellar_payment_api.RetrySlots.Grants.{IsSound, acquire_after-IsSound}
use stellar_payment_api.RetrySlots.Releases.{released-IsSound}

-- A new coordinator.
abbrev pub begin : World
begin = record { coordinator = create; held = [] }

-- How many slots of an operation are held.
unfoldable pub held_by : String → World → ℕ
held_by op w = length (tokens_for op w.held)

step-IsSound :
    (limit : ℕ) (e : Event) (w : World) → IsSound limit w → IsSound limit (step limit e w)
unfolding step acquire_local_slot
step-IsSound limit (asks op) w sound =
    acquire_after-IsSound limit op (OrderedMap.get op w.coordinator.local_slots) w.coordinator
      w.held refl sound
step-IsSound limit (releases place) w sound =
    released-IsSound limit place (extract place w.held) w refl sound

run-IsSound :
    (limit : ℕ) (es : List Event) (w : World) → IsSound limit w → IsSound limit (run limit es w)
unfolding run
run-IsSound limit [] w sound = sound
run-IsSound limit (e ∷ es) w sound =
    run-IsSound limit es (step limit e w) (step-IsSound limit e w sound)

begin-IsSound : (limit : ℕ) → IsSound limit begin
unfolding create tokens_for tokens_at Falls
begin-IsSound limit = record {
  tracked = λ op. refl;
  made = λ op i found. absurd (cc found);
  apart = λ op other i found also. absurd (cc found);
  placed = tt;
  falls = tt;
  distinct = tt;
  few = λ op. omega arith;
}

-- A request is granted, or as many slots as the limit are held.
abbrev pub GrantedOrFull : ℕ → String → World → Type 0
GrantedOrFull limit op w =
    ((slot : Slot) × ((acquire_local_slot limit op w.coordinator).0 ≡ some slot))
    ⊎ (held_by op w ≡ limit)

refused_full :
    (limit : ℕ) (op : String) (o : Option ℕ) (w : World)
    → 1 ≤ limit
    → OrderedMap.get op w.coordinator.local_slots ≡ o
    → IsSound limit w
    → (acquire_after limit op o w.coordinator).0 ≡ none
    → held_by op w ≡ limit
unfolding acquire_after acquire_in grant new_set write tokens_at held_by
refused_full limit op none w least free sound refused = ground (arith, least, refused)
refused_full limit op (some i) w least mapped sound refused =
    ground (arith, refused, mapped, sound.tracked op, sound.few op)

sound-GrantedOrFull :
    (limit : ℕ) (op : String) (w : World) → 1 ≤ limit → IsSound limit w → GrantedOrFull limit op w
unfolding acquire_local_slot
sound-GrantedOrFull limit op w least sound =
    elim (Option-cases (acquire_local_slot limit op w.coordinator).0) [
      | inl refused ↦ inr (
          refused_full limit op (OrderedMap.get op w.coordinator.local_slots) w least refl sound
            refused)
      | inr granted ↦ inl granted
    ]

-- In every run of retries that ask for slots and release each slot at most once, with a limit that
-- is not zero: of each operation at most the limit's number of slots is held, and the next request
-- for the operation is granted unless exactly that many are held.
pub held_within :
    (limit : ℕ) (es : List Event) (op : String)
    → 1 ≤ limit
    → (held_by op (run limit es begin) ≤ limit) × GrantedOrFull limit op (run limit es begin)
unfolding held_by
held_within limit es op least =
    let sound = run-IsSound limit es begin (begin-IsSound limit) in
    (sound.few op, sound-GrantedOrFull limit op (run limit es begin) least sound)

-- A slot whose set is empty is released once more: the release answers false and still deletes the
-- operation's entry, so that the next request gets a slot of a new set, however many are held.
pub late_release_grants :
    (limit : ℕ) (slot : Slot) (c : Coordinator)
    → 1 ≤ limit
    → HasDistinctKeys c.local_slots
    → c.sets slot.set ≡ []
    → ((release slot c).0 ≡ false)
      × ((acquire_local_slot limit slot.operation (release slot c).1).0
          ≡ some (record { operation = slot.operation; set = c.next_set; token = c.next_token }))
unfolding release acquire_local_slot acquire_after acquire_in grant new_set write remove contains
    is_empty
late_release_grants limit slot c least distinct empty =
    let m = OrderedMap.delete slot.operation c.local_slots in
    let free =
      get-Absent slot.operation m (Absent-delete_self slot.operation c.local_slots distinct) in
    let new = get-set slot.operation slot.operation c.next_set m in
    ground (arith, empty, free, new, least, eq_refl slot.operation)
