-- ===== src/RetrySlots.antt =====
-- The slots for retries within a process, `_acquireLocalSlot` of
-- backend/src/lib/stellar/horizon-client/retry-coordinator.js. Each operation has a `Set` of tokens
-- in the map; a slot keeps the set that its token went to, which need not be the operation's set
-- later. Sets and tokens are numbered in the order in which they are made.
use stellar_payment_api.Base.{
  ℕ, zero, suc, String, Bool, true, false, Option, none, some, List, [], ◌∷◌, if◌then◌else◌, leb,
  ◌==◌, length,
}
use stellar_payment_api.OrderedMap
pub mod Tokens
pub mod Grants
pub mod Releases
pub mod Limits

-- A slot that is granted, with what its release closes over.
pub record Slot : Type 0 where
  pub operation : String
  pub set : ℕ
  pub token : ℕ

-- `sets` is the heap: the tokens in each set, the newest first.
pub record Coordinator : Type 0 where
  pub local_slots : List (String × ℕ)
  pub sets : ℕ → List ℕ
  pub next_set : ℕ
  pub next_token : ℕ

unfoldable pub write : ℕ → List ℕ → (ℕ → List ℕ) → ℕ → List ℕ
write i tokens sets j = if i == j then tokens else sets j

unfoldable pub remove : ℕ → List ℕ → List ℕ
remove t [] = []
remove t (u ∷ us) = if t == u then us else u ∷ remove t us

unfoldable pub contains : ℕ → List ℕ → Bool
contains t [] = false
contains t (u ∷ us) = if t == u then true else contains t us

unfoldable pub is_empty : List ℕ → Bool
is_empty [] = true
is_empty (t ∷ ts) = false

unfoldable pub grant : String → ℕ → Coordinator → Option Slot × Coordinator
grant op i c = (
  some (record { operation = op; set = i; token = c.next_token }),
  record c { sets = write i (c.next_token ∷ c.sets i) c.sets; next_token = suc c.next_token },
)

unfoldable pub acquire_in : ℕ → String → ℕ → Coordinator → Option Slot × Coordinator
acquire_in limit op i c = if leb limit (length (c.sets i)) then (none, c) else grant op i c

unfoldable pub new_set : String → Coordinator → Coordinator
new_set op c = record c {
  local_slots = OrderedMap.set op c.next_set c.local_slots;
  sets = write c.next_set [] c.sets;
  next_set = suc c.next_set;
}

unfoldable pub acquire_after : ℕ → String → Option ℕ → Coordinator → Option Slot × Coordinator
acquire_after limit op none c = acquire_in limit op c.next_set (new_set op c)
acquire_after limit op (some i) c = acquire_in limit op i c

-- `_acquireLocalSlot`
unfoldable pub acquire_local_slot : ℕ → String → Coordinator → Option Slot × Coordinator
acquire_local_slot limit op c = acquire_after limit op (OrderedMap.get op c.local_slots) c

-- The release of a slot.
unfoldable pub release : Slot → Coordinator → Bool × Coordinator
release slot c =
    let left = remove slot.token (c.sets slot.set) in
    (
      contains slot.token (c.sets slot.set),
      record c {
        sets = write slot.set left c.sets;
        local_slots =
            if is_empty left then OrderedMap.delete slot.operation c.local_slots else c.local_slots;
      },
    )

unfoldable pub create : Coordinator
create = record { local_slots = []; sets = λ i. []; next_set = 0; next_token = 0 }

-- The coordinator, and the slots that are granted and not released, the newest first.
pub record World : Type 0 where
  pub coordinator : Coordinator
  pub held : List Slot

-- A retry asks for a slot, or the holder of the slot at a place releases it.
pub data Event : Type 0 where
  asks : (operation : String) → Event
  releases : (place : ℕ) → Event

unfoldable pub extract : ℕ → List Slot → Option (Slot × List Slot)
extract i [] = none
extract zero (s ∷ ss) = some (s, ss)
extract (suc i) (s ∷ ss) = elim (extract i ss) [ none ↦ none | some (t, ts) ↦ some (t, s ∷ ts) ]

unfoldable pub asked : Option Slot × Coordinator → List Slot → World
asked (none, c) held = record { coordinator = c; held = held }
asked (some slot, c) held = record { coordinator = c; held = slot ∷ held }

unfoldable pub released : Option (Slot × List Slot) → World → World
released none w = w
released (some (slot, others)) w = record {
  coordinator = (release slot w.coordinator).1;
  held = others;
}

unfoldable pub step : ℕ → Event → World → World
step limit (asks op) w = asked (acquire_local_slot limit op w.coordinator) w.held
step limit (releases place) w = released (extract place w.held) w

unfoldable pub run : ℕ → List Event → World → World
run limit [] w = w
run limit (e ∷ es) w = run limit es (step limit e w)
