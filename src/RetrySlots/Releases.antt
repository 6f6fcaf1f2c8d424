-- ===== src/RetrySlots/Releases.antt =====
-- A release keeps the sets and the slots together.
use stellar_payment_api.Base.{
  ℕ, ◌≤◌, ◌≡◌, inl, inr, refl, sym, ◌∙◌, ap, String, true, Option, none, some, List, [], ◌∷◌,
  if_both, str_eq, eq_iff, eq_refl, length, Bool-cases, arith,
}
use stellar_payment_api.OrderedMap
use stellar_payment_api.OrderedMap.{
  get-set, get-delete_ne, get-Absent, Absent-delete_self, HasDistinctKeys, set-HasDistinctKeys,
  delete-HasDistinctKeys,
}
use stellar_payment_api.RetrySlots.{
  Slot, Coordinator, World, write, remove, is_empty, release, extract, released,
}
use stellar_payment_api.RetrySlots.Tokens.{
  tokens_for, tokens_at, IsPlaced, extract-Falls, extract-tokens, extract-All, delete-IsPlaced,
}
use stellar_payment_api.RetrySlots.Grants.{IsSound, others_kept, mapped_alike}

-- A key that is left after another one is deleted had the same set before.
left_over :
    (op o : String) (i : ℕ) (m : List (String × ℕ))
    → HasDistinctKeys m
    → OrderedMap.get o (OrderedMap.delete op m) ≡ some i
    → OrderedMap.get o m ≡ some i
left_over op o i m distinct found = elim (Bool-cases (str_eq op o)) [
  | inl same ↦
      let gone = get-Absent op (OrderedMap.delete op m) (Absent-delete_self op m distinct) in
      absurd (cc (mapped_alike op o (OrderedMap.delete op m) same gone, found))
  | inr other ↦ sym (get-delete_ne o op m (λ e. cc (sym e, other, eq_refl o))) ∙ found
]

-- Without slots an operation needs no set.
emptied-IsSound :
    (limit : ℕ) (op : String) (c : Coordinator) (held : List Slot)
    → tokens_for op held ≡ []
    → IsSound limit (record { coordinator = c; held = held })
    → IsSound limit (record {
      coordinator = record c { local_slots = OrderedMap.delete op c.local_slots };
      held = held;
    })
unfolding tokens_at
emptied-IsSound limit op c held gone sound = record {
  tracked = λ o. elim (Bool-cases (str_eq op o)) [
    | inl same ↦
        let m = OrderedMap.delete op c.local_slots in
        let free = get-Absent op m (Absent-delete_self op c.local_slots sound.distinct) in
        let e : op ≡ o = (eq_iff op o).0 same in
        ground (arith, mapped_alike op o m same free, gone, ap (λ k. tokens_for k held) e)
    | inr other ↦ ground (
      arith,
      sound.tracked o,
      get-delete_ne o op c.local_slots (λ e. cc (sym e, other, eq_refl o)),
    )
  ];
  made = λ o i found. sound.made o i (left_over op o i c.local_slots sound.distinct found);
  apart = λ o p i found also.
      sound.apart o p i (left_over op o i c.local_slots sound.distinct found)
        (left_over op p i c.local_slots sound.distinct also);
  placed = delete-IsPlaced op c.local_slots held gone sound.placed;
  falls = sound.falls;
  distinct = delete-HasDistinctKeys op c.local_slots sound.distinct;
  few = sound.few;
}

length-remove : (t : ℕ) (us : List ℕ) → length (remove t us) ≤ length us
unfolding remove
length-remove t [] = omega arith
length-remove t (u ∷ us) = ground (arith, length-remove t us)

-- The token leaves the set, and the entry stays.
taken-IsSound :
    (limit place : ℕ) (slot : Slot) (others : List Slot) (w : World)
    → extract place w.held ≡ some (slot, others)
    → OrderedMap.get slot.operation w.coordinator.local_slots ≡ some slot.set
    → IsPlaced w.coordinator.local_slots others
    → IsSound limit w
    → IsSound limit (record {
      coordinator = record w.coordinator {
        sets = write slot.set (remove slot.token (w.coordinator.sets slot.set)) w.coordinator.sets;
      };
      held = others;
    })
unfolding write tokens_at
taken-IsSound limit place slot others w found mapped placed sound =
    let (below, falls) = extract-Falls place w.coordinator.next_token w.held found sound.falls in
    let left = remove slot.token (w.coordinator.sets slot.set) in
    let tokens = extract-tokens place w.coordinator.next_token w.held found sound.falls in
    record {
      tracked = λ o. elim (Bool-cases (str_eq slot.operation o)) [
        | inl same ↦ ground (
          arith,
          same,
          tokens o,
          sound.tracked o,
          mapped_alike slot.operation o w.coordinator.local_slots same mapped,
        )
        | inr other ↦ ground (
          arith,
          other,
          tokens o,
          sound.tracked o,
          others_kept limit w slot.operation o slot.set left mapped other sound,
        )
      ];
      made = sound.made;
      apart = sound.apart;
      placed = placed;
      falls = falls;
      distinct = sound.distinct;
      few = λ o.
          ground (arith, tokens o, sound.few o, length-remove slot.token (tokens_for o w.held));
    }

empty_none : (ts : List ℕ) → is_empty ts ≡ true → ts ≡ []
unfolding is_empty
empty_none [] e = refl
empty_none (t ∷ ts) e = cc

written_empty : (i : ℕ) (left : List ℕ) (sets : ℕ → List ℕ) → left ≡ [] → write i left sets i ≡ []
unfolding write
written_empty i left sets empty = ground (arith, empty)

none_left :
    (slot : Slot) (others : List Slot) (c : Coordinator)
    → OrderedMap.get slot.operation c.local_slots ≡ some slot.set
    → tokens_at (OrderedMap.get slot.operation c.local_slots) c.sets
      ≡ tokens_for slot.operation others
    → c.sets slot.set ≡ []
    → tokens_for slot.operation others ≡ []
unfolding tokens_at
none_left slot others c mapped tracked empty = ground (arith, mapped, tracked, empty)

pub released-IsSound :
    (limit place : ℕ) (o : Option (Slot × List Slot)) (w : World)
    → extract place w.held ≡ o
    → IsSound limit w
    → IsSound limit (released o w)
unfolding released release
released-IsSound limit place none w found sound = sound
released-IsSound limit place (some (slot, others)) w found sound =
    let c = w.coordinator in
    let (mapped, placed) =
      extract-All (λ s. OrderedMap.get s.operation c.local_slots ≡ some s.set) place w.held found
        sound.placed in
    let left = remove slot.token (c.sets slot.set) in
    let taken = record c { sets = write slot.set left c.sets } in
    let kept = taken-IsSound limit place slot others w found mapped placed sound in
    if_both
      (λ (m : List (String × ℕ)).
        IsSound limit (record { coordinator = record taken { local_slots = m }; held = others }))
      (is_empty left) (OrderedMap.delete slot.operation c.local_slots) c.local_slots
      (λ empty.
        emptied-IsSound limit slot.operation taken others
          (none_left slot others taken mapped (kept.tracked slot.operation)
            (written_empty slot.set left c.sets (empty_none left empty)))
          kept)
      (λ some_left. kept)
