-- ===== src/RetrySlots/Grants.antt =====
-- A grant keeps the sets and the slots together.
use stellar_payment_api.Base.{
  ℕ, ◌≤◌, ◌<◌, ◌≡◌, ◌⊎◌, inl, inr, sym, ◌∙◌, ap, String, true, false, Option, none, some, List, ◌∷◌,
  if_both, leb, ◌==◌, str_eq, eq_iff, eq_refl, length, Bool-cases, Option-cases, arith,
}
use stellar_payment_api.OrderedMap
use stellar_payment_api.OrderedMap.{
  get-set, get-delete_ne, get-Absent, Absent-delete_self, HasDistinctKeys, set-HasDistinctKeys,
  delete-HasDistinctKeys,
}
use stellar_payment_api.RetrySlots.{
  Slot, Coordinator, World, write, grant, acquire_in, new_set, acquire_after, asked,
}
use stellar_payment_api.RetrySlots.Tokens.{tokens_for, Falls, tokens_at, IsPlaced, set-IsPlaced}

pub record IsSound (limit : ℕ) (w : World) : Type 0 where
  pub tracked :
      (op : String)
      → tokens_at (OrderedMap.get op w.coordinator.local_slots) w.coordinator.sets
        ≡ tokens_for op w.held
  pub made :
      (op : String) (i : ℕ)
      → OrderedMap.get op w.coordinator.local_slots ≡ some i
      → i < w.coordinator.next_set
  pub apart :
      (op other : String) (i : ℕ)
      → OrderedMap.get op w.coordinator.local_slots ≡ some i
      → OrderedMap.get other w.coordinator.local_slots ≡ some i
      → op ≡ other
  pub placed : IsPlaced w.coordinator.local_slots w.held
  pub falls : Falls w.coordinator.next_token w.held
  pub distinct : HasDistinctKeys w.coordinator.local_slots
  pub few : (op : String) → length (tokens_for op w.held) ≤ limit

-- A change of one operation's set leaves the other operations' ones.
pub others_kept :
    (limit : ℕ) (w : World) (op o : String) (i : ℕ) (tokens : List ℕ)
    → OrderedMap.get op w.coordinator.local_slots ≡ some i
    → str_eq op o ≡ false
    → IsSound limit w
    → tokens_at (OrderedMap.get o w.coordinator.local_slots) (write i tokens w.coordinator.sets)
      ≡ tokens_at (OrderedMap.get o w.coordinator.local_slots) w.coordinator.sets
unfolding write tokens_at
others_kept limit w op o i tokens mapped other sound =
    elim (Option-cases (OrderedMap.get o w.coordinator.local_slots)) [
      | inl free ↦ ground (arith, free)
      | inr (j, found) ↦ elim (Bool-cases (i == j)) [
        | inl same ↦
            let e : i ≡ j = ground (arith, same) in
            absurd (cc (sound.apart op o i mapped (found ∙ ap some (sym e)), other, eq_refl o))
        | inr apart ↦ ground (arith, found, apart)
      ]
    ]

pub mapped_alike :
    (op o : String) (m : List (String × ℕ)) {i : Option ℕ}
    → str_eq op o ≡ true
    → OrderedMap.get op m ≡ i
    → OrderedMap.get o m ≡ i
mapped_alike op o m same mapped =
    let e : op ≡ o = (eq_iff op o).0 same in ap (λ k. OrderedMap.get k m) (sym e) ∙ mapped

grant-IsSound :
    (limit : ℕ) (op : String) (i : ℕ) (c : Coordinator) (held : List Slot)
    → OrderedMap.get op c.local_slots ≡ some i
    → length (c.sets i) < limit
    → IsSound limit (record { coordinator = c; held = held })
    → IsSound limit (asked (grant op i c) held)
unfolding grant asked write tokens_at tokens_for Falls
grant-IsSound limit op i c held mapped room sound =
    let there = sound.tracked op in
    record {
      tracked = λ o. elim (Bool-cases (str_eq op o)) [
        | inl same ↦
            ground (arith, same, mapped_alike op o c.local_slots same mapped, sound.tracked o)
        | inr other ↦ ground (
          arith,
          other,
          sound.tracked o,
          others_kept limit (record { coordinator = c; held = held }) op o i
              (c.next_token ∷ c.sets i) mapped other sound,
        )
      ];
      made = sound.made;
      apart = sound.apart;
      placed = (mapped, sound.placed);
      falls = (omega arith, sound.falls);
      distinct = sound.distinct;
      few = λ o. elim (Bool-cases (str_eq op o)) [
        | inl same ↦ ground (arith, same, eq_iff op o, sound.few o, there, mapped, room)
        | inr other ↦ ground (arith, other, sound.few o)
      ];
    }

-- What a key of the map with a new set has: that set, or what it had.
looked_up :
    (op o : String) (i j : ℕ) (m : List (String × ℕ))
    → OrderedMap.get o (OrderedMap.set op i m) ≡ some j
    → ((op ≡ o) × (i ≡ j)) ⊎ (OrderedMap.get o m ≡ some j)
looked_up op o i j m found =
    let looks = get-set op o i m in
    elim (Bool-cases (str_eq op o)) [
      | inl same ↦ inl ((eq_iff op o).0 same, ground (arith, same, looks, found))
      | inr other ↦ inr (ground (arith, other, looks, found))
    ]

new_set_tracked :
    (limit : ℕ) (op : String) (c : Coordinator) (held : List Slot)
    → OrderedMap.get op c.local_slots ≡ none
    → IsSound limit (record { coordinator = c; held = held })
    → (o : String)
    → tokens_at (OrderedMap.get o (new_set op c).local_slots) (new_set op c).sets
      ≡ tokens_for o held
unfolding new_set write tokens_at
new_set_tracked limit op c held free sound o =
    let looks = get-set op o c.next_set c.local_slots in
    elim (Bool-cases (str_eq op o)) [
      | inl same ↦
          let none_held = mapped_alike op o c.local_slots same free in
          ground (arith, same, looks, none_held, sound.tracked o)
      | inr other ↦ elim (Option-cases (OrderedMap.get o c.local_slots)) [
        | inl missing ↦ ground (arith, other, looks, missing, sound.tracked o)
        | inr (j, found) ↦
            ground (arith, other, looks, found, sound.tracked o, sound.made o j found)
      ]
    ]

new_set-IsSound :
    (limit : ℕ) (op : String) (c : Coordinator) (held : List Slot)
    → OrderedMap.get op c.local_slots ≡ none
    → IsSound limit (record { coordinator = c; held = held })
    → IsSound limit (record { coordinator = new_set op c; held = held })
unfolding new_set write tokens_at
new_set-IsSound limit op c held free sound = record {
  tracked = new_set_tracked limit op c held free sound;
  made = λ o i found. elim (looked_up op o c.next_set i c.local_slots found) [
    | inl (same, new) ↦ omega (arith, new)
    | inr old ↦ let before = sound.made o i old in omega (arith, before)
  ];
  apart = λ o p i found also. elim (looked_up op o c.next_set i c.local_slots found) [
    | inl (same, new) ↦ elim (looked_up op p c.next_set i c.local_slots also) [
      | inl (alike, again) ↦ sym same ∙ alike
      | inr old ↦ let before = sound.made p i old in absurd (omega (arith, new, before))
    ]
    | inr old ↦ elim (looked_up op p c.next_set i c.local_slots also) [
      | inl (alike, new) ↦ let before = sound.made o i old in absurd (omega (arith, new, before))
      | inr old' ↦ sound.apart o p i old old'
    ]
  ];
  placed = set-IsPlaced op c.next_set c.local_slots held free sound.placed;
  falls = sound.falls;
  distinct = set-HasDistinctKeys op c.next_set c.local_slots sound.distinct;
  few = sound.few;
}

acquire_in-IsSound :
    (limit : ℕ) (op : String) (i : ℕ) (c : Coordinator) (held : List Slot)
    → OrderedMap.get op c.local_slots ≡ some i
    → IsSound limit (record { coordinator = c; held = held })
    → IsSound limit (asked (acquire_in limit op i c) held)
unfolding acquire_in asked
acquire_in-IsSound limit op i c held mapped sound =
    if_both (λ (p : Option Slot × Coordinator). IsSound limit (asked p held))
      (leb limit (length (c.sets i))) (none, c) (grant op i c) (λ full. sound)
      (λ room. grant-IsSound limit op i c held mapped (ground (arith, room)) sound)

pub acquire_after-IsSound :
    (limit : ℕ) (op : String) (o : Option ℕ) (c : Coordinator) (held : List Slot)
    → OrderedMap.get op c.local_slots ≡ o
    → IsSound limit (record { coordinator = c; held = held })
    → IsSound limit (asked (acquire_after limit op o c) held)
unfolding acquire_after new_set
acquire_after-IsSound limit op none c held free sound =
    let new = get-set op op c.next_set c.local_slots in
    acquire_in-IsSound limit op c.next_set (new_set op c) held (ground (arith, new, eq_refl op))
      (new_set-IsSound limit op c held free sound)
acquire_after-IsSound limit op (some i) c held mapped sound =
    acquire_in-IsSound limit op i c held mapped sound
