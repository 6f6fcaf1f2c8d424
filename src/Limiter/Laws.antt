-- ===== src/Limiter/Laws.antt =====
-- The limiter over any interleaving of calls and time-outs, and the order in which it serves.
use stellar_payment_api.Base.{
  ℕ, ◌≡◌, refl, subst, true, false, List, [], ◌∷◌, ◌++◌, length, ◌==◌, inl, inr, arith, Bool-cases,
  All, ◌∙◌,
}
use stellar_payment_api.Limiter.{
  Limiter, contains, remove, create, acquire, release_slot_for, release, expire,
}
use stellar_payment_api.Limiter.Numbers.{
  Distinct, contains-append, contains-remove_self, Distinct-right,
}
use stellar_payment_api.Limiter.Invariant.{
  IsValid, create-IsValid, acquire-IsValid, release-IsValid, expire-IsValid,
}

-- Any caller may acquire, any closure may be called, at any time and however often, and any timer
-- may fire.
pub data Step (l : Limiter) : Limiter → Type 0 where
  acquires : Step l (acquire l).0
  releases : (h : ℕ) → Step l (release h l).0
  expires : (w : ℕ) → Step l (expire w l)

pub data Reach (l : Limiter) : Limiter → Type 0 where
  here : Reach l l
  next : {m n : Limiter} → Reach l m → Step m n → Reach l n

Step-IsValid : {l m : Limiter} → Step l m → IsValid l → IsValid m
Step-IsValid {l} acquires v = acquire-IsValid l v
Step-IsValid {l} (releases h) v = release-IsValid h l v
Step-IsValid {l} (expires w) v = expire-IsValid w l v

Reach-IsValid_from : {l m : Limiter} → Reach l m → IsValid l → IsValid m
Reach-IsValid_from here v = v
Reach-IsValid_from (next r s) v = Step-IsValid s (Reach-IsValid_from r v)

-- Whatever is acquired, released and timed out, in any order: at most `max_concurrent` slots are
-- taken and at most `max_queue` callers wait, each slot taken has one open release closure, callers
-- wait only while all slots are taken, and no promise is twice in the queue or among the closures.
pub Reach-IsValid : (m q t : ℕ) {l : Limiter} → Reach (create m q t) l → IsValid l
Reach-IsValid m q t r = Reach-IsValid_from r (create-IsValid m q t)

not_held_of_queued : (a : ℕ) (xs ys : List ℕ) → Distinct (a ∷ xs ++ ys) → contains a ys ≡ false
not_held_of_queued a xs ys d = ground (arith, contains-append a xs ys)

gone_after :
    (h : ℕ) (q : List ℕ) (l : Limiter)
    → l.queue ≡ q
    → contains h l.held ≡ true
    → IsValid l
    → contains h (release_slot_for q (record l { held = remove h l.held })).held ≡ false
unfolding release_slot_for
gone_after h [] l e c v =
    contains-remove_self h l.held (Distinct-right l.queue l.held v.all_distinct)
gone_after h (w ∷ ws) l e c v =
    let d : Distinct (w ∷ ws ++ l.held) = subst (λ q. Distinct (q ++ l.held)) e v.all_distinct in
    ground (
      arith,
      not_held_of_queued w ws l.held d,
      contains-remove_self h l.held (Distinct-right l.queue l.held v.all_distinct),
    )

release_gone : (h : ℕ) (l : Limiter) → IsValid l → contains h (release h l).0.held ≡ false
unfolding release
release_gone h l v = elim (Bool-cases (contains h l.held)) [
  | inl mine ↦ rw (mine, release) (gone_after h l.queue l refl mine v)
  | inr done ↦ rw (done, release) done
]

-- In a valid limiter the second call of a closure frees no slot and changes nothing.
release-release :
    (h : ℕ) (l : Limiter) → IsValid l → release h (release h l).0 ≡ ((release h l).0, false)
unfolding release
release-release h l v = rw (release_gone h l v, release)

-- When callers wait, an open closure hands its slot to the one that came first: that one holds it,
-- the others keep waiting, and the number of slots taken stays.
release_hands_over :
    (h w : ℕ) (ws : List ℕ) (l : Limiter)
    → l.queue ≡ w ∷ ws
    → contains h l.held ≡ true
    → ((release h l).0.queue ≡ ws)
      × (contains w (release h l).0.held ≡ true)
      × ((release h l).0.active ≡ l.active)
unfolding release
release_hands_over h w ws l e c = rw (c, e) (refl, ground arith, refl)

contains-remove_ne :
    (a h : ℕ) (xs : List ℕ)
    → (a == h) ≡ false
    → contains a xs ≡ true
    → contains a (remove h xs) ≡ true
contains-remove_ne a h [] n c = cc
contains-remove_ne a h (x ∷ xs) n c = ground (arith, contains-remove_ne a h xs)

pub release_all : List ℕ → Limiter → Limiter
release_all [] l = l
release_all (h ∷ hs) l = release_all hs (release h l).0

abbrev pub AllHeld : List ℕ → Limiter → Type 0
AllHeld hs l = All (λ h. contains h l.held ≡ true) hs

still_held :
    (h w : ℕ) (hs xs : List ℕ)
    → contains h hs ≡ false
    → All (λ a. contains a xs ≡ true) hs
    → All (λ a. contains a (w ∷ remove h xs) ≡ true) hs
still_held h w [] xs n c = tt
still_held h w (a ∷ hs) xs n c =
    (ground (arith, contains-remove_ne a h xs), still_held h w hs xs (ground arith) c.1)

AllHeld-release :
    (h w : ℕ) (hs ws : List ℕ) (l : Limiter)
    → l.queue ≡ w ∷ ws
    → contains h l.held ≡ true
    → contains h hs ≡ false
    → AllHeld hs l
    → AllHeld hs (release h l).0
unfolding release
AllHeld-release h w hs ws l e c n a = rw (c, e) (still_held h w hs l.held n a)

-- As many distinct open closures as there are callers at the head of the queue take exactly those
-- off it and keep the number of slots taken.
release_all_in_order :
    (hs ws rest : List ℕ) (l : Limiter)
    → l.queue ≡ ws ++ rest
    → length hs ≡ length ws
    → Distinct hs
    → AllHeld hs l
    → ((release_all hs l).queue ≡ rest) × ((release_all hs l).active ≡ l.active)
unfolding release_all
release_all_in_order [] [] rest l e n d a = (e, refl)
release_all_in_order [] (w ∷ ws) rest l e n d a = absurd (omega arith)
release_all_in_order (h ∷ hs) [] rest l e n d a = absurd (omega arith)
release_all_in_order (h ∷ hs) (w ∷ ws) rest l e n d a =
    let (q, _, same) = release_hands_over h w (ws ++ rest) l e a.0 in
    let (done, kept) =
      release_all_in_order hs ws rest (release h l).0 q (omega arith) d.1
        (AllHeld-release h w hs (ws ++ rest) l e a.0 d.0 a.1) in
    (done, kept ∙ same)
