-- ===== src/Effects.antt =====
-- Asynchronous code as a function on a state: it returns or throws, and leaves a new state.
-- `Holds` is a Hoare triple with a condition for the throwing end.
use stellar_payment_api.Base.{Bool, true, false, Option, none, some, ◌≡◌, refl}

pub data Outcome (A : Type 0) : Type 0 where
  ok : A → Outcome A
  threw : Outcome A

abbrev pub M : Type 0 → Type 0 → Type 0
M S A = S → Outcome A × S

unfoldable pub pure : {S A : Type 0} → A → M S A
pure a s = (ok a, s)

abbrev pub after : {S A B : Type 0} → Outcome A × S → (A → M S B) → Outcome B × S
after (ok a, s) f = f a s
after (threw, s) f = (threw, s)

infixl 5 ◌>>=◌ ◌>>◌
unfoldable pub ◌>>=◌ : {S A B : Type 0} → M S A → (A → M S B) → M S B
◌>>=◌ m f s = after (m s) f

abbrev pub ◌>>◌ : {S B : Type 0} → M S (Unit {0}) → M S B → M S B
m >> k = m >>= λ _. k

abbrev pub caught : {S A : Type 0} → Outcome A × S → M S A → Outcome A × S
caught (ok a, s) handler = (ok a, s)
caught (threw, s) handler = handler s

-- `try { … } catch { handler }`
unfoldable pub catch : {S A : Type 0} → M S A → M S A → M S A
catch m handler s = caught (m s) handler

abbrev pub attempted : {S A : Type 0} → Outcome A × S → Outcome (Option A) × S
attempted (ok a, s) = (ok (some a), s)
attempted (threw, s) = (ok none, s)

-- `try { x = await … } catch { return }`: `none` is the thrown case.
unfoldable pub attempt : {S A : Type 0} → M S A → M S (Option A)
attempt m s = attempted (m s)

-- `if (b) { … }`
unfoldable pub when : {S : Type 0} → Bool → M S (Unit {0}) → M S (Unit {0})
when true m = m
when false m = pure tt

module _ {S A : Type 0} where
  abbrev pub Post : (A → S → Type 0) → (S → Type 0) → Outcome A × S → Type 0
  Post Q E (ok a, s) = Q a s
  Post Q E (threw, s) = E s

  -- From a state where `P` holds, `m` ends where `Q` holds of its result, or throws where `E` does.
  pub record Holds (P : S → Type 0) (m : M S A) (Q : A → S → Type 0) (E : S → Type 0) : Type 0 where
    pub run : (s : S) → P s → Post Q E (m s)

  Post-weaken :
      (Q R : A → S → Type 0) (E D : S → Type 0) (r : Outcome A × S)
      → ((a : A) (s : S) → Q a s → R a s)
      → ((s : S) → E s → D s)
      → Post Q E r
      → Post R D r
  Post-weaken Q R E D (ok a, s) h k x = h a s x
  Post-weaken Q R E D (threw, s) h k x = k s x

  pub Holds-weaken :
      {P P' : S → Type 0} {m : M S A} {Q R : A → S → Type 0} {E : S → Type 0}
      → ((s : S) → P' s → P s)
      → ((a : A) (s : S) → Q a s → R a s)
      → Holds P m Q E
      → Holds P' m R E
  Holds-weaken {m} {Q} {R} {E} f g h = record {
    run = λ s p. Post-weaken Q R E E (m s) g (λ _ e. e) (h.run s (f s p));
  }

  pub Holds-pure :
      {P : S → Type 0} {Q : A → S → Type 0} {E : S → Type 0} (a : A)
      → ((s : S) → P s → Q a s)
      → Holds P (pure a) Q E
  unfolding pure
  Holds-pure a h = record { run = λ s p. h s p }

module _ {S A B : Type 0} where
  Post-after :
      (Q : A → S → Type 0) (R : B → S → Type 0) (E : S → Type 0) (r : Outcome A × S) (f : A → M S B)
      → Post Q E r
      → ((a : A) → Holds (Q a) (f a) R E)
      → Post R E (after r f)
  Post-after Q R E (ok a, s) f h k = (k a).run s h
  Post-after Q R E (threw, s) f h k = h

  pub Holds-bind :
      {P : S → Type 0} {R : B → S → Type 0} {E : S → Type 0} {m : M S A} {f : A → M S B}
      (Q : A → S → Type 0)
      → Holds P m Q E
      → ((a : A) → Holds (Q a) (f a) R E)
      → Holds P (m >>= f) R E
  unfolding ◌>>=◌
  Holds-bind {R} {E} {m} {f} Q h k = record { run = λ s p. Post-after Q R E (m s) f (h.run s p) k }

module _ {S A : Type 0} where
  Post-caught :
      (Q : A → S → Type 0) (E D : S → Type 0) (r : Outcome A × S) (m : M S A)
      → Post Q E r
      → Holds E m Q D
      → Post Q D (caught r m)
  Post-caught Q E D (ok a, s) m h k = h
  Post-caught Q E D (threw, s) m h k = k.run s h

  pub Holds-catch :
      {P : S → Type 0} {Q : A → S → Type 0} {D : S → Type 0} {m handler : M S A} (E : S → Type 0)
      → Holds P m Q E
      → Holds E handler Q D
      → Holds P (catch m handler) Q D
  unfolding catch
  Holds-catch {Q} {D} {m} {handler} E h k = record {
    run = λ s p. Post-caught Q E D (m s) handler (h.run s p) k;
  }

  abbrev pub OrThrown : (A → S → Type 0) → (S → Type 0) → Option A → S → Type 0
  OrThrown Q E none s = E s
  OrThrown Q E (some a) s = Q a s

  Post-attempted :
      (Q : A → S → Type 0) (E D : S → Type 0) (r : Outcome A × S)
      → Post Q E r
      → Post (OrThrown Q E) D (attempted r)
  Post-attempted Q E D (ok a, s) h = h
  Post-attempted Q E D (threw, s) h = h

  pub Holds-attempt :
      {P : S → Type 0} {D : S → Type 0} {m : M S A} (Q : A → S → Type 0) (E : S → Type 0)
      → Holds P m Q E
      → Holds P (attempt m) (OrThrown Q E) D
  unfolding attempt
  Holds-attempt {D} {m} Q E h = record { run = λ s p. Post-attempted Q E D (m s) (h.run s p) }

module _ {S : Type 0} where
  pub Holds-when :
      {P : S → Type 0} {Q : Unit {0} → S → Type 0} {E : S → Type 0} {m : M S (Unit {0})} (b : Bool)
      → (b ≡ true → Holds P m Q E)
      → (b ≡ false → (s : S) → P s → Q tt s)
      → Holds P (when b m) Q E
  unfolding when
  Holds-when true h k = h refl
  Holds-when false h k = Holds-pure tt (k refl)
