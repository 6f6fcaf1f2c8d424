-- ===== src/Poller/Check/Runs.antt =====
-- Runs of the monitor that return: what they return, and the trace that they leave.
use stellar_payment_api.Base.{◌≡◌, refl, some, List, ◌∷◌}
use stellar_payment_api.Effects.{M, Outcome, ok, threw, pure, ◌>>=◌, catch, attempt}
use stellar_payment_api.Poller.{Event, Outside, World}
use stellar_payment_api.Poller.Check

-- The run returns `x` and takes the trace from `t` to `u`.
pub record Does (o : Outside) {A : Type 0} (c : M (World o) A) (x : A) (t u : List (Event o.Amount))
    : Type 0 where
  pub run :
      (w : World o)
      → w.trace ≡ t
      → (s : o.State) × (c w ≡ (ok x, record { outside = s; trace = u }))

module _ {o : Outside} where
  pub Does-bind :
      {A B : Type 0} {c : M (World o) A} (k : A → M (World o) B) {x : A} {y : B}
      {t u v : List (Event o.Amount)}
      → Does o c x t u
      → Does o (k x) y u v
      → Does o (c >>= k) y t v
  unfolding ◌>>=◌
  Does-bind k {u = u} f g = record {
    run = λ w e.
        let (s, ends) = f.run w e in
        let (s', ends') = g.run (record { outside = s; trace = u }) refl in (s', rw ends ends');
  }

  lifted_ok :
      {A : Type 0} (a : A) (t : List (Event o.Amount)) (r : Outcome A × o.State)
      → r.0 ≡ ok a
      → (s : o.State) × (Check.lifted o t r ≡ (ok a, record { outside = s; trace = t }))
  unfolding Check.lift
  lifted_ok a t (ok b, s) e = (s, cc)
  lifted_ok a t (threw, s) e = cc

  pub Does-lift :
      {A : Type 0} {a : A} (c : M o.State A) {t : List (Event o.Amount)}
      → ((s : o.State) → (c s).0 ≡ ok a)
      → Does o (Check.lift o c) a t t
  unfolding Check.lift
  Does-lift {a = a} c h = record {
    run = λ w e.
        let (s, ends) = lifted_ok a w.trace (c w.outside) (h w.outside) in (s, rw (← e) ends);
  }

  pub Does-emit :
      {e : Event o.Amount} {t : List (Event o.Amount)} → Does o (Check.emit o e) tt t (e ∷ t)
  unfolding Check.emit
  Does-emit = record { run = λ w h. (w.outside, rw h) }

  pub Does-pure : {A : Type 0} {a : A} {t : List (Event o.Amount)} → Does o (pure a) a t t
  unfolding pure
  Does-pure = record { run = λ w h. (w.outside, rw (← h)) }

  pub Does-attempt :
      {A : Type 0} {c : M (World o) A} {x : A} {t u : List (Event o.Amount)}
      → Does o c x t u
      → Does o (attempt c) (some x) t u
  unfolding attempt
  Does-attempt f = record { run = λ w e. let (s, ends) = f.run w e in (s, rw ends) }

  pub Does-catch :
      {A : Type 0} {c : M (World o) A} (h : M (World o) A) {x : A} {t u : List (Event o.Amount)}
      → Does o c x t u
      → Does o (catch c h) x t u
  unfolding catch
  Does-catch h f = record { run = λ w e. let (s, ends) = f.run w e in (s, rw ends) }
