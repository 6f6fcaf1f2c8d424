-- ===== src/RelayLock/Table.antt =====
-- Who holds a lock of the table of a process.
use stellar_payment_api.Base.{
  ℕ, ◌+◌, ◌<◌, ◌≡◌, ◌≢◌, ◌⊎◌, inl, inr, refl, sym, ◌∙◌, ap, String, Bool, true, false, Option, none,
  some, List, [], ◌∷◌, if◌then◌else◌, str_eq, eq_iff, eq_refl, All, Bool-cases, arith,
}
use stellar_payment_api.OrderedMap
use stellar_payment_api.OrderedMap.{get-set, get-delete_ne}
use stellar_payment_api.RelayLock.{
  Lock, Locks, acquire_local, acquire_local_after, release_local, release_local_after, renew_local,
  renew_local_after,
}

-- A call on the table.
pub data Call : Type 0 where
  acquires : (key token : String) (ttl now : ℕ) → Call
  releases : (key token : String) → Call
  renews : (key token : String) (ttl now : ℕ) → Call

unfoldable pub perform : Call → Locks → Bool × Locks
perform (acquires key token ttl now) locks = acquire_local key token ttl now locks
perform (releases key token) locks = release_local key token locks
perform (renews key token ttl now) locks = renew_local key token ttl now locks

unfoldable pub perform_all : List Call → Locks → Locks
perform_all [] locks = locks
perform_all (c ∷ cs) locks = perform_all cs (perform c locks).1

-- Whether a call with this answer acquires the key.
unfoldable pub counts : String → Call → Bool → ℕ
counts key (acquires other token ttl now) acquired =
    if str_eq other key then (if acquired then 1 else 0) else 0
counts key call answer = 0

-- How many calls acquire the key.
unfoldable pub acquisitions : String → List Call → Locks → ℕ
acquisitions key [] locks = 0
acquisitions key (c ∷ cs) locks =
    let rest = acquisitions key cs (perform c locks).1 in counts key c (perform c locks).0 + rest

-- The call has another token; to acquire a key it comes before a time.
unfoldable pub IsForeign : String → ℕ → Call → Type 0
IsForeign token end (acquires key other ttl now) = (str_eq token other ≡ false) × (now < end)
IsForeign token end (releases key other) = str_eq token other ≡ false
IsForeign token end (renews key other ttl now) = str_eq token other ≡ false

-- The entry under the key, when another key is looked up.
same_entry :
    (other key : String) (o : Option Lock) (locks : Locks) (l : Lock)
    → OrderedMap.get other locks ≡ o
    → OrderedMap.get key locks ≡ some l
    → ((str_eq other key ≡ true) × (o ≡ some l)) ⊎ ((str_eq other key ≡ false) × (key ≢ other))
same_entry other key o locks l found held = elim (Bool-cases (str_eq other key)) [
  | inl same ↦
      let e : other ≡ key = (eq_iff other key).0 same in
      inl (same, sym found ∙ ap (λ k. OrderedMap.get k locks) e ∙ held)
  | inr different ↦ inr (different, λ e. cc (sym e, different, eq_refl key))
]

acquire_keeps :
    (key other token : String) (ttl now : ℕ) (l : Lock) (o : Option Lock) (locks : Locks)
    → OrderedMap.get other locks ≡ o
    → OrderedMap.get key locks ≡ some l
    → now < l.expires_at
    → (OrderedMap.get key (acquire_local_after o other token ttl now locks).1 ≡ some l)
      × (counts key
            (acquires other token ttl now)
            (acquire_local_after o other token ttl now locks).0
          ≡ 0)
unfolding acquire_local_after counts
acquire_keeps key other token ttl now l none locks found held early =
    elim (same_entry other key none locks l found held) [
      | inl (same, there) ↦ cc there
      | inr (different, apart) ↦ ground (
        arith,
        held,
        different,
        get-set other key (record { token = token; expires_at = now + ttl }) locks,
      )
    ]
acquire_keeps key other token ttl now l (some e) locks found held early =
    elim (same_entry other key (some e) locks l found held) [
      | inl (same, there) ↦ ground (arith, held, there, early)
      | inr (different, apart) ↦ ground (
        arith,
        held,
        different,
        get-set other key (record { token = token; expires_at = now + ttl }) locks,
      )
    ]

release_keeps :
    (key other token : String) (l : Lock) (o : Option Lock) (locks : Locks)
    → OrderedMap.get other locks ≡ o
    → OrderedMap.get key locks ≡ some l
    → str_eq l.token token ≡ false
    → OrderedMap.get key (release_local_after o other token locks).1 ≡ some l
unfolding release_local_after
release_keeps key other token l none locks found held foreign = held
release_keeps key other token l (some e) locks found held foreign =
    elim (same_entry other key (some e) locks l found held) [
      | inl (same, there) ↦ ground (arith, held, there, foreign)
      | inr (different, apart) ↦ ground (arith, held, get-delete_ne key other locks apart)
    ]

renew_keeps :
    (key other token : String) (ttl now : ℕ) (l : Lock) (o : Option Lock) (locks : Locks)
    → OrderedMap.get other locks ≡ o
    → OrderedMap.get key locks ≡ some l
    → str_eq l.token token ≡ false
    → OrderedMap.get key (renew_local_after o other token ttl now locks).1 ≡ some l
unfolding renew_local_after
renew_keeps key other token ttl now l none locks found held foreign = held
renew_keeps key other token ttl now l (some e) locks found held foreign =
    elim (same_entry other key (some e) locks l found held) [
      | inl (same, there) ↦ ground (arith, held, there, foreign)
      | inr (different, apart) ↦
          ground
            (arith, held, different, get-set other key (record e { expires_at = now + ttl }) locks)
    ]

-- A foreign call leaves the entry and does not acquire its key.
foreign_keeps :
    (key : String) (l : Lock) (c : Call) (locks : Locks)
    → OrderedMap.get key locks ≡ some l
    → IsForeign l.token l.expires_at c
    → (OrderedMap.get key (perform c locks).1 ≡ some l) × (counts key c (perform c locks).0 ≡ 0)
unfolding perform counts IsForeign acquire_local release_local renew_local
foreign_keeps key l (acquires other token ttl now) locks held (foreign, early) =
    acquire_keeps key other token ttl now l (OrderedMap.get other locks) locks refl held early
foreign_keeps key l (releases other token) locks held foreign =
    (release_keeps key other token l (OrderedMap.get other locks) locks refl held foreign, refl)
foreign_keeps key l (renews other token ttl now) locks held foreign = (
  renew_keeps key other token ttl now l (OrderedMap.get other locks) locks refl held foreign,
  refl,
)

foreign_calls_keep :
    (key : String) (l : Lock) (cs : List Call) (locks : Locks)
    → OrderedMap.get key locks ≡ some l
    → All (IsForeign l.token l.expires_at) cs
    → (OrderedMap.get key (perform_all cs locks) ≡ some l) × (acquisitions key cs locks ≡ 0)
unfolding perform_all acquisitions
foreign_calls_keep key l [] locks held all = (held, refl)
foreign_calls_keep key l (c ∷ cs) locks held (foreign, all) =
    let (kept, none_acquired) = foreign_keeps key l c locks held foreign in
    let (after, no_more) = foreign_calls_keep key l cs (perform c locks).1 kept all in
    (after, omega (arith, none_acquired, no_more))

acquired_entry :
    (key token : String) (ttl now : ℕ) (o : Option Lock) (locks : Locks)
    → (acquire_local_after o key token ttl now locks).0 ≡ true
    → OrderedMap.get key (acquire_local_after o key token ttl now locks).1
      ≡ some (record { token = token; expires_at = now + ttl })
unfolding acquire_local_after
acquired_entry key token ttl now none locks acquired =
    ground
      (arith, eq_refl key, get-set key key (record { token = token; expires_at = now + ttl }) locks)
acquired_entry key token ttl now (some e) locks acquired = ground (
  arith,
  acquired,
  eq_refl key,
  get-set key key (record { token = token; expires_at = now + ttl }) locks,
)

release_own :
    (key token : String) (l : Lock) (o : Option Lock) (locks : Locks)
    → o ≡ some l
    → str_eq l.token token ≡ true
    → (release_local_after o key token locks).0 ≡ true
unfolding release_local_after
release_own key token l none locks there own = cc there
release_own key token l (some e) locks there own = ground (arith, there, own)

-- After a caller acquires a key in the table, whatever other callers do with tokens of their own,
-- with this key or other ones, none of them acquires the key before the time to live is over, and
-- while none tries to later, the release by the caller that holds the lock succeeds.
pub acquired_alone :
    (key token : String) (ttl now : ℕ) (locks : Locks) (cs : List Call)
    → (acquire_local key token ttl now locks).0 ≡ true
    → All (IsForeign token (now + ttl)) cs
    → let held = (acquire_local key token ttl now locks).1 in
      (acquisitions key cs held ≡ 0) × ((release_local key token (perform_all cs held)).0 ≡ true)
unfolding acquire_local release_local
acquired_alone key token ttl now locks cs acquired all =
    let o = OrderedMap.get key locks in
    let held = (acquire_local_after o key token ttl now locks).1 in
    let l : Lock = record { token = token; expires_at = now + ttl } in
    let (kept, none_acquired) =
      foreign_calls_keep key l cs held (acquired_entry key token ttl now o locks acquired) all in
    (
      none_acquired,
      release_own key token l (OrderedMap.get key (perform_all cs held)) (perform_all cs held) kept
          (eq_refl token),
    )
