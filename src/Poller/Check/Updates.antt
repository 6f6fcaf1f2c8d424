-- ===== src/Poller/Check/Updates.antt =====
-- The guarded update and its retries keep the trace grounded, and report a claim truthfully.
use stellar_payment_api.Base.{
  ℕ, zero, suc, ◌*◌, String, true, ◌≡◌, List, inl, inr, Has, refl, Bool-cases,
}
use stellar_payment_api.Effects.{M, Holds, Holds-bind, Holds-pure, Holds-when, Holds-weaken}
use stellar_payment_api.Poller.{
  Status, Claim, Reply, Event, signature_passed, update_sent, claimed, Outside, World,
}
use stellar_payment_api.Poller.Check.{
  send_update, retry_from, is_transient_db_error, retry_transient_db_operation,
}
use stellar_payment_api.Poller.Check.Trace.{Grounded, Knows, Traced, lift-Holds, emit-Holds}

module _ (o : Outside) where
  open o use {State, Amount, Metadata, update_pending, sleep}

  abbrev Sent : Claim Amount Metadata → List (Event Amount) → Type 0
  Sent c t =
      Grounded t × Has (signature_passed c.tx_id) t × Has (update_sent c.id c.tx_id c.status) t

  -- A reply that names the row as written stands for a claim in the trace.
  abbrev pub Replied : String → String → Status → Reply → List (Event Amount) → Type 0
  Replied id tx st reply t =
      Knows (signature_passed tx) t × (reply.updated ≡ true → Has (claimed id tx st) t)

  abbrev pub Replies : String → String → Status → M (World o) Reply → Type 0
  Replies id tx st m =
      Holds (Traced o (Knows (signature_passed tx))) m (λ r. Traced o (Replied id tx st r))
        (Traced o Grounded)

  send_update-Replies :
      (c : Claim Amount Metadata) → Replies c.id c.tx_id c.status (send_update o c)
  unfolding send_update
  send_update-Replies c =
      Holds-bind (λ _. Traced o (Sent c)) (emit-Holds o _ (λ w h. ((h.1, h.0), inr h.1, inl refl)))
        (λ _.
          Holds-bind (λ _. Traced o (Sent c)) (lift-Holds o (Sent c) _ (λ t h. h.0))
            (λ reply.
              Holds-bind (λ _. Traced o (Replied c.id c.tx_id c.status reply))
                (Holds-when reply.updated
                  (λ _. emit-Holds o _ (λ w h. (((h.2, h.0), inr h.1), λ _. inl refl)))
                  (λ no w h. ((h.0, h.1), λ yes'. cc)))
                (λ _. Holds-pure reply (λ w h. h))))

  retry_from-Replies :
      (id tx : String) (st : Status) (operation : M (World o) Reply)
      → Replies id tx st operation
      → (left delay_ms : ℕ) → Replies id tx st (retry_from o left delay_ms operation)
  unfolding retry_from
  retry_from-Replies id tx st operation h zero delay_ms =
      Holds-bind (λ r. Traced o (Replied id tx st r)) h
        (λ reply. elim (Bool-cases (is_transient_db_error reply.error)) [
          | inl again ↦ rw again (
              Holds-bind (λ _. Traced o (Replied id tx st reply)) (lift-Holds o _ _ (λ t k. k.0.0))
                (λ _. Holds-pure reply (λ w k. k)))
          | inr done ↦ rw done (Holds-pure reply (λ w k. k))
        ])
  retry_from-Replies id tx st operation h (suc left) delay_ms =
      Holds-bind (λ r. Traced o (Replied id tx st r)) h
        (λ reply. elim (Bool-cases (is_transient_db_error reply.error)) [
          | inl again ↦ rw again (
              Holds-bind (λ _. Traced o (Replied id tx st reply)) (lift-Holds o _ _ (λ t k. k.0.0))
                (λ _.
                  Holds-weaken (λ w k. k.0) (λ r w k. k)
                    (retry_from-Replies id tx st operation h left (delay_ms * 2))))
          | inr done ↦ rw done (Holds-pure reply (λ w k. k))
        ])

  pub update-Replies :
      (c : Claim Amount Metadata)
      → Replies c.id c.tx_id c.status (retry_transient_db_operation o (send_update o c))
  unfolding retry_transient_db_operation
  update-Replies c =
      retry_from-Replies c.id c.tx_id c.status (send_update o c) (send_update-Replies c) 2 100
