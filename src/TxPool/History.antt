-- ===== src/TxPool/History.antt =====
-- Histories of the pool: any calls between `snapshot` and the `revert` to it are undone.
use polkahat.Prelude.{
  ℕ, ◌<◌, ◌≡◌, refl, sym, subst, true, false, ap, ◌∙◌, inl, inr, Option, none, some, List, [], ◌∷◌,
  arith, Option-cases,
}
use polkahat.Prelude.Outcome.{Result, ok, throw}
use polkahat.Map
use polkahat.Map.{get-put, get-put_self}
use polkahat.Transaction.{
  TypedTransaction, Externals, Origin, fake, recovered, unverified, sender_of,
}
use polkahat.TxPool.State.{
  Error, Account, PoolState, TxPool, sender_error, invalid_signature, sender_or_throw,
  get_sender_address, set_block_gas_limit, snapshot, remove_snapshots_after, revert,
}
use polkahat.TxPool.Add.{add_transaction}
use polkahat.TxPool.Remove.{remove_transaction, update_pending_and_queued}
use polkahat.TxPool.Placement.{AddedPending, AddedQueued}
use polkahat.TxPool.Admission.{Added, add_transaction_lem}
use polkahat.TxPool.Frames.{saved, Keeps, remove_transaction-Keeps, update_pending_and_queued-Keeps}

-- A call, with what the state manager answers while it runs.
pub data Call : Type 0 where
  add : (ℕ → Option Account) → TypedTransaction → Call
  remove : ℕ → Call
  update : (ℕ → Option Account) → Call
  limit : ℕ → Call
  save : Call

no_sender : (o : Origin) → sender_of o ≡ none → (e : Error) × (sender_or_throw o ≡ throw e)
no_sender (fake a) h = absurd (cc)
no_sender (recovered a) h = absurd (cc)
no_sender (unverified true) h = (sender_error, refl)
no_sender (unverified false) h = (invalid_signature, refl)

module _ {Data : Type 0} (ext : Externals Data) where
  -- A caller goes on after an exception, with what was written.
  unfoldable pub call : Call → TxPool Data → TxPool Data
  call (add accounts tx) p = (add_transaction ext accounts tx p).1
  call (remove hash) p = (remove_transaction ext hash p).1
  call (update accounts) p = (update_pending_and_queued ext accounts p).1
  call (limit n) p = set_block_gas_limit n p
  call save p = (snapshot p).1

  unfoldable pub run : List Call → TxPool Data → TxPool Data
  run [] p = p
  run (c ∷ cs) p = run cs (call c p)

  Added-Keeps :
      (accounts : ℕ → Option Account) (p : TxPool Data) (tx : TypedTransaction) (sender : ℕ)
      (r : Result Error (Unit {0}) × TxPool Data)
      → Added ext accounts p tx sender r
      → saved r.1 ≡ saved p
  Added-Keeps accounts p tx sender r (Added.refused e bad eq) = rw eq
  Added-Keeps accounts p tx sender r
        (Added.queued good later (AddedQueued.too_low i old e at same few eq)) =
      rw eq
  Added-Keeps accounts p tx sender r
        (Added.queued good later (AddedQueued.overwrote i old at_i same more eq)) =
      rw eq
  Added-Keeps accounts p tx sender r (Added.queued good later (AddedQueued.appended missing eq)) =
      rw eq
  Added-Keeps accounts p tx sender r
        (Added.pending good now (AddedPending.too_low i old e at same few eq)) =
      rw eq
  Added-Keeps accounts p tx sender r
        (Added.pending good now (AddedPending.overwrote i old at_i same more eq)) =
      rw eq
  Added-Keeps accounts p tx sender r
        (Added.pending good now
          (AddedPending.appended missing moved rest run perm sorted stops eq)) =
      rw eq

  add_transaction-Keeps :
      (accounts : ℕ → Option Account) (tx : TypedTransaction)
      → Keeps (add_transaction ext accounts tx)
  unfolding add_transaction get_sender_address
  add_transaction-Keeps accounts tx p = elim (Option-cases (sender_of tx.origin)) [
    | inl none_known ↦
        let (e, thrown) = no_sender tx.origin none_known in rw (thrown, add_transaction)
    | inr (sender, from) ↦
        Added-Keeps accounts p tx sender _ (add_transaction_lem ext accounts p tx sender from)
  ]

  -- The snapshot is there, and its id is not given out again.
  record Holds (id : ℕ) (s : PoolState Data) (p : TxPool Data) : Type 0 where
    stored : Map.get id p.snapshots ≡ some s
    issued : id < p.next_snapshot_id

  Holds-Keeps :
      (id : ℕ) (s : PoolState Data) (p q : TxPool Data)
      → saved q ≡ saved p
      → Holds id s p
      → Holds id s q
  Holds-Keeps id s p q e h = record {
    stored = ap (λ (v : List (ℕ × PoolState Data) × ℕ). Map.get id v.0) e ∙ h.stored;
    issued = subst (λ n. id < n) (sym (ap (λ (v : List (ℕ × PoolState Data) × ℕ). v.1) e)) h.issued;
  }

  call-Holds :
      (id : ℕ) (s : PoolState Data) (c : Call) (p : TxPool Data)
      → Holds id s p
      → Holds id s (call c p)
  unfolding call set_block_gas_limit snapshot
  call-Holds id s (add accounts tx) p h =
      Holds-Keeps id s p _ (add_transaction-Keeps accounts tx p) h
  call-Holds id s (remove hash) p h = Holds-Keeps id s p _ (remove_transaction-Keeps ext hash p) h
  call-Holds id s (update accounts) p h =
      Holds-Keeps id s p _ (update_pending_and_queued-Keeps ext accounts p) h
  call-Holds id s (limit n) p h = record { stored = h.stored; issued = h.issued }
  call-Holds id s save p h = record {
    stored = ground (arith, get-put p.next_snapshot_id id p.state p.snapshots);
    issued = omega arith;
  }

  run-Holds :
      (id : ℕ) (s : PoolState Data) (cs : List Call) (p : TxPool Data)
      → Holds id s p
      → Holds id s (run cs p)
  unfolding run
  run-Holds id s [] p h = h
  run-Holds id s (c ∷ cs) p h = run-Holds id s cs (call c p) (call-Holds id s c p h)

  -- Whatever the pool is asked to do after a snapshot, except to revert, a revert to it brings the
  -- lists, the hash table and the gas limit of the time of the snapshot back.
  pub revert-run-snapshot :
      (cs : List Call) (p : TxPool Data)
      → (q : TxPool Data) × (revert p.next_snapshot_id (run cs (snapshot p).1) ≡ (ok tt, q))
        × (q.state ≡ p.state)
  unfolding snapshot revert
  revert-run-snapshot cs p =
      let q = run cs (snapshot p).1 in
      let kept = run-Holds p.next_snapshot_id p.state cs (snapshot p).1 (record {
        stored = get-put_self p.next_snapshot_id p.state p.snapshots;
        issued = omega arith;
      }) in
      (
        record q {
          state = p.state;
          snapshots = remove_snapshots_after p.next_snapshot_id q.snapshots;
        },
        rw (kept.stored, revert),
        refl,
      )
