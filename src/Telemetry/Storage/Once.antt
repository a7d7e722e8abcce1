-- ===== src/Telemetry/Storage/Once.antt =====
-- store.go: a batch is stored once, whatever statement or commit fails.
use smotryashchiy.Base.{
  ℕ, ◌≡◌, refl, ◌∙◌, ap, sym, Bool, true, false, not, ◌&&◌, ◌||◌, List, [], ◌∷◌, ◌++◌, arith, Bytes,
  bytes_eq, bytes_eq_iff, if◌then◌else◌, length, next_fails, Bool-cases, inl, inr,
}
use smotryashchiy.Sql.{
  Db, Result, ok, err, ◌>>=◌, pure, refuse, Ending, commits, returns, advance, end,
}
use smotryashchiy.Sql.Atomic.{Unchanged, ended_transaction-Unchanged, continue, statement-rule}
use smotryashchiy.Sql.Fixes.{Fixes, Fixes-pure, Fixes-statement, Fixes-if, Fixes-bind}
use smotryashchiy.Telemetry.Batch.{Labels, Batch, Document}
use smotryashchiy.Telemetry.Ingest.{StoreResult}
use smotryashchiy.Telemetry.Storage.{
  Tables, Error, host_not_found, Stored, BatchRow, same_batch, is_there, prepared, insert_all,
  tally, store_documents, store_records, see_host, stored, batch_row, replay, claimed_batch,
  claim_batch, has_host, store_batch, store, unix_milli,
}

abbrev batches_of : Tables → List BatchRow
batches_of t = t.batches

prepared-Fixes : (n : ℕ) → Fixes batches_of (prepared n)
prepared-Fixes n =
    Fixes-if batches_of _ _ _ (Fixes-pure batches_of tt) (Fixes-statement batches_of _ (λ t. refl))

insert_all-Fixes :
    {A : Type 0} (insert : A → Stored Bool) (records : List A)
    → ((a : A) → Fixes batches_of (insert a))
    → Fixes batches_of (insert_all insert records)
unfolding insert_all
insert_all-Fixes insert [] h = Fixes-pure batches_of ([], 0)
insert_all-Fixes insert (a ∷ records) h = Fixes-bind batches_of (insert a) _ (h a) (λ new.
    Fixes-bind batches_of (insert_all insert records) _ (insert_all-Fixes insert records h)
      (λ others. Fixes-pure batches_of (tally new a others)))

store_documents-Fixes :
    (host : Bytes) (received : ℕ) (ds : List Document)
    → Fixes batches_of (store_documents host received ds)
unfolding store_documents
store_documents-Fixes host received [] = Fixes-pure batches_of tt
store_documents-Fixes host received (d ∷ ds) =
    Fixes-bind batches_of _ _ (Fixes-statement batches_of _ (λ t. refl))
      (λ u. store_documents-Fixes host received ds)

module _ (canonical : Labels → Bytes) where
  store_records-Fixes :
      (host : Bytes) (received : ℕ) (b : Batch)
      → Fixes batches_of (store_records canonical host received b)
  unfolding store_records
  store_records-Fixes host received b =
      Fixes-bind batches_of _ _ (prepared-Fixes (length b.metrics)) (λ u.
        Fixes-bind batches_of _ _ (prepared-Fixes (length b.checks)) (λ v.
          Fixes-bind batches_of _ _ (prepared-Fixes (length b.events)) (λ w.
            Fixes-bind batches_of _ _
              (insert_all-Fixes _ b.metrics (λ m. Fixes-statement batches_of _ (λ t. refl)))
              (λ metrics.
                Fixes-bind batches_of _ _
                  (insert_all-Fixes _ b.checks (λ c. Fixes-statement batches_of _ (λ t. refl)))
                  (λ checks.
                    Fixes-bind batches_of _ _
                      (insert_all-Fixes _ b.events (λ e. Fixes-statement batches_of _ (λ t. refl)))
                      (λ events.
                        Fixes-bind batches_of _ _ (store_documents-Fixes host received b.documents)
                          (λ x.
                            Fixes-bind batches_of (see_host host received) _
                              (Fixes-statement batches_of _ (λ t. refl))
                              (λ y. Fixes-pure batches_of (stored b metrics checks events)))))))))

-- Whether a batch of this host with this key is recorded.
abbrev pub is_stored : Bytes → Bytes → List BatchRow → Bool
is_stored host key [] = false
is_stored host key (r ∷ rows) =
    (bytes_eq r.host_id host && bytes_eq r.idempotency_key key) || is_stored host key rows

is_there-is_stored :
    (host key : Bytes) (now : ℕ) (b : Batch) (rows : List BatchRow)
    → is_there same_batch (batch_row host key now b) rows ≡ is_stored host key rows
is_there-is_stored host key now b [] = refl
is_there-is_stored host key now b (r ∷ rows) =
    ground (arith, is_there-is_stored host key now b rows)

is_stored-inserted :
    (host key : Bytes) (now : ℕ) (b : Batch) (rows : List BatchRow)
    → is_stored host key (rows ++ batch_row host key now b ∷ []) ≡ true
is_stored-inserted host key now b [] = ground (arith, bytes_eq_iff host host, bytes_eq_iff key key)
is_stored-inserted host key now b (r ∷ rows) =
    ground (arith, is_stored-inserted host key now b rows)

-- A batch is recorded when the transaction commits, or was recorded when it returns.
abbrev Recorded : Bytes → Bytes → Tables → Result Error (Ending StoreResult) × Db Tables → Type 0
Recorded host key t (err e, d) = Unit
Recorded host key t (ok (commits r), d) = is_stored host key d.tables.batches ≡ true
Recorded host key t (ok (returns r), d) = is_stored host key t.batches ≡ true

end-Recorded :
    (host key : Bytes) (t : Tables) (x : Result Error (Ending StoreResult) × Db Tables)
    (r : StoreResult) (d' : Db Tables)
    → Recorded host key t x
    → end t x ≡ (ok r, d')
    → is_stored host key d'.tables.batches ≡ true
end-Recorded host key t (err e, d) r d' c h = ground arith
end-Recorded host key t (ok (commits a), d) r d' c h = ground arith
end-Recorded host key t (ok (returns a), d) r d' c h = ground arith

stored-Recorded :
    (host key : Bytes) (t t' : Tables) (x : Result Error StoreResult × Db Tables)
    → is_stored host key t'.batches ≡ true
    → x.1.tables.batches ≡ t'.batches
    → Recorded host key t (continue (λ r. pure (commits r)) x)
stored-Recorded host key t t' (err e, d) s h = tt
stored-Recorded host key t t' (ok r, d) s h = ap (is_stored host key) h ∙ s

module _ (canonical : Labels → Bytes) where
  -- What follows the insertion of the batch's own row.
  abbrev after_claim : Bytes → ℕ → Batch → Bool → Stored (Ending StoreResult)
  after_claim host now b new =
      if not new
      then pure (returns replay)
      else (store_records canonical host (unix_milli now) b >>= λ r. pure (commits r))

  after_claim-Recorded :
      (host key : Bytes) (now : ℕ) (b : Batch) (d : Db Tables) (k : Bool)
      → is_there same_batch (batch_row host key now b) d.tables.batches ≡ k
      → let rows =
          if k then d.tables.batches else d.tables.batches ++ batch_row host key now b ∷ [] in
        Recorded host key d.tables (
          after_claim host now b (not k) (record d { tables = record d.tables { batches = rows } }))
  after_claim-Recorded host key now b d true h =
      sym (is_there-is_stored host key now b d.tables.batches) ∙ h
  after_claim-Recorded host key now b d false h =
      let d' : Db Tables = record d {
        tables = record d.tables { batches = d.tables.batches ++ batch_row host key now b ∷ [] };
      } in
      stored-Recorded host key d.tables d'.tables
        (store_records canonical host (unix_milli now) b d')
        (is_stored-inserted host key now b d.tables.batches)
        ((store_records-Fixes canonical host (unix_milli now) b).fixes d')

  store_batch-Recorded :
      (host key : Bytes) (now : ℕ) (b : Batch) (d : Db Tables)
      → Recorded host key d.tables (store_batch canonical host key now b d)
  unfolding store_batch
  store_batch-Recorded host key now b d =
      let claim : Stored (Ending StoreResult) =
        claim_batch (batch_row host key now b) >>= after_claim host now b in
      let after : Bool → Stored (Ending StoreResult) =
        λ known. if not known then refuse host_not_found else claim in
      statement-rule (λ x. Recorded host key d.tables (continue after x))
        (λ t. (has_host host t.hosts, t)) d tt
        (elim (has_host host d.tables.hosts)
          as (λ k. Recorded host key d.tables (after k (advance d))) [
            | false ↦ tt
            | true ↦
                statement-rule
                  (λ x. Recorded host key d.tables (continue (after_claim host now b) x))
                  (claimed_batch (batch_row host key now b)) (advance d) tt
                  (after_claim-Recorded host key now b (advance (advance d))
                    (is_there same_batch (batch_row host key now b) d.tables.batches) refl)
          ])

  -- A batch that was stored without an error is recorded.
  store-is_stored :
      (host key : Bytes) (now : ℕ) (b : Batch) (d d' : Db Tables) (r : StoreResult)
      → store canonical host key now b d ≡ (ok r, d')
      → is_stored host key d'.tables.batches ≡ true
  unfolding store
  store-is_stored host key now b d d' r h = elim (Bool-cases (next_fails d.faults)) [
    | inl e ↦ ground arith
    | inr e ↦
        end-Recorded host key d.tables (store_batch canonical host key now b (advance d)) r d'
          (store_batch-Recorded host key now b (advance d)) (sym (rw e refl) ∙ h)
  ]

-- A replay, or an error: the tables are as they were.
abbrev pub Replays : Db Tables → Result Error StoreResult × Db Tables → Type 0
Replays d (ok r, d') = (r ≡ replay) × (d'.tables ≡ d.tables)
Replays d (err e, d') = d'.tables ≡ d.tables

module _ (canonical : Labels → Bytes) where
  store-Replays :
      (host key : Bytes) (now : ℕ) (b : Batch) (d : Db Tables)
      → is_stored host key d.tables.batches ≡ true
      → Replays d (store canonical host key now b d)
  unfolding store store_batch
  store-Replays host key now b d h =
      ground (arith, is_there-is_stored host key now b d.tables.batches)

  store-Unchanged :
      (host key : Bytes) (now : ℕ) (b : Batch) (d : Db Tables)
      → Unchanged d (store canonical host key now b d)
  unfolding store
  store-Unchanged host key now b d =
      ended_transaction-Unchanged (store_batch canonical host key now b) d

  -- What a call leaves to the next one with the same host and key, at `now` with the batch `b`.
  abbrev pub Once :
      Bytes → Bytes → ℕ → Batch → Db Tables → Result Error StoreResult × Db Tables → Type 0
  Once host key now b d (ok r, d') = Replays d' (store canonical host key now b d')
  Once host key now b d (err e, d') = d'.tables ≡ d.tables

  -- A call that reports an error stores nothing of its batch. After one that does not, the next call
  -- with the same host and key, whatever batch it brings, is a replay or an error, and leaves the
  -- tables as they are.
  pub store-Once :
      (host key : Bytes) (now now' : ℕ) (b b' : Batch) (d : Db Tables)
      → Once host key now' b' d (store canonical host key now b d)
  store-Once host key now now' b b' d =
      after (store canonical host key now b d) refl (store-Unchanged host key now b d)
    where
      after :
          (x : Result Error StoreResult × Db Tables)
          → store canonical host key now b d ≡ x
          → Unchanged d x
          → Once host key now' b' d x
      after (ok r, d') h u =
          store-Replays host key now' b' d' (store-is_stored canonical host key now b d d' r h)
      after (err e, d') h u = u
