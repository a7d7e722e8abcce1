-- ===== src/Agent/Sender/Adding.antt =====
-- sender.go, runner.go: what an `Add` beside the sender makes of the queue.
use mathlib.Core.Path.{subst}
use smotryashchiy.Base.{
  Sublist-refl, Sublist-none, ℕ, ◌+◌, ◌^◌, ◌≤◌, ◌<◌, ◌≡◌, ◌⊎◌, refl, sym, ap, ◌∙◌, true, false,
  List, [], ◌∷◌, ◌++◌, none, some, Option, inl, inr, Bool-cases, Option-cases, arith, Bytes,
  bytes_key, bytes_eq_iff, codes, starts_with, length, length-append, any, is_empty, Sublist, done,
  skip,
}
use smotryashchiy.Assoc.{lookup}
use smotryashchiy.Agent.Spool.{
  Codec, Spool, AddError, write_failed, empty_key, encode_failed, name_of, next_seq, append_body,
  add, decode,
}
use smotryashchiy.Agent.Spool.Names.{name_of-ne}
use smotryashchiy.Agent.Spool.Queue.{Inv}
use smotryashchiy.Agent.Spool.Add.{
  new_item, write, fresh, other_files, old_files, new_file, new_queue, written_spool, longer,
  dropping, dropping-Dropped, append_body_lem,
}
use smotryashchiy.Agent.Spool.Contents.{
  Label, values, is_named, labels, labels-disk, labels-append, drop_oldest-Sublist,
  drop_oldest-counts,
}
use smotryashchiy.Agent.Sender.{refusals}

-- What adding a batch, which would read as `value`, makes of the queue.
pub record Adds (codec : Codec) (s : Spool) (now : ℕ) (value : Option (Bytes × Bytes)) (s' : Spool)
    (n : ℕ) (e : Option AddError) : Type 0 where
  pub new : List Label
  pub in_order : Sublist (labels codec s'.disk s'.items) (labels codec s.disk s.items ++ new)
  pub from : Sublist (values new) (value ∷ [])
  pub apart : (m : ℕ) → m ≤ s.last_seq → any (is_named (name_of m)) new ≡ false
  pub sound : Inv s'
  pub counted : n + length s'.items + refusals e ≡ length s.items + 1
  pub same_corrupt : s'.corrupt ≡ s.corrupt
  pub seq : (s'.last_seq ≤ s.last_seq + 1) ⊎ (s'.last_seq ≤ now)
  pub seq_le : s.last_seq ≤ s'.last_seq

module _ (codec : Codec) where
  -- Nothing was added.
  refused-Adds :
      (s s' : Spool) (now : ℕ) (value : Option (Bytes × Bytes)) (e : AddError)
      → labels codec s'.disk s'.items ≡ labels codec s.disk s.items
      → Inv s'
      → s'.items ≡ s.items
      → s'.corrupt ≡ s.corrupt
      → s'.last_seq ≡ s.last_seq
      → refusals (some e) ≡ 1
      → Adds codec s now value s' 0 (some e)
  refused-Adds s s' now value e same v i c l r = record {
    new = [];
    in_order =
        subst (λ ls. Sublist ls (labels codec s.disk s.items ++ [])) (sym same)
          (Sublist-none (labels codec s.disk s.items));
    from = skip value done;
    apart = λ m h. refl;
    sound = v;
    counted = ground (arith, i, r);
    same_corrupt = c;
    seq = inl (omega (arith, l));
    seq_le = omega (arith, l);
  }

  next_seq-le :
      (now last_seq : ℕ)
      → (last_seq + 1 < 2 ^ 64)
      → (next_seq now last_seq ≤ last_seq + 1) ⊎ (next_seq now last_seq ≤ now)
  unfolding next_seq
  next_seq-le now last_seq h = ground arith

  module _ (s : Spool) (body tmp : Bytes) (now : ℕ) (v : Inv s)
      (apart : starts_with (codes ".tmp-") tmp ≡ true) (room : s.last_seq + 1 < 2 ^ 64) where
    abbrev new_label : Label
    new_label = (name_of (next_seq now s.last_seq), decode codec (some body))

    same_labels :
        labels codec (write s body tmp now v apart room).0 s.items ≡ labels codec s.disk s.items
    same_labels =
        labels-disk codec s.disk (write s body tmp now v apart room).0 0 s.last_seq s.items
          (λ m low high. other_files s body tmp now v apart room m high) v.queued

    longer_labels :
        (write s body tmp now v apart room).1 ≡ true
        → labels codec (write s body tmp now v apart room).0 (longer s body tmp now v apart room)
          ≡ labels codec s.disk s.items ++ new_label ∷ []
    longer_labels w =
        labels-append codec (write s body tmp now v apart room).0 s.items (new_item s now body ∷ [])
        ∙ ap
            (λ ls.
              ls
              ++ (
                name_of (next_seq now s.last_seq),
                decode codec (
                    lookup (name_of (next_seq now s.last_seq))
                      (write s body tmp now v apart room).0.files),
              )
                ∷ [])
            same_labels
        ∙ ap
            (λ f.
              labels codec s.disk s.items
              ++ (name_of (next_seq now s.last_seq), decode codec f) ∷ [])
            (new_file s body tmp now v apart room w)

    written-Adds :
        (write s body tmp now v apart room).1 ≡ true
        → let r = dropping s body tmp now v apart room in
          Adds codec s now (decode codec (some body)) r.0 r.1 r.2
    written-Adds w =
        let k = dropping-Dropped s body tmp now v apart room w in
        let d = (write s body tmp now v apart room).0 in
        let next = fresh s body tmp now v apart room in
        let many =
          drop_oldest-counts (written_spool s body tmp now v apart room)
            (longer s body tmp now v apart room) (s.bytes + length body) 0 d in
        let len : length (longer s body tmp now v apart room) ≡ length s.items + 1 =
          omega (arith, length-append s.items (new_item s now body ∷ [])) in
        record {
          new = new_label ∷ [];
          in_order =
              subst
                (Sublist (
                  labels codec (dropping s body tmp now v apart room).0.disk
                    (dropping s body tmp now v apart room).0.items))
                (longer_labels w)
                (drop_oldest-Sublist codec (written_spool s body tmp now v apart room)
                  (longer s body tmp now v apart room) (s.bytes + length body) 0 d 0
                  (next_seq now s.last_seq) next.1 (new_queue s body tmp now v apart room w));
          from = Sublist-refl _;
          apart = λ m h. ground (
            arith,
            bytes_eq_iff (name_of (next_seq now s.last_seq)) (name_of m),
            λ (p : name_of (next_seq now s.last_seq) ≡ name_of m).
                name_of-ne m (next_seq now s.last_seq) (omega (arith, next)) next.1 (sym p),
          );
          sound = record {
            tallied = k.tallied;
            queued = rw k.same_seq k.queued;
            numbered = rw k.same_seq next.1;
          };
          counted = elim (many.2) [
            | inl e ↦ rw e (omega (arith, many.0, len))
            | inr e ↦ rw e (omega (arith, many.0, len))
          ];
          same_corrupt = many.1;
          seq =
              subst (λ (n : ℕ). (n ≤ s.last_seq + 1) ⊎ (n ≤ now)) (sym k.same_seq)
                (next_seq-le now s.last_seq room);
          seq_le = omega (arith, k.same_seq, next);
        }

    body-Adds :
        let r = append_body s body now tmp in
        Adds codec s now (decode codec (some body)) r.0 r.1 r.2
    body-Adds = elim (Bool-cases (write s body tmp now v apart room).1) [
      | inl w ↦
          subst
            (λ (r : Spool × ℕ × Option AddError).
              Adds codec s now (decode codec (some body)) r.0 r.1 r.2)
            (sym (append_body_lem s body tmp now v apart room ∙ rw w refl)) (written-Adds w)
      | inr w ↦
          subst
            (λ (r : Spool × ℕ × Option AddError).
              Adds codec s now (decode codec (some body)) r.0 r.1 r.2)
            (sym (append_body_lem s body tmp now v apart room ∙ rw w refl))
            (refused-Adds s (record s { disk = (write s body tmp now v apart room).0 }) now
              (decode codec (some body)) write_failed same_labels
              (record {
                tallied = v.tallied;
                queued = old_files s body tmp now v apart room;
                numbered = v.numbered;
              })
              refl refl refl refl)
    ]

  -- What a batch says once it is queued.
  abbrev pub value_of : Bytes → Bytes → Option (Bytes × Bytes)
  value_of key batch = decode codec (codec.marshal key batch)

  pub add-Adds :
      (s : Spool) (key batch : Bytes) (now : ℕ) (tmp : Bytes)
      → Inv s
      → starts_with (codes ".tmp-") tmp ≡ true
      → s.last_seq + 1 < 2 ^ 64
      → let r = add codec s key batch now tmp in Adds codec s now (value_of key batch) r.0 r.1 r.2
  unfolding add
  add-Adds s key batch now tmp v apart room = elim (Bool-cases (is_empty key)) [
    | inl e ↦ rw e (refused-Adds s s now (value_of key batch) empty_key refl v refl refl refl refl)
    | inr e ↦ rw e (elim (Option-cases (codec.marshal key batch)) [
      | inl m ↦ rw m (refused-Adds s s now none encode_failed refl v refl refl refl refl)
      | inr (body, m) ↦ rw m (body-Adds s body tmp now v apart room)
    ])
  ]
