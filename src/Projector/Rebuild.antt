-- ===== src/Projector/Rebuild.antt =====
-- `Reset`, and the run that rebuilds the tables from the log.
use mathlib.Core.List.{lookup}
use mathlib.Core.Option
use mesh_bug.Prelude.{
  ℕ, suc, ◌≤◌, ◌≡◌, ◌≢◌, refl, sym, ap, subst, ◌∙◌, false, Option, none, some, List, [], ◌++◌,
  Bytes, map, length, arith, bytes_discrete,
}
use mesh_bug.Prelude.Maps.{lookup-put}
use mesh_bug.Event.{FloatOps, Event}
use mesh_bug.Store.{Db, Result, ok, err}
use mesh_bug.Pipeline.{clear, on_part}
use mesh_bug.Stages.Unique
use mesh_bug.Stages.Observations
use mesh_bug.Stages.Observations.{columns_of}
use mesh_bug.Projection.{Memory, start, packet_stages, Dated}
use mesh_bug.Projection.Applied.{Good}
use mesh_bug.Projection.Batch.{observed}
use mesh_bug.Projection.Runs.{says, described, described-columns_of, RowOk-described, empty-Good}
use mesh_bug.Stages.Unique.Flush.{row_of}
use mesh_bug.Stages.Observations.Flush.{packets}
use mesh_bug.Notify.{Message}
use mesh_bug.RawLog.{RawEvent}
use mesh_bug.Projector.Pending.{Above}
use mesh_bug.Projector.CaughtUp.{still, catch_up-Finished}
use mesh_bug.Projector.{
  Projector, highest, decoded, catch_up, projector_name, reset, load_cursor, reset_derived_state,
}

module _ {F : Type 0} ⦃fl : FloatOps F⦄ where
  clear-start : (s : Memory F) → clear packet_stages s ≡ start
  unfolding clear on_part Unique.stage Observations.stage
  clear-start s = refl

  loaded :
      (p : Projector F (Memory F) Message) (c : ℕ)
      → lookup bytes_discrete projector_name p.tables.projector_state ≡ some c
      → load_cursor p ≡ (ok tt, record p { cursor = c })
  unfolding load_cursor
  loaded p c e = ap (λ o. elim o [ none ↦ (err, p) | some c ↦ (ok tt, record p { cursor = c }) ]) e

  rewound :
      (name : Bytes) (d : Db F) (c : ℕ)
      → lookup bytes_discrete name d.projector_state ≡ some c
      → lookup bytes_discrete name (reset_derived_state name d).projector_state ≡ some 0
  unfolding reset_derived_state
  rewound name d c e = ground (arith, e, lookup-put bytes_discrete name name 0 d.projector_state)

  -- The projector after a `Reset` that the server accepts.
  abbrev pub emptied : Projector F (Memory F) Message → Projector F (Memory F) Message
  emptied p = (reset packet_stages false p).1

  -- The projector when `Run` has then loaded the cursor.
  abbrev pub renewed : Projector F (Memory F) Message → Projector F (Memory F) Message
  renewed p = (load_cursor (emptied p)).1

  emptied_lem :
      (p : Projector F (Memory F) Message)
      → emptied p
        ≡ record p { memory = start; tables = reset_derived_state projector_name p.tables }
  unfolding reset
  emptied_lem p =
      ap (λ m. record p { memory = m; tables = reset_derived_state projector_name p.tables })
        (clear-start p.memory)

  renewed_lem :
      (p : Projector F (Memory F) Message) (c : ℕ)
      → lookup bytes_discrete projector_name p.tables.projector_state ≡ some c
      → load_cursor (emptied p) ≡ (
        ok tt,
        record {
          cursor = 0;
          memory = start;
          tables = reset_derived_state projector_name p.tables;
          sent = p.sent;
        },
      )
  renewed_lem p c e =
      ap load_cursor (emptied_lem p)
      ∙ loaded (record p { memory = start; tables = reset_derived_state projector_name p.tables }) 0
          (rewound projector_name p.tables c e)

  no_packets : (d : Db F) → (reset_derived_state projector_name d).packet_observations ≡ []
  unfolding reset_derived_state
  no_packets d = refl

  no_rows : (d : Db F) → (reset_derived_state projector_name d).packets_unique ≡ []
  unfolding reset_derived_state
  no_rows d = refl

  module _ (decode : RawEvent → Option (Event F)) where
    -- The tables of a caught-up projector, from the log alone.
    pub record Rebuilt (rows : List RawEvent)
        (o : Option (Result (Unit {0}) × Projector F (Memory F) Message)) : Type 0 where
      pub left : Projector F (Memory F) Message
      pub returned : o ≡ some (ok tt, left)
      pub stored : packets left.tables ≡ map columns_of (observed (decoded decode rows))
      pub row :
          (h : Bytes)
          → h ≢ []
          → Option.map says (row_of left.tables h) ≡ described h (observed (decoded decode rows))

    from_renewed :
        (n : ℕ) (rows : List RawEvent) (p : Projector F (Memory F) Message)
        → p.cursor ≡ 0
        → packets p.tables ≡ []
        → Good p.tables p.memory
        → Above 0 rows
        → Dated (decoded decode rows)
        → length rows ≤ n
        → Rebuilt rows (catch_up decode packet_stages (suc n) false (still rows) p)
    unfolding highest
    from_renewed n rows p c k g ab dated le =
        let (q, e, u) = catch_up-Finished decode n [] rows p ab c dated g le in
        let all : packets q.tables ≡ map columns_of (observed (decoded decode rows)) =
          u.stored ∙ ap (λ k. k ++ map columns_of (observed (decoded decode rows))) k in
        record {
          left = q;
          returned = e;
          stored = all;
          row = λ h ne.
              RowOk-described h (row_of q.tables h) (packets q.tables) (u.good.row_ok h ne)
              ∙ ap (described h) all
              ∙ described-columns_of h (observed (decoded decode rows));
        }

    -- When the tables hold a cursor for the projector, whatever else they and the memory hold, a
    -- `Reset` that the server accepts makes `Run` start at cursor 0; when the log has ascending
    -- positive identifiers and does not change, events have times and nothing is refused, `catchUp`
    -- then returns without an error after at most one turn more than there are rows; the stored
    -- packets are those of the log, each once and in order, with the snr as its numeric(6,2) column
    -- keeps it, and the row of every hash that is not empty says what the packets of the log say of
    -- the hash.
    pub catch_up-reset :
        (n : ℕ) (rows : List RawEvent) (p : Projector F (Memory F) Message) (c : ℕ)
        → lookup bytes_discrete projector_name p.tables.projector_state ≡ some c
        → Above 0 rows
        → Dated (decoded decode rows)
        → length rows ≤ n
        → ((load_cursor (emptied p)).0 ≡ ok tt)
          × ((renewed p).cursor ≡ 0)
          × Rebuilt rows (catch_up decode packet_stages (suc n) false (still rows) (renewed p))
    catch_up-reset n rows p c e ab dated le =
        let d = reset_derived_state projector_name p.tables in
        let w = renewed_lem p c e in
        (
          ap (λ x. x.0) w,
          ap (λ x. x.1.cursor) w,
          subst (λ q. Rebuilt rows (catch_up decode packet_stages (suc n) false (still rows) q))
              (sym (ap (λ x. x.1) w))
              (from_renewed n rows _ refl (ap (map (λ o. o.packet)) (no_packets p.tables))
                (empty-Good projector_name d (no_packets p.tables) (no_rows p.tables)) ab dated le),
        )
