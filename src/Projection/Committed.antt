-- ===== src/Projection/Committed.antt =====
-- A batch up to its commit: what `Flush` and `Evict` make of memory and tables.
use mathlib.Core.List.{lookup}
use mesh_bug.Prelude.{
  ℕ, ◌<◌, ◌≡◌, ◌≢◌, refl, ◌∙◌, true, false, List, [], ◌∷◌, ◌++◌, map, Bytes, if◌then◌else◌,
  bytes_discrete, arith, ◌⊎◌, inl, inr, Bool-cases,
}
use mesh_bug.Prelude.Maps.{IsMap, Map}
use mesh_bug.Event.{FloatOps, Event, Time, after, is_zero}
use mesh_bug.Store.{Db, PacketRow, UniqueRow, ok}
use mesh_bug.Pipeline.{
  on_part, high_water, set_cursor, settle, write_batch, flush_stages, save_cursor,
}
use mesh_bug.Projection.{Memory, packet_stages, Dated}
use mesh_bug.Stages.Unique
use mesh_bug.Stages.Unique.Flush.{row_of, Flushed, flush-Flushed}
use mesh_bug.Stages.Unique.Memory.{RowOk}
use mesh_bug.Stages.Unique.Batch.{Settled, Next, At-Next}
use mesh_bug.Stages.Unique.Evict.{evict-IsMap, lookup-evict, evicted-Settled}
use mesh_bug.Stages.Unique.Columns.{RowOk-columns_of, Settled-columns_of}
use mesh_bug.Stages.Observations
use mesh_bug.Stages.Observations.{columns_of}
use mesh_bug.Stages.Observations.Flush.{packets, stored, counted, flush-stored, packets-stored}
use mesh_bug.Projection.Applied.{Good, Applied}

module _ {F : Type 0} ⦃fl : FloatOps F⦄ where
  pub written_db : Db F → Map Bytes UniqueRow → List (PacketRow F) → Bytes → ℕ → Db F
  written_db d m buf name c = set_cursor name c (stored (record d { packets_unique = m }) buf)

  -- The transaction succeeds.
  pub record Committed (d : Db F) (s : Memory F) (name : Bytes) (c : ℕ) : Type 0 where
    pub entries : Unique.State
    pub rows : Map Bytes UniqueRow
    pub flushed : Flushed d s.unique entries rows
    pub ran : write_batch packet_stages name c s (record { db = d; faults = [] }) ≡ (
      ok tt,
      record { unique = entries; observations = counted s.observations },
      record { db = written_db d rows s.observations.buf name c; faults = [] },
    )

  write_batch-flushes :
      (s : Memory F) (name : Bytes) (c : ℕ) (d d₁ d₂ : Db F) (u : Unique.State)
      (o : Observations.State F)
      → Unique.flush s.unique (record { db = d; faults = [] })
        ≡ (ok tt, u, record { db = d₁; faults = [] })
      → Observations.flush s.observations (record { db = d₁; faults = [] })
        ≡ (ok tt, o, record { db = d₂; faults = [] })
      → write_batch packet_stages name c s (record { db = d; faults = [] }) ≡ (
        ok tt,
        record { unique = u; observations = o },
        record { db = set_cursor name c d₂; faults = [] },
      )
  unfolding write_batch flush_stages on_part save_cursor Unique.stage Observations.stage
  write_batch-flushes s name c d d₁ d₂ u o first second = ground (arith, first, second)

  pub write_batch-Committed :
      (d : Db F) (s : Memory F) (name : Bytes) (c : ℕ)
      → IsMap bytes_discrete s.unique
      → Committed d s name c
  unfolding written_db
  write_batch-Committed d s name c m =
      let (entries, rows, ran, f) = flush-Flushed d s.unique m in
      record {
        entries = entries;
        rows = rows;
        flushed = f;
        ran =
            write_batch-flushes s name c d _ _ entries (counted s.observations) ran
              (flush-stored s.observations (record d { packets_unique = rows }));
      }

  -- The memory after the commit.
  abbrev pub left : Time → Unique.State → Observations.State F → Memory F
  left hwm u o =
      if is_zero hwm
      then record { unique = u; observations = (Observations.notify o).1 }
      else record { unique = Unique.evict hwm u; observations = Observations.empty }

  pub settle-left :
      (hwm : Time) (u : Unique.State) (o : Observations.State F)
      → (settle packet_stages hwm (record { unique = u; observations = o })).1 ≡ left hwm u o
  unfolding settle on_part Unique.stage Observations.stage Observations.evict
  settle-left hwm u o = ground arith

  left-cases :
      (hwm : Time) (u : Unique.State) (o : Observations.State F)
      → ((left hwm u o ≡ record { unique = Unique.evict hwm u; observations = Observations.empty }))
        ⊎ ((is_zero hwm ≡ true)
            × (left hwm u o ≡ record { unique = u; observations = (Observations.notify o).1 }))
  left-cases hwm u o = elim (Bool-cases (is_zero hwm)) [
    | inl z ↦ inr (z, rw z refl)
    | inr z ↦ inl (rw z refl)
  ]

  -- A dated batch without a time is empty.
  high_water-grows :
      (es : List (Event F)) (hwm : Time) → 0 < hwm → is_zero (high_water es hwm) ≡ false
  unfolding high_water
  high_water-grows [] hwm l = ground arith
  high_water-grows (e ∷ es) hwm l =
      high_water-grows es (if after e.ts hwm then e.ts else hwm) (ground arith)

  pub high_water-zero :
      (es : List (Event F)) → Dated es → is_zero (high_water es 0) ≡ true → es ≡ []
  unfolding high_water
  high_water-zero [] dated z = refl
  high_water-zero (e ∷ es) dated z = absurd (
      ground (
        arith,
        high_water-grows es (if after e.ts 0 then e.ts else 0) (ground (arith, dated.0)),
        z,
      ))

  notify-buf : (o : Observations.State F) → (Observations.notify o).1.buf ≡ o.buf
  unfolding Observations.notify
  notify-buf o = ground arith

  counted-buf : (o : Observations.State F) → (counted o).buf ≡ o.buf
  counted-buf o = ground arith

  module _ (d : Db F) (s : Memory F) (name : Bytes) (c : ℕ) (a : Applied d s)
      (w : Committed d s name c) where
    abbrev after_db : Db F
    after_db = written_db d w.rows s.observations.buf name c

    next :
        (h : Bytes)
        → h ≢ []
        → Next h (lookup bytes_discrete h s.unique) (row_of d h) (packets d) s.observations.buf
    next h ne =
        At-Next h (lookup bytes_discrete h s.unique) (row_of d h) (packets d) s.observations.buf
          (a.row_ok h ne) (a.at h ne)

    pub packets-after : packets after_db ≡ packets d ++ map columns_of s.observations.buf
    unfolding written_db set_cursor
    packets-after = packets-stored d s.observations.buf

    RowOk-after : (h : Bytes) → h ≢ [] → RowOk h (row_of after_db h) (packets after_db)
    unfolding written_db set_cursor
    RowOk-after h ne =
        rw (packets-after, w.flushed.rows h)
          (RowOk-columns_of h _ (packets d) s.observations.buf (next h ne).row_ok)

    Settled-after :
        (h : Bytes)
        → h ≢ []
        → Settled h (lookup bytes_discrete h w.entries) (row_of after_db h) (packets after_db)
    unfolding written_db set_cursor
    Settled-after h ne =
        rw (packets-after, w.flushed.rows h, w.flushed.entries h)
          (Settled-columns_of h _ _ (packets d) s.observations.buf (next h ne).settled)

    pub left-Good :
        (hwm : Time)
        → (is_zero hwm ≡ true → s.observations.buf ≡ [])
        → Good after_db (left hwm w.entries (counted s.observations))
    left-Good hwm idle = elim (left-cases hwm w.entries (counted s.observations)) [
      | inl e ↦ rw e (record {
        is_map = evict-IsMap hwm w.entries w.flushed.is_map;
        row_ok = RowOk-after;
        settled = λ h ne.
            rw (lookup-evict hwm h w.entries w.flushed.is_map)
              (evicted-Settled hwm h (lookup bytes_discrete h w.entries) _ _ (Settled-after h ne));
        buffered = refl;
      })
      | inr (z, e) ↦ rw e (record {
        is_map = w.flushed.is_map;
        row_ok = RowOk-after;
        settled = Settled-after;
        buffered = notify-buf (counted s.observations) ∙ counted-buf s.observations ∙ idle z;
      })
    ]
