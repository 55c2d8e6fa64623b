-- ===== src/Stages/Loop.antt =====
-- The loop at the end of `Flush` in the stages that keep an accumulator for each key: every dirty
-- entry is upserted into the stage's table and marked clean; the first statement that the server
-- refuses ends the loop.
pub mod Stop
use mathlib.Core.List.{lookup}
use mesh_bug.Prelude.{
  ◌≡◌, refl, Bool, true, false, Option, none, some, [], ◌∷◌, arith, if◌then◌else◌,
}
use mesh_bug.Prelude.Maps.{Map, put, IsMap, lookup-put, put-IsMap, map_values}
use mesh_bug.Store.{Tx, Result, ok, err, exec}

-- A keyed table among the tables of a schema.
pub record Table (D K R : Type 0) : Type 0 where
  pub read : D → Map K R
  pub write : Map K R → D → D
  pub read-write : (m : Map K R) (d : D) → read (write m d) ≡ m
  pub write-write : (m m' : Map K R) (d : D) → write m (write m' d) ≡ write m d
  pub write-read : (d : D) → write (read d) d ≡ d

module _ {D K R : Type 0} (dec : Discrete K) (table : Table D K R) where
  -- INSERT … ON CONFLICT (key) DO UPDATE: `row` makes the new columns from the old row, if any.
  unfoldable pub upsert : (Option R → R) → K → D → D
  upsert row k d = table.write (put dec k (row (lookup dec k (table.read d))) (table.read d)) d

module _ {D K R V : Type 0} (dec : Discrete K) (table : Table D K R) where
  module _ (dirty : V → Bool) (clean : V → V) (row : V → Option R → R) where
    unfoldable pub write_dirty : Map K V → Tx D → Result (Unit {0}) × Map K V × Tx D
    unfolding exec upsert
    write_dirty [] t = (ok tt, [], t)
    write_dirty ((k, v) ∷ m) t = elim (dirty v) [
      | false ↦ let (r, m', t') = write_dirty m t in (r, (k, v) ∷ m', t')
      | true ↦
          let (r, _, t₁) = exec (upsert dec table (row v) k) tt t in
          elim r [
            | err ↦ (err, (k, v) ∷ m, t₁)
            | ok _ ↦ let (r', m', t') = write_dirty m t₁ in (r', (k, clean v) ∷ m', t')
          ]
    ]

    -- The table after the loop.
    unfoldable pub written : Map K V → Map K R → Map K R
    written [] m = m
    written ((k, v) ∷ es) m =
        written es (if dirty v then put dec k (row v (lookup dec k m)) m else m)

    abbrev pub cleaned : V → V
    cleaned v = if dirty v then clean v else v

    -- When the server refuses nothing the loop succeeds, cleans the memory and changes one table.
    pub write_dirty_lem :
        (es : Map K V) (d : D)
        → write_dirty es (record { db = d; faults = [] }) ≡ (
          ok tt,
          map_values cleaned es,
          record { db = table.write (written es (table.read d)) d; faults = [] },
        )
    unfolding write_dirty written map_values
    write_dirty_lem [] d = ground (arith, table.write-read d)
    write_dirty_lem ((k, v) ∷ es) d =
        let m = put dec k (row v (lookup dec k (table.read d))) (table.read d) in
        ground (
          arith,
          write_dirty_lem es d,
          write_dirty_lem es (table.write m d),
          table.read-write m d,
          table.write-write (written es m) m d,
        )

    abbrev pub row_after : Option V → Option R → Option R
    row_after none r = r
    row_after (some v) r = if dirty v then some (row v r) else r

    -- A row of the table after the loop depends on its own entry alone, so the order of the
    -- entries does not matter.
    pub lookup-written :
        (es : Map K V) (m : Map K R) (j : K)
        → IsMap dec es
        → lookup dec j (written es m) ≡ row_after (lookup dec j es) (lookup dec j m)
    unfolding written lookup
    lookup-written [] m j h = refl
    lookup-written ((k, v) ∷ es) m j h =
        let m' = put dec k (row v (lookup dec k m)) m in
        ground (
          arith,
          lookup-written es m j h.1,
          lookup-written es m' j h.1,
          lookup-put dec k j (row v (lookup dec k m)) m,
        )

    pub written-IsMap : (es : Map K V) (m : Map K R) → IsMap dec m → IsMap dec (written es m)
    unfolding written
    written-IsMap [] m h = h
    written-IsMap ((k, v) ∷ es) m h = ground (
      arith,
      written-IsMap es m h,
      written-IsMap es (put dec k (row v (lookup dec k m)) m)
          (put-IsMap dec k (row v (lookup dec k m)) m h),
    )
