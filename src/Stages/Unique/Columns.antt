-- ===== src/Stages/Unique/Columns.antt =====
-- The columns of an observation as they are stored: what they say of a hash is what the row that
-- was written says.
use mesh_bug.Prelude.{
  ◌≡◌, refl, sym, ap, ◌∙◌, Option, none, some, List, [], ◌∷◌, ◌++◌, map, Bytes, if◌then◌else◌,
  bytes_discrete, arith,
}
use mesh_bug.Prelude.Sets.{distinct, contains}
use mesh_bug.Event.{FloatOps}
use mesh_bug.Store.{PacketRow, UniqueRow}
use mesh_bug.Stages.Observations.{columns_of}
use mesh_bug.Stages.Unique.{UniqueState}
use mesh_bug.Stages.Unique.Facts.{
  Facts, note, has_hash, summary, summary_from, summary_from-append, observers_of,
  observers_of-append,
}
use mesh_bug.Stages.Unique.Memory.{RowOk}
use mesh_bug.Stages.Unique.Batch.{Settled}

module _ {F : Type 0} ⦃fl : FloatOps F⦄ where
  summary_from-columns_of :
      (h : Bytes) (acc : Option Facts) (pos : List (PacketRow F))
      → summary_from h acc (map columns_of pos) ≡ summary_from h acc pos
  unfolding summary_from note
  summary_from-columns_of h acc [] = refl
  summary_from-columns_of h acc (po ∷ pos) =
      summary_from-columns_of h (if has_hash h po then some (note po acc) else acc) pos

  observers_of-columns_of :
      (h : Bytes) (pos : List (PacketRow F))
      → observers_of h (map columns_of pos) ≡ observers_of h pos
  unfolding observers_of
  observers_of-columns_of h [] = refl
  observers_of-columns_of h (po ∷ pos) = ground (arith, observers_of-columns_of h pos)

  pub summary-columns_of :
      (h : Bytes) (xs ys : List (PacketRow F))
      → summary h (xs ++ map columns_of ys) ≡ summary h (xs ++ ys)
  unfolding summary
  summary-columns_of h xs ys =
      summary_from-append h none xs (map columns_of ys)
      ∙ summary_from-columns_of h (summary_from h none xs) ys
      ∙ sym (summary_from-append h none xs ys)

  pub observers-columns_of :
      (h : Bytes) (xs ys : List (PacketRow F))
      → observers_of h (xs ++ map columns_of ys) ≡ observers_of h (xs ++ ys)
  observers-columns_of h xs ys =
      observers_of-append h xs (map columns_of ys)
      ∙ ap (observers_of h xs ++◌) (observers_of-columns_of h ys)
      ∙ sym (observers_of-append h xs ys)

  pub RowOk-columns_of :
      (h : Bytes) (row : Option UniqueRow) (xs ys : List (PacketRow F))
      → RowOk h row (xs ++ ys)
      → RowOk h row (xs ++ map columns_of ys)
  RowOk-columns_of h row xs ys ok = record {
    facts = ok.facts ∙ sym (summary-columns_of h xs ys);
    count = λ r e. ok.count r e ∙ ap (distinct bytes_discrete) (sym (observers-columns_of h xs ys));
  }

  pub Settled-columns_of :
      (h : Bytes) (o : Option UniqueState) (row : Option UniqueRow) (xs ys : List (PacketRow F))
      → Settled h o row (xs ++ ys)
      → Settled h o row (xs ++ map columns_of ys)
  Settled-columns_of h none row xs ys s = tt
  Settled-columns_of h (some st) row xs ys s = record {
    facts = s.facts ∙ sym (summary-columns_of h xs ys);
    set = s.set;
    members =
        λ a. s.members a ∙ ap (contains bytes_discrete a) (sym (observers-columns_of h xs ys));
    loaded = s.loaded;
  }
