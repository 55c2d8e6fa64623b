-- ===== src/Stages/Nodes/Stands.antt =====
-- What an entry in memory stands for: the change that writing it makes to the row.
use mathlib.Core.List.{lookup}
use mathlib.Core.Option
use mesh_bug.Prelude.{
  ℕ, ◌<◌, ◌≡◌, ◌≢◌, refl, sym, ap, ◌∙◌, subst, true, false, Option, none, some, [], ◌∷◌, Bytes,
  arith, if◌then◌else◌, is_nil, min, ◌⊎◌, inl, inr, ◌==◌, ite, if_pos, if_neg, bytes_discrete,
  Bool-cases,
}
use mesh_bug.Prelude.Maps.{IsMap, lookup-put, put-IsMap}
use mesh_bug.Event.{AdvertInfo, Time}
use mesh_bug.Store.{NodesRow}
use mesh_bug.Stages.Loop.{row_after}
use mesh_bug.Stages.Nodes.{
  NodeState, State, fresh, observe, excluded, update_row, merge_row, sighted, adopt, apply_advert,
  apply_found, nodes_table,
}
use mesh_bug.Stages.Nodes.Advert.{
  Heard, order, observe-Heard, observe-fresh-Heard, row_observe, heard, observe-heard,
  observe-older, observe-same, observe-newer, excluded-known, excluded-adopted,
}
use mesh_bug.Stages.Nodes.Merge.{update_row_assoc}

module _ (key : Bytes) (ts : Time) (adv : AdvertInfo) (st : NodeState) (t : 0 < ts)
    (a : 0 < adv.timestamp) (h : Heard key st) where
  excluded-observe :
      excluded (observe ts adv st) ≡ update_row (excluded (heard key ts adv)) (excluded st)
  unfolding sighted
  excluded-observe = elim (order adv.timestamp st.advert_ts) [
    | inl l ↦
        ap excluded (observe-older key ts adv st l)
        ∙ excluded-known key ts adv st st.advert_received_at t a h h.received_at (ground arith)
            (ground arith)
    | inr (inl e) ↦
        ap excluded (observe-same key ts adv st e h.received_at)
        ∙ excluded-known key ts adv st (min st.advert_received_at ts) t a h
            (ground (arith, h.received_at)) (ground arith) (ground arith)
    | inr (inr g) ↦
        ap excluded (observe-newer key ts adv st g)
        ∙ excluded-adopted key ts adv st t a h (ground arith)
  ]

  merge-observe :
      (row : Option NodesRow)
      → merge_row (observe ts adv st) row ≡ row_observe key ts adv (some (merge_row st row))
  unfolding row_observe merge_row heard adopt
  merge-observe none =
      excluded-observe
      ∙ ap (λ s. update_row (excluded s) (excluded st)) (sym (observe-heard key ts adv a))
  merge-observe (some n) =
      ap (λ x. update_row x n) excluded-observe
      ∙ update_row_assoc (excluded (heard key ts adv)) (excluded st) n adv.timestamp st.advert_ts ts
          st.advert_received_at (dated a) (dated h.dated) (dated t) (dated h.received_at)
      ∙ ap (λ s. update_row (excluded s) (update_row (excluded st) n))
          (sym (observe-heard key ts adv a))
    where
      dated : {n : ℕ} → 0 < n → (if n == 0 then none else some n) ≡ some n
      dated l = ground arith

unfoldable pub written_with : Option NodeState → Option NodesRow → Option NodesRow
written_with none row = row
written_with (some st) row = some (merge_row st row)

-- An entry and the change of the row that writing it makes.
pub record Stands (h : Bytes) (o : Option NodeState) (change : Option NodesRow → Option NodesRow)
    : Type 0 where
  pub rows : (row : Option NodesRow) → written_with o row ≡ change row
  pub held : (st : NodeState) → o ≡ some st → Heard h st

-- One advert written by itself, if it is one of `h`.
unfoldable pub row_found : Bytes → Time → Option AdvertInfo → Option NodesRow → Option NodesRow
row_found h ts none row = row
row_found h ts (some adv) row =
    ite (bytes_discrete adv.public_key h) (some (row_observe h ts adv row)) row

unfoldable pub FoundDated : Time → Option AdvertInfo → Type 0
FoundDated ts none = Unit
FoundDated ts (some adv) = (0 < ts) × (0 < adv.timestamp)

observe-Stands :
    (h : Bytes) (ts : Time) (adv : AdvertInfo) (o : Option NodeState)
    (change : Option NodesRow → Option NodesRow)
    → 0 < ts
    → 0 < adv.timestamp
    → Stands h o change
    → Stands h
        (some (observe ts adv (Option.get_or o (fresh ts h))))
        (λ row. some (row_observe h ts adv (change row)))
unfolding written_with row_observe
observe-Stands h ts adv none change t a s = record {
  rows = λ row. ap (λ r. some (row_observe h ts adv r)) (s.rows row);
  held = λ st e. subst (λ o. Heard h (Option.get_or o st)) e (observe-fresh-Heard h ts adv t a);
}
observe-Stands h ts adv (some st) change t a s = record {
  rows = λ row.
      ap some (merge-observe h ts adv st t a (s.held st refl) row)
      ∙ ap (λ r. some (row_observe h ts adv r)) (s.rows row);
  held = λ st' e.
      subst (λ o. Heard h (Option.get_or o st')) e (observe-Heard h ts adv st t a (s.held st refl));
}

full : (h k : Bytes) → h ≢ [] → k ≡ h → is_nil k ≡ false
full h [] ne e = absurd (ne (sym e))
full h (x ∷ xs) ne e = refl

pub apply_found-Stands :
    (h : Bytes)
    → h ≢ []
    → (ts : Time) (found : Option AdvertInfo) (s : State)
      (change : Option NodesRow → Option NodesRow)
    → FoundDated ts found
    → Stands h (lookup bytes_discrete h s) change
    → Stands h
        (lookup bytes_discrete h (apply_found ts found s))
        (λ row. row_found h ts found (change row))
unfolding apply_found row_found FoundDated apply_advert
apply_found-Stands h ne ts none s change d r = r
apply_found-Stands h ne ts (some adv) s change d r = elim (bytes_discrete adv.public_key h) [
  | yes e ↦ same e
  | no e ↦ other e (Bool-cases (is_nil adv.public_key))
]
  where
    key : Bytes
    key = adv.public_key

    same :
        key ≡ h
        → Stands h
            (lookup bytes_discrete h (apply_advert ts adv s))
            (λ row. row_found h ts (some adv) (change row))
    same e =
        subst (Stands h (lookup bytes_discrete h (apply_advert ts adv s)))
          (λ i row.
            sym
              (if_pos (bytes_discrete key h) e (some (row_observe h ts adv (change row)))
                (change row))
              i)
          (rw
            (
              full h key ne e,
              lookup-put bytes_discrete key h
                  (observe ts adv (Option.get_or (lookup bytes_discrete key s) (fresh ts key))) s,
              if_pos (bytes_discrete key h) e,
            )
            (subst
              (λ k.
                Stands h
                  (some (observe ts adv (Option.get_or (lookup bytes_discrete k s) (fresh ts k))))
                  (λ row. some (row_observe h ts adv (change row))))
              (sym e) (observe-Stands h ts adv (lookup bytes_discrete h s) change d.0 d.1 r)))

    unmoved :
        key ≢ h
        → Stands h (lookup bytes_discrete h (apply_advert ts adv s)) change
        → Stands h
            (lookup bytes_discrete h (apply_advert ts adv s))
            (λ row. row_found h ts (some adv) (change row))
    unmoved e = subst (Stands h (lookup bytes_discrete h (apply_advert ts adv s))) (λ i row.
        sym
          (if_neg (bytes_discrete key h) e (some (row_observe h ts adv (change row))) (change row))
          i)

    other :
        key ≢ h
        → (is_nil key ≡ true) ⊎ (is_nil key ≡ false)
        → Stands h
            (lookup bytes_discrete h (apply_advert ts adv s))
            (λ row. row_found h ts (some adv) (change row))
    other e (inl z) = unmoved e (rw z r)
    other e (inr z) = unmoved e (
        rw
          (
            z,
            lookup-put bytes_discrete key h
                (observe ts adv (Option.get_or (lookup bytes_discrete key s) (fresh ts key))) s,
            if_neg (bytes_discrete key h) e,
          )
          r)

pub apply_found-IsMap :
    (ts : Time) (found : Option AdvertInfo) (s : State)
    → IsMap bytes_discrete s
    → IsMap bytes_discrete (apply_found ts found s)
unfolding apply_found apply_advert
apply_found-IsMap ts none s m = m
apply_found-IsMap ts (some adv) s m = elim (Bool-cases (is_nil adv.public_key)) [
  | inl z ↦ rw z m
  | inr z ↦ rw z (put-IsMap bytes_discrete adv.public_key _ s m)
]

pub same_row :
    (F : Type 0) (o : Option NodeState) (row : Option NodesRow)
    → row_after bytes_discrete
        (nodes_table {F = F})
        (λ (st : NodeState). true)
        (λ st. st)
        merge_row
        o
        row
      ≡ written_with o row
unfolding written_with
same_row F none row = refl
same_row F (some st) row = refl
