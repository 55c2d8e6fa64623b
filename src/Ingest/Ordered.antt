-- ===== src/Ingest/Ordered.antt =====
-- The identifiers of the log and the lengths of the batches, whatever fails.
use mesh_bug.Prelude.{
  ℕ, suc, ◌+◌, ◌<◌, ◌≤◌, ◌≡◌, sym, subst, leb, List, [], ◌∷◌, ◌++◌, map, length, if◌then◌else◌,
  arith, Bool-cases, inl, inr,
}
use mesh_bug.RawLog.{RawEventInput, RawEvent, RawLog, insert_raw_events, draw_ids, numbered, count}
use mesh_bug.Projector.{highest}
use mesh_bug.Projector.Pending.{Above, highest-append}
use mesh_bug.Ingest.Written.{batch-flush}
use mesh_bug.Ingest.{
  Write, written, unsent, uncopied, unnumbered, MqttMessage, Input, message, tick, Ending, closed,
  canceled, Ingester, input_of, flushed, flush, step, finish, run, ingest_batch,
}

abbrev pub AllFit : List ℕ → Type 0
AllFit [] = Unit
AllFit (n ∷ ns) = ((1 ≤ n) × (n ≤ 500)) × AllFit ns

-- Identifiers ascend from 1 and the next one is above them; the batch is not full;
-- every notification was of 1 to 500 messages.
pub record Ordered (s : Ingester) : Type 0 where
  pub ascending : Above 0 s.log.rows
  pub above : highest 0 s.log.rows < s.log.next
  pub waiting : length s.batch < 500
  pub counted : AllFit s.counts

-- The ingester when the inputs have arrived and before `Run` ends.
abbrev pub arrived : List Input → Ingester → Ingester
arrived [] s = s
arrived (i ∷ is) s = arrived is (step i s)

Above-join :
    (lo : ℕ) (xs ys : List RawEvent) → Above lo xs → Above (highest lo xs) ys → Above lo (xs ++ ys)
unfolding highest
Above-join lo [] ys a b = b
Above-join lo (x ∷ xs) ys a b = (a.0, Above-join x.id xs ys a.1 b)

numbered-Above : (lo n : ℕ) (ms : List RawEventInput) → lo < n → Above lo (numbered n ms)
numbered-Above lo n [] l = tt
numbered-Above lo n (m ∷ ms) l = (l, numbered-Above n (suc n) ms (omega arith))

highest-numbered :
    (lo n : ℕ) (ms : List RawEventInput) → lo < n → highest lo (numbered n ms) < n + count ms
unfolding highest
highest-numbered lo n [] l = omega (arith, l)
highest-numbered lo n (m ∷ ms) l = omega (arith, highest-numbered n (suc n) ms (omega arith))

insert-Above :
    (ms : List RawEventInput) (l : RawLog)
    → Above 0 l.rows
    → highest 0 l.rows < l.next
    → Above 0 (insert_raw_events ms l).rows
      × (highest 0 (insert_raw_events ms l).rows < (insert_raw_events ms l).next)
unfolding insert_raw_events
insert-Above ms l a b = (
  Above-join 0 l.rows (numbered l.next ms) a (numbered-Above (highest 0 l.rows) l.next ms b),
  subst (λ h. h < l.next + count ms) (sym (highest-append 0 l.rows (numbered l.next ms)))
      (highest-numbered (highest 0 l.rows) l.next ms b),
)

length-batch : (w : Write) (s : Ingester) → length (flush w s).batch < 500
length-batch w s = subst (λ b. length b < 500) (sym (batch-flush w s)) (omega arith)

-- The part of `Ordered` that a flush keeps, when at most 500 messages wait.
abbrev LogOk : Ingester → Type 0
LogOk s = Above 0 s.log.rows × (highest 0 s.log.rows < s.log.next) × AllFit s.counts

flush-LogOk : (w : Write) (s : Ingester) → length s.batch ≤ 500 → LogOk s → LogOk (flush w s)
unfolding flush draw_ids
flush-LogOk w s l o = by_batch w s.batch l
  where
    by_batch : (w : Write) (b : List MqttMessage) → length b ≤ 500 → LogOk (flushed w b s)
    by_batch w [] l = o
    by_batch unnumbered (m ∷ ms) l = o
    by_batch uncopied (m ∷ ms) l = (o.0, omega (arith, o.1), o.2)
    by_batch unsent (m ∷ ms) l =
        let k = insert-Above (map input_of (m ∷ ms)) s.log o.0 o.1 in (k.0, k.1, o.2)
    by_batch written (m ∷ ms) l =
        let k = insert-Above (map input_of (m ∷ ms)) s.log o.0 o.1 in
        (k.0, k.1, ((omega arith, l), o.2))

flush-Ordered : (w : Write) (s : Ingester) → length s.batch ≤ 500 → LogOk s → Ordered (flush w s)
flush-Ordered w s l o =
    let k = flush-LogOk w s l o in
    record { ascending = k.0; above = k.1; waiting = length-batch w s; counted = k.2 }

Ordered-LogOk : (s : Ingester) → Ordered s → LogOk s
Ordered-LogOk s o = (o.ascending, o.above, o.counted)

length-snoc : (b : List MqttMessage) (m : MqttMessage) → length (b ++ m ∷ []) ≡ length b + 1
length-snoc [] m = omega arith
length-snoc (x ∷ b) m = omega (arith, length-snoc b m)

step-Ordered : (i : Input) (s : Ingester) → Ordered s → Ordered (step i s)
unfolding step
step-Ordered (tick w) s o = flush-Ordered w s (omega (arith, o.waiting)) (Ordered-LogOk s o)
step-Ordered (message m w) s o = elim (Bool-cases (leb ingest_batch (length (s.batch ++ m ∷ [])))) [
  | inl f ↦
      subst (λ b. Ordered (if b then flush w next else next)) (sym f)
        (flush-Ordered w next (omega (arith, length-snoc s.batch m, o.waiting)) (Ordered-LogOk s o))
  | inr f ↦
      subst (λ b. Ordered (if b then flush w next else next)) (sym f)
        (record {
          ascending = o.ascending;
          above = o.above;
          waiting = ground (arith, f);
          counted = o.counted;
        })
]
  where
    next : Ingester
    next = record s { batch = s.batch ++ m ∷ [] }

finish-Ordered : (e : Ending) (s : Ingester) → Ordered s → Ordered (finish e s)
unfolding finish
finish-Ordered (closed w) s o = flush-Ordered w s (omega (arith, o.waiting)) (Ordered-LogOk s o)
finish-Ordered canceled s o =
    flush-Ordered unnumbered s (omega (arith, o.waiting)) (Ordered-LogOk s o)

batch-finish : (e : Ending) (s : Ingester) → (finish e s).batch ≡ []
unfolding finish
batch-finish (closed w) s = batch-flush w s
batch-finish canceled s = batch-flush unnumbered s

-- Whatever arrives, whatever fails and however `Run` ends: when the identifiers of the log ascend
-- from 1, the next one is above them, fewer than 500 messages wait and every notification was of 1
-- to 500 messages, so it is before the end and at the end, and nothing waits at the end.
pub run-Ordered :
    (is : List Input) (e : Ending) (s : Ingester)
    → Ordered s
    → Ordered (arrived is s) × Ordered (run is e s) × ((run is e s).batch ≡ [])
unfolding run
run-Ordered [] e s o = (o, finish-Ordered e s o, batch-finish e s)
run-Ordered (i ∷ is) e s o = run-Ordered is e (step i s) (step-Ordered i s o)
