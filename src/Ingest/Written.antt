-- ===== src/Ingest/Written.antt =====
-- What the ingester writes.
use mathlib.Core.List.{append_assoc, append-nil, map-append}
use mesh_bug.Prelude.{
  ℕ, suc, ◌≡◌, refl, sym, ap, ◌∙◌, leb, Bool, true, false, List, [], ◌∷◌, ◌++◌, map, length,
  if◌then◌else◌,
}
use mesh_bug.RawLog.{RawEventInput, RawEvent, RawLog, insert_raw_events, numbered}
use mesh_bug.Ingest.{
  Write, written, unsent, uncopied, unnumbered, MqttMessage, Input, message, tick, closed, Ingester,
  input_of, flushed, flush, step, finish, run, ingest_batch,
}

-- The messages that arrive.
abbrev pub received : List Input → List MqttMessage
received [] = []
received (message m w ∷ is) = m ∷ received is
received (tick w ∷ is) = received is

-- Every flush succeeds.
abbrev pub Accepting : List Input → Type 0
Accepting [] = Unit
Accepting (message m w ∷ is) = (w ≡ written) × Accepting is
Accepting (tick w ∷ is) = (w ≡ written) × Accepting is

-- A row without its identifier.
abbrev pub as_input : RawEvent → RawEventInput
as_input r = record {
  broker = r.broker;
  topic = r.topic;
  payload = r.payload;
  received_at = r.received_at;
}

-- What is in the log and what waits, in the order of arrival.
abbrev pub held : Ingester → List RawEventInput
held s = map as_input s.log.rows ++ map input_of s.batch

as_input-numbered : (n : ℕ) (ms : List RawEventInput) → map as_input (numbered n ms) ≡ ms
as_input-numbered n [] = refl
as_input-numbered n (m ∷ ms) = ap (m ∷◌) (as_input-numbered (suc n) ms)

inserted :
    (ms : List RawEventInput) (l : RawLog)
    → map as_input (insert_raw_events ms l).rows ≡ map as_input l.rows ++ ms
unfolding insert_raw_events
inserted ms l =
    map-append as_input l.rows (numbered l.next ms)
    ∙ ap (map as_input l.rows ++◌) (as_input-numbered l.next ms)

held-flush : (s : Ingester) → held (flush written s) ≡ held s
unfolding flush
held-flush s = by_batch s.batch refl
  where
    by_batch : (b : List MqttMessage) → s.batch ≡ b → held (flushed written b s) ≡ held s
    by_batch [] e = refl
    by_batch (m ∷ ms) e =
        append-nil _
        ∙ inserted (map input_of (m ∷ ms)) s.log
        ∙ ap (λ b. map as_input s.log.rows ++ map input_of b) (sym e)

pub batch-flush : (w : Write) (s : Ingester) → (flush w s).batch ≡ []
unfolding flush
batch-flush w s = by_batch w s.batch refl
  where
    by_batch : (w : Write) (b : List MqttMessage) → s.batch ≡ b → (flushed w b s).batch ≡ []
    by_batch w [] e = e
    by_batch written (m ∷ ms) e = refl
    by_batch unsent (m ∷ ms) e = refl
    by_batch uncopied (m ∷ ms) e = refl
    by_batch unnumbered (m ∷ ms) e = refl

held-message :
    (m : MqttMessage) (s : Ingester)
    → held (record s { batch = s.batch ++ m ∷ [] }) ≡ held s ++ input_of m ∷ []
held-message m s =
    ap (map as_input s.log.rows ++◌) (map-append input_of s.batch (m ∷ []))
    ∙ sym (append_assoc (map as_input s.log.rows) (map input_of s.batch) (input_of m ∷ []))

held-step :
    (i : Input) (s : Ingester)
    → Accepting (i ∷ [])
    → held (step i s) ≡ held s ++ map input_of (received (i ∷ []))
unfolding step
held-step (tick w) s a = ap (λ r. held (flush r s)) a.0 ∙ held-flush s ∙ sym (append-nil (held s))
held-step (message m w) s a =
    either (leb ingest_batch (length (s.batch ++ m ∷ []))) ∙ held-message m s
  where
    either :
        (b : Bool)
        → held (
            if b
            then flush w (record s { batch = s.batch ++ m ∷ [] })
            else record s { batch = s.batch ++ m ∷ [] })
          ≡ held (record s { batch = s.batch ++ m ∷ [] })
    either true =
        ap (λ r. held (flush r (record s { batch = s.batch ++ m ∷ [] }))) a.0
        ∙ held-flush (record s { batch = s.batch ++ m ∷ [] })
    either false = refl

Accepting-head :
    (i : Input) (is : List Input) → Accepting (i ∷ is) → Accepting (i ∷ []) × Accepting is
Accepting-head (message m w) is a = ((a.0, tt), a.1)
Accepting-head (tick w) is a = ((a.0, tt), a.1)

received-cons : (i : Input) (is : List Input) → received (i ∷ is) ≡ received (i ∷ []) ++ received is
received-cons (message m w) is = refl
received-cons (tick w) is = refl

rows-empty : (s : Ingester) → s.batch ≡ [] → map as_input s.log.rows ≡ held s
rows-empty s e =
    sym
      (ap (λ b. map as_input s.log.rows ++ map input_of b) e ∙ append-nil (map as_input s.log.rows))

-- When every flush succeeds and the channel is closed at the end, the log holds what it held and
-- then every waiting and every received message, each once and in the order of arrival.
pub run-received :
    (is : List Input) (s : Ingester)
    → Accepting is
    → map as_input (run is (closed written) s).log.rows ≡ held s ++ map input_of (received is)
unfolding run finish
run-received [] s a =
    rows-empty (flush written s) (batch-flush written s) ∙ held-flush s ∙ sym (append-nil (held s))
run-received (i ∷ is) s a =
    let (ai, ais) = Accepting-head i is a in
    run-received is (step i s) ais
    ∙ ap (λ h. h ++ map input_of (received is)) (held-step i s ai)
    ∙ append_assoc (held s) (map input_of (received (i ∷ []))) (map input_of (received is))
    ∙ ap (held s ++◌) (
        sym (map-append input_of (received (i ∷ [])) (received is))
        ∙ ap (map input_of) (sym (received-cons i is)))
