-- ===== src/Tests/Feed.antt =====
-- Concrete inputs of the hub, the ingester and the listener.
use mathlib.Core.List.{lookup}
use mathlib.Core.Option
use mesh_bug.Prelude.{
  ℕ, ◌*◌, ◌^◌, ◌≡◌, refl, sym, ap, subst, ◌∙◌, true, false, none, some, List, [], ◌∷◌, ◌++◌, Bytes,
  map, min, bytes_discrete, ℕ_discrete, text, if◌then◌else◌, arith,
}
use mesh_bug.Prelude.Maps.{put, erase}
use mesh_bug.Prelude.Sets.{add, remove}
use mesh_bug.Event.{second}
use mesh_bug.Projector.{highest}
use mesh_bug.Hub
use mesh_bug.Hub.{
  HubEvent, offer, join, leave, close, send_all, send, subscribe, depart, unsubscribe, publish,
}
use mesh_bug.Hub.Safety
use mesh_bug.Hub.Safety.{Room, new_room, Command, Sound, wanted}
use mesh_bug.Hub.Safety.Kept.{run_new-Sound, publish-delivers}
use mesh_bug.Hub.RoundTrip.{unsubscribe-subscribe}
use mesh_bug.Ingest
use mesh_bug.Ingest.{
  Write, written, uncopied, MqttMessage, Input, message, tick, closed, canceled, Ingester, input_of,
}
use mesh_bug.Ingest.Written.{received, as_input, held, run-received}
use mesh_bug.Ingest.Ordered.{Ordered, arrived, run-Ordered}
use mesh_bug.Notify.Listen.{backoff, longest, backoff-min}

abbrev news : HubEvent ℕ
news = record { topic = text "overview"; payload = 7 }

-- The second handler's buffer is full after one event; the first leaves.
abbrev commands : List (Command ℕ)
commands =
    Command.subscribe 2 (text "overview" ∷ text "anomalies" ∷ [])
    ∷ Command.subscribe 1 (text "overview" ∷ [])
    ∷ Command.publish news
    ∷ Command.unsubscribe 1
    ∷ Command.publish news
    ∷ Command.close 1
    ∷ []

run_new-Sound_example : (r : Room ℕ) × (Safety.run commands new_room ≡ some r) × Sound r
run_new-Sound_example = run_new-Sound commands

abbrev listening : Room ℕ
listening = record {
  hub = record {
    next_id = 2;
    subs = (text "overview", 2 ∷ []) ∷ [];
    chans =
        (1, record { buffer = 2; queue = news ∷ []; closed = true })
        ∷ (2, record { buffer = 1; queue = news ∷ []; closed = false })
        ∷ [];
  };
  held = (2, text "overview" ∷ []) ∷ [];
  leaving = [];
}

room_after : Safety.run commands new_room ≡ some listening
unfolding Safety.run Safety.step subscribe depart close publish lookup put bytes_discrete add remove
    erase
room_after = refl

listening-Sound : Sound listening
listening-Sound =
    let (r, e, s) = run_new-Sound commands in
    subst Sound (ap (λ o. Option.get_or o listening) (sym e ∙ room_after)) s

publish-delivers_example :
    (h : Hub.Hub ℕ) × (publish news listening.hub ≡ some h)
    × (h.subs ≡ listening.hub.subs)
    × ((j : ℕ)
        → lookup ℕ_discrete j h.chans ≡ (
            if wanted (lookup ℕ_discrete j listening.held) news.topic
            then Option.map (offer news) (lookup ℕ_discrete j listening.hub.chans)
            else lookup ℕ_discrete j listening.hub.chans))
publish-delivers_example = publish-delivers listening listening-Sound news

unsubscribe-subscribe_example :
    let (h, id) =
      subscribe 8 (text "overview" ∷ text "live" ∷ text "overview" ∷ []) listening.hub in
    (lookup ℕ_discrete id listening.held ≡ none)
    × (h' : Hub.Hub ℕ) × (unsubscribe id (text "overview" ∷ text "live" ∷ text "overview" ∷ []) h
        ≡ some h')
    × ((t : Bytes) → lookup bytes_discrete t h'.subs ≡ lookup bytes_discrete t listening.hub.subs)
    × (c : Hub.Channel ℕ) × (lookup ℕ_discrete id h'.chans ≡ some c)
    × (c.closed ≡ true)
unsubscribe-subscribe_example =
    unsubscribe-subscribe listening listening-Sound 8
      (text "overview" ∷ text "live" ∷ text "overview" ∷ [])

abbrev said : Bytes → MqttMessage
said s = record { broker = text "b"; topic = text "t"; payload = s; received_at = 5 }

abbrev waiting : Ingester
waiting = record {
  batch = said (text "one") ∷ [];
  log = record { rows = []; next = 1 };
  counts = [];
}

abbrev inputs : List Input
inputs =
    message (said (text "two")) written ∷ tick written ∷ message (said (text "three")) written ∷ []

run-received_example :
    map as_input (Ingest.run inputs (closed written) waiting).log.rows
    ≡ held waiting ++ map input_of (received inputs)
run-received_example = run-received inputs waiting (refl, (refl, (refl, tt)))

waiting-Ordered : Ordered waiting
unfolding highest
waiting-Ordered = record {
  ascending = tt;
  above = omega arith;
  waiting = omega arith;
  counted = tt;
}

run-Ordered_example :
    Ordered (arrived (message (said (text "two")) written ∷ tick uncopied ∷ inputs) waiting)
    × Ordered
        (Ingest.run (message (said (text "two")) written ∷ tick uncopied ∷ inputs) canceled waiting)
    × ((Ingest.run
          (message (said (text "two")) written ∷ tick uncopied ∷ inputs)
          canceled
          waiting).batch
        ≡ [])
run-Ordered_example =
    run-Ordered (message (said (text "two")) written ∷ tick uncopied ∷ inputs) canceled waiting
      waiting-Ordered

-- The end of the context: the message that waits is in no row.
lost : (Ingest.run [] canceled waiting).log.rows ≡ []
unfolding Ingest.run
lost = refl

backoff-min_example : backoff 6 ≡ min (2 ^ 6 * second) longest
backoff-min_example = backoff-min 6
