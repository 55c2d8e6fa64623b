-- ===== src/Stages/Observers.antt =====
-- The stage that owns `observers`: internal/project/stages/observers.go. `observerRow.id` holds
-- the bytes of the entry's key and is never written again, so it is read from the key.
pub mod Batch
use mathlib.Core.List.{lookup}
use mathlib.Core.Option
use mesh_bug.Prelude.{
  ℕ, refl, true, Option, none, some, [], Bytes, if◌then◌else◌, is_nil, text, min, max,
  bytes_discrete,
}
use mesh_bug.Prelude.Ints.{ℤ}
use mesh_bug.Prelude.Maps.{Map, put}
use mesh_bug.Event.{FloatOps, Event, Payload, StatusPayload, packet, status, Time, before, after}
use mesh_bug.Store.{Db, ObserversRow, ok, Exec, Stage, coalesce, nullif_empty}
use mesh_bug.Stages.Loop.{Table, write_dirty}

pub record ObserverState (F : Type 0) : Type 0 where
  pub origin_name : Bytes
  pub region : Bytes
  pub model : Bytes
  pub firmware_version : Bytes
  pub client_version : Bytes
  pub source : Bytes
  pub radio_freq_khz : Option ℤ
  pub radio_bw_khz : Option F
  pub radio_sf : Option ℤ
  pub radio_cr : Option ℤ
  pub first_seen : Time
  pub last_seen : Time

-- Observers.touched
abbrev pub State : Type 0 → Type 0
State F = Map Bytes (ObserverState F)

-- if new != "" { old = new }
abbrev pub override_text : Bytes → Bytes → Bytes
override_text new old = if is_nil new then old else new

-- if new != nil { old = new }
abbrev pub override {ℓ} : {A : Type ℓ} → Option A → Option A → Option A
override none old = old
override (some a) old = some a

module _ {F : Type 0} where
  unfoldable pub fresh : Event F → ObserverState F
  fresh e = record {
    origin_name = [];
    region = e.region;
    model = [];
    firmware_version = [];
    client_version = [];
    source = [];
    radio_freq_khz = none;
    radio_bw_khz = none;
    radio_sf = none;
    radio_cr = none;
    first_seen = e.ts;
    last_seen = e.ts;
  }

  unfoldable pub observe : Event F → StatusPayload F → ObserverState F → ObserverState F
  observe e p row = record {
    origin_name = override_text p.origin row.origin_name;
    region = override_text e.region row.region;
    model = override_text p.model row.model;
    firmware_version = override_text p.firmware_version row.firmware_version;
    client_version = override_text p.client_version row.client_version;
    source = override_text p.source row.source;
    radio_freq_khz = override p.radio_freq_khz row.radio_freq_khz;
    radio_bw_khz = override p.radio_bw_khz row.radio_bw_khz;
    radio_sf = override p.radio_sf row.radio_sf;
    radio_cr = override p.radio_cr row.radio_cr;
    first_seen = if before e.ts row.first_seen then e.ts else row.first_seen;
    last_seen = if after e.ts row.last_seen then e.ts else row.last_seen;
  }

  unfoldable pub apply_payload : Event F → Payload F → State F → State F
  unfolding fresh observe
  apply_payload e (packet _) s = s
  apply_payload e (status p) s =
      put bytes_discrete e.observer_id
        (observe e p (Option.get_or (lookup bytes_discrete e.observer_id s) (fresh e))) s

  unfoldable pub apply : Event F → State F → State F
  unfolding apply_payload
  apply e s = apply_payload e e.payload s

module _ {F : Type 0} ⦃fl : FloatOps F⦄ where
  -- the row after INSERT … ON CONFLICT (id) DO UPDATE
  unfoldable pub merge_row : ObserverState F → Option (ObserversRow F) → ObserversRow F
  merge_row st none = record {
    origin_name = st.origin_name;
    region = some st.region;
    model = some st.model;
    firmware_version = some st.firmware_version;
    client_version = some st.client_version;
    source = some st.source;
    radio_freq_khz = st.radio_freq_khz;
    radio_bw_khz = Option.map fl.to_bandwidth st.radio_bw_khz;
    radio_sf = st.radio_sf;
    radio_cr = st.radio_cr;
    first_seen = st.first_seen;
    last_seen = st.last_seen;
  }
  merge_row st (some r) = record {
    origin_name = override_text st.origin_name r.origin_name;
    region = coalesce (nullif_empty (some st.region)) r.region;
    model = coalesce (nullif_empty (some st.model)) r.model;
    firmware_version = coalesce (nullif_empty (some st.firmware_version)) r.firmware_version;
    client_version = coalesce (nullif_empty (some st.client_version)) r.client_version;
    source = coalesce (nullif_empty (some st.source)) r.source;
    radio_freq_khz = coalesce st.radio_freq_khz r.radio_freq_khz;
    radio_bw_khz = coalesce (Option.map fl.to_bandwidth st.radio_bw_khz) r.radio_bw_khz;
    radio_sf = coalesce st.radio_sf r.radio_sf;
    radio_cr = coalesce st.radio_cr r.radio_cr;
    first_seen = min r.first_seen st.first_seen;
    last_seen = max r.last_seen st.last_seen;
  }

module _ {F : Type 0} where
  unfoldable pub evict : ℕ → State F → State F
  evict hwm s = []

  abbrev pub observers_table : Table (Db F) Bytes (ObserversRow F)
  observers_table = record {
    read = λ d. d.observers;
    write = λ m d. record d { observers = m };
    read-write = λ m d. refl;
    write-write = λ m m' d. refl;
    write-read = λ d. refl;
  }

module _ {F : Type 0} ⦃fl : FloatOps F⦄ where
  -- Every touched row is written; an empty map writes nothing.
  unfoldable pub flush : Exec (State F) (Db F) (Unit {0})
  unfolding write_dirty merge_row
  flush s t = write_dirty bytes_discrete observers_table (λ st. true) (λ st. st) merge_row s t

  unfoldable pub stage : (N : Type 0) → Stage (Event F) (State F) (Db F) N
  unfolding apply flush evict
  stage N = record {
    name = text "observers";
    apply = λ e s. (ok tt, apply e s);
    flush = flush;
    notify = λ s. ([], s);
    evict = evict;
    clear = λ s. [];
  }
