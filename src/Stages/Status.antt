-- ===== src/Stages/Status.antt =====
-- The stage that owns `observer_status`: internal/project/stages/status.go.
pub mod Flush
use mathlib.Core.List.{lookup}
use mathlib.Core.Option
use mesh_bug.Prelude.{
  ℕ, none, some, List, [], ◌∷◌, ◌++◌, map, Bytes, text, bytes_discrete, ℕ_discrete,
}
use mesh_bug.Prelude.Maps.{put}
use mesh_bug.Prelude.Sets.{add}
use mesh_bug.Event.{FloatOps, Event, StatusPayload, packet, status, Time}
use mesh_bug.Store.{Db, StatusColumns, Tx, Result, ok, err, Exec, exec, Stage}
use mesh_bug.Notify.{Message, hex_encode}

-- `statusRow`: the key, and the other columns
pub record StatusRow (F : Type 0) : Type 0 where
  pub observer_id : Bytes
  pub ts : Time
  pub columns : StatusColumns F

-- ObserverStatus
pub record State (F : Type 0) : Type 0 where
  pub buf : List (StatusRow F)
  pub touched : List Bytes

abbrev pub empty : {F : Type 0} → State F
empty = record { buf = []; touched = [] }

abbrev pub StatusKey : Type 0
StatusKey = Bytes × Time

unfoldable pub key_discrete : Discrete StatusKey
unfolding bytes_discrete ℕ_discrete
key_discrete = hlevel (bytes_discrete, ℕ_discrete)

module _ {F : Type 0} where
  unfoldable pub status_row : Event F → StatusPayload F → StatusRow F
  status_row e p = record {
    observer_id = e.observer_id;
    ts = e.ts;
    columns = record {
      status = p.status;
      uptime_secs = p.uptime_secs;
      battery_mv = p.battery_mv;
      queue_len = p.queue_len;
      noise_floor = p.noise_floor;
      tx_air_secs = p.tx_air_secs;
      rx_air_secs = p.rx_air_secs;
      recv_errors = p.recv_errors;
      last_rssi = p.last_rssi;
      last_snr = p.last_snr;
      debug_flags = p.debug_flags;
    };
  }

  unfoldable pub apply : Event F → State F → State F
  unfolding status_row
  apply e s = elim e.payload [
    | packet _ ↦ s
    | status p ↦ record {
      buf = s.buf ++ status_row e p ∷ [];
      touched = add bytes_discrete e.observer_id s.touched;
    }
  ]

module _ {F : Type 0} ⦃fl : FloatOps F⦄ where
  -- The columns that a row gets: last_snr is numeric(6,2).
  abbrev pub columns_of : StatusColumns F → StatusColumns F
  columns_of c = record c { last_snr = Option.map fl.to_numeric c.last_snr }

  -- INSERT … ON CONFLICT (observer_id, ts) DO NOTHING
  unfoldable pub insert_new : StatusRow F → Db F → Db F
  insert_new r d = elim (lookup key_discrete (r.observer_id, r.ts) d.observer_status) [
    | some _ ↦ d
    | none ↦ record d {
      observer_status =
          put key_discrete (r.observer_id, r.ts) (columns_of r.columns) d.observer_status;
    }
  ]

  unfoldable pub insert_rows : List (StatusRow F) → Tx (Db F) → Result (Unit {0}) × Tx (Db F)
  unfolding insert_new exec
  insert_rows [] t = (ok tt, t)
  insert_rows (r ∷ rs) t =
      let (done, _, t') = exec (insert_new r) tt t in
      elim done [ err ↦ (err, t') | ok _ ↦ insert_rows rs t' ]

  unfoldable pub flush : Exec (State F) (Db F) (Unit {0})
  unfolding insert_rows
  flush s t = let (done, t') = insert_rows s.buf t in (done, s, t')

module _ {F : Type 0} where
  unfoldable pub notify : State F → List Message × State F
  notify s = (map (λ k. Message.status (hex_encode k)) s.touched, s)

  unfoldable pub evict : ℕ → State F → State F
  evict hwm s = empty

module _ {F : Type 0} ⦃fl : FloatOps F⦄ where
  unfoldable pub stage : Stage (Event F) (State F) (Db F) Message
  unfolding apply flush notify evict
  stage = record {
    name = text "observer_status";
    apply = λ e s. (ok tt, apply e s);
    flush = flush;
    notify = notify;
    evict = evict;
    clear = λ s. empty;
  }
