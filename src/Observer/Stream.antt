-- ===== src/Observer/Stream.antt =====
-- crates/sqlx-sqlite-observer/src/stream.rs and config.rs, with `ObservableSqliteDatabase::new` and
-- `subscribe_stream` of conn_mgr.rs: what a subscriber reads. The receiver of the broadcast channel
-- is the list of what it has to give; it is closed when the broker is gone.
pub mod Next
mod Tests
use tauri_plugin_sqlite.Prelude.{
  ℕ, Bool, true, false, List, [], ◌∷◌, Option, none, some, Text, text_eq, any, is_empty,
  if◌then◌else◌,
}
use tauri_plugin_sqlite.Observer.Broker.{
  TableChange, ObservationBroker, new_broker, observe_tables, add_table,
}

pub record ObserverConfig : Type 0 where
  pub tables : List Text
  pub channel_capacity : ℕ
  pub capture_values : Bool

abbrev pub default_config : ObserverConfig
default_config = record { tables = []; channel_capacity = 256; capture_values = true }

-- `collect()` into a `HashSet`
unfoldable pub collect : List Text → List Text
unfolding add_table
collect [] = []
collect (table ∷ tables) = add_table table (collect tables)

abbrev pub with_tables : List Text → ObserverConfig → ObserverConfig
with_tables tables c = record c { tables = collect tables }

abbrev pub with_channel_capacity : ℕ → ObserverConfig → ObserverConfig
with_channel_capacity capacity c = record c { channel_capacity = capacity }

abbrev pub with_capture_values : Bool → ObserverConfig → ObserverConfig
with_capture_values capture c = record c { capture_values = capture }

-- `ObservableSqliteDatabase::new`: its broker; `none` is the panic on a capacity of zero.
unfoldable pub new_observable : ObserverConfig → Option ObservationBroker
unfolding new_broker observe_tables
new_observable config = elim (new_broker config.channel_capacity config.capture_values) [
  | none ↦ none
  | some b ↦ some (if is_empty config.tables then b else observe_tables b config.tables)
]

pub data TableChangeEvent : Type 0 where
  change : TableChange → TableChangeEvent
  lagged : ℕ → TableChangeEvent

-- The filter of a `TableChangeStream`.
abbrev pub TableChangeStream : Type 0
TableChangeStream = Option (List Text)

-- `subscribe_stream`: the tables are observed, and are the stream's filter if there are any.
unfoldable pub subscribe_stream :
    ObservationBroker → List Text → ObservationBroker × TableChangeStream
subscribe_stream b tables =
    if is_empty tables then (b, none) else (observe_tables b tables, some tables)

pub data Poll : Type 0 where
  ready : Option TableChangeEvent → Poll
  waiting : Poll

abbrev pub passes : TableChangeStream → TableChange → Bool
passes none c = true
passes (some tables) c = any (text_eq c.table) tables

-- `poll_next`, with what the receiver then still has. The receiver's items are those of the stream:
-- a change, or how many were missed.
unfoldable pub poll_next :
    TableChangeStream → Bool → List TableChangeEvent → Poll × List TableChangeEvent
poll_next stream closed [] = (if closed then ready none else waiting, [])
poll_next stream closed (change c ∷ items) =
    let continued = poll_next stream closed items in
    if passes stream c then (ready (some (change c)), items) else continued
poll_next stream closed (lagged count ∷ items) = (ready (some (lagged count)), items)
