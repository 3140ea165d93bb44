-- ===== src/Ota/Statistics.antt =====
-- `OtaStatistics` of ota_manager.rs: counters and the tables of counts per sender, with their limits on
-- rows. The generation of a native table, which changes when a user clears the table, is an argument;
-- what is written to native counters and tables is returned.
pub mod Limits
use emane.Base.{
  ℕ, ◌+◌, Bool, true, false, not, ◌&&◌, ◌↔◌, ◌≡◌, Option, none, some, List, [], ◌∷◌, length,
  get_elem?, set, leb, ◌==◌, is_some, unwrap_or, if◌then◌else◌, arith,
}
use emane.Base.Bytes.{Bytes, bytes_eq, bytes_eq_iff}
use emane.Base.Dict
use emane.Base.Dict.{Eq, Dict}
use emane.Ota.Types.{saturating_add}

-- `PacketStatisticKey`, whose id is the source, and `EventStatisticKey`, whose id is the event id.
pub record StatisticKey : Type 0 where
  pub uuid : Bytes
  pub id : ℕ

abbrev pub statistic_key_eq : StatisticKey → StatisticKey → Bool
statistic_key_eq a b = bytes_eq a.uuid b.uuid && (a.id == b.id)

pub statistic_key_eq_iff : (a b : StatisticKey) → (statistic_key_eq a b ≡ true) ↔ (a ≡ b)
statistic_key_eq_iff a b = ground (arith, bytes_eq_iff a.uuid b.uuid)

instance abbrev pub statistic_key_Eq : Eq StatisticKey
statistic_key_Eq = record { eqb = statistic_key_eq; eqb_iff = statistic_key_eq_iff }

-- The counts of a row are a list of three, or of two for events.
abbrev pub Rows : Type 0
Rows = Dict StatisticKey (List ℕ)

pub record OtaStatistics : Type 0 where
  pub packet_row_limit : ℕ
  pub event_row_limit : ℕ
  pub packet_generation : ℕ
  pub event_generation : ℕ
  pub packet_rows : Rows
  pub event_rows : Rows

pub data Written : Type 0 where
  counter : (column : ℕ) → Written
  table_row : StatisticKey → List ℕ → Written

unfoldable pub configure_statistics : OtaStatistics → ℕ → ℕ → OtaStatistics
configure_statistics s packet_row_limit event_row_limit = record s {
  packet_row_limit = packet_row_limit;
  event_row_limit = event_row_limit;
}

abbrev pub increment : List ℕ → ℕ → List ℕ
increment counts column =
    set counts column (saturating_add (unwrap_or (get_elem? counts column) 0) 1)

-- The row of a key, counted up, and what is written: a new key gets no row beyond the limit.
unfoldable pub count_row : ℕ → List ℕ → StatisticKey → ℕ → Rows → Rows × List Written
count_row limit zeros key column rows =
    if not (is_some (Dict.lookup key rows)) && leb limit (length rows)
    then (rows, [])
    else (let counts = increment (unwrap_or (Dict.lookup key rows) zeros) column in
        (Dict.insert key counts rows, table_row key counts ∷ []))

-- The rows after a check whether the native table has been cleared.
unfoldable pub current_rows : ℕ → ℕ → Rows → Rows
current_rows generation known rows = if generation == known then rows else []

unfoldable pub packet : OtaStatistics → Option ℕ → StatisticKey → ℕ → OtaStatistics × List Written
unfolding count_row current_rows
packet s table_generation key column =
    let generation = unwrap_or table_generation s.packet_generation in
    let (rows, written) =
      count_row s.packet_row_limit (0 ∷ 0 ∷ 0 ∷ []) key column
        (current_rows generation s.packet_generation s.packet_rows) in
    (record s { packet_generation = generation; packet_rows = rows }, counter column ∷ written)

unfoldable pub event : OtaStatistics → Option ℕ → StatisticKey → Bool → OtaStatistics × List Written
unfolding count_row current_rows
event s table_generation key receive =
    let column = if receive then 1 else 0 in
    let generation = unwrap_or table_generation s.event_generation in
    let (rows, written) =
      count_row s.event_row_limit (0 ∷ 0 ∷ []) key column
        (current_rows generation s.event_generation s.event_rows) in
    (record s { event_generation = generation; event_rows = rows }, counter column ∷ written)
