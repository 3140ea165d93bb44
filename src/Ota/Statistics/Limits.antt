-- ===== src/Ota/Statistics/Limits.antt =====
-- The limits on the rows of the OTA tables, and what their rows count.
use emane.Base.{
  ℕ, ◌+◌, ◌≤◌, ◌≡◌, Bool, Option, some, List, [], ◌∷◌, length, is_some, if◌then◌else◌, arith,
  unwrap_or, get_elem?, set, ◌<◌,
}
use emane.Base.Dict
use emane.Base.Dict.{Dict, Eq, lookup-insert}
use emane.Ota.Statistics.{
  StatisticKey, statistic_key_eq, statistic_key_Eq, Rows, OtaStatistics, increment, count_row,
  current_rows, packet, event, counter, table_row,
}

length-insert :
    (key : StatisticKey) (v : List ℕ) (rows : Rows)
    → length (Dict.insert key v rows)
      ≡ (if is_some (Dict.lookup key rows) then length rows else length rows + 1)
unfolding Dict.insert Dict.lookup
length-insert key v [] = ground arith
length-insert key v ((k, w) ∷ rows) = ground (arith, length-insert key v rows)

count_row-length :
    (limit : ℕ) (zeros : List ℕ) (key : StatisticKey) (column : ℕ) (rows : Rows)
    → length rows ≤ limit
    → length (count_row limit zeros key column rows).0 ≤ limit
unfolding count_row
count_row-length limit zeros key column rows h =
    ground
      (arith, length-insert key (increment (unwrap_or (Dict.lookup key rows) zeros) column) rows)

current_rows-length :
    (generation known limit : ℕ) (rows : Rows)
    → length rows ≤ limit
    → length (current_rows generation known rows) ≤ limit
unfolding current_rows
current_rows-length generation known limit rows h = ground arith

pub record IsLimited (s : OtaStatistics) : Type 0 where
  pub packets : length s.packet_rows ≤ s.packet_row_limit
  pub events : length s.event_rows ≤ s.event_row_limit

-- Neither a packet nor an event, with the native table cleared or not, takes a table past its limit.
pub packet-IsLimited :
    (s : OtaStatistics) (generation : Option ℕ) (key : StatisticKey) (column : ℕ) (receive : Bool)
    → IsLimited s
    → IsLimited (packet s generation key column).0 × IsLimited (event s generation key receive).0
unfolding packet event
packet-IsLimited s generation key column receive h = (
  record {
    packets =
        count_row-length s.packet_row_limit _ key column _
          (current_rows-length _ s.packet_generation s.packet_row_limit s.packet_rows h.packets);
    events = h.events;
  },
  record {
    packets = h.packets;
    events =
        count_row-length s.event_row_limit _ key _ _
          (current_rows-length _ s.event_generation s.event_row_limit s.event_rows h.events);
  },
)

-- Of a sender that has a row with a column at `n`, below the largest `u64`: while the generation of the
-- native table, if it can be read, is the one that is known, a packet makes that column `n + 1`, keeps the
-- other columns of the row, writes this row to the native table, and leaves every other row.
pub packet_lem :
    (s : OtaStatistics) (generation : Option ℕ) (key : StatisticKey) (column n : ℕ)
    (counts : List ℕ)
    → unwrap_or generation s.packet_generation ≡ s.packet_generation
    → Dict.lookup key s.packet_rows ≡ some counts
    → get_elem? counts column ≡ some n
    → n < 18446744073709551615
    → ((packet s generation key column).1
        ≡ counter column ∷ table_row key (set counts column (n + 1)) ∷ [])
      × ((k : StatisticKey)
          → Dict.lookup k (packet s generation key column).0.packet_rows ≡ (
              if statistic_key_eq key k
              then some (set counts column (n + 1))
              else Dict.lookup k s.packet_rows))
unfolding packet count_row current_rows
packet_lem s generation key column n counts same found at_n u =
    let up : increment counts column ≡ set counts column (n + 1) = ground (arith, at_n, u) in
    (
      ground (arith, same, found, up),
      (λ k.
          ground (
            arith,
            same,
            found,
            up,
            lookup-insert key k (set counts column (n + 1)) s.packet_rows,
          )),
    )
