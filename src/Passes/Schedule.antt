-- ===== src/Passes/Schedule.antt =====
-- GET /api/schedule.
use text.Mathlib.Text.{◌==◌ as str_eq}
use text.Mathlib.TextEquality.{eq_iff}
use mathlib.Core.List.Perm
use sda_system.Prelude.{
  ℕ, ◌+◌, ◌*◌, ◌/◌, ◌≤◌, ◌<◌, ◌≡◌, ◌↔◌, refl, Bool, true, ◌&&◌, List, String, leb, map, select,
  length, Mem, Perm, select-mem, select-keep, arith,
}
use sda_system.Models.{SatellitePass}
use sda_system.Passes.{PassResponse, to_response, day}

pub record ScheduleResponse : Type 0 where
  pub station_id : String
  pub date : ℕ
  pub scheduled_passes : ℕ
  pub passes : List PassResponse

-- The filters of the query; a date is the number of its day.
unfoldable pub is_on_date : String → ℕ → SatellitePass → Bool
is_on_date station_id date p =
    str_eq p.station_id station_id
    && p.is_scheduled
    && leb (date * day) p.rise_time
    && leb p.set_time (date * day + day)

unfoldable pub get_schedule :
    (order : List SatellitePass → List SatellitePass)
    → List SatellitePass
    → String
    → ℕ
    → ScheduleResponse
get_schedule order db station_id date =
    let passes = order (select (is_on_date station_id date) db) in
    record {
      station_id = station_id;
      date = date;
      scheduled_passes = length passes;
      passes = map to_response passes;
    }

-- The response for a list of rows.
abbrev pub schedule_of : String → ℕ → List SatellitePass → ScheduleResponse
schedule_of station_id date rows = record {
  station_id = station_id;
  date = date;
  scheduled_passes = length rows;
  passes = map to_response rows;
}

on_date :
    (station_id : String) (date : ℕ) (p : SatellitePass)
    → p.rise_time < p.set_time
    → (is_on_date station_id date p ≡ true) ↔ (
        (p.station_id ≡ station_id)
        × (p.is_scheduled ≡ true)
        × (p.rise_time / day ≡ date)
        × (p.set_time ≤ (p.rise_time / day) * day + day))
unfolding is_on_date
on_date station_id date p h = (
  λ e. ground (arith, eq_iff p.station_id station_id, e),
  λ e. ground (arith, eq_iff p.station_id station_id, e),
)

-- The schedule of a date holds each row of the station that is scheduled, rises on that date and
-- sets by its end, and no other row; the count is that of the rows. A pass that sets on the day
-- after its rise is in the schedule of no date.
pub get_schedule-rows :
    (order : List SatellitePass → List SatellitePass)
    → ((l : List SatellitePass) → Perm (order l) l)
    → (db : List SatellitePass) (station_id : String) (date : ℕ)
    → (rows : List SatellitePass) × (get_schedule order db station_id date
        ≡ schedule_of station_id date rows)
      × ((p : SatellitePass)
          → p.rise_time < p.set_time
          → Mem p rows ↔ (
              Mem p db
              × (p.station_id ≡ station_id)
              × (p.is_scheduled ≡ true)
              × (p.rise_time / day ≡ date)
              × (p.set_time ≤ (p.rise_time / day) * day + day)))
unfolding get_schedule
get_schedule-rows order laws db station_id date = (
  order (select (is_on_date station_id date) db),
  refl,
  λ p h. (
    λ m.
        let (row, kept) =
          select-mem (is_on_date station_id date) db p ((Perm.mem_iff (laws _)).0 m) in
        let (a, b, c, d) = (on_date station_id date p h).0 kept in (row, a, b, c, d),
    λ (row, a, b, c, d). (Perm.mem_iff (laws _)).1 (
        select-keep (is_on_date station_id date) db p row
          ((on_date station_id date p h).1 (a, b, c, d))),
  ),
)
