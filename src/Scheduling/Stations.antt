-- ===== src/Scheduling/Stations.antt =====
-- What the two station-by-station schedulers share (scheduling/greedy.py and
-- scheduling/interval_tree.py, schedule_all_stations): the query for the candidates of one station,
-- the run so far, and the marks on the rows. The sets are lists of which only membership is read.
-- The session does not flush on its own, so that a query sees the table as of the last commit.
pub mod Rounds
pub mod Marks
pub mod Lemmas
pub mod Greedy
use text.Mathlib.Text.{◌==◌ as str_eq}
use sda_system.Prelude.{
  ℕ, Bool, true, false, not, ◌&&◌, some, List, [], ◌∷◌, ◌++◌, map, String, leb, elem, select,
}
use sda_system.Prelude.Sorting.{sorted}
use sda_system.Models.{Stage, SatellitePass, GroundStation}

-- The filters of the query, the last of which is left out while the set is empty.
unfoldable pub is_candidate : String → ℕ → ℕ → List ℕ → SatellitePass → Bool
is_candidate station_id start_time end_time globally_scheduled p =
    str_eq p.station_id station_id
    && leb start_time p.rise_time
    && leb p.set_time end_time
    && not p.is_scheduled
    && not (elem p.norad_id globally_scheduled)

unfoldable pub candidates : List SatellitePass → String → ℕ → ℕ → List ℕ → List SatellitePass
unfolding is_candidate
candidates db station_id start_time end_time globally_scheduled =
    select (is_candidate station_id start_time end_time globally_scheduled) db

-- `.filter(is_active == True).order_by(station_id)`, in the collation of the database.
unfoldable pub active_stations : (String → String → Bool) → List GroundStation → List GroundStation
active_stations collate stations =
    sorted (λ (a b : GroundStation). collate a.station_id b.station_id)
      (select (λ s. s.is_active) stations)

-- `all_scheduled` and `globally_scheduled`, and the table as the next query sees it.
pub record Run : Type 0 where
  pub scheduled : List SatellitePass
  pub satellites : List ℕ
  pub table : List SatellitePass

abbrev pub start_run : List SatellitePass → Run
start_run db = record { scheduled = []; satellites = []; table = db }

-- What a round writes to the table of what it selected.
abbrev pub Writes : Type 0
Writes = List SatellitePass → List SatellitePass → List SatellitePass

-- Both collections take up what one station selected.
abbrev pub extend : Writes → Run → List SatellitePass → Run
extend writes run selected = record {
  scheduled = run.scheduled ++ selected;
  satellites = run.satellites ++ map (λ (p : SatellitePass). p.norad_id) selected;
  table = writes selected run.table;
}

-- `p.is_scheduled = True; p.scheduled_by = …`
abbrev pub mark : Stage → SatellitePass → SatellitePass
mark stage p = record p { is_scheduled = true; scheduled_by = some stage }

-- What the commit writes of one row.
abbrev pub commit_row : Stage → SatellitePass → Bool → SatellitePass
commit_row stage row true = mark stage row
commit_row stage row false = row

-- The commit: the rows of the marked objects, which their primary keys name.
unfoldable pub commit : Stage → List SatellitePass → List SatellitePass → List SatellitePass
commit stage selected [] = []
commit stage selected (row ∷ rows) =
    commit_row stage row (elem row.id (map (λ (p : SatellitePass). p.id) selected))
    ∷ commit stage selected rows

-- What a run returns, and the table that it leaves.
pub record Outcome : Type 0 where
  pub all_scheduled : List SatellitePass
  pub globally_scheduled : List ℕ
  pub table : List SatellitePass

-- Committed round by round.
abbrev pub committed : Stage → Run → Outcome
committed stage run = record {
  all_scheduled = map (mark stage) run.scheduled;
  globally_scheduled = run.satellites;
  table = run.table;
}

-- Committed at the end.
abbrev pub finish : Stage → Run → Outcome
finish stage run = committed stage (record run { table = commit stage run.scheduled run.table })
