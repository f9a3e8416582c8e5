-- ===== src/Scheduling/Slots/Free.antt =====
-- get_free_slots returns exactly the instants of the window that no scheduled pass occupies.
use mathlib.Core.List.{mem-map}
use mathlib.Core.List.Perm
use mathlib.Core.Logic.{∥∥₁_elim}
use mathlib.Core.Path.{subst}
use sda_system.Prelude.Sorting.{sorted, sorted-perm, by_key}
use mathlib.Core.HLevel.{×_prop}
use sda_system.Prelude.{
  ℕ, ◌≤◌, ◌<◌, ◌≡◌, ◌∙◌, ap, true, false, not, ◌&&◌, List, [], ◌∷◌, map, max, ltb, leb, arith,
  select, select-mem, String, le_prop,
}
use sda_system.Models.{SatellitePass}
use sda_system.Scheduling.Intervals.{Interval, window, covers, covers_before, covers-perm, Laid}
use sda_system.Scheduling.Selection.{AllMeetChecks}
use sda_system.Scheduling.Slots.{gaps, get_free_slots, is_occupied}
use sda_system.Scheduling.Slots.Merge.{
  Separated, IsMerged, ProperBy, merge_intervals-covers, merge_intervals-IsMerged,
}

Separated-Laid : (end from : ℕ) (l : List Interval) → Separated end from l → Laid from l
Separated-Laid end from [] h = tt
Separated-Laid end from (iv ∷ ivs) h = (omega arith, h.1, Separated-Laid end iv.stop ivs h.3)

gaps_head :
    (end cursor t : ℕ) (iv : Interval) (ivs : List Interval)
    → iv.start < iv.stop
    → iv.stop ≤ end
    → covers (gaps end (max cursor iv.stop) ivs) t
      ≡ ((leb (max cursor iv.stop) t && ltb t end) && not (covers ivs t))
    → (t < iv.stop → covers ivs t ≡ false)
    → covers (gaps end cursor (iv ∷ ivs)) t
      ≡ ((leb cursor t && ltb t end) && not (covers (iv ∷ ivs) t))
unfolding gaps covers
gaps_head end cursor t iv ivs p q ih late = ground arith

gaps-covers :
    (end cursor from t : ℕ) (l : List Interval)
    → Separated end from l
    → covers (gaps end cursor l) t ≡ ((leb cursor t && ltb t end) && not (covers l t))
unfolding gaps covers
gaps-covers end cursor from t [] h = ground arith
gaps-covers end cursor from t (iv ∷ ivs) h =
    gaps_head end cursor t iv ivs h.1 h.2 (gaps-covers end (max cursor iv.stop) iv.stop t ivs h.3)
      (covers_before iv.stop t ivs (Separated-Laid end iv.stop ivs h.3))

-- The free instants before the first window is known to be merged, and after.
merged_gaps-covers :
    (end cursor t : ℕ) (l : List Interval)
    → IsMerged end l
    → covers (gaps end cursor l) t ≡ ((leb cursor t && ltb t end) && not (covers l t))
merged_gaps-covers end cursor t [] h = gaps-covers end cursor 0 t [] tt
merged_gaps-covers end cursor t (iv ∷ ivs) h =
    gaps_head end cursor t iv ivs h.0 h.1 (gaps-covers end (max cursor iv.stop) iv.stop t ivs h.2)
      (covers_before iv.stop t ivs (Separated-Laid end iv.stop ivs h.2))

occupied_end :
    (station_id : String) (start_time end_time : ℕ) (p : SatellitePass)
    → is_occupied station_id start_time end_time p ≡ true
    → p.set_time ≤ end_time
unfolding is_occupied
occupied_end station_id start_time end_time p h = ground arith

module _ (db : List SatellitePass) (station_id : String) (start_time end_time : ℕ) where
  -- The windows of the scheduled passes that the query finds.
  abbrev pub occupied : List Interval
  occupied = map window (select (is_occupied station_id start_time end_time) db)

  abbrev by_rise_order : List SatellitePass
  by_rise_order =
      sorted (by_key (λ (p : SatellitePass). p.rise_time))
        (select (is_occupied station_id start_time end_time) db)

  occupied-ProperBy : AllMeetChecks db → ProperBy end_time (map window by_rise_order)
  occupied-ProperBy checks iv m = ∥∥₁_elim (mem-map.0 m) (×_prop le_prop le_prop) λ (p, k, e).
      let n = (Perm.mem_iff (sorted-perm _ _)).0 k in
      let (row, passed) = select-mem _ db p n in
      subst (λ jv. (jv.start < jv.stop) × (jv.stop ≤ end_time)) e
        ((checks p row).time_order, occupied_end station_id start_time end_time p passed)

-- On a table of well-formed passes the free slots cover an instant exactly when it lies in
-- [start_time, end_time) and in no window of a scheduled pass of the station within those bounds.
pub get_free_slots-covers :
    (db : List SatellitePass) (station_id : String) (start_time end_time t : ℕ)
    → AllMeetChecks db
    → covers (get_free_slots db station_id start_time end_time) t ≡ (
        (leb start_time t && ltb t end_time)
        && not (covers (occupied db station_id start_time end_time) t))
unfolding get_free_slots
get_free_slots-covers db station_id start_time end_time t checks =
    let proper = occupied-ProperBy db station_id start_time end_time checks in
    let windows = map window (by_rise_order db station_id start_time end_time) in
    merged_gaps-covers end_time start_time t _ (merge_intervals-IsMerged end_time windows proper)
    ∙ ap (λ b. (leb start_time t && ltb t end_time) && not b)
        (merge_intervals-covers windows t ∙ covers-perm t (Perm.map window (sorted-perm _ _)))
