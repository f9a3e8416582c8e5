-- ===== src/Passes/Coverage/Counts.antt =====
-- What the counts of the coverage are.
use text.Mathlib.Text.{◌==◌ as str_eq}
use mathlib.Core.Path.{subst}
use mathlib.Core.List.{
  Nodup, Nodup-cons, Nodup-nil, perm_ext_iff_of_Nodup, mem-map, mem-map_of_mem, Mem-prop,
}
use mathlib.Core.List.Nodup
use mathlib.Core.Logic.{∥∥₁_elim}
use sda_system.Prelude.{
  ℕ, ◌+◌, ◌≡◌, ◌↔◌, refl, sym, ap, ◌∙◌, inl, inr, Bool, true, not, List, [], ◌∷◌, String, map,
  select, length, elem, Mem, Bool-cases, elem→Mem, Mem→elem, length-perm, sum_by, select-mem,
  select-keep, select-sublist, arith,
}
use sda_system.Models.{SatellitePass}
use sda_system.Passes.Coverage.{
  distinct, satellites, add_row, group_rows, is_scheduled, StationUtilization, Percents,
  station_row, name_of, get_coverage,
}

elem-distinct : (x : ℕ) (xs : List ℕ) → elem x (distinct xs) ≡ elem x xs
unfolding distinct elem
elem-distinct x [] = refl
elem-distinct x (y ∷ ys) = elim (Bool-cases (elem y ys)) [
  | inl k ↦ rw k (ground (arith, elem-distinct x ys, k))
  | inr k ↦ rw k (ground (arith, elem-distinct x ys))
]

distinct-Nodup : (xs : List ℕ) → Nodup (distinct xs)
unfolding distinct
distinct-Nodup [] = Nodup-nil
distinct-Nodup (x ∷ xs) = elim (Bool-cases (elem x xs)) [
  | inl k ↦ rw k (distinct-Nodup xs)
  | inr k ↦ rw k (
      Nodup-cons.1
        (λ m. absurd (cc (Mem→elem x (distinct xs) m, elem-distinct x xs, k)), distinct-Nodup xs))
]

partition {ℓ} :
    {A : Type ℓ} (test : A → Bool) (l : List A)
    → length l ≡ length (select test l) + length (select (λ x. not (test x)) l)
unfolding select
partition test [] = refl
partition test (x ∷ xs) = elim (Bool-cases (test x)) [
  | inl k ↦ rw k (omega (arith, partition test xs))
  | inr k ↦ rw k (omega (arith, partition test xs))
]

mem-distinct : (x : ℕ) (xs : List ℕ) → Mem x (distinct xs) ↔ Mem x xs
mem-distinct x xs = (
  λ m. elem→Mem x xs (sym (elem-distinct x xs) ∙ Mem→elem x (distinct xs) m),
  λ m. elem→Mem x (distinct xs) (elem-distinct x xs ∙ Mem→elem x xs m),
)

-- Of two lists of which one has the other's members, the distinct members of the smaller are those
-- of the larger that it has.
distinct-part :
    (all part : List ℕ)
    → ((x : ℕ) → Mem x part → Mem x all)
    → length (distinct part) ≡ length (select (λ x. elem x part) (distinct all))
distinct-part all part within = length-perm (
    (perm_ext_iff_of_Nodup (distinct-Nodup part) kept).1 λ x. (
      λ m.
          let p = (mem-distinct x part).0 m in
          select-keep (λ y. elem y part) (distinct all) x ((mem-distinct x all).1 (within x p))
            (Mem→elem x part p),
      λ m.
          let (_, e) = select-mem (λ y. elem y part) (distinct all) x m in
          (mem-distinct x part).1 (elem→Mem x part e),
    ))
  where
    kept : Nodup (select (λ y. elem y part) (distinct all))
    kept = Nodup.sublist (select-sublist _ _) (distinct-Nodup all)

module _ {ℓ κ} {A : Type ℓ} {K : Type κ} (same : K → K → Bool) (key : A → K) (test : A → Bool) where
  abbrev kept_in : K × List A → ℕ
  kept_in (k, xs) = length (select test xs)

  kept_in-add_row :
      (x : A) (groups : List (K × List A))
      → sum_by kept_in (add_row same key x groups)
        ≡ length (select test (x ∷ [])) + sum_by kept_in groups
  unfolding add_row select
  kept_in-add_row x [] = refl
  kept_in-add_row x ((k, xs) ∷ groups) = elim (Bool-cases (same k (key x))) [
    | inl e ↦ rw e (ground arith)
    | inr e ↦ rw e (omega (arith, kept_in-add_row x groups))
  ]

  -- However the rows are grouped, each is counted once.
  kept_in-group_rows :
      (xs : List A) → sum_by kept_in (group_rows same key xs) ≡ length (select test xs)
  unfolding group_rows select
  kept_in-group_rows [] = refl
  kept_in-group_rows (x ∷ xs) =
      kept_in-add_row x (group_rows same key xs)
      ∙ (let rest = kept_in-group_rows xs in ground arith)

all_rows {ℓ} : {A : Type ℓ} (l : List A) → select (λ x. true) l ≡ l
unfolding select
all_rows [] = refl
all_rows (x ∷ xs) = ap (◌∷◌ x) (all_rows xs)

module _ {F : Type 0} (pct : Percents F) (name : String → String) where
  sum_by-station_row :
      (g : StationUtilization F → ℕ) (f : String × List SatellitePass → ℕ)
      → ((row : String × List SatellitePass) → g (station_row F pct name row) ≡ f row)
      → (rows : List (String × List SatellitePass))
      → sum_by g (map (station_row F pct name) rows) ≡ sum_by f rows
  sum_by-station_row g f same [] = refl
  sum_by-station_row g f same (row ∷ rows) =
      omega (arith, same row, sum_by-station_row g f same rows)

-- The unscheduled satellites that are counted are those of the visible satellites of which no pass
-- is scheduled, and with the scheduled ones they are all. Over the stations, the passes add up to
-- the rows of the table, and the scheduled passes to its scheduled rows.
pub get_coverage-counts :
    (F : Type 0) (pct : Percents F) (fallback : String → String) (names : List (String × String))
    (db : List SatellitePass)
    → let c = get_coverage F pct fallback names db in
      let norad_id : SatellitePass → ℕ = λ p. p.norad_id in
      (c.unscheduled_count
        ≡ length (
            select
              (λ n. not (elem n (map norad_id (select is_scheduled db))))
              (distinct (map norad_id db))))
      × (c.total_scheduled + c.unscheduled_count ≡ c.total_visible_satellites)
      × (sum_by (λ (s : StationUtilization F). s.total_passes_visible) c.station_utilization
          ≡ length db)
      × (sum_by (λ (s : StationUtilization F). s.scheduled_passes) c.station_utilization
          ≡ length (select is_scheduled db))
unfolding get_coverage station_row
get_coverage-counts F pct fallback names db = (
  omega (arith, parts, whole),
  omega (arith, parts, whole),
  sum_by-station_row pct (name_of F fallback names) (λ s. s.total_passes_visible)
        (kept_in str_eq (λ p. p.station_id) (λ p. true)) (λ row. sym (ap length (all_rows row.1)))
        (group_rows str_eq (λ p. p.station_id) db)
      ∙ kept_in-group_rows str_eq (λ p. p.station_id) (λ p. true) db
      ∙ ap length (all_rows db),
  sum_by-station_row pct (name_of F fallback names) (λ s. s.scheduled_passes)
        (kept_in str_eq (λ p. p.station_id) is_scheduled) (λ row. refl)
        (group_rows str_eq (λ p. p.station_id) db)
      ∙ kept_in-group_rows str_eq (λ p. p.station_id) is_scheduled db,
)
  where
    norad_id : SatellitePass → ℕ
    norad_id p = p.norad_id

    within : (x : ℕ) → Mem x (map norad_id (select is_scheduled db)) → Mem x (map norad_id db)
    within x m = ∥∥₁_elim (mem-map.0 m) Mem-prop λ (p, k, e).
        subst (λ y. Mem y (map norad_id db)) e
          (mem-map_of_mem norad_id (select-mem is_scheduled db p k).0)

    whole :
        satellites (select is_scheduled db)
        ≡ length (
            select
              (λ n. elem n (map norad_id (select is_scheduled db)))
              (distinct (map norad_id db)))
    whole = distinct-part (map norad_id db) (map norad_id (select is_scheduled db)) within

    parts :
        satellites db
        ≡ length (
            select
              (λ n. elem n (map norad_id (select is_scheduled db)))
              (distinct (map norad_id db)))
          + length (
              select
                (λ n. not (elem n (map norad_id (select is_scheduled db))))
                (distinct (map norad_id db)))
    parts =
        partition (λ n. elem n (map norad_id (select is_scheduled db))) (distinct (map norad_id db))
