-- ===== src/Ingestion/Seed/Keys.antt =====
-- Seeding keeps the key of ground_stations, and is idempotent.
use text.Mathlib.Text.{◌==◌ as str_eq}
use text.Mathlib.TextEquality.{eq_iff}
use mathlib.Core.HLevel.{¬_prop}
use mathlib.Core.Bool.{Bool-set, true≢false}
use mathlib.Core.List.{mem-cons, not-mem-nil, map-append, Pairwise-append}
use mathlib.Core.List.Pairwise
use mathlib.Core.Logic.Or
use mathlib.Core.Path.{subst}
use sda_system.Prelude.{
  ◌≡◌, ◌≢◌, refl, sym, ap, ◌∙◌, inl, inr, Bool, true, false, ◌||◌, List, [], ◌∷◌, ◌++◌, map, Mem,
  Pairwise, String, Bool-cases, arith, append-nil, forall-cons,
}
use sda_system.Models.{GroundStation}
use sda_system.Scheduling.Stations.Lemmas.{DistinctKeys}
use sda_system.Ingestion.Seed.{
  has_id, missing, new_station, station_ids, Seeded, commit_seed, init_ground_stations,
}

Mem→has_id : (sid : String) (ids : List String) → Mem sid ids → has_id sid ids ≡ true
unfolding has_id
Mem→has_id sid [] m = absurd (not-mem-nil m)
Mem→has_id sid (s ∷ ids) m =
    Or.elim (Bool-set _ _) (mem-cons.0 m)
      (λ e. let same : str_eq s sid ≡ true = (eq_iff s sid).1 (sym e) in ground arith)
      (λ n. ground (arith, Mem→has_id sid ids n))

has_id-append :
    (sid : String) (xs ys : List String) → has_id sid (xs ++ ys) ≡ (has_id sid xs || has_id sid ys)
unfolding has_id
has_id-append sid [] ys = refl
has_id-append sid (x ∷ xs) ys = ground (arith, has_id-append sid xs ys)

-- No two ids are the same.
abbrev Distinct : List String → Type 0
Distinct = Pairwise (λ (a b : String). a ≢ b)

-- Ids that are distinct and not known yet.
abbrev IsFresh : (known ids : List String) → Type 0
IsFresh known ids = Distinct ids × ((sid : String) → Mem sid ids → has_id sid known ≡ false)

missing-IsFresh : (known ids : List String) → IsFresh known (missing known ids)
unfolding missing has_id
missing-IsFresh known [] = (Pairwise.nil, λ sid m. absurd (not-mem-nil m))
missing-IsFresh known (s ∷ ids) = elim (Bool-cases (has_id s known)) [
  | inl e ↦ rw e (missing-IsFresh known ids)
  | inr e ↦
      let (distinct, unknown) = missing-IsFresh (s ∷ known) ids in
      rw e (
        Pairwise.cons
            (λ t m same. true≢false (sym ((eq_iff s t).1 same) ∙ ground (arith, unknown t m)))
            distinct,
        forall-cons (λ t. Bool-set _ _) e (λ t m. ground (arith, unknown t m)),
      )
]

-- Each id passes the test.
abbrev AllPass : (String → Bool) → List String → Type 0
AllPass test [] = Unit {0}
AllPass test (s ∷ ids) = (test s ≡ true) × AllPass test ids

missing-AllPass :
    (test : String → Bool) (known ids : List String)
    → ((sid : String) → has_id sid known ≡ true → test sid ≡ true)
    → ((sid : String) → has_id sid (missing known ids) ≡ true → test sid ≡ true)
    → AllPass test ids
unfolding missing has_id
missing-AllPass test known [] old new = tt
missing-AllPass test known (s ∷ ids) old new = elim (Bool-cases (has_id s known)) [
  | inl e ↦ (old s e, missing-AllPass test known ids old (rw e at new))
  | inr e ↦
      let new' = rw e at new in
      let head : test s ≡ true = new' s (ground (arith, (eq_iff s s).1 refl)) in
      (
        head,
        missing-AllPass test (s ∷ known) ids (λ t h. by_head t h head)
            (λ t h. new' t (ground (arith, h))),
      )
]
  where
    by_head : (t : String) → (str_eq s t || has_id t known) ≡ true → test s ≡ true → test t ≡ true
    by_head t h head = elim (Bool-cases (str_eq s t)) [
      | inl same ↦ subst (λ u. test u ≡ true) ((eq_iff s t).0 same) head
      | inr other ↦ old t (rw other at h)
    ]

missing-nil :
    (known ids : List String) → AllPass (λ sid. has_id sid known) ids → missing known ids ≡ []
unfolding missing
missing-nil known [] all = refl
missing-nil known (s ∷ ids) all = rw all.0 (missing-nil known ids all.1)

ids-new_station : (ids : List String) → station_ids (map new_station ids) ≡ ids
ids-new_station [] = refl
ids-new_station (s ∷ ids) = ap (◌∷◌ s) (ids-new_station ids)

abbrev grown : List GroundStation → List String → List GroundStation
grown table ids = table ++ map new_station ids

ids-grown :
    (table : List GroundStation) (ids : List String)
    → station_ids (grown table ids) ≡ station_ids table ++ ids
ids-grown table ids =
    map-append (λ (s : GroundStation). s.station_id) table (map new_station ids)
    ∙ ap (λ l. station_ids table ++ l) (ids-new_station ids)

commit_seed-grown :
    (table : List GroundStation) (ids : List String)
    → commit_seed true table ids ≡ record { table = grown table ids; raised = false }
unfolding commit_seed
commit_seed-grown table [] =
    ap (λ (t : List GroundStation). record { table = t; raised = false }) (sym (append-nil table))
commit_seed-grown table (s ∷ ids) = refl

grown-DistinctKeys :
    (table : List GroundStation) (ids : List String)
    → DistinctKeys table
    → IsFresh (station_ids table) ids
    → DistinctKeys (grown table ids)
grown-DistinctKeys table ids distinct (apart, unknown) =
    Pairwise.of_map' (λ (s : GroundStation). s.station_id)
      (subst Distinct (sym (ids-grown table ids)) (
        (Pairwise-append (λ a b. ¬_prop)).1 (
          Pairwise.map' (λ (s : GroundStation). s.station_id) (λ a b. ¬_prop) distinct,
          apart,
          λ a m b n same. true≢false (
              sym (Mem→has_id a (station_ids table) m)
              ∙ subst (λ c. has_id c (station_ids table) ≡ false) (sym same) (unknown b n)),
        )))

grown-AllPass :
    (table : List GroundStation) (configured : List String)
    → AllPass
        (λ sid. has_id sid (station_ids (grown table (missing (station_ids table) configured))))
        configured
grown-AllPass table configured =
    let known = station_ids table in
    let ids = missing known configured in
    missing-AllPass (λ sid. has_id sid (station_ids (grown table ids))) known configured
      (λ sid h. split sid ids ∙ ground (arith, h)) (λ sid h. split sid ids ∙ ground (arith, h))
  where
    split :
        (sid : String) (ids : List String)
        → has_id sid (station_ids (grown table ids))
          ≡ (has_id sid (station_ids table) || has_id sid ids)
    split sid ids =
        ap (has_id sid) (ids-grown table ids) ∙ has_id-append sid (station_ids table) ids

-- What a seeding that is committed leaves.
pub record IsSeeded (configured : List String) (table : List GroundStation) (after : Seeded)
    : Type 0 where
  pub kept : (added : List String) × (after.table ≡ table ++ map new_station added)
  pub keyed : DistinctKeys table → DistinctKeys after.table
  pub seeded : AllPass (λ sid. has_id sid (station_ids after.table)) configured
  pub again : init_ground_stations true configured after.table ≡ after

-- A seeding that is committed keeps the rows of the table in their places and adds active stations
-- after them, of ids that stay distinct if they were; every configured id then has a row, and
-- seeding again changes nothing. One whose commit fails leaves the table.
pub init_ground_stations-IsSeeded :
    (configured : List String) (table : List GroundStation)
    → IsSeeded configured table (init_ground_stations true configured table)
      × ((init_ground_stations false configured table).table ≡ table)
unfolding init_ground_stations
init_ground_stations-IsSeeded configured table =
    let ids = missing (station_ids table) configured in
    (
      subst (IsSeeded configured table) (sym (commit_seed-grown table ids)) record {
        kept = (ids, refl);
        keyed =
            λ d. grown-DistinctKeys table ids d (missing-IsFresh (station_ids table) configured);
        seeded = grown-AllPass table configured;
        again =
            ap (commit_seed true (grown table ids)) (
              missing-nil (station_ids (grown table ids)) configured
                (grown-AllPass table configured))
            ∙ unfold commit_seed in refl;
      },
      undone ids,
    )
  where
    undone : (ids : List String) → (commit_seed false table ids).table ≡ table
    undone [] = unfold commit_seed in refl
    undone (s ∷ ids) = unfold commit_seed in refl
