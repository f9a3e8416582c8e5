-- ===== src/Pipeline/Upsert/Keys.antt =====
-- The upsert keeps the key of satellite_passes, and repeating it changes nothing.
use text.Mathlib.TextEquality.{eq_iff}
use sda_system.Prelude.{
  ◌≡◌, refl, sym, ap, ◌∙◌, true, false, ◌||◌, List, [], ◌∷◌, ◌++◌, if◌then◌else◌, inl, inr,
  Bool-cases, arith, append_assoc, append-nil,
}
use sda_system.Models.{SatellitePass}
use sda_system.Pipeline.Upsert.{same_pass, has_pass, bulk_upsert_passes}

has_pass-append :
    (p : SatellitePass) (xs ys : List SatellitePass)
    → has_pass p (xs ++ ys) ≡ (has_pass p xs || has_pass p ys)
unfolding has_pass
has_pass-append p [] ys = refl
has_pass-append p (x ∷ xs) ys = ground (arith, has_pass-append p xs ys)

same_pass_refl : (p : SatellitePass) → same_pass p p ≡ true
same_pass_refl p = ground (arith, eq_iff p.station_id p.station_id)

same_pass_sym : (p q : SatellitePass) → same_pass p q ≡ same_pass q p
same_pass_sym p q =
    ground (arith, eq_iff p.station_id q.station_id, eq_iff q.station_id p.station_id)

-- No two rows have the same key.
unfoldable pub IsKeyed : List SatellitePass → Type 0
IsKeyed [] = Unit {0}
IsKeyed (p ∷ ps) = (has_pass p ps ≡ false) × IsKeyed ps

IsKeyed-append :
    (t : List SatellitePass) (p : SatellitePass)
    → IsKeyed t
    → has_pass p t ≡ false
    → IsKeyed (t ++ p ∷ [])
unfolding IsKeyed has_pass
IsKeyed-append [] p k h = (refl, tt)
IsKeyed-append (q ∷ t) p k h = (
  has_pass-append q t (p ∷ []) ∙ ground (arith, k.0, h, same_pass_sym p q),
  IsKeyed-append t p k.1 (ground (arith, h)),
)

-- All rows are in the table, by their keys.
unfoldable pub HasAll : (table rows : List SatellitePass) → Type 0
HasAll table [] = Unit {0}
HasAll table (p ∷ ps) = (has_pass p table ≡ true) × HasAll table ps

-- One row: the table grows at its end by the row, or not at all.
abbrev added : List SatellitePass → SatellitePass → List SatellitePass
added table p = if has_pass p table then [] else p ∷ []

insert_row :
    (table : List SatellitePass) (p : SatellitePass)
    → (if has_pass p table then table else table ++ p ∷ []) ≡ table ++ added table p
insert_row table p = elim (Bool-cases (has_pass p table)) [
  | inl e ↦ rw e (sym (append-nil table))
  | inr e ↦ rw e refl
]

upsert-grows :
    (table rows : List SatellitePass)
    → (more : List SatellitePass) × (bulk_upsert_passes table rows ≡ table ++ more)
unfolding bulk_upsert_passes
upsert-grows table [] = ([], sym (append-nil table))
upsert-grows table (p ∷ ps) =
    let (more, e) = upsert-grows (if has_pass p table then table else table ++ p ∷ []) ps in
    (
      added table p ++ more,
      e ∙ ap (λ t. t ++ more) (insert_row table p) ∙ append_assoc table (added table p) more,
    )

upsert-IsKeyed :
    (table rows : List SatellitePass) → IsKeyed table → IsKeyed (bulk_upsert_passes table rows)
unfolding bulk_upsert_passes
upsert-IsKeyed table [] k = k
upsert-IsKeyed table (p ∷ ps) k = elim (Bool-cases (has_pass p table)) [
  | inl e ↦ rw e (upsert-IsKeyed table ps k)
  | inr e ↦ rw e (upsert-IsKeyed (table ++ p ∷ []) ps (IsKeyed-append table p k e))
]

upsert-has_pass :
    (table rows : List SatellitePass) (p : SatellitePass)
    → has_pass p table ≡ true
    → has_pass p (bulk_upsert_passes table rows) ≡ true
upsert-has_pass table rows p h =
    let (more, e) = upsert-grows table rows in
    ap (has_pass p) e ∙ has_pass-append p table more ∙ ground (arith, h)

upsert-HasAll : (table rows : List SatellitePass) → HasAll (bulk_upsert_passes table rows) rows
unfolding bulk_upsert_passes HasAll
upsert-HasAll table [] = tt
upsert-HasAll table (p ∷ ps) = (
  upsert-has_pass (if has_pass p table then table else table ++ p ∷ []) ps p inserted,
  upsert-HasAll (if has_pass p table then table else table ++ p ∷ []) ps,
)
  where
    inserted : has_pass p (if has_pass p table then table else table ++ p ∷ []) ≡ true
    inserted = elim (Bool-cases (has_pass p table)) [
      | inl e ↦ rw e e
      | inr e ↦
          rw e (
            has_pass-append p table (p ∷ [])
            ∙ (unfold has_pass in ground (arith, same_pass_refl p)))
    ]

HasAll-upsert :
    (table rows : List SatellitePass) → HasAll table rows → bulk_upsert_passes table rows ≡ table
unfolding bulk_upsert_passes HasAll
HasAll-upsert table [] h = refl
HasAll-upsert table (p ∷ ps) h = rw h.0 (HasAll-upsert table ps h.1)

-- An upsert keeps the rows of the table in their places and adds others after them; afterwards every
-- row given has a row of its key, no two rows have the same key if no two had before, and the same
-- upsert again changes nothing.
pub bulk_upsert_passes-IsKeyed :
    (table rows : List SatellitePass)
    → let after = bulk_upsert_passes table rows in
      ((more : List SatellitePass) × (after ≡ table ++ more))
      × HasAll after rows
      × (IsKeyed table → IsKeyed after)
      × (bulk_upsert_passes after rows ≡ after)
bulk_upsert_passes-IsKeyed table rows = (
  upsert-grows table rows,
  upsert-HasAll table rows,
  upsert-IsKeyed table rows,
  HasAll-upsert (bulk_upsert_passes table rows) rows (upsert-HasAll table rows),
)
