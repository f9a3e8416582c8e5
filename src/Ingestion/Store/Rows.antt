-- ===== src/Ingestion/Store/Rows.antt =====
-- What the writes of a flush do to the rows of the table.
use mathlib.Core.List.{mem-cons, mem-cons_self, mem-map, append-nil, append_assoc, Pairwise-append}
use mathlib.Core.List.Pairwise
use mathlib.Core.Logic.Or
use mathlib.Core.HLevel.{Π_prop, ¬_prop}
use mathlib.Core.Bool.{Bool-set}
use mathlib.Core.Logic.{∥∥₁_elim, ∥∥₁_map, ∥∥₁_prop}
use mathlib.Core.Path.{subst}
use sda_system.Prelude.{
  ℕ, ◌≡◌, ◌≢◌, refl, sym, ◌∙◌, ap, Bool, true, false, ◌||◌, none, some, List, [], ◌∷◌, ◌++◌, map,
  Mem, Pairwise, arith, elem, if◌then◌else◌, length, length-map,
}
use sda_system.Ingestion.Store.{
  Key, Tle, same_key, has_key, retire_row, retire, write_row, write_update, write_updates,
  insert_rows,
}

-- The constraint on (norad_id, epoch).
abbrev pub KeyApart : Tle → Tle → Type 0
KeyApart t u = same_key t.key u.key ≡ false

-- Two current rows are of two satellites.
abbrev pub CurrentApart : Tle → Tle → Type 0
CurrentApart t u = t.is_current ≡ true → u.is_current ≡ true → t.key.norad_id ≢ u.key.norad_id

pub CurrentApart-prop : (t u : Tle) → IsProp (CurrentApart t u)
CurrentApart-prop t u = Π_prop λ a. Π_prop λ b. ¬_prop

-- The row keeps its key, and is current only if it was.
abbrev pub Keeps : (Tle → Tle) → Type 0
Keeps f = (t : Tle) → ((f t).key ≡ t.key) × ((f t).is_current ≡ true → t.is_current ≡ true)

module _ (f : Tle → Tle) (keeps : Keeps f) where
  map-KeyApart : {l : List Tle} → Pairwise KeyApart l → Pairwise KeyApart (map f l)
  map-KeyApart p =
      Pairwise.map (λ t u. Bool-set _ _) f
        (λ t u h. ap (λ k. same_key k (f u).key) (keeps t).0 ∙ ap (same_key t.key) (keeps u).0 ∙ h)
        p

  map-CurrentApart : {l : List Tle} → Pairwise CurrentApart l → Pairwise CurrentApart (map f l)
  map-CurrentApart p =
      Pairwise.map CurrentApart-prop f
        (λ t u h a b e. h ((keeps t).1 a) ((keeps u).1 b) (
          ap (λ (k : Key). k.norad_id) (sym (keeps t).0)
          ∙ e
          ∙ ap (λ (k : Key). k.norad_id) (keeps u).0))
        p

write_row-Keeps : (u : Tle) → Keeps (λ t. write_row u t (same_key t.key u.key))
write_row-Keeps u t = written (same_key t.key u.key)
  where
    written :
        (b : Bool)
        → ((write_row u t b).key ≡ t.key)
          × ((write_row u t b).is_current ≡ true → t.is_current ≡ true)
    written true = (refl, λ h. h)
    written false = (refl, λ h. h)

retire_row-Keeps : (r : List ℕ) → Keeps (retire_row r)
retire_row-Keeps r t = (refl, λ h. ground arith)

-- The rows after the UPDATEs of a flush.
abbrev pub reworked : List ℕ → List Tle → List Tle → List Tle
reworked r us table = write_updates us (retire r table)

pub reworked-length :
    (r : List ℕ) (us table : List Tle) → length (reworked r us table) ≡ length table
unfolding write_updates
reworked-length r us table = written us (retire r table) ∙ length-map (retire_row r) table
  where
    written : (us l : List Tle) → length (write_updates us l) ≡ length l
    written [] l = refl
    written (u ∷ us) l =
        written us (write_update u l)
        ∙ length-map (λ (t : Tle). write_row u t (same_key t.key u.key)) l

write_updates-apart :
    (us l : List Tle)
    → Pairwise KeyApart l × Pairwise CurrentApart l
    → Pairwise KeyApart (write_updates us l) × Pairwise CurrentApart (write_updates us l)
unfolding write_updates
write_updates-apart [] l h = h
write_updates-apart (u ∷ us) l h =
    write_updates-apart us (write_update u l)
      (map-KeyApart _ (write_row-Keeps u) h.0, map-CurrentApart _ (write_row-Keeps u) h.1)

-- The UPDATEs keep both constraints.
pub reworked-apart :
    (r : List ℕ) (us table : List Tle)
    → Pairwise KeyApart table × Pairwise CurrentApart table
    → Pairwise KeyApart (reworked r us table) × Pairwise CurrentApart (reworked r us table)
reworked-apart r us table h =
    write_updates-apart us (retire r table)
      (map-KeyApart _ (retire_row-Keeps r) h.0, map-CurrentApart _ (retire_row-Keeps r) h.1)

-- Where a row comes from: if it is current, its row was, and its satellite is not retired.
abbrev pub From : List ℕ → List Tle → Tle → Type 0
From r table u = ∥ (
    (t : Tle) × Mem t table
    × (u.key ≡ t.key)
    × (u.is_current ≡ true → (t.is_current ≡ true) × (elem t.key.norad_id r ≡ false))) ∥₁

write_updates-mem :
    (us l : List Tle) (u : Tle)
    → Mem u (write_updates us l)
    → ∥ ((t : Tle) × Mem t l × (u.key ≡ t.key) × (u.is_current ≡ true → t.is_current ≡ true)) ∥₁
unfolding write_updates
write_updates-mem [] l u m = ∣ (u, m, refl, λ h. h) ∣₁
write_updates-mem (w ∷ us) l u m =
    ∥∥₁_elim (write_updates-mem us (write_update w l) u m) ∥∥₁_prop λ (t, n, e, c).
      ∥∥₁_map (mem-map.0 n) λ (x, k, same).
        let keeps = write_row-Keeps w x in
        (
          x,
          k,
          e ∙ ap (λ (y : Tle). y.key) (sym same) ∙ keeps.0,
          λ h. keeps.1 (ap (λ (y : Tle). y.is_current) same ∙ c h),
        )

pub reworked-mem :
    (r : List ℕ) (us table : List Tle) (u : Tle) → Mem u (reworked r us table) → From r table u
reworked-mem r us table u m =
    ∥∥₁_elim (write_updates-mem us (retire r table) u m) ∥∥₁_prop λ (t, n, e, c).
      ∥∥₁_map (mem-map.0 n) λ (x, k, same). (
        x,
        k,
        e ∙ ap (λ (y : Tle). y.key) (sym same),
        λ h. both x (ap (λ (y : Tle). y.is_current) same ∙ c h),
      )
  where
    both :
        (x : Tle)
        → (retire_row r x).is_current ≡ true
        → (x.is_current ≡ true) × (elem x.key.norad_id r ≡ false)
    both x h = (ground arith, ground arith)

nobody_has :
    (t : Tle) (l : List Tle)
    → ((a : Tle) → Mem a l → KeyApart a t)
    → has_key t.key (map (λ (r : Tle). r.key) l) ≡ false
unfolding has_key
nobody_has t [] h = refl
nobody_has t (x ∷ l) h =
    ap (λ b. b || has_key t.key (map (λ (r : Tle). r.key) l)) (h x mem-cons_self)
    ∙ nobody_has t l (λ a m. h a (mem-cons.1 (Or.inr m)))

-- On distinct keys every INSERT goes through.
pub insert_rows-some :
    (ts table : List Tle)
    → Pairwise KeyApart (table ++ ts)
    → insert_rows ts table ≡ some (table ++ ts)
unfolding insert_rows
insert_rows-some [] table p = ap some (sym (append-nil table))
insert_rows-some (t ∷ ts) table p =
    let free =
      nobody_has t table
        (λ a m. ((Pairwise-append (λ a b. Bool-set _ _)).0 p).2 a m t mem-cons_self) in
    ap (λ b. if b then none else insert_rows ts (table ++ t ∷ [])) free
    ∙ insert_rows-some ts (table ++ t ∷ [])
        (subst (Pairwise KeyApart) (sym (append_assoc table (t ∷ []) ts)) p)
    ∙ ap some (append_assoc table (t ∷ []) ts)
