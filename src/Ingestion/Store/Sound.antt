-- ===== src/Ingestion/Store/Sound.antt =====
-- A run of the ingestion keeps the two promises of the table, and its commits go through.
pub mod Insert
pub mod Run
use mathlib.Core.List.{
  Mem-prop, mem-cons, mem-cons_self, mem-append, mem-map, not-mem-nil, append-nil, append_assoc,
  Pairwise-append,
}
use mathlib.Core.List.Pairwise
use mathlib.Core.Logic.Or
use mathlib.Core.HLevel.{Π_prop, ¬_prop, ⊥_prop}
use mathlib.Core.Bool.{Bool-set, true≢false}
use mathlib.Core.Logic.{∥∥₁_elim, ∥∥₁_map, ∥∥₁_prop}
use mathlib.Core.Path.{subst}
use mathlib.Core.Option
use sda_system.Prelude.{
  ℕ, ◌+◌, ◌≡◌, ◌≢◌, refl, sym, ◌∙◌, ap, inl, inr, Bool, true, false, not, ◌&&◌, ◌||◌, Option, none,
  some, List, [], ◌∷◌, ◌++◌, map, Mem, Pairwise, arith, Bool-cases, elem, Mem→elem, elem→Mem,
  select, select-keep, if◌then◌else◌, ◌==◌, String,
}
use sda_system.Ingestion.Store.{
  Key, Tle, same_key, has_key, Validator, Triplet, Verdict, blank, invalid, accepted, verdict,
  triplets, Ingest, Counters, start_ingest, insert_rows, flush_batch, flushed, write_updates,
  retire, update_current, count_skipped, count_invalid, insert_new, without_current, consult,
  flush_if, on_verdict, ingest_loop, parse_and_store, new_row, find_current,
}
use sda_system.Ingestion.Store.Rows.{
  KeyApart, CurrentApart, CurrentApart-prop, From, reworked, reworked-apart, reworked-mem,
  insert_rows-some,
}

-- No two rows with one key, and no two current rows of one satellite.
pub record IsSound (table : List Tle) : Type 0 where
  pub keys_apart : Pairwise KeyApart table
  pub currents_apart : Pairwise CurrentApart table

-- The key is new to the run.
abbrev pub Unknown : Key → List Key → Type 0
Unknown k keys = has_key k keys ≡ false

-- What holds between the committed table, the pending rows and the sets of the loop.
pub record Agree (table inserts : List Tle) (current_ids : List ℕ) (all_epochs : List Key)
    (added retiring : List ℕ) : Type 0 where
  pub keys_apart : Pairwise KeyApart (table ++ inserts)
  pub currents_apart : Pairwise CurrentApart table
  pub inserts_apart : Pairwise (λ (t u : Tle). t.key.norad_id ≢ u.key.norad_id) inserts
  pub adds : (t : Tle) → Mem t inserts → elem t.key.norad_id added ≡ true
  pub superseded :
      (t u : Tle)
      → Mem t inserts
      → Mem u table
      → u.is_current ≡ true
      → u.key.norad_id ≡ t.key.norad_id
      → elem u.key.norad_id retiring ≡ true
  pub known :
      (u : Tle)
      → Mem u table
      → u.is_current ≡ true
      → (elem u.key.norad_id current_ids || elem u.key.norad_id added) ≡ true
  pub epochs :
      (u : Tle)
      → Mem u (table ++ inserts)
      → (k : Key) → Unknown k all_epochs
      → same_key u.key k ≡ false

abbrev pub Consistent : Ingest → Type 0
Consistent s =
    Agree s.table s.inserts s.current_norad_ids s.all_epochs s.added_this_run s.retire_this_batch

-- What a flush commits.
abbrev pub after : Ingest → List Tle
after s = reworked s.retire_this_batch s.updates s.table ++ s.inserts

module _ (s : Ingest) (c : Consistent s) where
  rework :
      Pairwise KeyApart (reworked s.retire_this_batch s.updates s.table)
      × Pairwise CurrentApart (reworked s.retire_this_batch s.updates s.table)
  rework =
      reworked-apart s.retire_this_batch s.updates s.table
        (((Pairwise-append (λ a b. Bool-set _ _)).0 c.keys_apart).0, c.currents_apart)

  after-keys_apart : Pairwise KeyApart (after s)
  after-keys_apart =
      let (old, new, across) = (Pairwise-append (λ a b. Bool-set _ _)).0 c.keys_apart in
      (Pairwise-append (λ a b. Bool-set _ _)).1 (
        rework.0,
        new,
        λ u m t n.
            ∥∥₁_elim (reworked-mem _ _ _ u m) (Bool-set _ _)
              λ (x, k, e, cur). ap (λ key. same_key key t.key) e ∙ across x k t n,
      )

  after-currents_apart : Pairwise CurrentApart (after s)
  after-currents_apart = (Pairwise-append CurrentApart-prop).1 (
    rework.1,
    Pairwise.imp (λ t u ne a b. ne) c.inserts_apart,
    λ u m t n a b same. ∥∥₁_elim (reworked-mem _ _ _ u m) ⊥_prop λ (x, k, e, cur).
        let (was, kept) = cur a in
        true≢false
          (sym (c.superseded t x n k was (ap (λ (y : Key). y.norad_id) (sym e) ∙ same)) ∙ kept),
  )

  pub flush_batch-some : flush_batch s ≡ some (flushed s (after s))
  unfolding flush_batch
  flush_batch-some = ap (Option.map (flushed s)) (insert_rows-some s.inserts _ after-keys_apart)

  after-epochs :
      (u : Tle) → Mem u (after s) → (k : Key) → Unknown k s.all_epochs → same_key u.key k ≡ false
  after-epochs u m k unknown =
      Or.elim (Bool-set _ _)
        ((mem-append {s = reworked s.retire_this_batch s.updates s.table} {t = s.inserts}).0 m)
        (λ n.
          ∥∥₁_elim (reworked-mem s.retire_this_batch s.updates s.table u n) (Bool-set _ _)
            λ (x, j, e, cur).
              ap (λ y. same_key y k) e
              ∙ c.epochs x ((mem-append {s = s.table} {t = s.inserts}).1 (Or.inl j)) k unknown)
        (λ n. c.epochs u ((mem-append {s = s.table} {t = s.inserts}).1 (Or.inr n)) k unknown)

  after-known :
      (u : Tle)
      → Mem u (after s)
      → u.is_current ≡ true
      → (elem u.key.norad_id s.current_norad_ids || elem u.key.norad_id s.added_this_run) ≡ true
  after-known u m h =
      Or.elim (Bool-set _ _)
        ((mem-append {s = reworked s.retire_this_batch s.updates s.table} {t = s.inserts}).0 m)
        (λ n.
          ∥∥₁_elim (reworked-mem s.retire_this_batch s.updates s.table u n) (Bool-set _ _)
            λ (x, j, e, cur).
              subst
                (λ (y : Key).
                  (elem y.norad_id s.current_norad_ids || elem y.norad_id s.added_this_run) ≡ true)
                (sym e) (c.known x j (cur h).0))
        (λ n. or_right _ _ (c.adds u n))
    where
      or_right : (a b : Bool) → b ≡ true → (a || b) ≡ true
      or_right a b e = ground arith

  pub flushed-Consistent : Consistent (flushed s (after s))
  flushed-Consistent = record {
    keys_apart = subst (Pairwise KeyApart) (sym (append-nil (after s))) after-keys_apart;
    currents_apart = after-currents_apart;
    inserts_apart = Pairwise.nil;
    adds = λ t m. absurd (not-mem-nil m);
    superseded = λ t u m. absurd (not-mem-nil m);
    known = after-known;
    epochs = λ u m. after-epochs u (subst (Mem u) (append-nil (after s)) m);
  }
