-- ===== src/Ingestion/Store/Sound/Run.antt =====
-- The whole run: it returns, the table is sound again, and every triplet is counted once.
use mathlib.Core.List.{mem-cons, mem-map, not-mem-nil, append-nil}
use mathlib.Core.Logic.Or
use mathlib.Core.Bool.{Bool-set}
use mathlib.Core.Option
use mathlib.Core.Path.{subst}
use sda_system.Prelude.{
  ℕ, suc, ◌+◌, ◌≡◌, refl, sym, ◌∙◌, ap, Bool, true, false, ◌||◌, Option, none, some, List, [], ◌∷◌,
  map, Mem, Pairwise, arith, elem, Mem→elem, select-keep, String, length, length-append,
}
use sda_system.Ingestion.Store.{
  Key, Tle, same_key, has_key, Validator, Triplet, Verdict, blank, invalid, accepted, verdict,
  triplets, Ingest, Counters, start_ingest, flushed, update_current, without_current, consult,
  flush_if, on_verdict, ingest_loop, parse_and_store, new_row, find_current,
}
use sda_system.Ingestion.Store.Rows.{KeyApart, reworked, reworked-length}
use sda_system.Ingestion.Store.Sound.{
  IsSound, Consistent, after, after-keys_apart, after-currents_apart, flush_batch-some,
  flushed-Consistent,
}
use sda_system.Ingestion.Store.Sound.Insert.{insert_new-Consistent}

-- Every triplet so far is counted, and the rows are those of the start and the new ones.
abbrev pub total : Counters → ℕ
total c = c.new + c.updated + c.invalid + c.skipped + c.unused

abbrev Counted : ℕ → ℕ → Ingest → Type 0
Counted base seen s =
    (total s.counters ≡ seen) × (length s.table + length s.inserts ≡ base + s.counters.new)

-- Both at once.
abbrev Fine : ℕ → ℕ → Ingest → Type 0
Fine base seen s = Consistent s × Counted base seen s

module _ (base seen : ℕ) (s : Ingest) (h : Fine base seen s) (row : Tle) where
  update_current-Fine : (old : Tle) (b : Bool) → Fine base (suc seen) (update_current s old b)
  update_current-Fine old true = (h.0, (omega (arith, h.1.0), h.1.1))
  update_current-Fine old false = (h.0, (omega (arith, h.1.0), h.1.1))

  without_current-Fine :
      (b d : Bool)
      → has_key row.key s.all_epochs ≡ b
      → elem row.key.norad_id s.added_this_run ≡ d
      → Fine base (suc seen) (without_current s row b d)
  unfolding without_current
  without_current-Fine true d e f = (h.0, (omega (arith, h.1.0), h.1.1))
  without_current-Fine false true e f = (h.0, (omega (arith, h.1.0), h.1.1))
  without_current-Fine false false e f = (
    insert_new-Consistent s h.0 row e f,
    (omega (arith, h.1.0), omega (arith, h.1.1, length-append s.inserts (row ∷ []))),
  )

  consult-Fine : (o : Option Tle) → Fine base (suc seen) (consult s row o)
  unfolding consult
  consult-Fine (some old) = update_current-Fine row _
  consult-Fine none = without_current-Fine _ _ refl refl

flushed-Fine :
    (base seen : ℕ) (s : Ingest) → Fine base seen s → Fine base seen (flushed s (after s))
flushed-Fine base seen s h = (
  flushed-Consistent s h.0,
  (
    h.1.0,
    omega (
      arith,
      h.1.1,
      length-append (reworked s.retire_this_batch s.updates s.table) s.inserts,
      reworked-length s.retire_this_batch s.updates s.table,
    ),
  ),
)

-- A step returns a state as fine, with one more triplet seen.
abbrev Steps : ℕ → ℕ → Option Ingest → Type 0
Steps base seen o = (next : Ingest) × (o ≡ some next) × Fine base seen next

flush_if-Steps :
    (base seen : ℕ) (s : Ingest) → Fine base seen s → (b : Bool) → Steps base seen (flush_if s b)
unfolding flush_if
flush_if-Steps base seen s h true =
    (flushed s (after s), flush_batch-some s h.0, flushed-Fine base seen s h)
flush_if-Steps base seen s h false = (s, refl, h)

on_verdict-Steps :
    (base seen : ℕ) (s : Ingest)
    → Fine base seen s
    → (t : Triplet) (v : Verdict) → Steps base (suc seen) (on_verdict s t v)
unfolding on_verdict
on_verdict-Steps base seen s h t blank = (_, refl, (h.0, (omega (arith, h.1.0), h.1.1)))
on_verdict-Steps base seen s h t invalid = (_, refl, (h.0, (omega (arith, h.1.0), h.1.1)))
on_verdict-Steps base seen s h t (accepted key hash) =
    flush_if-Steps base (suc seen) _
      (consult-Fine base seen s h (new_row t key hash) (find_current key s.current_tles)) _

-- What a run leaves.
pub record IsIngested (table : List Tle) (seen : ℕ) (s : Ingest) : Type 0 where
  pub sound : IsSound s.table
  pub nothing_pending : s.inserts ≡ []
  pub counted : total s.counters ≡ seen
  pub grown : length s.table ≡ length table + s.counters.new

ingest_loop-IsIngested :
    (v : Validator) (table : List Tle) (ts : List Triplet) (seen : ℕ) (s : Ingest)
    → Fine (length table) seen s
    → (last : Ingest) × (ingest_loop v ts s ≡ some last) × IsIngested table (seen + length ts) last
unfolding ingest_loop Option.bind
ingest_loop-IsIngested v table [] seen s h =
    let (fine, counts) = flushed-Fine (length table) seen s h in
    (
      flushed s (after s),
      flush_batch-some s h.0,
      record {
        sound = record {
          keys_apart = after-keys_apart s h.0;
          currents_apart = after-currents_apart s h.0;
        };
        nothing_pending = refl;
        counted = omega (arith, counts.0);
        grown = omega (arith, counts.1);
      },
    )
ingest_loop-IsIngested v table (t ∷ ts) seen s h =
    let (next, e, fine) = on_verdict-Steps (length table) seen s h t (verdict v t) in
    let (last, found, done) = ingest_loop-IsIngested v table ts (suc seen) next fine in
    (
      last,
      ap (λ o. Option.bind o (ingest_loop v ts)) e ∙ found,
      subst (λ n. IsIngested table n last) (omega arith) done,
    )

start_epochs :
    (u : Tle) (table : List Tle)
    → Mem u table
    → (k : Key) → has_key k (map (λ (t : Tle). t.key) table) ≡ false
    → same_key u.key k ≡ false
unfolding has_key
start_epochs u [] m k h = absurd (not-mem-nil m)
start_epochs u (t ∷ ts) m k h =
    Or.elim (Bool-set _ _) (mem-cons.0 m) (λ e. ap (λ (y : Tle). same_key y.key k) e ∙ first _ _ h)
      (λ n. start_epochs u ts n k (second _ _ h))
  where
    first : (a b : Bool) → (a || b) ≡ false → a ≡ false
    first a b e = ground arith

    second : (a b : Bool) → (a || b) ≡ false → b ≡ false
    second a b e = ground arith

start-Fine : (table : List Tle) → IsSound table → Fine (length table) 0 (start_ingest table)
start-Fine table h = (
  record {
    keys_apart = subst (Pairwise KeyApart) (sym (append-nil table)) h.keys_apart;
    currents_apart = h.currents_apart;
    inserts_apart = Pairwise.nil;
    adds = λ t m. absurd (not-mem-nil m);
    superseded = λ t u m. absurd (not-mem-nil m);
    known = λ u m cur. or_left _ (elem u.key.norad_id []) (
        Mem→elem _ _ (
          (mem-map {f = λ (t : Tle). t.key.norad_id}).1
            ∣ (u, select-keep (λ (t : Tle). t.is_current) table u m cur, refl) ∣₁));
    epochs = λ u m. start_epochs u table (subst (Mem u) (append-nil table) m);
  },
  (refl, omega arith),
)
  where
    or_left : (a b : Bool) → a ≡ true → (a || b) ≡ true
    or_left a b e = ground arith

-- Whatever the validator accepts: from a table with distinct keys and at most one current row of
-- each satellite a run returns (no commit breaks the constraint), leaves such a table with nothing
-- pending, counts every triplet once, and adds as many rows as it counts new ones.
pub parse_and_store-IsIngested :
    (v : Validator) (table : List Tle) (lines : List String)
    → IsSound table
    → (last : Ingest) × (parse_and_store v table lines ≡ some last)
      × IsIngested table (length (triplets lines)) last
unfolding parse_and_store
parse_and_store-IsIngested v table lines h =
    let (last, found, done) =
      ingest_loop-IsIngested v table (triplets lines) 0 (start_ingest table) (start-Fine table h) in
    (last, found, subst (λ n. IsIngested table n last) (omega arith) done)
