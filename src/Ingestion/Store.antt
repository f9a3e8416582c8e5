-- ===== src/Ingestion/Store.antt =====
-- ingestion/fetcher.py, TLEFetcher._parse_and_store and _flush_batch, on the table `tles` of
-- db/models.py. The lines come split and stripped. The validator is a parameter here. The session
-- does not flush on its own: an UPDATE runs before the pending rows are inserted, and a commit that
-- would break the unique constraint on (norad_id, epoch) fails. The column fetched_at is left out.
pub mod Rows
pub mod Sound
use text.Mathlib.Text.{◌==◌ as str_eq}
use mathlib.Core.Option
use sda_system.Prelude.{
  ℕ, suc, ◌+◌, Bool, true, false, not, ◌&&◌, ◌||◌, Option, none, some, List, [], ◌∷◌, ◌++◌, map,
  String, ltb, leb, ◌==◌, elem, select, if◌then◌else◌,
}

pub record Key : Type 0 where
  pub norad_id : ℕ
  pub epoch : ℕ

-- A row of `tles`.
pub record Tle : Type 0 where
  pub key : Key
  pub name : String
  pub line1 : String
  pub line2 : String
  pub checksum : String
  pub is_current : Bool

abbrev pub same_key : Key → Key → Bool
same_key a b = a.norad_id == b.norad_id && a.epoch == b.epoch

unfoldable pub has_key : Key → List Key → Bool
has_key k [] = false
has_key k (x ∷ xs) = same_key x k || has_key k xs

-- TLEValidator, as the fetcher uses it.
pub record Validator : Type 0 where
  pub validate_pair : String → String → String → Bool
  pub extract_norad_id : String → Option ℕ
  pub extract_epoch : String → Option ℕ
  pub compute_pair_hash : String → String → String

pub record Triplet : Type 0 where
  pub name : String
  pub line1 : String
  pub line2 : String

-- `while i + 2 < total_lines`: what is left of fewer than three lines is dropped.
abbrev pub triplets : List String → List Triplet
triplets (a ∷ b ∷ c ∷ rest) = record { name = a; line1 = b; line2 = c } ∷ triplets rest
triplets lines = []

-- What becomes of a triplet before the table is consulted.
pub data Verdict : Type 0 where
  blank invalid : Verdict
  accepted : Key → String → Verdict

abbrev pub extracted : String → Option ℕ → Option ℕ → Verdict
extracted hash (some norad_id) (some epoch) =
    accepted (record { norad_id = norad_id; epoch = epoch }) hash
extracted hash none epoch = invalid
extracted hash (some norad_id) none = invalid

unfoldable pub verdict : Validator → Triplet → Verdict
verdict v t =
    if str_eq t.name "" && str_eq t.line1 "" && str_eq t.line2 ""
    then blank
    else if not (v.validate_pair t.name t.line1 t.line2)
    then invalid
    else extracted (v.compute_pair_hash t.line1 t.line2) (v.extract_norad_id t.line1)
        (v.extract_epoch t.line1)

pub record Counters : Type 0 where
  pub new : ℕ
  pub updated : ℕ
  pub invalid : ℕ
  pub skipped : ℕ
  pub unused : ℕ

-- The table as committed, what is pending in the session, and the variables of the loop.
-- `current_tles` holds objects, so that an update shows in it.
pub record Ingest : Type 0 where
  pub table : List Tle
  pub inserts : List Tle
  pub updates : List Tle
  pub current_tles : List Tle
  pub current_norad_ids : List ℕ
  pub all_epochs : List Key
  pub added_this_run : List ℕ
  pub retire_this_batch : List ℕ
  pub batch_pending : ℕ
  pub counters : Counters

abbrev pub no_counts : Counters
no_counts = record { new = 0; updated = 0; invalid = 0; skipped = 0; unused = 0 }

-- The two queries before the loop.
abbrev pub start_ingest : List Tle → Ingest
start_ingest table =
    let current = select (λ t. t.is_current) table in
    record {
      table = table;
      inserts = [];
      updates = [];
      current_tles = current;
      current_norad_ids = map (λ (t : Tle). t.key.norad_id) current;
      all_epochs = map (λ (t : Tle). t.key) table;
      added_this_run = [];
      retire_this_batch = [];
      batch_pending = 0;
      counters = no_counts;
    }

-- `UPDATE … SET is_current = false WHERE norad_id IN (…) AND is_current`
abbrev pub retire_row : List ℕ → Tle → Tle
retire_row norad_ids t = record t {
  is_current = t.is_current && not (elem t.key.norad_id norad_ids);
}

abbrev pub retire : List ℕ → List Tle → List Tle
retire norad_ids = map (retire_row norad_ids)

-- The columns of a changed object, written to its row.
abbrev pub write_row : Tle → Tle → Bool → Tle
write_row u t true = record t {
  name = u.name;
  line1 = u.line1;
  line2 = u.line2;
  checksum = u.checksum;
}
write_row u t false = t

abbrev pub write_update : Tle → List Tle → List Tle
write_update u = map (λ (t : Tle). write_row u t (same_key t.key u.key))

unfoldable pub write_updates : List Tle → List Tle → List Tle
write_updates [] table = table
write_updates (u ∷ us) table = write_updates us (write_update u table)

-- The INSERTs, each refused if its key is taken.
unfoldable pub insert_rows : List Tle → List Tle → Option (List Tle)
insert_rows [] table = some table
insert_rows (t ∷ ts) table =
    let rest = insert_rows ts (table ++ t ∷ []) in
    if has_key t.key (map (λ (r : Tle). r.key) table) then none else rest

-- `_flush_batch`, and the two resets after it.
abbrev pub flushed : Ingest → List Tle → Ingest
flushed s table = record s {
  table = table;
  inserts = [];
  updates = [];
  retire_this_batch = [];
  batch_pending = 0;
}

unfoldable pub flush_batch : Ingest → Option Ingest
flush_batch s =
    Option.map (flushed s)
      (insert_rows s.inserts (write_updates s.updates (retire s.retire_this_batch s.table)))

-- `_BATCH_SIZE`
abbrev pub batch_size : ℕ
batch_size = 500

unfoldable pub find_current : Key → List Tle → Option Tle
find_current key [] = none
find_current key (t ∷ ts) =
    let later = find_current key ts in if same_key t.key key then some t else later

abbrev pub new_row : Triplet → Key → String → Tle
new_row t key hash = record {
  key = key;
  name = t.name;
  line1 = t.line1;
  line2 = t.line2;
  checksum = hash;
  is_current = true;
}

-- The current row of this very epoch is there: it is updated, or it is the same.
abbrev pub update_current : Ingest → Tle → Bool → Ingest
update_current s row true = record s {
  updates = s.updates ++ row ∷ [];
  current_tles = write_update row s.current_tles;
  batch_pending = s.batch_pending + 1;
  counters = record s.counters { updated = s.counters.updated + 1 };
}
update_current s row false = record s {
  counters = record s.counters { unused = s.counters.unused + 1 };
}

abbrev pub count_skipped : Ingest → Ingest
count_skipped s = record s { counters = record s.counters { skipped = s.counters.skipped + 1 } }

abbrev pub count_invalid : Ingest → Ingest
count_invalid s = record s { counters = record s.counters { invalid = s.counters.invalid + 1 } }

-- A new epoch: the old current row is retired, and the new row is added.
abbrev pub insert_new : Ingest → Tle → Ingest
insert_new s row =
    let norad_id = row.key.norad_id in
    record s {
      inserts = s.inserts ++ row ∷ [];
      current_norad_ids = select (λ n. not (n == norad_id)) s.current_norad_ids;
      all_epochs = row.key ∷ s.all_epochs;
      added_this_run = norad_id ∷ s.added_this_run;
      retire_this_batch =
          if elem norad_id s.current_norad_ids
          then s.retire_this_batch ++ norad_id ∷ []
          else s.retire_this_batch;
      batch_pending = s.batch_pending + 1;
      counters = record s.counters { new = s.counters.new + 1 };
    }

without_current : Ingest → Tle → (epoch_known added : Bool) → Ingest
without_current s row true added = count_skipped s
without_current s row false true = count_skipped s
without_current s row false false = insert_new s row

-- The chain of `if key in current_tles … elif … else`.
consult : Ingest → Tle → Option Tle → Ingest
unfolding without_current
consult s row (some old) =
    update_current s row (not (str_eq old.checksum row.checksum) || not (str_eq old.name row.name))
consult s row none =
    without_current s row (has_key row.key s.all_epochs) (elem row.key.norad_id s.added_this_run)

flush_if : Ingest → Bool → Option Ingest
flush_if s true = flush_batch s
flush_if s false = some s

on_verdict : Ingest → Triplet → Verdict → Option Ingest
unfolding consult flush_if
on_verdict s t blank = some (count_skipped s)
on_verdict s t invalid = some (count_invalid s)
on_verdict s t (accepted key hash) =
    let row = new_row t key hash in
    let next = consult s row (find_current key s.current_tles) in
    flush_if next (leb batch_size next.batch_pending)

-- The `while`, and the final flush.
ingest_loop : Validator → List Triplet → Ingest → Option Ingest
unfolding on_verdict
ingest_loop v [] s = flush_batch s
ingest_loop v (t ∷ ts) s = Option.bind (on_verdict s t (verdict v t)) (ingest_loop v ts)

unfoldable pub parse_and_store : Validator → List Tle → List String → Option Ingest
unfolding ingest_loop
parse_and_store v table lines = ingest_loop v (triplets lines) (start_ingest table)
