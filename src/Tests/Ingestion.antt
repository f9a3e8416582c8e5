-- ===== src/Tests/Ingestion.antt =====
-- A feed of two entries for one satellite, stored over an older row.
use mathlib.Core.List.{not-mem-nil}
use mathlib.Core.List.Pairwise
use mathlib.Core.Option
use sda_system.Prelude.{
  ◌≡◌, refl, Bool, true, false, Option, none, some, List, [], ◌∷◌, map, select, elem, length,
  String,
}
use sda_system.Ingestion.Store.{
  Tle, Validator, Ingest, triplets, parse_and_store, insert_rows, flush_batch, verdict,
  find_current, has_key, write_updates,
}
use sda_system.Ingestion.Store.Sound.{IsSound}
use sda_system.Ingestion.Store.Sound.Run.{IsIngested, parse_and_store-IsIngested}

abbrev lenient : Validator
lenient = record {
  validate_pair = λ name line1 line2. true;
  extract_norad_id = λ line1. some 25544;
  extract_epoch = λ line1. some 9;
  compute_pair_hash = λ line1 line2. "hash";
}

abbrev old : Tle
old = record {
  key = record { norad_id = 25544; epoch = 5 };
  name = "ISS";
  line1 = "1";
  line2 = "2";
  checksum = "old";
  is_current = true;
}

abbrev feed : List String
feed = "ISS" ∷ "1" ∷ "2" ∷ "ISS" ∷ "1" ∷ "2" ∷ "rest" ∷ []

old-IsSound : IsSound (old ∷ [])
old-IsSound = record {
  keys_apart = Pairwise.cons (λ t m. absurd (not-mem-nil m)) Pairwise.nil;
  currents_apart = Pairwise.cons (λ t m. absurd (not-mem-nil m)) Pairwise.nil;
}

-- The old row is retired, one new row is current, and the second entry is skipped.
currents : Option Ingest → List Bool
currents none = []
currents (some s) = map (λ (t : Tle). t.is_current) s.table

parse_and_store-feed : currents (parse_and_store lenient (old ∷ []) feed) ≡ false ∷ true ∷ []
unfolding currents parse_and_store insert_rows flush_batch verdict find_current has_key elem select
    write_updates Option.bind
parse_and_store-feed = refl

parse_and_store-IsIngested_example :
    (last : Ingest) × (parse_and_store lenient (old ∷ []) feed ≡ some last)
    × IsIngested (old ∷ []) (length (triplets feed)) last
parse_and_store-IsIngested_example = parse_and_store-IsIngested lenient (old ∷ []) feed old-IsSound
