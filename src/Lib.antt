-- ===== src/Lib.antt =====
-- The satellite ground-station system: the ingestion of orbital elements, propagation and pass
-- detection, the schedulers, the tasks that join them, and the requests of the API, with the
-- theorems that they do what their callers rely on.
--
-- The program's parts. An ingestion task fetches two-line elements, validates them and stores them
-- in the table `tles`. Propagation and pass detection compute from them the passes of satellites
-- over ground stations, the rows of `satellite_passes`. The scheduling task then runs in two stages
-- on that table: a greedy run over the stations (scheduling/greedy.py or
-- scheduling/interval_tree.py) marks the passes to be observed, get_free_slots computes what is left
-- of each antenna's time, and scheduling/ortools_optimizer.py fills it with satellites not yet
-- scheduled. The API reads through a Redis cache (cache/redis_client.py).
--
-- Models (db/models.py) has the rows with the CHECK constraints of satellite_passes. A time is a
-- number of microseconds since the epoch, elevation and duration are counted in fixed small units,
-- and the table is the list of its rows, which a commit rewrites.
--
-- Scheduling, of scheduling/greedy.py: Weighted is schedule_weighted, with its table `fill`, the
-- predecessors `prev_next` and the backward `walk`; Edf is schedule_edf; Heap is schedule_heap with
-- _has_overlap; Conflicts is _detect_conflicts; Slots is _merge_intervals and get_free_slots;
-- Stations has the candidates query, the rounds and the commit, Stations/Greedy the defensive check
-- and schedule_all_stations. Pick is the reference of the two benefit-first schedulers, and
-- Stations/Rounds the one of the two runs over the stations. Tree is scheduling/interval_tree.py:
-- its loop, _verify_no_conflicts, the commit of a station that may fail, and schedule_all_stations
-- (here schedule_all_by_tree). Optimizer is scheduling/ortools_optimizer.py: the candidates, the
-- whole-second times, the program for the solver, and the guards on its result.
--
-- Propagation is propagation/sgp4_engine.py and propagation/pass_detector.py. Julian is
-- _jd_from_components, SatCache the cache of _get_or_create_satellite, Engine the format check,
-- propagate and batch_propagate over the positions and codes of the packages (Orbit). Samples has
-- the helpers on the samples of one satellite over one station, _interpolate_crossing,
-- _interpolated_ecef and _refine_max_elevation, written over the operations of floats and vectors
-- (Angles); Detector is _extract_passes: Detector/Edges has its index pairs, Detector/Windows what
-- it finds. Site is detect_passes, which calls it, over what propagation/coordinates.py computes
-- (Frames).
--
-- Pipeline is workers/celery_app.py. Batch is _propagate_counter_decr, propagate_batch and the ways
-- in which an attempt of detect_passes ends, a lost worker, a failed SET and a run_greedy.delay that
-- raises included, as steps that workers take in any order: Once is about the start of run_greedy,
-- Reported about the ends without a report, Ends about the retries. Upsert is _bulk_upsert_passes
-- with the loops of detect_passes. Detect is the body of detect_passes on Propagation. Stages is
-- run_greedy, run_ortools and what the one hands to the other.
--
-- Cache is cache/redis_client.py: the circuit breaker, _call with its retries, and in Cache/Reads
-- get_passes and get_tle. Ingestion/Tle is ingestion/validator.py: the checksum, the satellite
-- numbers and the checks of the lines, with Tle/Epoch the epoch and the names; of
-- ingestion/fetcher.py, Ingestion/Fetch is fetch_all and _fetch_url, Ingestion/Seed
-- init_ground_stations, and Ingestion/Store _parse_and_store and _flush_batch. RateLimiter is the
-- class of api/middleware.py with its Lua script: Window has what the sorted set counts, Runs the
-- calls one after another, Bound the number of grants in a minute. Auth is APIKeyAuth of the same
-- file with the handlers of api/routes/admin.py that write keys (Auth/Keys); Auth/Gate is
-- verify_api_key of api/routes/passes.py, which joins the two. Passes is the rest of that file: GET
-- /api/passes, whose pages Passes/Pages follows, Passes/Schedule and Passes/Coverage. Passes/Ordered
-- is what its queries with ORDER BY rise_time may return.
--
-- Fuel. The backward `while` of schedule_weighted takes one unit of fuel more than there are passes;
-- the index falls in every round, so that it ends within them, and the theorem states the result
-- itself. Every other loop is a recursion on its list or on the rounds it has left.
--
-- Outside the repository and therefore parameters: the interval tree of the package intervaltree
-- with the documented behaviour of its three operations (TreeLaws), the solver of the package
-- ortools with the documented meaning of AddNoOverlap (SolverLaws), the positions of Skyfield and
-- the codes of sgp4 (OrbitLaws), the arithmetic of floats in the detector (AngleLaws), what the
-- database adds to a row (Columns), what a retry of Celery past its limit raises (Limit), the digest
-- and the satellites of the cache of satellites, the replies of the Redis server, its sorted sets
-- with the documented behaviour of their commands (SortedSetLaws), what json.loads returns, the
-- order of ORDER BY on strings, and whether a commit goes through. The floats of the interpreter are
-- a parameter of the line checks, which cover ASCII lines, and of the epoch, where a decimal of
-- eight places compares with a whole number as it should and less a whole number is a timedelta
-- exact to the microsecond (DayLaws).
--
-- Not modelled: propagation/coordinates.py, which is trigonometry on floats without an exact
-- counterpart, so that the frames and elevations it computes enter as a parameter (FrameLaws: as
-- many elevations as positions); the start-up of the API and its task triggers, the settings and the
-- front end; in the parts modelled, logging and statistics, the age of elements, SCAN deletion and
-- writes of the Redis cache, the attempts that its client package makes within one await, a task
-- that the broker delivers again while it runs, the expiry of the counter of a batch after a day,
-- the fingerprint of a pair of lines, and the administration's list of keys and clean-up of passes.
mod Prelude
pub mod Models
pub mod Scheduling
pub mod Cache
pub mod Ingestion
pub mod RateLimiter
pub mod Propagation
pub mod Pipeline
pub mod Http
pub mod Auth
pub mod Passes
mod Tests
