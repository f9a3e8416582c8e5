-- ===== src/Tests/RateLimiter.antt =====
-- Runs of the rate limiter, on sorted sets that are lists of scores and members.
use mathlib.Core.Bool.{false≢true}
use sda_system.Prelude.{
  ℕ, ◌+◌, ◌≤◌, ◌≡◌, refl, ◌∙◌, Bool, true, false, not, ◌&&◌, Option, none, some, List, [], ◌∷◌,
  ◌++◌, length, select, leb, ◌==◌, if◌then◌else◌, elem, sum_by, arith,
}
use sda_system.RateLimiter.{
  minute, SortedSetOps, SortedSetLaws, Fate, answered, reply_lost, not_run, Request,
  check_rate_limit, rate_limit_lua, by_fate,
}
use sda_system.RateLimiter.Window.{one_if, since, within, Arrives}
use sda_system.RateLimiter.Runs.{note, run, is_answered, check_rate_limit-since}
use sda_system.RateLimiter.Bound.{IsLimited, run-within}

abbrev pub Stored : Type 0
Stored = List (ℕ × ℕ) × Option ℕ

abbrev pub is_over : Option ℕ → ℕ → Bool
is_over none t = false
is_over (some d) t = leb d t

abbrev pub list_set : SortedSetOps
list_set = record {
  SortedSet = Stored;
  absent = ([], none);
  found_at = λ z t. if is_over z.1 t then ([], none) else z;
  zremrangebyscore = λ z low high. (select (λ e. not (leb low e.0 && leb e.0 high)) z.0, z.1);
  zcard = λ z. length z.0;
  zadd = λ z score member. ((score, member) ∷ select (λ e. not (e.1 == member)) z.0, z.1);
  expire = λ z t d. (z.0, some (t + d));
}

abbrev entries_count : List (ℕ × ℕ) → (ℕ → ℕ → Bool) → ℕ
entries_count l f = sum_by (λ e. one_if (f e.0 e.1)) l

entries_count-le :
    (l : List (ℕ × ℕ)) (f g : ℕ → ℕ → Bool)
    → ((s m : ℕ) → f s m ≡ true → g s m ≡ true)
    → entries_count l f ≤ entries_count l g
entries_count-le [] f g h = omega arith
entries_count-le (e ∷ l) f g h =
    let rest = entries_count-le l f g h in
    let this = implied (f e.0 e.1) (g e.0 e.1) (h e.0 e.1) in omega (arith, rest, this)
  where
    implied : (a b : Bool) → (a ≡ true → b ≡ true) → one_if a ≤ one_if b
    implied true b h = rw (h refl) (omega arith)
    implied false b h = omega arith

entries_count-select :
    (l : List (ℕ × ℕ)) (f g : ℕ → ℕ → Bool)
    → entries_count (select (λ e. g e.0 e.1) l) f ≡ entries_count l (λ s m. f s m && g s m)
unfolding select
entries_count-select [] f g = refl
entries_count-select (e ∷ l) f g = one (g e.0 e.1) (entries_count-select l f g)
  where
    keep : (a : Bool) → one_if a ≡ one_if (a && true)
    keep true = refl
    keep false = refl

    omit : (a : Bool) → 0 ≡ one_if (a && false)
    omit true = refl
    omit false = refl

    one :
        (b : Bool)
        → entries_count (select (λ x. g x.0 x.1) l) f ≡ entries_count l (λ s m. f s m && g s m)
        → sum_by
            (λ x. one_if (f x.0 x.1))
            (if b then e ∷ select (λ x. g x.0 x.1) l else select (λ x. g x.0 x.1) l)
          ≡ one_if (f e.0 e.1 && b) + entries_count l (λ s m. f s m && g s m)
    one true rest = omega (arith, rest, keep (f e.0 e.1))
    one false rest = omega (arith, rest, omit (f e.0 e.1))

entries_count-length : (l : List (ℕ × ℕ)) → length l ≡ entries_count l (λ s m. true)
entries_count-length [] = refl
entries_count-length (e ∷ l) = let rest = entries_count-length l in omega (arith, rest)

entries_count-others :
    (l : List (ℕ × ℕ)) (member : ℕ) (f : ℕ → ℕ → Bool)
    → entries_count l (λ s m. m == member) ≡ 0
    → entries_count l (λ s m. f s m && not (m == member)) ≡ entries_count l f
entries_count-others [] member f h = refl
entries_count-others (e ∷ l) member f h =
    let rest = entries_count-others l member f (omega (arith, h)) in
    omega (arith, rest, other (f e.0 e.1) (e.1 == member) (omega (arith, h)))
  where
    other : (a b : Bool) → one_if b ≡ 0 → one_if (a && not b) ≡ one_if a
    other true b h = ground (arith, h)
    other false b h = refl

count_found :
    (z : Stored) (b : Bool) (f : ℕ → ℕ → Bool)
    → entries_count (if b then ([], none) else z).0 f ≡ (if b then 0 else entries_count z.0 f)
count_found z true f = refl
count_found z false f = refl

over_found :
    (z : Stored) (b : Bool) (t : ℕ)
    → is_over (if b then ([], none) else z).1 t ≡ true
    → is_over z.1 t ≡ true
over_found z true t h = absurd (false≢true h)
over_found z false t h = h

pub list_set-SortedSetLaws : SortedSetLaws list_set
list_set-SortedSetLaws = record {
  count = λ z f. entries_count z.0 f;
  lapses = λ z t. is_over z.1 t;
  count_le = λ z f g h. entries_count-le z.0 f g h;
  count_absent = λ f. refl;
  count_found = λ z t f. count_found z (is_over z.1 t) f;
  count_zremrangebyscore =
      λ z low high f. entries_count-select z.0 f (λ s m. not (leb low s && leb s high));
  zcard_count = λ z. entries_count-length z.0;
  count_zadd = λ z score member f h.
      let kept =
        entries_count-select z.0 f (λ s m. not (m == member))
        ∙ entries_count-others z.0 member f h in
      omega (arith, kept);
  count_expire = λ z t d f. refl;
  lapses_found = λ z time t h. over_found z (is_over z.1 time) t h;
  lapses_zremrangebyscore = λ z low high t h. h;
  lapses_expire = λ z score member time d t h. ground (arith, h);
}

abbrev request : ℕ → ℕ → Fate → Request
request now member fate = record { now = now; requests_per_min = 2; member = member; fate = fate }

-- Two calls pass, and the others within the minute are refused.
abbrev calls : List Request
calls =
    request 100_000_000 1 answered
    ∷ request 100_000_000 2 reply_lost
    ∷ request 120_000_000 3 not_run
    ∷ []

abbrev refused_call : Request
refused_call = request 159_000_000 4 answered

abbrev later_call : Request
later_call = request 161_000_000 5 answered

refused_call_reply :
    (check_rate_limit list_set (run list_set ([], none) [] calls).0 refused_call).1
    ≡ (false, some 60)
unfolding check_rate_limit rate_limit_lua by_fate run note select
refused_call_reply = refl

later_call_reply :
    (check_rate_limit list_set (run list_set ([], none) [] calls).0 later_call).1 ≡ (true, none)
unfolding check_rate_limit rate_limit_lua by_fate run note select
later_call_reply = refl

calls-Arrives : Arrives minute [] (calls ++ refused_call ∷ [])
unfolding Arrives elem
calls-Arrives =
    (omega arith, refl, (omega arith, refl, (omega arith, refl, (omega arith, refl, tt))))

check_rate_limit-since_example :
    (check_rate_limit list_set (run list_set ([], none) [] calls).0 refused_call).1 ≡ (
      if is_answered refused_call.fate
        && leb 2 (since (run list_set ([], none) [] calls).1 refused_call.now)
      then (false, some 60)
      else (true, none))
check_rate_limit-since_example =
    check_rate_limit-since list_set list_set-SortedSetLaws calls refused_call calls-Arrives

all_calls-IsLimited : IsLimited 2 (calls ++ refused_call ∷ [])
unfolding IsLimited
all_calls-IsLimited = (omega arith, (omega arith, (omega arith, (omega arith, tt))))

run-within_example :
    within (run list_set ([], none) [] (calls ++ refused_call ∷ [])).1 150_000_000 ≤ 2
run-within_example =
    run-within list_set list_set-SortedSetLaws (calls ++ refused_call ∷ []) 2 calls-Arrives
      all_calls-IsLimited 150_000_000
