-- ===== src/RateLimiter/Runs.antt =====
-- The rate limiter over any calls on one key.
use sda_system.Prelude.{
  ℕ, ◌-◌, ◌≤◌, ◌≡◌, refl, ap, Bool, true, false, ◌&&◌, Option, none, some, List, [], ◌∷◌, ◌++◌, leb,
  ◌==◌, if◌then◌else◌, elem, arith,
}
use sda_system.RateLimiter.{
  minute, SortedSetOps, SortedSetLaws, Fate, answered, reply_lost, not_run, Request, rate_limit_lua,
  eval, reply, by_fate, check_rate_limit,
}
use sda_system.RateLimiter.Window.{
  one_if, since, Arrives, Agrees, absent-Agrees, found-Agrees, kept-Agrees, zcard-since,
  granted-Agrees, seen-Agrees, later-Agrees,
}

-- The times granted after a call: one more if its script ran and returned 0.
unfoldable pub note : List ℕ → (now result : ℕ) → Fate → List ℕ
note granted now result answered = if result == 0 then now ∷ granted else granted
note granted now result reply_lost = if result == 0 then now ∷ granted else granted
note granted now result not_run = granted

abbrev pub is_answered : Fate → Bool
is_answered answered = true
is_answered reply_lost = false
is_answered not_run = false

module _ (ops : SortedSetOps) where
  -- The calls of a list in turn: the set they leave, and the times that the script granted.
  unfoldable pub run : ops.SortedSet → List ℕ → List Request → ops.SortedSet × List ℕ
  run z granted [] = (z, granted)
  run z granted (r ∷ rs) =
      run (check_rate_limit ops z r).0 (note granted r.now (eval ops z r).1 r.fate) rs

module _ (ops : SortedSetOps) (laws : SortedSetLaws ops) where
  -- What the script does to a set that agrees, by the comparison with the limit.
  Evaluated :
      (after : ops.SortedSet × ℕ) (granted : List ℕ) (r : Request) (seen : List ℕ) → Bool → Type 0
  Evaluated after granted r seen b =
      (after.1 ≡ one_if b)
      × Agrees ops laws after.0 (if b then granted else r.now ∷ granted) r.now (r.member ∷ seen)

  decided-Evaluated :
      (kept : ops.SortedSet) (granted : List ℕ) (seen : List ℕ) (r : Request)
      → elem r.member seen ≡ false
      → Agrees ops laws kept granted r.now seen
      → (b : Bool)
      → Evaluated
          (if b then (kept, 1) else (ops.expire (ops.zadd kept r.now r.member) r.now minute, 0))
          granted
          r
          seen
          b
  unfolding Evaluated
  decided-Evaluated kept granted seen r new a true =
      (refl, seen-Agrees ops laws kept granted r.now r.member seen a)
  decided-Evaluated kept granted seen r new a false =
      (refl, granted-Agrees ops laws kept granted r.now r.member seen new a)

  eval-Evaluated :
      (z : ops.SortedSet) (granted : List ℕ) (clock : ℕ) (seen : List ℕ) (r : Request)
      → minute ≤ clock
      → clock ≤ r.now
      → elem r.member seen ≡ false
      → Agrees ops laws z granted clock seen
      → Evaluated (eval ops z r) granted r seen (leb r.requests_per_min (since granted r.now))
  unfolding rate_limit_lua
  eval-Evaluated z granted clock seen r m h new a =
      let found = found-Agrees ops laws z granted clock r.now seen h a in
      let late : minute ≤ r.now = omega arith in
      let kept = kept-Agrees ops laws (ops.found_at z r.now) granted r.now seen late found in
      rw (zcard-since ops laws (ops.found_at z r.now) granted r.now seen late found) (
        decided-Evaluated (ops.zremrangebyscore (ops.found_at z r.now) 0 (r.now - minute)) granted
          seen r new kept (leb r.requests_per_min (since granted r.now)))

  -- What a call returns, by the comparison with the limit.
  unfoldable pub verdict : Fate → Bool → Bool × Option ℕ
  verdict fate limited = if is_answered fate && limited then (false, some 60) else (true, none)

  reply_if :
      (n : ℕ) (b : Bool) → n ≡ one_if b → reply n ≡ (if b then (false, some 60) else (true, none))
  reply_if n true e = ap reply e
  reply_if n false e = ap reply e

  if-noted :
      (n : ℕ) (b : Bool) (granted : List ℕ) (now : ℕ)
      → n ≡ one_if b
      → (if n == 0 then now ∷ granted else granted) ≡ (if b then granted else now ∷ granted)
  if-noted n true granted now e = ap (λ k. if k == 0 then now ∷ granted else granted) e
  if-noted n false granted now e = ap (λ k. if k == 0 then now ∷ granted else granted) e

  fate-Checked :
      (z : ops.SortedSet) (granted : List ℕ) (clock : ℕ) (seen : List ℕ) (r : Request)
      (after : ops.SortedSet × ℕ) (b : Bool) (fate : Fate)
      → clock ≤ r.now
      → Agrees ops laws z granted clock seen
      → Evaluated after granted r seen b
      → ((by_fate ops z after fate).1 ≡ verdict fate b)
        × Agrees ops laws
            (by_fate ops z after fate).0
            (note granted r.now after.1 fate)
            r.now
            (r.member ∷ seen)
  unfolding by_fate note Evaluated verdict
  fate-Checked z granted clock seen r after b answered h a e =
      (reply_if after.1 b e.0, rw (if-noted after.1 b granted r.now e.0) e.1)
  fate-Checked z granted clock seen r after b reply_lost h a e =
      (refl, rw (if-noted after.1 b granted r.now e.0) e.1)
  fate-Checked z granted clock seen r after b not_run h a e = (
    refl,
    seen-Agrees ops laws z granted r.now r.member seen
        (later-Agrees ops laws z granted clock r.now seen h a),
  )

  pub eval-result :
      (z : ops.SortedSet) (granted : List ℕ) (clock : ℕ) (seen : List ℕ) (r : Request)
      → minute ≤ clock
      → clock ≤ r.now
      → elem r.member seen ≡ false
      → Agrees ops laws z granted clock seen
      → (eval ops z r).1 ≡ one_if (leb r.requests_per_min (since granted r.now))
  unfolding Evaluated
  eval-result z granted clock seen r m h new a = (eval-Evaluated z granted clock seen r m h new a).0

  pub check-Agrees :
      (z : ops.SortedSet) (granted : List ℕ) (clock : ℕ) (seen : List ℕ) (r : Request)
      → minute ≤ clock
      → clock ≤ r.now
      → elem r.member seen ≡ false
      → Agrees ops laws z granted clock seen
      → ((check_rate_limit ops z r).1
          ≡ verdict r.fate (leb r.requests_per_min (since granted r.now)))
        × Agrees ops laws
            (check_rate_limit ops z r).0
            (note granted r.now (eval ops z r).1 r.fate)
            r.now
            (r.member ∷ seen)
  unfolding check_rate_limit
  check-Agrees z granted clock seen r m h new a =
      fate-Checked z granted clock seen r (eval ops z r)
        (leb r.requests_per_min (since granted r.now)) r.fate h a
        (eval-Evaluated z granted clock seen r m h new a)

  run-verdict :
      (z : ops.SortedSet) (granted : List ℕ) (clock : ℕ) (seen : List ℕ) (rs : List Request)
      (r : Request)
      → minute ≤ clock
      → Agrees ops laws z granted clock seen
      → Arrives clock seen (rs ++ r ∷ [])
      → (check_rate_limit ops (run ops z granted rs).0 r).1
        ≡ verdict r.fate (leb r.requests_per_min (since (run ops z granted rs).1 r.now))
  unfolding run Arrives
  run-verdict z granted clock seen [] r m a f = (check-Agrees z granted clock seen r m f.0 f.1 a).0
  run-verdict z granted clock seen (q ∷ rs) r m a f =
      run-verdict (check_rate_limit ops z q).0 (note granted q.now (eval ops z q).1 q.fate) q.now
        (q.member ∷ seen) rs r (omega (arith, m, f.0))
        (check-Agrees z granted clock seen q m f.0 f.1 a).1 f.2

  -- After any calls that come in the order of their times, each with a new uuid, a call is refused,
  -- with 60 seconds to wait, exactly when its `eval` is answered and the script granted as many
  -- calls as its limit in the minute before it; every other call passes.
  pub check_rate_limit-since :
      (rs : List Request) (r : Request)
      → Arrives minute [] (rs ++ r ∷ [])
      → (check_rate_limit ops (run ops ops.absent [] rs).0 r).1 ≡ (
          if is_answered r.fate && leb r.requests_per_min (since (run ops ops.absent [] rs).1 r.now)
          then (false, some 60)
          else (true, none))
  unfolding verdict
  check_rate_limit-since rs r f =
      run-verdict ops.absent [] minute [] rs r (omega arith) (absent-Agrees ops laws) f
