-- ===== src/RateLimiter/Bound.antt =====
-- No minute has more grants than the limit.
use sda_system.Prelude.{
  ℕ, ◌+◌, ◌≤◌, ◌<◌, ◌≡◌, refl, Bool, true, false, ◌&&◌, inl, inr, List, [], ◌∷◌, ltb, leb, ◌==◌,
  if◌then◌else◌, Bool-cases, arith, not_leb→lt,
}
use sda_system.RateLimiter.{
  minute, SortedSetOps, SortedSetLaws, Fate, answered, reply_lost, not_run, Request, eval,
  check_rate_limit,
}
use sda_system.RateLimiter.Window.{one_if, since, within, Arrives, Agrees, since_le, absent-Agrees}
use sda_system.RateLimiter.Runs.{note, run, eval-result, check-Agrees}

-- The limit of every call is at most the given one.
unfoldable pub IsLimited : ℕ → List Request → Type 0
IsLimited limit [] = Unit {0}
IsLimited limit (r ∷ rs) = (r.requests_per_min ≤ limit) × IsLimited limit rs

within_le : (granted : List ℕ) (t : ℕ) → within granted t ≤ since granted t
within_le [] t = omega arith
within_le (s ∷ granted) t =
    let rest = within_le granted t in
    let this : one_if (ltb t (s + minute) && leb s t) ≤ one_if (ltb t (s + minute)) =
      ground arith in
    omega (arith, rest, this)

within_cons :
    (granted : List ℕ) (now limit : ℕ)
    → since granted now < limit
    → ((t : ℕ) → within granted t ≤ limit)
    → (t : ℕ) → within (now ∷ granted) t ≤ limit
within_cons granted now limit h w t = elim (Bool-cases (leb now t)) [
  | inl k ↦
      let few = within_le granted t in
      let fewer = since_le granted now t (ground arith) in
      let this : one_if (ltb t (now + minute) && leb now t) ≤ 1 = ground arith in
      omega (arith, few, fewer, this)
  | inr k ↦
      let this : one_if (ltb t (now + minute) && leb now t) ≡ 0 = ground arith in
      omega (arith, w t, this)
]

if-within :
    (granted : List ℕ) (now own limit n : ℕ) (b : Bool)
    → n ≡ one_if b
    → leb own (since granted now) ≡ b
    → own ≤ limit
    → ((t : ℕ) → within granted t ≤ limit)
    → (t : ℕ) → within (if n == 0 then now ∷ granted else granted) t ≤ limit
if-within granted now own limit n true e k l w t = rw e (w t)
if-within granted now own limit n false e k l w t = rw e (
    within_cons granted now limit
      (let less = not_leb→lt own (since granted now) k in omega (arith, less)) w t)

note-within :
    (granted : List ℕ) (now own limit n : ℕ) (fate : Fate)
    → n ≡ one_if (leb own (since granted now))
    → own ≤ limit
    → ((t : ℕ) → within granted t ≤ limit)
    → (t : ℕ) → within (note granted now n fate) t ≤ limit
unfolding note
note-within granted now own limit n answered e l w t =
    if-within granted now own limit n (leb own (since granted now)) e refl l w t
note-within granted now own limit n reply_lost e l w t =
    if-within granted now own limit n (leb own (since granted now)) e refl l w t
note-within granted now own limit n not_run e l w t = w t

module _ (ops : SortedSetOps) (laws : SortedSetLaws ops) where
  runs-within :
      (z : ops.SortedSet) (granted : List ℕ) (clock : ℕ) (seen : List ℕ) (rs : List Request)
      (limit : ℕ)
      → minute ≤ clock
      → Agrees ops laws z granted clock seen
      → Arrives clock seen rs
      → IsLimited limit rs
      → ((t : ℕ) → within granted t ≤ limit)
      → (t : ℕ) → within (run ops z granted rs).1 t ≤ limit
  unfolding run Arrives IsLimited
  runs-within z granted clock seen [] limit m a f l w t = w t
  runs-within z granted clock seen (r ∷ rs) limit m a f l w t =
      runs-within (check_rate_limit ops z r).0 (note granted r.now (eval ops z r).1 r.fate) r.now
        (r.member ∷ seen) rs limit (omega (arith, m, f.0))
        (check-Agrees ops laws z granted clock seen r m f.0 f.1 a).1 f.2 l.1
        (note-within granted r.now r.requests_per_min limit (eval ops z r).1 r.fate
          (eval-result ops laws z granted clock seen r m f.0 f.1 a) l.0 w)
        t

  -- After any calls that come in the order of their times, each with a new uuid and a limit of at
  -- most the given one, the script granted in no minute more calls than that limit.
  pub run-within :
      (rs : List Request) (limit : ℕ)
      → Arrives minute [] rs
      → IsLimited limit rs
      → (t : ℕ) → within (run ops ops.absent [] rs).1 t ≤ limit
  run-within rs limit f l t =
      runs-within ops.absent [] minute [] rs limit (omega arith) (absent-Agrees ops laws) f l
        (λ u. omega arith) t
