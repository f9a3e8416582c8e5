-- ===== src/RateLimiter/Window.antt =====
-- The sorted set of the rate limiter, and the times of the calls that it granted.
use mathlib.Core.Bool.{true≢false}
use sda_system.Prelude.{
  ℕ, ◌+◌, ◌-◌, ◌≤◌, ◌≡◌, refl, sym, ◌∙◌, ap, Bool, true, false, not, ◌&&◌, ◌||◌, List, [], ◌∷◌, ltb,
  leb, ◌==◌, if◌then◌else◌, elem, sum_by, arith,
}
use sda_system.RateLimiter.{minute, SortedSetOps, SortedSetLaws, Request}

abbrev pub one_if : Bool → ℕ
one_if b = if b then 1 else 0

-- The times of a list that lie less than a minute before an instant, or after it.
abbrev pub since : List ℕ → ℕ → ℕ
since granted t = sum_by (λ s. one_if (ltb t (s + minute))) granted

-- Those of the minute up to an instant.
abbrev pub within : List ℕ → ℕ → ℕ
within granted t = sum_by (λ s. one_if (ltb t (s + minute) && leb s t)) granted

-- Calls in the order of their times, from a clock on, each with a uuid that was not drawn before.
unfoldable pub Arrives : ℕ → List ℕ → List Request → Type 0
Arrives clock seen [] = Unit {0}
Arrives clock seen (r ∷ rs) =
    (clock ≤ r.now) × (elem r.member seen ≡ false) × Arrives r.now (r.member ∷ seen) rs

pub since_le : (granted : List ℕ) (t u : ℕ) → t ≤ u → since granted u ≤ since granted t
since_le [] t u h = omega arith
since_le (s ∷ granted) t u h =
    let rest = since_le granted t u h in
    let this : one_if (ltb u (s + minute)) ≤ one_if (ltb t (s + minute)) = ground arith in
    omega (arith, rest, this)

module _ (ops : SortedSetOps) (laws : SortedSetLaws ops) where
  -- Tests that agree count the same.
  count_ext :
      (z : ops.SortedSet) (f g : ℕ → ℕ → Bool)
      → ((s m : ℕ) → f s m ≡ g s m)
      → laws.count z f ≡ laws.count z g
  count_ext z f g h =
      let up = laws.count_le z f g (λ s m e. sym (h s m) ∙ e) in
      let down = laws.count_le z g f (λ s m e. h s m ∙ e) in omega (arith, up, down)

  -- The set under the key agrees with the times granted so far, up to a clock.
  pub record Agrees (z : ops.SortedSet) (granted : List ℕ) (clock : ℕ) (seen : List ℕ)
      : Type 0 where
    pub live : (t : ℕ) → clock ≤ t → laws.count z (λ s m. ltb t (s + minute)) ≡ since granted t
    pub fresh : (member : ℕ) → elem member seen ≡ false → laws.count z (λ s m. m == member) ≡ 0
    pub over : (t : ℕ) → clock + minute ≤ t → since granted t ≡ 0
    pub lapse : (t : ℕ) → laws.lapses z t ≡ true → since granted t ≡ 0

  pub absent-Agrees : Agrees ops.absent [] minute []
  absent-Agrees = record {
    live = λ t h. laws.count_absent (λ s m. ltb t (s + minute));
    fresh = λ member h. laws.count_absent (λ s m. m == member);
    over = λ t h. refl;
    lapse = λ t h. refl;
  }

  if_zero : (b : Bool) (n : ℕ) → n ≡ 0 → (if b then 0 else n) ≡ 0
  if_zero true n e = refl
  if_zero false n e = e

  if_same : (b : Bool) (n k : ℕ) → n ≡ k → (b ≡ true → k ≡ 0) → (if b then 0 else n) ≡ k
  if_same true n k e h = sym (h refl)
  if_same false n k e h = e

  -- What a later call finds agrees: a set is gone only when its minute is over.
  pub found-Agrees :
      (z : ops.SortedSet) (granted : List ℕ) (clock now : ℕ) (seen : List ℕ)
      → clock ≤ now
      → Agrees z granted clock seen
      → Agrees (ops.found_at z now) granted now seen
  found-Agrees z granted clock now seen h a = record {
    live = λ t l.
        laws.count_found z now (λ s m. ltb t (s + minute))
        ∙ if_same (laws.lapses z now) (laws.count z (λ s m. ltb t (s + minute))) (since granted t)
            (a.live t (omega (arith, h, l)))
            (λ e. omega (arith, a.lapse now e, since_le granted now t l));
    fresh = λ member e.
        laws.count_found z now (λ s m. m == member)
        ∙ if_zero (laws.lapses z now) (laws.count z (λ s m. m == member)) (a.fresh member e);
    over = λ t l. a.over t (omega (arith, h, l));
    lapse = λ t e. a.lapse t (laws.lapses_found z now t e);
  }

  outside :
      (now t s : ℕ)
      → minute ≤ now
      → now ≤ t
      → (ltb t (s + minute) && not (leb 0 s && leb s (now - minute))) ≡ ltb t (s + minute)
  outside now t s h l = ground arith

  and_true : (a b : Bool) → (a && b) ≡ true → a ≡ true
  and_true true b e = refl
  and_true false b e = e

  -- Removing what is a minute old or older keeps the agreement.
  pub kept-Agrees :
      (z : ops.SortedSet) (granted : List ℕ) (now : ℕ) (seen : List ℕ)
      → minute ≤ now
      → Agrees z granted now seen
      → Agrees (ops.zremrangebyscore z 0 (now - minute)) granted now seen
  kept-Agrees z granted now seen h a = record {
    live = λ t l.
        laws.count_zremrangebyscore z 0 (now - minute) (λ s m. ltb t (s + minute))
        ∙ count_ext z (λ s m. ltb t (s + minute) && not (leb 0 s && leb s (now - minute)))
            (λ s m. ltb t (s + minute)) (λ s m. outside now t s h l)
        ∙ a.live t l;
    fresh = λ member e.
        let less =
          laws.count_le z (λ s m. (m == member) && not (leb 0 s && leb s (now - minute)))
            (λ s m. m == member)
            (λ s m e. and_true (m == member) (not (leb 0 s && leb s (now - minute))) e) in
        omega (
          arith,
          laws.count_zremrangebyscore z 0 (now - minute) (λ s m. m == member),
          less,
          a.fresh member e,
        );
    over = a.over;
    lapse = λ t e. a.lapse t (laws.lapses_zremrangebyscore z 0 (now - minute) t e);
  }

  inside :
      (now s : ℕ)
      → minute ≤ now
      → (true && not (leb 0 s && leb s (now - minute))) ≡ ltb now (s + minute)
  inside now s h = ground arith

  -- What the script compares with the limit: the grants of the last minute.
  pub zcard-since :
      (z : ops.SortedSet) (granted : List ℕ) (now : ℕ) (seen : List ℕ)
      → minute ≤ now
      → Agrees z granted now seen
      → ops.zcard (ops.zremrangebyscore z 0 (now - minute)) ≡ since granted now
  zcard-since z granted now seen h a =
      laws.zcard_count (ops.zremrangebyscore z 0 (now - minute))
      ∙ laws.count_zremrangebyscore z 0 (now - minute) (λ s m. true)
      ∙ count_ext z (λ s m. true && not (leb 0 s && leb s (now - minute)))
          (λ s m. ltb now (s + minute)) (λ s m. inside now s h)
      ∙ a.live now (omega arith)

  or_false : (a b : Bool) → (a || b) ≡ false → (a ≡ false) × (b ≡ false)
  or_false true b e = absurd (true≢false e)
  or_false false b e = (refl, e)

  others :
      (member m : ℕ) (seen : List ℕ)
      → elem m (member ∷ seen) ≡ false
      → ((member == m) ≡ false) × (elem m seen ≡ false)
  unfolding elem
  others member m seen e = or_false (member == m) (elem m seen) e

  -- Adding the call that is granted keeps the agreement.
  pub granted-Agrees :
      (z : ops.SortedSet) (granted : List ℕ) (now member : ℕ) (seen : List ℕ)
      → elem member seen ≡ false
      → Agrees z granted now seen
      → Agrees (ops.expire (ops.zadd z now member) now minute) (now ∷ granted) now (member ∷ seen)
  granted-Agrees z granted now member seen new a = record {
    live = λ t l.
        let f : ℕ → ℕ → Bool = λ s m. ltb t (s + minute) in
        omega (
          arith,
          laws.count_expire (ops.zadd z now member) now minute f,
          laws.count_zadd z now member f (a.fresh member new),
          a.live t l,
        );
    fresh = λ m e.
        let f : ℕ → ℕ → Bool = λ s k. k == m in
        let apart : one_if (member == m) ≡ 0 = ap one_if (others member m seen e).0 in
        omega (
          arith,
          laws.count_expire (ops.zadd z now member) now minute f,
          laws.count_zadd z now member f (a.fresh member new),
          a.fresh m (others member m seen e).1,
          apart,
        );
    over = λ t l. none_since t l;
    lapse = λ t e. none_since t (laws.lapses_expire z now member now minute t e);
  }
    where
      none_since : (t : ℕ) → now + minute ≤ t → since (now ∷ granted) t ≡ 0
      none_since t l =
          let old = a.over t l in
          let this : one_if (ltb t (now + minute)) ≡ 0 = ground arith in omega (arith, old, this)

  -- A member drawn and not added is seen too.
  pub seen-Agrees :
      (z : ops.SortedSet) (granted : List ℕ) (now member : ℕ) (seen : List ℕ)
      → Agrees z granted now seen
      → Agrees z granted now (member ∷ seen)
  seen-Agrees z granted now member seen a = record {
    live = a.live;
    fresh = λ m e. a.fresh m (others member m seen e).1;
    over = a.over;
    lapse = a.lapse;
  }

  pub later-Agrees :
      (z : ops.SortedSet) (granted : List ℕ) (clock now : ℕ) (seen : List ℕ)
      → clock ≤ now
      → Agrees z granted clock seen
      → Agrees z granted now seen
  later-Agrees z granted clock now seen h a = record {
    live = λ t l. a.live t (omega (arith, h, l));
    fresh = a.fresh;
    over = λ t l. a.over t (omega (arith, h, l));
    lapse = a.lapse;
  }
