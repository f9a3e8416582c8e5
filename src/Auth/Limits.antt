-- ===== src/Auth/Limits.antt =====
-- The gate over any requests: verification and rate limit together.
use mathlib.Core.Path.{subst}
use sda_system.Prelude.{
  ℕ, ◌≤◌, ◌≡◌, refl, sym, inl, inr, Bool, true, false, ◌&&◌, Option, none, some, List, [], ◌∷◌,
  String, leb, ◌==◌, if◌then◌else◌, Bool-cases, arith, ◌++◌, map, elem,
}
use sda_system.Auth.{EntryOps, Response, ok, status, State, verify}
use sda_system.Auth.Gate.{Gate, Visit, limited, admit, rate_limited, verify_api_key}
use sda_system.RateLimiter.{SortedSetOps, SortedSetLaws, Request, check_rate_limit, eval, minute}
use sda_system.RateLimiter.Window.{since, Arrives, Agrees, absent-Agrees, later-Agrees, seen-Agrees}
use sda_system.RateLimiter.Runs.{note, is_answered, verdict, check-Agrees}

-- A request that arrives: what it meets, and its header.
pub record Arrival (ops : EntryOps) (sets : SortedSetOps) : Type 0 where
  pub visit : Visit ops sets
  pub x_api_key : Option String

module _ (ops : EntryOps) (sets : SortedSetOps) where
  -- The times granted under each digest, after a request with the given verification.
  unfoldable pub grants_after :
      Gate ops sets → (ℕ → List ℕ) → Visit ops sets → Response (ℕ × ℕ) → ℕ → List ℕ
  grants_after g grants v (status n) t = grants t
  grants_after g grants v (ok (token, limit)) t =
      if t == token
      then note (grants t) v.now (eval sets (g.windows token) (limited ops sets v limit)).1 v.fate
      else grants t

  -- The verification of a request, if it comes to that.
  unfoldable pub verified :
      (sha256 : String → ℕ) → Gate ops sets → Arrival ops sets → State ops × Response (ℕ × ℕ)
  verified sha256 g a = elim a.x_api_key [
    | none ↦ (g.auth, status 401)
    | some key ↦ verify ops sha256 g.auth a.visit.faults a.visit.now (some key)
  ]

  -- What a request comes to, from its verification and the grants of the last minute.
  unfoldable pub outcome : (ℕ → List ℕ) → Visit ops sets → Response (ℕ × ℕ) → Response ℕ
  outcome grants v (status n) = status n
  outcome grants v (ok (token, limit)) =
      if is_answered v.fate && leb limit (since (grants token) v.now) then status 429 else ok token

  unfoldable pub run_gate :
      (sha256 : String → ℕ)
      → Gate ops sets
      → (ℕ → List ℕ)
      → List (Arrival ops sets)
      → Gate ops sets × (ℕ → List ℕ)
  run_gate sha256 g grants [] = (g, grants)
  run_gate sha256 g grants (a ∷ rest) =
      run_gate sha256 (verify_api_key ops sets sha256 g a.visit a.x_api_key).0
        (grants_after g grants a.visit (verified sha256 g a).1) rest

module _ (ops : EntryOps) (sets : SortedSetOps) (laws : SortedSetLaws sets) where
  AllAgree : (ℕ → sets.SortedSet) → (ℕ → List ℕ) → ℕ → List ℕ → Type 0
  AllAgree windows grants clock seen = (t : ℕ) → Agrees sets laws (windows t) (grants t) clock seen

  -- A request that does not come to the limiter.
  AllAgree-later :
      (windows : ℕ → sets.SortedSet) (grants : ℕ → List ℕ) (clock now member : ℕ) (seen : List ℕ)
      → clock ≤ now
      → AllAgree windows grants clock seen
      → AllAgree windows grants now (member ∷ seen)
  unfolding AllAgree
  AllAgree-later windows grants clock now member seen h a t =
      seen-Agrees sets laws (windows t) (grants t) now member seen
        (later-Agrees sets laws (windows t) (grants t) clock now seen h (a t))

  admit-outcome :
      (g : Gate ops sets) (token : ℕ) (r : sets.SortedSet × (Bool × Option ℕ)) (b : Bool)
      → r.1 ≡ (if b then (false, some 60) else (true, none))
      → (admit ops sets g token r).1 ≡ (if b then status 429 else ok token)
  unfolding admit
  admit-outcome g token (z, (true, after)) true e = absurd (cc)
  admit-outcome g token (z, (false, after)) true e = refl
  admit-outcome g token (z, (true, after)) false e = refl
  admit-outcome g token (z, (false, after)) false e = absurd (cc)

  admit-window :
      (g : Gate ops sets) (token t : ℕ) (r : sets.SortedSet × (Bool × Option ℕ))
      → (admit ops sets g token r).0.windows t ≡ (if t == token then r.0 else g.windows t)
  unfolding admit
  admit-window g token t (z, (true, after)) = refl
  admit-window g token t (z, (false, after)) = refl

  module _ (g : Gate ops sets) (grants : ℕ → List ℕ) (clock : ℕ) (seen : List ℕ)
      (v : Visit ops sets) (late : minute ≤ clock) (h : clock ≤ v.now)
      (new : elem v.member seen ≡ false) (agree : AllAgree g.windows grants clock seen) where
    rate_limited-outcome :
        (verified : Response (ℕ × ℕ))
        → (rate_limited ops sets g v verified).1 ≡ outcome ops sets grants v verified
    unfolding rate_limited outcome verdict AllAgree
    rate_limited-outcome (status n) = refl
    rate_limited-outcome (ok (token, limit)) =
        let r = limited ops sets v limit in
        admit-outcome g token (check_rate_limit sets (g.windows token) r)
          (is_answered v.fate && leb limit (since (grants token) v.now))
          (check-Agrees sets laws (g.windows token) (grants token) clock seen r late h new
            (agree token)).0

    rate_limited-AllAgree :
        (verified : Response (ℕ × ℕ))
        → AllAgree
            (rate_limited ops sets g v verified).0.windows
            (grants_after ops sets g grants v verified)
            v.now
            (v.member ∷ seen)
    unfolding rate_limited grants_after AllAgree
    rate_limited-AllAgree (status n) t =
        AllAgree-later g.windows grants clock v.now v.member seen h agree t
    rate_limited-AllAgree (ok (token, limit)) t =
        rw (admit-window g token t (check_rate_limit sets (g.windows token) r))
          (elim (Bool-cases (t == token)) [
            | inl same ↦ rw same (here (ground (arith, same)))
            | inr apart ↦
                rw apart (AllAgree-later g.windows grants clock v.now v.member seen h agree t)
          ])
      where
        r : Request
        r = limited ops sets v limit

        here :
            t ≡ token
            → Agrees sets laws
                (check_rate_limit sets (g.windows token) r).0
                (note (grants t) v.now (eval sets (g.windows token) r).1 v.fate)
                v.now
                (v.member ∷ seen)
        here same =
            subst
              (λ x.
                Agrees sets laws (check_rate_limit sets (g.windows token) r).0
                  (note (grants x) v.now (eval sets (g.windows token) r).1 v.fate) v.now
                  (v.member ∷ seen))
              (sym same)
              (check-Agrees sets laws (g.windows token) (grants token) clock seen r late h new
                (agree token)).1

  -- The requests of a list, in the order of their times and each with a new uuid.
  abbrev pub Arriving : ℕ → List ℕ → List (Arrival ops sets) → Type 0
  Arriving clock seen visits = Arrives clock seen (map (λ a. limited ops sets a.visit 0) visits)

  verify_api_key-step :
      (sha256 : String → ℕ) (g : Gate ops sets) (grants : ℕ → List ℕ) (clock : ℕ) (seen : List ℕ)
      (a : Arrival ops sets)
      → minute ≤ clock
      → clock ≤ a.visit.now
      → elem a.visit.member seen ≡ false
      → AllAgree g.windows grants clock seen
      → ((verify_api_key ops sets sha256 g a.visit a.x_api_key).1
          ≡ outcome ops sets grants a.visit (verified ops sets sha256 g a).1)
        × AllAgree
            (verify_api_key ops sets sha256 g a.visit a.x_api_key).0.windows
            (grants_after ops sets g grants a.visit (verified ops sets sha256 g a).1)
            a.visit.now
            (a.visit.member ∷ seen)
  unfolding verify_api_key verified rate_limited grants_after
  verify_api_key-step sha256 g grants clock seen a late h new agree = by_header a.x_api_key
    where
      by_header :
          (key : Option String)
          → let v : State ops × Response (ℕ × ℕ) = elim key [
            | none ↦ (g.auth, status 401)
            | some k ↦ verify ops sha256 g.auth a.visit.faults a.visit.now (some k)
          ] in
            ((verify_api_key ops sets sha256 g a.visit key).1 ≡ outcome ops sets grants a.visit v.1)
            × AllAgree
                (verify_api_key ops sets sha256 g a.visit key).0.windows
                (grants_after ops sets g grants a.visit v.1)
                a.visit.now
                (a.visit.member ∷ seen)
      by_header none = (
        unfold outcome in refl,
        rate_limited-AllAgree g grants clock seen a.visit late h new agree (status 401),
      )
      by_header (some key) =
          let v = verify ops sha256 g.auth a.visit.faults a.visit.now (some key) in
          (
            rate_limited-outcome (record g { auth = v.0 }) grants clock seen a.visit late h new
                agree v.1,
            rate_limited-AllAgree (record g { auth = v.0 }) grants clock seen a.visit late h new
                agree v.1,
          )

  run_gate-outcome :
      (sha256 : String → ℕ) (g : Gate ops sets) (grants : ℕ → List ℕ) (clock : ℕ) (seen : List ℕ)
      (visits : List (Arrival ops sets)) (a : Arrival ops sets)
      → minute ≤ clock
      → AllAgree g.windows grants clock seen
      → Arriving clock seen (visits ++ a ∷ [])
      → let (g', grants') = run_gate ops sets sha256 g grants visits in
        (verify_api_key ops sets sha256 g' a.visit a.x_api_key).1
        ≡ outcome ops sets grants' a.visit (verified ops sets sha256 g' a).1
  unfolding run_gate Arrives
  run_gate-outcome sha256 g grants clock seen [] a late agree f =
      (verify_api_key-step sha256 g grants clock seen a late f.0 f.1 agree).0
  run_gate-outcome sha256 g grants clock seen (b ∷ rest) a late agree f =
      run_gate-outcome sha256 (verify_api_key ops sets sha256 g b.visit b.x_api_key).0
        (grants_after ops sets g grants b.visit (verified ops sets sha256 g b).1) b.visit.now
        (b.visit.member ∷ seen) rest a (omega (arith, late, f.0))
        (verify_api_key-step sha256 g grants clock seen b late f.0 f.1 agree).1 f.2

  -- After any requests that come in the order of their times, each with a new uuid: a request with
  -- no key is answered 401, one whose verification raises is answered with the status that it
  -- raised, and one that it accepts with a limit is answered 429 exactly when its `eval` is answered
  -- and the script granted as many requests of its own digest as that limit in the minute before,
  -- whatever was granted under other digests. Every other request is let through with its digest.
  pub verify_api_key-outcome :
      (sha256 : String → ℕ) (auth : State ops) (visits : List (Arrival ops sets))
      (a : Arrival ops sets)
      → Arriving minute [] (visits ++ a ∷ [])
      → let (g, grants) =
          run_gate ops sets sha256
            (record { auth = auth; windows = λ t. sets.absent })
            (λ t. [])
            visits in
        (verify_api_key ops sets sha256 g a.visit a.x_api_key).1
        ≡ outcome ops sets grants a.visit (verified ops sets sha256 g a).1
  unfolding AllAgree
  verify_api_key-outcome sha256 auth visits a f =
      run_gate-outcome sha256 (record { auth = auth; windows = λ t. sets.absent }) (λ t. []) minute
        [] visits a (omega arith) (λ t. absent-Agrees sets laws) f
