-- ===== src/WsAuth/Limiter.antt =====
-- The limiter of control frames against a limiter that remembers every frame it has accepted.
use world_infra.Prelude.{
  ℕ, ◌+◌, ◌-◌, ◌≡◌, refl, sym, ap, ◌∙◌, subst, ◌≤◌, Bool, true, false, ◌&&◌, ◌||◌, List, [], ◌∷◌,
  ◌++◌, length, retain, count, length-retain, count-append, count-retain, count_le, append-nil,
  append_assoc, leb, ltb, ◌==◌, Bool-cases, inl, inr, arith, if◌then◌else◌,
}
use world_infra.WsAuth.{ControlFrameRateLimit, new_control_limit, allow_at}

-- The answers of the limiter at the instants of a history.
unfoldable pub verdicts : ControlFrameRateLimit → List ℕ → List Bool
verdicts limit [] = []
verdicts limit (now ∷ times) = (allow_at limit now).0 ∷ verdicts (allow_at limit now).1 times

-- A frame is accepted when the last `window` nanoseconds have fewer than `max_frames` accepted ones.
unfoldable pub is_recent : ℕ → ℕ → ℕ → Bool
is_recent window now t = ltb (now - t) window

unfoldable pub may_pass : ℕ → ℕ → List ℕ → ℕ → Bool
may_pass max_frames window accepted now =
    ltb 0 max_frames && (ltb 0 window && ltb (count (is_recent window now) accepted) max_frames)

-- The answers of a limiter that keeps every accepted instant.
unfoldable pub ideal_verdicts : ℕ → ℕ → List ℕ → List ℕ → List Bool
ideal_verdicts max_frames window accepted [] = []
ideal_verdicts max_frames window accepted (now ∷ times) =
    may_pass max_frames window accepted now
    ∷ ideal_verdicts max_frames window
        (if may_pass max_frames window accepted now then accepted ++ now ∷ [] else accepted) times

-- Instants that do not go back.
abbrev pub IsMonotone : ℕ → List ℕ → Type 0
IsMonotone last [] = Unit
IsMonotone last (now ∷ times) = (last ≤ now) × IsMonotone now times

-- The limiter's list and the list of all accepted instants agree on what is recent, from `last` on.
pub record Agrees (last : ℕ) (limit : ControlFrameRateLimit) (accepted : List ℕ) : Type 0 where
  pub recent :
      (now : ℕ)
      → last ≤ now
      → count (is_recent limit.window now) limit.accepted_at
        ≡ count (is_recent limit.window now) accepted

is_recent_narrow :
    (window a b t : ℕ) → a ≤ b → is_recent window b t ≡ true → is_recent window a t ≡ true
unfolding is_recent
is_recent_narrow window a b t le h = ground arith

-- One frame: the answer is the ideal one, and the lists go on agreeing.
pub record Steps (limit : ControlFrameRateLimit) (accepted : List ℕ) (now : ℕ) (pass : Bool)
    (answer : Bool × ControlFrameRateLimit) : Type 0 where
  pub verdict : answer.0 ≡ pass
  pub same_max : answer.1.max_frames ≡ limit.max_frames
  pub same_window : answer.1.window ≡ limit.window
  pub agrees : Agrees now answer.1 (if pass then accepted ++ now ∷ [] else accepted)

Agrees-retain :
    (limit : ControlFrameRateLimit) (accepted : List ℕ) (now later : ℕ)
    → Agrees now limit accepted
    → now ≤ later
    → count
        (is_recent limit.window later)
        (retain (λ t. ltb (now - t) limit.window) limit.accepted_at)
      ≡ count (is_recent limit.window later) accepted
unfolding is_recent
Agrees-retain limit accepted now later agrees le =
    count-retain (is_recent limit.window later) (is_recent limit.window now) limit.accepted_at
      (λ t. is_recent_narrow limit.window now later t le)
    ∙ agrees.recent later le

allow_at-Steps :
    (limit : ControlFrameRateLimit) (accepted : List ℕ) (now : ℕ)
    → Agrees now limit accepted
    → Steps limit accepted now
        (may_pass limit.max_frames limit.window accepted now)
        (allow_at limit now)
unfolding allow_at may_pass is_recent
allow_at-Steps limit accepted now agrees =
    let recent = retain (λ t. ltb (now - t) limit.window) limit.accepted_at in
    let pass = may_pass limit.max_frames limit.window accepted now in
    let same : length recent ≡ count (is_recent limit.window now) accepted =
      length-retain (λ t. ltb (now - t) limit.window) limit.accepted_at
      ∙ agrees.recent now (omega arith) in
    elim (Bool-cases (limit.max_frames == 0 || limit.window == 0)) [
      | inl off ↦
          let refused : pass ≡ false = ground (arith, off) in
          rw (off, refused)
            (record { verdict = refl; same_max = refl; same_window = refl; agrees = agrees })
      | inr on ↦ elim (Bool-cases (leb limit.max_frames (length recent))) [
        | inl full ↦
            let refused : pass ≡ false = ground (arith, full, same) in
            rw (on, full, refused)
              (record {
                verdict = refl;
                same_max = refl;
                same_window = refl;
                agrees = record {
                  recent = λ later le. Agrees-retain limit accepted now later agrees le;
                };
              })
        | inr room ↦
            let passed : pass ≡ true = ground (arith, on, room, same) in
            rw (on, room, passed)
              (record {
                verdict = refl;
                same_max = refl;
                same_window = refl;
                agrees = record {
                  recent = λ later le.
                      count-append (is_recent limit.window later) recent (now ∷ [])
                      ∙ ap (◌+ count (is_recent limit.window later) (now ∷ []))
                          (Agrees-retain limit accepted now later agrees le)
                      ∙ sym (count-append (is_recent limit.window later) accepted (now ∷ []));
                };
              })
      ]
    ]

Agrees-later :
    (last now : ℕ) (limit : ControlFrameRateLimit) (accepted : List ℕ)
    → last ≤ now
    → Agrees last limit accepted
    → Agrees now limit accepted
Agrees-later last now limit accepted le agrees = record {
  recent = λ later h. agrees.recent later (omega (arith, le, h));
}

verdicts-Agrees :
    (times : List ℕ) (last : ℕ) (limit : ControlFrameRateLimit) (accepted : List ℕ)
    → Agrees last limit accepted
    → IsMonotone last times
    → verdicts limit times ≡ ideal_verdicts limit.max_frames limit.window accepted times
unfolding verdicts ideal_verdicts
verdicts-Agrees [] last limit accepted agrees h = refl
verdicts-Agrees (now ∷ times) last limit accepted agrees h =
    let (le, later) = h in
    let step = allow_at-Steps limit accepted now (Agrees-later last now limit accepted le agrees) in
    let pass = may_pass limit.max_frames limit.window accepted now in
    let next = if pass then accepted ++ now ∷ [] else accepted in
    let rest = verdicts-Agrees times now (allow_at limit now).1 next step.agrees later in
    rw (step.verdict, rest, step.same_max, step.same_window) refl

-- With instants that do not go back, the limiter answers as one that remembers every accepted frame:
-- a frame passes when fewer than `max_frames` have been accepted less than `window` ago.
pub verdicts-ideal_verdicts :
    (max_frames window start : ℕ) (times : List ℕ)
    → IsMonotone start times
    → verdicts (new_control_limit max_frames window) times
      ≡ ideal_verdicts max_frames window [] times
unfolding new_control_limit
verdicts-ideal_verdicts max_frames window start times h =
    verdicts-Agrees times start (new_control_limit max_frames window) []
      (record { recent = λ now le. refl }) h

-- The instants of a history whose frames pass.
unfoldable pub passed : List Bool → List ℕ → List ℕ
passed [] times = []
passed (pass ∷ answers) [] = []
passed (pass ∷ answers) (now ∷ times) =
    if pass then now ∷ passed answers times else passed answers times

abbrev pub in_window : ℕ → ℕ → ℕ → Bool
in_window window from t = leb from t && ltb t (from + window)

IsBounded : ℕ → ℕ → List ℕ → Type 0
IsBounded max_frames window accepted =
    (from : ℕ) → count (in_window window from) accepted ≤ max_frames

may_pass-IsBounded :
    (max_frames window : ℕ) (accepted : List ℕ) (now : ℕ)
    → may_pass max_frames window accepted now ≡ true
    → IsBounded max_frames window accepted
    → IsBounded max_frames window (accepted ++ now ∷ [])
unfolding may_pass IsBounded is_recent
may_pass-IsBounded max_frames window accepted now pass bounded from =
    let whole = count-append (in_window window from) accepted (now ∷ []) in
    elim (Bool-cases (in_window window from now)) [
      | inl inside ↦
          let few =
            count_le (in_window window from) (is_recent window now) accepted
              (λ t h. ground (arith, inside)) in
          ground (arith, pass, whole, few, inside)
      | inr outside ↦ ground (arith, bounded from, whole, outside)
    ]

ideal_verdicts-IsBounded :
    (max_frames window : ℕ) (times accepted : List ℕ)
    → IsBounded max_frames window accepted
    → IsBounded max_frames window
        (accepted ++ passed (ideal_verdicts max_frames window accepted times) times)
unfolding ideal_verdicts passed
ideal_verdicts-IsBounded max_frames window [] accepted bounded = rw (append-nil accepted) bounded
ideal_verdicts-IsBounded max_frames window (now ∷ times) accepted bounded =
    let next = accepted ++ now ∷ [] in
    elim (Bool-cases (may_pass max_frames window accepted now)) [
      | inl pass ↦ rw pass (
          subst (IsBounded max_frames window)
            (append_assoc accepted (now ∷ [])
              (passed (ideal_verdicts max_frames window next times) times))
            (ideal_verdicts-IsBounded max_frames window times next
              (may_pass-IsBounded max_frames window accepted now pass bounded)))
      | inr refused ↦ rw refused (ideal_verdicts-IsBounded max_frames window times accepted bounded)
    ]

-- With instants that do not go back, no stretch of `window` nanoseconds, wherever it starts, has more
-- than `max_frames` frames that pass.
pub verdicts-IsBounded :
    (max_frames window start : ℕ) (times : List ℕ) (from : ℕ)
    → IsMonotone start times
    → count
        (in_window window from)
        (passed (verdicts (new_control_limit max_frames window) times) times)
      ≤ max_frames
unfolding IsBounded
verdicts-IsBounded max_frames window start times from h =
    rw (verdicts-ideal_verdicts max_frames window start times h)
      (ideal_verdicts-IsBounded max_frames window times [] (λ u. omega arith) from)
