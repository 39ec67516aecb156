-- ===== src/WorldCycle/Labels.antt =====
-- The labels of statuses: what the parsers accept, and that they read back what is printed.
use world_infra.Prelude.{
  true, ◌↔◌, ◌≡◌, List, [], ◌∷◌, any, ok, arith, refl, sym, subst, Bool-cases, inl, inr, All,
}
use world_infra.Text.{Text, codes, text_eq, trim, trim_start, is_whitespace}
use world_infra.Text.Laws.{text_eq_iff}
use world_infra.WorldCycle.Phase
use world_infra.WorldCycle.Followup
use world_infra.WorldCycle.Runtime

-- The labels of a status: its own, and the other names that are read for it.
abbrev pub phase_labels : Phase.CyclePhaseStatus → List Text
phase_labels Phase.complete = codes "complete" ∷ codes "completed" ∷ []
phase_labels status = Phase.as_str status ∷ []

abbrev pub followup_labels : Followup.FollowupRetryStatus → List Text
followup_labels Followup.complete = codes "complete" ∷ codes "completed" ∷ []
followup_labels status = Followup.as_str status ∷ []

abbrev pub runtime_labels : Runtime.CycleRuntimeStatus → List Text
runtime_labels Runtime.open_status = codes "open" ∷ codes "ready" ∷ codes "waiting" ∷ []
runtime_labels Runtime.running = codes "running" ∷ codes "simulating" ∷ codes "processing" ∷ []
runtime_labels Runtime.attention_required =
    codes "attention_required" ∷ codes "failed" ∷ codes "stuck" ∷ []
runtime_labels status = Runtime.as_str status ∷ []

-- What holds of every label in a list holds of a text that is one of them.
any-All :
    (P : Text → Type 0) (label : Text) (labels : List Text)
    → any (text_eq label) labels ≡ true
    → All P labels
    → P label
any-All P label [] h a = cc
any-All P label (l ∷ labels) h a = elim (Bool-cases (text_eq label l)) [
  | inl same ↦ subst P (sym ((text_eq_iff label l).0 same)) a.0
  | inr other ↦ any-All P label labels (ground arith) a.1
]

phase_of_sound :
    (label : Text) (status : Phase.CyclePhaseStatus)
    → Phase.phase_of label ≡ ok status
    → any (text_eq label) (phase_labels status) ≡ true
unfolding Phase.phase_of Phase.as_str
phase_of_sound label Phase.pending h = ground arith
phase_of_sound label Phase.running h = ground arith
phase_of_sound label Phase.applied h = ground arith
phase_of_sound label Phase.complete h = ground arith
phase_of_sound label Phase.failed h = ground arith

phase_of_complete :
    (label : Text) (status : Phase.CyclePhaseStatus)
    → any (text_eq label) (phase_labels status) ≡ true
    → Phase.phase_of label ≡ ok status
unfolding Phase.phase_of Phase.as_str
phase_of_complete label Phase.pending h =
    any-All (λ l. Phase.phase_of l ≡ ok Phase.pending) label (phase_labels Phase.pending) h
      (refl, tt)
phase_of_complete label Phase.running h =
    any-All (λ l. Phase.phase_of l ≡ ok Phase.running) label (phase_labels Phase.running) h
      (refl, tt)
phase_of_complete label Phase.applied h =
    any-All (λ l. Phase.phase_of l ≡ ok Phase.applied) label (phase_labels Phase.applied) h
      (refl, tt)
phase_of_complete label Phase.complete h =
    any-All (λ l. Phase.phase_of l ≡ ok Phase.complete) label (phase_labels Phase.complete) h
      (refl, (refl, tt))
phase_of_complete label Phase.failed h =
    any-All (λ l. Phase.phase_of l ≡ ok Phase.failed) label (phase_labels Phase.failed) h (refl, tt)

followup_of_sound :
    (label : Text) (status : Followup.FollowupRetryStatus)
    → Followup.followup_of label ≡ ok status
    → any (text_eq label) (followup_labels status) ≡ true
unfolding Followup.followup_of Followup.as_str
followup_of_sound label Followup.pending h = ground arith
followup_of_sound label Followup.running h = ground arith
followup_of_sound label Followup.complete h = ground arith
followup_of_sound label Followup.exhausted h = ground arith

followup_of_complete :
    (label : Text) (status : Followup.FollowupRetryStatus)
    → any (text_eq label) (followup_labels status) ≡ true
    → Followup.followup_of label ≡ ok status
unfolding Followup.followup_of Followup.as_str
followup_of_complete label Followup.pending h =
    any-All (λ l. Followup.followup_of l ≡ ok Followup.pending) label
      (followup_labels Followup.pending) h (refl, tt)
followup_of_complete label Followup.running h =
    any-All (λ l. Followup.followup_of l ≡ ok Followup.running) label
      (followup_labels Followup.running) h (refl, tt)
followup_of_complete label Followup.complete h =
    any-All (λ l. Followup.followup_of l ≡ ok Followup.complete) label
      (followup_labels Followup.complete) h (refl, (refl, tt))
followup_of_complete label Followup.exhausted h =
    any-All (λ l. Followup.followup_of l ≡ ok Followup.exhausted) label
      (followup_labels Followup.exhausted) h (refl, tt)

runtime_of_sound :
    (label : Text) (status : Runtime.CycleRuntimeStatus)
    → Runtime.runtime_of label ≡ ok status
    → any (text_eq label) (runtime_labels status) ≡ true
unfolding Runtime.runtime_of Runtime.as_str
runtime_of_sound label Runtime.open_status h = ground arith
runtime_of_sound label Runtime.running h = ground arith
runtime_of_sound label Runtime.finalizing h = ground arith
runtime_of_sound label Runtime.paused h = ground arith
runtime_of_sound label Runtime.attention_required h = ground arith

runtime_of_complete :
    (label : Text) (status : Runtime.CycleRuntimeStatus)
    → any (text_eq label) (runtime_labels status) ≡ true
    → Runtime.runtime_of label ≡ ok status
unfolding Runtime.runtime_of Runtime.as_str
runtime_of_complete label Runtime.open_status h =
    any-All (λ l. Runtime.runtime_of l ≡ ok Runtime.open_status) label
      (runtime_labels Runtime.open_status) h (refl, (refl, (refl, tt)))
runtime_of_complete label Runtime.running h =
    any-All (λ l. Runtime.runtime_of l ≡ ok Runtime.running) label (runtime_labels Runtime.running)
      h (refl, (refl, (refl, tt)))
runtime_of_complete label Runtime.finalizing h =
    any-All (λ l. Runtime.runtime_of l ≡ ok Runtime.finalizing) label
      (runtime_labels Runtime.finalizing) h (refl, tt)
runtime_of_complete label Runtime.paused h =
    any-All (λ l. Runtime.runtime_of l ≡ ok Runtime.paused) label (runtime_labels Runtime.paused) h
      (refl, tt)
runtime_of_complete label Runtime.attention_required h =
    any-All (λ l. Runtime.runtime_of l ≡ ok Runtime.attention_required) label
      (runtime_labels Runtime.attention_required) h (refl, (refl, (refl, tt)))

phase_round_trip :
    (status : Phase.CyclePhaseStatus) → Phase.from_str (Phase.as_str status) ≡ ok status
unfolding Phase.from_str Phase.phase_of Phase.as_str trim trim_start is_whitespace
phase_round_trip Phase.pending = refl
phase_round_trip Phase.running = refl
phase_round_trip Phase.applied = refl
phase_round_trip Phase.complete = refl
phase_round_trip Phase.failed = refl

followup_round_trip :
    (status : Followup.FollowupRetryStatus) → Followup.from_str (Followup.as_str status) ≡ ok status
unfolding Followup.from_str Followup.followup_of Followup.as_str trim trim_start is_whitespace
followup_round_trip Followup.pending = refl
followup_round_trip Followup.running = refl
followup_round_trip Followup.complete = refl
followup_round_trip Followup.exhausted = refl

runtime_round_trip :
    (status : Runtime.CycleRuntimeStatus) → Runtime.from_str (Runtime.as_str status) ≡ ok status
unfolding Runtime.from_str Runtime.runtime_of Runtime.as_str trim trim_start is_whitespace
runtime_round_trip Runtime.open_status = refl
runtime_round_trip Runtime.running = refl
runtime_round_trip Runtime.finalizing = refl
runtime_round_trip Runtime.paused = refl
runtime_round_trip Runtime.attention_required = refl

-- Each parser reads exactly the labels of a status, around which white space does not matter, and
-- reads what is printed back as the status.
pub from_str_iff :
    (value : Text) (phase : Phase.CyclePhaseStatus) (followup : Followup.FollowupRetryStatus)
    (runtime : Runtime.CycleRuntimeStatus)
    → ((Phase.from_str value ≡ ok phase) ↔ (any (text_eq (trim value)) (phase_labels phase) ≡ true))
      × ((Followup.from_str value ≡ ok followup)
          ↔ (any (text_eq (trim value)) (followup_labels followup) ≡ true))
      × ((Runtime.from_str value ≡ ok runtime)
          ↔ (any (text_eq (trim value)) (runtime_labels runtime) ≡ true))
      × (Phase.from_str (Phase.as_str phase) ≡ ok phase)
      × (Followup.from_str (Followup.as_str followup) ≡ ok followup)
      × (Runtime.from_str (Runtime.as_str runtime) ≡ ok runtime)
unfolding Phase.from_str Followup.from_str Runtime.from_str
from_str_iff value phase followup runtime = (
  (phase_of_sound (trim value) phase, phase_of_complete (trim value) phase),
  (followup_of_sound (trim value) followup, followup_of_complete (trim value) followup),
  (runtime_of_sound (trim value) runtime, runtime_of_complete (trim value) runtime),
  phase_round_trip phase,
  followup_round_trip followup,
  runtime_round_trip runtime,
)
