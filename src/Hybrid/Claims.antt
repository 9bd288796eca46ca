-- ===== src/Hybrid/Claims.antt =====
-- The grounding of a rationale (agent/hybrid.py `_episode_ok_for_claim` and part 11.4 of
-- `verify_proposal`).
use Prim.Native.Char.{code}
use Prim.Native.String.{[] as no_text, ◌∷◌ as ◌then◌, ◌++◌ as ◌^◌}
use bridgesat_agent.Common.{
  ltb, Bool, true, false, not, ◌&&◌, ◌||◌, String, Option, none, some, List, [], ◌∷◌, ◌++◌,
  if◌then◌else◌, ◌==◌, nat_eq, string_eq, option_eq, contains, lookup,
}
use bridgesat_agent.Learner.{below}
use bridgesat_agent.Memory.{value}
use bridgesat_agent.Outbox.Rows.{decimal}
use bridgesat_agent.Hybrid.Types.{InterventionStat, Context, Episode, Evidence, Claim, Proposal}

-- `pattern in text`
unfoldable pub begins : String → String → Bool
begins no_text t = true
begins (c then p) no_text = false
begins (c then p) (d then t) = code c == code d && begins p t

unfoldable pub occurs : String → String → Bool
occurs p no_text = begins p no_text
occurs p (d then t) = begins p (d then t) || occurs p t

-- `PROHIBITED_CLAIM_PATTERNS`
abbrev pub prohibited_claim_patterns : List String
prohibited_claim_patterns =
    "human approved" ∷ "human-approved" ∷ "permanent weakness" ∷ "permanent" ∷ "always needs"
    ∷ "always makes" ∷ "careless" ∷ "weak student" ∷ "low ability" ∷ "ignore all previous"
    ∷ "ignore previous instructions" ∷ "reveal the answer" ∷ "grant yourself admin"
    ∷ "sat score gain" ∷ "sat score" ∷ "improved your score" ∷ "worked three times"
    ∷ "worked 3 times" ∷ []

-- `EPISODE_CLAIM_CODES`
abbrev pub episode_claim_codes : List String
episode_claim_codes =
    "SAME_MISCONCEPTION" ∷ "SUCCESSFUL_TRANSFER" ∷ "SUPPORTED_INTERVENTION_EFFECT" ∷ []

unfoldable pub has_pattern : String → List String → Bool
has_pattern text [] = false
has_pattern text (p ∷ rest) = occurs p text || has_pattern text rest

-- The episode belongs to another student than the expected one.
unfoldable pub is_foreign : Option String → Episode → Bool
is_foreign none episode = false
is_foreign (some student_id) episode = not (episode.student_id == student_id)

-- A supported statistic for the intervention of the episode in this context.
unfoldable pub is_supported : Context → Episode → List InterventionStat → Bool
is_supported context episode [] = false
is_supported context episode (s ∷ rest) =
    (value s.intervention == episode.intervention
      && s.skill == some context.skill
      && s.misconception == context.active_misconception
      && s.difficulty_band == "d" ^ decimal context.difficulty
      && s.support == "supported")
    || is_supported context episode rest

abbrev pub is_nil : List InterventionStat → Bool
is_nil [] = true
is_nil (s ∷ rest) = false

-- `_episode_ok_for_claim`: the reason why the episode does not carry the claim, if any.
unfoldable pub claim_fault : String → Episode → Context → Option String → Option String
claim_fault claim_code episode context expected_student_id =
    if is_foreign expected_student_id episode
    then some "claim_foreign_episode"
    else if not (episode.skill == context.skill)
    then some "claim_skill_mismatch"
    else if not (episode.misconception == context.active_misconception)
    then some "claim_misconception_mismatch"
    else if claim_code == "SAME_MISCONCEPTION"
    then none
    else if claim_code == "SUCCESSFUL_TRANSFER"
    then if not episode.outcome_correct
      then some "claim_episode_not_successful"
      else if not episode.different_item
      then some "claim_not_transfer"
      else if below episode.effectiveness 60 || below episode.confidence 50
      then some "claim_weak_evidence"
      else none
    else if claim_code == "SUPPORTED_INTERVENTION_EFFECT"
    then if is_nil context.intervention_stats
      then some "claim_no_supported_stat"
      else if is_supported context episode context.intervention_stats
      then none
      else some "claim_stat_insufficient"
    else some "claim_code_unknown"

-- What the checks give: the rationale's standing and the log, or the rejection of the proposal.
pub data Grounded : Type 0 where
  grounded : Bool → List String → Grounded
  refused : String → List String → Grounded

abbrev pub and_then : Grounded → (Bool → List String → Grounded) → Grounded
and_then (grounded ok checks) f = f ok checks
and_then (refused reason checks) f = refused reason checks

-- A claim that the episode does not carry: about the selected episode it ends the verification.
abbrev pub weigh_fault : Proposal → String → Option String → Bool → List String → Grounded
weigh_fault proposal ref none ok checks = grounded ok checks
weigh_fault proposal ref (some reason) ok checks =
    if some ref == proposal.selected_episode_id
    then refused reason (checks ++ reason ∷ [])
    else grounded false (checks ++ reason ∷ [])

-- One reference of a claim about episodes
unfoldable pub check_ref :
    Evidence → Context → Proposal → String → String → Bool → List String → Grounded
check_ref evidence context proposal claim_code ref ok checks = elim (lookup ref evidence.episodes) [
  | none ↦ grounded false (checks ++ "claim_ref_not_in_candidates" ∷ [])
  | some episode ↦
      weigh_fault proposal ref (claim_fault claim_code episode context evidence.expected_student_id)
        ok checks
]

unfoldable pub check_refs :
    Evidence → Context → Proposal → String → List String → Bool → List String → Grounded
check_refs evidence context proposal claim_code [] ok checks = grounded ok checks
check_refs evidence context proposal claim_code (ref ∷ refs) ok checks =
    and_then (check_ref evidence context proposal claim_code ref ok checks)
      (λ ok' checks'. check_refs evidence context proposal claim_code refs ok' checks')

abbrev pub has_signal : Context → Bool
has_signal context =
    ltb 0 context.hints_used
    || ltb 0 context.consecutive_errors
    || ltb 0 context.correct_streak
    || ltb 0 context.misconception_evidence_count

unfoldable pub cites_episode : Evidence → List String → Bool
cites_episode evidence [] = false
cites_episode evidence (ref ∷ refs) = elim (lookup ref evidence.episodes) [
  | some _ ↦ true
  | none ↦ cites_episode evidence refs
]

abbrev pub note : Bool → String → Bool × List String → Bool × List String
note bad reason (ok, checks) = if bad then (false, checks ++ reason ∷ []) else (ok, checks)

abbrev pub is_without_refs : List String → Bool
is_without_refs [] = true
is_without_refs (x ∷ xs) = false

-- One claim
unfoldable pub check_claim : Evidence → Context → Proposal → Claim → Bool → List String → Grounded
check_claim evidence context proposal claim ok checks =
    if is_without_refs claim.evidence_refs
    then grounded false (checks ++ "claim_without_evidence" ∷ [])
    else if contains episode_claim_codes claim.claim_code
    then check_refs evidence context proposal claim.claim_code claim.evidence_refs ok checks
    else if claim.claim_code == "BEHAVIORAL_LEARNING_SIGNAL"
        || claim.claim_code == "STUDENT_REASONING_SIGNAL"
    then (let (ok', checks') =
          note (cites_episode evidence claim.evidence_refs) "claim_cites_episode_as_signal"
            (note (not (has_signal context)) "claim_no_behavioral_signal" (ok, checks)) in
        grounded ok' checks')
    else grounded ok checks

unfoldable pub check_claims :
    Evidence → Context → Proposal → List Claim → Bool → List String → Grounded
check_claims evidence context proposal [] ok checks = grounded ok checks
check_claims evidence context proposal (claim ∷ claims) ok checks =
    and_then (check_claim evidence context proposal claim ok checks)
      (λ ok' checks'. check_claims evidence context proposal claims ok' checks')
