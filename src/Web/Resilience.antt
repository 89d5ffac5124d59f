-- ===== src/Web/Resilience.antt =====
-- The fault injection runs of internal/web/resilience.go: one run for each app, in a map by slug that
-- a lock guards, so that each operation is one step.
pub mod Sound
pub mod Reach
pub mod Presets
use scimtest.Prelude.{
  ℕ, zero, suc, ◌+◌, ◌-◌, String, Bool, true, false, not, ◌&&◌, ◌||◌, Option, none, some, List, [],
  ◌∷◌, ◌++◌, length, ltb, leb, eqb, find, ◌==◌, if◌then◌else◌, trim_space, Result, ok, err,
}
use scimtest.Prelude.Int.{ℤ, pos, pos_part, eqb_ℤ, ltb_ℤ}
use scimtest.Prelude.Dict.{Dict, lookup, insert}
use scimtest.Scim.Http.{join}
use scimtest.Web.Fault.{FaultOptions, Texts, is_active_fault, describe_fault}

-- resilienceRunState
pub data RunState : Type 0 where
  armed : RunState
  running : RunState
  completed : RunState
  disarmed : RunState
  expired : RunState

pub record Action : Type 0 where
  pub run_id : String
  pub faults : FaultOptions
  pub status : ℤ
  pub oauth_error : String
  pub retry_after : String
  pub delay : ℤ
  pub stale_jwks : Bool

unfoldable pub describe_action : Texts → Action → String
unfolding describe_fault is_active_fault
describe_action texts a =
    if a.stale_jwks
    then "JWKS without the current signing key"
    else if not (eqb_ℤ a.status (pos 0))
    then (if not (a.retry_after == "")
        then join ("HTTP " ∷ texts.itoa a.status ∷ " with Retry-After " ∷ a.retry_after ∷ [])
        else join ("HTTP " ∷ texts.itoa a.status ∷ []))
    else if not (eqb_ℤ a.delay (pos 0))
    then join ("delay " ∷ texts.duration a.delay ∷ [])
    else if is_active_fault a.faults
    then describe_fault texts a.faults
    else "healthy response"

pub record Preset : Type 0 where
  pub id : String
  pub name : String
  pub summary : String
  pub protocol : String
  pub phase : String
  pub action : Action
  pub default_count : ℤ
  pub allow_count : Bool

pub record Decision : Type 0 where
  pub time : String
  pub phase : String
  pub outcome : String
  pub detail : String

-- resilienceRun. Its counts are never negative.
pub record Run : Type 0 where
  pub id : String
  pub preset_id : String
  pub name : String
  pub summary : String
  pub protocol : String
  pub phase : String
  pub state : RunState
  pub action : Action
  pub total : ℕ
  pub remaining : ℕ
  pub in_flight : ℕ
  pub armed_at : ℕ
  pub expires_at : ℕ
  pub decisions : List Decision

unfoldable pub is_active_state : RunState → Bool
is_active_state armed = true
is_active_state running = true
is_active_state completed = false
is_active_state disarmed = false
is_active_state expired = false

-- active
unfoldable pub is_active : Run → Bool
unfolding is_active_state
is_active r = is_active_state r.state

-- maxResilienceDecisions
abbrev pub max_resilience_decisions : ℕ
max_resilience_decisions = 20

-- resilienceRunLifetime, in nanoseconds
abbrev pub resilience_run_lifetime : ℕ
resilience_run_lifetime = 900_000_000_000

abbrev pub drop : {A : Type 0} → ℕ → List A → List A
drop zero xs = xs
drop (suc n) [] = []
drop (suc n) (x ∷ xs) = drop n xs

abbrev pub last_of : {A : Type 0} → ℕ → List A → List A
last_of n xs = drop (length xs - n) xs

-- The clock's time in nanoseconds, and its text.
module _ (texts : Texts) (rfc3339 : ℕ → String) where
  unfoldable pub add_decision : String → String → String → ℕ → Run → Run
  add_decision phase outcome detail now r =
      let decisions =
        r.decisions
        ++ record { time = rfc3339 now; phase = phase; outcome = outcome; detail = detail } ∷ [] in
      record r {
        decisions =
            if ltb max_resilience_decisions (length decisions)
            then last_of max_resilience_decisions decisions
            else decisions;
      }

  unfoldable pub expire : ℕ → Run → Run
  unfolding add_decision
  expire now r =
      add_decision "scenario" "expired" "No matching flow arrived before the safety timeout" now
        (record r { state = expired; in_flight = 0 })

  abbrev pub Runs : Type 0
  Runs = Dict Run

  -- The count that is asked for, or the preset's.
  unfoldable pub run_count : Preset → ℤ → ℤ
  run_count p count = if not p.allow_count || eqb_ℤ count (pos 0) then p.default_count else count

  unfoldable pub new_run : String → Preset → ℕ → ℕ → Run
  new_run id p count now = record {
    id = id;
    preset_id = p.id;
    name = p.name;
    summary = p.summary;
    protocol = p.protocol;
    phase = p.phase;
    state = armed;
    action = p.action;
    total = count;
    remaining = count;
    in_flight = 0;
    armed_at = now;
    expires_at = now + resilience_run_lifetime;
    decisions = [];
  }

  -- expire, if the time of an active run is over.
  unfoldable pub is_over : ℕ → Run → Bool
  unfolding is_active
  is_over now r = is_active r && not (ltb now r.expires_at)

  unfoldable pub store_run : String → Run → ℕ → Runs → Option Run → Result String Run × Runs
  unfolding is_active expire insert
  store_run slug run now runs none = (ok run, insert runs slug run)
  store_run slug run now runs (some current) =
      if is_active current && ltb now current.expires_at
      then (err "a fault injection scenario is already active", runs)
      else if is_active current
      then (ok run, insert (insert runs slug (expire now current)) slug run)
      else (ok run, insert runs slug run)

  -- With the ID from randomSecret.
  unfoldable pub arm_with_id :
      String → Preset → ℕ → ℕ → Runs → Result String String → Result String Run × Runs
  unfolding new_run store_run lookup
  arm_with_id slug p count now runs (err e) =
      (err (join ("create resilience run: " ∷ e ∷ [])), runs)
  arm_with_id slug p count now runs (ok id) =
      store_run slug (new_run id p count now) now runs (lookup runs slug)

  unfoldable pub arm_preset :
      String → ℤ → Result String String → ℕ → Runs → Option Preset → Result String Run × Runs
  unfolding run_count arm_with_id
  arm_preset slug count id now runs none = (err "unknown fault injection scenario", runs)
  arm_preset slug count id now runs (some p) =
      if ltb_ℤ (run_count p count) (pos 1) || ltb_ℤ (pos 20) (run_count p count)
      then (err "failure count must be between 1 and 20", runs)
      else arm_with_id slug p (pos_part (run_count p count)) now runs id

  -- armResilienceRun, with the presets.
  unfoldable pub arm_run :
      List Preset → String → String → ℤ → Result String String → ℕ → Runs → Result String Run × Runs
  unfolding arm_preset
  arm_run presets slug preset_id count id now runs =
      arm_preset slug count id now runs (find (λ p. p.id == trim_space preset_id) presets)

  -- resilienceRun
  unfoldable pub observe : String → ℕ → Runs → Option Run → Option Run × Runs
  unfolding is_over expire insert
  observe slug now runs none = (none, runs)
  observe slug now runs (some r) =
      if is_over now r
      then (some (expire now r), insert runs slug (expire now r))
      else (some r, runs)

  unfoldable pub may_apply : String → ℕ → Run → Bool
  unfolding is_active
  may_apply phase now r = is_active r && r.phase == phase && ltb now r.expires_at

  -- takeResilienceFlowFaults
  unfoldable pub take_flow_faults : String → ℕ → Runs → Option Run → Option FaultOptions × Runs
  unfolding may_apply add_decision describe_action insert
  take_flow_faults slug now runs none = (none, runs)
  take_flow_faults slug now runs (some r) =
      if may_apply "flow" now r
      then (
        some r.action.faults,
        insert runs slug (
            add_decision "flow" "injected" (describe_action texts r.action) now
              (record r { state = completed; remaining = 0 })),
      )
      else (none, runs)

  -- reserveResilienceEndpointAction
  unfoldable pub reserve : String → String → ℕ → Runs → Option Run → Option Action × Runs
  unfolding may_apply insert
  reserve slug phase now runs none = (none, runs)
  reserve slug phase now runs (some r) =
      if may_apply phase now r && leb 1 (r.remaining - r.in_flight)
      then (
        some (record r.action { run_id = r.id }),
        insert runs slug (record r { state = running; in_flight = r.in_flight + 1 }),
      )
      else (none, runs)

  -- disarmResilienceRun
  unfoldable pub disarm : String → ℕ → Runs → Option Run → Bool × Runs
  unfolding is_active add_decision insert
  disarm slug now runs none = (false, runs)
  disarm slug now runs (some r) =
      if is_active r
      then (
        true,
        insert runs slug (
            add_decision "scenario" "disarmed" "Disarmed by the developer" now
              (record r { state = disarmed; in_flight = 0 })),
      )
      else (false, runs)

  unfoldable pub finish_if_done : Run → Run
  finish_if_done r =
      if eqb r.remaining 0 && eqb r.in_flight 0 then record r { state = completed } else r

  -- completeResilienceEndpointAction
  unfoldable pub complete : String → String → Action → ℕ → Runs → Option Run → Bool × Runs
  unfolding is_active add_decision finish_if_done describe_action insert
  complete slug phase action now runs none = (false, runs)
  complete slug phase action now runs (some r) =
      if is_active r && r.id == action.run_id && leb 1 r.in_flight && leb 1 r.remaining
      then (
        true,
        insert runs slug (
            finish_if_done (
              add_decision phase "injected" (describe_action texts action) now
                (record r { in_flight = r.in_flight - 1; remaining = r.remaining - 1 }))),
      )
      else (false, runs)

  unfoldable pub rearm_if_unused : Run → Run
  rearm_if_unused r =
      if eqb r.remaining r.total && eqb r.in_flight 0 then record r { state = armed } else r

  -- cancelResilienceEndpointAction
  unfoldable pub cancel : String → String → Action → ℕ → Runs → Option Run → Runs
  unfolding add_decision rearm_if_unused insert
  cancel slug phase action now runs none = runs
  cancel slug phase action now runs (some r) =
      if r.id == action.run_id && leb 1 r.in_flight
      then insert runs slug (
          add_decision phase "canceled" "Request ended before the fault was delivered" now
            (rearm_if_unused (record r { in_flight = r.in_flight - 1 })))
      else runs
