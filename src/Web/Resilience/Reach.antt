-- ===== src/Web/Resilience/Reach.antt =====
-- The runs that any sequence of operations can reach.
use scimtest.Prelude.{
  ℕ, String, ◌||◌, Option, none, some, List, [], find, ◌==◌, split_if, trim_space, Result, ok, err,
  ◌≡◌, ◌≢◌,
}
use scimtest.Prelude.Int.{ℤ, pos, pos_part, ltb_ℤ}
use scimtest.Prelude.Dict.{Dict, lookup}
use scimtest.Web.Fault.{Texts}
use scimtest.Web.Resilience.{
  Action, Preset, Run, run_count, new_run, arm_with_id, arm_preset, arm_run, observe,
  take_flow_faults, reserve, disarm, complete, cancel,
}
use scimtest.Web.Resilience.Sound.{
  IsSound, AllSound, AfterSound, new_run-IsSound, store_run-AllSound, observe-AllSound,
  take_flow_faults-AllSound, reserve-AllSound, disarm-AllSound, complete-AllSound, cancel-AllSound,
}

module _ (texts : Texts) (rfc3339 : ℕ → String) where
  -- One operation, at any time and with any arguments. The endpoints reserve their own phases, never
  -- that of a whole flow.
  pub data Step (runs : Dict Run) : Dict Run → Type 0 where
    arming :
        (presets : List Preset) (slug preset_id : String) (count : ℤ) (id : Result String String)
        (now : ℕ)
        → Step runs (arm_run texts rfc3339 presets slug preset_id count id now runs).1
    observing :
        (slug : String) (now : ℕ)
        → Step runs (observe texts rfc3339 slug now runs (lookup runs slug)).1
    taking :
        (slug : String) (now : ℕ)
        → Step runs (take_flow_faults texts rfc3339 slug now runs (lookup runs slug)).1
    reserving :
        (slug phase : String) (now : ℕ)
        → phase ≢ "flow"
        → Step runs (reserve texts rfc3339 slug phase now runs (lookup runs slug)).1
    disarming :
        (slug : String) (now : ℕ)
        → Step runs (disarm texts rfc3339 slug now runs (lookup runs slug)).1
    completing :
        (slug phase : String) (action : Action) (now : ℕ)
        → Step runs (complete texts rfc3339 slug phase action now runs (lookup runs slug)).1
    canceling :
        (slug phase : String) (action : Action) (now : ℕ)
        → Step runs (cancel texts rfc3339 slug phase action now runs (lookup runs slug))

  pub data Reached : Dict Run → Type 0 where
    start : Reached []
    after : {runs next : Dict Run} → Reached runs → Step runs next → Reached next

  arm_with_id-AllSound :
      (slug : String) (p : Preset) (count : ℕ) (now : ℕ) (runs : Dict Run)
      (id : Result String String)
      → AllSound texts rfc3339 runs
      → ((secret : String) → IsSound (new_run texts rfc3339 secret p count now))
      → AfterSound texts rfc3339 (arm_with_id texts rfc3339 slug p count now runs id)
  unfolding arm_with_id
  arm_with_id-AllSound slug p count now runs (err e) h k = h
  arm_with_id-AllSound slug p count now runs (ok id) h k =
      store_run-AllSound texts rfc3339 slug (new_run texts rfc3339 id p count now) now runs
        (lookup runs slug) h (h slug) (k id)

  arm_preset-AllSound :
      (slug : String) (count : ℤ) (id : Result String String) (now : ℕ) (runs : Dict Run)
      (p : Option Preset)
      → AllSound texts rfc3339 runs
      → AfterSound texts rfc3339 (arm_preset texts rfc3339 slug count id now runs p)
  unfolding arm_preset
  arm_preset-AllSound slug count id now runs none h = h
  arm_preset-AllSound slug count id now runs (some p) h =
      let n = run_count texts rfc3339 p count in
      split_if (AfterSound texts rfc3339) (ltb_ℤ n (pos 1) || ltb_ℤ (pos 20) n) _ _ (λ _. h)
        (λ b.
          arm_with_id-AllSound slug p (pos_part n) now runs id h
            (λ secret. new_run-IsSound texts rfc3339 secret p n now b))

  Step-AllSound :
      {runs next : Dict Run}
      → Step runs next
      → AllSound texts rfc3339 runs
      → AllSound texts rfc3339 next
  unfolding arm_run
  Step-AllSound {runs} (arming presets slug preset_id count id now) h =
      arm_preset-AllSound slug count id now runs (find (λ p. p.id == trim_space preset_id) presets)
        h
  Step-AllSound {runs} (observing slug now) h =
      observe-AllSound texts rfc3339 slug now runs (lookup runs slug) h (h slug)
  Step-AllSound {runs} (taking slug now) h =
      take_flow_faults-AllSound texts rfc3339 slug now runs (lookup runs slug) h (h slug)
  Step-AllSound {runs} (reserving slug phase now other) h =
      reserve-AllSound texts rfc3339 slug phase now runs (lookup runs slug) other h (h slug)
  Step-AllSound {runs} (disarming slug now) h =
      disarm-AllSound texts rfc3339 slug now runs (lookup runs slug) h (h slug)
  Step-AllSound {runs} (completing slug phase action now) h =
      complete-AllSound texts rfc3339 slug phase action now runs (lookup runs slug) h (h slug)
  Step-AllSound {runs} (canceling slug phase action now) h =
      cancel-AllSound texts rfc3339 slug phase action now runs (lookup runs slug) h (h slug)

  Reached-AllSound : {runs : Dict Run} → Reached runs → AllSound texts rfc3339 runs
  unfolding lookup
  Reached-AllSound start = λ slug r e. cc e
  Reached-AllSound (after h s) = Step-AllSound s (Reached-AllSound h)

  -- Whatever operations there were, in any order and interleaving of requests, and at any times: a
  -- run has between 1 and 20 injections, no more requests in flight than injections that remain, and
  -- none in flight once it is over; an armed run is unused, a completed one has nothing left, and it
  -- keeps at most 20 decisions. The phase of a reservation is never that of a whole flow.
  pub Reached-IsSound :
      (runs : Dict Run) (slug : String) (r : Run)
      → Reached runs
      → lookup runs slug ≡ some r
      → IsSound r
  Reached-IsSound runs slug r h = Reached-AllSound h slug r
