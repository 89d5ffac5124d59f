-- ===== src/Web/Resilience/Sound.antt =====
-- What the counts and the state of a run have to do with each other, operation by operation.
use scimtest.Prelude.{
  ℕ, zero, suc, ◌-◌, ◌≤◌, String, Bool, true, false, ◌&&◌, ◌||◌, Option, none, some, List, [], ◌∷◌,
  ◌++◌, length, ltb, leb, eqb, ◌==◌, if◌then◌else◌, split_if, ◌≡◌, ◌≢◌, refl, sym, subst, ◌∙◌,
  arith, eq_iff, Bool-cases, inl, inr,
}
use scimtest.Prelude.Int.{ℤ, pos, pos_part, ltb_ℤ}
use scimtest.Prelude.Dict.{Dict, lookup, insert, lookup-insert}
use scimtest.Web.Fault.{Texts}
use scimtest.Web.Resilience.{
  RunState, armed, running, completed, disarmed, expired, Action, Preset, Run, Decision, is_active,
  is_active_state, drop, last_of, max_resilience_decisions, add_decision, expire, new_run, is_over,
  store_run, observe, may_apply, take_flow_faults, reserve, disarm, finish_if_done, complete,
  rearm_if_unused, cancel,
}

abbrev is_armed : RunState → Bool
is_armed armed = true
is_armed running = false
is_armed completed = false
is_armed disarmed = false
is_armed expired = false

abbrev is_completed : RunState → Bool
is_completed armed = false
is_completed running = false
is_completed completed = true
is_completed disarmed = false
is_completed expired = false

-- What the counts and the state of a run have to do with each other.
abbrev pub IsCounted : ℕ → ℕ → ℕ → RunState → Bool → Type 0
IsCounted total remaining in_flight state flow =
    (1 ≤ total)
    × (total ≤ 20)
    × (remaining ≤ total)
    × (in_flight ≤ remaining)
    × (is_active_state state ≡ false → in_flight ≡ 0)
    × (flow ≡ true → in_flight ≡ 0)
    × (is_armed state ≡ true → (remaining ≡ total) × (in_flight ≡ 0))
    × (is_completed state ≡ true → remaining ≡ 0)

pub record IsSound (r : Run) : Type 0 where
  pub counts : IsCounted r.total r.remaining r.in_flight r.state (r.phase == "flow")
  pub decisions : length r.decisions ≤ max_resilience_decisions

length-drop : {A : Type 0} (n : ℕ) (xs : List A) → length (drop n xs) ≡ length xs - n
length-drop zero xs = omega arith
length-drop (suc n) [] = omega arith
length-drop (suc n) (x ∷ xs) = omega (arith, length-drop n xs)

capped :
    (ds : List Decision)
    → length (
        if ltb max_resilience_decisions (length ds)
        then last_of max_resilience_decisions ds
        else ds)
      ≤ max_resilience_decisions
capped ds = ground (arith, length-drop (length ds - max_resilience_decisions) ds)

module _ (texts : Texts) (rfc3339 : ℕ → String) where
  add_decision-IsSound :
      (phase outcome detail : String) (now : ℕ) (r : Run)
      → IsCounted r.total r.remaining r.in_flight r.state (r.phase == "flow")
      → IsSound (add_decision texts rfc3339 phase outcome detail now r)
  unfolding add_decision
  add_decision-IsSound phase outcome detail now r h = record {
    counts = h;
    decisions = capped (
        r.decisions
        ++ record { time = rfc3339 now; phase = phase; outcome = outcome; detail = detail } ∷ []);
  }

  expire-IsSound : (now : ℕ) (r : Run) → IsSound r → IsSound (expire texts rfc3339 now r)
  unfolding expire
  expire-IsSound now r h =
      add_decision-IsSound _ _ _ now (record r { state = expired; in_flight = 0 })
        (ground (arith, h.counts))

  abbrev pub AllSound : Dict Run → Type 0
  AllSound runs = (slug : String) (r : Run) → lookup runs slug ≡ some r → IsSound r

  abbrev pub AfterSound : {A : Type 0} → A × Dict Run → Type 0
  AfterSound x = AllSound x.1

  insert-AllSound :
      (runs : Dict Run) (slug : String) (r : Run)
      → AllSound runs
      → IsSound r
      → AllSound (insert runs slug r)
  insert-AllSound runs slug r h k s q e =
      let e' : (if slug == s then some r else lookup runs s) ≡ some q =
        sym (lookup-insert runs slug s r) ∙ e in
      elim (Bool-cases (slug == s)) [
        | inl b ↦ let same : some r ≡ some q = cc (b, e') in subst IsSound (cc same) k
        | inr b ↦ h s q (cc (b, e'))
      ]

  pub new_run-IsSound :
      (id : String) (p : Preset) (count : ℤ) (now : ℕ)
      → (ltb_ℤ count (pos 1) || ltb_ℤ (pos 20) count) ≡ false
      → IsSound (new_run texts rfc3339 id p (pos_part count) now)
  unfolding new_run
  new_run-IsSound id p count now h = record { counts = ground (arith, h); decisions = omega arith }

  pub store_run-AllSound :
      (slug : String) (r : Run) (now : ℕ) (runs : Dict Run) (o : Option Run)
      → AllSound runs
      → ((q : Run) → o ≡ some q → IsSound q)
      → IsSound r
      → AllSound (store_run texts rfc3339 slug r now runs o).1
  unfolding store_run
  store_run-AllSound slug r now runs none h k sound = insert-AllSound runs slug r h sound
  store_run-AllSound slug r now runs (some c) h k sound =
      split_if AfterSound (is_active c && ltb now c.expires_at) _ _ (λ _. h)
        (λ _.
          split_if AfterSound (is_active c) _ _
            (λ _.
              insert-AllSound _ slug r
                (insert-AllSound runs slug (expire texts rfc3339 now c) h
                  (expire-IsSound now c (k c refl)))
                sound)
            (λ _. insert-AllSound runs slug r h sound))

  pub observe-AllSound :
      (slug : String) (now : ℕ) (runs : Dict Run) (o : Option Run)
      → AllSound runs
      → ((q : Run) → o ≡ some q → IsSound q)
      → AllSound (observe texts rfc3339 slug now runs o).1
  unfolding observe
  observe-AllSound slug now runs none h k = h
  observe-AllSound slug now runs (some r) h k =
      split_if AfterSound (is_over texts rfc3339 now r) _ _
        (λ _. insert-AllSound runs slug _ h (expire-IsSound now r (k r refl))) (λ _. h)

  pub take_flow_faults-AllSound :
      (slug : String) (now : ℕ) (runs : Dict Run) (o : Option Run)
      → AllSound runs
      → ((q : Run) → o ≡ some q → IsSound q)
      → AllSound (take_flow_faults texts rfc3339 slug now runs o).1
  unfolding take_flow_faults may_apply
  take_flow_faults-AllSound slug now runs none h k = h
  take_flow_faults-AllSound slug now runs (some r) h k =
      split_if AfterSound (may_apply texts rfc3339 "flow" now r) _ _
        (λ b. insert-AllSound runs slug _ h (
          add_decision-IsSound _ _ _ now (record r { state = completed; remaining = 0 })
            (ground (arith, b, (k r refl).counts))))
        (λ _. h)

  pub reserve-AllSound :
      (slug phase : String) (now : ℕ) (runs : Dict Run) (o : Option Run)
      → phase ≢ "flow"
      → AllSound runs
      → ((q : Run) → o ≡ some q → IsSound q)
      → AllSound (reserve texts rfc3339 slug phase now runs o).1
  unfolding reserve may_apply
  reserve-AllSound slug phase now runs none other h k = h
  reserve-AllSound slug phase now runs (some r) other h k =
      split_if AfterSound (may_apply texts rfc3339 phase now r && leb 1 (r.remaining - r.in_flight))
        _ _
        (λ b. insert-AllSound runs slug _ h (record {
          counts =
              ground
                (arith, b, other, (k r refl).counts, eq_iff r.phase phase, eq_iff r.phase "flow");
          decisions = (k r refl).decisions;
        }))
        (λ _. h)

  pub disarm-AllSound :
      (slug : String) (now : ℕ) (runs : Dict Run) (o : Option Run)
      → AllSound runs
      → ((q : Run) → o ≡ some q → IsSound q)
      → AllSound (disarm texts rfc3339 slug now runs o).1
  unfolding disarm
  disarm-AllSound slug now runs none h k = h
  disarm-AllSound slug now runs (some r) h k =
      split_if AfterSound (is_active r) _ _
        (λ _. insert-AllSound runs slug _ h (
          add_decision-IsSound _ _ _ now (record r { state = disarmed; in_flight = 0 })
            (ground (arith, (k r refl).counts))))
        (λ _. h)

  finish-IsSound : (r : Run) → IsSound r → IsSound (finish_if_done texts rfc3339 r)
  unfolding finish_if_done
  finish-IsSound r h =
      split_if IsSound (eqb r.remaining 0 && eqb r.in_flight 0) _ _
        (λ b. record { counts = ground (arith, b, h.counts); decisions = h.decisions }) (λ _. h)

  pub complete-AllSound :
      (slug phase : String) (action : Action) (now : ℕ) (runs : Dict Run) (o : Option Run)
      → AllSound runs
      → ((q : Run) → o ≡ some q → IsSound q)
      → AllSound (complete texts rfc3339 slug phase action now runs o).1
  unfolding complete is_active
  complete-AllSound slug phase action now runs none h k = h
  complete-AllSound slug phase action now runs (some r) h k =
      split_if AfterSound
        (is_active r && r.id == action.run_id && leb 1 r.in_flight && leb 1 r.remaining) _ _
        (λ b. insert-AllSound runs slug _ h (
          finish-IsSound _ (
            add_decision-IsSound _ _ _ now
              (record r { in_flight = r.in_flight - 1; remaining = r.remaining - 1 })
              (ground (arith, b, (k r refl).counts)))))
        (λ _. h)

  abbrev Counted : Run → Type 0
  Counted r = IsCounted r.total r.remaining r.in_flight r.state (r.phase == "flow")

  rearm-Counted : (r : Run) → Counted r → Counted (rearm_if_unused texts rfc3339 r)
  unfolding rearm_if_unused
  rearm-Counted r h =
      split_if Counted (eqb r.remaining r.total && eqb r.in_flight 0) _ r
        (λ b. ground (arith, b, h)) (λ _. h)

  pub cancel-AllSound :
      (slug phase : String) (action : Action) (now : ℕ) (runs : Dict Run) (o : Option Run)
      → AllSound runs
      → ((q : Run) → o ≡ some q → IsSound q)
      → AllSound (cancel texts rfc3339 slug phase action now runs o)
  unfolding cancel rearm_if_unused
  cancel-AllSound slug phase action now runs none h k = h
  cancel-AllSound slug phase action now runs (some r) h k =
      split_if AllSound (r.id == action.run_id && leb 1 r.in_flight) _ _
        (λ b. insert-AllSound runs slug _ h (
          add_decision-IsSound phase "canceled" "Request ended before the fault was delivered" now
            (rearm_if_unused texts rfc3339 (record r { in_flight = r.in_flight - 1 }))
            (rearm-Counted (record r { in_flight = r.in_flight - 1 })
              (ground (arith, b, (k r refl).counts)))))
        (λ _. h)
