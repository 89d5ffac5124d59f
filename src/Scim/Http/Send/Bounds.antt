-- ===== src/Scim/Http/Send/Bounds.antt =====
-- How often doJSON sends a request, and how long it waits between.
use mathlib.Core.Option
use scimtest.Prelude.{
  ℕ, suc, ◌+◌, ◌≤◌, String, false, Option, [], ◌∷◌, ◌++◌, ◌≡◌, length, All, List, map,
}
use scimtest.Prelude.Int.{ℤ, ltb_ℤ}
use scimtest.Scim.Client.{ScimError}
use scimtest.Scim.Http.{ScimClient, TraceTarget, Request, wrap, join, GoLibrary, Http, Conn}
use scimtest.Scim.Http.Delay.{max_automatic_rate_limit_delay}

-- A wait that doJSON may make by itself.
abbrev pub IsShort : TraceTarget × ℤ × String × ℕ → Type 0
IsShort (target, delay, header, attempt) = ltb_ℤ max_automatic_rate_limit_delay delay ≡ false

-- A world that records how many requests were sent, and the delays that were waited.
pub record Records {W : Type 0} (http : Http W) (calls : W → ℕ) (slept : W → List ℤ) : Type 0 where
  pub exchange_calls : (r : Request) (w : W) → calls (http.exchange r w).1 ≡ suc (calls w)
  pub exchange_slept : (r : Request) (w : W) → slept (http.exchange r w).1 ≡ slept w
  pub wait_calls : (d : ℤ) (w : W) → calls (http.wait d w).1 ≡ calls w
  pub wait_slept : (d : ℤ) (w : W) → slept (http.wait d w).1 ≡ slept w ++ d ∷ []

abbrev Limits : Type 0
Limits = List (TraceTarget × ℤ × String × ℕ)

abbrev pub delays : Limits → List ℤ
delays = map (λ l. l.1)

module _ {W : Type 0} (lib : GoLibrary) (http : Http W) (client : ScimClient) (method path : String)
    (calls : W → ℕ) (slept : W → List ℤ) (recorded : Records http calls slept) where
  -- One request, with its trace.
  record Asks {R : Type 0} (p : Conn W) (r : R × Conn W) : Type 0 where
    calls_one : calls r.1.world ≡ suc (calls p.world)
    traces : length r.1.traces ≤ length p.traces + 1
    waits : r.1.rate_limits ≡ p.rate_limits
    slept_same : slept r.1.world ≡ slept p.world

  -- What doJSON with `left` retries sends, and the calls of onRateLimit that it makes, which tell the
  -- waits.
  record Sends {R : Type 0} (left : ℕ) (p : Conn W) (r : R × Conn W) : Type 0 where
    limits : Limits
    least : suc (calls p.world) ≤ calls r.1.world
    most : calls r.1.world ≤ calls p.world + suc left
    traces : length r.1.traces ≤ length p.traces + suc left
    few : length limits ≤ left
    short : All IsShort limits
    told : r.1.rate_limits ≡ p.rate_limits ++ limits
    waited : slept r.1.world ≡ slept p.world ++ delays limits

  -- The state after an answer that limits the rate, and its wait.
  abbrev paused : Conn W → TraceTarget × ℤ × String × ℕ → W → Conn W
  paused q limit w = record q { world = w; rate_limits = q.rate_limits ++ limit ∷ [] }

  -- The error of a wait that the context ended.
  cut : ScimError → ScimError
  cut e = wrap (λ m. join ("wait for SCIM rate limit retry: " ∷ m ∷ [])) e
