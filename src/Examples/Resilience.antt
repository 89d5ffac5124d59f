-- ===== src/Examples/Resilience.antt =====
-- The theorem on the runs at a sequence of operations.
use scimtest.Prelude.{ℕ, String, Option, none, some, [], ok, ◌≡◌, ◌≢◌, refl, arith, eq_iff}
use scimtest.Prelude.Text.{trim_space}
use scimtest.Prelude.Int.{pos}
use scimtest.Prelude.Dict.{Dict, lookup, insert}
use scimtest.Web.Fault.{Texts}
use scimtest.Web.Resilience.{Run, armed, arm_run, reserve}
use scimtest.Web.Resilience.Presets.{token_outage, resilience_presets}
use scimtest.Web.Resilience.Sound.{IsSound}
use scimtest.Web.Resilience.Reach.{start, after, arming, reserving, Reached-IsSound}

abbrev texts : Texts
texts = record { duration = λ d. "1s"; itoa = λ n. "503"; after_last_colon = λ s. s }

abbrev clock : ℕ → String
clock now = "2024-01-01T00:00:00Z"

abbrev once : Dict Run
once = (arm_run texts clock resilience_presets "hr" "token-outage" (pos 2) (ok "run1") 0 []).1

-- One scenario is armed, and a request to the token endpoint reserves an injection.
abbrev twice : Dict Run
twice = (reserve texts clock "hr" "token" 1 once (lookup once "hr")).1

from_some : Option Run → Run
from_some (some r) = r
from_some none = record {
  id = "";
  preset_id = "";
  name = "";
  summary = "";
  protocol = "";
  phase = "";
  state = armed;
  action = token_outage.action;
  total = 0;
  remaining = 0;
  in_flight = 0;
  armed_at = 0;
  expires_at = 0;
  decisions = [];
}

abbrev run : Run
run = from_some (lookup twice "hr")

token : ◌≢◌ {A = String} "token" "flow"
token e = ground (arith, e, eq_iff "token" "flow")

there : lookup twice "hr" ≡ some run
unfolding lookup insert reserve arm_run from_some trim_space
there = refl

Reached-IsSound_example : IsSound run
Reached-IsSound_example =
    Reached-IsSound texts clock twice "hr" run
      (after (after start (arming resilience_presets "hr" "token-outage" (pos 2) (ok "run1") 0))
        (reserving "hr" "token" 1 token))
      there
