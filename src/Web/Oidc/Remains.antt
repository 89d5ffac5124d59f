-- ===== src/Web/Oidc/Remains.antt =====
-- What is left of a code and of a refresh token under one value, however the maps change around them.
use scimtest.Prelude.{
  ℕ, String, Bool, false, Option, none, some, ◌==◌, ◌≡◌, ◌≢◌, refl, sym, subst, ap, ◌∙◌, eq_iff,
  Result, ok, err, split_if,
}
use scimtest.Prelude.Dict.{
  Dict, lookup, insert, remove, retain, keep_if, lookup-insert, lookup-remove, lookup-retain,
}
use scimtest.Web.Oidc.{AuthCode, RefreshToken, Idp, prune, new_code, store_code}
use scimtest.Web.Oidc.Inject.{Grant, code, refresh, client, mark_code, mark_refresh, set_redeeming}

-- Nothing, or what there was, but for a mark that it is being redeemed.
abbrev pub Remains : {V : Type 0} → (V → V) → Option V → Option V → Type 0
Remains unmarked o none = Unit
Remains unmarked none (some y) = ⊥
Remains unmarked (some x) (some y) = unmarked x ≡ unmarked y

pub Remains-refl : {V : Type 0} (f : V → V) (o : Option V) → Remains f o o
Remains-refl f none = tt
Remains-refl f (some x) = refl

pub Remains-none : {V : Type 0} (f : V → V) (o : Option V) → Remains f none o → o ≡ none
Remains-none f none h = refl
Remains-none f (some x) h = elim h [ ]

Remains-trans :
    {V : Type 0} (f : V → V) (o p q : Option V) → Remains f o p → Remains f p q → Remains f o q
Remains-trans f o p none h k = tt
Remains-trans f none (some y) (some z) h k = h
Remains-trans f none none (some z) h k = k
Remains-trans f (some x) none (some z) h k = elim k [ ]
Remains-trans f (some x) (some y) (some z) h k = h ∙ k

Remains-keep_if :
    {V : Type 0} (f : V → V) (p : V → Bool) (o q : Option V)
    → Remains f o q
    → Remains f o (keep_if p q)
Remains-keep_if f p o none h = tt
Remains-keep_if f p o (some y) h = split_if (Remains f o) (p y) (some y) none (λ _. h) (λ _. tt)

Remains-remove :
    {V : Type 0} (f : V → V) (o : Option V) (m : Dict V) (k v : String)
    → Remains f o (lookup m v)
    → Remains f o (lookup (remove m k) v)
Remains-remove f o m k v h =
    subst (Remains f o) (sym (lookup-remove m k v))
      (split_if (Remains f o) (k == v) none (lookup m v) (λ _. tt) (λ _. h))

Remains-retain :
    {V : Type 0} (f : V → V) (o : Option V) (p : V → Bool) (m : Dict V) (v : String)
    → Remains f o (lookup m v)
    → Remains f o (lookup (retain p m) v)
Remains-retain f o p m v h =
    subst (Remains f o) (sym (lookup-retain p m v)) (Remains-keep_if f p o (lookup m v) h)

Remains-insert :
    {V : Type 0} (f : V → V) (o : Option V) (m : Dict V) (k v : String) (x : V)
    → k ≢ v
    → Remains f o (lookup m v)
    → Remains f o (lookup (insert m k x) v)
Remains-insert f o m k v x other h = subst (Remains f o) (sym (lookup-insert m k v x)) (
    split_if (Remains f o) (k == v) (some x) (lookup m v) (λ e. elim (other ((eq_iff k v).0 e)) [ ])
      (λ _. h))

Remains-mark :
    {V : Type 0} (f : V → V) (o : Option V) (m : Dict V) (k v : String) (x y : V)
    → lookup m k ≡ some x
    → f x ≡ f y
    → Remains f o (lookup m v)
    → Remains f o (lookup (insert m k y) v)
Remains-mark f o m k v x y found e h = subst (Remains f o) (sym (lookup-insert m k v y)) (
    split_if (Remains f o) (k == v) (some y) (lookup m v)
      (λ same.
        Remains-trans f o (some x) (some y)
          (subst (Remains f o) (ap (lookup m) (sym ((eq_iff k v).0 same)) ∙ found) h) e)
      (λ _. h))

abbrev pub unmarked_code : AuthCode → AuthCode
unmarked_code c = record c { redeeming = false }

abbrev pub unmarked_refresh : RefreshToken → RefreshToken
unmarked_refresh t = record t { redeeming = false }

-- What a state still has under a value, for a code and a refresh token that were there.
abbrev pub Left : String → Option AuthCode → Option RefreshToken → Idp → Type 0
Left v o p s =
    Remains unmarked_code o (lookup s.auth_codes v)
    × Remains unmarked_refresh p (lookup s.refresh_tokens v)

-- What is left after a call that returns a value and a state.
abbrev pub AfterLeft :
    {A : Type 0} → String → Option AuthCode → Option RefreshToken → A × Idp → Type 0
AfterLeft v o p (_, s) = Left v o p s

pub Left-refl :
    (v : String) (s : Idp) → Left v (lookup s.auth_codes v) (lookup s.refresh_tokens v) s
Left-refl v s = (
  Remains-refl unmarked_code (lookup s.auth_codes v),
  Remains-refl unmarked_refresh (lookup s.refresh_tokens v),
)

pub Left-trans :
    (v : String) (o : Option AuthCode) (p : Option RefreshToken) (s t : Idp)
    → Left v o p s
    → Left v (lookup s.auth_codes v) (lookup s.refresh_tokens v) t
    → Left v o p t
Left-trans v o p s t h k = (
  Remains-trans unmarked_code o (lookup s.auth_codes v) (lookup t.auth_codes v) h.0 k.0,
  Remains-trans unmarked_refresh p (lookup s.refresh_tokens v) (lookup t.refresh_tokens v) h.1 k.1,
)

module _ (v : String) (o : Option AuthCode) (p : Option RefreshToken) where
  pub prune-Left : (now : ℕ) (s : Idp) → Left v o p s → Left v o p (prune now s)
  unfolding prune
  prune-Left now s h = (
    Remains-retain unmarked_code o _ s.auth_codes v h.0,
    Remains-retain unmarked_refresh p _ s.refresh_tokens v h.1,
  )

  pub store_code-Left :
      (now : ℕ) (c : AuthCode) (value : Result String String) (s : Idp)
      → value ≢ ok v
      → Left v o p s
      → Left v o p (store_code now c value s).1
  unfolding store_code
  store_code-Left now c (err e) s fresh h = h
  store_code-Left now c (ok w) s fresh h = (
    Remains-insert unmarked_code o s.auth_codes w v (new_code now c) (λ e. fresh (ap ok e)) h.0,
    h.1,
  )

  mark_code-Remains :
      (k : String) (b : Bool) (codes : Dict AuthCode) (found : Option AuthCode)
      → lookup codes k ≡ found
      → Remains unmarked_code o (lookup codes v)
      → Remains unmarked_code o (lookup (mark_code k b codes found) v)
  unfolding mark_code
  mark_code-Remains k b codes none e h = h
  mark_code-Remains k b codes (some c) e h =
      Remains-mark unmarked_code o codes k v c (record c { redeeming = b }) e refl h

  mark_refresh-Remains :
      (k : String) (b : Bool) (tokens : Dict RefreshToken) (found : Option RefreshToken)
      → lookup tokens k ≡ found
      → Remains unmarked_refresh p (lookup tokens v)
      → Remains unmarked_refresh p (lookup (mark_refresh k b tokens found) v)
  unfolding mark_refresh
  mark_refresh-Remains k b tokens none e h = h
  mark_refresh-Remains k b tokens (some t) e h =
      Remains-mark unmarked_refresh p tokens k v t (record t { redeeming = b }) e refl h

  pub set_redeeming-Left :
      (grant : Grant) (b : Bool) (s : Idp) → Left v o p s → Left v o p (set_redeeming grant b s)
  unfolding set_redeeming
  set_redeeming-Left (code k) b s h =
      (mark_code-Remains k b s.auth_codes (lookup s.auth_codes k) refl h.0, h.1)
  set_redeeming-Left (refresh k) b s h =
      (h.0, mark_refresh-Remains k b s.refresh_tokens (lookup s.refresh_tokens k) refl h.1)
  set_redeeming-Left client b s h = h

  pub without_code-Left :
      (k : String) (s : Idp)
      → Left v o p s
      → Left v o p (record s { auth_codes = remove s.auth_codes k })
  without_code-Left k s h = (Remains-remove unmarked_code o s.auth_codes k v h.0, h.1)

  pub without_refresh-Left :
      (k : String) (s : Idp)
      → Left v o p s
      → Left v o p (record s { refresh_tokens = remove s.refresh_tokens k })
  without_refresh-Left k s h = (h.0, Remains-remove unmarked_refresh p s.refresh_tokens k v h.1)

  pub keep_refresh-Left :
      (keep : RefreshToken → Bool) (s : Idp)
      → Left v o p s
      → Left v o p (record s { refresh_tokens = retain keep s.refresh_tokens })
  keep_refresh-Left keep s h = (h.0, Remains-retain unmarked_refresh p keep s.refresh_tokens v h.1)

  pub add_refresh-Left :
      (k : String) (t : RefreshToken) (s : Idp)
      → k ≢ v
      → Left v o p s
      → Left v o p (record s { refresh_tokens = insert s.refresh_tokens k t })
  add_refresh-Left k t s other h =
      (h.0, Remains-insert unmarked_refresh p s.refresh_tokens k v t other h.1)
