-- ===== src/Web/Oidc/Token/Issues.antt =====
-- When the redemption of a code ends with tokens.
use scimtest.Prelude.{
  ℕ, ◌<◌, String, true, false, not, Option, none, some, ltb, ◌==◌, split_if, Result, ok, err, ◌≡◌,
  refl, subst, eq_iff, arith,
}
use scimtest.Directory.{App, AppState, User, user_by_id}
use scimtest.Web.Oidc.{AuthCode, Idp, Secrets, may_sign_in}
use scimtest.Web.Oidc.Token.{
  TokenResponse, Reply, failed, issued, injected, gone, Progress, answered, waiting, Times, Signer,
  code_tokens, for_user, with_state, without_code, redeem_code,
}

-- If tokens are issued, then the response and the state after it satisfy C.
abbrev pub Issues : (TokenResponse → Idp → Type 0) → Reply × Idp → Type 0
Issues C (issued x, s) = C x s
Issues C (failed _ _ _, _) = Unit
Issues C (injected _, _) = Unit
Issues C (gone, _) = Unit

abbrev pub Answers : (TokenResponse → Idp → Type 0) → Progress × Idp → Type 0
Answers C (answered r, s) = Issues C (r, s)
Answers C (waiting _, _) = Unit

-- If tokens are issued, then C.
abbrev pub IssuedOnlyIf : Type 0 → Reply × Idp → Type 0
IssuedOnlyIf C = Issues (λ _ _. C)

abbrev pub AnsweredOnlyIf : Type 0 → Progress × Idp → Type 0
AnsweredOnlyIf C = Answers (λ _ _. C)

-- The condition of an answer with tokens.
pub read :
    (C : TokenResponse → Idp → Type 0) (a : Progress × Idp) (x : TokenResponse)
    → Answers C a
    → a.0 ≡ answered (issued x)
    → C x a.1
read C (a, s) x h e = subst (λ a. Answers C (a, s)) e h

pub Issues-of :
    (C : TokenResponse → Idp → Type 0) (p : Reply × Idp)
    → ((x : TokenResponse) → C x p.1)
    → Issues C p
Issues-of C (issued x, _) h = h x
Issues-of C (failed _ _ _, _) h = tt
Issues-of C (injected _, _) h = tt
Issues-of C (gone, _) h = tt

pub Issues-map :
    (B C : TokenResponse → Idp → Type 0) (p : Reply × Idp)
    → ((x : TokenResponse) (s : Idp) → B x s → C x s)
    → Issues B p
    → Issues C p
Issues-map B C (issued x, s) k h = k x s h
Issues-map B C (failed _ _ _, _) k h = tt
Issues-map B C (injected _, _) k h = tt
Issues-map B C (gone, _) k h = tt

pub Issues-with :
    (A : Type 0) (C : TokenResponse → Idp → Type 0) (p : Reply × Idp)
    → A
    → Issues C p
    → Issues (λ x s. A × C x s) p
Issues-with A C p a h = Issues-map C (λ x s. A × C x s) p (λ x s c. (a, c)) h

-- The user of a grant is there, active and not deleted.
unfoldable pub SignsIn : Result String AppState → String → Type 0
SignsIn state id =
    (st : AppState) × (u : User) × (state ≡ ok st)
    × (user_by_id st.users id ≡ some u)
    × (u.active ≡ true)
    × (u.deleted ≡ false)

pub may_sign_in-some :
    (o : Option User) (u : User)
    → may_sign_in o ≡ some u
    → (o ≡ some u) × (u.active ≡ true) × (u.deleted ≡ false)
unfolding may_sign_in
may_sign_in-some none u e = ground (arith, e)
may_sign_in-some (some w) u e = ground (arith, e)

module _ (C : Type 0) (signer : Signer) (app : App) where
  for_user-issues :
      (c : AuthCode) (now : ℕ) (secrets : Secrets) (found : Option User) (s : Idp)
      → ((u : User) → found ≡ some u → C)
      → IssuedOnlyIf C (for_user signer app c now secrets found s)
  unfolding for_user
  for_user-issues c now secrets none s k = tt
  for_user-issues c now secrets (some u) s k =
      Issues-of (λ _ _. C) (code_tokens signer app c u now secrets secrets.grant_id s)
        (λ _. k u refl)

  with_state-issues :
      (c : AuthCode) (now : ℕ) (secrets : Secrets) (state : Result String AppState) (s : Idp)
      → (SignsIn state c.user_id → C)
      → IssuedOnlyIf C (with_state signer app c now secrets state s)
  unfolding with_state SignsIn
  with_state-issues c now secrets (err e) s k = tt
  with_state-issues c now secrets (ok st) s k =
      for_user-issues c now secrets (may_sign_in (user_by_id st.users c.user_id)) s (λ u e.
        let (found, active, kept) = may_sign_in-some (user_by_id st.users c.user_id) u e in
        k (st, u, refl, found, active, kept))

  pub redeem_code-issues :
      (value : String) (times : Times) (secrets : Secrets) (state : Result String AppState)
      (found : Option AuthCode) (s : Idp)
      → ((c : AuthCode)
          → found ≡ some c
          → times.checked < c.expires_at
          → c.faults.token_error ≡ ""
          → SignsIn state c.user_id
          → C)
      → IssuedOnlyIf C (redeem_code signer app value times secrets state found s)
  unfolding redeem_code
  redeem_code-issues value times secrets state none s k = tt
  redeem_code-issues value times secrets state (some c) s k =
      split_if (IssuedOnlyIf C) (not (ltb times.checked c.expires_at)) _ _ (λ _. tt)
        (λ b.
          split_if (IssuedOnlyIf C) (not (c.faults.token_error == "")) _ _ (λ _. tt)
            (λ d.
              with_state-issues c times.issued secrets state (without_code signer app value s)
                (k c refl (ground (arith, b)) (ground (arith, d, eq_iff c.faults.token_error "")))))
