-- ===== src/Scim/Users/Loop.antt =====
-- The rule for the loop that syncDirtyUsers and reconcileUsers share, for any step.
use scimtest.Prelude.{some, List, [], ◌∷◌, ◌++◌}
use scimtest.Directory.{User}
use scimtest.Scim.Client.{Client}
use scimtest.Scim.Pass.{UserPass, Step, go, halt, On, Ends}
use scimtest.Scim.Users.{user_loop, send_awaited_managers}

module _ {W : Type 0} (c : Client W) (step : User → UserPass W → Step (UserPass W))
    (P : List User → UserPass W → Type 0) (Done Stopped : UserPass W → Type 0)
    (round : (u : User) (us : List User) (p : UserPass W)
      → P (u ∷ us) p
      → On (P us) (λ p'. Stopped (record p' { next = p'.next ++ us })) (step u p))
    (last : (p : UserPass W)
      → P [] p
      → Ends Done Stopped (send_awaited_managers c p.awaiting p)) where
  after_round :
      (us : List User) (s : Step (UserPass W))
      → On (P us) (λ p'. Stopped (record p' { next = p'.next ++ us })) s
      → ((p : UserPass W) → P us p → Ends Done Stopped (user_loop c step us p))
      → Ends Done Stopped (elim s [
        | go p' ↦ user_loop c step us p'
        | halt e p' ↦ (record p' { next = p'.next ++ us }, some e)
      ])
  after_round us (go p) h k = k p h
  after_round us (halt e p) h k = h

  pub user_loop_rule :
      (us : List User) (p : UserPass W) → P us p → Ends Done Stopped (user_loop c step us p)
  unfolding user_loop
  user_loop_rule [] p h = last p h
  user_loop_rule (u ∷ us) p h =
      after_round us (step u p) (round u us p h) (λ p' h'. user_loop_rule us p' h')
