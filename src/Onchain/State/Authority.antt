-- ===== src/Onchain/State/Authority.antt =====
-- programs/onreapp/src/instructions/state_operations: who can change what in the state account.
use on_re_sol.Base.{
  ℕ, Bool, true, false, Bool-cases, ◌⊎◌, inl, inr, List, [], ◌∷◌, ◌≡◌, ◌≢◌, refl, sym, ap, subst,
  ◌∙◌, arith, eq_iff, Among,
}
use on_re_sol.Js.{PublicKey, key, equals}
use on_re_sol.Onchain.Run.{Run, ok, ◌>>◌}
use on_re_sol.Onchain.Run.Inversion.{ok-inj, ok-require}
use on_re_sol.Onchain.State.{State, default_key, has_one_boss}
use on_re_sol.Onchain.State.Operations.{
  is_default, contains, propose_boss, accept_boss, add_admin, remove_admin, clear_admins,
  add_approver, remove_approver, set_kill_switch, set_redemption_admin, set_onyc_mint,
  configure_max_supply,
}

pub equals-eq : (a b : PublicKey) → equals a b ≡ true → a ≡ b
equals-eq (key a) (key b) h = ap key ((eq_iff a b).0 h)

pub equals_refl : (a : PublicKey) → equals a a ≡ true
equals_refl (key a) = (eq_iff a a).1 refl

-- One instruction on the state account that ends well, with the key that signs it.
pub data Step (signer : PublicKey) (s : State) : State → Type 0 where
  proposed : (k : PublicKey) (t : State) → propose_boss signer s k ≡ ok t → Step signer s t
  accepted : (t : State) → accept_boss signer s ≡ ok t → Step signer s t
  admin_added : (k : PublicKey) (t : State) → add_admin signer s k ≡ ok t → Step signer s t
  admin_removed : (k : PublicKey) (t : State) → remove_admin signer s k ≡ ok t → Step signer s t
  admins_cleared : (t : State) → clear_admins signer s ≡ ok t → Step signer s t
  approver_added : (k : PublicKey) (t : State) → add_approver signer s k ≡ ok t → Step signer s t
  approver_removed :
      (k : PublicKey) (t : State) → remove_approver signer s k ≡ ok t → Step signer s t
  switched : (enable : Bool) (t : State) → set_kill_switch signer s enable ≡ ok t → Step signer s t
  redemption_admin_set :
      (k : PublicKey) (t : State) → set_redemption_admin signer s k ≡ ok t → Step signer s t
  mint_set : (k : PublicKey) (t : State) → set_onyc_mint signer s k ≡ ok t → Step signer s t
  supply_set : (n : ℕ) (t : State) → configure_max_supply signer s n ≡ ok t → Step signer s t

-- What a key that is not the boss can do: take over as the boss that was proposed, or halt the
-- program as an admin.
pub data Outside (signer : PublicKey) (s : State) : State → Type 0 where
  takes_over :
      signer ≡ s.proposed_boss
      → signer ≢ default_key
      → Outside signer s (record s { boss = signer; proposed_boss = default_key })
  halts : Among signer s.admins → Outside signer s (record s { is_killed = true })

contains-Among : (k : PublicKey) (keys : List PublicKey) → contains k keys ≡ true → Among k keys
unfolding contains
contains-Among k [] h = cc
contains-Among k (x ∷ keys) h = elim (Bool-cases (equals x k)) [
  | inl same ↦ inl (sym (equals-eq x k same))
  | inr other ↦ inr (contains-Among k keys (rw other at h))
]

by_boss :
    (s : State) (signer : PublicKey) (rest : Run State) {t : State}
    → (has_one_boss s signer >> rest) ≡ ok t
    → signer ≡ s.boss
unfolding has_one_boss
by_boss s signer rest h = let (same, _) = ok-require _ _ _ h in sym (equals-eq s.boss signer same)

module _ (signer : PublicKey) (s t : State) where
  propose_boss-by : (k : PublicKey) → propose_boss signer s k ≡ ok t → signer ≡ s.boss
  unfolding propose_boss
  propose_boss-by k h = by_boss s signer _ h

  add_admin-by : (k : PublicKey) → add_admin signer s k ≡ ok t → signer ≡ s.boss
  unfolding add_admin
  add_admin-by k h = by_boss s signer _ h

  remove_admin-by : (k : PublicKey) → remove_admin signer s k ≡ ok t → signer ≡ s.boss
  unfolding remove_admin
  remove_admin-by k h = by_boss s signer _ h

  clear_admins-by : clear_admins signer s ≡ ok t → signer ≡ s.boss
  unfolding clear_admins
  clear_admins-by h = by_boss s signer _ h

  add_approver-by : (k : PublicKey) → add_approver signer s k ≡ ok t → signer ≡ s.boss
  unfolding add_approver
  add_approver-by k h = by_boss s signer _ h

  remove_approver-by : (k : PublicKey) → remove_approver signer s k ≡ ok t → signer ≡ s.boss
  unfolding remove_approver
  remove_approver-by k h = by_boss s signer _ h

  set_redemption_admin-by :
      (k : PublicKey) → set_redemption_admin signer s k ≡ ok t → signer ≡ s.boss
  unfolding set_redemption_admin
  set_redemption_admin-by k h = by_boss s signer _ h

  set_onyc_mint-by : (k : PublicKey) → set_onyc_mint signer s k ≡ ok t → signer ≡ s.boss
  unfolding set_onyc_mint
  set_onyc_mint-by k h = by_boss s signer _ h

  configure_max_supply-by : (n : ℕ) → configure_max_supply signer s n ≡ ok t → signer ≡ s.boss
  unfolding configure_max_supply
  configure_max_supply-by n h = by_boss s signer _ h

  accept_boss-Outside : accept_boss signer s ≡ ok t → Outside signer s t
  unfolding accept_boss
  accept_boss-Outside h =
      let (proposal, h1) = ok-require _ _ _ h in
      let (same, h2) = ok-require _ _ _ h1 in
      let signs = equals-eq signer s.proposed_boss same in
      let real : is_default s.proposed_boss ≡ false = ground arith in
      rw (← ok-inj h2) (
        subst (λ k. Outside signer s (record s { boss = k; proposed_boss = default_key })) signs
          (takes_over signs (λ e. let default = ap is_default (sym signs ∙ e) in cc)))

  set_kill_switch-by :
      (enable : Bool)
      → set_kill_switch signer s enable ≡ ok t
      → (signer ≡ s.boss) ⊎ Outside signer s t
  unfolding set_kill_switch
  set_kill_switch-by true h =
      let (allowed, h1) = ok-require _ _ _ h in
      elim (Bool-cases (equals s.boss signer)) [
        | inl boss ↦ inl (sym (equals-eq s.boss signer boss))
        | inr other ↦
            inr (rw (← ok-inj h1) (halts (contains-Among signer s.admins (rw other at allowed))))
      ]
  set_kill_switch-by false h =
      let (boss, _) = ok-require _ _ _ h in inl (sym (equals-eq s.boss signer boss))

-- Every instruction on the state account that ends well is signed by the boss, or by the proposed
-- boss who takes over, or by an admin who does no more than halt the program.
pub Step-authority :
    (signer : PublicKey) (s t : State) → Step signer s t → (signer ≡ s.boss) ⊎ Outside signer s t
Step-authority signer s _ (proposed k t h) = inl (propose_boss-by signer s t k h)
Step-authority signer s _ (accepted t h) = inr (accept_boss-Outside signer s t h)
Step-authority signer s _ (admin_added k t h) = inl (add_admin-by signer s t k h)
Step-authority signer s _ (admin_removed k t h) = inl (remove_admin-by signer s t k h)
Step-authority signer s _ (admins_cleared t h) = inl (clear_admins-by signer s t h)
Step-authority signer s _ (approver_added k t h) = inl (add_approver-by signer s t k h)
Step-authority signer s _ (approver_removed k t h) = inl (remove_approver-by signer s t k h)
Step-authority signer s _ (switched enable t h) = set_kill_switch-by signer s t enable h
Step-authority signer s _ (redemption_admin_set k t h) =
    inl (set_redemption_admin-by signer s t k h)
Step-authority signer s _ (mint_set k t h) = inl (set_onyc_mint-by signer s t k h)
Step-authority signer s _ (supply_set n t h) = inl (configure_max_supply-by signer s t n h)

Outside-cases :
    (signer : PublicKey) (s t : State)
    → Outside signer s t
    → (signer ≡ s.proposed_boss) ⊎ (t ≡ record s { is_killed = true })
Outside-cases signer s _ (takes_over same real) = inl same
Outside-cases signer s _ (halts admin) = inr refl

-- Instructions one after another, and the keys that signed them.
pub data History : State → List PublicKey → State → Type 0 where
  done : (s : State) → History s [] s
  followed :
      (signer : PublicKey) (s t u : State) (keys : List PublicKey)
      → Step signer s t
      → History t keys u
      → History s (signer ∷ keys) u

-- However many instructions others sign, without a signature of the boss or of the proposed boss
-- nothing of the state account changes but the kill switch, and that is never switched off.
pub History-outsiders :
    (s : State) (keys : List PublicKey) (t : State)
    → History s keys t
    → ¬ Among s.boss keys
    → ¬ Among s.proposed_boss keys
    → (t ≡ record s { is_killed = t.is_killed }) × (s.is_killed ≡ true → t.is_killed ≡ true)
History-outsiders s _ _ (done _) boss proposal = (refl, λ e. e)
History-outsiders s _ t (followed signer _ m _ others step rest) boss proposal =
    elim (Step-authority signer s m step) [
      | inl same ↦ absurd (boss (inl (sym same)))
      | inr outside ↦ elim (Outside-cases signer s m outside) [
        | inl same ↦ absurd (proposal (inl (sym same)))
        | inr halted ↦
            let (frame, stays) =
              History-outsiders m others t rest
                (λ n. boss (inr (subst (λ x. Among x.boss others) halted n)))
                (λ n. proposal (inr (subst (λ x. Among x.proposed_boss others) halted n))) in
            (
              subst (λ x. t ≡ record x { is_killed = t.is_killed }) halted frame,
              λ e. stays (ap (λ x. x.is_killed) halted),
            )
      ]
    ]
