-- ===== src/Onchain/State/Admins.antt =====
-- programs/onreapp/src/instructions/state_operations: the slots of the admins and the approvers.
use on_re_sol.Base.{
  ℕ, Bool, true, false, any, ◌⊎◌, inl, inr, List, [], ◌∷◌, some, ◌≡◌, ◌≢◌, refl, sym, ap, ◌∙◌,
  arith, Among, Pairwise, position, position-replace_at, replace_at, replace_at-undo,
  replace_at-Pairwise, length-replace_at, length, repeat-Pairwise, length-repeat,
}
use on_re_sol.Js.{PublicKey, equals}
use on_re_sol.Onchain.Run.{ok, ok_or, ◌>>◌, ◌>>=◌}
use on_re_sol.Onchain.Run.Inversion.{ok-inj, ok-bind, ok-then, ok-require, ok-ok_or, ok-if}
use on_re_sol.Onchain.State.{State, default_key, has_one_boss}
use on_re_sol.Onchain.State.Operations.{
  is_default, contains, propose_boss, accept_boss, add_admin, remove_admin, clear_admins,
  add_approver, remove_approver, set_kill_switch, set_redemption_admin, set_onyc_mint,
  configure_max_supply,
}
use on_re_sol.Onchain.State.Authority.{
  equals-eq, equals_refl, Step, proposed, accepted, admin_added, admin_removed, admins_cleared,
  approver_added, approver_removed, switched, redemption_admin_set, mint_set, supply_set, History,
  done, followed,
}

removed :
    (signer : PublicKey) (s : State) (k : PublicKey) (admins : List PublicKey) (slot : ℕ)
    → has_one_boss s signer ≡ ok tt
    → position (λ a. equals a k) admins ≡ some slot
    → replace_at slot default_key admins ≡ s.admins
    → remove_admin signer (record s { admins = admins }) k ≡ ok s
unfolding remove_admin has_one_boss ◌>>=◌ ◌>>◌ ok_or
removed signer s k admins slot boss found back =
    rw (boss, found) (ap (λ x. ok (record s { admins = x })) back)

-- An admin who has just been added can be removed again by the same boss, and that gives back the
-- state account as it was, slot for slot.
pub remove_admin-add_admin :
    (signer : PublicKey) (s : State) (k : PublicKey) {t : State}
    → add_admin signer s k ≡ ok t
    → remove_admin signer t k ≡ ok s
unfolding add_admin remove_admin contains
remove_admin-add_admin signer s k {t} h =
    let (boss, h1) = ok-then _ _ h in
    let (absent, h2) = ok-require _ _ _ h1 in
    let (slot, found, h3) = ok-bind h2 in
    let first = ok-ok_or _ _ _ found in
    let there =
      position-replace_at is_default (λ a. equals a k) s.admins slot k first (ground arith)
        (equals_refl k) in
    let back =
      replace_at-undo is_default is_default s.admins slot k default_key first
        (λ y e. equals-eq y default_key e) in
    rw (← ok-inj h3) (removed signer s k _ slot boss there back)

abbrev Once : PublicKey → PublicKey → Type 0
Once a b = a ≡ b → a ≡ default_key

-- Twenty slots for admins and two for approvers, no key in two of them.
pub record IsTidy (s : State) : Type 0 where
  pub slots : length s.admins ≡ 20
  pub once : Pairwise (λ a b. a ≡ b → a ≡ default_key) s.admins
  pub approvers : s.approver1 ≡ s.approver2 → s.approver1 ≡ default_key

same-IsTidy :
    (s t : State)
    → t.admins ≡ s.admins
    → t.approver1 ≡ s.approver1
    → t.approver2 ≡ s.approver2
    → IsTidy s
    → IsTidy t
same-IsTidy s t e f g h = record {
  slots = rw e h.slots;
  once = rw e h.once;
  approvers = rw (f, g) h.approvers;
}

any-Among :
    (k : PublicKey) (keys : List PublicKey)
    → any (λ admin. equals admin k) keys ≡ false
    → (a : PublicKey) → Among a keys
    → a ≢ k
any-Among k [] h a m e = m
any-Among k (x ∷ keys) h a (inl same) e =
    let there = equals_refl k in
    let head : equals x k ≡ false = ground arith in
    let found : equals x k ≡ true = rw (← same, e) there in cc
any-Among k (x ∷ keys) h a (inr m) e = any-Among k keys (ground arith) a m e

pub apart : (k a : PublicKey) → equals a k ≡ false → a ≢ k
apart k a h e = let there = equals_refl k in let found : equals a k ≡ true = rw e there in cc

module _ (signer : PublicKey) (s t : State) where
  add_admin-IsTidy : (k : PublicKey) → add_admin signer s k ≡ ok t → IsTidy s → IsTidy t
  unfolding add_admin contains
  add_admin-IsTidy k h tidy =
      let (_, h1) = ok-then _ _ h in
      let (absent, h2) = ok-require _ _ _ h1 in
      let (slot, _, h3) = ok-bind h2 in
      let others = any-Among k s.admins (ground arith) in
      rw (← ok-inj h3) (record {
        slots = length-replace_at slot k s.admins ∙ tidy.slots;
        once =
            replace_at-Pairwise Once slot k s.admins
              (λ a m. (λ e. absurd (others a m (sym e)), λ e. absurd (others a m e))) tidy.once;
        approvers = tidy.approvers;
      })

  remove_admin-IsTidy : (k : PublicKey) → remove_admin signer s k ≡ ok t → IsTidy s → IsTidy t
  unfolding remove_admin
  remove_admin-IsTidy k h tidy =
      let (_, h1) = ok-then _ _ h in
      let (slot, _, h2) = ok-bind h1 in
      rw (← ok-inj h2) (record {
        slots = length-replace_at slot default_key s.admins ∙ tidy.slots;
        once =
            replace_at-Pairwise Once slot default_key s.admins (λ a m. (λ e. refl, λ e. e))
              tidy.once;
        approvers = tidy.approvers;
      })

  clear_admins-IsTidy : clear_admins signer s ≡ ok t → IsTidy s → IsTidy t
  unfolding clear_admins
  clear_admins-IsTidy h tidy =
      let (_, h1) = ok-then _ _ h in
      rw (← ok-inj h1) (record {
        slots = length-repeat default_key 20;
        once = repeat-Pairwise default_key Once 20 (λ e. e);
        approvers = tidy.approvers;
      })

  add_approver-IsTidy : (k : PublicKey) → add_approver signer s k ≡ ok t → IsTidy s → IsTidy t
  unfolding add_approver
  add_approver-IsTidy k h tidy =
      let (_, h1) = ok-then _ _ h in
      let (_, h2) = ok-require _ _ _ h1 in
      let (absent, h3) = ok-require _ _ _ h2 in
      elim (ok-if (is_default s.approver1) h3) [
        | inl (_, first) ↦ rw (← ok-inj first) (record {
          slots = tidy.slots;
          once = tidy.once;
          approvers = λ e. absurd (apart k s.approver2 (ground arith) (sym e));
        })
        | inr (_, rest) ↦ elim (ok-if (is_default s.approver2) rest) [
          | inl (_, second) ↦ rw (← ok-inj second) (record {
            slots = tidy.slots;
            once = tidy.once;
            approvers = λ e. absurd (apart k s.approver1 (ground arith) e);
          })
          | inr (_, full) ↦ cc
        ]
      ]

  remove_approver-IsTidy : (k : PublicKey) → remove_approver signer s k ≡ ok t → IsTidy s → IsTidy t
  unfolding remove_approver
  remove_approver-IsTidy k h tidy =
      let (_, h1) = ok-then _ _ h in
      let (_, h2) = ok-require _ _ _ h1 in
      elim (ok-if (equals s.approver1 k) h2) [
        | inl (_, first) ↦
            rw (← ok-inj first)
              (record { slots = tidy.slots; once = tidy.once; approvers = λ e. refl })
        | inr (_, rest) ↦ elim (ok-if (equals s.approver2 k) rest) [
          | inl (_, second) ↦
              rw (← ok-inj second)
                (record { slots = tidy.slots; once = tidy.once; approvers = λ e. e })
          | inr (_, unknown) ↦ cc
        ]
      ]

  untouched :
      (n : ℕ) (k : PublicKey)
      → ((propose_boss signer s k ≡ ok t)
          ⊎ (accept_boss signer s ≡ ok t)
          ⊎ (set_redemption_admin signer s k ≡ ok t)
          ⊎ (set_onyc_mint signer s k ≡ ok t)
          ⊎ (configure_max_supply signer s n ≡ ok t))
      → IsTidy s
      → IsTidy t
  unfolding propose_boss accept_boss set_redemption_admin set_onyc_mint configure_max_supply
  untouched n k (inl h) tidy =
      let (_, h1) = ok-then _ _ h in
      let (_, h2) = ok-require _ _ _ h1 in rw (← ok-inj h2) (same-IsTidy s _ refl refl refl tidy)
  untouched n k (inr (inl h)) tidy =
      let (_, h1) = ok-require _ _ _ h in
      let (_, h2) = ok-require _ _ _ h1 in rw (← ok-inj h2) (same-IsTidy s _ refl refl refl tidy)
  untouched n k (inr (inr (inl h))) tidy =
      let (_, h1) = ok-then _ _ h in
      let (_, h2) = ok-require _ _ _ h1 in rw (← ok-inj h2) (same-IsTidy s _ refl refl refl tidy)
  untouched n k (inr (inr (inr (inl h)))) tidy =
      let (_, h1) = ok-then _ _ h in rw (← ok-inj h1) (same-IsTidy s _ refl refl refl tidy)
  untouched n k (inr (inr (inr (inr h)))) tidy =
      let (_, h1) = ok-then _ _ h in rw (← ok-inj h1) (same-IsTidy s _ refl refl refl tidy)

  set_kill_switch-IsTidy :
      (enable : Bool) → set_kill_switch signer s enable ≡ ok t → IsTidy s → IsTidy t
  unfolding set_kill_switch
  set_kill_switch-IsTidy true h tidy =
      let (_, h1) = ok-require _ _ _ h in rw (← ok-inj h1) (same-IsTidy s _ refl refl refl tidy)
  set_kill_switch-IsTidy false h tidy =
      let (_, h1) = ok-require _ _ _ h in rw (← ok-inj h1) (same-IsTidy s _ refl refl refl tidy)

Step-IsTidy : (signer : PublicKey) (s t : State) → Step signer s t → IsTidy s → IsTidy t
Step-IsTidy signer s _ (proposed k t h) = untouched signer s t 0 k (inl h)
Step-IsTidy signer s _ (accepted t h) = untouched signer s t 0 default_key (inr (inl h))
Step-IsTidy signer s _ (admin_added k t h) = add_admin-IsTidy signer s t k h
Step-IsTidy signer s _ (admin_removed k t h) = remove_admin-IsTidy signer s t k h
Step-IsTidy signer s _ (admins_cleared t h) = clear_admins-IsTidy signer s t h
Step-IsTidy signer s _ (approver_added k t h) = add_approver-IsTidy signer s t k h
Step-IsTidy signer s _ (approver_removed k t h) = remove_approver-IsTidy signer s t k h
Step-IsTidy signer s _ (switched enable t h) = set_kill_switch-IsTidy signer s t enable h
Step-IsTidy signer s _ (redemption_admin_set k t h) = untouched signer s t 0 k (inr (inr (inl h)))
Step-IsTidy signer s _ (mint_set k t h) = untouched signer s t 0 k (inr (inr (inr (inl h))))
Step-IsTidy signer s _ (supply_set n t h) =
    untouched signer s t n default_key (inr (inr (inr (inr h))))

-- However many instructions are carried out, the state account keeps twenty slots for admins, and
-- no key comes to stand in two slots of the admins or in both of the approvers, if none did.
pub History-IsTidy :
    (s : State) (keys : List PublicKey) (t : State) → History s keys t → IsTidy s → IsTidy t
History-IsTidy s _ _ (done _) tidy = tidy
History-IsTidy s _ t (followed signer _ m _ others step rest) tidy =
    History-IsTidy m others t rest (Step-IsTidy signer s m step tidy)
