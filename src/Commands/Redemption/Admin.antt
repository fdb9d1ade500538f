-- ===== src/Commands/Redemption/Admin.antt =====
-- scripts/cli/implementations/redemption/redemption-fulfill.ts: the redemption admin.
use on_re_sol.Base.{
  List, [], ◌∷◌, Option, none, some, ◌≡◌, subst, arith, Option-cases, inl, inr, ◌⊎◌,
}
use on_re_sol.Js.{PublicKey, Value, Object, pubkey}
use on_re_sol.Session.{
  Platform, State, World, Instruction, M, pure, ◌>>=◌, Ensures, Ensures-bind, Ensures-bind_of,
}
use on_re_sol.Network.{NetworkConfig}
use on_re_sol.Helper.Addresses.{
  state_pda, get_state, get_redemption_offer_pda, get_redemption_request_pda,
}
use on_re_sol.Helper.Redemption.{build_fulfill_redemption_request_ix}
use on_re_sol.Commands.Wrapper.{BuilderOptions, build_and_handle_transaction}
use on_re_sol.Commands.Reports.{Throws, handler-Throws}
use on_re_sol.Commands.Redemption.{redemption_admin_of, default_key, execute_redemption_fulfill}

abbrev pub HasNoAdmin : State → Type 0
HasNoAdmin state = (state.redemption_admin ≡ none) ⊎ (state.redemption_admin ≡ some default_key)

no_admin :
    (o : Option PublicKey) → (o ≡ none) ⊎ (o ≡ some default_key) → Throws (redemption_admin_of o)
no_admin o (inl h) = rw h (record { value = λ w a e. cc })
no_admin o (inr h) = rw h (record { value = λ w a e. cc })

module _ (p : Platform) (cfg : NetworkConfig) (opts : Object)
    (no_admins : (state : State)
      → p.fetch_state (state_pda p cfg) ≡ some state
      → HasNoAdmin state) where
  get_state-HasNoAdmin : Ensures HasNoAdmin (get_state p cfg)
  unfolding get_state
  get_state-HasNoAdmin = record {
    value = λ w a e. elim (Option-cases (p.fetch_state (state_pda p cfg))) [
      | inl missing ↦ absurd (ground arith)
      | inr (s, found) ↦
          let same : s ≡ a = ground arith in subst HasNoAdmin same (no_admins s found)
    ];
  }

  abbrev needs_admin : Value → Value → Value → M (List Instruction)
  needs_admin token_in token_out request_id = do
    state ← get_state p cfg
    let offer_pda = get_redemption_offer_pda p cfg token_in token_out
    request_pda ← get_redemption_request_pda p cfg offer_pda request_id
    admin ← redemption_admin_of state.redemption_admin
    ix ←
        build_fulfill_redemption_request_ix p cfg (pubkey offer_pda) (pubkey request_pda)
          (pubkey admin)
    pure (ix ∷ [])

  needs_admin-Throws : (a b c : Value) → Throws (needs_admin a b c)
  needs_admin-Throws a b c = Ensures-bind_of get_state-HasNoAdmin λ state none_set.
      Ensures-bind _ λ request_pda.
        Ensures-bind_of (no_admin state.redemption_admin none_set)
          λ admin impossible. absurd impossible

  body-Throws :
      (options : BuilderOptions) (a b c : Value)
      → Throws (build_and_handle_transaction p cfg opts options (needs_admin a b c))
  unfolding build_and_handle_transaction
  body-Throws options a b c = Ensures-bind _ λ _.
      Ensures-bind _
        λ payer. Ensures-bind_of (needs_admin-Throws a b c) λ ixs impossible. absurd impossible

  -- While no redemption admin is set in the state, or the default key stands for it, the
  -- subcommand that fulfills a request fails with the exit code 1, whatever its options and answers.
  pub execute_redemption_fulfill-exit_code :
      (w : World) → (execute_redemption_fulfill p cfg opts w).1.exit_code ≡ some 1
  unfolding execute_redemption_fulfill
  execute_redemption_fulfill-exit_code w =
      handler-Throws p cfg opts _ _ (λ params. body-Throws _ _ _ _) w
