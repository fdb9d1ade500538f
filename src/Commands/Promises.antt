-- ===== src/Commands/Promises.antt =====
-- scripts/cli/commands: all the subcommands together, and what leaves the program in them.
use on_re_sol.Base.{
  ℕ, String, true, ◌||◌, ◌++◌, [], ◌∷◌, some, ◌≡◌, refl, ◌∙◌, ap, ap₂, ◌⊎◌, inl, inr,
}
use on_re_sol.Js.{Object, PublicKey}
use on_re_sol.Session.{Platform, World, Transaction, keypair, Keeps, Absorbs}
use on_re_sol.Session.Calm.{Quiet, Quiet-Absorbs}
use on_re_sol.Network.{NetworkConfig}
use on_re_sol.Transaction.{TransactionOptions, handle_transaction}
use on_re_sol.Transaction.Consent.{
  send_spec, Consented, handle_transaction-Quiet, handle_transaction-Consented,
}
use on_re_sol.Commands.Wrapper.{is_json, is_dry_run}
use on_re_sol.Commands.Dispatch.{
  Command, state_get, state_propose_boss, state_accept_boss, state_add_admin, state_remove_admin,
  state_add_approver, state_remove_approver, state_set_onyc_mint, state_kill_switch,
  state_max_supply, state_set_redemption_admin, state_clear_admins, state_close, offer_make,
  offer_take, offer_add_vector, offer_delete_vector, offer_update_fee, offer_delete_all_vectors,
  vault_deposit, vault_withdraw, vault_redemption_deposit, vault_redemption_withdraw, mint_to,
  mint_authority_to_program, mint_authority_to_boss, redemption_make_offer, redemption_fetch_offer,
  redemption_update_fee, redemption_create_request, redemption_fetch_request, redemption_fulfill,
  redemption_cancel, redemption_list_requests, init_program, init_permissionless, run,
}
use on_re_sol.Commands.Safety.Authority.{
  execute_state_get-Keeps, execute_state_propose_boss-Keeps, execute_state_accept_boss-Keeps,
  execute_state_add_admin-Keeps, execute_state_remove_admin-Keeps, execute_state_add_approver-Keeps,
  execute_state_remove_approver-Keeps, execute_state_set_onyc_mint-Keeps,
  execute_state_kill_switch-Keeps, execute_state_max_supply-Keeps,
  execute_state_set_redemption_admin-Keeps, execute_state_clear_admins-Keeps,
  execute_state_close-Keeps,
}
use on_re_sol.Commands.Safety.Offer.{
  execute_offer_make-Keeps, execute_offer_take-Keeps, execute_offer_add_vector-Keeps,
  execute_offer_delete_vector-Keeps, execute_offer_update_fee-Keeps,
  execute_offer_delete_all_vectors-Keeps,
}
use on_re_sol.Commands.Safety.Vault.{
  execute_vault_deposit-Keeps, execute_vault_withdraw-Keeps, execute_vault_redemption_deposit-Keeps,
  execute_vault_redemption_withdraw-Keeps,
}
use on_re_sol.Commands.Safety.Setup.{
  execute_mint_to-Keeps, execute_mint_authority_to_program-Keeps,
  execute_mint_authority_to_boss-Keeps, execute_init_program-Keeps,
  execute_init_permissionless-Keeps,
}
use on_re_sol.Commands.Safety.Redemption.{
  execute_redemption_make_offer-Keeps, execute_redemption_fetch_offer-Keeps,
  execute_redemption_update_fee-Keeps, execute_redemption_create_request-Keeps,
  execute_redemption_fetch_request-Keeps, execute_redemption_fulfill-Keeps,
  execute_redemption_cancel-Keeps, execute_redemption_list_requests-Keeps,
}

module _ (p : Platform) (cfg : NetworkConfig) (opts : Object) (S : World → World → Type 0)
    (law : Absorbs Quiet S)
    (handled : (tx : Transaction) (options : TransactionOptions)
      → options.json ≡ is_json opts
      → options.dry_run ≡ is_dry_run opts
      → Keeps S (handle_transaction p cfg tx options)) where
  run-Keeps : (c : Command) → Keeps S (run p cfg opts c)
  unfolding run
  run-Keeps state_get = execute_state_get-Keeps p cfg opts S law handled
  run-Keeps state_propose_boss = execute_state_propose_boss-Keeps p cfg opts S law handled
  run-Keeps state_accept_boss = execute_state_accept_boss-Keeps p cfg opts S law handled
  run-Keeps state_add_admin = execute_state_add_admin-Keeps p cfg opts S law handled
  run-Keeps state_remove_admin = execute_state_remove_admin-Keeps p cfg opts S law handled
  run-Keeps state_add_approver = execute_state_add_approver-Keeps p cfg opts S law handled
  run-Keeps state_remove_approver = execute_state_remove_approver-Keeps p cfg opts S law handled
  run-Keeps state_set_onyc_mint = execute_state_set_onyc_mint-Keeps p cfg opts S law handled
  run-Keeps state_kill_switch = execute_state_kill_switch-Keeps p cfg opts S law handled
  run-Keeps state_max_supply = execute_state_max_supply-Keeps p cfg opts S law handled
  run-Keeps state_set_redemption_admin =
      execute_state_set_redemption_admin-Keeps p cfg opts S law handled
  run-Keeps state_clear_admins = execute_state_clear_admins-Keeps p cfg opts S law handled
  run-Keeps state_close = execute_state_close-Keeps p cfg opts S law handled
  run-Keeps offer_make = execute_offer_make-Keeps p cfg opts S law handled
  run-Keeps offer_take = execute_offer_take-Keeps p cfg opts S law handled
  run-Keeps offer_add_vector = execute_offer_add_vector-Keeps p cfg opts S law handled
  run-Keeps offer_delete_vector = execute_offer_delete_vector-Keeps p cfg opts S law handled
  run-Keeps offer_update_fee = execute_offer_update_fee-Keeps p cfg opts S law handled
  run-Keeps offer_delete_all_vectors =
      execute_offer_delete_all_vectors-Keeps p cfg opts S law handled
  run-Keeps vault_deposit = execute_vault_deposit-Keeps p cfg opts S law handled
  run-Keeps vault_withdraw = execute_vault_withdraw-Keeps p cfg opts S law handled
  run-Keeps vault_redemption_deposit =
      execute_vault_redemption_deposit-Keeps p cfg opts S law handled
  run-Keeps vault_redemption_withdraw =
      execute_vault_redemption_withdraw-Keeps p cfg opts S law handled
  run-Keeps mint_to = execute_mint_to-Keeps p cfg opts S law handled
  run-Keeps mint_authority_to_program =
      execute_mint_authority_to_program-Keeps p cfg opts S law handled
  run-Keeps mint_authority_to_boss = execute_mint_authority_to_boss-Keeps p cfg opts S law handled
  run-Keeps redemption_make_offer = execute_redemption_make_offer-Keeps p cfg opts S law handled
  run-Keeps redemption_fetch_offer = execute_redemption_fetch_offer-Keeps p cfg opts S law handled
  run-Keeps redemption_update_fee = execute_redemption_update_fee-Keeps p cfg opts S law handled
  run-Keeps redemption_create_request =
      execute_redemption_create_request-Keeps p cfg opts S law handled
  run-Keeps redemption_fetch_request =
      execute_redemption_fetch_request-Keeps p cfg opts S law handled
  run-Keeps redemption_fulfill = execute_redemption_fulfill-Keeps p cfg opts S law handled
  run-Keeps redemption_cancel = execute_redemption_cancel-Keeps p cfg opts S law handled
  run-Keeps redemption_list_requests =
      execute_redemption_list_requests-Keeps p cfg opts S law handled
  run-Keeps init_program = execute_init_program-Keeps p cfg opts S law handled
  run-Keeps init_permissionless = execute_init_permissionless-Keeps p cfg opts S law handled

-- In the JSON mode and in a dry run, no subcommand sends a transaction or copies one.
pub run-Quiet :
    (p : Platform) (cfg : NetworkConfig) (opts : Object) (c : Command) (w : World)
    → (is_json opts || is_dry_run opts) ≡ true
    → ((run p cfg opts c w).1.sent ≡ w.sent) × ((run p cfg opts c w).1.copied ≡ w.copied)
run-Quiet p cfg opts c w h =
    (run-Keeps p cfg opts Quiet Quiet-Absorbs
        (λ tx options json dry.
          handle_transaction-Quiet p cfg tx options (ap₂ (λ a b. a || b) json dry ∙ h))
        c).after
      w

-- Nothing is sent, or one transaction is, with the key of a file, after the user has agreed.
abbrev AnyConsented : Platform → World → World → Type 0
AnyConsented p u v =
    (v.sent ≡ u.sent)
    ⊎ ((tx : Transaction) × (k : PublicKey) × (path : String) × (n : ℕ) × (v.sent
          ≡ u.sent ++ ((tx, k) ∷ []))
        × (p.key_file path ≡ keypair k)
        × (p.ask_confirm n send_spec ≡ some true))

any_first : (p : Platform) (u v w : World) → Quiet u v → AnyConsented p v w → AnyConsented p u w
any_first p u v w h (inl same) = inl (same ∙ h.0)
any_first p u v w h (inr (tx, k, path, n, e, file, agreed)) =
    inr (tx, k, path, n, e ∙ ap (λ s. s ++ ((tx, k) ∷ [])) h.0, file, agreed)

any_last : (p : Platform) (u v w : World) → AnyConsented p u v → Quiet v w → AnyConsented p u w
any_last p u v w (inl same) h = inl (h.0 ∙ same)
any_last p u v w (inr (tx, k, path, n, e, file, agreed)) h =
    inr (tx, k, path, n, h.0 ∙ e, file, agreed)

any_of : (p : Platform) (tx : Transaction) (u v : World) → Consented p tx u v → AnyConsented p u v
any_of p tx u v (inl same) = inl same
any_of p tx u v (inr (k, path, n, e, file, agreed)) = inr (tx, k, path, n, e, file, agreed)

-- No subcommand sends more than one transaction, and it sends one only with the key of a key file,
-- after the user has answered yes to the question whether to send it.
pub run-Consented :
    (p : Platform) (cfg : NetworkConfig) (opts : Object) (c : Command) (w : World)
    → ((run p cfg opts c w).1.sent ≡ w.sent)
      ⊎ ((tx : Transaction) × (k : PublicKey) × (path : String) × (n : ℕ) × ((run p cfg opts c
              w).1.sent
            ≡ w.sent ++ ((tx, k) ∷ []))
          × (p.key_file path ≡ keypair k)
          × (p.ask_confirm n send_spec ≡ some true))
run-Consented p cfg opts c w =
    (run-Keeps p cfg opts (AnyConsented p)
        (record { still = λ u. inl refl; first = any_first p; last = any_last p })
        (λ tx options json dry. record {
          after = λ u.
              any_of p tx u (handle_transaction p cfg tx options u).1
                ((handle_transaction-Consented p cfg tx options).after u);
        })
        c).after
      w
