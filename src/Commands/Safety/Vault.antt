-- ===== src/Commands/Safety/Vault.antt =====
-- Commands/Vault, as steps around the handling of one transaction.
use on_re_sol.Base.{List, ◌≡◌}
use on_re_sol.Js.{Object}
use on_re_sol.Session.{Platform, World, Instruction, Transaction, M, ◌>>=◌, Keeps, Absorbs}
use on_re_sol.Session.Calm.{Quiet, of_pure, of_bind}
use on_re_sol.Network.{NetworkConfig}
use on_re_sol.Transaction.{TransactionOptions, handle_transaction}
use on_re_sol.Commands.Wrapper.{is_json, is_dry_run, BuilderOptions, build_and_handle_transaction}
use on_re_sol.Commands.Frame.{and_then, built, executed}
use on_re_sol.Helper.Calm.{
  build_offer_vault_deposit_ix-Quiet, build_offer_vault_withdraw_ix-Quiet,
  build_redemption_vault_deposit_ix-Quiet, build_redemption_vault_withdraw_ix-Quiet, get_boss-Quiet,
}
use on_re_sol.Commands.Vault.{
  execute_vault_deposit, execute_vault_withdraw, execute_vault_redemption_deposit,
  execute_vault_redemption_withdraw,
}

module _ (p : Platform) (cfg : NetworkConfig) (opts : Object) (S : World → World → Type 0)
    (law : Absorbs Quiet S)
    (handled : (tx : Transaction) (options : TransactionOptions)
      → options.json ≡ is_json opts
      → options.dry_run ≡ is_dry_run opts
      → Keeps S (handle_transaction p cfg tx options)) where
  made :
      (options : BuilderOptions) {build_ix : M (List Instruction)}
      → Keeps Quiet build_ix
      → Keeps S (build_and_handle_transaction p cfg opts options build_ix)
  made = built p cfg opts S law handled

  next :
      {A B : Type 0} {m : M A} {f : A → M B}
      → Keeps Quiet m
      → ((a : A) → Keeps S (f a))
      → Keeps S (m >>= f)
  next = and_then p cfg opts S law handled

  pub execute_vault_deposit-Keeps : Keeps S (execute_vault_deposit p cfg opts)
  unfolding execute_vault_deposit
  execute_vault_deposit-Keeps = executed p cfg opts S law handled _ λ params.
      next (of_pure) λ decimals. made _ (
        of_bind (get_boss-Quiet p cfg) λ boss.
          of_bind (of_pure) λ token_program.
            of_bind (build_offer_vault_deposit_ix-Quiet p cfg _ _ _ _) λ ix. of_pure)

  pub execute_vault_withdraw-Keeps : Keeps S (execute_vault_withdraw p cfg opts)
  unfolding execute_vault_withdraw
  execute_vault_withdraw-Keeps = executed p cfg opts S law handled _ λ params.
      next (of_pure) λ decimals. made _ (
        of_bind (get_boss-Quiet p cfg) λ boss. of_bind (of_pure) λ token_program.
          of_bind (build_offer_vault_withdraw_ix-Quiet p cfg _ _ _ _) λ ix. of_pure)

  pub execute_vault_redemption_deposit-Keeps : Keeps S (execute_vault_redemption_deposit p cfg opts)
  unfolding execute_vault_redemption_deposit
  execute_vault_redemption_deposit-Keeps = executed p cfg opts S law handled _ λ params.
      next (of_pure) λ decimals. made _ (
        of_bind (get_boss-Quiet p cfg) λ boss. of_bind (of_pure) λ token_program.
          of_bind (build_redemption_vault_deposit_ix-Quiet p cfg _ _ _ _) λ ix. of_pure)

  pub execute_vault_redemption_withdraw-Keeps :
      Keeps S (execute_vault_redemption_withdraw p cfg opts)
  unfolding execute_vault_redemption_withdraw
  execute_vault_redemption_withdraw-Keeps = executed p cfg opts S law handled _ λ params.
      next (of_pure) λ decimals. made _ (
        of_bind (get_boss-Quiet p cfg) λ boss. of_bind (of_pure) λ token_program.
          of_bind (build_redemption_vault_withdraw_ix-Quiet p cfg _ _ _ _) λ ix. of_pure)
