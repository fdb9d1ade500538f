-- ===== src/Commands/Safety/Setup.antt =====
-- Commands/Setup, as steps around the handling of one transaction.
use on_re_sol.Base.{not, List, none, ◌≡◌}
use on_re_sol.Js.{Object}
use on_re_sol.Session.{
  Platform, World, Instruction, Transaction, M, ◌>>=◌, Keeps, Absorbs, Keeps-if,
}
use on_re_sol.Session.Calm.{Quiet, of_pure, of_bind, of_option_lem, of_show}
use on_re_sol.Network.{NetworkConfig}
use on_re_sol.Transaction.{TransactionOptions, handle_transaction}
use on_re_sol.Commands.Wrapper.{is_json, is_dry_run, BuilderOptions, build_and_handle_transaction}
use on_re_sol.Commands.Frame.{confirm_dangerous-Quiet, of_Quiet, and_then, built, executed}
use on_re_sol.Helper.Calm.{
  build_initialize_permissionless_authority_ix-Quiet, build_mint_to_ix-Quiet,
  build_transfer_mint_authority_to_boss_ix-Quiet, get_boss-Quiet,
}
use on_re_sol.Helper.Calm.{
  build_initialize_ix-Quiet, build_transfer_mint_authority_to_program_ix-Quiet,
}
use on_re_sol.Commands.Setup.{
  execute_mint_authority_to_boss, execute_mint_to, execute_mint_authority_to_program,
  execute_init_program, execute_init_permissionless,
}

module _ (p : Platform) (cfg : NetworkConfig) (opts : Object) (S : World → World → Type 0)
    (law : Absorbs Quiet S)
    (handled : (tx : Transaction) (options : TransactionOptions)
      → options.json ≡ is_json opts
      → options.dry_run ≡ is_dry_run opts
      → Keeps S (handle_transaction p cfg tx options)) where
  made :
      (options : BuilderOptions) {build_ix : M (List Instruction)}
      → Keeps Quiet build_ix
      → Keeps S (build_and_handle_transaction p cfg opts options build_ix)
  made = built p cfg opts S law handled

  next :
      {A B : Type 0} {m : M A} {f : A → M B}
      → Keeps Quiet m
      → ((a : A) → Keeps S (f a))
      → Keeps S (m >>= f)
  next = and_then p cfg opts S law handled

  pub execute_mint_authority_to_boss-Keeps : Keeps S (execute_mint_authority_to_boss p cfg opts)
  unfolding execute_mint_authority_to_boss
  execute_mint_authority_to_boss-Keeps = executed p cfg opts S law handled _ λ params.
      next (of_option_lem _ _) λ address. made _ (
        of_bind (get_boss-Quiet p cfg) λ boss. of_bind (of_pure) λ token_program.
          of_bind (build_transfer_mint_authority_to_boss_ix-Quiet p cfg _ _ _) λ ix. of_pure)

  pub execute_mint_to-Keeps : Keeps S (execute_mint_to p cfg opts)
  unfolding execute_mint_to
  execute_mint_to-Keeps = executed p cfg opts S law handled _ λ params.
      next (of_option_lem _ _)
        λ address. made _ (of_bind (build_mint_to_ix-Quiet p cfg _) λ ix. of_pure)

  pub execute_init_permissionless-Keeps : Keeps S (execute_init_permissionless p cfg opts)
  unfolding execute_init_permissionless
  execute_init_permissionless-Keeps = executed p cfg opts S law handled _ λ params. made _ (
      of_bind (get_boss-Quiet p cfg) λ boss.
        of_bind (build_initialize_permissionless_authority_ix-Quiet p cfg _ _) λ ix. of_pure)

  pub execute_mint_authority_to_program-Keeps :
      Keeps S (execute_mint_authority_to_program p cfg opts)
  unfolding execute_mint_authority_to_program
  execute_mint_authority_to_program-Keeps = executed p cfg opts S law handled _ λ params.
      next
        (Keeps-if (is_json opts) (λ _. of_pure)
          λ _. of_bind (of_show _) λ _.
            of_bind (of_option_lem _ _)
              λ shown. of_bind (of_show _) λ _. of_bind (of_show _) λ _. of_show _)
        λ _.
          next
            (Keeps-if (not (is_dry_run opts)) (λ _. confirm_dangerous-Quiet p _ none) λ _. of_pure)
            λ confirmed.
              Keeps-if confirmed
                (λ _. next (of_option_lem _ _) λ address. made _ (
                  of_bind (get_boss-Quiet p cfg) λ boss. of_bind of_pure λ token_program.
                    of_bind (build_transfer_mint_authority_to_program_ix-Quiet p cfg _ _ _)
                      λ ix. of_pure))
                λ _. of_Quiet p cfg opts S law handled (of_show _)

  pub execute_init_program-Keeps : Keeps S (execute_init_program p cfg opts)
  unfolding execute_init_program
  execute_init_program-Keeps = executed p cfg opts S law handled _ λ params.
      next
        (Keeps-if (is_json opts) (λ _. of_pure)
          λ _. of_bind (of_show _) λ _. of_bind (of_show _) λ _.
            of_bind (of_option_lem _ _) λ shown.
              of_bind (of_show _) λ _. of_bind (of_show _) λ _. of_bind (of_show _) λ _. of_show _)
        λ _.
          next
            (Keeps-if (not (is_dry_run opts)) (λ _. confirm_dangerous-Quiet p _ none) λ _. of_pure)
            λ confirmed.
              Keeps-if confirmed
                (λ _. made _ (of_bind (build_initialize_ix-Quiet p cfg _ _ _) λ ix. of_pure))
                λ _. of_Quiet p cfg opts S law handled (of_show _)
