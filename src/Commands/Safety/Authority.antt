-- ===== src/Commands/Safety/Authority.antt =====
-- Commands/Authority and Commands/State, as steps around the handling of one transaction.
use on_re_sol.Base.{String, not, ◌&&◌, List, none, some, ◌≡◌, leb}
use on_re_sol.Js.{Object}
use on_re_sol.Session.{
  Platform, World, Instruction, Transaction, M, ◌>>=◌, Keeps, Absorbs, Keeps-if,
}
use on_re_sol.Session.Calm.{Quiet, of_pure, of_bind, of_option_lem, of_show}
use on_re_sol.Network.{NetworkConfig}
use on_re_sol.Transaction.{TransactionOptions, handle_transaction}
use on_re_sol.Commands.Wrapper.{is_json, is_dry_run, BuilderOptions, build_and_handle_transaction}
use on_re_sol.Commands.Frame.{confirm_dangerous-Quiet, of_Quiet, and_then, built, executed}
use on_re_sol.Helper.Calm.{
  build_accept_boss_ix-Quiet, build_add_admin_ix-Quiet, build_add_approver_ix-Quiet,
  build_configure_max_supply_ix-Quiet, build_propose_boss_ix-Quiet, build_remove_admin_ix-Quiet,
  build_remove_approver_ix-Quiet, build_set_onyc_mint_ix-Quiet, build_set_redemption_admin_ix-Quiet,
  get_boss-Quiet, get_state-Quiet,
}
use on_re_sol.Session.{Report, line, show, ◌>>◌}
use on_re_sol.Commands.Wrapper.{confirm_dangerous_operation}
use on_re_sol.Helper.Calm.{
  build_close_state_ix-Quiet, build_set_kill_switch_ix-Quiet, build_clear_admins_ix-Quiet,
}
use on_re_sol.Commands.Authority.{
  execute_state_propose_boss, execute_state_accept_boss, execute_state_add_admin,
  execute_state_remove_admin, execute_state_add_approver, execute_state_remove_approver,
  execute_state_set_redemption_admin,
}
use on_re_sol.Commands.State.{
  admin_count, execute_state_get, execute_state_set_onyc_mint, execute_state_max_supply,
  execute_state_close, execute_state_kill_switch, execute_state_clear_admins,
}

module _ (p : Platform) (cfg : NetworkConfig) (opts : Object) (S : World → World → Type 0)
    (law : Absorbs Quiet S)
    (handled : (tx : Transaction) (options : TransactionOptions)
      → options.json ≡ is_json opts
      → options.dry_run ≡ is_dry_run opts
      → Keeps S (handle_transaction p cfg tx options)) where
  made :
      (options : BuilderOptions) {build_ix : M (List Instruction)}
      → Keeps Quiet build_ix
      → Keeps S (build_and_handle_transaction p cfg opts options build_ix)
  made = built p cfg opts S law handled

  next :
      {A B : Type 0} {m : M A} {f : A → M B}
      → Keeps Quiet m
      → ((a : A) → Keeps S (f a))
      → Keeps S (m >>= f)
  next = and_then p cfg opts S law handled

  pub execute_state_propose_boss-Keeps : Keeps S (execute_state_propose_boss p cfg opts)
  unfolding execute_state_propose_boss
  execute_state_propose_boss-Keeps = executed p cfg opts S law handled _ λ params.
      next (of_option_lem _ _) λ address. made _ (
        of_bind (get_boss-Quiet p cfg)
          λ boss. of_bind (build_propose_boss_ix-Quiet p cfg _ _) λ ix. of_pure)

  pub execute_state_accept_boss-Keeps : Keeps S (execute_state_accept_boss p cfg opts)
  unfolding execute_state_accept_boss
  execute_state_accept_boss-Keeps =
      executed p cfg opts S law handled _
        λ params. made _ (of_bind (build_accept_boss_ix-Quiet p cfg _) λ ix. of_pure)

  pub execute_state_add_admin-Keeps : Keeps S (execute_state_add_admin p cfg opts)
  unfolding execute_state_add_admin
  execute_state_add_admin-Keeps = executed p cfg opts S law handled _ λ params.
      next (of_option_lem _ _) λ address. made _ (
        of_bind (get_boss-Quiet p cfg)
          λ boss. of_bind (build_add_admin_ix-Quiet p cfg _ _) λ ix. of_pure)

  pub execute_state_remove_admin-Keeps : Keeps S (execute_state_remove_admin p cfg opts)
  unfolding execute_state_remove_admin
  execute_state_remove_admin-Keeps = executed p cfg opts S law handled _ λ params.
      next (of_option_lem _ _) λ address. made _ (
        of_bind (get_boss-Quiet p cfg)
          λ boss. of_bind (build_remove_admin_ix-Quiet p cfg _ _) λ ix. of_pure)

  pub execute_state_add_approver-Keeps : Keeps S (execute_state_add_approver p cfg opts)
  unfolding execute_state_add_approver
  execute_state_add_approver-Keeps = executed p cfg opts S law handled _ λ params.
      next (of_option_lem _ _) λ address. made _ (
        of_bind (get_boss-Quiet p cfg)
          λ boss. of_bind (build_add_approver_ix-Quiet p cfg _ _) λ ix. of_pure)

  pub execute_state_remove_approver-Keeps : Keeps S (execute_state_remove_approver p cfg opts)
  unfolding execute_state_remove_approver
  execute_state_remove_approver-Keeps = executed p cfg opts S law handled _ λ params.
      next (of_option_lem _ _) λ address. made _ (
        of_bind (get_boss-Quiet p cfg)
          λ boss. of_bind (build_remove_approver_ix-Quiet p cfg _ _) λ ix. of_pure)

  pub execute_state_set_onyc_mint-Keeps : Keeps S (execute_state_set_onyc_mint p cfg opts)
  unfolding execute_state_set_onyc_mint
  execute_state_set_onyc_mint-Keeps = executed p cfg opts S law handled _ λ params.
      next (of_option_lem _ _) λ address. made _ (
        of_bind (get_boss-Quiet p cfg)
          λ boss. of_bind (build_set_onyc_mint_ix-Quiet p cfg _ _) λ ix. of_pure)

  pub execute_state_set_redemption_admin-Keeps :
      Keeps S (execute_state_set_redemption_admin p cfg opts)
  unfolding execute_state_set_redemption_admin
  execute_state_set_redemption_admin-Keeps = executed p cfg opts S law handled _ λ params.
      next (of_option_lem _ _) λ address. made _ (
        of_bind (get_boss-Quiet p cfg)
          λ boss. of_bind (build_set_redemption_admin_ix-Quiet p cfg _ _) λ ix. of_pure)

  pub execute_state_max_supply-Keeps : Keeps S (execute_state_max_supply p cfg opts)
  unfolding execute_state_max_supply
  execute_state_max_supply-Keeps = executed p cfg opts S law handled _ λ params. made _ (
      of_bind (get_boss-Quiet p cfg)
        λ boss. of_bind (build_configure_max_supply_ix-Quiet p cfg _ _) λ ix. of_pure)

  warned :
      (a b : Report) (message phrase : String)
      → Keeps Quiet (
          show a
          >> (show b >> (show (line "") >> confirm_dangerous_operation p message (some phrase))))
  warned a b message phrase = of_bind (of_show a) λ _.
      of_bind (of_show b)
        λ _. of_bind (of_show _) λ _. confirm_dangerous-Quiet p message (some phrase)

  pub execute_state_close-Keeps : Keeps S (execute_state_close p cfg opts)
  unfolding execute_state_close
  execute_state_close-Keeps = executed p cfg opts S law handled _ λ params.
      next
        (Keeps-if (not (is_json opts) && not (is_dry_run opts)) (λ _. warned _ _ _ _) λ _. of_pure)
        λ confirmed.
          Keeps-if confirmed
            (λ _. made _ (
              of_bind (get_boss-Quiet p cfg)
                λ boss. of_bind (build_close_state_ix-Quiet p cfg _) λ ix. of_pure))
            λ _. of_Quiet p cfg opts S law handled (of_show _)

  pub execute_state_kill_switch-Keeps : Keeps S (execute_state_kill_switch p cfg opts)
  unfolding execute_state_kill_switch
  execute_state_kill_switch-Keeps = executed p cfg opts S law handled _ λ params.
      next
        (Keeps-if (not (is_json opts) && not (is_dry_run opts)) (λ _. warned _ _ _ _) λ _. of_pure)
        λ confirmed.
          Keeps-if confirmed
            (λ _. made _ (
              of_bind (get_boss-Quiet p cfg)
                λ boss. of_bind (build_set_kill_switch_ix-Quiet p cfg _ _) λ ix. of_pure))
            λ _. of_Quiet p cfg opts S law handled (of_show _)

  pub execute_state_clear_admins-Keeps : Keeps S (execute_state_clear_admins p cfg opts)
  unfolding execute_state_clear_admins
  execute_state_clear_admins-Keeps = executed p cfg opts S law handled _ λ params.
      next (get_state-Quiet p cfg) λ state.
        Keeps-if (leb (admin_count p.wallet state.admins) 0 && not (is_json opts))
          (λ _. of_Quiet p cfg opts S law handled (of_show _))
          λ _.
            next
              (Keeps-if (not (is_json opts) && not (is_dry_run opts))
                (λ _. of_bind (of_show _) λ _. confirm_dangerous-Quiet p _ none) λ _. of_pure)
              λ confirmed.
                Keeps-if confirmed
                  (λ _. made _ (
                    of_bind (get_boss-Quiet p cfg)
                      λ boss. of_bind (build_clear_admins_ix-Quiet p cfg _) λ ix. of_pure))
                  λ _. of_Quiet p cfg opts S law handled (of_show _)

  pub execute_state_get-Keeps : Keeps S (execute_state_get p cfg opts)
  unfolding execute_state_get
  execute_state_get-Keeps =
      executed p cfg opts S law handled _ λ params.
        next (get_state-Quiet p cfg) λ state. of_Quiet p cfg opts S law handled (of_show _)
