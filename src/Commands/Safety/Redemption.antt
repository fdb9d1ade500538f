-- ===== src/Commands/Safety/Redemption.antt =====
-- Commands/Redemption, as steps around the handling of one transaction.
use on_re_sol.Base.{List, Option, none, some, ◌≡◌}
use on_re_sol.Js.{Value, Object, truthy, PublicKey, equals}
use on_re_sol.Session.{
  Platform, World, Instruction, Transaction, M, ◌>>=◌, Keeps, Absorbs, Keeps-if,
}
use on_re_sol.Session.Calm.{Quiet, of_pure, of_bind, of_option_lem, of_show}
use on_re_sol.Network.{NetworkConfig}
use on_re_sol.Transaction.{TransactionOptions, handle_transaction}
use on_re_sol.Commands.Wrapper.{is_json, is_dry_run, BuilderOptions, build_and_handle_transaction}
use on_re_sol.Commands.Frame.{of_Quiet, and_then, built, executed}
use on_re_sol.Helper.Calm.{
  fetch_offer-Quiet, fetch_request-Quiet, build_cancel_redemption_request_ix-Quiet,
  build_create_redemption_request_ix-Quiet, build_fulfill_redemption_request_ix-Quiet,
  build_make_redemption_offer_ix-Quiet, build_update_redemption_offer_fee_ix-Quiet, get_boss-Quiet,
  get_state-Quiet, request_pda-Quiet,
}
use on_re_sol.Commands.Redemption.{
  execute_redemption_make_offer, execute_redemption_create_request, execute_redemption_fulfill,
  execute_redemption_cancel, execute_redemption_update_fee, execute_redemption_fetch_offer,
  execute_redemption_fetch_request, execute_redemption_list_requests, list_requests,
  request_filters, redemption_admin_of, default_key,
}

redemption_admin-Quiet : (o : Option PublicKey) → Keeps Quiet (redemption_admin_of o)
redemption_admin-Quiet none = of_pure
redemption_admin-Quiet (some k) = Keeps-if (equals k default_key) (λ _. of_pure) λ _. of_pure

module _ (p : Platform) (cfg : NetworkConfig) (opts : Object) (S : World → World → Type 0)
    (law : Absorbs Quiet S)
    (handled : (tx : Transaction) (options : TransactionOptions)
      → options.json ≡ is_json opts
      → options.dry_run ≡ is_dry_run opts
      → Keeps S (handle_transaction p cfg tx options)) where
  made :
      (options : BuilderOptions) {build_ix : M (List Instruction)}
      → Keeps Quiet build_ix
      → Keeps S (build_and_handle_transaction p cfg opts options build_ix)
  made = built p cfg opts S law handled

  next :
      {A B : Type 0} {m : M A} {f : A → M B}
      → Keeps Quiet m
      → ((a : A) → Keeps S (f a))
      → Keeps S (m >>= f)
  next = and_then p cfg opts S law handled

  pub execute_redemption_make_offer-Keeps : Keeps S (execute_redemption_make_offer p cfg opts)
  unfolding execute_redemption_make_offer
  execute_redemption_make_offer-Keeps = executed p cfg opts S law handled _ λ params. made _ (
      of_bind (get_boss-Quiet p cfg) λ boss. of_bind (of_pure) λ token_in_program.
        of_bind (of_pure) λ token_out_program.
          of_bind (build_make_redemption_offer_ix-Quiet p cfg _ _ _ _ _ _) λ ix. of_pure)

  pub execute_redemption_create_request-Keeps :
      Keeps S (execute_redemption_create_request p cfg opts)
  unfolding execute_redemption_create_request
  execute_redemption_create_request-Keeps = executed p cfg opts S law handled _ λ params.
      made _ (of_bind (build_create_redemption_request_ix-Quiet p cfg _ _ _ _ _) λ ix. of_pure)

  pub execute_redemption_fulfill-Keeps : Keeps S (execute_redemption_fulfill p cfg opts)
  unfolding execute_redemption_fulfill
  execute_redemption_fulfill-Keeps = executed p cfg opts S law handled _ λ params. made _ (
      of_bind (get_state-Quiet p cfg) λ state. of_bind (request_pda-Quiet p cfg _ _) λ request_pda.
        of_bind (redemption_admin-Quiet state.redemption_admin)
          λ admin. of_bind (build_fulfill_redemption_request_ix-Quiet p cfg _ _ _) λ ix. of_pure)

  pub execute_redemption_cancel-Keeps : Keeps S (execute_redemption_cancel p cfg opts)
  unfolding execute_redemption_cancel
  execute_redemption_cancel-Keeps = executed p cfg opts S law handled _ λ params. made _ (
      of_bind (get_boss-Quiet p cfg) λ requester.
        of_bind (request_pda-Quiet p cfg _ _) λ request_pda.
          of_bind (build_cancel_redemption_request_ix-Quiet p cfg _ _ _) λ ix. of_pure)

  pub execute_redemption_update_fee-Keeps : Keeps S (execute_redemption_update_fee p cfg opts)
  unfolding execute_redemption_update_fee
  execute_redemption_update_fee-Keeps = executed p cfg opts S law handled _ λ params. made _ (
      of_bind (get_boss-Quiet p cfg)
        λ boss. of_bind (build_update_redemption_offer_fee_ix-Quiet p cfg _ _ _) λ ix. of_pure)

  pub execute_redemption_fetch_offer-Keeps : Keeps S (execute_redemption_fetch_offer p cfg opts)
  unfolding execute_redemption_fetch_offer
  execute_redemption_fetch_offer-Keeps = executed p cfg opts S law handled _ λ params.
      next (fetch_offer-Quiet p cfg _ _) λ offer. next (of_option_lem _ _) λ token_in.
        next (of_option_lem _ _) λ token_out. of_Quiet p cfg opts S law handled (of_show _)

  pub execute_redemption_fetch_request-Keeps : Keeps S (execute_redemption_fetch_request p cfg opts)
  unfolding execute_redemption_fetch_request
  execute_redemption_fetch_request-Keeps = executed p cfg opts S law handled _ λ params.
      next (fetch_request-Quiet p cfg _ _) λ request. of_Quiet p cfg opts S law handled (of_show _)

  request_filters-Quiet :
      (offer : PublicKey) (redeemer : Value)
      → Keeps Quiet (request_filters p cfg opts offer redeemer)
  unfolding request_filters
  request_filters-Quiet offer redeemer =
      Keeps-if (truthy redeemer) (λ _. of_bind (of_option_lem _ _) λ s. of_pure) λ _. of_pure

  pub execute_redemption_list_requests-Keeps : Keeps S (execute_redemption_list_requests p cfg opts)
  unfolding execute_redemption_list_requests list_requests
  execute_redemption_list_requests-Keeps = executed p cfg opts S law handled _ λ params.
      next (request_filters-Quiet _ _)
        λ filters. next of_pure λ formatted. of_Quiet p cfg opts S law handled (of_show _)
