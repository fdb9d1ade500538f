-- ===== src/Commands/Safety/Offer.antt =====
-- Commands/Offer, as steps around the handling of one transaction.
use on_re_sol.Base.{List, ◌≡◌}
use on_re_sol.Js.{Object, get, truthy}
use on_re_sol.Session.{
  Platform, World, Instruction, Transaction, M, ◌>>=◌, Keeps, Absorbs, Keeps-if,
}
use on_re_sol.Session.Calm.{Quiet, of_pure, of_bind, of_option_lem}
use on_re_sol.Network.{NetworkConfig}
use on_re_sol.Prompts.Calm.{calm}
use on_re_sol.Transaction.{TransactionOptions, handle_transaction}
use on_re_sol.Commands.Wrapper.{is_json, is_dry_run, BuilderOptions, build_and_handle_transaction}
use on_re_sol.Commands.Frame.{short_base58-Quiet, and_then, built, executed}
use on_re_sol.Helper.Calm.{
  build_add_offer_vector_ix-Quiet, build_create_permissionless_token_accounts_ixs-Quiet,
  build_delete_all_offer_vectors_ix-Quiet, build_delete_offer_vector_ix-Quiet,
  build_make_offer_ix-Quiet, build_take_offer_ix-Quiet, build_take_offer_permissionless_ix-Quiet,
  build_update_offer_fee_ix-Quiet, get_boss-Quiet,
}
use on_re_sol.Commands.Offer.{
  execute_offer_make, execute_offer_add_vector, execute_offer_delete_vector,
  execute_offer_delete_all_vectors, execute_offer_update_fee, execute_offer_take,
}

module _ (p : Platform) (cfg : NetworkConfig) (opts : Object) (S : World → World → Type 0)
    (law : Absorbs Quiet S)
    (handled : (tx : Transaction) (options : TransactionOptions)
      → options.json ≡ is_json opts
      → options.dry_run ≡ is_dry_run opts
      → Keeps S (handle_transaction p cfg tx options)) where
  made :
      (options : BuilderOptions) {build_ix : M (List Instruction)}
      → Keeps Quiet build_ix
      → Keeps S (build_and_handle_transaction p cfg opts options build_ix)
  made = built p cfg opts S law handled

  next :
      {A B : Type 0} {m : M A} {f : A → M B}
      → Keeps Quiet m
      → ((a : A) → Keeps S (f a))
      → Keeps S (m >>= f)
  next = and_then p cfg opts S law handled

  pub execute_offer_make-Keeps : Keeps S (execute_offer_make p cfg opts)
  unfolding execute_offer_make
  execute_offer_make-Keeps = executed p cfg opts S law handled _ λ params.
      next (short_base58-Quiet _) λ token_in. next (short_base58-Quiet _) λ token_out. made _ (
        of_bind (get_boss-Quiet p cfg) λ boss. of_bind (of_pure) λ token_in_program.
          of_bind (of_pure) λ token_out_program.
            of_bind (Keeps-if (is_json opts) (λ _. of_pure) (λ _. search calm)) λ _.
              of_bind
                (Keeps-if (truthy (get params "permissionless"))
                  (λ _. build_create_permissionless_token_accounts_ixs-Quiet p cfg _ _ _ _ _)
                  (λ _. of_pure))
                λ account_ixs.
                  of_bind (build_make_offer_ix-Quiet p cfg _ _ _ _ _ _ _) λ make_ix. of_pure)

  pub execute_offer_add_vector-Keeps : Keeps S (execute_offer_add_vector p cfg opts)
  unfolding execute_offer_add_vector
  execute_offer_add_vector-Keeps = executed p cfg opts S law handled _ λ params.
      next (short_base58-Quiet _) λ token_in. next (short_base58-Quiet _) λ token_out.
        next (of_option_lem _ _) λ date. made _ (
          of_bind (get_boss-Quiet p cfg)
            λ boss. of_bind (build_add_offer_vector_ix-Quiet p cfg _ _ _ _ _ _ _) λ ix. of_pure)

  pub execute_offer_delete_vector-Keeps : Keeps S (execute_offer_delete_vector p cfg opts)
  unfolding execute_offer_delete_vector
  execute_offer_delete_vector-Keeps = executed p cfg opts S law handled _ λ params.
      next (of_option_lem _ _) λ date. made _ (
        of_bind (get_boss-Quiet p cfg)
          λ boss. of_bind (build_delete_offer_vector_ix-Quiet p cfg _ _ _ _) λ ix. of_pure)

  pub execute_offer_delete_all_vectors-Keeps : Keeps S (execute_offer_delete_all_vectors p cfg opts)
  unfolding execute_offer_delete_all_vectors
  execute_offer_delete_all_vectors-Keeps = executed p cfg opts S law handled _ λ params. made _ (
      of_bind (get_boss-Quiet p cfg)
        λ boss. of_bind (build_delete_all_offer_vectors_ix-Quiet p cfg _ _ _) λ ix. of_pure)

  pub execute_offer_update_fee-Keeps : Keeps S (execute_offer_update_fee p cfg opts)
  unfolding execute_offer_update_fee
  execute_offer_update_fee-Keeps = executed p cfg opts S law handled _ λ params. made _ (
      of_bind (get_boss-Quiet p cfg)
        λ boss. of_bind (build_update_offer_fee_ix-Quiet p cfg _ _ _ _) λ ix. of_pure)

  pub execute_offer_take-Keeps : Keeps S (execute_offer_take p cfg opts)
  unfolding execute_offer_take
  execute_offer_take-Keeps = executed p cfg opts S law handled _ λ params.
      next (short_base58-Quiet _) λ token_in. next (short_base58-Quiet _) λ token_out. made _ (
        of_bind (of_pure) λ token_in_program. of_bind (of_pure) λ token_out_program.
          of_bind
            (Keeps-if (truthy (get params "permissionless"))
              (λ _. build_take_offer_permissionless_ix-Quiet p cfg _ _ _ _ _ _)
              (λ _. build_take_offer_ix-Quiet p cfg _ _ _ _ _ _))
            λ ix. of_pure)
