-- ===== src/Commands/Offer.antt =====
-- scripts/cli/implementations/offer: the commands about offers.
use on_re_sol.Base.{◌<>◌, [], ◌∷◌, ◌++◌, some, if◌then◌else◌}
use on_re_sol.Js.{PublicKey, base58, Object, get, undefined, str, pubkey, truthy, slice_from_start}
use on_re_sol.Session.{Platform, line, M, pure, lift, of_option, show, ◌>>=◌, ◌>>◌}
use on_re_sol.Network.{NetworkConfig}
use on_re_sol.Tokens.{get_token_program_id}
use on_re_sol.Helper.Addresses.{get_boss}
use on_re_sol.Commands.Wrapper.{
  is_json, short_base58_of, execute_command, build_and_handle_transaction,
}
use on_re_sol.Params.Offer.{
  make_offer_params, add_vector_params, delete_vector_params, update_fee_params, take_offer_params,
}
use on_re_sol.Params.Common.{token_pair_params}
use on_re_sol.Helper.Offer.{
  build_make_offer_ix, build_add_offer_vector_ix, build_update_offer_fee_ix,
  build_delete_offer_vector_ix, build_delete_all_offer_vectors_ix, build_take_offer_ix,
  build_take_offer_permissionless_ix, build_create_permissionless_token_accounts_ixs,
}

abbrev show_programs : PublicKey → PublicKey → M (Unit {0})
show_programs token_in_program token_out_program =
    show (line ("  Token In Program: " <> (slice_from_start 12 (base58 token_in_program) <> "...")))
    >> show (
        line ("  Token Out Program: " <> (slice_from_start 12 (base58 token_out_program) <> "...")))

module _ (p : Platform) (cfg : NetworkConfig) (opts : Object) where
  unfoldable pub execute_offer_make : M (Unit {0})
  execute_offer_make = execute_command p cfg opts make_offer_params λ params. do
    token_in ← short_base58_of (get params "tokenIn")
    token_out ← short_base58_of (get params "tokenOut")
    build_and_handle_transaction p cfg opts
        (record {
          title = "Make Offer Transaction";
          description = some ("Creates a new " <> (token_in <> (" → " <> (token_out <> " offer"))));
          payer = undefined;
          param_summary = some (
            "Creating offer:",
            ("tokenIn", get params "tokenIn")
                ∷ ("tokenOut", get params "tokenOut")
                ∷ (
                  "fee",
                  str (
                      p.ratio_text (get params "fee") 100
                      <> ("% (" <> (p.text_of (get params "fee") <> " bps)"))),
                )
                ∷ ("needsApproval", get params "needsApproval")
                ∷ ("permissionless", get params "permissionless")
                ∷ [],
          );
        })
        (do
          boss ← get_boss p cfg
          token_in_program ← lift (get_token_program_id cfg (get params "tokenIn"))
          token_out_program ← lift (get_token_program_id cfg (get params "tokenOut"))
          if is_json opts then pure tt else show_programs token_in_program token_out_program
          account_ixs ←
              if truthy (get params "permissionless")
              then build_create_permissionless_token_accounts_ixs p cfg (get params "tokenIn")
                  (get params "tokenOut") (pubkey token_in_program) (pubkey token_out_program)
                  (pubkey boss)
              else pure []
          make_ix ←
              build_make_offer_ix p cfg (get params "tokenIn") (get params "tokenOut")
                (get params "fee") (get params "needsApproval") (get params "permissionless")
                (pubkey token_in_program) (pubkey boss)
          pure (account_ixs ++ (make_ix ∷ [])))

  unfoldable pub execute_offer_add_vector : M (Unit {0})
  execute_offer_add_vector = execute_command p cfg opts add_vector_params λ params. do
    token_in ← short_base58_of (get params "tokenIn")
    token_out ← short_base58_of (get params "tokenOut")
    date ← of_option "Invalid time value" (p.iso_of_seconds (get params "baseTime"))
    build_and_handle_transaction p cfg opts
        (record {
          title = "Add Offer Vector Transaction";
          description =
              some ("Adds pricing vector to " <> (token_in <> (" → " <> (token_out <> " offer"))));
          payer = undefined;
          param_summary = some (
            "Adding price vector:",
            ("tokenIn", get params "tokenIn")
                ∷ ("tokenOut", get params "tokenOut")
                ∷ ("baseTime", str date)
                ∷ ("basePrice", get params "basePrice")
                ∷ (
                  "apr",
                  str (
                      p.ratio_text (get params "apr") 10000
                      <> ("% (" <> (p.text_of (get params "apr") <> ")"))),
                )
                ∷ ("duration", str (p.text_of (get params "duration") <> "s"))
                ∷ [],
          );
        })
        (do
          boss ← get_boss p cfg
          ix ←
              build_add_offer_vector_ix p cfg (get params "tokenIn") (get params "tokenOut")
                (get params "baseTime") (get params "basePrice") (get params "apr")
                (get params "duration") (pubkey boss)
          pure (ix ∷ []))

  unfoldable pub execute_offer_delete_vector : M (Unit {0})
  execute_offer_delete_vector = execute_command p cfg opts delete_vector_params λ params. do
    date ← of_option "Invalid time value" (p.iso_of_seconds (get params "startTime"))
    build_and_handle_transaction p cfg opts
        (record {
          title = "Delete Offer Vector Transaction";
          description = some (
              "Deletes vector starting at "
              <> (p.text_of (get params "startTime") <> " from offer"));
          payer = undefined;
          param_summary = some (
            "Deleting price vector:",
            ("tokenIn", get params "tokenIn")
                ∷ ("tokenOut", get params "tokenOut")
                ∷ ("startTime", str date)
                ∷ [],
          );
        })
        (do
          boss ← get_boss p cfg
          ix ←
              build_delete_offer_vector_ix p cfg (get params "tokenIn") (get params "tokenOut")
                (get params "startTime") (pubkey boss)
          pure (ix ∷ []))

  unfoldable pub execute_offer_delete_all_vectors : M (Unit {0})
  execute_offer_delete_all_vectors = execute_command p cfg opts token_pair_params λ params. do
    build_and_handle_transaction p cfg opts
        (record {
          title = "Delete All Offer Vectors Transaction";
          description = some ("Deletes all pricing vectors from offer");
          payer = undefined;
          param_summary = some (
            "Deleting all price vectors:",
            ("tokenIn", get params "tokenIn") ∷ ("tokenOut", get params "tokenOut") ∷ [],
          );
        })
        (do
          boss ← get_boss p cfg
          ix ←
              build_delete_all_offer_vectors_ix p cfg (get params "tokenIn") (get params "tokenOut")
                (pubkey boss)
          pure (ix ∷ []))

  unfoldable pub execute_offer_update_fee : M (Unit {0})
  execute_offer_update_fee = execute_command p cfg opts update_fee_params λ params. do
    build_and_handle_transaction p cfg opts
        (record {
          title = "Update Offer Fee Transaction";
          description = some ("Updates fee to " <> (p.ratio_text (get params "fee") 100 <> "%"));
          payer = undefined;
          param_summary = some (
            "Updating offer fee:",
            ("tokenIn", get params "tokenIn")
                ∷ ("tokenOut", get params "tokenOut")
                ∷ (
                  "newFee",
                  str (
                      p.ratio_text (get params "fee") 100
                      <> ("% (" <> (p.text_of (get params "fee") <> " bps)"))),
                )
                ∷ [],
          );
        })
        (do
          boss ← get_boss p cfg
          ix ←
              build_update_offer_fee_ix p cfg (get params "tokenIn") (get params "tokenOut")
                (get params "fee") (pubkey boss)
          pure (ix ∷ []))

  unfoldable pub execute_offer_take : M (Unit {0})
  execute_offer_take = execute_command p cfg opts take_offer_params λ params. do
    token_in ← short_base58_of (get params "tokenIn")
    token_out ← short_base58_of (get params "tokenOut")
    build_and_handle_transaction p cfg opts
        (record {
          title = "Take Offer Transaction";
          description = some (
              "Takes "
              <> (p.text_of (get params "amount")
                  <> (" of " <> (token_in <> (" for " <> token_out)))));
          payer = pubkey p.wallet;
          param_summary = some (
            "Taking offer:",
            ("tokenIn", get params "tokenIn")
                ∷ ("tokenOut", get params "tokenOut")
                ∷ ("amount", get params "amount")
                ∷ ("permissionless", get params "permissionless")
                ∷ [],
          );
        })
        (do
          token_in_program ← lift (get_token_program_id cfg (get params "tokenIn"))
          token_out_program ← lift (get_token_program_id cfg (get params "tokenOut"))
          ix ←
              if truthy (get params "permissionless")
              then build_take_offer_permissionless_ix p cfg (get params "amount")
                  (get params "tokenIn") (get params "tokenOut") (pubkey p.wallet)
                  (pubkey token_in_program) (pubkey token_out_program)
              else build_take_offer_ix p cfg (get params "amount") (get params "tokenIn")
                  (get params "tokenOut") (pubkey p.wallet) (pubkey token_in_program)
                  (pubkey token_out_program)
          pure (ix ∷ []))
