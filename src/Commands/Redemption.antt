-- ===== src/Commands/Redemption.antt =====
-- scripts/cli/implementations/redemption: the commands about redemptions.
pub mod Order
pub mod Admin
use on_re_sol.Base.{
  ◌+◌, any, map, leb, ℕ, String, ◌<>◌, Bool, true, false, not, ◌&&◌, List, [], ◌∷◌, ◌++◌, Option,
  none, some, pos, ◌==◌, length, if◌then◌else◌,
}
use on_re_sol.Js.{
  PublicKey, key, base58, equals, Value, Object, get, undefined, null, bool, num, int, str, pubkey,
  truthy, or_else,
}
use on_re_sol.Session.{
  Platform, State, Instruction, Report, line, state_details, redemption_offer, redemption_request,
  redemption_requests, RedemptionRequest, M, Outcome, ok, throw, pure, fail, lift, of_option, show,
  ◌>>=◌, ◌>>◌,
}
use on_re_sol.Network.{NetworkConfig, Mints}
use on_re_sol.Tokens.{get_token_decimals, get_token_program_id}
use on_re_sol.Helper.Addresses.{
  state_pda, mint_authority_pda, program_data_pda, get_state, get_boss, get_redemption_offer_pda,
  get_redemption_request_pda, fetch_redemption_offer, fetch_redemption_request,
}
use on_re_sol.Commands.Wrapper.{
  is_json, is_dry_run, base58_of, short_base58_of, BuilderOptions, execute_command,
  build_and_handle_transaction, confirm_dangerous_operation,
}
use on_re_sol.Params.Redemption.{
  redemption_offer_params, create_request_params, request_params, update_redemption_fee_params,
  list_requests_params,
}
use on_re_sol.Params.Common.{token_pair_params}
use on_re_sol.Helper.Redemption.{
  build_make_redemption_offer_ix, build_fulfill_redemption_request_ix,
  build_cancel_redemption_request_ix, build_update_redemption_offer_fee_ix,
  build_create_redemption_request_ix,
}

-- `PublicKey.default`
abbrev pub default_key : PublicKey
default_key = key "11111111111111111111111111111111"

abbrev not_set : String
not_set =
    "Redemption admin is not set in program state. Please set a redemption admin first using: npm run cli -- state set-redemption-admin"

-- The redemption admin, if one is set.
abbrev pub redemption_admin_of : Option PublicKey → M PublicKey
redemption_admin_of none = fail not_set
redemption_admin_of (some k) = if equals k default_key then fail not_set else pure k

-- `sort((a, b) => a.id - b.id)` keeps the order of equal ids.
unfoldable pub insert_by_id :
    ℕ × RedemptionRequest → List (ℕ × RedemptionRequest) → List (ℕ × RedemptionRequest)
insert_by_id r [] = r ∷ []
insert_by_id r (s ∷ rs) = if leb r.0 s.0 then r ∷ (s ∷ rs) else s ∷ insert_by_id r rs

unfoldable pub sort_by_id : List (ℕ × RedemptionRequest) → List (ℕ × RedemptionRequest)
unfolding insert_by_id
sort_by_id [] = []
sort_by_id (r ∷ rs) = insert_by_id r (sort_by_id rs)

-- `toNumber` of a big number: more than 53 bits throw.
abbrev pub is_unsafe : RedemptionRequest → Bool
is_unsafe r = leb 9_007_199_254_740_992 r.request_id

unfoldable pub formatted_requests : List RedemptionRequest → Outcome (List (ℕ × RedemptionRequest))
formatted_requests requests =
    if any is_unsafe requests
    then throw "Number can only safely store up to 53 bits"
    else ok (sort_by_id (map (λ r. (r.request_id, r)) requests))

module _ (p : Platform) (cfg : NetworkConfig) (opts : Object) where
  unfoldable pub execute_redemption_make_offer : M (Unit {0})
  execute_redemption_make_offer = execute_command p cfg opts redemption_offer_params λ params. do
    build_and_handle_transaction p cfg opts
        (record {
          title = "Make Redemption Offer Transaction";
          description = some ("Creates redemption offer");
          payer = undefined;
          param_summary = some (
            "Creating redemption offer:",
            ("tokenIn", get params "tokenIn")
                ∷ ("tokenOut", get params "tokenOut")
                ∷ (
                  "fee",
                  str (
                      p.ratio_text (get params "fee") 100
                      <> ("% (" <> (p.text_of (get params "fee") <> " bps)"))),
                )
                ∷ [],
          );
        })
        (do
          boss ← get_boss p cfg
          token_in_program ← lift (get_token_program_id cfg (get params "tokenIn"))
          token_out_program ← lift (get_token_program_id cfg (get params "tokenOut"))
          ix ←
              build_make_redemption_offer_ix p cfg (get params "tokenIn") (pubkey token_in_program)
                (get params "tokenOut") (pubkey token_out_program) (get params "fee") (pubkey boss)
          pure (ix ∷ []))

  unfoldable pub execute_redemption_create_request : M (Unit {0})
  execute_redemption_create_request = execute_command p cfg opts create_request_params λ params. do
    build_and_handle_transaction p cfg opts
        (record {
          title = "Create Redemption Request Transaction";
          description =
              some (
                "Creates redemption request for "
                <> (p.text_of (get params "amount") <> " tokens"));
          payer = pubkey p.wallet;
          param_summary = some (
            "Creating redemption request:",
            ("redeemer", pubkey p.wallet)
                ∷ ("tokenIn", get params "tokenIn")
                ∷ ("tokenOut", get params "tokenOut")
                ∷ ("amount", get params "amount")
                ∷ [],
          );
        })
        (do
          let offer_pda =
              get_redemption_offer_pda p cfg (get params "tokenIn") (get params "tokenOut")
          ix ←
              build_create_redemption_request_ix p cfg (pubkey offer_pda) (get params "tokenIn")
                (get params "amount") (pubkey p.wallet) undefined
          pure (ix ∷ []))

  unfoldable pub execute_redemption_fulfill : M (Unit {0})
  execute_redemption_fulfill = execute_command p cfg opts request_params λ params. do
    build_and_handle_transaction p cfg opts
        (record {
          title = "Fulfill Redemption Request Transaction";
          description =
              some ("Fulfills redemption request #" <> p.text_of (get params "requestId"));
          payer = undefined;
          param_summary = some (
            "Fulfilling redemption request:",
            ("tokenIn", get params "tokenIn")
                ∷ ("tokenOut", get params "tokenOut")
                ∷ ("requestId", get params "requestId")
                ∷ [],
          );
        })
        (do
          state ← get_state p cfg
          let offer_pda =
              get_redemption_offer_pda p cfg (get params "tokenIn") (get params "tokenOut")
          request_pda ← get_redemption_request_pda p cfg offer_pda (get params "requestId")
          admin ← redemption_admin_of state.redemption_admin
          ix ←
              build_fulfill_redemption_request_ix p cfg (pubkey offer_pda) (pubkey request_pda)
                (pubkey admin)
          pure (ix ∷ []))

  unfoldable pub execute_redemption_cancel : M (Unit {0})
  execute_redemption_cancel = execute_command p cfg opts request_params λ params. do
    build_and_handle_transaction p cfg opts
        (record {
          title = "Cancel Redemption Request Transaction";
          description = some ("Cancels redemption request #" <> p.text_of (get params "requestId"));
          payer = undefined;
          param_summary = some (
            "Cancelling redemption request:",
            ("tokenIn", get params "tokenIn")
                ∷ ("tokenOut", get params "tokenOut")
                ∷ ("requestId", get params "requestId")
                ∷ [],
          );
        })
        (do
          requester ← get_boss p cfg
          let offer_pda =
              get_redemption_offer_pda p cfg (get params "tokenIn") (get params "tokenOut")
          request_pda ← get_redemption_request_pda p cfg offer_pda (get params "requestId")
          ix ←
              build_cancel_redemption_request_ix p cfg (pubkey offer_pda) (pubkey request_pda)
                (pubkey requester)
          pure (ix ∷ []))

  unfoldable pub execute_redemption_update_fee : M (Unit {0})
  execute_redemption_update_fee = execute_command p cfg opts update_redemption_fee_params λ params.
      do
        build_and_handle_transaction p cfg opts
            (record {
              title = "Update Redemption Fee Transaction";
              description =
                  some
                    ("Updates redemption fee to " <> (p.ratio_text (get params "fee") 100 <> "%"));
              payer = undefined;
              param_summary = some (
                "Updating redemption fee:",
                ("tokenIn", get params "tokenIn")
                    ∷ ("tokenOut", get params "tokenOut")
                    ∷ (
                      "newFee",
                      str (
                          p.ratio_text (get params "fee") 100
                          <> ("% (" <> (p.text_of (get params "fee") <> " bps)"))),
                    )
                    ∷ [],
              );
            })
            (do
              boss ← get_boss p cfg
              let offer_pda =
                  get_redemption_offer_pda p cfg (get params "tokenIn") (get params "tokenOut")
              ix ←
                  build_update_redemption_offer_fee_ix p cfg (pubkey offer_pda) (get params "fee")
                    (pubkey boss)
              pure (ix ∷ []))

  unfoldable pub execute_redemption_fetch_offer : M (Unit {0})
  execute_redemption_fetch_offer = execute_command p cfg opts token_pair_params λ params. do
    offer ← fetch_redemption_offer p cfg (get params "tokenIn") (get params "tokenOut")
    token_in ← base58_of (get params "tokenIn")
    token_out ← base58_of (get params "tokenOut")
    show (redemption_offer offer token_in token_out)

  unfoldable pub execute_redemption_fetch_request : M (Unit {0})
  execute_redemption_fetch_request = execute_command p cfg opts request_params λ params. do
    let offer_pda = get_redemption_offer_pda p cfg (get params "tokenIn") (get params "tokenOut")
    request ← fetch_redemption_request p cfg offer_pda (get params "requestId")
    show (redemption_request request (get params "requestId"))

  -- The filters by position and bytes: the offer, and the redeemer if one is given.
  unfoldable pub request_filters : PublicKey → Value → M (List (ℕ × String))
  request_filters offer_pda redeemer =
      if truthy redeemer
      then (do s ← base58_of redeemer; pure ((8, base58 offer_pda) ∷ (8 + 32 + 8, s) ∷ []))
      else pure ((8, base58 offer_pda) ∷ [])

  -- The handler of the subcommand that lists the requests.
  unfoldable pub list_requests : Object → M (Unit {0})
  list_requests params = do
    let offer_pda = get_redemption_offer_pda p cfg (get params "tokenIn") (get params "tokenOut")
    filters ← request_filters offer_pda (get params "redeemer")
    formatted ← lift (formatted_requests (p.all_redemption_requests filters))
    show (redemption_requests formatted)

  unfoldable pub execute_redemption_list_requests : M (Unit {0})
  execute_redemption_list_requests = execute_command p cfg opts list_requests_params list_requests
