-- ===== src/Helper/Addresses.antt =====
-- scripts/utils/script-helper.ts: derived addresses, the accounts that are read, and transactions.
use on_re_sol.Base.{String, List, [], ◌∷◌}
use on_re_sol.Js.{PublicKey, key, Value, pubkey}
use on_re_sol.Session.{
  Platform, State, RedemptionOffer, RedemptionRequest, Seed, text, key_bytes, u64_le, Instruction,
  Transaction, M, pure, of_option, ◌>>=◌,
}
use on_re_sol.Network.{NetworkConfig}

-- `new BN(v)`
abbrev pub new_bn : Platform → Value → M Value
new_bn p v = of_option "Assertion failed" (p.new_bn v)

module _ (p : Platform) (cfg : NetworkConfig) where
  abbrev pda : List Seed → PublicKey
  pda seeds = p.find_program_address seeds cfg.program_id

  abbrev pub state_pda : PublicKey
  state_pda = pda (text "state" ∷ [])

  abbrev pub offer_vault_authority_pda : PublicKey
  offer_vault_authority_pda = pda (text "offer_vault_authority" ∷ [])

  abbrev pub permissionless_vault_authority_pda : PublicKey
  permissionless_vault_authority_pda = pda (text "permissionless-1" ∷ [])

  abbrev pub mint_authority_pda : PublicKey
  mint_authority_pda = pda (text "mint_authority" ∷ [])

  abbrev pub redemption_vault_authority_pda : PublicKey
  redemption_vault_authority_pda = pda (text "redemption_offer_vault_authority" ∷ [])

  -- The account of the upgradeable loader with the data of the program.
  abbrev pub program_data_pda : PublicKey
  program_data_pda =
      p.find_program_address (key_bytes (pubkey cfg.program_id) ∷ [])
        (key "BPFLoaderUpgradeab1e11111111111111111111111")

  abbrev pub get_offer_pda : Value → Value → PublicKey
  get_offer_pda token_in_mint token_out_mint =
      pda (text "offer" ∷ key_bytes token_in_mint ∷ key_bytes token_out_mint ∷ [])

  abbrev pub get_redemption_offer_pda : Value → Value → PublicKey
  get_redemption_offer_pda token_in_mint token_out_mint =
      pda (text "redemption_offer" ∷ key_bytes token_in_mint ∷ key_bytes token_out_mint ∷ [])

  -- The counter is a u64 in little-endian order.
  abbrev pub get_redemption_request_pda : PublicKey → Value → M PublicKey
  get_redemption_request_pda redemption_offer_address counter = do
    n ← new_bn p counter
    pure (
        pda
          (text "redemption_request" ∷ key_bytes (pubkey redemption_offer_address) ∷ u64_le n ∷ []))

  unfoldable pub get_state : M State
  get_state = of_option "Account does not exist or has no data" (p.fetch_state state_pda)

  unfoldable pub get_boss : M PublicKey
  get_boss = do state ← get_state; pure state.boss

  unfoldable pub fetch_redemption_offer : Value → Value → M RedemptionOffer
  fetch_redemption_offer token_in_mint token_out_mint =
      of_option "Account does not exist or has no data"
        (p.fetch_redemption_offer (pubkey (get_redemption_offer_pda token_in_mint token_out_mint)))

  unfoldable pub fetch_redemption_request : PublicKey → Value → M RedemptionRequest
  fetch_redemption_request redemption_offer_address counter = do
    address ← get_redemption_request_pda redemption_offer_address counter
    of_option "Account does not exist or has no data" (p.fetch_redemption_request address)

-- `prepareTransactionMultipleIxs` and `prepareTransaction`
unfoldable pub prepare_transaction : Platform → List Instruction → Value → M Transaction
prepare_transaction p ixs payer = do
  blockhash ← of_option "failed to get recent blockhash" p.latest_blockhash
  pure (record { instructions = ixs; fee_payer = payer; recent_blockhash = blockhash })

unfoldable pub serialize_transaction : Platform → Transaction → M String
serialize_transaction p tx = of_option "Transaction could not be serialized" (p.serialize tx)
