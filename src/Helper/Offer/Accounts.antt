-- ===== src/Helper/Offer/Accounts.antt =====
-- scripts/utils/script-helper.ts: buildCreatePermissionlessTokenAccountsIxs.
use on_re_sol.Base.{Bool, true, false, List, [], ◌∷◌, some, ◌≡◌, refl, if◌then◌else◌}
use on_re_sol.Js.{PublicKey, Value}
use on_re_sol.Session.{Platform, World, Instruction, create_token_account, ok, ◌>>=◌}
use on_re_sol.Network.{NetworkConfig}
use on_re_sol.Helper.Addresses.{permissionless_vault_authority_pda}
use on_re_sol.Helper.Offer.{build_create_permissionless_token_accounts_ixs}

-- A token account: its mint, its token program, its address.
abbrev pub TokenAccount : Type 0
TokenAccount = Value × Value × PublicKey

-- The accounts that are said not to be there.
abbrev pub missing : List (Bool × TokenAccount) → List TokenAccount
missing [] = []
missing ((there, a) ∷ accounts) = let rest = missing accounts in if there then rest else a ∷ rest

abbrev pub creation : Platform → NetworkConfig → Value → TokenAccount → Instruction
creation p cfg payer (token_mint, token_program, account) =
    create_token_account payer account (permissionless_vault_authority_pda p cfg) token_mint
      token_program

abbrev pub creations : Platform → NetworkConfig → Value → List TokenAccount → List Instruction
creations p cfg payer [] = []
creations p cfg payer (a ∷ accounts) = creation p cfg payer a ∷ creations p cfg payer accounts

-- Where the two token accounts of the permissionless authority can be derived and the chain says
-- which of them are there, exactly the missing ones are created, for the payer, the token in first, and nothing else is done.
pub build_create_permissionless_token_accounts_ixs_lem :
    (p : Platform) (cfg : NetworkConfig)
    (token_in_mint token_out_mint token_in_program token_out_program payer : Value)
    (token_in_account token_out_account : PublicKey) (in_there out_there : Bool) (w : World)
    → p.token_address token_in_mint (permissionless_vault_authority_pda p cfg) token_in_program
      ≡ some token_in_account
    → p.token_address token_out_mint (permissionless_vault_authority_pda p cfg) token_out_program
      ≡ some token_out_account
    → p.account_exists token_in_account ≡ some in_there
    → p.account_exists token_out_account ≡ some out_there
    → build_create_permissionless_token_accounts_ixs p cfg token_in_mint token_out_mint
        token_in_program token_out_program payer w
      ≡ (
        ok (
            creations p cfg payer (
              missing (
                (in_there, (token_in_mint, token_in_program, token_in_account))
                ∷ (out_there, (token_out_mint, token_out_program, token_out_account))
                ∷ []))),
        w,
      )
unfolding build_create_permissionless_token_accounts_ixs ◌>>=◌
build_create_permissionless_token_accounts_ixs_lem p cfg token_in_mint token_out_mint
      token_in_program token_out_program payer token_in_account token_out_account true true w h k m
      n =
    rw (h, k, m, n) refl
build_create_permissionless_token_accounts_ixs_lem p cfg token_in_mint token_out_mint
      token_in_program token_out_program payer token_in_account token_out_account true false w h k m
      n =
    rw (h, k, m, n) refl
build_create_permissionless_token_accounts_ixs_lem p cfg token_in_mint token_out_mint
      token_in_program token_out_program payer token_in_account token_out_account false true w h k m
      n =
    rw (h, k, m, n) refl
build_create_permissionless_token_accounts_ixs_lem p cfg token_in_mint token_out_mint
      token_in_program token_out_program payer token_in_account token_out_account false false w h k
      m n =
    rw (h, k, m, n) refl
