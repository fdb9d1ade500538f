-- ===== src/Onchain/State/Operations.antt =====
-- programs/onreapp/src/instructions/state_operations: the instructions on the state account. The
-- key that each is given first is the one that signs.
use on_re_sol.Base.{
  ℕ, Bool, true, false, not, ◌||◌, if◌then◌else◌, List, any, position, replace_at, repeat,
}
use on_re_sol.Js.{PublicKey, equals}
use on_re_sol.Onchain.Run.{
  Run, ok, err, ◌>>=◌, ◌>>◌, ok_or, require, invalid_boss_address, no_boss_proposal,
  not_proposed_boss, admin_already_exists, max_admins_reached, admin_not_found, invalid_approver,
  approver_already_exists, both_approvers_filled, not_an_approver, unauthorized_to_enable,
  only_boss_can_disable, no_change,
}
use on_re_sol.Onchain.State.{State, default_key, has_one_boss}

abbrev pub max_admins : ℕ
max_admins = 20

-- `key == Pubkey::default()`
abbrev pub is_default : PublicKey → Bool
is_default k = equals k default_key

-- `keys.contains(key)`
unfoldable pub contains : PublicKey → List PublicKey → Bool
contains k keys = any (λ admin. equals admin k) keys

module _ (signer : PublicKey) (state : State) where
  unfoldable pub propose_boss : PublicKey → Run State
  propose_boss new_boss = do
    has_one_boss state signer
    require (not (is_default new_boss)) invalid_boss_address
    ok (record state { proposed_boss = new_boss })

  unfoldable pub accept_boss : Run State
  accept_boss = do
    require (not (is_default state.proposed_boss)) no_boss_proposal
    require (equals signer state.proposed_boss) not_proposed_boss
    ok (record state { boss = state.proposed_boss; proposed_boss = default_key })

  -- The loop over the slots writes to the first that is empty.
  unfoldable pub add_admin : PublicKey → Run State
  add_admin new_admin = do
    has_one_boss state signer
    require (not (contains new_admin state.admins)) admin_already_exists
    slot ← ok_or max_admins_reached (position is_default state.admins)
    ok (record state { admins = replace_at slot new_admin state.admins })

  unfoldable pub remove_admin : PublicKey → Run State
  remove_admin admin_to_remove = do
    has_one_boss state signer
    slot ← ok_or admin_not_found (position (λ admin. equals admin admin_to_remove) state.admins)
    ok (record state { admins = replace_at slot default_key state.admins })

  unfoldable pub clear_admins : Run State
  clear_admins = do
    has_one_boss state signer
    ok (record state { admins = repeat default_key max_admins })

  unfoldable pub add_approver : PublicKey → Run State
  add_approver approver = do
    has_one_boss state signer
    require (not (is_default approver)) invalid_approver
    require (not (equals state.approver1 approver || equals state.approver2 approver))
        approver_already_exists
    if is_default state.approver1
        then ok (record state { approver1 = approver })
        else if is_default state.approver2
        then ok (record state { approver2 = approver })
        else err both_approvers_filled

  unfoldable pub remove_approver : PublicKey → Run State
  remove_approver approver = do
    has_one_boss state signer
    require (not (is_default approver)) invalid_approver
    if equals state.approver1 approver
        then ok (record state { approver1 = default_key })
        else if equals state.approver2 approver
        then ok (record state { approver2 = default_key })
        else err not_an_approver

  unfoldable pub set_kill_switch : Bool → Run State
  set_kill_switch true = do
    require (equals state.boss signer || contains signer state.admins) unauthorized_to_enable
    ok (record state { is_killed = true })
  set_kill_switch false = do
    require (equals state.boss signer) only_boss_can_disable
    ok (record state { is_killed = false })

  unfoldable pub set_redemption_admin : PublicKey → Run State
  set_redemption_admin new_redemption_admin = do
    has_one_boss state signer
    require (not (equals new_redemption_admin state.redemption_admin)) no_change
    ok (record state { redemption_admin = new_redemption_admin })

  unfoldable pub set_onyc_mint : PublicKey → Run State
  set_onyc_mint onyc_mint = do
    has_one_boss state signer
    ok (record state { onyc_mint = onyc_mint })

  unfoldable pub configure_max_supply : ℕ → Run State
  configure_max_supply max_supply = do
    has_one_boss state signer
    ok (record state { max_supply = max_supply })
