-- ===== src/Onchain/Tokens/Totals.antt =====
-- programs/onreapp/src: what an exchange and a redemption take and give in all.
use on_re_sol.Base.{
  ◌+◌, ◌≤◌, ◌<◌, ltb, Bool, true, ◌⊎◌, inl, inr, List, [], ◌∷◌, ◌++◌, ◌≡◌, refl, arith,
}
use on_re_sol.Onchain.Run.{Run, ok}
use on_re_sol.Onchain.Run.Inversion.{
  ok-inj, ok-bind, ok-then, ok-require, ok-if, bind-checked, required,
}
use on_re_sol.Onchain.Tokens.{
  user_in, user_out, boss_in, vault_in, TokenCall, transfer, burn, Exchange, mint_tokens,
  distribute, pay_in, release, execute_token_operations, execute_redemption_operations,
  check_supply,
}
use on_re_sol.Onchain.Tokens.Balance.{
  taken, given, taken-append, given-append, ok-invoke, ok-transfer_fee, Distributed, ok-distribute,
}

module _ (token_program : TokenCall → Run (Unit {0})) where
  -- The first step of an exchange takes the whole amount from the user and leaves the vault as it is.
  record PaidIn (e : Exchange) (calls : List TokenCall) : Type 0 where
    user_pays : taken user_in calls ≡ e.net + e.fee
    nothing_out : given user_out calls ≡ 0
    vault_even : given vault_in calls ≡ taken vault_in calls

  charged_lem :
      (e : Exchange) (charged : List TokenCall)
      → (charged ≡ transfer user_in boss_in e.fee ∷ []) ⊎ ((charged ≡ []) × (e.fee ≡ 0))
      → PaidIn e (transfer user_in vault_in e.net ∷ burn vault_in e.net ∷ charged)
  unfolding taken given
  charged_lem e charged (inl same) =
      rw same (record { user_pays = omega arith; nothing_out = refl; vault_even = omega arith })
  charged_lem e charged (inr (same, free)) =
      rw same
        (record { user_pays = omega (arith, free); nothing_out = refl; vault_even = omega arith })

  ok-pay_in :
      (e : Exchange) {calls : List TokenCall} → pay_in token_program e ≡ ok calls → PaidIn e calls
  unfolding pay_in taken given
  ok-pay_in e h = elim (ok-if e.controls_in h) [
    | inl (_, burning) ↦
        let (moved, m, h1) = ok-bind burning in
        let (burned, b, h2) = ok-bind h1 in
        let (charged, c, h3) = ok-bind h2 in
        rw (← ok-inj h3, ok-invoke token_program _ m, ok-invoke token_program _ b)
          (charged_lem e charged (ok-transfer_fee token_program user_in e.fee c))
    | inr (_, moving) ↦
        let (_, h1) = bind-checked _ _ _ _ moving in
        rw (ok-invoke token_program _ h1)
          (record { user_pays = omega arith; nothing_out = refl; vault_even = refl })
  ]

  record Released (e : Exchange) (calls : List TokenCall) : Type 0 where
    vault_pays : taken vault_in calls ≡ e.net + e.fee
    vault_gets : given vault_in calls ≡ 0
    nothing_out : given user_out calls ≡ 0

  released_lem :
      (e : Exchange) (charged : List TokenCall)
      → (charged ≡ transfer vault_in boss_in e.fee ∷ []) ⊎ ((charged ≡ []) × (e.fee ≡ 0))
      → Released e (burn vault_in e.net ∷ charged)
  unfolding taken given
  released_lem e charged (inl same) =
      rw same (record { vault_pays = omega arith; vault_gets = refl; nothing_out = refl })
  released_lem e charged (inr (same, free)) =
      rw same (record { vault_pays = omega (arith, free); vault_gets = refl; nothing_out = refl })

  ok-release :
      (e : Exchange) {calls : List TokenCall}
      → release token_program e ≡ ok calls
      → Released e calls
  unfolding release taken given
  ok-release e h = elim (ok-if e.controls_in h) [
    | inl (_, burning) ↦
        let (burned, b, h1) = ok-bind burning in
        let (charged, c, h2) = ok-bind h1 in
        rw (← ok-inj h2, ok-invoke token_program _ b)
          (released_lem e charged (ok-transfer_fee token_program vault_in e.fee c))
    | inr (_, moving) ↦
        let (_, h1) = bind-checked _ _ _ _ moving in
        rw (ok-invoke token_program _ h1)
          (record { vault_pays = omega arith; vault_gets = refl; nothing_out = refl })
  ]

  sums :
      {e : Exchange} (paid distributed : List TokenCall) {calls : List TokenCall}
      → PaidIn e paid
      → Distributed token_program e distributed
      → paid ++ distributed ≡ calls
      → (taken user_in calls ≡ e.net + e.fee)
        × (given user_out calls ≡ e.out)
        × (given vault_in calls ≡ taken vault_in calls)
  sums paid distributed p d same =
      let pays = p.user_pays in
      let keeps = d.user_keeps in
      let none = p.nothing_out in
      let gets = d.user_gets in
      let even = p.vault_even in
      let vault_keeps = d.vault_keeps in
      let vault_gets = d.vault_gets in
      rw (← same) (
        omega (arith, taken-append user_in paid distributed, pays, keeps),
        omega (arith, given-append user_out paid distributed, none, gets),
        omega (
          arith,
          given-append vault_in paid distributed,
          taken-append vault_in paid distributed,
          even,
          vault_keeps,
          vault_gets,
        ),
      )

  Released-sums :
      {e : Exchange} (released distributed : List TokenCall) {calls : List TokenCall}
      → Released e released
      → Distributed token_program e distributed
      → released ++ distributed ≡ calls
      → (taken vault_in calls ≡ e.net + e.fee)
        × (given vault_in calls ≡ 0)
        × (given user_out calls ≡ e.out)
  Released-sums released distributed r d same =
      let pays = r.vault_pays in
      let gets = r.vault_gets in
      let none = r.nothing_out in
      let keeps = d.vault_keeps in
      let more = d.vault_gets in
      let out = d.user_gets in
      rw (← same) (
        omega (arith, taken-append vault_in released distributed, pays, keeps),
        omega (arith, given-append vault_in released distributed, gets, more),
        omega (arith, given-append user_out released distributed, none, out),
      )

  capped_lem :
      (e : Exchange) {calls : List TokenCall}
      → mint_tokens token_program e.supply e.out e.max_supply ≡ ok calls
      → 0 < e.max_supply
      → e.supply + e.out ≤ e.max_supply
  unfolding mint_tokens check_supply
  capped_lem e h capped =
      let (checks, _) = ok-then _ _ h in
      elim (ok-if (ltb 0 e.max_supply) checks) [
        | inl (_, within) ↦
            let (_, h1) = bind-checked _ _ _ _ within in
            let low = required _ _ h1 in ground (arith, low)
        | inr (uncapped, _) ↦ absurd (ground arith)
      ]

  -- However the mints are controlled, the token calls of an exchange take exactly the net amount
  -- and the fee from the user, give the user exactly the amount that is paid out, and leave in the
  -- vault as much of the first token as before.
  pub execute_token_operations-balance :
      (fee_in fee_out : Run Bool) (e : Exchange) {calls : List TokenCall}
      → execute_token_operations token_program fee_in fee_out e ≡ ok calls
      → (taken user_in calls ≡ e.net + e.fee)
        × (given user_out calls ≡ e.out)
        × (given vault_in calls ≡ taken vault_in calls)
  unfolding execute_token_operations
  execute_token_operations-balance fee_in fee_out e h =
      let (_, _, h1) = ok-bind h in
      let (_, h2) = ok-require _ _ _ h1 in
      let (_, _, h3) = ok-bind h2 in
      let (_, h4) = ok-require _ _ _ h3 in
      let (paid, p, h5) = ok-bind h4 in
      let (distributed, d, h6) = ok-bind h5 in
      sums paid distributed (ok-pay_in e p) (ok-distribute token_program e d) (ok-inj h6)

  -- The token calls of a redemption take exactly the net amount and the fee from the vault, give it
  -- nothing, and give the user exactly the amount that is paid out.
  pub execute_redemption_operations-balance :
      (e : Exchange) {calls : List TokenCall}
      → execute_redemption_operations token_program e ≡ ok calls
      → (taken vault_in calls ≡ e.net + e.fee)
        × (given vault_in calls ≡ 0)
        × (given user_out calls ≡ e.out)
  unfolding execute_redemption_operations
  execute_redemption_operations-balance e h =
      let (released, r, h1) = ok-bind h in
      let (distributed, d, h2) = ok-bind h1 in
      Released-sums released distributed (ok-release e r) (ok-distribute token_program e d)
        (ok-inj h2)

  -- Tokens that are minted for an exchange do not lift the supply above a cap that is set.
  pub execute_token_operations-max_supply :
      (fee_in fee_out : Run Bool) (e : Exchange) {calls : List TokenCall}
      → execute_token_operations token_program fee_in fee_out e ≡ ok calls
      → e.controls_out ≡ true
      → 0 < e.max_supply
      → e.supply + given user_out calls ≤ e.max_supply
  unfolding execute_token_operations distribute
  execute_token_operations-max_supply fee_in fee_out e h minting capped =
      let (_, out, _) = execute_token_operations-balance fee_in fee_out e h in
      let (_, _, h1) = ok-bind h in
      let (_, h2) = ok-require _ _ _ h1 in
      let (_, _, h3) = ok-bind h2 in
      let (_, h4) = ok-require _ _ _ h3 in
      let (_, _, h5) = ok-bind h4 in
      let (_, d, _) = ok-bind h5 in
      elim (ok-if e.controls_out d) [
        | inl (_, minted) ↦ let bound = capped_lem e minted capped in omega (arith, bound, out)
        | inr (other, _) ↦ cc
      ]
