-- ===== src/Onchain/Tokens/Balance.antt =====
-- programs/onreapp/src: what the calls of the token programs take from and give to an account, and
-- what the second step of an exchange does.
use on_re_sol.Base.{
  ℕ, ◌+◌, leb, ltb, Bool, ◌&&◌, if◌then◌else◌, ◌⊎◌, inl, inr, List, [], ◌∷◌, ◌++◌, ◌≡◌, refl, sym,
  arith,
}
use on_re_sol.Onchain.Run.{Run, ok}
use on_re_sol.Onchain.Run.Inversion.{ok-inj, ok-then, ok-if}
use on_re_sol.Onchain.Tokens.{
  TokenAccount, user_in, user_out, boss_in, vault_in, vault_out, TokenCall, transfer, burn, mint,
  Exchange, invoke, mint_tokens, transfer_fee, distribute,
}

abbrev index : TokenAccount → ℕ
index user_in = 0
index user_out = 1
index boss_in = 2
index vault_in = 3
index vault_out = 4

abbrev same_account : TokenAccount → TokenAccount → Bool
same_account a b = leb (index a) (index b) && leb (index b) (index a)

abbrev at : TokenAccount → TokenAccount → ℕ → ℕ
at a b n = if same_account a b then n else 0

abbrev pub taken_by : TokenAccount → TokenCall → ℕ
taken_by a (transfer source target n) = at a source n
taken_by a (burn source n) = at a source n
taken_by a (mint target n) = 0

abbrev pub given_by : TokenAccount → TokenCall → ℕ
given_by a (transfer source target n) = at a target n
given_by a (burn source n) = 0
given_by a (mint target n) = at a target n

-- What is taken from an account, and what is given to it.
unfoldable pub taken : TokenAccount → List TokenCall → ℕ
taken a [] = 0
taken a (c ∷ cs) = taken_by a c + taken a cs

unfoldable pub given : TokenAccount → List TokenCall → ℕ
given a [] = 0
given a (c ∷ cs) = given_by a c + given a cs

pub taken-append :
    (a : TokenAccount) (xs ys : List TokenCall) → taken a (xs ++ ys) ≡ taken a xs + taken a ys
unfolding taken
taken-append a [] ys = omega arith
taken-append a (x ∷ xs) ys = omega (arith, taken-append a xs ys)

pub given-append :
    (a : TokenAccount) (xs ys : List TokenCall) → given a (xs ++ ys) ≡ given a xs + given a ys
unfolding given
given-append a [] ys = omega arith
given-append a (x ∷ xs) ys = omega (arith, given-append a xs ys)

module _ (token_program : TokenCall → Run (Unit {0})) where
  pub ok-invoke :
      (call : TokenCall) {calls : List TokenCall}
      → invoke token_program call ≡ ok calls
      → calls ≡ call ∷ []
  unfolding invoke
  ok-invoke call h = let (_, h1) = ok-then _ _ h in sym (ok-inj h1)

  pub ok-transfer_fee :
      (source : TokenAccount) (fee : ℕ) {calls : List TokenCall}
      → transfer_fee token_program source fee ≡ ok calls
      → (calls ≡ transfer source boss_in fee ∷ []) ⊎ ((calls ≡ []) × (fee ≡ 0))
  unfolding transfer_fee
  ok-transfer_fee source fee h = elim (ok-if (ltb 0 fee) h) [
    | inl (_, charged) ↦ inl (ok-invoke _ charged)
    | inr (free, none_charged) ↦ inr (sym (ok-inj none_charged), ground arith)
  ]

  -- Nothing but the amount that is paid out leaves or enters the accounts in the second step.
  pub record Distributed (e : Exchange) (calls : List TokenCall) : Type 0 where
    pub user_gets : given user_out calls ≡ e.out
    pub user_keeps : taken user_in calls ≡ 0
    pub vault_keeps : taken vault_in calls ≡ 0
    pub vault_gets : given vault_in calls ≡ 0

  pub ok-distribute :
      (e : Exchange) {calls : List TokenCall}
      → distribute token_program e ≡ ok calls
      → Distributed e calls
  unfolding distribute mint_tokens given taken
  ok-distribute e h = elim (ok-if e.controls_out h) [
    | inl (_, minted) ↦
        let (_, h1) = ok-then _ _ minted in
        rw (ok-invoke _ h1) (record {
          user_gets = omega arith;
          user_keeps = refl;
          vault_keeps = refl;
          vault_gets = refl;
        })
    | inr (_, moved) ↦ rw (ok-invoke _ moved) (record {
      user_gets = omega arith;
      user_keeps = refl;
      vault_keeps = refl;
      vault_gets = refl;
    })
  ]
