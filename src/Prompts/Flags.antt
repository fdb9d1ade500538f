-- ===== src/Prompts/Flags.antt =====
-- scripts/cli/prompts/index.ts: mints by name, on the command line and at the prompt.
use on_re_sol.Base.{
  String, true, false, none, any, ◌==◌, eq_iff, ◌≡◌, refl, subst, arith, Bool-cases, inl, inr,
}
use on_re_sol.Js.{str, lower_is}
use on_re_sol.Session.{Platform, ok}
use on_re_sol.Network.{NetworkConfig}
use on_re_sol.Prompts.Types.{ParamDefinition, mint}
use on_re_sol.Prompts.Transform.{transform_value}
use on_re_sol.Prompts.Single.{mint_choices, selected_mint}

module _ (p : Platform) (cfg : NetworkConfig) (param : ParamDefinition)
    (is_mint : param.type ≡ mint) (plain : param.transform ≡ none) where
  abbrev Same : String → Type 0
  Same s = transform_value p cfg param (str s) ≡ ok (selected_mint cfg s)

  usdc-Same : Same "usdc"
  unfolding transform_value lower_is
  usdc-Same = rw (plain, is_mint) refl

  onyc-Same : Same "onyc"
  unfolding transform_value lower_is
  onyc-Same = rw (plain, is_mint) refl

  usdg-Same : Same "usdg"
  unfolding transform_value lower_is
  usdg-Same = rw (plain, is_mint) refl

  -- A mint given on the command line by the value of a choice of the prompt, other than the choice
  -- of a custom address, is the mint that this choice selects, for a parameter of the type of a mint
  -- without a transformation of its own.
  pub transform_value-selected_mint :
      (s : String)
      → any (λ c. c.1 == s) (mint_choices cfg) ≡ true
      → (s == "custom") ≡ false
      → transform_value p cfg param (str s) ≡ ok (selected_mint cfg s)
  transform_value-selected_mint s offered other = elim (Bool-cases ("usdc" == s)) [
    | inl usdc ↦ subst Same ((eq_iff "usdc" s).0 usdc) usdc-Same
    | inr not_usdc ↦ elim (Bool-cases ("onyc" == s)) [
      | inl onyc ↦ subst Same ((eq_iff "onyc" s).0 onyc) onyc-Same
      | inr not_onyc ↦
          let usdg : "usdg" ≡ s =
            ground (arith, eq_iff "usdg" s, eq_iff "custom" s, eq_iff s "custom") in
          subst Same usdg usdg-Same
    ]
  ]
