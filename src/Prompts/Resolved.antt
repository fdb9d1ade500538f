-- ===== src/Prompts/Resolved.antt =====
-- scripts/cli/prompts/index.ts: the result of `promptForParams`.
use mathlib.Core.List.{append_assoc, append-nil}
use on_re_sol.Base.{
  String, Bool, true, false, not, ◌&&◌, ◌||◌, List, [], ◌∷◌, ◌++◌, none, All, insert, lookup, ◌==◌,
  ◌≡◌, refl, ◌∙◌, sym, ap, lookup-insert, subst, arith,
}
use on_re_sol.Js.{Value, Object, get, is_undefined, or_else, num, int}
use on_re_sol.Base.{pos}
use on_re_sol.Session.{
  Platform, World, ok, Ensures, Ensures-bind_of, Ensures-weaken, Ensures-lift, Ensures-pure,
  Ensures-if,
}
use on_re_sol.Network.{NetworkConfig}
use on_re_sol.Prompts.Types.{ParamDefinition, basis_points}
use on_re_sol.Prompts.Transform.{transform_value}
use on_re_sol.Prompts.Single.{default_value, prompt_for_single_param}
use on_re_sol.Prompts.Checked.{IsPrompting, HasType, IsAnswer, prompt_for_single_param-IsAnswer}
use on_re_sol.Prompts.All.{has_default, param_value, prompt_from, prompt_for_params}

-- No two parameters have one name.
abbrev pub HasDistinctNames : List ParamDefinition → Type 0
HasDistinctNames [] = Unit
HasDistinctNames (param ∷ params) =
    All (λ other. (param.name == other.name) ≡ false) params × HasDistinctNames params

-- The default of a fee is itself a fee.
abbrev pub HasFeeDefault : NetworkConfig → ParamDefinition → Type 0
HasFeeDefault cfg param =
    param.type ≡ basis_points
    → HasType basis_points (or_else (default_value cfg param.default) (num (int (pos 0))))

-- Whether a parameter that is not given takes its default.
abbrev pub takes_default : Bool → ParamDefinition → Bool
takes_default no_interactive param =
    has_default param.default && (not param.required || no_interactive)

insert-fresh :
    (k : String) (v : Value) (m : Object) → lookup k m ≡ none → insert k v m ≡ m ++ ((k, v) ∷ [])
unfolding insert lookup
insert-fresh k v [] h = refl
insert-fresh k v ((j, w) ∷ m) h = ground (arith, insert-fresh k v m)

fresh_insert :
    (k : String) (v : Value) (result : Object) (params : List ParamDefinition)
    → All (λ other. (k == other.name) ≡ false) params
    → All (λ param. lookup param.name result ≡ none) params
    → All (λ param. lookup param.name (insert k v result) ≡ none) params
fresh_insert k v result [] apart fresh = tt
fresh_insert k v result (param ∷ params) (differs, apart) (new, fresh) = (
  rw (lookup-insert result k param.name v, differs) new,
  fresh_insert k v result params apart fresh,
)

module _ (p : Platform) (cfg : NetworkConfig) (no_interactive : Bool) where
  -- Where the value v of a parameter comes from, x being what the command line gives.
  pub record IsValueOf (param : ParamDefinition) (x v : Value) : Type 0 where
    pub given : is_undefined x ≡ false → transform_value p cfg param x ≡ ok v
    pub by_default :
        is_undefined x ≡ true
        → takes_default no_interactive param ≡ true
        → v ≡ default_value cfg param.default
    pub prompted :
        is_undefined x ≡ true
        → takes_default no_interactive param ≡ false
        → ((w : World) × ((prompt_for_single_param p cfg param w).0 ≡ ok v))
          × IsAnswer param.type v
          × ((no_interactive && param.required) ≡ false)

  -- One entry for each parameter, in order.
  abbrev pub AreResolved : Object → List ParamDefinition → Object → Type 0
  AreResolved provided [] [] = Unit
  AreResolved provided (param ∷ params) ((k, v) ∷ result) =
      (k ≡ param.name)
      × IsValueOf param (get provided param.name) v
      × AreResolved provided params result
  AreResolved provided _ _ = ⊥

  module _ (prompting : IsPrompting p) where
    param_value-IsValueOf :
        (param : ParamDefinition) (x : Value)
        → HasFeeDefault cfg param
        → Ensures (IsValueOf param x) (param_value p cfg no_interactive param x)
    unfolding param_value
    param_value-IsValueOf param x fee =
        Ensures-if (not (is_undefined x))
          (λ given. Ensures-lift λ v e. record {
            given = λ _. e;
            by_default = λ missing. absurd (ground arith);
            prompted = λ missing. absurd (ground arith);
          })
          λ missing.
            Ensures-if (takes_default no_interactive param)
              (λ taken. Ensures-pure (record {
                given = λ given. absurd (ground arith);
                by_default = λ _ _. refl;
                prompted = λ _ other. absurd (ground arith);
              }))
              λ not_taken.
                Ensures-if (no_interactive && param.required)
                  (λ _. Ensures-lift λ v e. absurd (ground arith))
                  λ asks. record {
                    value = λ w v e. record {
                      given = λ given. absurd (ground arith);
                      by_default = λ _ taken. absurd (ground arith);
                      prompted = λ _ _. (
                        (w, e),
                        prompt_for_single_param-IsAnswer p prompting cfg param w v fee e,
                        asks,
                      );
                    };
                  }

    abbrev Extends : Object → List ParamDefinition → Object → Object → Type 0
    Extends provided params result all =
        (new : Object) × (all ≡ result ++ new) × AreResolved provided params new

    prompt_from-Extends :
        (params : List ParamDefinition) (provided result : Object)
        → HasDistinctNames params
        → All (λ param. lookup param.name result ≡ none) params
        → All (HasFeeDefault cfg) params
        → Ensures
            (Extends provided params result)
            (prompt_from p cfg no_interactive params provided result)
    unfolding prompt_from
    prompt_from-Extends [] provided result distinct fresh fee =
        Ensures-pure ([], sym (append-nil _), tt)
    prompt_from-Extends (param ∷ params) provided result (apart, distinct) (new, fresh)
          (here, fee) =
        Ensures-bind_of (param_value-IsValueOf param (get provided param.name) here) λ v is_value.
          Ensures-weaken
            (prompt_from-Extends params provided (insert param.name v result) distinct
              (fresh_insert param.name v result params apart fresh) fee)
            λ all (rest, e, resolved). (
              (param.name, v) ∷ rest,
              e
                  ∙ ap (λ o. o ++ rest) (insert-fresh param.name v result new)
                  ∙ append_assoc result ((param.name, v) ∷ []) rest,
              (refl, is_value, resolved),
            )

    -- If no two parameters have one name, a successful run returns exactly one value for each
    -- parameter, in their order: the transformed value that the command line gives, or else the
    -- default where the parameter is optional or the mode is non-interactive, or else a value that
    -- the prompt for this parameter gave, never for a required parameter in the non-interactive mode.
    -- The prompted value has the parameter's type, or is undefined for an amount, an APR or a
    -- duration. Prompts are assumed to validate answers that are not empty and to return offered
    -- choices, and defaults of fees to be fees.
    pub prompt_for_params-AreResolved :
        (params : List ParamDefinition) (provided : Object) (w : World) (result : Object)
        → HasDistinctNames params
        → All (HasFeeDefault cfg) params
        → (prompt_for_params p cfg no_interactive params provided w).0 ≡ ok result
        → AreResolved provided params result
    unfolding prompt_for_params lookup
    prompt_for_params-AreResolved params provided w result distinct fee e =
        let (new, same, resolved) =
          (prompt_from-Extends params provided [] distinct (empty params) fee).value w result e in
        subst (AreResolved provided params) (sym same) resolved
      where
        empty :
            (qs : List ParamDefinition) → All (λ param. lookup {V = Value} param.name [] ≡ none) qs
        empty [] = tt
        empty (q ∷ qs) = (refl, empty qs)
