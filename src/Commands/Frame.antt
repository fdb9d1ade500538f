-- ===== src/Commands/Frame.antt =====
-- scripts/cli/helpers: the frame of a command, as steps around the handling of a transaction.
use on_re_sol.Base.{String, List, Option, none, some, ◌≡◌, refl}
use on_re_sol.Js.{Value, Object, truthy}
use on_re_sol.Session.{
  Platform, World, Instruction, Transaction, M, ◌>>=◌, Keeps, Absorbs, Keeps-bind, Keeps-bind_last,
  Keeps-catch, Keeps-if, Keeps-weaken,
}
use on_re_sol.Session.Calm.{Quiet, of_pure, of_bind, of_option_lem, of_show, of_confirm}
use on_re_sol.Network.{NetworkConfig}
use on_re_sol.Prompts.Types.{ParamDefinition}
use on_re_sol.Prompts.Calm.{calm, prompt_for_params-Quiet}
use on_re_sol.Helper.Calm.{get_boss-Quiet}
use on_re_sol.Helper.Addresses.{prepare_transaction}
use on_re_sol.Transaction.{TransactionOptions, handle_transaction}
use on_re_sol.Commands.Wrapper.{
  short_base58_of, is_json, is_dry_run, is_no_interactive, BuilderOptions, show_summary, payer_of,
  command_body, execute_command, build_and_handle_transaction, confirm_dangerous_operation,
}

pub short_base58-Quiet : (v : Value) → Keeps Quiet (short_base58_of v)
short_base58-Quiet v = of_bind (of_option_lem _ _) λ s. of_pure

pub confirm_dangerous-Quiet :
    (p : Platform) (message : String) (phrase : Option String)
    → Keeps Quiet (confirm_dangerous_operation p message phrase)
unfolding confirm_dangerous_operation
confirm_dangerous-Quiet p message none = of_confirm p _
confirm_dangerous-Quiet p message (some phrase) = search calm

module _ (p : Platform) (cfg : NetworkConfig) (opts : Object) (S : World → World → Type 0)
    (law : Absorbs Quiet S)
    (handled : (tx : Transaction) (options : TransactionOptions)
      → options.json ≡ is_json opts
      → options.dry_run ≡ is_dry_run opts
      → Keeps S (handle_transaction p cfg tx options)) where
  pub of_Quiet : {A : Type 0} {m : M A} → Keeps Quiet m → Keeps S m
  of_Quiet h = Keeps-weaken law h

  pub and_then :
      {A B : Type 0} {m : M A} {f : A → M B}
      → Keeps Quiet m
      → ((a : A) → Keeps S (f a))
      → Keeps S (m >>= f)
  and_then h k = Keeps-bind law h k

  payer_of-Quiet : (payer : Value) → Keeps Quiet (payer_of p cfg opts payer)
  unfolding payer_of
  payer_of-Quiet payer =
      Keeps-if (truthy payer) (λ _. of_pure) λ _. of_bind (get_boss-Quiet p cfg) λ boss. of_pure

  show_summary-Quiet : (s : Option (String × Object)) → Keeps Quiet (show_summary p cfg opts s)
  show_summary-Quiet none = of_pure
  show_summary-Quiet (some (title, params)) = of_show _

  pub built :
      (options : BuilderOptions) {build_ix : M (List Instruction)}
      → Keeps Quiet build_ix
      → Keeps S (build_and_handle_transaction p cfg opts options build_ix)
  unfolding build_and_handle_transaction prepare_transaction
  built options {build_ix} h = and_then (show_summary-Quiet options.param_summary) λ _.
      and_then (payer_of-Quiet options.payer) λ payer. and_then h λ ixs.
        and_then (of_bind (of_option_lem _ _) λ blockhash. of_pure)
          λ tx. Keeps-bind_last law (handled tx _ refl refl) λ _. of_pure

  pub executed :
      (params : List ParamDefinition) {handler : Object → M (Unit {0})}
      → ((values : Object) → Keeps S (handler values))
      → Keeps S (execute_command p cfg opts params handler)
  unfolding execute_command command_body
  executed params {handler} h =
      Keeps-catch law
        (and_then (Keeps-if (is_json opts) (λ _. of_pure) λ _. of_show _) λ _.
          and_then (of_show _)
            λ _. and_then (prompt_for_params-Quiet p cfg (is_no_interactive opts) params opts) h)
        λ e. search calm
