-- ===== src/Commands/Wrapper.antt =====
-- scripts/cli/helpers: the frame of every command, the building of its transaction, and the
-- confirmation of dangerous operations.
use on_re_sol.Base.{String, ◌<>◌, Bool, false, List, Option, none, some, ◌==◌, if◌then◌else◌}
use on_re_sol.Js.{
  base58, Value, Object, get, undefined, bool, pubkey, truthy, to_base58, slice_from_start,
}
use on_re_sol.Session.{
  Platform, Instruction, banner, line, summary, error_line, accept, M, pure, of_option, show, exit,
  catch, input, confirm, ◌>>=◌, ◌>>◌,
}
use on_re_sol.Network.{NetworkConfig}
use on_re_sol.Prompts.Types.{ParamDefinition}
use on_re_sol.Prompts.All.{prompt_for_params}
use on_re_sol.Helper.Addresses.{get_boss, prepare_transaction}
use on_re_sol.Transaction.{handle_transaction}

-- `opts.json`, `opts.dryRun` and `opts.noInteractive`, as tests.
abbrev pub is_json : Object → Bool
is_json opts = truthy (get opts "json")

abbrev pub is_dry_run : Object → Bool
is_dry_run opts = truthy (get opts "dryRun")

abbrev pub is_no_interactive : Object → Bool
is_no_interactive opts = truthy (get opts "noInteractive")

-- `v.toBase58()`
abbrev pub base58_of : Value → M String
base58_of v = of_option "toBase58 is not a function" (to_base58 v)

-- `v.toBase58().slice(0, 8)` with dots behind it.
abbrev pub short_base58_of : Value → M String
short_base58_of v = do s ← base58_of v; pure (slice_from_start 8 s <> "...")

pub record BuilderOptions : Type 0 where
  pub title : String
  pub description : Option String
  pub payer : Value
  pub param_summary : Option (String × Object)

module _ (p : Platform) (cfg : NetworkConfig) (opts : Object) where
  -- What stands inside the `try` of `executeCommand`. The creation of the helper names the wallet.
  unfoldable pub command_body : List ParamDefinition → (Object → M (Unit {0})) → M (Unit {0})
  command_body params handler = do
    if is_json opts then pure tt else show (banner cfg.name)
    show (line ("Wallet:  " <> (base58 p.wallet <> (" (" <> (p.wallet_source <> ")\n")))))
    values ← prompt_for_params p cfg (is_no_interactive opts) params opts
    handler values

  unfoldable pub execute_command : List ParamDefinition → (Object → M (Unit {0})) → M (Unit {0})
  execute_command params handler =
      catch (command_body params handler) λ message. show (error_line message) >> exit 1

  abbrev pub show_summary : Option (String × Object) → M (Unit {0})
  show_summary none = pure tt
  show_summary (some (title, params)) = show (summary title params)

  -- The given payer, or else the boss that the chain knows.
  unfoldable pub payer_of : Value → M Value
  payer_of payer =
      if truthy payer then pure payer else (do boss ← get_boss p cfg; pure (pubkey boss))

  unfoldable pub build_and_handle_transaction : BuilderOptions → M (List Instruction) → M (Unit {0})
  build_and_handle_transaction options build_ix = do
    show_summary options.param_summary
    payer ← payer_of options.payer
    instructions ← build_ix
    tx ← prepare_transaction p instructions payer
    _ ← handle_transaction p cfg tx (record {
      title = options.title;
      description = options.description;
      dry_run = is_dry_run opts;
      json = is_json opts;
    })
    pure tt

module _ (p : Platform) where
  -- With an exact phrase the user has to type it; without one, to agree.
  unfoldable pub confirm_dangerous_operation : String → Option String → M Bool
  confirm_dangerous_operation message (some phrase) = do
    typed ← input p (record {
      message = message <> (" (Type \"" <> (phrase <> "\" to confirm):"));
      default = undefined;
      validate = λ _. accept;
    })
    pure (typed == phrase)
  confirm_dangerous_operation message none =
      confirm p (record { message = message; default = bool false })
