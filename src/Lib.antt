-- ===== src/Lib.antt =====
-- The OnRe program on Solana and its command line tool: of the on-chain program, programs/onreapp, the
-- prices, offers, amounts, redemptions and the state account; of the tool, scripts/cli with the parts
-- of scripts/utils that it stands on, the choice of the network, the prompts, the building of
-- instructions, and the handling of a transaction up to its sending.
--
-- How the parts interact. The entry point reads the network argument before anything else, which
-- fixes the configuration. A subcommand runs `executeCommand` with a table of parameters: each
-- parameter is given on the command line, or takes its default, or is prompted for. Its handler then
-- builds one or more instructions with the script helper, and `handleTransaction` prints, copies, or
-- signs and sends the transaction of them.
--
-- Which file models which part, with paths from the root of the repository:
--   Network              scripts/utils/network-config.ts, scripts/cli/index.ts lines 5 to 9
--   Tokens               scripts/cli/utils/token-utils.ts
--   Prompts/Types        scripts/cli/prompts/types.ts
--   Prompts/Validators   scripts/cli/prompts/validators.ts
--   Prompts/Single       scripts/cli/prompts/index.ts: promptForSingleParam and the prompts by type
--   Prompts/Transform    scripts/cli/prompts/index.ts: transformValue
--   Prompts/All          scripts/cli/prompts/index.ts: promptForParams
--   Params               scripts/cli/params
--   Helper               scripts/utils/script-helper.ts: addresses, getters and the build...Ix methods
--   Transaction          scripts/cli/transaction/handler.ts
--   Commands/Wrapper     scripts/cli/helpers
--   Commands/Offer, Vault, Redemption, Authority, State, Setup
--                        scripts/cli/implementations: offer, vault, redemption, state (two files),
--                        mint-authority and init
--   Commands/Dispatch    scripts/cli/commands, and the groups of scripts/cli/index.ts
-- Of programs/onreapp/src:
--   Onchain/Run          the errors, and the checked arithmetic of machine words
--   Onchain/Price, Offer instructions/offer: offer_utils.rs and the instructions that change an offer
--   Onchain/Amounts      utils/token_utils.rs: calculate_fees, calculate_token_out_amount; the amount
--                        of process_redemption_core
--   Onchain/Process      process_offer_core and process_redemption_core
--   Onchain/Tokens       execute_token_operations and execute_redemption_operations
--   Onchain/State        state.rs and instructions/state_operations
--   Onchain/Redemption   instructions/redemption
--   Onchain/Views        instructions/market_info: get_apy.rs and get_nav_adjustment.rs
-- The functions keep their names in snake case: `handleTransaction` is `handle_transaction`.
-- Base holds shared lists, texts and dictionaries, Js the values of the language that the code uses
-- (numbers, texts, `parseInt`, truth values), Session the world, the steps and their rules.
--
-- The state. A run is a step of the monad M: it takes a World, which counts the prompts and holds
-- what was shown, copied and sent so far and the exit code, and ends in a value or an exception, with
-- the world after it. All that is not this code is a field of the record Platform: the prompt
-- library and the user (an answer per question and its number, `none` where the prompt is closed), the
-- chain, the files, the clipboard, the derivation of addresses, big numbers, dates and their texts. A
-- theorem holds for every such record; IsPrompting names what the prompts are documented to do. An
-- awaited call is one step: the code runs nothing in parallel. A value of an untyped field is a Value;
-- a Number is not a number, an infinity, an integer, or a fraction with its integral part. What the
-- terminal shows is a list of reports without colours; tables and details are one report each.
--
-- An instruction of the on-chain program is a function from the accounts it is given, the signer and
-- the time of the clock to a Run: the accounts as it leaves them, or an error, which undoes it. Numbers
-- are natural; each checked operation and each cast states its bound, and what aborts in Rust is the
-- error `panic`. The constraints on accounts that the code declares are the first tests of the
-- function; accounts that Anchor finds by their seeds are arguments. The token programs are the
-- parameter `token_program`, which answers each call, and the calls are listed with the amounts that
-- they name, whatever a transfer fee of the token leaves of them. Step and History are
-- the instructions on the state account one after another; Reachable and IsLedger are the offers and
-- the redemption ledgers that instructions can produce.
--
-- Every loop of the code runs over a list but one: the exponentiation for the yield runs over the bits
-- of a 32-bit exponent, on 32 rounds of fuel, one for each bit.
--
-- Not modelled: the option parsing of commander, whose merged options are an argument; the formatting
-- of scripts/cli/utils/display.ts; the views of the market and of offers; the creation of the script
-- helper from the files of the wallet; the scripts beside the tool; of the on-chain program, its
-- events, the signatures of approvals, the views but two, the deposits to the vaults, the mint
-- authority, and the creation and closing of the state account. Where Anchor creates an account or asks
-- that one is writable, it can only refuse an instruction; that is left out except in
-- `cancel_redemption_request`, whose theorem says that the instruction ends well. Public keys are
-- compared by their base58 texts.
pub mod Base
pub mod Js
pub mod Session
pub mod Network
pub mod Tokens
pub mod Prompts
pub mod Params
pub mod Helper
pub mod Transaction
pub mod Commands
pub mod Onchain
mod Tests
