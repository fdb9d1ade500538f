-- ===== src/Tests/Fixtures.antt =====
-- A platform with fixed answers, a network and a first world.
use on_re_sol.Base.{
  String, true, false, List, [], ◌∷◌, Option, none, some, ◌==◌, eq_refl, pos, any, ◌≡◌, refl, sym,
  subst, arith, Bool-cases, inl, inr, if◌then◌else◌,
}
use on_re_sol.Js.{nan, int, PublicKey, key}
use on_re_sol.Session.{Platform, World, Check, accept, reject, keypair, confirmed}
use on_re_sol.Network.{Environment, NetworkConfig, devnet_test}
use on_re_sol.Prompts.Checked.{IsPrompting}

abbrev pub empty_environment : Environment
empty_environment name = none

abbrev pub cfg : NetworkConfig
cfg = devnet_test empty_environment

abbrev pub boss_key : PublicKey
boss_key = key "BossBossBoss"

-- A prompt takes an answer only if its validation accepts it.
abbrev when : {A : Type 0} → A → Check → Option A
when a accept = some a
when a (reject _) = none

-- The user signs where this is offered, and takes the first choice elsewhere.
abbrev chosen : List (String × String) → Option String
chosen [] = none
chosen (c ∷ cs) = if any (λ d. d.1 == "sign") (c ∷ cs) then some "sign" else some c.1

abbrev pub p : Platform
p = record {
  parse_key = λ s. if s == "" then none else some (key s);
  date_ms = λ s. nan;
  iso_of_seconds = λ v. some "1970-01-01T00:00:00.000Z";
  now_ms = 1_700_000_000_500;
  text_of = λ v. "text";
  ratio_text = λ v n. "ratio";
  ratio_locale_text = λ v n. "ratio";
  new_bn = λ v. some v;
  find_program_address = λ seeds program. key "Derived";
  token_address = λ mint owner program. some (key "Account");
  redeemer_token_address = λ mint owner program. some (key "Account");
  wallet = key "Wallet";
  wallet_source = "generated (read-only)";
  key_file = λ path. keypair (key "Signer");
  home = "/home/user";
  ask_input = λ n q. when "ENABLE KILL SWITCH" (q.validate "ENABLE KILL SWITCH");
  ask_number = λ n q. when (some (int (pos 7))) (q.validate (some (int (pos 7))));
  ask_select = λ n q. chosen q.choices;
  ask_confirm = λ n q. some true;
  fetch_state = λ k. some (record { boss = boss_key; redemption_admin = none; admins = [] });
  fetch_redemption_offer = λ v. some (record { request_counter = 3 });
  fetch_redemption_request = λ k. none;
  all_redemption_requests = λ filters. [];
  account_exists = λ k. some false;
  latest_blockhash = some "Hash";
  serialize = λ tx. some "Base58Text";
  send = λ tx k. confirmed "Signature";
  clipboard_works = λ s. true;
}

abbrev pub w : World
w = record { asked = 0; shown = []; copied = []; sent = []; exit_code = none }

when_accepted : {A : Type 0} (a b : A) (c : Check) → when a c ≡ some b → (a ≡ b) × (c ≡ accept)
when_accepted a b accept h = (cc, refl)
when_accepted a b (reject m) h = cc

chosen_offered :
    (cs : List (String × String)) (s : String) → chosen cs ≡ some s → any (λ c. c.1 == s) cs ≡ true
chosen_offered [] s h = cc
chosen_offered (c ∷ cs) s h = elim (Bool-cases (any (λ d. d.1 == "sign") (c ∷ cs))) [
  | inl signs ↦
      let same : "sign" ≡ s = ground arith in
      subst (λ t. any (λ d. d.1 == t) (c ∷ cs) ≡ true) same signs
  | inr other ↦
      let same : c.1 ≡ s = ground arith in
      subst (λ t. any (λ d. d.1 == t) (c ∷ cs) ≡ true) same (rw (eq_refl c.1) refl)
]

pub p-IsPrompting : IsPrompting p
p-IsPrompting = record {
  input_validated = λ n q s h. let k = when_accepted "ENABLE KILL SWITCH" s _ h in rw (sym k.0) k.1;
  number_validated =
      λ n q x h. let k = when_accepted (some (int (pos 7))) (some x) _ h in rw (sym k.0) k.1;
  select_offered = λ n q s h. chosen_offered q.choices s h;
}
