-- ===== src/Tests/Onchain.antt =====
-- The on-chain program at concrete inputs.
use on_re_sol.Base.{
  ℕ, true, false, [], ◌∷◌, none, some, ◌≡◌, refl, arith, leb, if◌then◌else◌, ◌+◌, ◌*◌, ◌≤◌, ◌<◌,
  inl, inr, Among, position, replace_at, repeat, filter,
}
use on_re_sol.Js.{PublicKey, key}
use on_re_sol.Onchain.Run.{
  no_active_vector, ok, ◌>>=◌, ◌>>◌, ok_or, require, checked, checked_sub, checked_div, divide,
  u64_max, u128_max,
}
use on_re_sol.Onchain.Run.Total.{Safe}
use on_re_sol.Onchain.State.{State, default_key, has_one_boss}
use on_re_sol.Onchain.State.Operations.{contains, set_kill_switch, add_admin, remove_admin}
use on_re_sol.Onchain.State.Authority.{History, done, followed, switched, History-outsiders}
use on_re_sol.Onchain.State.Admins.{apart, remove_admin-add_admin}
use on_re_sol.Onchain.Price.{calculate_vector_price, calculate_step_price_at}
use on_re_sol.Onchain.Price.Exact.{exact_price, fit, calculate_vector_price_lem}
use on_re_sol.Onchain.Price.Steps.{calculate_step_price_at_mono}
use on_re_sol.Onchain.Amounts.{
  calculate_fees, CalculateFeeResult, calculate_token_out_amount, redemption_token_out_amount,
  pow10,
}
use on_re_sol.Onchain.Amounts.Fees.{calculate_fees_lem}
use on_re_sol.Onchain.Offer.{
  Offer, OfferVector, empty_vector, make_offer, add_offer_vector, delete_offer_vector,
  find_active_vector_at, max_by_start_time, latest, later, has_begun, validate_inputs, after_latest,
  clean_old_vectors, clean_around, active_with, evict, find_vector_index_by_start_time,
}
use on_re_sol.Onchain.Offer.Reachable.{Reachable, made, added, IsValid, Reachable-IsValid}
use on_re_sol.Onchain.Offer.Schedule.{add_offer_vector-schedule}
use on_re_sol.Onchain.Offer.Deleted.{delete-add_offer_vector}
use on_re_sol.Onchain.Process.{
  Mint, OfferProcessResult, process_offer_core, process_redemption_core, current_step_price,
}
use on_re_sol.Onchain.Process.Exchange.{process_redemption_core-le}
use on_re_sol.Onchain.Process.Total.{process_offer_core-Safe}
use on_re_sol.Onchain.Views.{find_previous_vector, calculate_apy_from_apr, get_nav_adjustment}
use on_re_sol.Onchain.Views.Previous.{
  find_previous_vector-find_active_vector_at, get_nav_adjustment-add_offer_vector,
}
use on_re_sol.Onchain.Views.Yield.{Ends, calculate_apy_from_apr-Ends}

abbrev pub owner : PublicKey
owner = key "Owner"

abbrev pub guard : PublicKey
guard = key "Guard"

abbrev pub dollar : Mint
dollar = record { address = key "Dollar"; decimals = 6 }

abbrev pub coin : Mint
coin = record { address = key "Coin"; decimals = 9 }

abbrev pub state : State
state = record {
  boss = owner;
  proposed_boss = default_key;
  is_killed = false;
  onyc_mint = key "Coin";
  admins = guard ∷ repeat default_key 19;
  approver1 = default_key;
  approver2 = default_key;
  max_supply = 0;
  redemption_admin = key "Helper";
}

abbrev fresh_offer : Offer
fresh_offer = record {
  token_in_mint = key "Dollar";
  token_out_mint = key "Coin";
  vectors = repeat empty_vector 10;
  fee_basis_points = 50;
  needs_approval = 0;
  allow_permissionless = 0;
}

-- One coin is a dollar, and 10 percent a year more, by days.
abbrev first_vector : OfferVector
first_vector = record {
  start_time = 100;
  base_time = 100;
  base_price = 1_000_000_000;
  apr = 100_000;
  price_fix_duration = 86_400;
}

abbrev second_vector : OfferVector
second_vector = record {
  start_time = 200;
  base_time = 150;
  base_price = 2_000_000_000;
  apr = 0;
  price_fix_duration = 86_400;
}

abbrev pub offer : Offer
offer = record fresh_offer { vectors = first_vector ∷ repeat empty_vector 9 }

abbrev full_offer : Offer
full_offer = record fresh_offer { vectors = first_vector ∷ second_vector ∷ repeat empty_vector 8 }

made_offer : make_offer state owner (key "Dollar") (key "Coin") 50 false false ≡ ok fresh_offer
unfolding make_offer has_one_boss ◌>>◌ require
made_offer = refl

first_added :
    add_offer_vector state owner 90 fresh_offer none 100 1_000_000_000 100_000 86_400 ≡ ok offer
unfolding add_offer_vector has_one_boss ◌>>◌ ◌>>=◌ require validate_inputs after_latest
    clean_old_vectors active_with clean_around find_active_vector_at max_by_start_time filter
    has_begun latest ok_or repeat find_vector_index_by_start_time position replace_at
first_added = refl

abbrev bought : OfferProcessResult
bought = record {
  current_price = 1000273972;
  token_in_net_amount = 995_000;
  token_in_fee_amount = 5000;
  token_out_amount = 994727472;
}

abbrev redeemed : OfferProcessResult
redeemed = record {
  current_price = 1000273972;
  token_in_net_amount = 994727472;
  token_in_fee_amount = 0;
  token_out_amount = 994999;
}

buying : process_offer_core offer 160 1_000_000 dollar coin ≡ ok bought
unfolding process_offer_core ◌>>◌ ◌>>=◌ require find_active_vector_at max_by_start_time filter
    has_begun latest later ok_or repeat current_step_price calculate_step_price_at divide
    calculate_vector_price checked checked_sub checked_div u64_max u128_max calculate_fees
    calculate_token_out_amount pow10
buying = refl

redeeming : process_redemption_core offer 160 994727472 coin dollar 0 ≡ ok redeemed
unfolding process_redemption_core ◌>>◌ ◌>>=◌ require find_active_vector_at max_by_start_time filter
    has_begun latest later ok_or repeat current_step_price calculate_step_price_at divide
    calculate_vector_price checked checked_sub checked_div u64_max u128_max calculate_fees
    redemption_token_out_amount pow10
redeeming = refl

process_redemption_core-le_example : 994999 ≤ 1_000_000
process_redemption_core-le_example =
    process_redemption_core-le offer 160 1_000_000 994727472 dollar coin 0 buying (omega arith)
      redeeming

fresh-Reachable : Reachable fresh_offer
fresh-Reachable = made state owner (key "Dollar") (key "Coin") 50 false false fresh_offer made_offer

reachable : Reachable offer
reachable =
    added state owner 90 fresh_offer none 100 1_000_000_000 100_000 86_400 offer fresh-Reachable
      first_added

Reachable-IsValid_example : IsValid offer
Reachable-IsValid_example = Reachable-IsValid offer reachable

last_second : 160 < u64_max
unfolding u64_max
last_second = omega arith

process_offer_core-Safe_example : Safe (process_offer_core offer 160 1_000_000 dollar coin)
process_offer_core-Safe_example =
    process_offer_core-Safe offer 160 1_000_000 dollar coin reachable last_second

second_added :
    add_offer_vector state owner 160 offer (some 200) 150 2_000_000_000 0 86_400 ≡ ok full_offer
unfolding add_offer_vector has_one_boss ◌>>◌ ◌>>=◌ require validate_inputs after_latest
    clean_old_vectors active_with clean_around find_active_vector_at max_by_start_time filter
    has_begun latest ok_or repeat find_vector_index_by_start_time position replace_at checked_sub
    evict
second_added = refl

add_offer_vector-schedule_example :
    find_active_vector_at full_offer.vectors 250
    ≡ (if leb 200 250 then ok second_vector else find_active_vector_at offer.vectors 250)
add_offer_vector-schedule_example =
    add_offer_vector-schedule state owner 160 offer (some 200) 150 2_000_000_000 0 86_400
      (Reachable-IsValid offer reachable).distinct second_added 250 (omega arith)

second_deleted : delete_offer_vector state owner 170 full_offer 200 ≡ ok offer
unfolding delete_offer_vector has_one_boss ◌>>◌ ◌>>=◌ require ok_or repeat
    find_vector_index_by_start_time position replace_at
second_deleted = refl

delete-add_offer_vector_example :
    find_active_vector_at offer.vectors 250 ≡ find_active_vector_at offer.vectors 250
delete-add_offer_vector_example =
    delete-add_offer_vector state owner 160 offer (some 200) 150 2_000_000_000 0 86_400 state owner
      170 (Reachable-IsValid offer reachable).distinct second_added second_deleted (omega arith) 250
      (omega arith)

small_apr : 100_000 ≤ u64_max
unfolding u64_max
small_apr = omega arith

one_day : 86_400 ≤ u64_max
unfolding u64_max
one_day = omega arith

calculate_vector_price_lem_example :
    calculate_vector_price 100_000 1_000_000_000 86_400
    ≡ fit (exact_price 100_000 1_000_000_000 86_400)
calculate_vector_price_lem_example =
    calculate_vector_price_lem 100_000 1_000_000_000 86_400 small_apr one_day

price_later : calculate_step_price_at 100_000 1_000_000_000 100 86_400 160 ≡ ok 1000273972
unfolding ◌>>◌ ◌>>=◌ require ok_or calculate_step_price_at divide calculate_vector_price checked
    checked_div u64_max u128_max
price_later = refl

calculate_step_price_at_mono_example :
    (price : ℕ) × (calculate_step_price_at 100_000 1_000_000_000 100 86_400 130 ≡ ok price)
    × (1_000_000_000 ≤ price)
    × (price ≤ 1000273972)
calculate_step_price_at_mono_example =
    calculate_step_price_at_mono 100_000 1_000_000_000 100 86_400 small_apr (omega arith)
      (omega arith) price_later

paid_fits : 1_000_001 ≤ u64_max
unfolding u64_max
paid_fits = omega arith

calculate_fees_lem_example :
    (r : CalculateFeeResult) × (calculate_fees 1_000_001 50 ≡ ok r)
    × (r.token_in_fee_amount + r.token_in_net_amount ≡ 1_000_001)
    × (1_000_001 * 50 ≤ r.token_in_fee_amount * 10_000)
    × (r.token_in_fee_amount * 10_000 < 1_000_001 * 50 + 10_000)
calculate_fees_lem_example = calculate_fees_lem 1_000_001 50 paid_fits (omega arith)

halted : set_kill_switch guard state true ≡ ok (record state { is_killed = true })
unfolding set_kill_switch ◌>>◌ require contains
halted = refl

history : History state (guard ∷ []) (record state { is_killed = true })
history =
    followed guard state (record state { is_killed = true }) (record state { is_killed = true }) []
      (switched true (record state { is_killed = true }) halted)
      (done (record state { is_killed = true }))

not_owner : ¬ Among owner (guard ∷ [])
not_owner m = elim m [ inl e ↦ apart guard owner refl e | inr n ↦ n ]

not_default : ¬ Among default_key (guard ∷ [])
not_default m = elim m [ inl e ↦ apart guard default_key refl e | inr n ↦ n ]

History-outsiders_example :
    (record state { is_killed = true } ≡ record state { is_killed = true })
    × (false ≡ true → true ≡ true)
History-outsiders_example =
    History-outsiders state (guard ∷ []) (record state { is_killed = true }) history not_owner
      not_default

admin_added :
    add_admin owner state (key "New")
    ≡ ok (record state { admins = guard ∷ key "New" ∷ repeat default_key 18 })
unfolding add_admin has_one_boss contains ◌>>◌ ◌>>=◌ require ok_or repeat position replace_at
admin_added = refl

remove_admin-add_admin_example :
    remove_admin owner
      (record state { admins = guard ∷ key "New" ∷ repeat default_key 18 })
      (key "New")
    ≡ ok state
remove_admin-add_admin_example = remove_admin-add_admin owner state (key "New") admin_added

calculate_apy_from_apr-Ends_example : Ends (calculate_apy_from_apr 100_000)
calculate_apy_from_apr-Ends_example = calculate_apy_from_apr-Ends 100_000

get_nav_adjustment-add_offer_vector_example :
    get_nav_adjustment full_offer 160 ≡ get_nav_adjustment offer 160
get_nav_adjustment-add_offer_vector_example =
    get_nav_adjustment-add_offer_vector state owner 160 offer (some 200) 150 2_000_000_000 0 86_400
      (Reachable-IsValid offer reachable).distinct second_added (omega arith)

find_previous_vector-find_active_vector_at_example :
    ok_or no_active_vector (find_previous_vector full_offer.vectors 200)
    ≡ find_active_vector_at full_offer.vectors 199
find_previous_vector-find_active_vector_at_example =
    find_previous_vector-find_active_vector_at full_offer.vectors 199
