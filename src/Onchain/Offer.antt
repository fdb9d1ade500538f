-- ===== src/Onchain/Offer.antt =====
-- programs/onreapp/src/instructions/offer: the offer account, the search for its vectors, and the
-- instructions that change them.
pub mod Active
pub mod Cleaned
pub mod Valid
pub mod Added
pub mod Deleted
pub mod Reachable
pub mod Schedule
use on_re_sol.Base.{
  ℕ, suc, ◌+◌, Bool, true, false, not, ◌&&◌, List, [], ◌∷◌, map, all, any, Option, none, some, ltb,
  leb, eqb, if◌then◌else◌, filter, position, replace_at, repeat,
}
use on_re_sol.Js.{PublicKey, equals}
use on_re_sol.Onchain.Run.{
  Run, ok, err, ◌>>=◌, ◌>>◌, ok_or, require, checked_sub, no_active_vector, start_time_in_past,
  zero_value, duplicate_start_time, invalid_time_range, too_many_vectors, vector_not_found,
  invalid_fee, invalid_token_in_mint, invalid_token_out_mint, panic,
}
use on_re_sol.Onchain.State.{State, has_one_boss}
use on_re_sol.Onchain.Amounts.{max_basis_points}

pub record OfferVector : Type 0 where
  pub start_time : ℕ
  pub base_time : ℕ
  pub base_price : ℕ
  pub apr : ℕ
  pub price_fix_duration : ℕ

-- `OfferVector::default()`, an empty slot
abbrev pub empty_vector : OfferVector
empty_vector = record {
  start_time = 0;
  base_time = 0;
  base_price = 0;
  apr = 0;
  price_fix_duration = 0;
}

abbrev pub max_vectors : ℕ
max_vectors = 10

abbrev pub max_allowed_fee_bps : ℕ
max_allowed_fee_bps = 1000

-- The vectors are an array of ten slots.
pub record Offer : Type 0 where
  pub token_in_mint : PublicKey
  pub token_out_mint : PublicKey
  pub vectors : List OfferVector
  pub fee_basis_points : ℕ
  pub needs_approval : ℕ
  pub allow_permissionless : ℕ

-- `max_by_key(|vector| vector.start_time)`, which gives the last of several greatest.
unfoldable pub later : OfferVector → OfferVector → OfferVector
later best v = if ltb v.start_time best.start_time then best else v

unfoldable pub latest : OfferVector → List OfferVector → OfferVector
latest best [] = best
latest best (v ∷ vs) = latest (later best v) vs

unfoldable pub max_by_start_time : List OfferVector → Option OfferVector
max_by_start_time [] = none
max_by_start_time (v ∷ vs) = some (latest v vs)

unfoldable pub has_begun : ℕ → OfferVector → Bool
has_begun time v = not (eqb v.start_time 0) && leb v.start_time time

unfoldable pub find_active_vector_at : List OfferVector → ℕ → Run OfferVector
find_active_vector_at vectors time =
    ok_or no_active_vector (max_by_start_time (filter (has_begun time) vectors))

abbrev pub starts_at : ℕ → OfferVector → Bool
starts_at start_time v = eqb v.start_time start_time

unfoldable pub find_vector_index_by_start_time : List OfferVector → ℕ → Option ℕ
find_vector_index_by_start_time vectors start_time = position (starts_at start_time) vectors

abbrev pub existing : OfferVector → Bool
existing v = not (eqb v.start_time 0)

abbrev pub is_after : ℕ → Option OfferVector → Bool
is_after start_time none = true
is_after start_time (some v) = ltb v.start_time start_time

-- Whether `start_time` is after the greatest of the existing start times, if there is one.
unfoldable pub after_latest : ℕ → List OfferVector → Bool
after_latest start_time vectors = is_after start_time (max_by_start_time (filter existing vectors))

unfoldable pub validate_inputs : OfferVector → ℕ → List OfferVector → Run (Unit {0})
validate_inputs new current_time vectors = do
  require (leb current_time new.start_time) start_time_in_past
  require (ltb 0 new.base_time) zero_value
  require (ltb 0 new.base_price) zero_value
  require (ltb 0 new.price_fix_duration) zero_value
  require (not (any (starts_at new.start_time) (filter existing vectors))) duplicate_start_time
  require (after_latest new.start_time vectors) invalid_time_range

-- A slot is cleared if its vector is older than the active one and is not the previous one.
unfoldable pub evict : ℕ → ℕ → OfferVector → OfferVector
evict active previous v =
    if existing v
      && not (starts_at active v)
      && not (starts_at previous v)
      && ltb v.start_time active
    then empty_vector
    else v

abbrev pub start_time_or_zero : Run OfferVector → ℕ
start_time_or_zero (ok v) = v.start_time
start_time_or_zero (err _) = 0

-- The slots that are kept beside the active vector, whose start time is not 0: in Rust, 0 - 1
-- panics.
unfoldable pub clean_around : List OfferVector → OfferVector → Run (List OfferVector)
clean_around vectors active = do
  before ← ok_or panic (checked_sub active.start_time 1)
  let previous = start_time_or_zero (find_active_vector_at vectors before) in
      ok (map (evict active.start_time previous) vectors)

abbrev pub clean_from : List OfferVector → Run OfferVector → Run (List OfferVector)
clean_from vectors (ok active) = clean_around vectors active
clean_from vectors (err _) = ok vectors

unfoldable pub active_with : List OfferVector → OfferVector → ℕ → Run OfferVector
active_with vectors new current_time =
    if starts_at current_time new then ok new else find_active_vector_at vectors current_time

unfoldable pub clean_old_vectors : List OfferVector → OfferVector → ℕ → Run (List OfferVector)
clean_old_vectors vectors new current_time =
    clean_from vectors (active_with vectors new current_time)

abbrev pub or_default : Option ℕ → ℕ → ℕ
or_default none d = d
or_default (some n) d = n

abbrev pub max : ℕ → ℕ → ℕ
max a b = if ltb a b then b else a

-- The vector that is added: without a start time it starts at its base time, or now if that is later.
abbrev pub new_vector : ℕ → Option ℕ → ℕ → ℕ → ℕ → ℕ → OfferVector
new_vector current_time start_time_opt base_time base_price apr price_fix_duration = record {
  start_time = or_default start_time_opt (max current_time base_time);
  base_time = base_time;
  base_price = base_price;
  apr = apr;
  price_fix_duration = price_fix_duration;
}

module _ (state : State) (boss : PublicKey) (current_time : ℕ) (offer : Offer) where
  unfoldable pub add_offer_vector : Option ℕ → ℕ → ℕ → ℕ → ℕ → Run Offer
  add_offer_vector start_time_opt base_time base_price apr price_fix_duration = do
    has_one_boss state boss
    let new = new_vector current_time start_time_opt base_time base_price apr price_fix_duration in
        do
          validate_inputs new current_time offer.vectors
          cleaned ← clean_old_vectors offer.vectors new current_time
          slot ← ok_or too_many_vectors (find_vector_index_by_start_time cleaned 0)
          ok (record offer { vectors = replace_at slot new cleaned })

  unfoldable pub delete_offer_vector : ℕ → Run Offer
  delete_offer_vector vector_start_time = do
    has_one_boss state boss
    require (ltb current_time vector_start_time) start_time_in_past
    slot ← ok_or vector_not_found (find_vector_index_by_start_time offer.vectors vector_start_time)
    ok (record offer { vectors = replace_at slot empty_vector offer.vectors })

-- `if flag { 1 } else { 0 }`
abbrev pub as_flag : Bool → ℕ
as_flag flag = if flag then 1 else 0

-- The account is new: every byte that is not written here is zero.
unfoldable pub make_offer : State → PublicKey → PublicKey → PublicKey → ℕ → Bool → Bool → Run Offer
make_offer state boss token_in_mint token_out_mint fee_basis_points needs_approval
      allow_permissionless =
    do
      has_one_boss state boss
      require (leb fee_basis_points max_allowed_fee_bps) invalid_fee
      ok (record {
        token_in_mint = token_in_mint;
        token_out_mint = token_out_mint;
        vectors = repeat empty_vector max_vectors;
        fee_basis_points = fee_basis_points;
        needs_approval = as_flag needs_approval;
        allow_permissionless = as_flag allow_permissionless;
      })

module _ (state : State) (boss : PublicKey) (offer : Offer) where
  unfoldable pub delete_all_offer_vectors : Run Offer
  delete_all_offer_vectors = do
    has_one_boss state boss
    ok (record offer { vectors = map (λ v. if existing v then empty_vector else v) offer.vectors })

  unfoldable pub update_offer_fee : ℕ → Run Offer
  update_offer_fee new_fee_basis_points = do
    has_one_boss state boss
    require (leb new_fee_basis_points max_basis_points) invalid_fee
    ok (record offer { fee_basis_points = new_fee_basis_points })
