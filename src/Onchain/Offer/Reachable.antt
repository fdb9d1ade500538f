-- ===== src/Onchain/Offer/Reachable.antt =====
-- programs/onreapp/src/instructions/offer: the offer accounts that the instructions can produce.
use on_re_sol.Base.{
  ℕ, ◌≤◌, ◌<◌, Bool, inl, inr, Option, ◌≡◌, refl, ap, ◌∙◌, arith, Among, map-Among, map-Pairwise,
  length, length-map, repeat-Among, repeat-Pairwise, length-repeat, if◌then◌else◌,
}
use on_re_sol.Js.{PublicKey}
use on_re_sol.Onchain.Run.{ok}
use on_re_sol.Onchain.Run.Inversion.{ok-inj, ok-then, ok-require}
use on_re_sol.Onchain.State.{State}
use on_re_sol.Onchain.Offer.{
  OfferVector, Offer, empty_vector, existing, make_offer, add_offer_vector, delete_offer_vector,
  delete_all_offer_vectors, update_offer_fee,
}
use on_re_sol.Onchain.Offer.Active.{Apart, Distinct}
use on_re_sol.Onchain.Offer.Added.{
  add_offer_vector-Added, Added-sound, Added-Distinct, Added-length,
}
use on_re_sol.Onchain.Offer.Deleted.{
  delete_offer_vector-Deleted, Deleted-Distinct, Deleted-length, Deleted-old,
}

-- A vector that exists has a base time, a base price and a duration.
abbrev pub Complete : OfferVector → Type 0
Complete v = 0 < v.start_time → (0 < v.base_time) × (0 < v.base_price) × (0 < v.price_fix_duration)

-- Ten slots, distinct start times, complete vectors, and a fee of at most everything.
pub record IsValid (offer : Offer) : Type 0 where
  pub ten : length offer.vectors ≡ 10
  pub distinct : Distinct offer.vectors
  pub complete : (v : OfferVector) → Among v offer.vectors → Complete v
  pub fee : offer.fee_basis_points ≤ 10_000

-- The offer accounts after any instructions, by any signers at any times and states.
pub data Reachable : Offer → Type 0 where
  made :
      (state : State) (boss token_in token_out : PublicKey) (fee : ℕ)
      (approval permissionless : Bool) (offer : Offer)
      → make_offer state boss token_in token_out fee approval permissionless ≡ ok offer
      → Reachable offer
  added :
      (state : State) (boss : PublicKey) (now : ℕ) (offer : Offer) (start : Option ℕ)
      (base_time base_price apr duration : ℕ) (after : Offer)
      → Reachable offer
      → add_offer_vector state boss now offer start base_time base_price apr duration ≡ ok after
      → Reachable after
  deleted :
      (state : State) (boss : PublicKey) (now : ℕ) (offer : Offer) (start : ℕ) (after : Offer)
      → Reachable offer
      → delete_offer_vector state boss now offer start ≡ ok after
      → Reachable after
  cleared :
      (state : State) (boss : PublicKey) (offer after : Offer)
      → Reachable offer
      → delete_all_offer_vectors state boss offer ≡ ok after
      → Reachable after
  fee_updated :
      (state : State) (boss : PublicKey) (offer : Offer) (fee : ℕ) (after : Offer)
      → Reachable offer
      → update_offer_fee state boss offer fee ≡ ok after
      → Reachable after

make_offer-IsValid :
    (state : State) (boss token_in token_out : PublicKey) (fee : ℕ) (approval permissionless : Bool)
    (offer : Offer)
    → make_offer state boss token_in token_out fee approval permissionless ≡ ok offer
    → IsValid offer
unfolding make_offer
make_offer-IsValid state boss token_in token_out fee approval permissionless offer h =
    let (_, h1) = ok-then _ _ h in
    let (low, h2) = ok-require _ _ _ h1 in
    rw (← ok-inj h2) (record {
      ten = length-repeat empty_vector 10;
      distinct = repeat-Pairwise empty_vector Apart 10 (λ e. refl);
      complete = λ v m e.
          let same = ap (λ x. x.start_time) (repeat-Among empty_vector 10 v m) in
          absurd (omega (arith, same));
      fee = ground arith;
    })

add_offer_vector-IsValid :
    (state : State) (boss : PublicKey) (now : ℕ) (offer : Offer) (start : Option ℕ)
    (base_time base_price apr duration : ℕ) (after : Offer)
    → add_offer_vector state boss now offer start base_time base_price apr duration ≡ ok after
    → IsValid offer
    → IsValid after
add_offer_vector-IsValid state boss now offer start base_time base_price apr duration after h
      valid =
    let (new, same) =
      add_offer_vector-Added state boss now offer start base_time base_price apr duration after h in
    record {
      ten = Added-length new ∙ valid.ten;
      distinct = Added-Distinct new valid.distinct;
      complete = λ v m e. elim (Added-sound new v m e) [
        | inl newest ↦ rw newest (
          new.acceptable.base_time_set, new.acceptable.base_price_set, new.acceptable.duration_set,
        )
        | inr old ↦ valid.complete v old e
      ];
      fee = rw same valid.fee;
    }

delete_offer_vector-IsValid :
    (state : State) (boss : PublicKey) (now : ℕ) (offer : Offer) (start : ℕ) (after : Offer)
    → delete_offer_vector state boss now offer start ≡ ok after
    → IsValid offer
    → IsValid after
delete_offer_vector-IsValid state boss now offer start after h valid =
    let (gone, same) = delete_offer_vector-Deleted state boss now offer start after h in
    record {
      ten = Deleted-length gone ∙ valid.ten;
      distinct = Deleted-Distinct gone valid.distinct;
      complete = λ v m e. elim (Deleted-old gone v m) [
        | inl empty ↦ let zero = ap (λ x. x.start_time) empty in absurd (omega (arith, zero))
        | inr old ↦ valid.complete v old e
      ];
      fee = rw same valid.fee;
    }

clear : OfferVector → OfferVector
clear v = if existing v then empty_vector else v

clear-start : (v : OfferVector) → (clear v).start_time ≡ 0
unfolding clear
clear-start v = ground arith

delete_all_offer_vectors-IsValid :
    (state : State) (boss : PublicKey) (offer after : Offer)
    → delete_all_offer_vectors state boss offer ≡ ok after
    → IsValid offer
    → IsValid after
unfolding delete_all_offer_vectors clear
delete_all_offer_vectors-IsValid state boss offer after h valid =
    let (_, h1) = ok-then _ _ h in
    rw (← ok-inj h1) (record {
      ten = length-map clear offer.vectors ∙ valid.ten;
      distinct = map-Pairwise Apart clear offer.vectors (λ u v k e. clear-start u) valid.distinct;
      complete = λ v m e.
          let (u, _, same) = map-Among clear offer.vectors v m in
          let zero = ap (λ x. x.start_time) same ∙ clear-start u in absurd (omega (arith, zero));
      fee = valid.fee;
    })

update_offer_fee-IsValid :
    (state : State) (boss : PublicKey) (offer : Offer) (fee : ℕ) (after : Offer)
    → update_offer_fee state boss offer fee ≡ ok after
    → IsValid offer
    → IsValid after
unfolding update_offer_fee
update_offer_fee-IsValid state boss offer fee after h valid =
    let (_, h1) = ok-then _ _ h in
    let (low, h2) = ok-require _ _ _ h1 in
    rw (← ok-inj h2) (record {
      ten = valid.ten;
      distinct = valid.distinct;
      complete = valid.complete;
      fee = ground arith;
    })

-- Whatever instructions made it what it is, an offer account has ten slots, start times that are
-- distinct, vectors whose base time, base price and duration are not zero, and a fee of at most
-- 10000 basis points.
pub Reachable-IsValid : (offer : Offer) → Reachable offer → IsValid offer
Reachable-IsValid offer (made s b i o f a p after h) = make_offer-IsValid s b i o f a p offer h
Reachable-IsValid offer (added s b n before t bt bp apr d after r h) =
    add_offer_vector-IsValid s b n before t bt bp apr d offer h (Reachable-IsValid before r)
Reachable-IsValid offer (deleted s b n before t after r h) =
    delete_offer_vector-IsValid s b n before t offer h (Reachable-IsValid before r)
Reachable-IsValid offer (cleared s b before after r h) =
    delete_all_offer_vectors-IsValid s b before offer h (Reachable-IsValid before r)
Reachable-IsValid offer (fee_updated s b before f after r h) =
    update_offer_fee-IsValid s b before f offer h (Reachable-IsValid before r)
