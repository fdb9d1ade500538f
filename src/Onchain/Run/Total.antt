-- ===== src/Onchain/Run/Total.antt =====
-- Instructions that return or fail with an error, but do not panic.
use on_re_sol.Base.{ℕ, ◌≤◌, ◌<◌, Bool, true, false, ◌≡◌, ◌≢◌, refl, ap, arith, Option, none, some}
use on_re_sol.Onchain.Run.{
  Run, ok, err, Fault, panic, ◌>>=◌, ◌>>◌, ok_or, require, checked, checked_div, divide,
}

module _ {A : Type 0} where
  abbrev pub Safe : Run A → Type 0
  Safe r = r ≢ err panic

  err-inj : {f g : Fault} → ◌≡◌ {A = Run A} (err f) (err g) → f ≡ g
  err-inj h = cc

  pub Safe-ok : (a : A) → Safe (ok a)
  Safe-ok a e = cc

  pub Safe-bind :
      {B : Type 0} (m : Run B) (f : B → Run A)
      → m ≢ err panic
      → ((b : B) → m ≡ ok b → Safe (f b))
      → Safe (m >>= f)
  unfolding ◌>>=◌
  Safe-bind (ok b) f first rest e = rest b refl e
  Safe-bind (err fault) f first rest e = first (ap err (err-inj e))

  pub Safe-require :
      (b : Bool) (fault : Fault) (rest : Run A)
      → fault ≢ panic
      → (b ≡ true → Safe rest)
      → Safe (require b fault >> rest)
  unfolding ◌>>◌ require
  Safe-require true fault rest other h e = h refl e
  Safe-require false fault rest other h e = other (err-inj e)

  pub Safe-ok_or : (fault : Fault) (o : Option A) → fault ≢ panic → Safe (ok_or fault o)
  unfolding ok_or
  Safe-ok_or fault none other e = other (err-inj e)
  Safe-ok_or fault (some a) other e = cc

pub Safe-checked : (fault : Fault) (max n : ℕ) → n ≤ max → Safe (ok_or fault (checked max n))
unfolding ok_or checked
Safe-checked fault max n h e = ground arith

pub Safe-divide : (a b : ℕ) → 0 < b → Safe (divide a b)
unfolding divide ok_or checked_div
Safe-divide a b h e = ground arith
