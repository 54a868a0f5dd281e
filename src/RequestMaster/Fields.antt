-- ===== src/RequestMaster/Fields.antt =====
-- The fields of the body of a request, as `RequestMaster::validate` (qt/src/requestmaster.cpp) cuts
-- it.
use mathlib.Core.List.{append_assoc}
use cscrypto.Base.{
  ℕ, ◌-◌, ◌≡◌, List, ◌++◌, length, length-append, take, drop, take_all, take-append_at,
  drop-append_at, arith,
}

-- The fields of a request's body.
module _ (pk epk sig : List ℕ) (l : length pk ≡ 32) (l' : length epk ≡ 32)
    (g : length sig ≡ 64) where
  pub body-length : length (pk ++ epk ++ sig) ≡ 128
  body-length = omega (arith, length-append (pk ++ epk) sig, length-append pk epk)

  pub sender-body : take 32 (pk ++ epk ++ sig) ≡ pk
  sender-body = rw (append_assoc pk epk sig) (take-append_at 32 pk (epk ++ sig) l)

  pub exchange_key-body : take 32 (drop 32 (pk ++ epk ++ sig)) ≡ epk
  exchange_key-body =
      rw (append_assoc pk epk sig, drop-append_at 32 pk (epk ++ sig) l)
        (take-append_at 32 epk sig l')

  pub signature-body : take 64 (drop 64 (pk ++ epk ++ sig)) ≡ sig
  signature-body =
      rw (drop-append_at 64 (pk ++ epk) sig (omega (arith, length-append pk epk)))
        (take_all 64 sig (omega arith))

  pub signed-body : take (length (pk ++ epk ++ sig) - 64) (pk ++ epk ++ sig) ≡ pk ++ epk
  signed-body =
      take-append_at (length (pk ++ epk ++ sig) - 64) (pk ++ epk) sig
        (omega (arith, length-append (pk ++ epk) sig))
