-- ===== src/Msgr/Banner/Runs.antt =====
-- Runs of the banners of src/msgr/banner.rs.
use rados_rs.Common.{◌≡◌, refl, arith, [], ◌∷◌, ◌++◌, ok, err}
use rados_rs.Msgr.Frame.{unsupported_feature}
use rados_rs.Msgr.Banner.{Banner, client, encode, negotiate}
use rados_rs.Msgr.Banner.Agreement.{banners-agree, outcome}

abbrev newer : Banner
newer = record { supported = 3; required = 1 }

abbrev demanding : Banner
demanding = record { supported = 3; required = 2 }

newer_works : negotiate client newer ≡ ok 1
unfolding negotiate client
newer_works = refl

demanding_fails : negotiate client demanding ≡ err unsupported_feature
unfolding negotiate client
demanding_fails = refl

banners-agree_example :
    (outcome 16 newer (encode demanding ++ (7 ∷ [])) ≡ negotiate newer demanding)
    × (outcome 32 demanding (encode newer ++ []) ≡ negotiate newer demanding)
banners-agree_example =
    banners-agree newer demanding (omega arith, omega arith) (omega arith, omega arith) 16 32
      (omega arith) (omega arith) [] (7 ∷ [])
