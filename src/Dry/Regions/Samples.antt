-- ===== src/Dry/Regions/Samples.antt =====
-- Three regions, and one that joins two of them.
use reporigor.Dry.Regions.{Region, remember_extended_region, covered, in_region}
use reporigor.Dry.Regions.Coverage.{covered-remember_extended_region}
use reporigor.Dry.Regions.Separation.{IsNormal, remember_extended_region-IsNormal}
use reporigor.Prelude.Order.{sort_by, insert_by, cmp_pair}
use reporigor.Prelude.{◌≡◌, refl, ◌||◌, List, [], ◌∷◌, arith}

abbrev three : List Region
three = (1, 3) ∷ (7, 9) ∷ (20, 21) ∷ []

covered-remember_extended_region_example :
    covered (remember_extended_region three 4 6) 8 ≡ (covered three 8 || in_region 8 (4, 6))
covered-remember_extended_region_example =
    covered-remember_extended_region three 4 6 8 (omega arith) (omega arith)

three-IsNormal : IsNormal three
three-IsNormal = record { fits = omega arith; apart = ground arith }

remember_extended_region-IsNormal_example : IsNormal (remember_extended_region three 4 6)
remember_extended_region-IsNormal_example =
    remember_extended_region-IsNormal three 4 6 three-IsNormal (omega arith) (omega arith)

-- The new region touches two others, and the three become one.
joined : remember_extended_region three 4 6 ≡ (1, 9) ∷ (20, 21) ∷ []
unfolding remember_extended_region sort_by insert_by cmp_pair
joined = refl
