-- ===== src/Dry/Identity/Samples.antt =====
-- Encodings at concrete components.
use reporigor.Dry.Identity.{encoded_components, to_string}
use reporigor.Dry.Identity.Injective.{encoded_components_injective}
use reporigor.Prelude.{◌≡◌, refl, List, [], ◌∷◌, Text, codes}

abbrev components : List Text
components = codes "ID" ∷ codes ":" ∷ codes "return" ∷ []

encoded : encoded_components components ≡ codes "2:ID1::6:return"
unfolding encoded_components
encoded = refl

encoded_components_injective_example : components ≡ components
encoded_components_injective_example = encoded_components_injective components components refl

twelve : to_string 1203 ≡ codes "1203"
unfolding to_string
twelve = refl
