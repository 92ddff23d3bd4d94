-- ===== src/Dry/Pairs/Samples.antt =====
-- Four functions, of which the first three form a chain.
use reporigor.Dry.Limits.{Floats, CandidateWork, consume}
use reporigor.Dry.Dice.{ShingleIdentity}
use reporigor.Dry.DisjointSet
use reporigor.Dry.DisjointSet.{DisjointSet}
use reporigor.Dry.DisjointSet.Classes.{Connected}
use reporigor.Dry.Pairs.{accept_function_pairs}
use reporigor.Dry.Pairs.Components.{Accepted, accept_function_pairs-Connected}
use reporigor.Prelude.{ℕ, ◌*◌, ◌/◌, min, ◌≡◌, refl, ◌↔◌, true, List, [], ◌∷◌, arith, ltb, leb, ok}

abbrev thousandths : Floats
thousandths = record {
  is_finite = λ x. true;
  le = leb;
  lt = ltb;
  twice_ratio = λ shared total. 2000 * shared / total;
  smaller = min;
}

abbrev shingle : ℕ → ShingleIdentity
shingle n = record { fingerprint = record { first = n; second = n }; variant = 0 }

abbrev three_of : ℕ → ℕ → ℕ → List ShingleIdentity
three_of a b c = shingle a ∷ shingle b ∷ shingle c ∷ []

abbrev shingles : List (List ShingleIdentity)
shingles = three_of 1 2 3 ∷ three_of 2 3 4 ∷ three_of 3 4 5 ∷ three_of 7 8 9 ∷ []

abbrev candidates : List (ℕ × ℕ)
candidates = (0, 1) ∷ (0, 2) ∷ (1, 2) ∷ (2, 3) ∷ []

abbrev fresh : CandidateWork
fresh = record { used = 0; limit = 100 }

abbrev components : DisjointSet
components = record { parents = 0 ∷ 0 ∷ 0 ∷ 3 ∷ [] }

accepted_two :
    accept_function_pairs thousandths 4 candidates shingles 600 fresh
    ≡ ok ((components, (0, 1, 666) ∷ (1, 2, 666) ∷ []), record { used = 10; limit = 100 })
unfolding accept_function_pairs consume DisjointSet.root DisjointSet.find_root DisjointSet.compress
accepted_two = refl

-- The first and the third function have one root, though their own pair was not accepted.
accept_function_pairs-Connected_example :
    ((DisjointSet.root components 0).0 ≡ (DisjointSet.root components 2).0)
    ↔ Connected (Accepted ((0, 1, 666) ∷ (1, 2, 666) ∷ [])) 0 2
accept_function_pairs-Connected_example =
    accept_function_pairs-Connected thousandths 4 shingles 600 candidates fresh (omega arith)
      accepted_two 0 2
