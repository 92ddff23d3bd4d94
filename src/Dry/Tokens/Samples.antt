-- ===== src/Dry/Tokens/Samples.antt =====
-- Two small token streams that share `b c d e`.
use reporigor.Dry.Limits.{CandidateWork, consume}
use reporigor.Dry.Tokens.{TokenRecord, TokenPair, windows_equal, extend_match}
use reporigor.Dry.Tokens.Extend.{IsMaximalMatch, extend_match-IsMaximalMatch}
use reporigor.Dry.Tokens.Enough.{Extends, extend_match-Extends}
use reporigor.Prelude.{ℕ, ◌≡◌, refl, true, [], ◌∷◌, arith, text_eq, ok}

abbrev token : ℕ → TokenRecord
token byte = record { value = byte ∷ []; line = 1; index = 0 }

abbrev pair : TokenPair
pair = record {
  left = token b'a' ∷ token b'b' ∷ token b'c' ∷ token b'd' ∷ token b'e' ∷ [];
  left_start = 2;
  right = token b'b' ∷ token b'c' ∷ token b'd' ∷ token b'e' ∷ token b'x' ∷ [];
  right_start = 1;
}

abbrev fresh : CandidateWork
fresh = record { used = 0; limit = 100 }

compared : windows_equal pair 2 fresh ≡ ok (true, record { used = 2; limit = 100 })
unfolding windows_equal consume text_eq
compared = refl

extended : extend_match pair 2 fresh ≡ ok ((1, 0, 4), record { used = 2; limit = 100 })
unfolding extend_match consume text_eq
extended = refl

extend_match-IsMaximalMatch_example : IsMaximalMatch pair 2 1 0 4
extend_match-IsMaximalMatch_example =
    extend_match-IsMaximalMatch pair 2 fresh fresh compared extended

extend_match-Extends_example : Extends pair 2 fresh
extend_match-Extends_example = extend_match-Extends pair 2 fresh (omega arith) (omega arith)
