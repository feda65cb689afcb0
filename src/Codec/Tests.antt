-- ===== src/Codec/Tests.antt =====
-- Runs of the encodings of miscellaneous.go at concrete inputs.
use korthochain.Common.{◌≡◌, refl, [], ◌∷◌}
use korthochain.Common.Bytes.{Bytes}
use korthochain.Common.Digits.{digits_value}
use korthochain.Common.Outcome.{ok}
use korthochain.Codec.{get_le}

abbrev two_bytes : Bytes
two_bytes = 210 ∷ 4 ∷ []

reads_two_bytes : get_le 2 two_bytes ≡ ok 1234
unfolding get_le digits_value
reads_two_bytes = refl
