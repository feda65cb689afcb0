-- ===== src/Address/Tests.antt =====
-- Runs of the address codec at concrete inputs.
use korthochain.Common.{ℕ, zero, suc, All, ◌<◌, ◌≡◌, List, [], ◌∷◌, arith, ◌≢◌}
use korthochain.Common.Bytes.{Bytes, IsBytes}
use korthochain.Common.Digits.{replicate}
use korthochain.Common.Outcome.{ok}
use korthochain.Address.{mainnet, encode, decode, protocol, unknown}
use korthochain.Address.RoundTrip.{decode-encode}

abbrev ones : ℕ → Bytes
ones n = replicate n 1

abbrev key : Bytes
key =
    1 ∷ 2 ∷ 3 ∷ 4 ∷ 5 ∷ 6 ∷ 7 ∷ 8 ∷ 9 ∷ 10 ∷ 11 ∷ 12 ∷ 13 ∷ 14 ∷ 15 ∷ 16 ∷ 17 ∷ 18 ∷ 19 ∷ 20 ∷ 21
    ∷ 22 ∷ 23 ∷ 24 ∷ 25 ∷ 26 ∷ 27 ∷ 28 ∷ 29 ∷ 30 ∷ 31 ∷ 255 ∷ []

key-IsBytes : IsBytes key
key-IsBytes = ground arith

key_known : protocol (record { payload = key }) ≢ unknown
unfolding protocol
key_known e = ground arith

decode-encode_example :
    (text : Bytes) × (encode mainnet (record { payload = key }) ≡ ok text)
    × (decode mainnet text ≡ ok (record { payload = key }))
decode-encode_example = decode-encode mainnet key key-IsBytes key_known

-- The greatest text of 44 digits.
abbrev top : List ℕ
top = replicate 44 57

top-proper : (n : ℕ) → All (λ d. d < 58) (replicate n 57)
unfolding replicate
top-proper zero = tt
top-proper (suc n) = (omega arith, top-proper n)
