-- ===== src/Wire/Reads.antt =====
-- What a decoder makes of bytes that an encoder wrote, and how such facts are composed along a
-- chain of calls.
use mathlib.Core.List.{append_assoc}
use korthochain.Common.{
  ℕ, ◌-◌, ◌<◌, ◌≤◌, ◌≡◌, refl, ◌∙◌, ap, [], ◌∷◌, ◌++◌, arith, length, length-append, take-append,
  append-nil, drop-append, ◌+◌, take_of_length, drop_of_length, le→ltb, ◌==◌, false,
}
use korthochain.Common.Word.{IsU64}
use korthochain.Common.Bytes.{Bytes}
use korthochain.Common.Digits.{replicate}
use korthochain.Common.Outcome.{ok}
use korthochain.Common.Action.{pure, ◌>>=◌, >>=-ok}
use korthochain.Wire.{Cbor, IsCbor, Decoder, read_full, read_some, read_header, expect, make}

-- The decoder takes exactly these bytes off its input and returns the value.
abbrev pub Reads : {A : Type 0} → Decoder A → Bytes → A → Type 0
Reads m bytes x = (rest : Bytes) → m (bytes ++ rest) ≡ (ok x, rest)

pub Reads->>= :
    {A B : Type 0} (m : Decoder A) (f : A → Decoder B) (b b' : Bytes) {x : A} {y : B}
    → Reads m b x
    → Reads (f x) b' y
    → Reads (m >>= f) (b ++ b') y
Reads->>= m f b b' first then_ rest =
    ap (m >>= f) (append_assoc b b' rest)
    ∙ >>=-ok m f (b ++ (b' ++ rest)) (first (b' ++ rest))
    ∙ then_ rest

-- The last call of a chain, before its value is returned.
pub Reads-last :
    {A B : Type 0} (m : Decoder A) (f : A → B) (b : Bytes) {x : A}
    → Reads m b x
    → Reads (m >>= λ a. pure (f a)) b (f x)
Reads-last m f b first rest = >>=-ok m (λ a. pure (f a)) (b ++ rest) (first rest)

pub Reads-read_full : (n : ℕ) (b : Bytes) → length b ≡ n → Reads (read_full n) b b
unfolding read_full
Reads-read_full n b size rest =
    rw
      (
        ← size,
        le→ltb (length (b ++ rest)) (length b) (omega (arith, length-append b rest)),
        take-append b rest,
        drop-append b rest,
      )
      refl

read_some_lem :
    (n : ℕ) (b rest : Bytes)
    → length b ≡ n
    → (n == 0) ≡ false
    → read_some n (b ++ rest) ≡ (ok b, rest)
unfolding read_some replicate
read_some_lem n b rest size some_left =
    let whole : length (b ++ rest) ≡ length b + length rest = length-append b rest in
    let left : (length (b ++ rest) == 0) ≡ false = ground arith in
    let enough : n - length (b ++ rest) ≡ 0 = omega arith in
    rw (some_left, left, enough, take_of_length n b rest size, drop_of_length n b rest size)
      (ap (λ l. (ok l, rest)) (append-nil b))

pub Reads-read_some : (n : ℕ) (b : Bytes) → length b ≡ n → Reads (read_some n) b b
unfolding read_some
Reads-read_some n [] size rest = ground arith
Reads-read_some n (x ∷ b) size rest = read_some_lem n (x ∷ b) rest size (ground arith)

module _ (c : Cbor) (laws : IsCbor c) where
  pub Reads-header :
      (major extra : ℕ)
      → major < 8
      → IsU64 extra
      → Reads (read_header c) (c.write_header major extra) (major, extra)
  unfolding read_header
  Reads-header major extra hm he rest =
      rw (laws.read-write major extra rest hm he, read_header) refl

  pub Reads-expect :
      (major extra : ℕ)
      → major < 8
      → IsU64 extra
      → Reads (expect c major) (c.write_header major extra) extra
  unfolding expect
  Reads-expect major extra hm he rest =
      >>=-ok (read_header c) _ _ (Reads-header major extra hm he rest) ∙ ground arith

  pub Reads-make : (n : ℕ) → n ≤ c.max_alloc → Reads (make c n) [] tt
  unfolding make
  Reads-make n h rest = rw (le→ltb c.max_alloc n h) refl
