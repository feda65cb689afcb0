-- ===== src/Contract/Scripts.antt =====
-- Round trips of the binary form of scripts.
use mathlib.Core.List.{append_assoc}
use korthochain.Common.{
  ℕ, ◌+◌, ◌%◌, ◌^◌, ◌<◌, ◌≤◌, ◌≡◌, inl, inr, refl, ◌∙◌, ap, sym, List, [], ◌∷◌, ◌++◌, ◌||◌, true,
  false, arith, take, drop, length, ltb, ◌==◌, if◌then◌else◌, length-append, take_of_length,
  drop_of_length, le→ltb, All, take-append, append-nil, Bool-cases,
}
use korthochain.Common.Bytes.{Bytes}
use korthochain.Common.Digits.{replicate, length-replicate}
use korthochain.Common.Outcome.{ok}
use korthochain.Codec.{e32func, e64func, eslice}
use korthochain.Codec.Laws.{
  d32func-e32func, d64func-e64func, dslice-eslice, length-e32func, length-e64func,
}
use korthochain.Contract.Script.{
  ArgumentValue, number, text, no_value, ScriptArgument, Script, new_argument, show_value,
  show_argument, read_value, read_argument, show_all, show_script, read_all, read_script,
}

-- A value of the kind that the type of the argument asks for.
abbrev pub Matches : ℕ → ArgumentValue → Type 0
Matches typ no_value = ⊥
Matches typ (number v) = ((typ == 1) || (typ == 4) ≡ true) × (v < 2 ^ 64)
Matches typ (text v) =
    ((typ == 1) || (typ == 4) ≡ false) × ((typ == 0) || ((typ == 2) || (typ == 3)) ≡ true)

abbrev pub IsArgument : ScriptArgument → Type 0
IsArgument a = (a.typ < 2 ^ 32) × Matches a.typ a.value

length-eslice : (v : Bytes) → length (eslice v) ≡ 4 + length v
unfolding eslice
length-eslice v =
    length-append (e32func (length v % 2 ^ 32)) v
    ∙ omega (arith, length-e32func (length v % 2 ^ 32))

value_lem :
    (typ : ℕ) (v old : ArgumentValue) (rest : Bytes)
    → Matches typ v
    → length (show_value v ++ rest) < 2 ^ 32
    → read_value typ old (e32func typ ++ (show_value v ++ rest)) ≡ ok (v, rest)
unfolding read_value show_value
value_lem typ no_value old rest h fits = absurd h
value_lem typ (number v) old rest h fits =
    let eight = length-e64func v in
    rw
      (
        h.0,
        drop_of_length 4 (e32func typ) (e64func v ++ rest) (length-e32func typ),
        le→ltb (length (e64func v ++ rest)) 8 (omega (arith, length-append (e64func v) rest)),
        take_of_length 8 (e64func v) rest eight,
        drop_of_length 8 (e64func v) rest eight,
        d64func-e64func v h.1,
      )
      refl
value_lem typ (text v) old rest h fits =
    let size = length-append (eslice v) rest in
    let body = length-append v rest in
    rw
      (
        h.0,
        h.1,
        drop_of_length 4 (e32func typ) (eslice v ++ rest) (length-e32func typ),
        dslice-eslice v rest (omega (arith, size, body, length-eslice v)),
      )
      refl

argument_lem :
    (a old : ScriptArgument) (rest : Bytes)
    → IsArgument a
    → length (show_argument a ++ rest) < 2 ^ 32
    → read_argument old (show_argument a ++ rest) ≡ ok (a, rest)
unfolding read_argument show_argument
argument_lem a old rest h fits =
    let four = length-e32func a.typ in
    let tail : Bytes = show_value a.value ++ rest in
    let whole = length-append (e32func a.typ) tail in
    let same = append_assoc (e32func a.typ) (show_value a.value) rest in
    rw
      (
        same,
        le→ltb (length (e32func a.typ ++ tail)) 4 (omega arith),
        take_of_length 4 (e32func a.typ) tail four,
        d32func-e32func a.typ h.0,
        value_lem a.typ a.value old.value rest h.1 (omega (arith, ap length same)),
      )
      refl

-- What the receiver holds behind the arguments that are read stays.
all_lem :
    (args old : List ScriptArgument) (rest : Bytes)
    → All IsArgument args
    → length args ≤ length old
    → length (show_all args ++ rest) < 2 ^ 32
    → read_all (length args) old (show_all args ++ rest) ≡ ok (args ++ drop (length args) old, rest)
unfolding read_all show_all
all_lem [] old rest h enough fits = refl
all_lem (a ∷ args) [] rest h enough fits = absurd (omega arith)
all_lem (a ∷ args) (o ∷ old) rest h enough fits =
    let tail : Bytes = show_all args ++ rest in
    let same = append_assoc (show_argument a) (show_all args) rest in
    let size = length-append (show_argument a) tail in
    rw
      (
        same,
        argument_lem a o tail h.0 (omega (arith, ap length same)),
        all_lem args old rest h.1 (omega arith) (omega (arith, ap length same)),
      )
      refl

-- The arguments that the receiver starts the loop with: `n` new ones where it has fewer.
abbrev made : ℕ → List ScriptArgument → List ScriptArgument
made n old = if ltb (length old) n then replicate n new_argument else old

-- What a receiver holds behind the first `n` arguments.
abbrev pub behind : ℕ → List ScriptArgument → List ScriptArgument
behind n old = if ltb (length old) n then [] else drop n old

made_enough : (n : ℕ) (old : List ScriptArgument) → n ≤ length (made n old)
made_enough n old = elim (Bool-cases (ltb (length old) n)) [
  | inl short ↦ rw short (omega (arith, length-replicate {A = ScriptArgument} n new_argument))
  | inr enough ↦ rw enough (ground arith)
]

drop-all : (n : ℕ) (xs : List ScriptArgument) → length xs ≡ n → drop n xs ≡ []
drop-all n xs size = ap (drop n) (sym (append-nil xs)) ∙ drop_of_length n xs [] size

take-all : (xs : List ScriptArgument) → take (length xs) xs ≡ xs
take-all xs = ap (take (length xs)) (sym (append-nil xs)) ∙ take-append xs []

drop-made : (n : ℕ) (old : List ScriptArgument) → drop n (made n old) ≡ behind n old
drop-made n old = elim (Bool-cases (ltb (length old) n)) [
  | inl short ↦ rw short (drop-all n (replicate n new_argument) (length-replicate n new_argument))
  | inr enough ↦ rw enough refl
]

-- Reading what `Show` wrote of a script whose arguments have values of their types, where all that
-- is read is shorter than 2 ^ 32 and the script and the receiver have fewer than 2 ^ 32 arguments,
-- gives the name, the arguments and what follows; a receiver with at least as many arguments keeps
-- those behind them.
pub read_script-show_script :
    (s receiver : Script) (rest : Bytes)
    → All IsArgument s.args
    → length s.args < 2 ^ 32
    → length receiver.args < 2 ^ 32
    → length (show_script s ++ rest) < 2 ^ 32
    → read_script receiver (show_script s ++ rest)
      ≡ ok (record { name = s.name; args = s.args ++ behind (length s.args) receiver.args }, rest)
unfolding read_script show_script
read_script-show_script s receiver rest h count old fits =
    let n : ℕ = length s.args in
    let low : n % 2 ^ 32 ≡ n = omega arith in
    let low_old : length receiver.args % 2 ^ 32 ≡ length receiver.args = omega arith in
    let head : Bytes = e32func n in
    let body : Bytes = show_all s.args ++ rest in
    let tail : Bytes = eslice s.name ++ body in
    let same : show_script s ++ rest ≡ head ++ tail =
      rw (low, take-all s.args)
        (append_assoc head (eslice s.name ++ show_all s.args) rest
          ∙ ap (λ l. head ++ l) (append_assoc (eslice s.name) (show_all s.args) rest)) in
    let four = length-e32func n in
    let whole = ap length same in
    let size_head = length-append head tail in
    let size_tail = length-append (eslice s.name) body in
    let size_body = length-append s.name body in
    let size_name = length-eslice s.name in
    ap (read_script receiver) same
    ∙ rw
        (
          le→ltb (length (head ++ tail)) 4 (omega arith),
          take_of_length 4 head tail four,
          drop_of_length 4 head tail four,
          d32func-e32func n count,
          dslice-eslice s.name body (omega arith),
          low_old,
          all_lem s.args (made n receiver.args) rest h (made_enough n receiver.args) (omega arith),
          drop-made n receiver.args,
        )
        refl
