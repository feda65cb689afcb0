-- ===== src/Contract/Script.antt =====
-- pkg/contract/parser/otypes.go: scripts, which are operations with their arguments, and their
-- binary form. `Read` writes into a receiver, which keeps what it does not overwrite.
use korthochain.Common.{
  ℕ, zero, suc, ◌%◌, ◌^◌, List, [], ◌∷◌, ◌++◌, ◌||◌, take, drop, length, ltb, ◌==◌, if◌then◌else◌,
}
use korthochain.Common.Bytes.{Bytes}
use korthochain.Common.Digits.{replicate}
use korthochain.Common.Outcome.{Result, ok, err, ◌>>=◌}
use korthochain.Codec.{CodecError, e32func, d32func, e64func, d64func, eslice, dslice}

-- The types of arguments.
abbrev pub order_type : ℕ
order_type = 0

abbrev pub amount_type : ℕ
amount_type = 1

abbrev pub address_type : ℕ
address_type = 2

abbrev pub token_id_type : ℕ
token_id_type = 3

abbrev pub percentage_type : ℕ
percentage_type = 4

-- What the interface value of an argument holds.
pub data ArgumentValue : Type 0 where
  no_value : ArgumentValue
  number : ℕ → ArgumentValue
  text : Bytes → ArgumentValue

-- `ScriptArgument`
pub record ScriptArgument : Type 0 where
  pub typ : ℕ
  pub value : ArgumentValue

-- `Script`
pub record Script : Type 0 where
  pub name : Bytes
  pub args : List ScriptArgument

pub data ScriptError : Type 0 where
  illegal_length : ScriptError
  bad_slice : CodecError → ScriptError

-- `new(ScriptArgument)`
abbrev pub new_argument : ScriptArgument
new_argument = record { typ = 0; value = no_value }

unfoldable pub show_value : ArgumentValue → Bytes
show_value no_value = []
show_value (number v) = e64func v
show_value (text v) = eslice v

-- `ScriptArgument.Show`
unfoldable pub show_argument : ScriptArgument → Bytes
show_argument a = e32func a.typ ++ show_value a.value

abbrev pub of_codec : {A : Type 0} → Result CodecError A → Result ScriptError A
of_codec (ok a) = ok a
of_codec (err e) = err (bad_slice e)

-- The value behind the type. A type that is none of the five reads nothing: the bytes of the type
-- are not passed over, and the value stays.
unfoldable pub read_value : ℕ → ArgumentValue → Bytes → Result ScriptError (ArgumentValue × Bytes)
read_value typ old data_ =
    if (typ == amount_type) || (typ == percentage_type)
    then (if ltb (length (drop 4 data_)) 8
        then err illegal_length
        else (of_codec (d64func (take 8 (drop 4 data_))) >>= λ v.
            ok (number v, drop 8 (drop 4 data_))))
    else if (typ == order_type) || ((typ == address_type) || (typ == token_id_type))
    then (of_codec (dslice (drop 4 data_)) >>= λ found. ok (text found.0, found.1))
    else ok (old, data_)

-- `ScriptArgument.Read`
unfoldable pub read_argument : ScriptArgument → Bytes → Result ScriptError (ScriptArgument × Bytes)
read_argument a data_ =
    if ltb (length data_) 4
    then err illegal_length
    else (of_codec (d32func (take 4 data_)) >>= λ typ. read_value typ a.value data_ >>= λ found.
        ok (record { typ = typ; value = found.0 }, found.1))

unfoldable pub show_all : List ScriptArgument → Bytes
show_all [] = []
show_all (a ∷ args) = show_argument a ++ show_all args

-- `Script.Show`: the count is the low 32 bits of the number of arguments.
unfoldable pub show_script : Script → Bytes
show_script s =
    let n = length s.args % 2 ^ 32 in e32func n ++ (eslice s.name ++ show_all (take n s.args))

-- The loop of `Script.Read` over the first `n` arguments of the receiver.
unfoldable pub read_all :
    ℕ → List ScriptArgument → Bytes → Result ScriptError (List ScriptArgument × Bytes)
read_all zero args data_ = ok (args, data_)
read_all (suc n) [] data_ = ok ([], data_)
read_all (suc n) (a ∷ args) data_ = do
  found ← read_argument a data_
  rest ← read_all n args found.1
  ok (found.0 ∷ rest.0, rest.1)

-- `Script.Read`: with fewer arguments than the count, the receiver gets new ones.
unfoldable pub read_script : Script → Bytes → Result ScriptError (Script × Bytes)
read_script a data_ =
    if ltb (length data_) 4
    then err illegal_length
    else (of_codec (d32func (take 4 data_)) >>= λ n. of_codec (dslice (drop 4 data_)) >>= λ name.
        read_all n (if ltb (length a.args % 2 ^ 32) n then replicate n new_argument else a.args)
          name.1
        >>= λ found. ok (record { name = name.0; args = found.0 }, found.1))
