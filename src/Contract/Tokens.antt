-- ===== src/Contract/Tokens.antt =====
-- pkg/contract/exec/exec.go: what the scripts of a token contract do. The figures of a token stand
-- in a map of bytes until they are flushed; what the map does not hold is read from the StateDB.
use korthochain.Common.{
  ℕ, ◌+◌, ◌-◌, ◌%◌, ◌^◌, List, [], ◌∷◌, ◌++◌, Bool, not, Option, none, some, take, length,
  get_elem?, ltb, if◌then◌else◌,
}
use korthochain.Common.Word.{◌+64◌, ◌-64◌}
use korthochain.Common.Bytes.{Bytes, ascii, bytes_eq}
use korthochain.Common.Digits.{digits_value}
use korthochain.Common.Outcome.{Result, ok, err}
use korthochain.Common.Action.{Action, pure, raise, query, ◌>>=◌, ◌>>◌, raise_if, modify}
use korthochain.Codec.{e64func}
use korthochain.Address.{AddressError, Network, decode, new_common_addr}
use korthochain.Contract.Script.{ScriptArgument, no_value, number, text}

-- The store, the figures of the StateDB by their keys, and how go-ethereum writes an account.
pub record TokenEnv : Type 0 where
  pub lookup : Bytes → Option Bytes
  pub figure_of : Bytes → ℕ
  pub sha1 : Bytes → Bytes
  pub account_text : Bytes → Bytes
  pub network : Network

pub data TokenError : Type 0 where
  token_exist not_exist permission_denied insufficient overflow panicked : TokenError
  bad_address : AddressError → TokenError

-- `mp map[string]string`: the newest entry of a key counts.
abbrev pub TokenMap : Type 0
TokenMap = List (Bytes × Bytes)

abbrev pub Deal : Type 0 → Type 0
Deal A = Action TokenMap TokenError A

unfoldable pub find_entry : TokenMap → Bytes → Option Bytes
find_entry [] key = none
find_entry ((k, v) ∷ mp) key =
    let rest = find_entry mp key in if bytes_eq k key then some v else rest

abbrev pub put_entry : Bytes → Bytes → Deal (Unit {0})
put_entry key v = modify (λ mp. (key, v) ∷ mp)

-- `aKey`, `bKey`, `pKey`, `fKey`, `tKey`, `cKey`
abbrev pub a_key : Bytes → Bytes
a_key id = id

abbrev pub b_key : Bytes → Bytes → Bytes
b_key id addr = ascii "b/" ++ (id ++ addr)

abbrev pub p_key : Bytes → Bytes
p_key id = ascii "p/" ++ id

abbrev pub f_key : Bytes → Bytes → Bytes
f_key id addr = ascii "F/" ++ (id ++ addr)

abbrev pub t_key : Bytes → Bytes → Bytes
t_key id addr = ascii "t/" ++ (id ++ addr)

abbrev pub c_key : Bytes → Bytes → Bytes
c_key id addr = ascii "c/" ++ (id ++ addr)

-- `binary.LittleEndian.Uint64`: it panics on fewer than eight bytes and ignores what follows them.
unfoldable pub read_u64 : Bytes → Result TokenError ℕ
read_u64 v = if ltb (length v) 8 then err panicked else ok (digits_value 256 (take 8 v))

-- `v, _ := sc.Arguments()[i].Value().(uint64)`: a value of another type reads as 0.
unfoldable pub number_argument : List ScriptArgument → ℕ → Result TokenError ℕ
number_argument args i = elim (get_elem? args i) [
  | none ↦ err panicked
  | some a ↦ elim a.value [ no_value ↦ ok 0 | number v ↦ ok v | text v ↦ ok 0 ]
]

unfoldable pub text_argument : List ScriptArgument → ℕ → Result TokenError Bytes
text_argument args i = elim (get_elem? args i) [
  | none ↦ err panicked
  | some a ↦ elim a.value [ no_value ↦ ok [] | number v ↦ ok [] | text v ↦ ok v ]
]

-- `<` on the int64 values of two words.
abbrev pub int64_less : ℕ → ℕ → Bool
int64_less a b = ltb ((a + 2 ^ 63) % 2 ^ 64) ((b + 2 ^ 63) % 2 ^ 64)

module _ (env : TokenEnv) where
  -- A figure, from the map or else from the StateDB. `sdbGet` never returns an error.
  unfoldable pub figure : Bytes → TokenMap → Result TokenError ℕ
  figure key mp = elim (find_entry mp key) [ none ↦ ok (env.figure_of key) | some v ↦ read_u64 v ]

  -- Only the executor that made a token may mint and freeze it.
  unfoldable pub check_owner : Bytes → Bytes → Deal (Unit {0})
  check_owner id executor = elim (env.lookup (a_key id)) [
    | none ↦ raise not_exist
    | some v ↦ raise_if (not (bytes_eq v executor)) permission_denied
  ]

  -- `deal0`: new tokenId total_amount precision
  unfoldable pub deal_new : Bytes → List ScriptArgument → Deal (Unit {0})
  deal_new executor args = do
    id ← query (λ _. text_argument args 0)
    total_amount ← query (λ _. number_argument args 1)
    precision ← query (λ _. number_argument args 2)
    known ← query (λ mp. ok (find_entry mp (a_key id)))
    (elim known [ none ↦ pure tt | some _ ↦ raise token_exist ])
    (elim (env.lookup (a_key id)) [ none ↦ pure tt | some _ ↦ raise token_exist ])
    put_entry id executor
    put_entry (b_key id executor) (e64func 0)
    put_entry (t_key id executor) (e64func total_amount)
    put_entry (p_key id) (e64func precision)
    put_entry (f_key id executor) (e64func 0)

  -- `deal1`: mint tokenId amount. The test that the minted tokens stay within the total is done on
  -- int64 values.
  unfoldable pub deal_mint : Bytes → List ScriptArgument → Deal (Unit {0})
  deal_mint executor args = do
    id ← query (λ _. text_argument args 0)
    amount ← query (λ _. number_argument args 1)
    check_owner id executor
    t ← query (figure (t_key id executor))
    c ← query (figure (c_key id executor))
    raise_if (int64_less (t -64 amount) c) overflow
    put_entry (c_key id executor) (e64func (c +64 amount))
    b ← query (figure (b_key id executor))
    put_entry (b_key id executor) (e64func (b +64 amount))

  -- A transfer whose figures have been read: `from < amount + free` is tested with a sum that wraps
  -- around.
  unfoldable pub settle_transfer : Bytes → Bytes → Bytes → ℕ → ℕ → ℕ → Deal (Unit {0})
  settle_transfer id executor to_addr amount free from = do
    raise_if (ltb from (amount +64 free)) insufficient
    to ← query (figure (b_key id to_addr))
    (if bytes_eq (b_key id to_addr) (b_key id executor)
        then pure tt
        else (put_entry (b_key id executor) (e64func (from -64 amount))
            >> put_entry (b_key id to_addr) (e64func (to +64 amount))))

  -- The account that a text of an address names, as go-ethereum writes it.
  unfoldable pub receiver_of : Bytes → Result TokenError Bytes
  receiver_of arg = elim (decode env.network arg) [
    | err e ↦ err (bad_address e)
    | ok addr ↦ elim (new_common_addr env.sha1 env.network addr) [
      | err e ↦ err (bad_address e)
      | ok account ↦ ok (env.account_text account)
    ]
  ]

  -- `deal2`: transfer tokenId amount address
  unfoldable pub deal_transfer : Bytes → List ScriptArgument → Deal (Unit {0})
  deal_transfer executor args = do
    id ← query (λ _. text_argument args 0)
    amount ← query (λ _. number_argument args 1)
    arg ← query (λ _. text_argument args 2)
    to_addr ← query (λ _. receiver_of arg)
    known ← query (λ mp. ok (find_entry mp (a_key id)))
    (elim known [
      | some _ ↦ pure tt
      | none ↦ elim (env.lookup (a_key id)) [ none ↦ raise not_exist | some _ ↦ pure tt ]
    ])
    free ← query (figure (f_key id executor))
    from ← query (figure (b_key id executor))
    settle_transfer id executor to_addr amount free from

  -- `deal3`: freeze tokenId address amount. The sum wraps around, and no more than the balance is
  -- frozen.
  unfoldable pub deal_freeze : Bytes → List ScriptArgument → Deal (Unit {0})
  deal_freeze executor args = do
    id ← query (λ _. text_argument args 0)
    addr ← query (λ _. text_argument args 1)
    amount ← query (λ _. number_argument args 2)
    check_owner id executor
    b ← query (figure (b_key id addr))
    f ← query (figure (f_key id addr))
    put_entry (f_key id addr) (e64func (if ltb b (f +64 amount) then b else f +64 amount))

  -- `deal4`: unfreeze tokenId address amount. The figure stops at 0.
  unfoldable pub deal_unfreeze : Bytes → List ScriptArgument → Deal (Unit {0})
  deal_unfreeze executor args = do
    id ← query (λ _. text_argument args 0)
    addr ← query (λ _. text_argument args 1)
    amount ← query (λ _. number_argument args 2)
    check_owner id executor
    t ← query (figure (f_key id addr))
    put_entry (f_key id addr) (e64func (if ltb t amount then 0 else t - amount))
