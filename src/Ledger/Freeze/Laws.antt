-- ===== src/Ledger/Freeze/Laws.antt =====
-- What freezing and thawing do to an account's three figures.
use korthochain.Common.{
  ℕ, ◌+◌, ◌-◌, ◌^◌, ◌<◌, ◌≤◌, ◌≡◌, ◌≢◌, refl, sym, ◌∙◌, ap, ltb, arith, inl, inr, Bool-cases, ◌⊎◌,
}
use korthochain.Common.Word.{◌+64◌, ◌-64◌, IsU64}
use korthochain.Common.Bytes.{Bytes, bytes_eq_ne}
use korthochain.Common.Outcome.{Result, ok, err}
use korthochain.Address.{Address}
use korthochain.Ledger.State.{Env, IsStateDb, LedgerError, insufficient, too_much_thawed}
use korthochain.Ledger.Query.{
  common_addr, store_addr, freeze_key, get_balance, all_freeze_balance, single_freeze_balance,
  available_balance,
}
use korthochain.Ledger.Supply.{balance-put_self, balance-put_ne}
use korthochain.Ledger.Laws.{available_balance_lem, get_balance_lem}
use korthochain.Ledger.Freeze.{set_freeze_account, check_freeze, check_thaw, write_freeze}

-- The account that holds what `f` has frozen for the notary `to`.
abbrev pub single_slot : {S : Type 0} → Env S → Bytes → Address → Bytes
single_slot env f to = store_addr env (store_addr env f freeze_key) to.payload

abbrev pub all_slot : {S : Type 0} → Env S → Bytes → Bytes
all_slot env f = store_addr env f freeze_key

-- An account whose three figures are kept apart, fit machine words, and are consistent: no more
-- is frozen than there is.
pub record IsSound {S : Type 0} (env : Env S) (s : S) (from to : Address) (f : Bytes) : Type 0 where
  pub addr : common_addr env from ≡ ok f
  pub apart_all : f ≢ all_slot env f
  pub apart_single : f ≢ single_slot env f to
  pub apart_slots : all_slot env f ≢ single_slot env f to
  pub balance_fits : IsU64 (env.balance_of s f)
  pub single_fits : IsU64 (env.balance_of s (single_slot env f to))
  pub covered : env.balance_of s (all_slot env f) ≤ env.balance_of s f

module _ {S : Type 0} (env : Env S) (s : S) (from to : Address) {f : Bytes}
    (h : IsSound env s from to f) where
  -- The figures that `setFreezeAccount` writes.
  abbrev written : ℕ → ℕ → ℕ → S
  written single all balance =
      env.put_balance
        (env.put_balance (env.put_balance s (single_slot env f to) single) (all_slot env f) all) f
        balance

  single_lem : single_freeze_balance env from to s ≡ ok (env.balance_of s (single_slot env f to))
  unfolding single_freeze_balance
  single_lem = rw (h.addr, single_freeze_balance) (ap ok (omega (arith, h.single_fits)))

  all_lem : all_freeze_balance env from s ≡ ok (env.balance_of s (all_slot env f))
  unfolding all_freeze_balance
  all_lem = rw (h.addr, all_freeze_balance) (ap ok (omega (arith, h.covered, h.balance_fits)))

  free_lem :
      available_balance env from s ≡ ok (env.balance_of s f - env.balance_of s (all_slot env f))
  free_lem =
      available_balance_lem env s from f h.addr h.balance_fits
        (omega (arith, h.covered, h.balance_fits))
      ∙ ground (arith, h.covered)

  module _ (db : IsStateDb env) where
    write_lem :
        (gas single all : ℕ)
        → env.balance_of s f + gas < 2 ^ 64
        → write_freeze env from to gas single all s
          ≡ (ok tt, written single all (env.balance_of s f -64 gas))
    unfolding write_freeze get_balance
    write_lem gas single all room =
        let s1 : S = env.put_balance s (single_slot env f to) single in
        let s2 : S = env.put_balance s1 (all_slot env f) all in
        let kept : env.balance_of s2 f ≡ env.balance_of s f =
          balance-put_ne env db s1 (all_slot env f) all f
            (bytes_eq_ne _ _ (λ e. h.apart_all (sym e)))
          ∙ balance-put_ne env db s (single_slot env f to) single f
              (bytes_eq_ne _ _ (λ e. h.apart_single (sym e))) in
        ground (arith, h.addr, kept, get_balance_lem env s2 from f h.addr (rw kept h.balance_fits))

    -- The figures after the writes.
    written_lem :
        (single all balance : ℕ)
        → let s' = written single all balance in
          (env.balance_of s' f ≡ balance)
          × (env.balance_of s' (all_slot env f) ≡ all)
          × (env.balance_of s' (single_slot env f to) ≡ single)
    written_lem single all balance =
        let s1 : S = env.put_balance s (single_slot env f to) single in
        let s2 : S = env.put_balance s1 (all_slot env f) all in
        (
          balance-put_self env db s2 f balance,
          balance-put_ne env db s2 f balance (all_slot env f) (bytes_eq_ne _ _ h.apart_all)
              ∙ balance-put_self env db s1 (all_slot env f) all,
          balance-put_ne env db s2 f balance (single_slot env f to) (bytes_eq_ne _ _ h.apart_single)
              ∙ balance-put_ne env db s1 (all_slot env f) all (single_slot env f to)
                  (bytes_eq_ne _ _ h.apart_slots)
              ∙ balance-put_self env db s (single_slot env f to) single,
        )

    -- What the call leaves: it succeeded, and the account's balance, frozen total and amount frozen
    -- for the notary are as given.
    abbrev pub Leaves : Result LedgerError (Unit {0}) × S → ℕ → ℕ → ℕ → Type 0
    Leaves out balance all single =
        (out.0 ≡ ok tt)
        × (env.balance_of out.1 f ≡ balance)
        × (env.balance_of out.1 (all_slot env f) ≡ all)
        × (env.balance_of out.1 (single_slot env f to) ≡ single)

    freeze_runs :
        (amount gas : ℕ)
        → amount ≤ env.balance_of s f - env.balance_of s (all_slot env f) + gas
        → env.balance_of s f + gas < 2 ^ 64
        → env.balance_of s (all_slot env f) + gas + amount < 2 ^ 64
        → env.balance_of s (single_slot env f to) + gas + amount < 2 ^ 64
        → set_freeze_account env from to amount gas 1 s ≡ (
          ok tt,
          written
              (env.balance_of s (single_slot env f to) + amount)
              (env.balance_of s (all_slot env f) + amount)
              (env.balance_of s f -64 gas),
        )
    unfolding set_freeze_account check_freeze
    freeze_runs amount gas free room all_room single_room =
        let single : ℕ = env.balance_of s (single_slot env f to) in
        let all : ℕ = env.balance_of s (all_slot env f) in
        let single_sum : single +64 amount ≡ single + amount = omega arith in
        let all_sum : all +64 amount ≡ all + amount = omega arith in
        let wrote = write_lem gas (single + amount) (all + amount) room in
        ground (arith, single_lem, all_lem, free_lem, wrote, single_sum, all_sum)

    -- On a sound account, freezing an amount that the free balance covers together with the gas
    -- adds it to both frozen figures, takes the gas off the balance, and leaves no more frozen
    -- than there is, where the balance with the gas, and the amount frozen for the notary with
    -- the gas and the amount, stay below 2 ^ 64.
    pub freeze_exact :
        (amount gas : ℕ)
        → amount + gas + env.balance_of s (all_slot env f) ≤ env.balance_of s f
        → env.balance_of s f + gas < 2 ^ 64
        → env.balance_of s (single_slot env f to) + gas + amount < 2 ^ 64
        → Leaves
            (set_freeze_account env from to amount gas 1 s)
            (env.balance_of s f - gas)
            (env.balance_of s (all_slot env f) + amount)
            (env.balance_of s (single_slot env f to) + amount)
          × (env.balance_of s (all_slot env f) + amount ≤ env.balance_of s f - gas)
    freeze_exact amount gas free room single_room =
        let exact : env.balance_of s f -64 gas ≡ env.balance_of s f - gas =
          omega (arith, h.balance_fits) in
        let figures =
          written_lem (env.balance_of s (single_slot env f to) + amount)
            (env.balance_of s (all_slot env f) + amount) (env.balance_of s f -64 gas) in
        rw (freeze_runs amount gas (omega arith) room (omega arith) single_room)
          ((refl, figures.0 ∙ exact, figures.1, figures.2), omega arith)

    -- On a sound account whose balance is below the gas, freezing is accepted for any amount up
    -- to the free balance plus the gas, and the balance comes out as itself plus 2 ^ 64 less the
    -- gas, where the balance with the gas, and each frozen figure with the gas and the amount,
    -- stay below 2 ^ 64.
    freeze_wraps :
        (amount gas : ℕ)
        → amount ≤ env.balance_of s f - env.balance_of s (all_slot env f) + gas
        → env.balance_of s f < gas
        → env.balance_of s f + gas < 2 ^ 64
        → env.balance_of s (all_slot env f) + gas + amount < 2 ^ 64
        → env.balance_of s (single_slot env f to) + gas + amount < 2 ^ 64
        → Leaves
            (set_freeze_account env from to amount gas 1 s)
            (env.balance_of s f + (2 ^ 64 - gas))
            (env.balance_of s (all_slot env f) + amount)
            (env.balance_of s (single_slot env f to) + amount)
    freeze_wraps amount gas free poor room all_room single_room =
        let wraps : env.balance_of s f -64 gas ≡ env.balance_of s f + (2 ^ 64 - gas) =
          omega arith in
        let figures =
          written_lem (env.balance_of s (single_slot env f to) + amount)
            (env.balance_of s (all_slot env f) + amount) (env.balance_of s f -64 gas) in
        rw (freeze_runs amount gas free room all_room single_room)
          (refl, figures.0 ∙ wraps, figures.1, figures.2)

    -- On a sound account, thawing an amount that both frozen figures hold, with the gas covered
    -- by the free balance and the balance with the gas below 2 ^ 64, takes it off both figures
    -- and the gas off the balance, and leaves no more frozen than there is.
    pub thaw_exact :
        (amount gas : ℕ)
        → amount ≤ env.balance_of s (single_slot env f to)
        → amount ≤ env.balance_of s (all_slot env f)
        → gas + env.balance_of s (all_slot env f) ≤ env.balance_of s f
        → env.balance_of s f + gas < 2 ^ 64
        → Leaves
            (set_freeze_account env from to amount gas 0 s)
            (env.balance_of s f - gas)
            (env.balance_of s (all_slot env f) - amount)
            (env.balance_of s (single_slot env f to) - amount)
          × (env.balance_of s (all_slot env f) - amount ≤ env.balance_of s f - gas)
    unfolding set_freeze_account check_thaw
    thaw_exact amount gas hs ha cover room =
        let single : ℕ = env.balance_of s (single_slot env f to) in
        let all : ℕ = env.balance_of s (all_slot env f) in
        let single_less : single -64 amount ≡ single - amount = omega (arith, h.single_fits) in
        let all_less : all -64 amount ≡ all - amount = omega (arith, h.covered, h.balance_fits) in
        let exact : env.balance_of s f -64 gas ≡ env.balance_of s f - gas =
          omega (arith, h.balance_fits) in
        let wrote = write_lem gas (single - amount) (all - amount) room in
        let runs : set_freeze_account env from to amount gas 0 s
            ≡ (ok tt, written (single - amount) (all - amount) (env.balance_of s f -64 gas)) =
          ground (arith, single_lem, all_lem, free_lem, wrote, single_less, all_less) in
        let figures = written_lem (single - amount) (all - amount) (env.balance_of s f -64 gas) in
        rw runs ((refl, figures.0 ∙ exact, figures.1, figures.2), omega arith)

    -- On a sound account, thawing more than is frozen for the notary, or in all, is an error, and
    -- the state stays as it was.
    pub thaw-refused :
        (amount gas : ℕ)
        → (env.balance_of s (single_slot env f to) < amount)
          ⊎ (env.balance_of s (all_slot env f) < amount)
        → (e : LedgerError) × (set_freeze_account env from to amount gas 0 s ≡ (err e, s))
    unfolding set_freeze_account check_thaw
    thaw-refused amount gas over =
        let free : ℕ = env.balance_of s f - env.balance_of s (all_slot env f) in
        elim (Bool-cases (ltb free gas)) [
          | inl poor ↦ (insufficient, ground (arith, single_lem, all_lem, free_lem))
          | inr paid ↦ (too_much_thawed, ground (arith, single_lem, all_lem, free_lem))
        ]
