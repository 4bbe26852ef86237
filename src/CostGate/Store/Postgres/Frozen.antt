-- ===== src/CostGate/Store/Postgres/Frozen.antt =====
-- packages/cost-gate/src/durable/reservationStore.ts: the ceilings that the rows of the counters keep.
use byok_business_autopilot.Base.{
  ℕ, ◌≡◌, refl, sym, ◌∙◌, ap, subst, some, List, [], ◌∷◌, map, Result, ◌>>=◌, inl, inr, nat_eq,
  Bool-cases,
}
use byok_business_autopilot.Base.Int.{ℤ, ◌+ℤ◌}
use byok_business_autopilot.Base.Dict.{Dict, lookup, insert}
use byok_business_autopilot.CostGate.Ceilings.{is_over, CeilingConfig, CeilingLevel}
use byok_business_autopilot.CostGate.Ledger.{status_eq}
use byok_business_autopilot.CostGate.Store.Keys.{Day, CounterKey, key_eq, keys_of}
use byok_business_autopilot.CostGate.Store.Accounts.{Present, insert-Present}
use byok_business_autopilot.CostGate.Store.Invariant.{levels_for-keys}
use byok_business_autopilot.CostGate.Store.{
  Store, Counter, LevelEntry, ReserveInput, entry_key, levels_for,
}
use byok_business_autopilot.CostGate.Store.Postgres.{charge_levels, charge_row, reserve_transaction}

-- Entries of the same counters.
abbrev SameKeys : ℕ → List LevelEntry → List LevelEntry → Type 0
SameKeys t [] [] = Unit
SameKeys t (e ∷ es) (d ∷ ds) = (entry_key t e ≡ entry_key t d) × SameKeys t es ds
SameKeys t _ _ = ⊥

-- The rounds from a row that is there.
rounds :
    ℕ
    → ℤ
    → Counter
    → Dict CounterKey Counter
    → CounterKey
    → List LevelEntry
    → Result CeilingLevel (Dict CounterKey Counter)
rounds t a row cs k es =
    charge_row k k.level a row (insert k row cs) >>= λ charged. charge_levels t a es charged

charge_levels-cons :
    (t : ℕ) (a : ℤ) (e : LevelEntry) (es : List LevelEntry) (cs : Dict CounterKey Counter)
    (row : Counter)
    → lookup (entry_key t e) cs ≡ some row
    → charge_levels t a (e ∷ es) cs ≡ rounds t a row cs (entry_key t e) es
unfolding charge_levels rounds
charge_levels-cons t a e es cs row f = rw f

rounds-same :
    (t : ℕ) (a : ℤ) (row : Counter) (cs : Dict CounterKey Counter) (k : CounterKey)
    (es ds : List LevelEntry)
    → ((cs' : Dict CounterKey Counter)
        → Present (map (entry_key t) es) cs'
        → charge_levels t a es cs' ≡ charge_levels t a ds cs')
    → Present (map (entry_key t) es) cs
    → rounds t a row cs k es ≡ rounds t a row cs k ds
unfolding rounds
rounds-same t a row cs k es ds ih p = elim (Bool-cases (is_over row.ceiling (row.total +ℤ a))) [
  | inl over ↦ rw over
  | inr room ↦ rw room (ih _ (insert-Present _ k _ _ (insert-Present _ k row cs p)))
]

charge_levels-same :
    (t : ℕ) (a : ℤ) (es ds : List LevelEntry) (cs : Dict CounterKey Counter)
    → SameKeys t es ds
    → Present (map (entry_key t) es) cs
    → charge_levels t a es cs ≡ charge_levels t a ds cs
charge_levels-same t a [] [] cs h p = refl
charge_levels-same t a (e ∷ es) (d ∷ ds) cs (k, h) ((row, f), p) =
    charge_levels-cons t a e es cs row f
    ∙ rounds-same t a row cs (entry_key t e) es ds (λ cs' p'. charge_levels-same t a es ds cs' h p')
        p
    ∙ ap (λ j. rounds t a row cs j ds) k
    ∙ sym (charge_levels-cons t a d ds cs row (subst (λ j. lookup j cs ≡ some row) k f))
charge_levels-same t a [] (d ∷ ds) cs h p = absurd h
charge_levels-same t a (e ∷ es) [] cs h p = absurd h

levels_for-SameKeys :
    (input : ReserveInput) (c d : CeilingConfig) (day : Day)
    → SameKeys input.tenant_id (levels_for input c day) (levels_for input d day)
unfolding levels_for
levels_for-SameKeys input c d day = (refl, (refl, (refl, (refl, tt))))

-- Once the four counters of a task have rows, the configured ceilings are no longer read: under any
-- other configuration the transaction gives the same verdict and the same tables.
pub reserve_transaction_ignores_ceilings :
    (id : ℕ) (day created_on : Day) (input : ReserveInput) (c d : CeilingConfig) (s : Store)
    → Present (keys_of input.tenant_id input.role_id input.type_id day) s.counters
    → reserve_transaction id day created_on input c s
      ≡ reserve_transaction id day created_on input d s
unfolding reserve_transaction
reserve_transaction_ignores_ceilings id day created_on input c d s p = rw (
  charge_levels-same input.tenant_id input.amount (levels_for input c day) (levels_for input d day)
      s.counters (levels_for-SameKeys input c d day)
      (subst (λ ks. Present ks s.counters) (sym (levels_for-keys input c day)) p),
  reserve_transaction,
)
