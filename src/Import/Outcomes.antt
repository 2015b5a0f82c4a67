-- ===== src/Import/Outcomes.antt =====
-- What a function of importFromDump comes to.
use glitchgate.Prelude.{ℕ, List}
use glitchgate.Export.Lines.{LineError}

pub data ImportError (Error : Type 0) : Type 0 where
  unsupported_version : ℕ → ImportError Error
  bad_line : LineError → ImportError Error
  bad_value : List ℕ → ImportError Error
  worker_failed : Error → ImportError Error
  pragma_refused no_bool_columns sequence_failed : Error → ImportError Error
  line_too_long : ImportError Error

-- `crashes` is a Go run-time error, for an index or a slice that is out of range.
pub data Outcome {ℓ} (Error : Type 0) (A : Type ℓ) : Type ℓ where
  done : A → Outcome Error A
  failed : ImportError Error → Outcome Error A
  crashes : Outcome Error A

abbrev pub and_then {ℓ κ} :
    {Error : Type 0} {A : Type ℓ} {B : Type κ}
    → Outcome Error A
    → (A → Outcome Error B)
    → Outcome Error B
and_then (done a) k = k a
and_then (failed e) k = failed e
and_then crashes k = crashes

-- The outcome is a result, and the result has the property.
abbrev pub Gives {ℓ} : {Error : Type 0} {A : Type ℓ} → (A → Type 0) → Outcome Error A → Type 0
Gives P (done a) = P a
Gives P (failed e) = ⊥
Gives P crashes = ⊥

-- The result, where the outcome is one, has the property.
abbrev pub Allows {ℓ} : {Error : Type 0} {A : Type ℓ} → (A → Type 0) → Outcome Error A → Type 0
Allows P (done a) = P a
Allows P (failed e) = Unit
Allows P crashes = Unit

pub Allows-any {ℓ} : {Error : Type 0} {A : Type ℓ} (o : Outcome Error A) → Allows (λ a. Unit {0}) o
Allows-any (done a) = tt
Allows-any (failed e) = tt
Allows-any crashes = tt

pub Gives-and_then {ℓ κ} :
    {Error : Type 0} {A : Type ℓ} {B : Type κ} (P : A → Type 0) (Q : B → Type 0)
    (o : Outcome Error A) (k : A → Outcome Error B)
    → Gives P o
    → ((a : A) → P a → Gives Q (k a))
    → Gives Q (and_then o k)
Gives-and_then P Q (done a) k p f = f a p
Gives-and_then P Q (failed e) k p f = absurd p
Gives-and_then P Q crashes k p f = absurd p

pub Allows-and_then {ℓ κ} :
    {Error : Type 0} {A : Type ℓ} {B : Type κ} (P : A → Type 0) (Q : B → Type 0)
    (o : Outcome Error A) (k : A → Outcome Error B)
    → Allows P o
    → ((a : A) → P a → Allows Q (k a))
    → Allows Q (and_then o k)
Allows-and_then P Q (done a) k p f = f a p
Allows-and_then P Q (failed e) k p f = tt
Allows-and_then P Q crashes k p f = tt
