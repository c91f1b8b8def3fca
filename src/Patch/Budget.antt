-- ===== src/Patch/Budget.antt =====
-- pkg/patch/budget.go: how many clause checks and bytes one request may cost. Zero lifts a cap, and
-- so does a negative number in Go, which is zero here.
use scim_go.Prelude.{ℕ, ◌+◌, Bool, ltb, ◌&&◌, if◌then◌else◌}
use scim_go.Errors.{Result, ok, err, err_too_large}

pub record Budget : Type 0 where
  pub max : ℕ
  pub spent : ℕ
  pub max_output_bytes : ℕ
  pub output_spent : ℕ

-- DefaultMaxWriteBytes, in the budget that Apply starts with
unfoldable pub default_budget : Budget
default_budget = record { max = 0; spent = 0; max_output_bytes = 8388608; output_spent = 0 }

-- MaxFilterEvaluations
unfoldable pub max_filter_evaluations : ℕ → Budget → Budget
max_filter_evaluations n b = record b { max = n }

-- MaxWriteBytes
unfoldable pub max_write_bytes : ℕ → Budget → Budget
max_write_bytes n b = record b { max_output_bytes = n }

-- the tests of charge and chargeBytes
unfoldable pub exceeds : ℕ → ℕ → Bool
exceeds cap spent = ltb 0 cap && ltb cap spent

-- budget.charge
unfoldable pub charge : Budget → ℕ → Result Budget
unfolding exceeds
charge b evaluations =
    let spent = b.spent + evaluations in
    if exceeds b.max spent then err err_too_large else ok (record b { spent = spent })

-- budget.chargeBytes
unfoldable pub charge_bytes : Budget → ℕ → Result Budget
unfolding exceeds
charge_bytes b n =
    let spent = b.output_spent + n in
    if exceeds b.max_output_bytes spent
    then err err_too_large
    else ok (record b { output_spent = spent })
