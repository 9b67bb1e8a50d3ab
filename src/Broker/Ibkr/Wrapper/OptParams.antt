-- ===== src/Broker/Ibkr/Wrapper/OptParams.antt =====
-- The callbacks of the option parameters (internal/broker/ibkr/wrapper.go): the union of what the
-- exchanges send. The orders in which Go walks the two sets are parameters.
use optix.Base.{Bool, true, false, List, [], ◌∷◌, if◌then◌else◌}
use optix.Base.Int.{ℤ, eqb_ℤ}
use optix.Base.Text.{Text, text_eq}
use optix.Broker.Ibkr.Float.{Float, finite, plus_infinity, minus_infinity, nan}
use optix.Broker.Ibkr.Quote.{is_empty}
use optix.Broker.Ibkr.Registry.{modify}
use optix.Broker.Ibkr.Pending.{PendingOptParams}
use optix.Broker.Ibkr.Wrapper.{Wrapper}

-- `x == y`, where NaN is not equal to itself
abbrev same_float : Float → Float → Bool
same_float (finite a) y = elim y [ finite b ↦ eqb_ℤ a b | _ ↦ false ]
same_float plus_infinity y = elim y [ plus_infinity ↦ true | _ ↦ false ]
same_float minus_infinity y = elim y [ minus_infinity ↦ true | _ ↦ false ]
same_float nan y = false

-- A set, as a list without repetitions.
module _ {A : Type 0} (same : A → A → Bool) where
  unfoldable pub add : A → List A → List A
  add a [] = a ∷ []
  add a (b ∷ bs) = let rest = add a bs in if same a b then b ∷ bs else b ∷ rest

  unfoldable pub union : List A → List A → List A
  unfolding add
  union [] bs = bs
  union (a ∷ more) bs = union more (add a bs)

unfoldable pub add_params : Text → List Text → List Float → PendingOptParams → PendingOptParams
unfolding union text_eq
add_params multiplier expirations strikes p = record p {
  exp_set = union text_eq expirations p.exp_set;
  strike_set = union same_float strikes p.strike_set;
  multiplier = if is_empty p.multiplier then multiplier else p.multiplier;
}

module _ {Bar Position Execution : Type 0} where
  unfoldable pub security_definition_option_parameter :
      ℤ
      → Text
      → List Text
      → List Float
      → Wrapper Bar Position Execution
      → Wrapper Bar Position Execution
  unfolding modify add_params
  security_definition_option_parameter id multiplier expirations strikes w = record w {
    opt_params = modify id (add_params multiplier expirations strikes) w.opt_params;
  }

  unfoldable pub security_definition_option_parameter_end :
      (List Text → List Text)
      → (List Float → List Float)
      → ℤ
      → Wrapper Bar Position Execution
      → Wrapper Bar Position Execution
  unfolding modify
  security_definition_option_parameter_end walk_texts walk_floats id w = record w {
    opt_params =
        modify id
          (λ (p : PendingOptParams). record p {
            expirations = walk_texts p.exp_set;
            strikes = walk_floats p.strike_set;
            done = true;
          })
          w.opt_params;
  }
