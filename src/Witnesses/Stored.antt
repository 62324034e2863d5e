-- ===== src/Witnesses/Stored.antt =====
-- Flags stored in the environment.
use go_sdk_contrib.Common.{ℕ, ◌≡◌, refl, inl, inr, Bool, true, false, [], ◌∷◌, eqb}
use go_sdk_contrib.OpenFeature.{pos, Any, bool, string, Fields, empty, field, get}
use go_sdk_contrib.FromEnv.Eval.{Variant, values_equal, meets, applies, evaluate}
use go_sdk_contrib.FromEnv.Provider.{Host}
use go_sdk_contrib.FromEnv.Variants.{evaluate-first}
use go_sdk_contrib.Witnesses.Sdk.{small_sdk}

abbrev unequal : Any ℕ ℕ → Any ℕ ℕ → Bool
unequal v w = false

abbrev premium : Variant ℕ ℕ
premium = record {
  criteria = record { key = "plan"; value = string "premium" } ∷ [];
  targeting_key = "";
  value = bool true;
  name = "on";
}

abbrev anyone : Variant ℕ ℕ
anyone = record { criteria = []; targeting_key = "admin"; value = bool false; name = "off" }

abbrev ctx : Fields ℕ ℕ
ctx = field "plan" (string "premium") empty

evaluate-first_example :
    evaluate eqb unequal small_sdk ctx
      (record { default_variant = "off"; variants = anyone ∷ premium ∷ [] })
    ≡ inr (record { variant = "on"; reason = "TARGETING_MATCH"; value = bool true })
unfolding applies meets values_equal get
evaluate-first_example =
    evaluate-first eqb unequal small_sdk ctx "off" (anyone ∷ []) [] premium
      ((λ h. elim h.0 [ inl e ↦ cc | inr e ↦ cc ]), tt)
      (inl refl, ((string "premium", refl, refl), tt))

abbrev unset : Host ℕ ℕ
unset = record {
  getenv = λ key. "";
  unmarshal = λ text. inl "bad";
  float_eq = eqb;
  reflect_equal = unequal;
  truncate = λ f. pos f;
}
