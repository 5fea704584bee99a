-- ===== src/Base/Order.antt =====
-- The order of texts, of code points or of bytes, is strict and total.
use mathlib.Core.Path.{◌≡◌, refl}
use mathlib.Core.Bool.{true, false}
use mathlib.Core.List.{[], ◌∷◌}
use native.Mathlib.Omega.{arith}
use fineco_helper.Base.Codes.{Text, text_lt, text_eq}

pub text_lt_asym : (s t : Text) → text_lt s t ≡ true → text_lt t s ≡ false
text_lt_asym [] [] h = cc
text_lt_asym [] (d ∷ ds) h = refl
text_lt_asym (c ∷ cs) [] h = cc
text_lt_asym (c ∷ cs) (d ∷ ds) h = ground (arith, text_lt_asym cs ds)

pub text_lt_total : (s t : Text) → text_eq s t ≡ false → text_lt s t ≡ false → text_lt t s ≡ true
text_lt_total [] [] h k = cc
text_lt_total [] (d ∷ ds) h k = cc
text_lt_total (c ∷ cs) [] h k = refl
text_lt_total (c ∷ cs) (d ∷ ds) h k = ground (arith, text_lt_total cs ds)

pub text_lt_trans : (s t u : Text) → text_lt s t ≡ true → text_lt t u ≡ true → text_lt s u ≡ true
text_lt_trans s [] [] h k = cc
text_lt_trans s (d ∷ ds) [] h k = cc
text_lt_trans [] t (e ∷ es) h k = refl
text_lt_trans (c ∷ cs) [] (e ∷ es) h k = cc
text_lt_trans (c ∷ cs) (d ∷ ds) (e ∷ es) h k = ground (arith, text_lt_trans cs ds es)
