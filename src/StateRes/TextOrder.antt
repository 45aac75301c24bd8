-- ===== src/StateRes/TextOrder.antt =====
-- The order of texts by code points is asymmetric, as the order of event IDs has to be.
use Prim.Native.Nat.{Ordering, compare as compare_ℕ}
use Prim.Native.Char.{code}
use Prim.Native.String.compare
use Prim.Native.String.{String, [], ◌∷◌, compare, then}
use arcana_server.Common.{◌≡◌, refl, sym, ◌∙◌, ap, true, false, arith, ℕ}
use arcana_server.StateRes.Resolve.Mainline.{is_gt}

then-asymmetric :
    (a b : ℕ) (s t : Ordering)
    → (is_gt s ≡ true → is_gt t ≡ false)
    → is_gt (then (compare_ℕ a b) s) ≡ true
    → is_gt (then (compare_ℕ b a) t) ≡ false
then-asymmetric a b s t f h = ground arith

pub compare-asymmetric : (s t : String) → is_gt (compare s t) ≡ true → is_gt (compare t s) ≡ false
compare-asymmetric [] [] h = refl
compare-asymmetric [] (d ∷ t) h = ground (arith, sym (ap is_gt (compare.nil-cons d t)) ∙ h)
compare-asymmetric (c ∷ s) [] h = ap is_gt (compare.nil-cons c s)
compare-asymmetric (c ∷ s) (d ∷ t) h =
    ap is_gt (compare.cons-cons d c t s)
    ∙ then-asymmetric (code c) (code d) (compare s t) (compare t s) (compare-asymmetric s t)
        (sym (ap is_gt (compare.cons-cons c d s t)) ∙ h)
