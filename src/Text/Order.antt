-- ===== src/Text/Order.antt =====
-- The order of texts in src/ddmp/discovery.py is total.
use dometic_ddmp.Base.{◌≡◌, refl, false, true, [], ◌∷◌, ==_iff, arith}
use dometic_ddmp.Text.{Text, text_leb}

pub text_leb_total : (a b : Text) → text_leb a b ≡ false → text_leb b a ≡ true
unfolding text_leb
text_leb_total [] b h = absurd (ground arith)
text_leb_total (x ∷ a) [] h = refl
text_leb_total (x ∷ a) (y ∷ b) h = ground (arith, ==_iff x y, ==_iff y x, text_leb_total a b)
